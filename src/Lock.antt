-- ===== src/Lock.antt =====
-- `parse_lock` and `release_base` of runtime/templates/runtime_metadata.py: the two formats of
-- the runtime lock. What `read_regular` gives for the lock's path is the argument `read`, and
-- what `print` writes is the list of its lines.
pub mod Version1
pub mod Sound
mod Tests
pub mod RoundTrip
use clamp.Prelude.{
  ℕ, Bool, false, ◌&&◌, ◌||◌, not, none, some, List, [], ◌∷◌, ◌++◌, ◌==◌, if◌then◌else◌, length,
  drop,
}
use clamp.Prelude.Results.{Result, ok, err, fail, key_error, ◌>>=◌, ◌>>◌, require}
use clamp.Text.{Text, codes, text_eq, mem, starts_with, splitlines}
use clamp.Utf8.{Bytes, decode}
use clamp.Patterns.{is_version, is_revision, is_digest}
use clamp.Json.{Value, pos, Document, parse_json, exact, item, bool, int, str}
use clamp.Paths.{targets}

abbrev pub linux : Text
linux = codes "linux-x86_64"

-- `f"https://github.com/gvrooyen/clamp/releases/download/v{version}/"`
unfoldable pub release_base : Text → Text
release_base version =
    codes "https://github.com/gvrooyen/clamp/releases/download/v" ++ (version ++ codes "/")

unfoldable pub lock_archive_url : Text → Text
lock_archive_url version =
    release_base version ++ (codes "clamp-" ++ (version ++ codes "-linux-x86_64.tar.gz"))

unfoldable pub lock_manifest_url : Text → Text
lock_manifest_url version =
    release_base version ++ (codes "clamp-" ++ (version ++ codes "-runtime-manifest.json"))

abbrev pub lock_keys : List Text
lock_keys = codes "version" ∷ codes "revision" ∷ codes "url" ∷ codes "sha256" ∷ []

-- The loop over `zip(lines, keys)`: the values of the fields, in the order of the keys.
unfoldable pub field_values : List Text → List Text → Result (List Text)
field_values [] keys = ok []
field_values (_ ∷ _) [] = ok []
field_values (line ∷ lines) (key ∷ keys) =
    let prefix : Text = key ++ (b'=' ∷ []) in
    let rest = field_values lines keys >>= λ vs. ok (drop (length prefix) line ∷ vs) in
    if starts_with line prefix then rest else fail "invalid v1 lock"

-- The tests on the four values, and the output.
unfoldable pub checked_v1 : List Text → Result (List Text)
checked_v1 (version ∷ revision ∷ url ∷ sha256 ∷ []) =
    if is_version version
      && is_revision revision
      && text_eq url (lock_archive_url version)
      && is_digest sha256
    then ok (codes "v1" ∷ version ∷ revision ∷ url ∷ sha256 ∷ [])
    else fail "invalid v1 lock"
checked_v1 _ = err key_error

unfoldable pub parse_lock_v1 : Bytes → Text → Result (List Text)
parse_lock_v1 raw target = elim (decode raw) [
  | none ↦ fail "invalid v1 lock"
  | some text ↦
      let lines = splitlines text in
      if not (length lines == 4) || not (text_eq target linux)
      then fail "v1 lock requires Linux x86-64 migration"
      else field_values lines lock_keys >>= checked_v1
]

-- `value == n`; in Python a `bool` is the integer 0 or 1.
unfoldable pub equals_int : Value → ℕ → Bool
equals_int (int (pos m)) n = m == n
equals_int (bool b) n = (if b then 1 else 0) == n
equals_int _ n = false

abbrev pub lock_v2_keys : List Text
lock_v2_keys =
    codes "schema_version"
    ∷ codes "version"
    ∷ codes "revision"
    ∷ codes "manifest_url"
    ∷ codes "manifest_sha256"
    ∷ []

-- The tests on the four values behind the schema's version, and the output.
unfoldable pub checked_v2 : Value → Value → Value → Value → Result (List Text)
checked_v2 (str version) (str revision) (str url) (str sha256) =
    if is_version version
      && is_revision revision
      && text_eq url (lock_manifest_url version)
      && is_digest sha256
    then ok (codes "v2" ∷ version ∷ revision ∷ url ∷ sha256 ∷ [])
    else fail "invalid v2 lock"
checked_v2 _ _ _ _ = fail "invalid v2 lock"

unfoldable pub parse_lock_v2 : Value → Result (List Text)
parse_lock_v2 value = do
  require (exact value lock_v2_keys) "invalid v2 lock"
  schema ← item value (codes "schema_version")
  require (equals_int schema 2) "invalid v2 lock"
  version ← item value (codes "version")
  revision ← item value (codes "revision")
  url ← item value (codes "manifest_url")
  sha256 ← item value (codes "manifest_sha256")
  checked_v2 version revision url sha256

-- The body of `parse_lock` behind `read_regular`.
unfoldable pub parse_lock_raw : (Text → Document) → Bytes → Text → Result (List Text)
parse_lock_raw loads raw target =
    let v1 = parse_lock_v1 raw target in
    let v2 = parse_json loads raw >>= parse_lock_v2 in
    if starts_with raw (codes "version=") then v1 else v2

unfoldable pub parse_lock : (Text → Document) → Result Bytes → Text → Result (List Text)
parse_lock loads read target = do
  require (mem target targets) "unsupported target"
  raw ← read
  parse_lock_raw loads raw target
