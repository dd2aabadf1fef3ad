-- ===== src/Repository.antt =====
-- `verify_digest` and `source_repository` of runtime/templates/runtime_metadata.py.
pub mod Accepted
mod Tests
use clamp.Prelude.{
  ℕ, Bool, ◌&&◌, not, none, some, List, [], ◌∷◌, all, drop, length, is_empty, if◌then◌else◌,
}
use clamp.Prelude.Results.{Result, ok}
use clamp.Prelude.Results
use clamp.Text.{Text, codes, text_eq, starts_with, split, splitlines}
use clamp.Utf8.{Bytes, decode}
use clamp.Patterns.{is_digest, is_source}
use clamp.Paths.{max_archive}
use clamp.Os.{Env, M, ◌>>=◌, ◌>>◌, fail, require, lift}
use clamp.Files.{read_regular}

-- `8 * 1024 * 1024`
abbrev pub max_configuration : ℕ
max_configuration = 8388608

-- `"source_repository: "`
abbrev pub field : Text
field = codes "source_repository: "

-- What stands behind the field's name in each line that starts with it.
unfoldable pub repository_values : List Text → List Text
repository_values [] = []
repository_values (line ∷ lines) =
    let rest = repository_values lines in
    if starts_with line field then drop (length field) line ∷ rest else rest

-- A part that is not in `("", ".", "..")`.
unfoldable pub is_named_part : Text → Bool
is_named_part part =
    not (is_empty part) && not (text_eq part (codes ".")) && not (text_eq part (codes ".."))

-- The tests on the values, and what `print` writes.
unfoldable pub one_repository : List Text → Result (List Text)
one_repository (value ∷ []) =
    if is_source value && all is_named_part (split b'/' value)
    then ok (value ∷ [])
    else Results.fail "invalid source repository"
one_repository _ = Results.fail "invalid source repository"

-- `source_repository` on the file's bytes.
unfoldable pub repository_of : Bytes → Result (List Text)
repository_of raw = elim (decode raw) [
  | none ↦ Results.fail "invalid repository configuration"
  | some text ↦ one_repository (repository_values (splitlines text))
]

module _ (env : Env) where
  unfoldable pub source_repository : Text → M (List Text)
  source_repository path = do
    raw ← read_regular env path max_configuration
    lift (repository_of raw)

  -- `sha256` is the hexadecimal digest of `hashlib`.
  unfoldable pub verify_digest : (Bytes → Text) → Text → Text → M (Unit {0})
  verify_digest sha256 path expected = do
    require (is_digest expected) "invalid digest"
    raw ← read_regular env path max_archive
    require (text_eq (sha256 raw) expected) "checksum mismatch"
