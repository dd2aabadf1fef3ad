-- ===== src/Manifest.antt =====
-- `parse_manifest` of runtime/templates/runtime_metadata.py: the release's list of archives, and
-- the entry for one target. `read` is what `read_regular` gives for the manifest's path;
-- `sha256` is the hexadecimal digest of `hashlib`.
pub mod Checked
pub mod Sound
mod Tests
use clamp.Prelude.{
  ℕ, suc, Bool, true, false, ◌&&◌, Option, none, some, List, [], ◌∷◌, ◌++◌, ltb, leb, if◌then◌else◌,
  all,
}
use clamp.Prelude.Results.{Result, ok, err, fail, type_error, ◌>>=◌, ◌>>◌, require}
use clamp.Text.{Text, codes, text_eq, mem, sorted_set, texts_eq}
use clamp.Text.Decimal.{decimal}
use clamp.Utf8.{Bytes}
use clamp.Patterns.{is_digest}
use clamp.Json.{
  Value, pos, Items, nil, cons, Document, parse_json, exact, item, null, int, str, list, dict,
}
use clamp.Paths.{targets, mandatory, valid_path, max_archive, max_targets}
use clamp.Lock.{release_base, equals_int}

pub record Entry : Type 0 where
  pub target : Text
  pub archive_url : Text
  pub archive_sha256 : Text
  pub archive_root : Text
  pub archive_size : ℕ
  pub required_files : List Text

abbrev pub entry_keys : List Text
entry_keys =
    codes "target"
    ∷ codes "archive_url"
    ∷ codes "archive_sha256"
    ∷ codes "archive_root"
    ∷ codes "archive_size"
    ∷ codes "required_files"
    ∷ []

abbrev pub manifest_keys : List Text
manifest_keys = codes "schema_version" ∷ codes "version" ∷ codes "revision" ∷ codes "targets" ∷ []

-- `f"clamp-{version}-{name}"`
unfoldable pub archive_root_of : Text → Text → Text
archive_root_of version name = codes "clamp-" ++ (version ++ (codes "-" ++ name))

unfoldable pub archive_url_of : Text → Text → Text
archive_url_of version name =
    release_base version ++ (archive_root_of version name ++ codes ".tar.gz")

-- `value == s` for a text.
unfoldable pub equals_text : Value → Text → Bool
equals_text (str t) s = text_eq t s
equals_text _ s = false

-- `name not in TARGETS` hashes the name: a list or a dictionary raises.
unfoldable pub known_target : Value → Result Text
known_target (str s) = if mem s targets then ok s else fail "invalid target record"
known_target (list _) = err type_error
known_target (dict _) = err type_error
known_target _ = fail "invalid target record"

unfoldable pub digest_of : Value → Result Text
digest_of (str s) = if is_digest s then ok s else fail "invalid target record"
digest_of _ = fail "invalid target record"

unfoldable pub size_of : Value → Result ℕ
size_of (int (pos n)) = if ltb 0 n && leb n max_archive then ok n else fail "invalid target record"
size_of _ = fail "invalid target record"

unfoldable pub count_items : Items → ℕ
count_items nil = 0
count_items (cons v vs) = suc (count_items vs)

-- What can be a member of a set.
unfoldable pub is_hashable : Value → Bool
is_hashable (list _) = false
is_hashable (dict _) = false
is_hashable _ = true

unfoldable pub all_hashable : Items → Bool
all_hashable nil = true
all_hashable (cons v vs) = is_hashable v && all_hashable vs

-- Values that `sorted` can compare: numbers with numbers, texts with texts.
unfoldable pub same_kind : Value → Value → Bool
same_kind (str _) (str _) = true
same_kind (str _) _ = false
same_kind null null = true
same_kind null _ = false
same_kind _ (str _) = false
same_kind _ null = false
same_kind _ _ = true

unfoldable pub all_same_kind : Value → Items → Bool
all_same_kind v nil = true
all_same_kind v (cons w ws) = same_kind v w && all_same_kind v ws

-- `sorted(set(files))` raises on an unhashable item, and on items that cannot be compared.
unfoldable pub check_sortable : Items → Result (Unit {0})
check_sortable nil = ok tt
check_sortable (cons v vs) =
    if all_hashable (cons v vs) && all_same_kind v vs then ok tt else err type_error

unfoldable pub all_texts : Items → Option (List Text)
all_texts nil = some []
all_texts (cons (str s) vs) = elim (all_texts vs) [ none ↦ none | some ss ↦ some (s ∷ ss) ]
all_texts (cons _ vs) = none

-- `all(valid_path(item) for item in files)`
unfoldable pub all_valid : List Text → Result Bool
all_valid [] = ok true
all_valid (s ∷ ss) =
    let rest = all_valid ss in valid_path s >>= λ good. if good then rest else ok false

-- The order, the paths and the mandatory files of a list of texts.
unfoldable pub check_files : Option (List Text) → Result (List Text)
check_files none = fail "invalid target record"
check_files (some files) = do
  require (texts_eq files (sorted_set files)) "invalid target record"
  good ← all_valid files
  require (good && all (λ s. mem s files) mandatory) "invalid target record"
  ok files

-- The tests on `required_files`. Sortable items that are not texts fail at `valid_path`, if not
-- before, so that their order need not be known.
unfoldable pub files_of : Value → Result (List Text)
files_of (list items) = do
  require (ltb 0 (count_items items) && leb (count_items items) 256) "invalid target record"
  check_sortable items
  check_files (all_texts items)
files_of _ = fail "invalid target record"

-- The body of the loop over the targets.
unfoldable pub check_entry : Text → Value → Result Entry
check_entry version entry = do
  require (exact entry entry_keys) "invalid target record"
  name ← item entry (codes "target")
  files ← item entry (codes "required_files")
  known ← known_target name
  url ← item entry (codes "archive_url")
  require (equals_text url (archive_url_of version known)) "invalid target record"
  sha256 ← item entry (codes "archive_sha256")
  digest ← digest_of sha256
  root ← item entry (codes "archive_root")
  require (equals_text root (archive_root_of version known)) "invalid target record"
  size ← item entry (codes "archive_size")
  bytes ← size_of size
  paths ← files_of files
  ok (record {
    target = known;
    archive_url = archive_url_of version known;
    archive_sha256 = digest;
    archive_root = archive_root_of version known;
    archive_size = bytes;
    required_files = paths;
  })

-- `selected`, after an entry: the last one for the target.
abbrev pub select : Text → Entry → Option Entry → Option Entry
select target e selected = if text_eq e.target target then some e else selected

-- The loop: the names so far and the selected entry.
unfoldable pub check_entries :
    Text → Text → Items → List Text → Option Entry → Result (List Text × Option Entry)
check_entries version target nil names selected = ok (names, selected)
check_entries version target (cons v vs) names selected = check_entry version v >>= λ e.
    check_entries version target vs (names ++ (e.target ∷ [])) (select target e selected)

unfoldable pub entry_output : Entry → List Text
entry_output e =
    e.archive_url ∷ e.archive_sha256 ∷ e.archive_root ∷ decimal e.archive_size ∷ e.required_files

-- `value["targets"]`, if it is a list of an allowed length.
unfoldable pub targets_of : Value → Result Items
targets_of (list items) =
    if ltb 0 (count_items items) && leb (count_items items) max_targets
    then ok items
    else fail "invalid manifest"
targets_of _ = fail "invalid manifest"

-- What follows the loop.
unfoldable pub chosen : List Text → Option Entry → Result (List Text)
chosen names selected = do
  require (texts_eq names (sorted_set names)) "duplicate or unsorted targets"
  elim selected [ none ↦ fail "target missing" | some e ↦ ok (entry_output e) ]

unfoldable pub manifest_value : Value → Text → Text → Text → Result (List Text)
manifest_value value version revision target = do
  require (exact value manifest_keys) "invalid manifest"
  schema ← item value (codes "schema_version")
  require (equals_int schema 1) "invalid manifest"
  stated ← item value (codes "version")
  require (equals_text stated version) "invalid manifest"
  revised ← item value (codes "revision")
  require (equals_text revised revision) "invalid manifest"
  given ← item value (codes "targets")
  entries ← targets_of given
  found ← check_entries version target entries [] none
  chosen found.0 found.1

unfoldable pub parse_manifest :
    (Text → Document)
    → (Bytes → Text)
    → Result Bytes
    → Text
    → Text
    → Text
    → Text
    → Result (List Text)
parse_manifest loads sha256 read version revision target expected_digest = do
  raw ← read
  require (text_eq (sha256 raw) expected_digest) "manifest checksum mismatch"
  value ← parse_json loads raw
  manifest_value value version revision target
