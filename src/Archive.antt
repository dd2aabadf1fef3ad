-- ===== src/Archive.antt =====
-- `archive_entries` of runtime/templates/runtime_metadata.py: the inventory of a runtime archive,
-- checked before anything is extracted. What `os.lstat` and `tarfile.open(…).getmembers()` give
-- are arguments.
pub mod Members
pub mod Sound
pub mod Tests
use clamp.Prelude.{
  ℕ, suc, Bool, true, false, ◌&&◌, ◌||◌, not, Option, some, List, [], ◌∷◌, ◌++◌, ltb, leb, ◌==◌,
  if◌then◌else◌, all, any, length, drop,
}
use clamp.Prelude.Results.{
  Result, ok, err, fail, os_error, tar_error, file_not_found, file_exists, ◌>>=◌, ◌>>◌, require,
}
use clamp.Text.{Text, codes, text_eq, mem, split, starts_with, rstrip}
use clamp.Patterns.{is_version, is_revision, is_component}
use clamp.Json.{ℤ, pos, negsuc, ◌+ℤ◌}
use clamp.Paths.{mandatory, valid_path, max_archive}

-- The kinds of member that the code tells apart by `issym`, `islnk`, `isdir` and `isfile`.
pub data Kind : Type 0 where
  file directory symbolic_link hard_link other : Kind

pub record Member : Type 0 where
  pub name : Text
  pub kind : Kind
  -- Negative where the archive's headers say so.
  pub size : ℤ

unfoldable pub is_file : Kind → Bool
is_file file = true
is_file _ = false

-- `member.issym() or member.islnk() or not (member.isdir() or member.isfile())`
unfoldable pub is_unsafe_kind : Kind → Bool
is_unsafe_kind file = false
is_unsafe_kind directory = false
is_unsafe_kind _ = true

-- `len(set(paths)) != len(paths)`
unfoldable pub has_repeat : List Text → Bool
has_repeat [] = false
has_repeat (s ∷ ss) = mem s ss || has_repeat ss

-- `any(not valid_path(path) for path in paths)`
unfoldable pub any_invalid : List Text → Result Bool
any_invalid [] = ok false
any_invalid (s ∷ ss) =
    let rest = any_invalid ss in valid_path s >>= λ good. if good then rest else ok true

-- `member.name.rstrip("/")`
unfoldable pub trimmed : Text → Text
trimmed s = rstrip (λ c. c == b'/') s

-- `part in (".", "..") or not COMPONENT.fullmatch(part)`
unfoldable pub is_bad_part : Text → Bool
is_bad_part part = text_eq part (codes ".") || text_eq part (codes "..") || not (is_component part)

-- `not parts or parts[0] != root or any(…)`
unfoldable pub is_bad_path : Text → List Text → Bool
is_bad_path root [] = true
is_bad_path root (p ∷ ps) = not (text_eq p root) || any is_bad_part (p ∷ ps)

-- `relative.count("/")`
unfoldable pub count_slashes : Text → ℕ
count_slashes [] = 0
count_slashes (c ∷ s) = if c == b'/' then suc (count_slashes s) else count_slashes s

-- A file that no rule of the inventory allows.
unfoldable pub is_unexpected : List Text → Text → Bool
is_unexpected required relative =
    let library = starts_with relative (codes "lib/") && count_slashes relative == 1 in
    let license = starts_with relative (codes "share/licenses/") in
    not (mem relative required) || not library && not license && not (mem relative mandatory)

-- The sets and the total that the loop builds.
pub record Tally : Type 0 where
  pub files : List Text
  pub names : List Text
  pub total : ℤ
  pub members : List Member

abbrev pub no_tally : Tally
no_tally = record { files = []; names = []; total = pos 0; members = [] }

-- The part of the loop's body for a file.
unfoldable pub tally_file : List Text → Text → Member → Tally → Result Tally
tally_file required relative m t =
    if is_unexpected required relative
    then fail "unexpected runtime archive file"
    else ok (record t { files = relative ∷ t.files; total = t.total +ℤ m.size })

-- The loop's body.
unfoldable pub tally_member : Text → List Text → Member → Tally → Result Tally
tally_member root required m t = do
  require (not (is_unsafe_kind m.kind)) "unsafe runtime archive entry"
  let name = trimmed m.name
  require (not (is_bad_path root (split b'/' name))) "unsafe runtime archive path"
  require (not (mem name t.names)) "duplicate runtime archive entry"
  let named : Tally = record t { names = name ∷ t.names }
  let relative = drop (suc (length root)) name
  counted ← if is_file m.kind then tally_file required relative m named else ok named
  ok (record counted { members = counted.members ++ (m ∷ []) })

unfoldable pub tally_members : Text → List Text → List Member → Tally → Result Tally
tally_members root required [] t = ok t
tally_members root required (m ∷ ms) t =
    tally_member root required m t >>= λ u. tally_members root required ms u

-- The handler round the loop.
unfoldable pub as_invalid_archive : Result Tally → Result Tally
as_invalid_archive (err (os_error n)) = fail "invalid runtime archive"
as_invalid_archive (err file_not_found) = fail "invalid runtime archive"
as_invalid_archive (err file_exists) = fail "invalid runtime archive"
as_invalid_archive (err tar_error) = fail "invalid runtime archive"
as_invalid_archive r = r

-- `files != required`, for sets.
unfoldable pub same_files : List Text → List Text → Bool
same_files files required = all (λ s. mem s required) files && all (λ s. mem s files) required

-- What `os.lstat` tells of the archive.
pub record ArchiveStat : Type 0 where
  pub is_regular : Bool
  pub size : ℕ

-- `int(maximum)`, where a `ValueError` is `none`, and the test on its value.
unfoldable pub size_limit : Option ℤ → Result ℕ
size_limit (some (pos n)) =
    if ltb 0 n && leb n max_archive then ok n else fail "invalid archive size"
size_limit _ = fail "invalid archive size"

-- The tests on the set of required files. The paths are looked at in the order of the arguments,
-- where the source goes through a set.
unfoldable pub check_required : List Text → Result (Unit {0})
check_required required = do
  require
      (ltb 0 (length required) && not (has_repeat required) && all (λ s. mem s required) mandatory)
      "invalid required runtime inventory"
  invalid ← any_invalid required
  require (not invalid) "invalid required runtime inventory"

-- The tests before the archive is looked at; the result is its size limit.
unfoldable pub check_request : Text → Text → Text → Option ℤ → List Text → Result ℕ
check_request version revision root maximum required = do
  require (is_version version && is_revision revision) "invalid archive identity"
  require
      (text_eq root (codes "clamp-" ++ (version ++ codes "-linux-x86_64"))
        || text_eq root (codes "clamp-" ++ (version ++ codes "-macos-arm64")))
      "invalid archive root"
  limit ← size_limit maximum
  check_required required
  ok limit

-- `total <= MAX_ARCHIVE`
unfoldable pub at_most : ℤ → ℕ → Bool
at_most (pos a) b = leb a b
at_most (negsuc _) b = true

-- The tests behind the loop.
unfoldable pub finished : List Text → Tally → Result (List Member)
finished required t = do
  require (at_most t.total max_archive) "runtime archive too large"
  require (same_files t.files required) "incomplete runtime archive"
  ok t.members

-- `archive_entries`; `maximum` is what `int` gives for its argument.
unfoldable pub archive_entries :
    Result ArchiveStat
    → Result (List Member)
    → Text
    → Text
    → Text
    → Option ℤ
    → List Text
    → Result (List Member)
archive_entries lstat opened version revision root maximum required = do
  limit ← check_request version revision root maximum required
  observed ← lstat
  require observed.is_regular "unsafe runtime archive"
  require (leb observed.size limit) "runtime archive too large"
  t ← as_invalid_archive (opened >>= λ ms. tally_members root required ms no_tally)
  finished required t
