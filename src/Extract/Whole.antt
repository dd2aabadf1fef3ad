-- ===== src/Extract/Whole.antt =====
-- An extraction of a whole archive, by runtime/templates/runtime_metadata.py, and its theorems there.
use clamp.Prelude.{◌≡◌, refl, ℕ, [], ◌∷◌, ◌++◌, some, take, length, true, ◌==◌, if◌then◌else◌}
use clamp.Prelude.Results.{ok}
use clamp.Text.{Text, codes, ends_with, text_eq, mem, split, rstrip, starts_with}
use clamp.Utf8.{encode, Bytes}
use clamp.Json.{pos, ◌+ℤ◌}
use clamp.Patterns.{is_version, is_revision, is_component}
use clamp.Paths.{mandatory, valid_path, valid_encoded, is_safe_part}
use clamp.Posix.{join_name, dirname}
use clamp.Archive.{
  is_file, is_unsafe_kind, has_repeat, any_invalid, trimmed, is_bad_part, is_bad_path,
  count_slashes, is_unexpected, tally_file, tally_member, tally_members, as_invalid_archive,
  same_files, at_most, size_limit, check_required, check_request, finished, archive_entries,
}
use clamp.Archive.Tests.{version, revision, root, whole}
use clamp.Files.{read_regular, read_opened, read_exactly, same_file, same_state, sync_directory}
use clamp.Files.Tests.{three, quiet}
use clamp.Os.{Env, History, Stat, did, write_buffer}
use clamp.Os.Keeps.{Keeps}
use clamp.Extract.{
  drain_rounds, copy_size, Library, join_names, output_path, is_directory_kind, entry_mode,
  copy_rounds, copy_entry, write_entry, extract_file, extract_member, extract_members, archive_stat,
  inspect, check_marker, sync_below, sync_walk, extract_opened, extract_inspected, extract_archive,
}
use clamp.Os.Emits.{Emits}
use clamp.Os.Looks.{Only}
use clamp.Extract.Effects.{IsExtraction, IsExtracted, extract_archive-IsExtraction}
use clamp.Extract.Closed.{extract_archive-Keeps}

-- The two markers of the runtime, and their descriptors.
abbrev marker : ℕ → Text
marker fd = if fd == 7 then version ++ codes "\n" else revision ++ codes "\n"

abbrev descriptor_of : Text → ℕ
descriptor_of path =
    if ends_with path (codes "/VERSION")
    then 7
    else if ends_with path (codes "/REVISION")
    then 8
    else 5

abbrev stat_of : ℕ → Stat
stat_of fd = record three { size = if fd == 5 then 9 else length (marker fd) }

abbrev filled : Env
filled = record quiet {
  lstat = λ h path. ok (stat_of (descriptor_of path));
  open_read = λ h path. ok (descriptor_of path);
  fstat = λ h fd. ok (stat_of fd);
  read = λ h fd n. ok (take n (marker fd));
}

-- A member's one byte, and nothing behind it.
abbrev one_read : History → Bytes
one_read (did (write_buffer _ _) ∷ h) = []
one_read h = codes "a"

abbrev library : Library
library = record {
  getmembers = λ h archive. ok whole;
  open_archive = λ h archive. ok tt;
  extractfile = λ h m. ok true;
  entry_read = λ h m n. ok (one_read h);
  entry_rest = λ h m. ok [];
  rounds = 2;
  walk = λ h path. (path, codes "bin" ∷ []) ∷ [];
}

extracts :
    (extract_archive filled library
      (codes "/a")
      (codes "/d")
      version
      revision
      root
      (some (pos 100))
      mandatory
      []).0
    ≡ ok tt
unfolding whole mandatory archive_entries finished check_request check_required size_limit
    same_files at_most ◌+ℤ◌ as_invalid_archive tally_members tally_member tally_file is_unexpected
    count_slashes is_bad_path is_bad_part trimmed any_invalid has_repeat is_unsafe_kind is_file
    valid_path valid_encoded is_safe_part is_version is_revision is_component encode starts_with
    ends_with split rstrip text_eq mem join_name dirname join_names output_path is_directory_kind
    entry_mode copy_rounds drain_rounds copy_size copy_entry write_entry extract_file extract_member
    extract_members archive_stat inspect check_marker sync_below sync_walk extract_opened
    extract_inspected extract_archive read_regular read_opened read_exactly same_file same_state
    sync_directory
extracts = refl

extract_archive-Keeps_example : Keeps (
    extract_archive filled library
      (codes "/a")
      (codes "/d")
      version
      revision
      root
      (some (pos 100))
      mandatory)
extract_archive-Keeps_example =
    extract_archive-Keeps filled library (codes "/a") (codes "/d") version revision root
      (some (pos 100)) mandatory

extract_archive-IsExtraction_example :
    Emits (Only (IsExtraction (codes "/d") root) (IsExtracted (codes "/d") root)) (
      extract_archive filled library
        (codes "/a")
        (codes "/d")
        version
        revision
        root
        (some (pos 100))
        mandatory)
extract_archive-IsExtraction_example =
    extract_archive-IsExtraction filled library (codes "/d") root (codes "/a") version revision
      (some (pos 100)) mandatory
