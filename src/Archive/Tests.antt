-- ===== src/Archive/Tests.antt =====
-- The inspection of an archive with the mandatory files, and its theorem there.
use clamp.Prelude.{◌≡◌, refl, true, some, List, [], ◌∷◌, ◌++◌}
use clamp.Prelude.Results.{Result, ok, err, exit}
use clamp.Text.{Text, codes, mem, split, text_eq, starts_with, ends_with, rstrip}
use clamp.Utf8.{encode}
use clamp.Json.{pos, ◌+ℤ◌}
use clamp.Patterns.{is_version, is_revision, is_component}
use clamp.Paths.{mandatory, valid_path, valid_encoded, is_safe_part}
use clamp.Archive.{
  Member, file, directory, symbolic_link, is_file, is_unsafe_kind, has_repeat, any_invalid, trimmed,
  is_bad_part, is_bad_path, count_slashes, is_unexpected, tally_file, tally_member, tally_members,
  as_invalid_archive, same_files, at_most, size_limit, check_required, check_request, finished,
  archive_entries, ArchiveStat,
}
use clamp.Archive.Sound.{IsInspected, archive_entries_sound}

abbrev pub version : Text
version = codes "0.1.4"

abbrev pub revision : Text
revision = codes "0123456789abcdef0123456789abcdef01234567"

abbrev pub root : Text
root = codes "clamp-0.1.4-linux-x86_64"

-- A file of one byte below the root.
abbrev one_byte : Text → Member
one_byte path = record { name = root ++ (b'/' ∷ path); kind = file; size = pos 1 }

abbrev one_bytes : List Text → List Member
one_bytes [] = []
one_bytes (s ∷ ss) = one_byte s ∷ one_bytes ss

abbrev root_directory : Member
root_directory = record { name = root ++ codes "/"; kind = directory; size = pos 0 }

abbrev small : Result ArchiveStat
small = ok (record { is_regular = true; size = 9 })

running : Unit {0}
unfolding archive_entries finished check_request check_required size_limit same_files at_most ◌+ℤ◌
    as_invalid_archive tally_members tally_member tally_file is_unexpected count_slashes is_bad_path
    is_bad_part trimmed any_invalid has_repeat is_unsafe_kind is_file mandatory valid_path
    valid_encoded is_safe_part is_version is_revision is_component encode starts_with ends_with
    split rstrip text_eq mem
running = tt

inspect : List Member → Result (List Member)
unfolding running
inspect ms = archive_entries small (ok ms) version revision root (some (pos 100)) mandatory

unfoldable pub whole : List Member
unfolding mandatory
whole = root_directory ∷ one_bytes mandatory

whole_accepted : inspect whole ≡ ok whole
unfolding inspect whole
whole_accepted = refl

inspect_tests :
    (inspect (one_bytes []) ≡ err (exit "incomplete runtime archive"))
    × (inspect (root_directory ∷ root_directory ∷ [])
        ≡ err (exit "duplicate runtime archive entry"))
    × (inspect (one_byte (codes "../x") ∷ []) ≡ err (exit "unsafe runtime archive path"))
    × (inspect (one_byte (codes "etc/passwd") ∷ []) ≡ err (exit "unexpected runtime archive file"))
    × (inspect (record root_directory { kind = symbolic_link } ∷ [])
        ≡ err (exit "unsafe runtime archive entry"))
unfolding inspect
inspect_tests = (refl, refl, refl, refl, refl)

archive_entries_sound_example : IsInspected (ok whole) root mandatory whole
unfolding inspect
archive_entries_sound_example =
    archive_entries_sound small (ok whole) version revision root (some (pos 100)) mandatory whole
      whole_accepted
