-- ===== src/Manifest/Tests.antt =====
-- A manifest of one target with the mandatory files, and the theorems there.
use clamp.Prelude.{◌≡◌, refl, false, List, [], ◌∷◌}
use clamp.Prelude.Results.{Result, ok, err, exit, type_error}
use clamp.Text.{
  Text, codes, mem, split, text_eq, text_lt, texts_eq, starts_with, ends_with, sorted_set,
}
use clamp.Utf8.{Bytes, encode, decode}
use clamp.Json.{
  Value, Items, Fields, Raw, RawItems, RawFields, Document, pos, exact, item, parse_json,
}
use clamp.Patterns.{is_digest, is_component}
use clamp.Paths.{mandatory, targets, valid_path, valid_encoded, is_safe_part}
use clamp.Lock.{release_base, equals_int}
use clamp.Manifest.{
  Entry, archive_root_of, archive_url_of, equals_text, known_target, digest_of, size_of,
  count_items, is_hashable, all_hashable, same_kind, all_same_kind, check_sortable, all_texts,
  all_valid, check_files, files_of, check_entry, check_entries, entry_output, targets_of, chosen,
  manifest_value, parse_manifest,
}
use clamp.Manifest.Sound.{IsSelected, parse_manifest_sound}

abbrev version : Text
version = codes "0.1.4"

abbrev revision : Text
revision = codes "0123456789abcdef0123456789abcdef01234567"

abbrev digest : Text
digest = codes "0123456789abcdef0123456789abcdef0123456789abcdef0123456789abcdef"

abbrev linux : Text
linux = codes "linux-x86_64"

-- What a test of manifests computes with.
running : Unit {0}
unfolding parse_manifest manifest_value chosen targets_of entry_output check_entries check_entry
    files_of check_files all_valid all_texts check_sortable all_same_kind same_kind all_hashable
    is_hashable count_items size_of digest_of known_target equals_text archive_url_of
    archive_root_of release_base equals_int exact item parse_json is_digest is_component mandatory
    targets valid_path valid_encoded is_safe_part encode decode starts_with ends_with split text_eq
    text_lt texts_eq sorted_set mem
running = tt

abbrev raw_texts : List Text → RawItems
raw_texts [] = RawItems.nil
raw_texts (s ∷ ss) = RawItems.cons (Raw.str s) (raw_texts ss)

abbrev text_values : List Text → Items
text_values [] = Items.nil
text_values (s ∷ ss) = Items.cons (Value.str s) (text_values ss)

files : List Text
unfolding sorted_set mandatory
files = sorted_set mandatory

-- The record of one target, as it is scanned, and as a value with a name of choice.
raw_entry : Raw
unfolding archive_url_of archive_root_of release_base files
raw_entry = Raw.dict (
    RawFields.field (codes "target") (Raw.str linux) (
      RawFields.field (codes "archive_url") (Raw.str (archive_url_of version linux)) (
        RawFields.field (codes "archive_sha256") (Raw.str digest) (
          RawFields.field (codes "archive_root") (Raw.str (archive_root_of version linux)) (
            RawFields.field (codes "archive_size") (Raw.int (pos 9)) (
              RawFields.field (codes "required_files") (Raw.list (raw_texts files))
                RawFields.end))))))

entry_value : Value → Value
unfolding archive_url_of archive_root_of release_base files
entry_value name = Value.dict (
    Fields.field (codes "target") name (
      Fields.field (codes "archive_url") (Value.str (archive_url_of version linux)) (
        Fields.field (codes "archive_sha256") (Value.str digest) (
          Fields.field (codes "archive_root") (Value.str (archive_root_of version linux)) (
            Fields.field (codes "archive_size") (Value.int (pos 9)) (
              Fields.field (codes "required_files") (Value.list (text_values files))
                Fields.end))))))

scan : Text → Document
unfolding raw_entry
scan text = record {
  tree = Raw.dict (
      RawFields.field (codes "schema_version") (Raw.int (pos 1)) (
        RawFields.field (codes "version") (Raw.str version) (
          RawFields.field (codes "revision") (Raw.str revision) (
            RawFields.field (codes "targets") (Raw.list (RawItems.cons raw_entry RawItems.nil))
              RawFields.end))));
  extra = false;
}

entry : Entry
unfolding archive_url_of archive_root_of release_base files
entry = record {
  target = linux;
  archive_url = archive_url_of version linux;
  archive_sha256 = digest;
  archive_root = archive_root_of version linux;
  archive_size = 9;
  required_files = files;
}

-- Every file has the same digest.
abbrev constant_digest : Bytes → Text
constant_digest raw = digest

parse : Text → Result (List Text)
unfolding running scan
parse target = parse_manifest scan constant_digest (ok (codes "{")) version revision target digest

entry_accepted : check_entry version (entry_value (Value.str linux)) ≡ ok entry
unfolding running entry entry_value
entry_accepted = refl

manifest_accepted :
    parse_manifest scan constant_digest (ok (codes "{")) version revision linux digest
    ≡ ok (entry_output entry)
unfolding parse entry
manifest_accepted = refl

manifest_tests :
    (parse (codes "macos-arm64") ≡ err (exit "target missing"))
    × (parse_manifest scan constant_digest (ok (codes "{")) version revision linux (codes "0")
        ≡ err (exit "manifest checksum mismatch"))
unfolding parse
manifest_tests = (refl, refl)

-- A list for a name raises a `TypeError`.
unhashable : check_entry version (entry_value (Value.list Items.nil)) ≡ err type_error
unfolding running entry_value
unhashable = refl

parse_manifest_sound_example :
    IsSelected scan constant_digest (ok (codes "{")) version linux digest (entry_output entry)
parse_manifest_sound_example =
    parse_manifest_sound scan constant_digest (ok (codes "{")) version revision linux digest
      (entry_output entry) manifest_accepted
