-- ===== src/Lock/Tests.antt =====
-- Runs of `parse_lock`, and its theorems at concrete locks.
use clamp.Prelude.{◌≡◌, ◌⊎◌, refl, ◌↔◌, true, false}
use clamp.Prelude.Results.{ok, err, exit, json_decode_error}
use clamp.Text.{Text, codes, mem, starts_with, splitlines, text_eq}
use clamp.Text.Lines.{written}
use clamp.Utf8.{decode}
use clamp.Patterns.{is_version, is_revision, is_digest}
use clamp.Json.{Raw, RawFields, Document, Value, Fields, pos, parse_json, exact, item}
use clamp.Paths.{targets}
use clamp.Lock.{
  linux, release_base, lock_archive_url, lock_manifest_url, field_values, checked_v1, parse_lock_v1,
  equals_int, checked_v2, parse_lock_v2, parse_lock_raw, parse_lock,
}
use clamp.Lock.Version1.{IsPin, IsLockV1, lock_lines, v1_output, parse_lock_v1_iff}
use clamp.Lock.Sound.{IsLockV2, v2_output, parse_lock_v2_iff, parse_lock_sound}
use clamp.Lock.RoundTrip.{parse_lock_raw-written}

abbrev version : Text
version = codes "0.1.4"

abbrev revision : Text
revision = codes "0123456789abcdef0123456789abcdef01234567"

abbrev digest : Text
digest = codes "0123456789abcdef0123456789abcdef0123456789abcdef0123456789abcdef"

abbrev raw_v1 : Text
raw_v1 = written (lock_lines version revision digest)

-- A scanner that reads nothing.
abbrev no_json : Text → Document
no_json text = record { tree = Raw.broken json_decode_error; extra = false }

-- One that always reads a lock of the second format.
abbrev reads_v2 : Text → Document
reads_v2 text = record {
  tree = Raw.dict (
      RawFields.field (codes "schema_version") (Raw.int (pos 2)) (
        RawFields.field (codes "version") (Raw.str version) (
          RawFields.field (codes "revision") (Raw.str revision) (
            RawFields.field (codes "manifest_url") (Raw.str (lock_manifest_url version))
              (RawFields.field (codes "manifest_sha256") (Raw.str digest) RawFields.end)))));
  extra = false;
}

abbrev value_v2 : Value
value_v2 = Value.dict (
    Fields.field (codes "schema_version") (Value.int (pos 2)) (
      Fields.field (codes "version") (Value.str version) (
        Fields.field (codes "revision") (Value.str revision) (
          Fields.field (codes "manifest_url") (Value.str (lock_manifest_url version))
            (Fields.field (codes "manifest_sha256") (Value.str digest) Fields.end)))))

-- What a test of locks computes with.
running : Unit {0}
unfolding parse_lock parse_lock_raw parse_lock_v1 parse_lock_v2 field_values checked_v1 checked_v2
    lock_archive_url lock_manifest_url release_base equals_int exact item parse_json is_version
    is_revision is_digest mem targets starts_with splitlines text_eq decode
running = tt

v1_accepted : parse_lock no_json (ok raw_v1) linux ≡ ok (v1_output version revision digest)
unfolding running
v1_accepted = refl

lock_tests :
    (parse_lock no_json (ok raw_v1) (codes "macos-arm64")
      ≡ err (exit "v1 lock requires Linux x86-64 migration"))
    × (parse_lock no_json (ok raw_v1) (codes "other") ≡ err (exit "unsupported target"))
    × (parse_lock no_json (ok (codes "{")) linux ≡ err (exit "invalid JSON"))
    × (parse_lock reads_v2 (ok (codes "{")) (codes "macos-arm64")
        ≡ ok (v2_output version revision digest))
unfolding running
lock_tests = (refl, refl, refl, refl)

pin : IsPin version revision digest
unfolding running
pin = record { numbered = refl; revised = refl; hashed = refl }

parse_lock_sound_example :
    (mem linux targets ≡ true)
    × ((v r d : Text) × IsPin v r d
        × (((linux ≡ linux) × (v1_output version revision digest ≡ v1_output v r d))
            ⊎ (v1_output version revision digest ≡ v2_output v r d)))
parse_lock_sound_example =
    parse_lock_sound no_json (ok raw_v1) linux (v1_output version revision digest) v1_accepted

parse_lock_v1_iff_example :
    (parse_lock_v1 raw_v1 linux ≡ ok (v1_output version revision digest))
    ↔ IsLockV1 raw_v1 linux (v1_output version revision digest)
parse_lock_v1_iff_example = parse_lock_v1_iff raw_v1 linux (v1_output version revision digest)

parse_lock_v2_iff_example :
    (parse_lock_v2 value_v2 ≡ ok (v2_output version revision digest))
    ↔ IsLockV2 value_v2 (v2_output version revision digest)
parse_lock_v2_iff_example = parse_lock_v2_iff value_v2 (v2_output version revision digest)

parse_lock_raw-written_example :
    parse_lock_raw no_json (written (lock_lines version revision digest)) linux
    ≡ ok (v1_output version revision digest)
parse_lock_raw-written_example = parse_lock_raw-written no_json pin
