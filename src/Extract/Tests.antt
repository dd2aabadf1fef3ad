-- ===== src/Extract/Tests.antt =====
-- An archive of one file, in a system that answers the same each time.
use clamp.Prelude.{◌≡◌, refl, ◌≤◌, [], ◌∷◌, length, ℕ, arith, sym, subst, ◌==◌, if◌then◌else◌, true}
use clamp.Prelude.Results.{ok, err, exit, ok_inj, err-ne-ok}
use clamp.Text.{Text, codes, split, rstrip, ends_with}
use clamp.Posix.{join_name, dirname}
use clamp.Archive.{Member, file, trimmed}
use clamp.Files.Tests.{quiet}
use clamp.Json.{pos, negsuc}
use clamp.Extract.{
  drain_rounds, copy_size, Library, IsReader, join_names, output_path, is_directory_kind,
  entry_mode, copy_rounds, copy_entry, write_entry, extract_file, extract_member, extract_members,
}
use clamp.Extract.Entry.{Copies, copy_entry_sound}

-- A file of two bytes.
abbrev kb : Member
kb = record { name = codes "r/bin/kb"; kind = file; size = pos 2 }

-- One read of two bytes gives both; a further byte there is not.
abbrev entry : ℕ → Text
entry n = if n == 2 then codes "ab" else []

abbrev library : Library
library = record {
  getmembers = λ h archive. ok (kb ∷ []);
  open_archive = λ h archive. ok tt;
  extractfile = λ h m. ok true;
  entry_read = λ h m n. ok (entry n);
  entry_rest = λ h m. ok [];
  rounds = 2;
  walk = λ h path. [];
}

entry-length : (n : ℕ) → length (entry n) ≤ n
entry-length n = ground arith

library-IsReader : IsReader library
library-IsReader = record {
  at_most = λ h m n chunk e. subst (λ c. length c ≤ n) (sym (ok_inj e)) (entry-length n);
  honest = λ h m n e. err-ne-ok _ _ (sym e);
}

running : Unit {0}
unfolding split rstrip ends_with join_name dirname trimmed join_names output_path is_directory_kind
    entry_mode copy_rounds drain_rounds copy_size copy_entry write_entry extract_file extract_member
    extract_members
running = tt

copied : (copy_entry quiet library kb 6 []).0 ≡ ok tt
unfolding running
copied = refl

extracted : (extract_members quiet library (codes "/d") (kb ∷ []) []).0 ≡ ok tt
unfolding running
extracted = refl

where_to : output_path (codes "/d") kb ≡ codes "/d/r/bin/kb"
unfolding running
where_to = refl

-- The archive's list says more than there is to read.
too_short :
    (copy_entry quiet library (record kb { size = pos 3 }) 6 []).0
    ≡ err (exit "short runtime archive entry")
unfolding running
too_short = refl

-- A negative size.
negative :
    (copy_entry quiet library (record kb { size = negsuc 0 }) 6 []).0
    ≡ err (exit "short runtime archive entry")
unfolding running
negative = refl

copy_entry_sound_example :
    Copies quiet library library-IsReader 6 (pos 2) [] (copy_entry quiet library kb 6 []).1
copy_entry_sound_example = copy_entry_sound quiet library library-IsReader kb 6 [] copied
