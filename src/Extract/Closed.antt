-- ===== src/Extract/Closed.antt =====
-- `extract_archive` of runtime/templates/runtime_metadata.py closes what it opens.
use clamp.Prelude.{refl, ℕ, zero, suc, ◌-◌, List, [], ◌∷◌, Option, is_empty, length, String}
use clamp.Text.{Text}
use clamp.Json.{ℤ, pos, negsuc}
use clamp.Posix.{dirname, join_name}
use clamp.Archive.{Member}
use clamp.Os.{
  Env, mkdir, makedirs, fsync, fchmod, write_buffer, flush, release, act, require, fail, finally,
  ◌>>◌,
}
use clamp.Os.Keeps.{
  Keeps, bind-Keeps, if-Keeps, finally-Keeps, act-Keeps, using_open-Keeps, using_create-Keeps,
}
use clamp.Files.{chunk_size, read_regular, sync_directory}
use clamp.Files.Closed.{read_regular-Keeps}
use clamp.Extract.{
  drain_rounds, do_entry_rest, copy_size, extract_opened, Library, output_path, is_directory_kind,
  entry_mode, inspect, copy_rounds, copy_entry, write_entry, extract_file, extract_member,
  extract_members, check_marker, sync_below, sync_walk, extract_inspected, extract_archive,
  do_entry_read, do_extractfile, do_reopen, do_walk,
}

module _ (env : Env) (library : Library) where
  copy_rounds-Keeps :
      (fuel : ℕ) (m : Member) (fd remaining : ℕ)
      → Keeps (copy_rounds env library fuel m fd remaining)
  unfolding copy_rounds
  copy_rounds-Keeps zero m fd zero = λ h. refl
  copy_rounds-Keeps (suc fuel) m fd zero = λ h. refl
  copy_rounds-Keeps zero m fd (suc remaining) = λ h. refl
  copy_rounds-Keeps (suc fuel) m fd (suc remaining) =
      bind-Keeps (do_entry_read env library m (chunk_size (suc remaining))) _ (λ h. refl)
        λ chunk.
          if-Keeps (is_empty chunk) (fail "short runtime archive entry") _ (λ h. refl)
            (bind-Keeps (act env (write_buffer fd chunk)) _ (act-Keeps env (write_buffer fd chunk))
              λ _. copy_rounds-Keeps fuel m fd (suc remaining - length chunk))

  drain_rounds-Keeps : (fuel : ℕ) (m : Member) (fd : ℕ) → Keeps (drain_rounds env library fuel m fd)
  unfolding drain_rounds
  drain_rounds-Keeps zero m fd = λ h. refl
  drain_rounds-Keeps (suc fuel) m fd =
      bind-Keeps (do_entry_rest env library m) _ (λ h. refl)
        λ chunk.
          if-Keeps (is_empty chunk) (fail "short runtime archive entry") _ (λ h. refl)
            (bind-Keeps (act env (write_buffer fd chunk)) _ (act-Keeps env (write_buffer fd chunk))
              λ _. drain_rounds-Keeps fuel m fd)

  copy_size-Keeps : (size : ℤ) (m : Member) (fd : ℕ) → Keeps (copy_size env library size m fd)
  unfolding copy_size
  copy_size-Keeps (pos size) m fd = copy_rounds-Keeps size m fd size
  copy_size-Keeps (negsuc _) m fd = drain_rounds-Keeps library.rounds m fd

  write_entry-Keeps : (m : Member) (fd : ℕ) → Keeps (write_entry env library m fd)
  unfolding write_entry copy_entry
  write_entry-Keeps m fd =
      bind-Keeps (finally (copy_entry env library m fd) (act env (release fd))) _
        (finally-Keeps (copy_entry env library m fd) (act env (release fd))
          (bind-Keeps (copy_size env library m.size m fd) _ (copy_size-Keeps m.size m fd) λ _.
            bind-Keeps (do_entry_read env library m 1) _ (λ h. refl)
              λ extra.
                bind-Keeps (require (is_empty extra) "long runtime archive entry") _ (λ h. refl)
                  λ _. act-Keeps env (flush fd))
          (act-Keeps env (release fd)))
        λ _.
          bind-Keeps (act env (fchmod fd (entry_mode m))) _
            (act-Keeps env (fchmod fd (entry_mode m))) λ _. act-Keeps env (fsync fd)

  extract_members-Keeps :
      (destination : Text) (ms : List Member) → Keeps (extract_members env library destination ms)
  unfolding extract_members extract_member extract_file
  extract_members-Keeps destination [] = λ h. refl
  extract_members-Keeps destination (m ∷ ms) =
      let output = output_path destination m in
      bind-Keeps (extract_member env library destination m) _
        (if-Keeps (is_directory_kind m.kind) _ _ (act-Keeps env (makedirs output 0x1ED)) (
          bind-Keeps (act env (makedirs (dirname output) 0x1ED)) _
            (act-Keeps env (makedirs (dirname output) 0x1ED))
            λ _.
              bind-Keeps (do_extractfile env library m) _ (λ h. refl)
                λ readable.
                  bind-Keeps (require readable "unreadable runtime archive entry") _ (λ h. refl)
                    λ _.
                      using_create-Keeps env output (entry_mode m) (write_entry env library m)
                        (write_entry-Keeps m)))
        λ _. extract_members-Keeps destination ms

  extract_opened-Keeps :
      (archive destination : Text) (ms : List Member)
      → Keeps (extract_opened env library archive destination ms)
  unfolding extract_opened
  extract_opened-Keeps archive destination ms =
      using_open-Keeps env archive
        (λ fd. do_reopen env library archive >> extract_members env library destination ms)
        λ fd.
          bind-Keeps (do_reopen env library archive) _ (λ h. refl)
            λ _. extract_members-Keeps destination ms

  check_marker-Keeps :
      (message : String) (path value : Text) → Keeps (check_marker env library message path value)
  unfolding check_marker
  check_marker-Keeps message path value =
      bind-Keeps (read_regular env path 128) _ (read_regular-Keeps env path 128) λ raw h. refl

  sync_directory-Keeps : (path : Text) → Keeps (sync_directory env path)
  unfolding sync_directory
  sync_directory-Keeps path =
      using_open-Keeps env path (λ fd. act env (fsync fd)) λ fd. act-Keeps env (fsync fd)

  sync_below-Keeps :
      (current : Text) (names : List Text) → Keeps (sync_below env library current names)
  unfolding sync_below
  sync_below-Keeps current [] = λ h. refl
  sync_below-Keeps current (name ∷ names) =
      bind-Keeps (sync_directory env (join_name current name)) _
        (sync_directory-Keeps (join_name current name)) λ _. sync_below-Keeps current names

  sync_walk-Keeps : (entries : List (Text × List Text)) → Keeps (sync_walk env library entries)
  unfolding sync_walk
  sync_walk-Keeps [] = λ h. refl
  sync_walk-Keeps ((current, names) ∷ rest) =
      bind-Keeps (sync_below env library current names >> sync_directory env current) _
        (bind-Keeps (sync_below env library current names) _ (sync_below-Keeps current names)
          λ _. sync_directory-Keeps current)
        λ _. sync_walk-Keeps rest

  -- For every system, every archive and everything that `tarfile` gives for it: whatever its
  -- outcome, `extract_archive` leaves the open descriptors as they were, so that the archive,
  -- while its members are extracted, and each file and directory that it opens are closed once.
  -- What the inspection opens is not counted here.
  pub extract_archive-Keeps :
      (archive destination version revision root : Text) (maximum : Option ℤ) (required : List Text)
      → Keeps
          (extract_archive env library archive destination version revision root maximum required)
  unfolding extract_archive inspect extract_inspected
  extract_archive-Keeps archive destination version revision root maximum required =
      bind-Keeps (inspect env library archive version revision root maximum required) _ (λ h. refl)
        λ ms.
          bind-Keeps (act env (mkdir destination 0x1C0)) _ (act-Keeps env (mkdir destination 0x1C0))
            λ _.
              bind-Keeps (extract_opened env library archive destination ms) _
                (extract_opened-Keeps archive destination ms)
                λ _.
                  bind-Keeps (check_marker env library "runtime version marker mismatch" _ version)
                    _ (check_marker-Keeps _ _ version)
                    λ _.
                      bind-Keeps
                        (check_marker env library "runtime revision marker mismatch" _ revision) _
                        (check_marker-Keeps _ _ revision)
                        λ _.
                          bind-Keeps (do_walk env library (join_name destination root))
                            (sync_walk env library) (λ h. refl) sync_walk-Keeps
