-- ===== src/Extract/Effects.antt =====
-- What `extract_archive` of runtime/templates/runtime_metadata.py can change: nothing outside its
-- destination.
use clamp.Prelude.{
  ◌≡◌, refl, ◌⊎◌, inl, inr, ℕ, zero, suc, ◌-◌, List, [], ◌∷◌, All, Option, is_empty, length,
  Bool-cases, String, ap, subst,
}
use clamp.Prelude.Results.{Result, ok, err}
use clamp.Text.{Text, codes, ends_with}
use clamp.Json.{ℤ, pos, negsuc}
use clamp.Posix.{dirname, join_name}
use clamp.Paths.Safe.{IsSafePart}
use clamp.Archive.{Member, archive_entries}
use clamp.Archive.Members.{IsSafeMember}
use clamp.Archive.Sound.{archive_entries_sound}
use clamp.Os.{
  do_open, ◌>>◌, inspected, after, Env, M, Op, History, mkdir, makedirs, fsync, fchmod,
  write_buffer, flush, release, act, do_create, do_close, require, fail, finally,
}
use clamp.Os.Emits.{
  open-Emits, Grows, same, more, Grows-trans, Emits, none-Emits, one-Emits, bind-Emits, if-Emits,
  finally-Emits, act-Emits, create-Emits,
}
use clamp.Os.Looks.{Only}
use clamp.Files.{chunk_size}
use clamp.Files.Looks.{sync_directory-Only, read_regular-Only}
use clamp.Extract.{
  drain_rounds, do_entry_rest, copy_size, extract_opened, Library, join_names, output_path,
  is_directory_kind, entry_mode, archive_stat, inspect, copy_rounds, copy_entry, write_entry,
  extract_file, extract_member, extract_members, check_marker, sync_below, sync_walk,
  extract_inspected, extract_archive, do_entry_read, do_extractfile, do_reopen, do_walk,
  read_regular, sync_directory,
}

-- A path below the destination, by the root and safe parts.
abbrev pub IsBelow : Text → Text → Text → Type 0
IsBelow destination root path =
    (rest : List Text) × (path ≡ join_names destination (root ∷ rest))
    × All IsSafePart (root ∷ rest)

-- The operations of an extraction: the destination is made, for the user alone; directories are
-- made, each below it or above a file that is; and open files are written, given their mode and
-- written out.
abbrev pub IsExtraction : Text → Text → Op → Type 0
IsExtraction destination root (mkdir path mode) = (path ≡ destination) × (mode ≡ 0x1C0)
IsExtraction destination root (makedirs path mode) =
    (IsBelow destination root path
      ⊎ ((output : Text) × IsBelow destination root output × (path ≡ dirname output)))
    × (mode ≡ 0x1ED)
IsExtraction destination root (fsync _) = Unit {0}
IsExtraction destination root (fchmod _ mode) = (mode ≡ 0x1ED) ⊎ (mode ≡ 0x1A4)
IsExtraction destination root (write_buffer _ _) = Unit {0}
IsExtraction destination root (flush _) = Unit {0}
IsExtraction destination root (release _) = Unit {0}
IsExtraction destination root _ = ⊥

-- A new file is below the destination, with one of two modes.
abbrev pub IsExtracted : Text → Text → Text → ℕ → Type 0
IsExtracted destination root path mode =
    IsBelow destination root path × ((mode ≡ 0x1ED) ⊎ (mode ≡ 0x1A4))

entry_mode-cases : (m : Member) → (entry_mode m ≡ 0x1ED) ⊎ (entry_mode m ≡ 0x1A4)
unfolding entry_mode
entry_mode-cases m = elim (Bool-cases (ends_with m.name (codes "/bin/kb"))) [
  | inl y ↦ rw y (inl refl)
  | inr n ↦ rw n (inr refl)
]

safe_member-IsBelow :
    (destination root : Text) (required : List Text) (m : Member)
    → IsSafeMember root required m
    → IsBelow destination root (output_path destination m)
unfolding output_path
safe_member-IsBelow destination root required m s =
    let (rest, parts) = s.rooted in
    (rest, ap (join_names destination) parts, subst (All IsSafePart) parts s.safe)

module _ (env : Env) (library : Library) (destination root : Text) where
  abbrev Allowed {ℓ} : {A : Type ℓ} → M A → Type ℓ
  Allowed m = Emits (Only (IsExtraction destination root) (IsExtracted destination root)) m

  copy_rounds-Allowed :
      (fuel : ℕ) (m : Member) (fd remaining : ℕ)
      → Allowed (copy_rounds env library fuel m fd remaining)
  unfolding copy_rounds
  copy_rounds-Allowed zero m fd zero = none-Emits _
  copy_rounds-Allowed (suc fuel) m fd zero = none-Emits _
  copy_rounds-Allowed zero m fd (suc remaining) = none-Emits _
  copy_rounds-Allowed (suc fuel) m fd (suc remaining) =
      bind-Emits (do_entry_read env library m (chunk_size (suc remaining))) _ (one-Emits _ _ tt)
        λ chunk. if-Emits (is_empty chunk) (fail "short runtime archive entry") _ (none-Emits _) (
          bind-Emits (act env (write_buffer fd chunk)) _
            (act-Emits env (write_buffer fd chunk) tt tt)
            λ _. copy_rounds-Allowed fuel m fd (suc remaining - length chunk))

  drain_rounds-Allowed :
      (fuel : ℕ) (m : Member) (fd : ℕ) → Allowed (drain_rounds env library fuel m fd)
  unfolding drain_rounds
  drain_rounds-Allowed zero m fd = none-Emits _
  drain_rounds-Allowed (suc fuel) m fd =
      bind-Emits (do_entry_rest env library m) _ (one-Emits _ _ tt) λ chunk.
        if-Emits (is_empty chunk) (fail "short runtime archive entry") _ (none-Emits _) (
          bind-Emits (act env (write_buffer fd chunk)) _
            (act-Emits env (write_buffer fd chunk) tt tt) λ _. drain_rounds-Allowed fuel m fd)

  copy_size-Allowed : (size : ℤ) (m : Member) (fd : ℕ) → Allowed (copy_size env library size m fd)
  unfolding copy_size
  copy_size-Allowed (pos size) m fd = copy_rounds-Allowed size m fd size
  copy_size-Allowed (negsuc _) m fd = drain_rounds-Allowed library.rounds m fd

  copy_entry-Allowed : (m : Member) (fd : ℕ) → Allowed (copy_entry env library m fd)
  unfolding copy_entry
  copy_entry-Allowed m fd =
      bind-Emits (copy_size env library m.size m fd) _ (copy_size-Allowed m.size m fd) λ _.
        bind-Emits (do_entry_read env library m 1) _ (one-Emits _ _ tt) λ extra.
          bind-Emits (require (is_empty extra) "long runtime archive entry") _ (none-Emits _)
            λ _. act-Emits env (flush fd) tt tt

  write_entry-Allowed : (m : Member) (fd : ℕ) → Allowed (write_entry env library m fd)
  unfolding write_entry
  write_entry-Allowed m fd =
      bind-Emits (finally (copy_entry env library m fd) (act env (release fd))) _
        (finally-Emits (copy_entry env library m fd) (act env (release fd))
          (copy_entry-Allowed m fd) (act-Emits env (release fd) tt tt))
        λ _.
          bind-Emits (act env (fchmod fd (entry_mode m))) _
            (act-Emits env (fchmod fd (entry_mode m)) (entry_mode-cases m) (entry_mode-cases m))
            λ _. act-Emits env (fsync fd) tt tt

  extract_file-Allowed :
      (output : Text) (m : Member)
      → IsBelow destination root output
      → Allowed (extract_file env library output m)
  unfolding extract_file
  extract_file-Allowed output m b =
      bind-Emits (act env (makedirs (dirname output) 0x1ED)) _
        (act-Emits env (makedirs (dirname output) 0x1ED) (inr (output, b, refl), refl)
          (inr (output, b, refl), refl))
        λ _. bind-Emits (do_extractfile env library m) _ (one-Emits _ _ tt) λ readable.
          bind-Emits (require readable "unreadable runtime archive entry") _ (none-Emits _) λ _.
            bind-Emits (do_create env output (entry_mode m)) _
              (create-Emits env output (entry_mode m) (λ fd. (b, entry_mode-cases m)) tt)
              λ fd.
                finally-Emits (write_entry env library m fd) (do_close env fd)
                  (write_entry-Allowed m fd) (one-Emits _ _ tt)

  extract_members-Allowed :
      (required : List Text) (ms : List Member)
      → All (IsSafeMember root required) ms
      → Allowed (extract_members env library destination ms)
  unfolding extract_members extract_member
  extract_members-Allowed required [] safe = none-Emits _
  extract_members-Allowed required (m ∷ ms) (s, safe) =
      let below = safe_member-IsBelow destination root required m s in
      bind-Emits (extract_member env library destination m) _
        (if-Emits (is_directory_kind m.kind) _ _
          (act-Emits env (makedirs (output_path destination m) 0x1ED) (inl below, refl)
            (inl below, refl))
          (extract_file-Allowed (output_path destination m) m below))
        λ _. extract_members-Allowed required ms safe

  check_marker-Allowed :
      (message : String) (path value : Text) → Allowed (check_marker env library message path value)
  unfolding check_marker
  check_marker-Allowed message path value =
      bind-Emits (read_regular env path 128) _ (read_regular-Only env _ _ path 128)
        λ raw. none-Emits _

  sync_below-Allowed :
      (current : Text) (names : List Text) → Allowed (sync_below env library current names)
  unfolding sync_below
  sync_below-Allowed current [] = none-Emits _
  sync_below-Allowed current (name ∷ names) =
      bind-Emits (sync_directory env (join_name current name)) _
        (sync_directory-Only env _ _ (join_name current name) λ fd. tt)
        λ _. sync_below-Allowed current names

  sync_walk-Allowed : (entries : List (Text × List Text)) → Allowed (sync_walk env library entries)
  unfolding sync_walk
  sync_walk-Allowed [] = none-Emits _
  sync_walk-Allowed ((current, names) ∷ rest) =
      bind-Emits (sync_below env library current names >> sync_directory env current) _
        (bind-Emits (sync_below env library current names) _ (sync_below-Allowed current names)
          λ _. sync_directory-Only env _ _ current λ fd. tt)
        λ _. sync_walk-Allowed rest

  extract_opened-Allowed :
      (archive : Text) (required : List Text) (ms : List Member)
      → All (IsSafeMember root required) ms
      → Allowed (extract_opened env library archive destination ms)
  unfolding extract_opened
  extract_opened-Allowed archive required ms safe =
      bind-Emits (do_open env archive) _ (open-Emits env archive (λ fd. tt) tt) λ fd.
        finally-Emits _ (do_close env fd)
          (bind-Emits (do_reopen env library archive) _ (one-Emits _ _ tt)
            λ _. extract_members-Allowed required ms safe)
          (one-Emits _ _ tt)

  extract_inspected-Allowed :
      (archive version revision : Text) (required : List Text) (ms : List Member)
      → All (IsSafeMember root required) ms
      → Allowed (extract_inspected env library archive destination version revision root ms)
  unfolding extract_inspected
  extract_inspected-Allowed archive version revision required ms safe =
      bind-Emits (act env (mkdir destination 0x1C0)) _
        (act-Emits env (mkdir destination 0x1C0) (refl, refl) (refl, refl))
        λ _.
          bind-Emits (extract_opened env library archive destination ms) _
            (extract_opened-Allowed archive required ms safe)
            λ _.
              bind-Emits (check_marker env library "runtime version marker mismatch" _ version) _
                (check_marker-Allowed _ _ version)
                λ _.
                  bind-Emits
                    (check_marker env library "runtime revision marker mismatch" _ revision) _
                    (check_marker-Allowed _ _ revision)
                    λ _.
                      bind-Emits (do_walk env library (join_name destination root)) _
                        (one-Emits _ _ tt) sync_walk-Allowed

  -- For every system, every archive and everything that `tarfile` gives for it: along every run of
  -- `extract_archive`, failed ones included, each directory that is made is the destination itself,
  -- or is below it by the root and safe parts, or holds a file that is; each file that is made is
  -- below it by such parts; and nothing else is changed but by writes to open files, their modes
  -- and `fsync`.
  pub extract_archive-IsExtraction :
      (archive version revision : Text) (maximum : Option ℤ) (required : List Text)
      → Emits
          (Only (IsExtraction destination root) (IsExtracted destination root))
          (extract_archive env library archive destination version revision root maximum required)
  unfolding extract_archive inspect
  extract_archive-IsExtraction archive version revision maximum required = record {
    grows = λ h. behind h _ refl;
  }
    where
      behind :
          (h : History) (r : Result (List Member))
          → archive_entries
              (archive_stat (env.lstat h archive))
              (library.getmembers h archive)
              version
              revision
              root
              maximum
              required
            ≡ r
          → Grows
              (Only (IsExtraction destination root) (IsExtracted destination root))
              h
              (after
                (extract_inspected env library archive destination version revision root)
                (r, inspected archive ∷ h)).1
      behind h (err x) e = more tt same
      behind h (ok ms) e =
          let found =
            archive_entries_sound (archive_stat (env.lstat h archive))
              (library.getmembers h archive) version revision root maximum required ms e in
          Grows-trans (more tt same)
            ((extract_inspected-Allowed archive version revision required ms found.safe).grows _)
