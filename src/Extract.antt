-- ===== src/Extract.antt =====
-- `extract_archive` of runtime/templates/runtime_metadata.py: the members of an inspected archive
-- are written below a new directory. What `tarfile` and `os.walk` give are parameters.
pub mod Effects
pub mod Closed
pub mod Entry
mod Tests
mod Whole
use clamp.Prelude.{
  ℕ, zero, suc, ◌-◌, Bool, Option, List, [], ◌∷◌, ◌++◌, if◌then◌else◌, length, is_empty, String,
  true, ◌≡◌, false, ◌≤◌, ◌≢◌,
}
use clamp.Prelude.Results.{Result, ok, err, out_of_rounds}
use clamp.Text.{Text, codes, text_eq, split, ends_with}
use clamp.Utf8.{Bytes}
use clamp.Posix.{dirname, join_name}
use clamp.Json.{ℤ, pos, negsuc}
use clamp.Archive.{Member, Kind, directory, ArchiveStat, archive_entries, trimmed}
use clamp.Os.{
  Stat, Env, M, History, ◌>>=◌, ◌>>◌, return, require, raise, fail, finally, mkdir, makedirs, fsync,
  fchmod, write_buffer, flush, release, act, do_create, do_close, inspected, reopened, walked,
  member, member_read, member_rest, do_open,
}
use clamp.Files.{chunk_size, read_regular, sync_directory}

-- What `tarfile` gives for an archive, and `os.walk` for a directory, each after the calls that
-- were made before.
pub record Library : Type 0 where
  -- `tarfile.open(archive, "r:gz")` with `getmembers()`, in `archive_entries`.
  pub getmembers : History → Text → Result (List Member)
  -- What `tarfile.open` does with the file that it has opened, a second time.
  pub open_archive : History → Text → Result (Unit {0})
  -- `extractfile`, as whether it gave a file.
  pub extractfile : History → Member → Result Bool
  -- `source.read(n)`, and `source.read` of a negative number, which reads all that remains.
  pub entry_read : History → Member → ℕ → Result Bytes
  pub entry_rest : History → Member → Result Bytes
  -- How many reads of the rest of a member are followed.
  pub rounds : ℕ
  -- `os.walk(…, topdown=False)`: each directory with the directories in it, listed as a whole.
  pub walk : History → Text → List (Text × List Text)

-- `source.read(n)` gives at most as many bytes as it is asked for; the model's own error is not its.
pub record IsReader (library : Library) : Type 0 where
  pub at_most :
      (h : History) (m : Member) (n : ℕ) (chunk : Bytes)
      → library.entry_read h m n ≡ ok chunk
      → length chunk ≤ n
  pub honest : (h : History) (m : Member) (n : ℕ) → library.entry_read h m n ≢ err out_of_rounds

-- `os.path.join(base, *parts)` for parts that do not start with a slash.
unfoldable pub join_names : Text → List Text → Text
join_names base [] = base
join_names base (part ∷ parts) = join_names (join_name base part) parts

-- `output`
unfoldable pub output_path : Text → Member → Text
output_path destination m = join_names destination (split b'/' (trimmed m.name))

-- `member.isdir()`
unfoldable pub is_directory_kind : Kind → Bool
is_directory_kind directory = true
is_directory_kind _ = false

-- `mode`
unfoldable pub entry_mode : Member → ℕ
entry_mode m = if ends_with m.name (codes "/bin/kb") then 0x1ED else 0x1A4

-- What `archive_entries` takes of an `os.stat_result`.
unfoldable pub archive_stat : Result Stat → Result ArchiveStat
archive_stat (ok st) = ok (record { is_regular = st.is_regular; size = st.size })
archive_stat (err e) = err e

module _ (env : Env) (library : Library) where
  -- The call of `archive_entries`; what it calls itself counts as one call.
  unfoldable pub inspect : Text → Text → Text → Text → Option ℤ → List Text → M (List Member)
  inspect archive version revision root maximum required h = (
    archive_entries (archive_stat (env.lstat h archive)) (library.getmembers h archive) version
        revision root maximum required,
    inspected archive ∷ h,
  )

  abbrev pub do_reopen : Text → M (Unit {0})
  do_reopen archive h = (library.open_archive h archive, reopened archive ∷ h)

  abbrev pub do_extractfile : Member → M Bool
  do_extractfile m h = (library.extractfile h m, member m.name ∷ h)

  abbrev pub do_entry_read : Member → ℕ → M Bytes
  do_entry_read m n h = (library.entry_read h m n, member_read m.name n ∷ h)

  abbrev pub do_entry_rest : Member → M Bytes
  do_entry_rest m h = (library.entry_rest h m, member_rest m.name ∷ h)

  abbrev pub do_walk : Text → M (List (Text × List Text))
  do_walk path h = (ok (library.walk h path), walked path ∷ h)

  -- The loop `while remaining`. Each round copies a byte at least, so that `remaining` rounds are
  -- enough; to run out of them is the error `out_of_rounds`.
  unfoldable pub copy_rounds : ℕ → Member → ℕ → ℕ → M (Unit {0})
  copy_rounds fuel m fd zero = return tt
  copy_rounds zero m fd (suc remaining) = raise out_of_rounds
  copy_rounds (suc fuel) m fd (suc remaining) =
      do_entry_read m (chunk_size (suc remaining)) >>= λ chunk.
      let rest = copy_rounds fuel m fd (suc remaining - length chunk) in
      if is_empty chunk
      then fail "short runtime archive entry"
      else (act env (write_buffer fd chunk) >> rest)

  -- The same loop where `remaining` is negative: it only falls, so that the loop ends by the failure
  -- alone. The fuel is a number of reads; to run out of it is the error `out_of_rounds`.
  unfoldable pub drain_rounds : ℕ → Member → ℕ → M (Unit {0})
  drain_rounds zero m fd = raise out_of_rounds
  drain_rounds (suc fuel) m fd = do_entry_rest m >>= λ chunk.
      let rest = drain_rounds fuel m fd in
      if is_empty chunk
      then fail "short runtime archive entry"
      else (act env (write_buffer fd chunk) >> rest)

  -- `remaining = member.size`, and the loop.
  unfoldable pub copy_size : ℤ → Member → ℕ → M (Unit {0})
  copy_size (pos size) m fd = copy_rounds size m fd size
  copy_size (negsuc _) m fd = drain_rounds library.rounds m fd

  -- The body of `with os.fdopen(…) as target`.
  unfoldable pub copy_entry : Member → ℕ → M (Unit {0})
  copy_entry m fd = do
    copy_size m.size m fd
    extra ← do_entry_read m 1
    require (is_empty extra) "long runtime archive entry"
    act env (flush fd)

  -- The body of the `try` behind `os.open`.
  unfoldable pub write_entry : Member → ℕ → M (Unit {0})
  write_entry m fd = do
    finally (copy_entry m fd) (act env (release fd))
    act env (fchmod fd (entry_mode m))
    act env (fsync fd)

  unfoldable pub extract_file : Text → Member → M (Unit {0})
  extract_file output m = do
    act env (makedirs (dirname output) 0x1ED)
    readable ← do_extractfile m
    require readable "unreadable runtime archive entry"
    fd ← do_create env output (entry_mode m)
    finally (write_entry m fd) (do_close env fd)

  -- The body of the loop over the members.
  unfoldable pub extract_member : Text → Member → M (Unit {0})
  extract_member destination m =
      if is_directory_kind m.kind
      then act env (makedirs (output_path destination m) 0x1ED)
      else extract_file (output_path destination m) m

  unfoldable pub extract_members : Text → List Member → M (Unit {0})
  extract_members destination [] = return tt
  extract_members destination (m ∷ ms) =
      extract_member destination m >> extract_members destination ms

  -- The test on one of the marker files, whose text is ASCII, so that it is its own encoding.
  unfoldable pub check_marker : String → Text → Text → M (Unit {0})
  check_marker message path value = do
    raw ← read_regular env path 128
    require (text_eq raw (value ++ codes "\n")) message

  unfoldable pub sync_below : Text → List Text → M (Unit {0})
  sync_below current [] = return tt
  sync_below current (name ∷ names) =
      sync_directory env (join_name current name) >> sync_below current names

  -- The loop over what `os.walk` gives.
  unfoldable pub sync_walk : List (Text × List Text) → M (Unit {0})
  sync_walk [] = return tt
  sync_walk ((current, names) ∷ rest) =
      sync_below current names >> sync_directory env current >> sync_walk rest

  -- `with tarfile.open(…) as value`: the archive is open while its members are extracted.
  unfoldable pub extract_opened : Text → Text → List Member → M (Unit {0})
  extract_opened archive destination members = do
    fd ← do_open env archive
    finally (do_reopen archive >> extract_members destination members) (do_close env fd)

  -- What follows the inspection.
  unfoldable pub extract_inspected : Text → Text → Text → Text → Text → List Member → M (Unit {0})
  extract_inspected archive destination version revision root members = do
    act env (mkdir destination 0x1C0)
    extract_opened archive destination members
    check_marker "runtime version marker mismatch"
        (join_names destination (root ∷ codes "VERSION" ∷ [])) version
    check_marker "runtime revision marker mismatch"
        (join_names destination (root ∷ codes "REVISION" ∷ [])) revision
    entries ← do_walk (join_name destination root)
    sync_walk entries

  unfoldable pub extract_archive :
      Text → Text → Text → Text → Text → Option ℤ → List Text → M (Unit {0})
  extract_archive archive destination version revision root maximum required =
      inspect archive version revision root maximum required >>= λ members.
      extract_inspected archive destination version revision root members
