-- ===== src/Files.antt =====
-- `read_regular`, `amp_digest`, `open_amp` and `amp_digest_descriptor` of
-- runtime/templates/runtime_metadata.py: files that are read only while they stay the same.
pub mod Closed
pub mod Looks
pub mod Reads
pub mod Complete
pub mod Digest
pub mod Tests
use clamp.Prelude.{
  String, ℕ, zero, suc, ◌-◌, Bool, ◌&&◌, [], ◌++◌, if◌then◌else◌, ◌==◌, leb, length, is_empty,
}
use clamp.Prelude.Results.{ok, err, out_of_rounds}
use clamp.Text.{Text}
use clamp.Utf8.{Bytes}
use clamp.Os.{
  after, Stat, Env, M, ◌>>=◌, ◌>>◌, return, fail, require, finally, do_lstat, do_open, do_fstat,
  do_read, do_rewind, do_close, act, fsync, lift,
}

-- `min(65536, remaining)`
abbrev pub chunk_size : ℕ → ℕ
chunk_size remaining = if leb remaining 65536 then remaining else 65536

-- `(st_ino, st_dev, st_size)` of two observations.
unfoldable pub same_file : Stat → Stat → Bool
same_file a b = a.ino == b.ino && a.dev == b.dev && a.size == b.size

-- And the time of the last change.
unfoldable pub same_state : Stat → Stat → Bool
same_state a b = a.ino == b.ino && a.dev == b.dev && a.size == b.size && a.mtime_ns == b.mtime_ns

-- `256 * 1024 * 1024`
abbrev pub max_executable : ℕ
max_executable = 268435456

module _ (env : Env) where
  -- The loop `while remaining`, which appends each chunk and fails with `message` at the end of
  -- the file. Each round reads a byte at least, so that `remaining` rounds are enough; to run out
  -- of them is the error `out_of_rounds`.
  unfoldable pub read_exactly : String → ℕ → ℕ → ℕ → Bytes → M Bytes
  read_exactly message fuel fd zero chunks h = (ok chunks, h)
  read_exactly message zero fd (suc remaining) chunks h = (err out_of_rounds, h)
  read_exactly message (suc fuel) fd (suc remaining) chunks h =
      after
        (λ chunk.
          let rest =
            read_exactly message fuel fd (suc remaining - length chunk) (chunks ++ chunk) in
          if is_empty chunk then fail message else rest)
        (do_read env fd (chunk_size (suc remaining)) h)

  -- The body of `read_regular` behind `os.open`.
  unfoldable pub read_opened : Stat → ℕ → M Bytes
  read_opened before fd = do
    current ← do_fstat env fd
    require (same_file current before) "metadata file changed"
    raw ← read_exactly "metadata file changed" current.size fd current.size []
    later ← do_fstat env fd
    require (same_state later current) "metadata file changed"
    return raw

  unfoldable pub read_regular : Text → ℕ → M Bytes
  read_regular path maximum = do
    before ← do_lstat env path
    require (before.is_regular && leb before.size maximum) "unsafe metadata file"
    fd ← do_open env path
    finally (read_opened before fd) (do_close env fd)

  -- `descriptor = os.open(path, os.O_RDONLY)`, `os.fsync` and `os.close`: a directory is written out.
  unfoldable pub sync_directory : Text → M (Unit {0})
  sync_directory path = do fd ← do_open env path; finally (act env (fsync fd)) (do_close env fd)

  -- The test of `open_amp` on the two observations.
  unfoldable pub is_settled_file : Stat → Stat → Bool
  is_settled_file current before =
      same_state current before && current.is_regular && leb current.size max_executable

  unfoldable pub open_amp : Text → M ℕ
  open_amp executable = do
    before ← do_lstat env executable
    fd ← do_open env executable
    current ← do_fstat env fd
    if is_settled_file current before
        then return fd
        else (do_close env fd >> fail "Amp executable changed")

  -- `sha256` is the digest of `hashlib`; updating it chunk by chunk is hashing the chunks joined.
  unfoldable pub amp_digest_descriptor : (Bytes → Text) → ℕ → M (Stat × Text)
  amp_digest_descriptor sha256 fd = do
    current ← do_fstat env fd
    do_rewind env fd
    raw ← read_exactly "Amp executable changed" current.size fd current.size []
    later ← do_fstat env fd
    require (same_state later current) "Amp executable changed"
    return (current, sha256 raw)

  -- The loop `while True` of `amp_digest`: it ends at the end of the file. The fuel is a number of
  -- reads; to run out of them is the error `out_of_rounds`.
  unfoldable pub read_all : ℕ → ℕ → Bytes → M Bytes
  read_all zero fd chunks = lift (err out_of_rounds)
  read_all (suc fuel) fd chunks = do_read env fd 65536 >>= λ chunk.
      let rest = read_all fuel fd (chunks ++ chunk) in
      if is_empty chunk then return chunks else rest

  -- The body of `amp_digest` behind `os.open`.
  unfoldable pub digest_opened : (Bytes → Text) → ℕ → Stat → ℕ → M (Stat × Text)
  digest_opened sha256 fuel before fd = do
    current ← do_fstat env fd
    require (same_state current before) "Amp executable changed"
    raw ← read_all fuel fd []
    later ← do_fstat env fd
    require (same_state later current) "Amp executable changed"
    return (current, sha256 raw)

  -- Updating the digest chunk by chunk is hashing the chunks joined.
  unfoldable pub amp_digest : (Bytes → Text) → ℕ → Text → M (Stat × Text)
  amp_digest sha256 fuel executable = do
    before ← do_lstat env executable
    require (before.is_regular && leb before.size max_executable) "unsafe Amp executable"
    fd ← do_open env executable
    finally (digest_opened sha256 fuel before fd) (do_close env fd)
