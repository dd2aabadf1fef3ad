-- ===== src/Enroll.antt =====
-- `enroll_amp` of runtime/templates/runtime_metadata.py: the record of the Amp executable that a
-- repository has qualified.
pub mod Record
pub mod Written
pub mod Saved
pub mod Enrolled
pub mod Steps
pub mod Effects
mod Tests
use clamp.Prelude.{
  ℕ, zero, suc, ◌%◌, Bool, true, false, ◌&&◌, ◌==◌, Option, none, some, List, [], ◌∷◌, ◌++◌, String,
  drop, length, if◌then◌else◌,
}
use clamp.Prelude.Results.{Exn, out_of_rounds, file_not_found, unicode_encode_error}
use clamp.Text.{Text, codes, text_eq, mem, starts_with}
use clamp.Utf8.{Bytes, encode}
use clamp.Patterns.{is_source}
use clamp.Paths.{targets}
use clamp.Posix.{is_absolute, dirname, join_name, common_path}
use clamp.Trust.{is_private, verify_amp, verify_trusted_chain}
use clamp.Amp.{is_amp_version}
use clamp.Directories.{private_directories}
use clamp.Os.{
  Stat, Env, M, ◌>>=◌, ◌>>◌, return, require, fail, raise, handle, finally, is_os_error, mkdir,
  unlink, replace, fsync, act, do_lstat, do_create, do_write, do_close, do_lexists, do_token,
  do_real_path,
}
use clamp.Files.{same_file, same_state, amp_digest, sync_directory}
use Record.{Enrollment, record_text}

-- `st_mode & 0o077` is zero: only the user has any right.
unfoldable pub is_closed : ℕ → Bool
is_closed mode = mode % 64 == 0

-- The test on the directories of the state.
unfoldable pub is_state_directory : ℕ → Stat → Bool
is_state_directory euid st = st.is_directory && st.uid == euid && is_closed st.mode

-- The test on a record that is there.
unfoldable pub is_state_file : ℕ → Stat → Bool
is_state_file euid st = st.is_regular && st.uid == euid && is_closed st.mode

-- The test on the arguments.
unfoldable pub is_identity : Text → Text → Text → Bool
is_identity source target version =
    is_source source
    && starts_with source (codes "ampcode.com/git/@")
    && mem target targets
    && is_amp_version version

-- What `lexists` and `lstat` tell of the destination; `None` where nothing is there. The tests of
-- equality compare device, inode, size and time.
unfoldable pub same_identity : Option Stat → Option Stat → Bool
same_identity none none = true
same_identity (some a) (some b) = same_state a b
same_identity _ _ = false

-- The comparison with the `expected` of `qualify_amp`, if there is one.
unfoldable pub is_expected : Stat → Text → Option (Stat × Text) → Bool
is_expected st digest none = true
is_expected st digest (some (expected, expected_digest)) =
    same_file st expected && text_eq digest expected_digest

module _ (env : Env) where
  -- `os.environ.get("XDG_STATE_HOME")`, tested.
  unfoldable pub check_state_home : Text → M (Unit {0})
  check_state_home state_home = do
    require (is_absolute state_home) "unsafe state directory"
    real ← do_real_path env state_home
    require (text_eq real state_home) "unsafe state directory"
    verify_trusted_chain env state_home
    observed ← do_lstat env state_home
    require (is_private env.euid observed) "unsafe state directory"

  -- The directory of the state: that of the environment, or the one below the home directory.
  unfoldable pub state_directory : Text → Option Text → M Text
  state_directory home (some state_home) = check_state_home state_home >> return state_home
  state_directory home none = do
    real ← do_real_path env home
    let state_home = join_name (join_name real (codes ".local")) (codes "state")
    private_directories env true home (dirname state_home ∷ state_home ∷ [])
    return state_home

  -- The handler of `FileNotFoundError`.
  unfoldable pub make_state : Text → Exn → M Stat
  make_state path file_not_found = act env (mkdir path 0x1C0) >> do_lstat env path
  make_state path e = raise e

  -- The loop over the three directories.
  unfoldable pub check_state : Text → List Text → M (Unit {0})
  check_state current [] = return tt
  check_state current (path ∷ paths) = do
    require (text_eq (dirname path) current) "unsafe state directory"
    observed ← handle (do_lstat env path) (make_state path)
    require (is_state_directory env.euid observed) "unsafe state directory"
    check_state path paths

  -- The first look at the destination.
  unfoldable pub first_identity : Text → M (Option Stat)
  first_identity destination = do
    there ← do_lexists env destination
    if there
        then (do
          observed ← do_lstat env destination
          require (is_state_file env.euid observed) "unsafe Amp enrollment"
          return (some observed))
        else return none

  -- The second look.
  unfoldable pub last_identity : Text → M (Option Stat)
  last_identity destination = do
    there ← do_lexists env destination
    if there then (do_lstat env destination >>= λ observed. return (some observed)) else return none

  -- The loop `while offset < len(raw)` on the bytes from the offset on. Each round writes a byte at
  -- least, so that their number is fuel enough; to run out of it is the error `out_of_rounds`.
  unfoldable pub write_all : ℕ → ℕ → Bytes → M (Unit {0})
  write_all fuel fd [] = return tt
  write_all zero fd (b ∷ bytes) = raise out_of_rounds
  write_all (suc fuel) fd (b ∷ bytes) = do_write env fd (b ∷ bytes) >>= λ written.
      let rest = write_all fuel fd (drop written (b ∷ bytes)) in
      if written == 0 then fail "Amp enrollment write failed" else rest

  unfoldable pub write_record : Text → Bytes → M (Unit {0})
  write_record temporary raw = do
    fd ← do_create env temporary 0x180
    finally (write_all (length raw) fd raw >> act env (fsync fd)) (do_close env fd)

  -- `except OSError: fail(message)`
  unfoldable pub os_failure : String → Exn → M (Unit {0})
  os_failure message e = if is_os_error e then fail message else raise e

  -- The `finally` of the outer `try`.
  unfoldable pub remove_temporary : Text → M (Unit {0})
  remove_temporary temporary = do
    there ← do_lexists env temporary
    if there then act env (unlink temporary) else return tt

-- What the enrollment takes from its surroundings: the digest of `hashlib`, the reads that
-- `amp_digest` may need, the variable `XDG_STATE_HOME`, `json.dumps` of a text, and the time.
pub record Local : Type 0 where
  pub sha256 : Bytes → Text
  pub rounds : ℕ
  pub state_home : Option Text
  pub quoted : Text → Text
  pub now : Text

-- `repository`, below the state directory. The source is ASCII, so that it is its own encoding.
unfoldable pub repository_path : Local → Text → Text → Text
repository_path site state_home source =
    join_name (join_name (join_name state_home (codes "clamp")) (codes "repositories"))
      (site.sha256 source)

-- `(clamp_root, repositories, repository)`
unfoldable pub state_paths : Local → Text → Text → List Text
state_paths site state_home source =
    join_name state_home (codes "clamp")
    ∷ join_name (join_name state_home (codes "clamp")) (codes "repositories")
    ∷ repository_path site state_home source
    ∷ []

-- `record`
unfoldable pub enrollment_of : Local → Text → Text → Text → Text → Stat × Text → Enrollment
enrollment_of site source target executable version (st, digest) = record {
  amp_device = st.dev;
  amp_inode = st.ino;
  amp_path = executable;
  amp_sha256 = digest;
  amp_size = st.size;
  amp_version = version;
  qualified_at = site.now;
  source_repository = source;
  target = target;
}

module _ (env : Env) (site : Local) where
  -- The inner `try` up to `os.replace`: Amp and the destination are looked at once more.
  unfoldable pub commit : Text → Text → Stat × Text → Option Stat → Text → Text → M (Unit {0})
  commit home executable (st, digest) identity temporary destination = do
    verify_amp env home executable
    final ← amp_digest env site.sha256 site.rounds executable
    require (same_file final.0 st && text_eq final.1 digest) "Amp executable changed"
    current ← last_identity env destination
    require (same_identity current identity) "unsafe Amp enrollment"
    act env (replace temporary destination)

  -- The body of the outer `try`. An `OSError` means another thing behind `os.replace`.
  unfoldable pub write_and_commit :
      Text → Text → Stat × Text → Option Stat → Text → Text → Bytes → M (Unit {0})
  write_and_commit home executable observed identity temporary repository raw = do
    write_record env temporary raw
    handle
        (commit home executable observed identity temporary
          (join_name repository (codes "local.json")))
        (os_failure env "Amp enrollment write failed")
    handle (sync_directory env repository) (os_failure env "Amp enrollment durability uncertain")

  -- The outer `try`.
  unfoldable pub save : Text → Text → Stat × Text → Option Stat → Text → Text → Bytes → M (Unit {0})
  save home executable observed identity temporary repository raw =
      finally
        (handle (write_and_commit home executable observed identity temporary repository raw)
          (os_failure env "Amp enrollment write failed"))
        (remove_temporary env temporary)

  -- `(json.dumps(record, …) + "\n").encode()`, and what follows it.
  unfoldable pub save_encoded :
      Text → Text → Stat × Text → Option Stat → Text → Text → Option Bytes → M (Unit {0})
  save_encoded home executable observed identity temporary repository none =
      raise unicode_encode_error
  save_encoded home executable observed identity temporary repository (some raw) =
      save home executable observed identity temporary repository raw

  -- What follows the tests on the directories.
  unfoldable pub enroll_in :
      Text → Text → Text → Text → Text → Option (Stat × Text) → Text → M (Unit {0})
  enroll_in home source target executable version expected repository = do
    observed ← amp_digest env site.sha256 site.rounds executable
    require (is_expected observed.0 observed.1 expected) "Amp executable changed"
    identity ← first_identity env (join_name repository (codes "local.json"))
    token ← do_token env
    save_encoded home executable observed identity
        (join_name repository (codes ".enrollment-" ++ token)) repository
        (encode
          (record_text site.quoted (enrollment_of site source target executable version observed)))

  unfoldable pub enroll_amp : Text → Text → Text → Text → Text → Option (Stat × Text) → M (Unit {0})
  enroll_amp home source target executable version expected = do
    verify_amp env home executable
    require (is_identity source target version) "invalid Amp enrollment identity"
    state_home ← state_directory env home site.state_home
    let repository = repository_path site state_home source
    require (text_eq (common_path state_home repository) state_home) "unsafe state directory"
    check_state env state_home (state_paths site state_home source)
    enroll_in home source target executable version expected repository
