-- ===== src/Os.antt =====
-- The operating system as runtime/templates/runtime_metadata.py meets it: system calls whose
-- answers are arbitrary functions of the calls made before, so that other processes may do
-- anything between two of them. A computation passes on the history of its calls, the last first.
pub mod Held
pub mod Keeps
pub mod Emits
pub mod Looks
pub mod Outcome
pub mod Yields
pub mod Ends
pub mod Heard
use clamp.Prelude.{◌≢◌, ℕ, ◌≤◌, ◌≡◌, Bool, true, false, List, ◌∷◌, if◌then◌else◌, String, length}
use clamp.Prelude.Results.{
  Exn, os_error, file_not_found, file_exists, out_of_rounds, exit, Result, ok, err,
}
use clamp.Text.{Text}
use clamp.Utf8.{Bytes}

-- The fields of `os.stat_result` that the code reads, the file's type as two flags.
pub record Stat : Type 0 where
  pub is_regular : Bool
  pub is_directory : Bool
  pub mode : ℕ
  pub dev : ℕ
  pub ino : ℕ
  pub uid : ℕ
  pub size : ℕ
  pub mtime_ns : ℕ

-- A call that changes something and answers nothing.
pub data Op : Type 0 where
  -- `os.mkdir` and `os.makedirs(…, exist_ok=True)`, with the mode.
  mkdir makedirs : Text → ℕ → Op
  -- `os.link`, `os.replace`, and the rename of the C library that replaces nothing.
  link replace rename_noreplace : Text → Text → Op
  unlink rmdir : Text → Op
  fsync : ℕ → Op
  fchmod : ℕ → ℕ → Op
  -- A write to a buffered file, its `flush`, and the flush with which its `with` block ends.
  write_buffer : ℕ → Bytes → Op
  flush release : ℕ → Op

-- A call, with the descriptor that it gave where it opened one.
pub data Call : Type 0 where
  lstat : Text → Call
  opened : Text → ℕ → Call
  open_failed : Text → Call
  -- A file that is new, with its mode.
  created : Text → ℕ → ℕ → Call
  create_failed : Text → Call
  fstat : ℕ → Call
  read : ℕ → ℕ → Call
  wrote : ℕ → Bytes → Call
  rewind : ℕ → Call
  close : ℕ → Call
  real_path : Text → Call
  lexists : Text → Call
  token : Call
  -- An archive that is inspected, one that is opened to be read, a member that is looked up in it,
  -- and bytes that are read of the member.
  inspected reopened member : Text → Call
  member_read : Text → ℕ → Call
  -- All that remains of a member.
  member_rest : Text → Call
  -- `os.walk`
  walked : Text → Call
  -- A child process, by its number: made, and not; killed, with its group or alone, and not; seen,
  -- with what was seen: whether it runs still, or whether it has ended; and waited for, for a time
  -- or without end.
  spawned : List Text → ℕ → Call
  spawn_failed : Call
  killed_group killed kill_failed : ℕ → Call
  polled : ℕ → Bool → Call
  probed waited : ℕ → Call
  waited_until : ℕ → ℕ → Call
  -- The clock, a sleep, and a selector.
  clock slept selected : Call
  -- A selector that is made, with the pipes that it watches, and not; and one that is closed, and not.
  selector_set selector_failed selector_closed selector_stuck : Call
  -- The standard input that is read, and a pipe that is closed.
  input : ℕ → Call
  pipe_closed : ℕ → Call
  did failed : Op → Call

abbrev pub History : Type 0
History = List Call

pub record Env : Type 0 where
  pub lstat : History → Text → Result Stat
  pub open_read : History → Text → Result ℕ
  pub fstat : History → ℕ → Result Stat
  pub read : History → ℕ → ℕ → Result Bytes
  pub rewind : History → ℕ → Result (Unit {0})
  pub close : History → ℕ → Result (Unit {0})
  -- `os.open` with `O_CREAT | O_EXCL` and a mode.
  pub create : History → Text → ℕ → Result ℕ
  -- `os.write`, with the number of bytes that it wrote.
  pub write : History → ℕ → Bytes → Result ℕ
  pub act : History → Op → Result (Unit {0})
  pub lexists : History → Text → Bool
  -- `secrets.token_hex(16)`
  pub token : History → Text
  -- `os.path.realpath`
  pub real_path : History → Text → Text
  -- `os.getcwd`, which the program does not change.
  pub working_directory : Text
  -- `os.geteuid`
  pub euid : ℕ

-- `os.read` gives at most as many bytes as it is asked for; the model's own error is not its.
pub record IsBounded (env : Env) : Type 0 where
  pub at_most :
      (h : History) (fd n : ℕ) (chunk : Bytes) → env.read h fd n ≡ ok chunk → length chunk ≤ n
  pub honest : (h : History) (fd n : ℕ) → env.read h fd n ≢ err out_of_rounds

abbrev pub M {ℓ} : Type ℓ → Type ℓ
M A = History → Result A × History

-- The rest of a computation behind an outcome.
abbrev pub after {ℓ κ} :
    {A : Type ℓ} {B : Type κ} → (A → M B) → Result A × History → Result B × History
after f (ok a, h) = f a h
after f (err e, h) = (err e, h)

infixl 5 ◌>>=◌ ◌>>◌
abbrev pub ◌>>=◌ {ℓ κ} : {A : Type ℓ} {B : Type κ} → M A → (A → M B) → M B
◌>>=◌ m f h = after f (m h)

abbrev pub ◌>>◌ {ℓ} : {B : Type ℓ} → M (Unit {0}) → M B → M B
m >> k = m >>= λ _. k

abbrev pub return {ℓ} : {A : Type ℓ} → A → M A
return a h = (ok a, h)

abbrev pub lift {ℓ} : {A : Type ℓ} → Result A → M A
lift r h = (r, h)

abbrev pub fail {ℓ} : {A : Type ℓ} → String → M A
fail message h = (err (exit message), h)

abbrev pub require : Bool → String → M (Unit {0})
require b message h = (if b then ok tt else err (exit message), h)

-- The outcome of `try: … finally: …`: an error of the last part takes the place of the outcome.
abbrev pub settled {ℓ} : {A : Type ℓ} → Result A → Result (Unit {0}) × History → Result A × History
settled r (ok _, h) = (r, h)
settled r (err e, h) = (err e, h)

abbrev pub ending {ℓ} : {A : Type ℓ} → M (Unit {0}) → Result A × History → Result A × History
ending last (r, h) = settled r (last h)

-- `try: body finally: last`
abbrev pub finally {ℓ} : {A : Type ℓ} → M A → M (Unit {0}) → M A
finally body last h = ending last (body h)

abbrev pub note_open : Text → History → Result ℕ → Result ℕ × History
note_open path h (ok fd) = (ok fd, opened path fd ∷ h)
note_open path h (err e) = (err e, open_failed path ∷ h)

abbrev pub note_create : Text → ℕ → History → Result ℕ → Result ℕ × History
note_create path mode h (ok fd) = (ok fd, created path mode fd ∷ h)
note_create path mode h (err e) = (err e, create_failed path ∷ h)

abbrev pub note_act : Op → History → Result (Unit {0}) → Result (Unit {0}) × History
note_act op h (ok _) = (ok tt, did op ∷ h)
note_act op h (err e) = (err e, failed op ∷ h)

-- `try: … except …`: what the handler makes of an error, after the calls that were made.
abbrev pub handled {ℓ} : {A : Type ℓ} → (Exn → M A) → Result A × History → Result A × History
handled handler (ok a, h) = (ok a, h)
handled handler (err e, h) = handler e h

abbrev pub handle {ℓ} : {A : Type ℓ} → M A → (Exn → M A) → M A
handle body handler h = handled handler (body h)

-- `raise`
abbrev pub raise {ℓ} : {A : Type ℓ} → Exn → M A
raise e h = (err e, h)

-- The subclasses of `OSError`.
abbrev pub is_os_error : Exn → Bool
is_os_error (os_error _) = true
is_os_error file_not_found = true
is_os_error file_exists = true
is_os_error _ = false

module _ (env : Env) where
  abbrev pub do_lstat : Text → M Stat
  do_lstat path h = (env.lstat h path, Call.lstat path ∷ h)

  -- `os.open` for reading, of a file with `O_NOFOLLOW` or of a directory.
  abbrev pub do_open : Text → M ℕ
  do_open path h = note_open path h (env.open_read h path)

  abbrev pub do_fstat : ℕ → M Stat
  do_fstat fd h = (env.fstat h fd, Call.fstat fd ∷ h)

  abbrev pub do_read : ℕ → ℕ → M Bytes
  do_read fd n h = (env.read h fd n, Call.read fd n ∷ h)

  -- `os.lseek(fd, 0, os.SEEK_SET)`
  abbrev pub do_rewind : ℕ → M (Unit {0})
  do_rewind fd h = (env.rewind h fd, Call.rewind fd ∷ h)

  abbrev pub do_close : ℕ → M (Unit {0})
  do_close fd h = (env.close h fd, Call.close fd ∷ h)

  -- `os.open(path, O_WRONLY | O_CREAT | O_EXCL, mode)`
  abbrev pub do_create : Text → ℕ → M ℕ
  do_create path mode h = note_create path mode h (env.create h path mode)

  abbrev pub do_write : ℕ → Bytes → M ℕ
  do_write fd bytes h = (env.write h fd bytes, Call.wrote fd bytes ∷ h)

  abbrev pub act : Op → M (Unit {0})
  act op h = note_act op h (env.act h op)

  abbrev pub do_lexists : Text → M Bool
  do_lexists path h = (ok (env.lexists h path), Call.lexists path ∷ h)

  abbrev pub do_token : M Text
  do_token h = (ok (env.token h), Call.token ∷ h)

  abbrev pub do_real_path : Text → M Text
  do_real_path path h = (ok (env.real_path h path), Call.real_path path ∷ h)
