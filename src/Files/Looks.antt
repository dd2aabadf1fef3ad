-- ===== src/Files/Looks.antt =====
-- Reading changes nothing.
use clamp.Prelude.{ℕ, zero, suc, ◌-◌, ◌++◌, ◌&&◌, [], leb, length, is_empty, String}
use clamp.Utf8.{Bytes}
use clamp.Text.{Text}
use clamp.Os.{
  Env, Stat, fail, require, do_read, do_fstat, do_lstat, do_open, do_close, Op, fsync, act,
}
use clamp.Os.Emits.{
  Emits, none-Emits, one-Emits, bind-Emits, if-Emits, finally-Emits, open-Emits, map-Emits,
  act-Emits,
}
use clamp.Os.Looks.{IsLook, Only, look-Only}
use clamp.Files.{
  read_all, digest_opened, amp_digest, max_executable, read_exactly, read_opened, read_regular,
  sync_directory, chunk_size, same_file, same_state,
}

module _ (env : Env) where
  pub read_exactly-IsLook :
      (message : String) (fuel fd remaining : ℕ) (chunks : Bytes)
      → Emits IsLook (read_exactly env message fuel fd remaining chunks)
  unfolding read_exactly
  read_exactly-IsLook message zero fd zero chunks = none-Emits _
  read_exactly-IsLook message (suc fuel) fd zero chunks = none-Emits _
  read_exactly-IsLook message zero fd (suc remaining) chunks = none-Emits _
  read_exactly-IsLook message (suc fuel) fd (suc remaining) chunks =
      bind-Emits (do_read env fd (chunk_size (suc remaining))) _ (one-Emits _ _ tt) λ chunk.
        if-Emits (is_empty chunk) (fail message) _ (none-Emits _)
          (read_exactly-IsLook message fuel fd (suc remaining - length chunk) (chunks ++ chunk))

  read_opened-IsLook : (before : Stat) (fd : ℕ) → Emits IsLook (read_opened env before fd)
  unfolding read_opened
  read_opened-IsLook before fd = bind-Emits (do_fstat env fd) _ (one-Emits _ _ tt) λ current.
      bind-Emits (require (same_file current before) "metadata file changed") _ (none-Emits _) λ _.
        bind-Emits (read_exactly env "metadata file changed" current.size fd current.size []) _
          (read_exactly-IsLook "metadata file changed" current.size fd current.size [])
          λ raw. bind-Emits (do_fstat env fd) _ (one-Emits _ _ tt) λ later.
            bind-Emits (require (same_state later current) "metadata file changed") _ (none-Emits _)
              λ _. none-Emits _

  pub read_regular-IsLook :
      (path : Text) (maximum : ℕ) → Emits IsLook (read_regular env path maximum)
  unfolding read_regular
  read_regular-IsLook path maximum = bind-Emits (do_lstat env path) _ (one-Emits _ _ tt) λ before.
      bind-Emits (require (before.is_regular && leb before.size maximum) "unsafe metadata file") _
        (none-Emits _)
        λ _. bind-Emits (do_open env path) _ (open-Emits env path (λ fd. tt) tt) λ fd.
          finally-Emits (read_opened env before fd) (do_close env fd) (read_opened-IsLook before fd)
            (one-Emits _ _ tt)

  -- What fsync may do to a directory, whatever else is allowed.
  pub sync_directory-Only :
      (ops : Op → Type 0) (new : Text → ℕ → Type 0) (path : Text)
      → ((fd : ℕ) → ops (fsync fd))
      → Emits (Only ops new) (sync_directory env path)
  unfolding sync_directory
  sync_directory-Only ops new path f =
      bind-Emits (do_open env path) _ (open-Emits env path (λ fd. tt) tt) λ fd.
        finally-Emits (act env (fsync fd)) (do_close env fd)
          (act-Emits env (fsync fd) (f fd) (f fd)) (one-Emits _ _ tt)

  pub read_regular-Only :
      (ops : Op → Type 0) (new : Text → ℕ → Type 0) (path : Text) (maximum : ℕ)
      → Emits (Only ops new) (read_regular env path maximum)
  read_regular-Only ops new path maximum =
      map-Emits (look-Only ops new) (read_regular-IsLook path maximum)

  read_all-IsLook : (fuel fd : ℕ) (chunks : Bytes) → Emits IsLook (read_all env fuel fd chunks)
  unfolding read_all
  read_all-IsLook zero fd chunks = none-Emits _
  read_all-IsLook (suc fuel) fd chunks =
      bind-Emits (do_read env fd 65536) _ (one-Emits _ _ tt) λ chunk.
        if-Emits (is_empty chunk) _ _ (none-Emits _) (read_all-IsLook fuel fd (chunks ++ chunk))

  digest_opened-IsLook :
      (sha256 : Bytes → Text) (fuel : ℕ) (before : Stat) (fd : ℕ)
      → Emits IsLook (digest_opened env sha256 fuel before fd)
  unfolding digest_opened
  digest_opened-IsLook sha256 fuel before fd =
      bind-Emits (do_fstat env fd) _ (one-Emits _ _ tt) λ current.
        bind-Emits (require (same_state current before) "Amp executable changed") _ (none-Emits _)
          λ _. bind-Emits (read_all env fuel fd []) _ (read_all-IsLook fuel fd []) λ raw.
            bind-Emits (do_fstat env fd) _ (one-Emits _ _ tt) λ later.
              bind-Emits (require (same_state later current) "Amp executable changed") _
                (none-Emits _) λ _. none-Emits _

  pub amp_digest-IsLook :
      (sha256 : Bytes → Text) (fuel : ℕ) (executable : Text)
      → Emits IsLook (amp_digest env sha256 fuel executable)
  unfolding amp_digest
  amp_digest-IsLook sha256 fuel executable =
      bind-Emits (do_lstat env executable) _ (one-Emits _ _ tt) λ before.
        bind-Emits
          (require (before.is_regular && leb before.size max_executable) "unsafe Amp executable") _
          (none-Emits _)
          λ _. bind-Emits (do_open env executable) _ (open-Emits env executable (λ fd. tt) tt) λ fd.
            finally-Emits (digest_opened env sha256 fuel before fd) (do_close env fd)
              (digest_opened-IsLook sha256 fuel before fd) (one-Emits _ _ tt)
