-- ===== src/Trust.antt =====
-- `verify_trusted_chain` and `verify_amp` of runtime/templates/runtime_metadata.py: the directories
-- above Amp's executable, and the executable itself.
pub mod Chain
pub mod Amp
pub mod Looks
pub mod Tests
use clamp.Prelude.{
  ℕ, zero, suc, ◌/◌, ◌%◌, Bool, ◌&&◌, ◌||◌, not, List, [], ◌∷◌, ◌==◌, length, if◌then◌else◌,
}
use clamp.Prelude.Results.{ok, err, out_of_rounds}
use clamp.Text.{Text, codes, text_eq}
use clamp.Posix.{is_absolute, dirname, join_name}
use clamp.Os.{Stat, Env, M, ◌>>=◌, ◌>>◌, return, require, lift, do_lstat, do_real_path}

-- `st_mode & 0o022`, not zero: the group or the others may write.
unfoldable pub is_shared : ℕ → Bool
is_shared mode = mode / 16 % 2 == 1 || mode / 2 % 2 == 1

-- `st_mode & stat.S_ISVTX`
unfoldable pub is_sticky : ℕ → Bool
is_sticky mode = mode / 512 % 2 == 1

-- `st_mode & stat.S_IXUSR`
unfoldable pub is_runnable : ℕ → Bool
is_runnable mode = mode / 64 % 2 == 1

-- A directory that only root or the user may change, or a sticky one of root.
unfoldable pub is_trusted : ℕ → Stat → Bool
is_trusted euid st =
    st.is_directory
    && (st.uid == 0 || st.uid == euid)
    && not (is_shared st.mode && not (st.uid == 0 && is_sticky st.mode))

-- A directory of the user, which nobody else may change.
unfoldable pub is_private : ℕ → Stat → Bool
is_private euid st = st.is_directory && st.uid == euid && not (is_shared st.mode)

-- An executable of the user, which nobody else may change.
unfoldable pub is_own_executable : ℕ → Stat → Bool
is_own_executable euid st =
    st.is_regular && st.uid == euid && not (is_shared st.mode) && is_runnable st.mode

-- `os.path.join(home, ".amp", "bin", "amp")`
unfoldable pub amp_path : Text → Text
amp_path home = join_name (join_name (join_name home (codes ".amp")) (codes "bin")) (codes "amp")

module _ (env : Env) where
  -- The loop up to the root. Each round makes the path shorter, so that its length is enough fuel;
  -- to run out of it is the error `out_of_rounds`.
  unfoldable pub climb : ℕ → Text → M (Unit {0})
  climb zero current = lift (if text_eq current (dirname current) then ok tt else err out_of_rounds)
  climb (suc fuel) current =
      let rest = climb fuel (dirname current) in
      if text_eq current (dirname current)
      then return tt
      else do_lstat env current >>= λ observed.
          (require (is_trusted env.euid observed) "unsafe Amp parent" >> rest)

  -- The test on a path itself; `os.path.realpath` is asked only of an absolute path.
  unfoldable pub check_real : Text → M (Unit {0})
  check_real path = do
    require (is_absolute path) "unsafe Amp parent"
    real ← do_real_path env path
    require (text_eq real path) "unsafe Amp parent"

  unfoldable pub verify_trusted_chain : Text → M (Unit {0})
  verify_trusted_chain path = check_real path >> climb (length path) path

  -- The loop over the components below the home directory.
  unfoldable pub check_below : Text → List Text → M (Unit {0})
  check_below current [] = return tt
  check_below current (component ∷ components) = do
    observed ← do_lstat env (join_name current component)
    require (is_private env.euid observed) "unsafe Amp parent"
    check_below (join_name current component) components

  unfoldable pub verify_amp : Text → Text → M (Unit {0})
  verify_amp home executable = do
    check_real home
    verify_trusted_chain home
    require (text_eq executable (amp_path home)) "unexpected Amp executable"
    check_below home (codes ".amp" ∷ codes "bin" ∷ [])
    observed ← do_lstat env executable
    require (is_own_executable env.euid observed) "unsafe Amp executable"
