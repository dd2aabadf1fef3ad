-- ===== src/Trust/Looks.antt =====
-- `verify_trusted_chain` and `verify_amp` of runtime/templates/runtime_metadata.py change nothing.
use clamp.Prelude.{zero, suc, ℕ, List, [], ◌∷◌}
use clamp.Text.{Text, codes, text_eq}
use clamp.Posix.{is_absolute, join_name, dirname}
use clamp.Os.{Env, require, do_lstat, do_real_path}
use clamp.Os.Emits.{Emits, none-Emits, require-Emits, one-Emits, bind-Emits, if-Emits}
use clamp.Os.Looks.{IsLook}
use clamp.Trust.{
  is_trusted, is_private, is_own_executable, amp_path, climb, check_real, check_below,
  verify_trusted_chain, verify_amp,
}

module _ (env : Env) where
  climb-IsLook : (fuel : ℕ) (current : Text) → Emits IsLook (climb env fuel current)
  unfolding climb
  climb-IsLook zero current = none-Emits _
  climb-IsLook (suc fuel) current =
      if-Emits (text_eq current (dirname current)) _ _ (none-Emits _) (
        bind-Emits (do_lstat env current) _ (one-Emits _ _ tt) λ observed.
          bind-Emits (require (is_trusted env.euid observed) "unsafe Amp parent") _ (none-Emits _)
            λ _. climb-IsLook fuel (dirname current))

  check_real-IsLook : (path : Text) → Emits IsLook (check_real env path)
  unfolding check_real
  check_real-IsLook path =
      bind-Emits (require (is_absolute path) "unsafe Amp parent") _ (none-Emits _) λ _.
        bind-Emits (do_real_path env path) _ (one-Emits _ _ tt)
          λ real. require-Emits (text_eq real path) "unsafe Amp parent"

  pub verify_trusted_chain-IsLook : (path : Text) → Emits IsLook (verify_trusted_chain env path)
  unfolding verify_trusted_chain
  verify_trusted_chain-IsLook path =
      bind-Emits (check_real env path) _ (check_real-IsLook path) λ _. climb-IsLook _ path

  check_below-IsLook :
      (current : Text) (components : List Text) → Emits IsLook (check_below env current components)
  unfolding check_below
  check_below-IsLook current [] = none-Emits _
  check_below-IsLook current (component ∷ components) =
      bind-Emits (do_lstat env (join_name current component)) _ (one-Emits _ _ tt) λ observed.
        bind-Emits (require (is_private env.euid observed) "unsafe Amp parent") _ (none-Emits _)
          λ _. check_below-IsLook (join_name current component) components

  pub verify_amp-IsLook : (home executable : Text) → Emits IsLook (verify_amp env home executable)
  unfolding verify_amp
  verify_amp-IsLook home executable =
      bind-Emits (check_real env home) _ (check_real-IsLook home) λ _.
        bind-Emits (verify_trusted_chain env home) _ (verify_trusted_chain-IsLook home) λ _.
          bind-Emits (require (text_eq executable (amp_path home)) "unexpected Amp executable") _
            (none-Emits _)
            λ _.
              bind-Emits (check_below env home (codes ".amp" ∷ codes "bin" ∷ [])) _
                (check_below-IsLook home (codes ".amp" ∷ codes "bin" ∷ []))
                λ _. bind-Emits (do_lstat env executable) _ (one-Emits _ _ tt) λ observed.
                  require-Emits (is_own_executable env.euid observed) "unsafe Amp executable"
