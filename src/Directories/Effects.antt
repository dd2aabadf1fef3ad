-- ===== src/Directories/Effects.antt =====
-- What `private_directories` of runtime/templates/runtime_metadata.py can change.
use clamp.Prelude.{◌≡◌, refl, Bool, true, false, List, [], ◌∷◌, sym}
use mathlib.Core.Bool.{true≢false}
use clamp.Prelude.Results.{Exn, file_not_found}
use clamp.Text.{Text, text_eq}
use clamp.Posix.{join_name, absolute, common_path}
use clamp.Os.{Env, Call, mkdir, did, failed, handle, require, act, do_lstat, do_real_path}
use clamp.Os.Emits.{Emits, none-Emits, one-Emits, bind-Emits, handle-Emits, act-Emits}
use clamp.Os.Looks.{IsLook}
use clamp.Trust.{is_private}
use clamp.Directories.{
  make_missing, check_components, check_paths, components_of, private_directories,
}

-- A condition on calls that looking meets, and making a directory too if `create` is set.
module _ (env : Env) (create : Bool) {P : Call → Type 0} (look : (c : Call) → IsLook c → P c)
    (allowed : create ≡ true
      → (path : Text) → P (did (mkdir path 0x1C0)) × P (failed (mkdir path 0x1C0))) where
  make_missing-Emits : (current : Text) (x : Exn) → Emits P (make_missing env create current x)
  unfolding make_missing
  make_missing-Emits current file_not_found = made create allowed
    where
      made :
          (b : Bool)
          → (b ≡ true → (path : Text) → P (did (mkdir path 0x1C0)) × P (failed (mkdir path 0x1C0)))
          → Emits P (make_missing env b current file_not_found)
      made true a =
          bind-Emits (act env (mkdir current 0x1C0)) _
            (act-Emits env (mkdir current 0x1C0) (a refl current).0 (a refl current).1)
            λ _. one-Emits _ _ (look _ tt)
      made false a = none-Emits _
  make_missing-Emits current _ = none-Emits _

  check_components-Emits :
      (current : Text) (components : List Text)
      → Emits P (check_components env create current components)
  unfolding check_components
  check_components-Emits current [] = none-Emits _
  check_components-Emits current (component ∷ components) =
      bind-Emits
        (handle (do_lstat env (join_name current component))
          (make_missing env create (join_name current component)))
        _
        (handle-Emits _ _ (one-Emits _ _ (look _ tt))
          (make_missing-Emits (join_name current component)))
        λ observed.
          bind-Emits (require (is_private env.euid observed) "unsafe private directory") _
            (none-Emits _) λ _. check_components-Emits (join_name current component) components

  check_paths-Emits :
      (home : Text) (paths : List Text) → Emits P (check_paths env create home paths)
  unfolding check_paths
  check_paths-Emits home [] = none-Emits _
  check_paths-Emits home (path ∷ paths) =
      bind-Emits
        (require (text_eq (common_path home (absolute env.working_directory path)) home)
          "private directory escapes home")
        _ (none-Emits _)
        λ _.
          bind-Emits (check_components env create home (components_of env home path)) _
            (check_components-Emits home (components_of env home path))
            λ _. check_paths-Emits home paths

  pub private_directories-Emits :
      (home : Text) (paths : List Text) → Emits P (private_directories env create home paths)
  unfolding private_directories
  private_directories-Emits home paths =
      bind-Emits (do_real_path env home) _ (one-Emits _ _ (look _ tt)) λ real.
        bind-Emits (do_lstat env real) _ (one-Emits _ _ (look _ tt)) λ observed.
          bind-Emits (require (is_private env.euid observed) "unsafe home directory") _
            (none-Emits _) λ _. check_paths-Emits real paths

-- For every system: the command `verify-dirs`, which is `private_directories` without `create`,
-- makes no call that changes a file, whatever its outcome.
pub private_directories-IsLook :
    (env : Env) (home : Text) (paths : List Text)
    → Emits IsLook (private_directories env false home paths)
private_directories-IsLook env home paths =
    private_directories-Emits env false (λ c l. l) (λ q. absurd (true≢false (sym q))) home paths
