-- ===== src/Directories.antt =====
-- `private_directories` of runtime/templates/runtime_metadata.py: directories below the home
-- directory that belong to the user and that nobody else may change.
pub mod Checked
pub mod Effects
mod Tests
use clamp.Prelude.{Bool, List, [], ◌∷◌, if◌then◌else◌}
use clamp.Prelude.Results.{Exn, file_not_found}
use clamp.Text.{Text, text_eq}
use clamp.Posix.{join_name, absolute, absolute_parts, common_path, relative_parts}
use clamp.Trust.{is_private}
use clamp.Os.{
  Stat, Env, M, mkdir, ◌>>=◌, ◌>>◌, return, require, fail, raise, handle, act, do_lstat,
  do_real_path,
}

module _ (env : Env) where
  -- The handler of `FileNotFoundError`: the directory is made, if the command may, and looked at.
  unfoldable pub make_missing : Bool → Text → Exn → M Stat
  make_missing create current file_not_found =
      if create
      then (act env (mkdir current 0x1C0) >> do_lstat env current)
      else fail "private directory missing"
  make_missing create current e = raise e

  -- The loop over the components of one path.
  unfoldable pub check_components : Bool → Text → List Text → M (Unit {0})
  check_components create current [] = return tt
  check_components create current (component ∷ components) = do
    observed ←
        handle (do_lstat env (join_name current component))
          (make_missing create (join_name current component))
    require (is_private env.euid observed) "unsafe private directory"
    check_components create (join_name current component) components

  -- `os.path.relpath(absolute, home).split(os.sep)`
  unfoldable pub components_of : Text → Text → List Text
  components_of home path =
      relative_parts (absolute_parts env.working_directory home)
        (absolute_parts env.working_directory path)

  -- The loop over the paths.
  unfoldable pub check_paths : Bool → Text → List Text → M (Unit {0})
  check_paths create home [] = return tt
  check_paths create home (path ∷ paths) = do
    require (text_eq (common_path home (absolute env.working_directory path)) home)
        "private directory escapes home"
    check_components create home (components_of home path)
    check_paths create home paths

  unfoldable pub private_directories : Bool → Text → List Text → M (Unit {0})
  private_directories create home paths = do
    real ← do_real_path env home
    observed ← do_lstat env real
    require (is_private env.euid observed) "unsafe home directory"
    check_paths create real paths
