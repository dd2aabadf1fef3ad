-- ===== src/Install.antt =====
-- `installed`, `rename_noreplace` and `install` of runtime/templates/runtime_metadata.py: a runtime
-- that is in place, and how it gets there.
pub mod Checked
pub mod Moved
mod Tests
use clamp.Prelude.{
  ℕ, Bool, true, false, Option, none, some, List, [], ◌∷◌, ◌++◌, ◌==◌, ◌||◌, if◌then◌else◌,
}
use clamp.Prelude.Results.{Exn, os_error, file_exists, unicode_decode_error, unicode_encode_error}
use clamp.Text.{Text, codes, text_eq, strip}
use clamp.Utf8.{Bytes, decode, encode}
use clamp.Posix.{dirname, join_name}
use clamp.Trust.{is_private, is_own_executable}
use clamp.Os.{
  Env, M, ◌>>=◌, ◌>>◌, return, require, fail, raise, handle, rename_noreplace, act, do_lstat,
}
use clamp.Files.{read_regular, sync_directory}

-- `name, value` of `expected`
abbrev pub Marker : Type 0
Marker = Text × Text

unfoldable pub expected_markers : Text → Text → Text → List Marker
expected_markers version revision digest =
    (codes "VERSION", version ++ (10 ∷ []))
    ∷ (codes "REVISION", revision ++ (10 ∷ []))
    ∷ (codes ".archive-sha256", digest ++ (10 ∷ []))
    ∷ []

-- `raw != value.encode()`
unfoldable pub require_encoded : Bytes → Option Bytes → M (Unit {0})
require_encoded raw none = raise unicode_encode_error
require_encoded raw (some bytes) = require (text_eq raw bytes) "installation marker mismatch"

-- `raw.decode().strip()`
unfoldable pub stripped : Option Text → M Text
stripped none = raise unicode_decode_error
stripped (some text) = return (strip text)

-- `errno.EEXIST`
abbrev pub eexist : ℕ
eexist = 17

module _ (env : Env) where
  -- The loop over the markers.
  unfoldable pub check_markers : Text → List Marker → M (Unit {0})
  check_markers path [] = return tt
  check_markers path ((name, value) ∷ markers) = do
    raw ← read_regular env (join_name path name) 128
    require_encoded raw (encode value)
    check_markers path markers

  unfoldable pub installed : Text → Text → Text → Text → M (Unit {0})
  installed path version revision digest = do
    observed ← do_lstat env path
    require (is_private env.euid observed) "unsafe installation"
    bin_directory ← do_lstat env (join_name path (codes "bin"))
    require (is_private env.euid bin_directory) "unsafe runtime bin directory"
    check_markers path (expected_markers version revision digest)
    executable ← do_lstat env (join_name (join_name path (codes "bin")) (codes "kb"))
    require (is_own_executable env.euid executable) "unsafe runtime executable"

  -- What is raised for the error number of the C library, which `os_error` stands for.
  unfoldable pub rename_error : Exn → M (Unit {0})
  rename_error (os_error n) = if n == eexist then raise file_exists else raise (os_error n)
  rename_error e = raise e

  -- `platform` is `sys.platform`.
  unfoldable pub move_noreplace : Text → Text → Text → M (Unit {0})
  move_noreplace platform source destination =
      if text_eq platform (codes "linux") || text_eq platform (codes "darwin")
      then handle (act env (rename_noreplace source destination)) rename_error
      else fail "atomic no-replace rename unavailable"

  unfoldable pub read_marker : Text → Text → M Text
  read_marker payload name = do
    raw ← read_regular env (join_name payload name) 128
    stripped (decode raw)

  -- The handler of `FileExistsError`: another installation of the same runtime serves as well.
  unfoldable pub accept_installed : Text → Text → Text → Text → Exn → M Bool
  accept_installed destination version revision digest file_exists =
      installed destination version revision digest >> return false
  accept_installed destination version revision digest e = raise e

  unfoldable pub install : Text → Text → Text → M (Unit {0})
  install platform payload destination = do
    version ← read_marker payload (codes "VERSION")
    revision ← read_marker payload (codes "REVISION")
    digest ← read_marker payload (codes ".archive-sha256")
    moved ←
        handle (move_noreplace platform payload destination >> return true)
          (accept_installed destination version revision digest)
    if moved then sync_directory env (dirname destination) else return tt
