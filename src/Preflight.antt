-- ===== src/Preflight.antt =====
-- `local_preflight` of runtime/templates/runtime_metadata.py: what the machine
-- must offer before Clamp is set up on it.
pub mod Ready
mod Tests
use clamp.Prelude.{
  ℕ, Bool, true, false, not, Option, none, some, List, [], ◌∷◌, take, if◌then◌else◌, is_empty,
}
use clamp.Prelude.Results.{
  Exn, Result, ok, err, ◌>>=◌, os_error, file_not_found, file_exists, subprocess_error,
}
use clamp.Text.{Text, codes, text_eq, mem, strip}
use clamp.Version.{Version, version_lt, version_tuple, shown_version}

-- Errors of `OSError` and `subprocess.SubprocessError`.
unfoldable pub is_run_error : Exn → Bool
is_run_error (os_error _) = true
is_run_error file_not_found = true
is_run_error file_exists = true
is_run_error subprocess_error = true
is_run_error _ = false

-- What the code asks of the machine, each answered once: `" ".join(platform.libc_ver())`,
-- `platform.mac_ver()[0]`, `sys.executable`, `isfile` with `access`, the output of a command, and of
-- the library `int` and `str.lower`.
pub record Machine : Type 0 where
  pub libc : Text
  pub mac : Text
  pub python : Text
  pub is_executable : Text → Bool
  pub output : List Text → Result Text
  pub int : Text → Result ℕ
  pub lower : Text → Text

pub record Tool : Type 0 where
  pub name : Text
  pub executable : Text
  pub minimum : Version

-- What depends on the platform; `tools` is given `sys.executable`.
pub record Platform : Type 0 where
  pub tools : Text → List Tool
  pub stat_command : Text → List Text
  pub accepted : List Text
  pub rg_candidates : List Text

abbrev tool : Text → Text → Version → Tool
tool name executable minimum = record { name = name; executable = executable; minimum = minimum }

abbrev pub linux : Platform
linux = record {
  tools = λ python.
      tool (codes "bash") (codes "/bin/bash") (5 ∷ 2 ∷ [])
      ∷ tool (codes "git") (codes "/usr/bin/git") (2 ∷ 39 ∷ [])
      ∷ tool (codes "curl") (codes "/usr/bin/curl") (7 ∷ 88 ∷ 1 ∷ [])
      ∷ tool (codes "python3") python (3 ∷ 11 ∷ [])
      ∷ tool (codes "tar") (codes "/usr/bin/tar") (1 ∷ 34 ∷ [])
      ∷ tool (codes "sha256sum") (codes "/usr/bin/sha256sum") (9 ∷ 1 ∷ [])
      ∷ [];
  stat_command =
      λ repository. codes "/usr/bin/stat" ∷ codes "-f" ∷ codes "-c" ∷ codes "%T" ∷ repository ∷ [];
  accepted = codes "ext2/ext3" ∷ codes "ext4" ∷ [];
  rg_candidates = codes "/usr/bin/rg" ∷ codes "/usr/local/bin/rg" ∷ [];
}

abbrev pub macos : Platform
macos = record {
  tools = λ python.
      tool (codes "bash") (codes "/bin/bash") (3 ∷ 2 ∷ 57 ∷ [])
      ∷ tool (codes "git") (codes "/usr/bin/git") (2 ∷ 50 ∷ 1 ∷ [])
      ∷ tool (codes "curl") (codes "/usr/bin/curl") (8 ∷ 7 ∷ 1 ∷ [])
      ∷ tool (codes "python3") python (3 ∷ 9 ∷ 6 ∷ [])
      ∷ tool (codes "tar") (codes "/usr/bin/tar") (3 ∷ 5 ∷ 3 ∷ [])
      ∷ tool (codes "shasum") (codes "/usr/bin/shasum") (6 ∷ 2 ∷ [])
      ∷ [];
  stat_command = λ repository. codes "/usr/bin/stat" ∷ codes "-f" ∷ codes "%T" ∷ repository ∷ [];
  accepted = codes "apfs" ∷ [];
  rg_candidates =
      codes "/opt/homebrew/bin/rg" ∷ codes "/usr/local/bin/rg" ∷ codes "/usr/bin/rg" ∷ [];
}

-- What the code prints, with `missing` for a prerequisite.
pub data Outcome : Type 0 where
  wrong_package : Outcome
  missing : Text → Version → Outcome
  wrong_filesystem : Text → Outcome
  ready : Outcome

-- The lines that `print` writes.
unfoldable pub report : Text → Outcome → List Text
report target wrong_package = codes "target" ∷ target ∷ codes "package" ∷ []
report target (missing name minimum) = codes "prerequisite" ∷ name ∷ shown_version minimum ∷ []
report target (wrong_filesystem name) =
    codes "filesystem" ∷ target ∷ (if is_empty name then codes "unknown" else take 64 name) ∷ []
report target ready = codes "ok" ∷ target ∷ []

module _ (machine : Machine) where
  -- `[executable, "--version"]`
  abbrev pub version_command : Text → List Text
  version_command executable = executable ∷ codes "--version" ∷ []

  -- The command's output, with `none` for an error that the code catches.
  abbrev pub caught : Result Text → Result (Option Text)
  caught (ok text) = ok (some text)
  caught (err e) = if is_run_error e then ok none else err e

  -- The tests on one tool: `false` where the code prints a prerequisite.
  unfoldable pub tool_found : Tool → Result Bool
  tool_found tool =
      if not (machine.is_executable tool.executable)
      then ok false
      else caught (machine.output (version_command tool.executable)) >>= λ answer. elim answer [
        | none ↦ ok false
        | some output ↦
            version_tuple machine.int output >>= λ v. ok (not (version_lt v tool.minimum))
      ]

  -- The loop over the tools: the first that is missing.
  unfoldable pub missing_tool : List Tool → Result (Option Tool)
  missing_tool [] = ok none
  missing_tool (tool ∷ tools) =
      tool_found tool >>= λ found. if found then missing_tool tools else ok (some tool)

  unfoldable pub first_executable : List Text → Option Text
  first_executable [] = none
  first_executable (path ∷ paths) =
      let later = first_executable paths in if machine.is_executable path then some path else later

  -- The tests on `rg`; an error of the command is not caught here.
  unfoldable pub ripgrep_found : List Text → Result Bool
  ripgrep_found candidates = elim (first_executable candidates) [
    | none ↦ ok false
    | some rg ↦ do
      output ← machine.output (version_command rg)
      v ← version_tuple machine.int output
      ok (not (version_lt v (14 ∷ 1 ∷ [])))
  ]

  -- `…stdout.strip().lower()`, or "unknown".
  unfoldable pub filesystem_of : List Text → Result Text
  filesystem_of command = caught (machine.output command) >>= λ answer. elim answer [
    | none ↦ ok (codes "unknown")
    | some text ↦ ok (machine.lower (strip text))
  ]

  -- `libc < (2, 36)`, of the version in a text.
  unfoldable pub is_older : Text → Version → Result Bool
  is_older text minimum = version_tuple machine.int text >>= λ v. ok (version_lt v minimum)

  unfoldable pub filesystem_outcome : List Text → Text → Outcome
  filesystem_outcome accepted name = if mem name accepted then ready else wrong_filesystem name

  -- The tests behind the choice of a platform.
  unfoldable pub check_platform : Platform → Text → Result Outcome
  check_platform platform repository = do
    absent ← missing_tool (platform.tools machine.python)
    elim absent [
      | some tool ↦ ok (missing tool.name tool.minimum)
      | none ↦ do
        found ← ripgrep_found platform.rg_candidates
        if not found then ok (missing (codes "rg") (14 ∷ 1 ∷ [])) else do
          name ← filesystem_of (platform.stat_command repository)
          ok (filesystem_outcome platform.accepted name)
    ]

  unfoldable pub on_platform : Platform → Text → Version → Text → Result Outcome
  on_platform platform text minimum repository = is_older text minimum >>= λ older.
      if older then ok wrong_package else check_platform platform repository

  -- `local_preflight` up to what it prints.
  unfoldable pub preflight : Text → Text → Result Outcome
  preflight target repository =
      if text_eq target (codes "linux-x86_64")
      then on_platform linux machine.libc (2 ∷ 36 ∷ []) repository
      else if text_eq target (codes "macos-arm64")
      then on_platform macos machine.mac (26 ∷ 5 ∷ 2 ∷ []) repository
      else ok wrong_package

  unfoldable pub local_preflight : Text → Text → Result (List Text)
  local_preflight target repository = do
    outcome ← preflight target repository
    ok (report target outcome)
