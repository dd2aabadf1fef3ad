-- ===== src/Qualify.antt =====
-- `run_amp_version`, `check_amp_remote` and `qualify_amp` of
-- runtime/templates/runtime_metadata.py: Amp is run under a private name, Git asks its remote through
-- it, and the executable that answered is recorded.
pub mod Reached
pub mod Qualified
mod Tests
use clamp.Prelude.{ℕ, Bool, ◌&&◌, not, none, some, List, [], ◌∷◌, ◌++◌, true}
use clamp.Text.{Text, codes, starts_with, contains, text_eq}
use clamp.Trust.{verify_amp}
use clamp.Amp.{
  Status, invalid, unsupported, supported, amp_version_result, verify_amp_version, with_pinned,
}
use clamp.Files.{open_amp, amp_digest, amp_digest_descriptor, same_file}
use clamp.Enroll.{Local, enroll_amp}
use clamp.Os.{Env, M, ◌>>=◌, ◌>>◌, return, require, fail, finally, do_close, do_real_path}
use clamp.Process.{Processes, Command}
use clamp.Process.Bounded.{bounded_output}

-- `{"HOME": home, "PATH": "/usr/bin:/bin"}`
unfoldable pub plain_environment : Text → List (Text × Text)
plain_environment home = (codes "HOME", home) ∷ (codes "PATH", codes "/usr/bin:/bin") ∷ []

-- `bounded_output` with the defaults of its parameters.
unfoldable pub version_command : Text → Text → Text → Command
version_command home executable pinned = record {
  arguments = executable ∷ codes "--version" ∷ [];
  environment = plain_environment home;
  executable = some pinned;
  input_data = none;
  new_session = true;
  maximum = 4096;
  timeout = 5000000000;
}

-- `origin.startswith("https://ampcode.com/git/@")`, of one line.
unfoldable pub is_amp_origin : Text → Bool
is_amp_origin origin =
    starts_with origin (codes "https://ampcode.com/git/@") && not (contains 10 origin)

-- `helper`: the words that the shell is given, by `shlex.quote`, behind an exclamation mark.
unfoldable pub helper_line : (Text → Text) → Text → Text → Text
helper_line quote script pinned =
    codes "!"
    ++ quote (codes "/usr/bin/python3")
    ++ codes " "
    ++ quote (codes "-I")
    ++ codes " "
    ++ quote script
    ++ codes " "
    ++ quote (codes "credential-helper")
    ++ codes " "
    ++ quote pinned

-- The arguments of `bounded_output` for Git.
unfoldable pub remote_command : Text → Text → Text → Text → Command
remote_command home repository origin helper = record {
  arguments =
      codes "/usr/bin/git"
      ∷ codes "-C"
      ∷ repository
      ∷ codes "-c"
      ∷ codes "credential.helper="
      ∷ codes "-c"
      ∷ (codes "credential.helper=" ++ helper)
      ∷ codes "-c"
      ∷ codes "credential.https://ampcode.com.useHttpPath=true"
      ∷ codes "-c"
      ∷ codes "core.hooksPath=/dev/null"
      ∷ codes "-c"
      ∷ codes "core.askPass=/bin/false"
      ∷ codes "-c"
      ∷ codes "credential.interactive=false"
      ∷ codes "ls-remote"
      ∷ codes "--exit-code"
      ∷ origin
      ∷ codes "HEAD"
      ∷ [];
  environment =
      (codes "HOME", home)
      ∷ (codes "PATH", codes "/usr/bin:/bin")
      ∷ (codes "GIT_CONFIG_NOSYSTEM", codes "1")
      ∷ (codes "GIT_CONFIG_GLOBAL", codes "/dev/null")
      ∷ (codes "GIT_TERMINAL_PROMPT", codes "0")
      ∷ [];
  executable = none;
  input_data = none;
  new_session = true;
  maximum = 4096;
  timeout = 10000000000;
}

-- What `qualify_amp` makes of the status.
unfoldable pub supported_version : Status → M Text
supported_version invalid = fail "invalid Amp version"
supported_version (unsupported version) = fail "unsupported Amp version"
supported_version (supported version) = return version

-- The file of the program, `shlex.quote`, and the fuel of `bounded_output`.
pub record Setup : Type 0 where
  pub script : Text
  pub quote : Text → Text
  pub fuel : ℕ

module _ (env : Env) (processes : Processes) (setup : Setup) where
  -- The output of `executable --version`, run under a private name.
  unfoldable pub version_output : Text → Text → ℕ → M Text
  version_output home executable descriptor =
      with_pinned env executable descriptor
        λ pinned. bounded_output env processes setup.fuel (version_command home executable pinned)

  -- `run_amp_version`, with the lines that it prints.
  unfoldable pub run_amp_version : Text → Text → M (List Text)
  run_amp_version home executable = do
    verify_amp env home executable
    descriptor ← open_amp env executable
    finally
        (version_output home executable descriptor >>= λ output. return (verify_amp_version output))
        (do_close env descriptor)

  -- The body of `with pinned_amp_path(…) as pinned` of `check_amp_remote`.
  unfoldable pub ask_remote : Text → Text → Text → Text → M Text
  ask_remote home repository origin pinned = do
    script ← do_real_path env setup.script
    bounded_output env processes setup.fuel
        (remote_command home repository origin (helper_line setup.quote script pinned))

  -- `check_amp_remote` with a descriptor, up to its `print`.
  unfoldable pub check_remote_with : Text → Text → Text → Text → ℕ → M (Unit {0})
  check_remote_with home executable repository origin descriptor = do
    verify_amp env home executable
    real ← do_real_path env repository
    require (is_amp_origin origin) "invalid Amp origin"
    _ ← with_pinned env executable descriptor (ask_remote home real origin)
    return tt

  -- `check_amp_remote` as the command `amp-ready` calls it, with the lines that it prints.
  unfoldable pub check_amp_remote : Text → Text → Text → Text → M (List Text)
  check_amp_remote home executable repository origin = do
    verify_amp env home executable
    descriptor ← open_amp env executable
    finally
        (check_remote_with home executable repository origin descriptor >> return (codes "ok" ∷ []))
        (do_close env descriptor)

  -- The body of the `try` of `qualify_amp`.
  unfoldable pub qualify_with : Local → Text → Text → Text → Text → Text → Text → ℕ → M (Unit {0})
  qualify_with site home executable repository origin source target descriptor = do
    output ← version_output home executable descriptor
    version ← supported_version (amp_version_result output)
    check_remote_with home executable repository origin descriptor
    retained ← amp_digest_descriptor env site.sha256 descriptor
    current ← amp_digest env site.sha256 site.rounds executable
    require (same_file retained.0 current.0 && text_eq retained.1 current.1)
        "Amp executable changed"
    enroll_amp env site home source target executable version (some retained)

  unfoldable pub qualify_amp : Local → Text → Text → Text → Text → Text → Text → M (Unit {0})
  qualify_amp site home executable repository origin source target = do
    verify_amp env home executable
    descriptor ← open_amp env executable
    finally (qualify_with site home executable repository origin source target descriptor)
        (do_close env descriptor)
