-- ===== src/Qualify/Reached.antt =====
-- What Amp and Git have answered when `run_amp_version` and `check_amp_remote` of
-- runtime/templates/runtime_metadata.py have run them.
use clamp.Prelude.{none, List, [], ◌++◌, ◌≡◌, refl, ℕ, true, some, ◌∷◌}
use clamp.Prelude.Results.{ok}
use clamp.Text.{Text, codes}
use clamp.Trust.{verify_amp}
use clamp.Trust.Amp.{IsAmp, verify_amp_sound}
use clamp.Amp.{with_pinned}
use clamp.Amp.Private.{private_name, pinned_at, IsPinned, with_pinned-IsPinned}
use clamp.Os.{Call, Env, History}
use clamp.Os.Outcome.{after-ok, require-ok}
use clamp.Process.{Processes, Command}
use clamp.Process.Bounded.{bounded_output}
use clamp.Process.Output.{IsOutput, bounded_output_sound}
use clamp.Qualify.{
  Setup, version_command, remote_command, helper_line, is_amp_origin, version_output, ask_remote,
  check_remote_with,
}

module _ (env : Env) (processes : Processes) (setup : Setup) where
  -- The output of a command that was started behind a history and succeeded.
  abbrev pub WasRun : Command → History → Text → Type 0
  WasRun command h text =
      IsOutput env processes command h (bounded_output env processes setup.fuel command h).1 text

  -- Amp has been asked for its version, under the private name of the run that begins behind a
  -- history, and the name was that of the file that the descriptor holds.
  pub record IsPrinted (home executable : Text) (descriptor : ℕ) (h : History) (printed : Text)
      : Type 0 where
    pub pinned : IsPinned env executable descriptor h
    pub command : Command
    pub named : command.executable ≡ some (private_name env executable h)
    pub asks : command.arguments ≡ executable ∷ codes "--version" ∷ []
    pub ran : WasRun command (pinned_at env executable descriptor h) printed

  pub version_output-IsPrinted :
      (home executable : Text) (descriptor : ℕ) (h : History) (printed : Text)
      → (version_output env processes setup home executable descriptor h).0 ≡ ok printed
      → IsPrinted home executable descriptor h printed
  unfolding version_output version_command
  version_output-IsPrinted home executable descriptor h printed e =
      let (pinned, ran) = with_pinned-IsPinned env executable descriptor _ h e in
      record {
        pinned = pinned;
        command = version_command home executable (private_name env executable h);
        named = refl;
        asks = refl;
        ran = bounded_output_sound env processes setup.fuel _ _ printed ran;
      }

  -- Git's command: no helper but one, which ends in the quoted private name.
  pub record IsAsking (real origin pinned : Text) (command : Command) : Type 0 where
    pub front : Text
    pub options : List Text
    pub arguments :
        command.arguments
        ≡ codes "/usr/bin/git"
          ∷ codes "-C"
          ∷ real
          ∷ codes "-c"
          ∷ codes "credential.helper="
          ∷ codes "-c"
          ∷ (codes "credential.helper=" ++ (front ++ setup.quote pinned))
          ∷ (options ++ (codes "ls-remote" ∷ codes "--exit-code" ∷ origin ∷ codes "HEAD" ∷ []))
    pub alone : command.executable ≡ none

  -- What `check_amp_remote` establishes from the history with which it begins. Git was started behind
  -- `verify_amp` and the link to Amp, with a helper that runs the private name.
  pub record IsReachable (home executable repository origin : Text) (descriptor : ℕ) (h : History)
      : Type 0 where
    pub verified : (verify_amp env home executable h).0 ≡ ok tt
    pub amp : IsAmp env home executable
    pub expected : is_amp_origin origin ≡ true
    pub real : Text
    pub resolved : real ≡ env.real_path (verify_amp env home executable h).1 repository
    pub begun : History
    pub begins : begun ≡ Call.real_path repository ∷ (verify_amp env home executable h).1
    pub pinned : IsPinned env executable descriptor begun
    pub answer : Text
    pub command : Command
    pub asks : IsAsking real origin (private_name env executable begun) command
    pub asked :
        WasRun command
          (Call.real_path setup.script ∷ pinned_at env executable descriptor begun)
          answer

  pub check_remote_with-IsReachable :
      (home executable repository origin : Text) (descriptor : ℕ) (h : History)
      → (check_remote_with env processes setup home executable repository origin descriptor h).0
        ≡ ok tt
      → IsReachable home executable repository origin descriptor h
  unfolding check_remote_with ask_remote remote_command helper_line
  check_remote_with-IsReachable home executable repository origin descriptor h e =
      let (_, verified, e₁) = after-ok _ (verify_amp env home executable h) e in
      let found = env.real_path (verify_amp env home executable h).1 repository in
      let begun : History = Call.real_path repository ∷ (verify_amp env home executable h).1 in
      let (expected, e₃) = require-ok (is_amp_origin origin) "invalid Amp origin" _ begun e₁ in
      let (answer, was_asked, _) =
        after-ok _
          (with_pinned env executable descriptor (ask_remote env processes setup home found origin)
            begun)
          e₃ in
      let (pinned, ran) = with_pinned-IsPinned env executable descriptor _ begun was_asked in
      record {
        verified = verified;
        amp = verify_amp_sound env home executable h verified;
        expected = expected;
        real = found;
        resolved = refl;
        begun = begun;
        begins = refl;
        pinned = pinned;
        answer = answer;
        command = _;
        asks = record {
          front =
              codes "!"
              ++ setup.quote (codes "/usr/bin/python3")
              ++ codes " "
              ++ setup.quote (codes "-I")
              ++ codes " "
              ++ setup.quote
                  (env.real_path (pinned_at env executable descriptor begun) setup.script)
              ++ codes " "
              ++ setup.quote (codes "credential-helper")
              ++ codes " ";
          options =
              codes "-c"
              ∷ codes "credential.https://ampcode.com.useHttpPath=true"
              ∷ codes "-c"
              ∷ codes "core.hooksPath=/dev/null"
              ∷ codes "-c"
              ∷ codes "core.askPass=/bin/false"
              ∷ codes "-c"
              ∷ codes "credential.interactive=false"
              ∷ [];
          arguments = refl;
          alone = refl;
        };
        asked = bounded_output_sound env processes setup.fuel _ _ answer ran;
      }
