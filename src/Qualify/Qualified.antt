-- ===== src/Qualify/Qualified.antt =====
-- What `qualify_amp` of runtime/templates/runtime_metadata.py has found when it returns.
use clamp.Prelude.{◌≡◌, ℕ, true, some}
use clamp.Prelude.Results.{ok}
use clamp.Text.{Text}
use clamp.Trust.{verify_amp}
use clamp.Trust.Amp.{IsAmp}
use clamp.Amp.{supported, amp_version_result}
use clamp.Files.{open_amp, amp_digest, amp_digest_descriptor, same_file}
use clamp.Enroll.{Local}
use clamp.Enroll.Enrolled.{IsEnrolled}
use clamp.Os.{Env, Stat, History}
use clamp.Process.{Processes}
use clamp.Qualify.{Setup, version_output, check_remote_with}
use clamp.Qualify.Reached.{IsPrinted, IsReachable}

module _ (env : Env) (processes : Processes) (setup : Setup) where
  -- The histories of a run behind the opening of Amp: behind its version, behind the question to the
  -- remote, and behind the two digests.
  abbrev pub printed_at : Text → Text → ℕ → History → History
  printed_at home executable descriptor h =
      (version_output env processes setup home executable descriptor h).1

  abbrev pub reached_at : Text → Text → Text → Text → ℕ → History → History
  reached_at home executable repository origin descriptor h =
      (check_remote_with env processes setup home executable repository origin descriptor
        (printed_at home executable descriptor h)).1

  -- What the body of `qualify_amp` establishes, in this order, from the history with which it begins.
  pub record IsChecked (site : Local) (home executable repository origin source target : Text)
      (descriptor : ℕ) (h : History) : Type 0 where
    pub printed : Text
    pub ran : IsPrinted env processes setup home executable descriptor h printed
    pub version : Text
    pub supports : amp_version_result printed ≡ supported version
    pub reachable :
        IsReachable env processes setup home executable repository origin descriptor
          (printed_at home executable descriptor h)
    pub retained : Stat × Text
    pub digested :
        (amp_digest_descriptor env site.sha256 descriptor
          (reached_at home executable repository origin descriptor h)).0
        ≡ ok retained
    pub looked : History
    pub looks :
        looked
        ≡ (amp_digest_descriptor env site.sha256 descriptor
            (reached_at home executable repository origin descriptor h)).1
    pub current : Stat × Text
    pub digested_again : (amp_digest env site.sha256 site.rounds executable looked).0 ≡ ok current
    pub same_executable : same_file retained.0 current.0 ≡ true
    pub same_digest : retained.1 ≡ current.1
    pub enrolled :
        IsEnrolled env site home source target executable version
          (some retained)
          (amp_digest env site.sha256 site.rounds executable looked).1

  -- What `qualify_amp` establishes: Amp was verified, then opened, and the rest found on that
  -- descriptor.
  pub record IsQualified (site : Local) (home executable repository origin source target : Text)
      (h : History) : Type 0 where
    pub verified : (verify_amp env home executable h).0 ≡ ok tt
    pub amp : IsAmp env home executable
    pub descriptor : ℕ
    pub was_opened :
        (open_amp env executable (verify_amp env home executable h).1).0 ≡ ok descriptor
    pub checked :
        IsChecked site home executable repository origin source target descriptor
          (open_amp env executable (verify_amp env home executable h).1).1
