-- ===== src/Enroll/Enrolled.antt =====
-- What `enroll_amp` of runtime/templates/runtime_metadata.py has checked and done when it returns.
use clamp.Prelude.{◌≡◌, true, Option, some, ◌∷◌, ◌++◌, All}
use clamp.Prelude.Results.{ok}
use clamp.Text.{Text, codes, mem, starts_with}
use clamp.Utf8.{Bytes, encode}
use clamp.Patterns.{is_source}
use clamp.Paths.{targets}
use clamp.Posix.{join_name, common_path}
use clamp.Amp.{is_amp_version}
use clamp.Os.{Stat, Env, History, lstat, token}
use clamp.Enroll.{
  is_state_directory, is_expected, state_directory, check_state, first_identity, Local,
  repository_path, state_paths, enrollment_of,
}
use clamp.Enroll.Record.{record_text}
use clamp.Enroll.Saved.{WasDigested, verified_at, digested_at, placed, IsRecorded}

module _ (env : Env) (site : Local) where
  -- A directory of the state was seen to be the user's, and nobody else has any right on it.
  abbrev pub WasClosed : Text → Type 0
  WasClosed path =
      (h : History) × (observed : Stat) × (env.lstat h path ≡ ok observed)
      × (is_state_directory env.euid observed ≡ true)

  -- The histories of a run of `enroll_amp`: behind the tests on the directories, and behind the first
  -- look at the destination.
  abbrev pub checked_at : Text → Text → Text → Text → History → History
  checked_at home source executable state_home h =
      (check_state env state_home (state_paths site state_home source)
        (state_directory env home site.state_home (verified_at env site home executable h)).1).1

  abbrev pub looked_at : Text → Text → Text → Text → History → History
  looked_at home source executable state_home h =
      (first_identity env (placed env site (repository_path site state_home source))
        (digested_at env site executable (checked_at home source executable state_home h))).1

  pub record IsEnrolled (home source target executable version : Text)
      (expected : Option (Stat × Text)) (h : History) : Type 0 where
    pub source_pattern : is_source source ≡ true
    pub source_prefix : starts_with source (codes "ampcode.com/git/@") ≡ true
    pub known_target : mem target targets ≡ true
    pub amp_version : is_amp_version version ≡ true
    pub state_home : Text
    pub inside : common_path state_home (repository_path site state_home source) ≡ state_home
    pub directories : All WasClosed (state_paths site state_home source)
    pub observed : Stat × Text
    pub digested :
        WasDigested env site executable (checked_at home source executable state_home h) observed
    pub as_expected : is_expected observed.0 observed.1 expected ≡ true
    pub raw : Bytes
    pub encoded :
        encode
          (record_text site.quoted (enrollment_of site source target executable version observed))
        ≡ some raw
    pub identity : Option Stat
    pub recorded :
        IsRecorded env site home executable
          (repository_path site state_home source)
          (join_name
            (repository_path site state_home source)
            (codes ".enrollment-" ++ env.token (looked_at home source executable state_home h)))
          observed
          identity
          raw
          (token ∷ looked_at home source executable state_home h)
