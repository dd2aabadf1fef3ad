-- ===== src/Arguments.antt =====
-- The table at the end of runtime/templates/runtime_metadata.py: which command the arguments name.
pub mod Named
mod Tests
use clamp.Prelude.{Option, none, some, List, [], ◌∷◌, if◌then◌else◌}
use clamp.Text.{Text, codes, text_eq}

-- The calls that the table makes, with their arguments as `sys.argv` has them.
pub data Task : Type 0 where
  call_parse_lock : Text → Text → Task
  call_parse_manifest : Text → Text → Text → Text → Text → Task
  call_verify_digest : Text → Text → Task
  call_source_repository : Text → Task
  call_local_preflight : Text → Text → Task
  call_verify_amp : Text → Text → Task
  call_verify_amp_version : Text → Task
  call_run_amp_version : Text → Text → Task
  call_check_amp_remote : Text → Text → Text → Text → Task
  call_qualify_amp : Text → Text → Text → Text → Text → Text → Task
  call_setup_credential_helper : Text → Text → Task
  call_enroll_amp : Text → Text → Text → Text → Text → Task
  -- One required file at least.
  call_extract_archive : Text → Text → Text → Text → Text → Text → Text → List Text → Task
  -- One path at least; the second is the call with `create=False`.
  call_private_directories call_check_directories : Text → Text → List Text → Task
  call_installed : Text → Text → Text → Text → Task
  call_install : Text → Text → Task
  call_cache : Text → Text → Text → Task

abbrev pub Reader : Type 0
Reader = List Text → Option Task

-- The tests on the number of arguments, with what they are given to.
unfoldable pub one_argument : (Text → Task) → Reader
one_argument f (a ∷ []) = some (f a)
one_argument f _ = none

unfoldable pub two_arguments : (Text → Text → Task) → Reader
two_arguments f (a ∷ b ∷ []) = some (f a b)
two_arguments f _ = none

unfoldable pub three_arguments : (Text → Text → Text → Task) → Reader
three_arguments f (a ∷ b ∷ c ∷ []) = some (f a b c)
three_arguments f _ = none

unfoldable pub four_arguments : (Text → Text → Text → Text → Task) → Reader
four_arguments f (a ∷ b ∷ c ∷ d ∷ []) = some (f a b c d)
four_arguments f _ = none

unfoldable pub five_arguments : (Text → Text → Text → Text → Text → Task) → Reader
five_arguments f (a ∷ b ∷ c ∷ d ∷ e ∷ []) = some (f a b c d e)
five_arguments f _ = none

unfoldable pub six_arguments : (Text → Text → Text → Text → Text → Text → Task) → Reader
six_arguments f (a ∷ b ∷ c ∷ d ∷ e ∷ g ∷ []) = some (f a b c d e g)
six_arguments f _ = none

unfoldable pub two_arguments_and_more : (Text → Text → List Text → Task) → Reader
two_arguments_and_more f (a ∷ b ∷ more) = some (f a b more)
two_arguments_and_more f _ = none

unfoldable pub seven_arguments_and_more :
    (Text → Text → Text → Text → Text → Text → Text → List Text → Task) → Reader
seven_arguments_and_more f (a ∷ b ∷ c ∷ d ∷ e ∷ g ∷ i ∷ more) = some (f a b c d e g i more)
seven_arguments_and_more f _ = none

-- The table.
abbrev pub commands : List (Text × Reader)
commands =
    (codes "lock", two_arguments call_parse_lock)
    ∷ (codes "manifest", five_arguments call_parse_manifest)
    ∷ (codes "digest", two_arguments call_verify_digest)
    ∷ (codes "source", one_argument call_source_repository)
    ∷ (codes "preflight", two_arguments call_local_preflight)
    ∷ (codes "verify-amp", two_arguments call_verify_amp)
    ∷ (codes "amp-version", one_argument call_verify_amp_version)
    ∷ (codes "amp-version-exec", two_arguments call_run_amp_version)
    ∷ (codes "amp-ready", four_arguments call_check_amp_remote)
    ∷ (codes "qualify-amp", six_arguments call_qualify_amp)
    ∷ (codes "credential-helper", two_arguments call_setup_credential_helper)
    ∷ (codes "enroll-amp", five_arguments call_enroll_amp)
    ∷ (codes "extract", seven_arguments_and_more call_extract_archive)
    ∷ (codes "private-dirs", two_arguments_and_more call_private_directories)
    ∷ (codes "verify-dirs", two_arguments_and_more call_check_directories)
    ∷ (codes "installed", four_arguments call_installed)
    ∷ (codes "install", two_arguments call_install)
    ∷ (codes "cache", three_arguments call_cache)
    ∷ []

-- The chain of tests: the first entry whose name and number of arguments fit.
unfoldable pub first_fit : List (Text × Reader) → Text → List Text → Option Task
first_fit [] name args = none
first_fit ((key, reader) ∷ table) name args =
    let later = first_fit table name args in
    if text_eq name key then elim (reader args) [ none ↦ later | some task ↦ some task ] else later

-- What `sys.argv` names; `none` is `fail("usage error")`.
unfoldable pub selected : List Text → Option Task
selected (program ∷ name ∷ args) = first_fit commands name args
selected _ = none
