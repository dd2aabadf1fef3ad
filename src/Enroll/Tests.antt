-- ===== src/Enroll/Tests.antt =====
-- An enrollment in a home directory, and the theorems there.
use clamp.Prelude.{◌≡◌, refl, true, false, ◌++◌, none, some, [], ◌∷◌}
use clamp.Prelude.Results.{err, exit}
use clamp.Text.{Text, codes, text_eq, mem, starts_with, ends_with, rstrip, split, join}
use clamp.Text.Decimal.{decimal}
use clamp.Utf8.{encode}
use clamp.Regex.{fullmatch}
use clamp.Patterns.{is_source, is_digit, is_hex}
use clamp.Paths.{targets}
use clamp.Posix.{is_absolute, dirname, join_name, common_path}
use clamp.Trust.{
  verify_amp, verify_trusted_chain, climb, check_real, check_below, amp_path, is_trusted,
  is_private, is_own_executable, is_shared, is_sticky, is_runnable,
}
use clamp.Trust.Tests.{at_home}
use clamp.Amp.{is_amp_version}
use clamp.Os.{Stat}
use clamp.Os.Emits.{Emits}
use clamp.Files.{same_file, same_state, read_all, digest_opened, amp_digest, sync_directory}
use clamp.Enroll.{
  Local, is_closed, is_state_directory, is_state_file, is_identity, same_identity, is_expected,
  check_state_home, state_directory, check_state, first_identity, last_identity, write_all,
  write_record, remove_temporary, repository_path, state_paths, enrollment_of, commit,
  write_and_commit, save, save_encoded, enroll_in, enroll_amp,
}
use clamp.Enroll.Record.{record_text}
use clamp.Enroll.Written.{IsRemoved, save-IsRemoved}
use clamp.Enroll.Steps.{IsEnrolling}
use clamp.Enroll.Effects.{enroll_amp-IsEnrolling}

abbrev stat : Stat
stat = record {
  is_regular = true;
  is_directory = false;
  mode = 0x1C0;
  dev = 1;
  ino = 2;
  uid = 1000;
  size = 0;
  mtime_ns = 7;
}

-- A state directory below the home directory.
abbrev site : Local
site = record {
  sha256 = λ raw. codes "d0";
  rounds = 1;
  state_home = some (codes "/h/u/s");
  quoted = λ s. codes "0";
  now = codes "2026-01-01T00:00:00Z";
}

running : Unit {0}
unfolding text_eq mem starts_with ends_with rstrip split join decimal encode fullmatch is_source
    is_digit is_hex targets is_absolute dirname join_name common_path verify_amp
    verify_trusted_chain climb check_real check_below amp_path is_trusted is_private
    is_own_executable is_shared is_sticky is_runnable is_amp_version same_file same_state read_all
    digest_opened amp_digest sync_directory is_closed is_state_directory is_state_file is_identity
    same_identity is_expected check_state_home state_directory check_state first_identity
    last_identity write_all write_record remove_temporary repository_path state_paths enrollment_of
    commit write_and_commit save save_encoded enroll_in enroll_amp record_text
running = tt

abbrev the_source : Text
the_source = codes "ampcode.com/git/@u/k"

abbrev the_amp : Text
the_amp = codes "/h/u/.amp/bin/amp"

unknown_source :
    (enroll_amp at_home site
      (codes "/h/u")
      (codes "example.com/k")
      (codes "linux-x86_64")
      the_amp
      (codes "0.0.1789113641-gab")
      none
      []).0
    ≡ err (exit "invalid Amp enrollment identity")
unfolding running
unknown_source = refl

record_tests :
    record_text
      (λ s. b'"' ∷ (s ++ (b'"' ∷ [])))
      (enrollment_of site (codes "s") (codes "t") (codes "p") (codes "v") (stat, codes "d"))
    ≡ codes
        "{\"amp_device\":1,\"amp_inode\":2,\"amp_path\":\"p\",\"amp_sha256\":\"d\",\"amp_size\":0,\"amp_version\":\"v\",\"qualified_at\":\"2026-01-01T00:00:00Z\",\"schema_version\":1,\"source_repository\":\"s\",\"target\":\"t\"}\n"
unfolding record_text enrollment_of decimal
record_tests = refl

enroll_amp-IsEnrolling_example : Emits (IsEnrolling site the_source) (
    enroll_amp at_home site
      (codes "/h/u")
      the_source
      (codes "linux-x86_64")
      the_amp
      (codes "0.0.1789113641-gab")
      none)
enroll_amp-IsEnrolling_example =
    enroll_amp-IsEnrolling at_home site the_source (codes "/h/u") (codes "linux-x86_64") the_amp
      (codes "0.0.1789113641-gab") none

save-IsRemoved_example :
    IsRemoved at_home
      (codes "/r/.e")
      (save at_home site
        (codes "/h/u")
        the_amp
        (stat, codes "d0")
        none
        (codes "/r/.e")
        (codes "/r")
        (codes "x")
        []).1
save-IsRemoved_example =
    save-IsRemoved at_home site (codes "/h/u") the_amp (stat, codes "d0") none (codes "/r/.e")
      (codes "/r") (codes "x") []
