-- ===== src/Trust/Tests.antt =====
-- A system with Amp in a home directory, and the theorems there.
use clamp.Prelude.{◌≡◌, ◌≢◌, refl, true, false, [], if◌then◌else◌, arith, length}
use clamp.Prelude.Results.{ok, err, exit, out_of_rounds}
use clamp.Text.{codes, text_eq, starts_with, ends_with, rstrip}
use clamp.Os.{Stat, Env}
use clamp.Trust.{
  verify_amp, verify_trusted_chain, climb, check_real, check_below, amp_path, is_trusted,
  is_private, is_own_executable, is_shared, is_sticky, is_runnable,
}
use clamp.Posix.{dirname, join_name, is_absolute}
use clamp.Trust.Chain.{climb-total}
use clamp.Trust.Amp.{IsAmp, verify_amp_sound}

abbrev directory : Stat
directory = record {
  is_regular = false;
  is_directory = true;
  mode = 0x1C0;
  dev = 1;
  ino = 2;
  uid = 1000;
  size = 0;
  mtime_ns = 7;
}

abbrev program : Stat
program = record directory { is_regular = true; is_directory = false }

abbrev pub at_home : Env
at_home = record {
  lstat = λ h path. ok (if ends_with path (codes "/amp") then program else directory);
  open_read = λ h path. ok 5;
  fstat = λ h fd. ok program;
  read = λ h fd n. ok [];
  rewind = λ h fd. ok tt;
  close = λ h fd. ok tt;
  create = λ h path mode. ok 6;
  write = λ h fd bytes. ok (length bytes);
  act = λ h op. ok tt;
  lexists = λ h path. false;
  token = λ h. codes "0";
  real_path = λ h path. path;
  working_directory = codes "/";
  euid = 1000;
}

running : Unit {0}
unfolding verify_amp verify_trusted_chain climb check_real check_below amp_path dirname join_name
    is_absolute is_trusted is_private is_own_executable is_shared is_sticky is_runnable text_eq
    starts_with ends_with rstrip
running = tt

accepted : (verify_amp at_home (codes "/h/u") (codes "/h/u/.amp/bin/amp") []).0 ≡ ok tt
unfolding running
accepted = refl

misplaced :
    (verify_amp at_home (codes "/h/u") (codes "/tmp/amp") []).0
    ≡ err (exit "unexpected Amp executable")
unfolding running
misplaced = refl

chain_accepted : (verify_trusted_chain at_home (codes "/h/u") []).0 ≡ ok tt
unfolding running
chain_accepted = refl

verify_amp_sound_example : IsAmp at_home (codes "/h/u") (codes "/h/u/.amp/bin/amp")
verify_amp_sound_example =
    verify_amp_sound at_home (codes "/h/u") (codes "/h/u/.amp/bin/amp") [] accepted

climb-total_example : (climb at_home 4 (codes "/h/u") []).0 ≢ err out_of_rounds
climb-total_example = climb-total at_home 4 (codes "/h/u") [] (λ h path e. cc) (omega arith)
