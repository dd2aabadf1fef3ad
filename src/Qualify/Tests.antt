-- ===== src/Qualify/Tests.antt =====
-- A qualification in a home directory, and the theorem there.
use clamp.Prelude.{◌≡◌, refl, [], ◌∷◌, some}
use clamp.Prelude.Results.{ok, err, exit}
use clamp.Text.{
  Text, codes, text_eq, mem, starts_with, ends_with, rstrip, split, join, contains, split_once,
  is_space,
}
use clamp.Text.Decimal.{decimal, digits_value}
use clamp.Utf8.{encode, decode}
use clamp.Regex.{fullmatch, run}
use clamp.Patterns.{is_source, is_digit, is_hex}
use clamp.Paths.{targets}
use clamp.Posix.{is_absolute, dirname, join_name, common_path}
use clamp.Trust.{
  verify_amp, verify_trusted_chain, climb, check_real, check_below, amp_path, is_trusted,
  is_private, is_own_executable, is_shared, is_sticky, is_runnable,
}
use clamp.Amp.{
  amp_number, first_version, version_behind, find_version, version_status, amp_version_result,
  version_lines, verify_amp_version, is_amp_version, unpin, run_pinned, with_pinned,
}
use clamp.Files.{
  same_file, same_state, read_all, read_exactly, digest_opened, amp_digest, is_settled_file,
  open_amp, amp_digest_descriptor, sync_directory,
}
use clamp.Enroll.{
  Local, is_closed, is_state_directory, is_state_file, is_identity, same_identity, is_expected,
  check_state_home, state_directory, check_state, first_identity, last_identity, write_all,
  write_record, remove_temporary, repository_path, state_paths, enrollment_of, commit,
  write_and_commit, save, save_encoded, enroll_in, enroll_amp,
}
use clamp.Enroll.Record.{record_text}
use clamp.Process.{
  events_of, read_output, close_input, write_input, broken_input, take_events, pump_round, pump,
}
use clamp.Process.Bounded.{
  output_error, decoded, already_gone, kill_group, sleep_shortly, await_exit, probe_exit, end_group,
  first_stage, last_stage, set_up, clean_up, behind_stage, bounded_output,
}
use clamp.Process.Tests.{telling, at_work}
use clamp.Qualify.{
  Setup, version_command, remote_command, is_amp_origin, helper_line, supported_version,
  version_output, run_amp_version, ask_remote, check_remote_with, check_amp_remote, qualify_with,
  qualify_amp,
}

abbrev site : Local
site = record {
  sha256 = λ raw. codes "d0";
  rounds = 1;
  state_home = some (codes "/h/u/s");
  quoted = λ s. codes "0";
  now = codes "2026-01-01T00:00:00Z";
}

abbrev setup : Setup
setup = record { script = codes "/s.py"; quote = λ s. s; fuel = 3 }

abbrev version : Text
version = codes "0.0.1789113641-gab"

abbrev amp : Text
amp = codes "/h/u/.amp/bin/amp"

abbrev origin : Text
origin = codes "https://ampcode.com/git/@u/k"

abbrev source : Text
source = codes "ampcode.com/git/@u/k"

running : Unit {0}
unfolding text_eq mem starts_with ends_with rstrip split join contains split_once is_space decimal
    digits_value encode decode fullmatch run is_source is_digit is_hex targets is_absolute dirname
    join_name common_path verify_amp verify_trusted_chain climb check_real check_below amp_path
    is_trusted is_private is_own_executable is_shared is_sticky is_runnable amp_number first_version
    version_behind find_version version_status amp_version_result version_lines verify_amp_version
    is_amp_version unpin run_pinned with_pinned same_file same_state read_all read_exactly
    digest_opened amp_digest is_settled_file open_amp amp_digest_descriptor sync_directory is_closed
    is_state_directory is_state_file is_identity same_identity is_expected check_state_home
    state_directory check_state first_identity last_identity write_all write_record remove_temporary
    repository_path state_paths enrollment_of commit write_and_commit save save_encoded enroll_in
    enroll_amp record_text events_of read_output close_input write_input broken_input take_events
    pump_round pump output_error decoded already_gone kill_group sleep_shortly await_exit probe_exit
    end_group first_stage last_stage set_up clean_up behind_stage bounded_output is_amp_origin
    version_command remote_command helper_line supported_version version_output run_amp_version
    ask_remote check_remote_with check_amp_remote qualify_with qualify_amp
running = tt

versions :
    (run_amp_version (telling version) at_work setup (codes "/h/u") amp []).0
    ≡ ok (codes "ok" ∷ version ∷ [])
unfolding running
versions = refl

reachable :
    ((check_amp_remote (telling version) at_work setup (codes "/h/u") amp (codes "/r") origin []).0
      ≡ ok (codes "ok" ∷ []))
    × ((check_amp_remote
          (telling version)
          at_work
          setup
          (codes "/h/u")
          amp
          (codes "/r")
          (codes "https://example.com/")
          []).0
        ≡ err (exit "invalid Amp origin"))
unfolding running
reachable = (refl, refl)
