-- ===== src/Helper/Tests.antt =====
-- An exchange in which Git asks for a password, and the theorem there.
use clamp.Prelude.{◌≡◌, refl, [], some}
use clamp.Prelude.Results.{ok, err, exit}
use clamp.Text.{
  Text, codes, text_eq, mem, split, split_once, contains, strip, rstrip, lstrip, is_space,
}
use clamp.Utf8.{decode, encode}
use clamp.Credential.{
  valid_credential_protocol, valid_lines, is_answered, read_lines, line_key, allowed_names,
}
use clamp.Process.{
  events_of, read_output, close_input, write_input, broken_input, take_events, pump_round, pump,
}
use clamp.Process.Bounded.{
  output_error, decoded, already_gone, kill_group, sleep_shortly, await_exit, probe_exit, end_group,
  first_stage, last_stage, set_up, clean_up, behind_stage, bounded_output,
}
use clamp.Process.Tests.{telling, at_work}
use clamp.Helper.{
  Console, is_operation, is_answer, helper_command, home_of, encoded, setup_credential_helper,
}

abbrev console : Text → Console
console request = record { read_input = λ h n. ok request; home = some (codes "/h/u") }

abbrev password : Text
password = codes "username=u\npassword=p\n"

running : Unit {0}
unfolding text_eq mem split split_once contains strip rstrip lstrip is_space decode encode
    valid_credential_protocol valid_lines is_answered read_lines line_key allowed_names events_of
    read_output close_input write_input broken_input take_events pump_round pump output_error
    decoded already_gone kill_group sleep_shortly await_exit probe_exit end_group first_stage
    last_stage set_up clean_up behind_stage bounded_output is_operation is_answer helper_command
    home_of encoded setup_credential_helper
running = tt

-- A helper that says something behind `store` is refused, as is a request with an unknown name.
refusals :
    ((setup_credential_helper
        (telling password)
        at_work
        (console (codes "host=x\n"))
        3
        (codes "/amp")
        (codes "store")
        []).0
      ≡ err (exit "credential protocol invalid"))
    × ((setup_credential_helper
          (telling password)
          at_work
          (console (codes "shell=x\n"))
          3
          (codes "/amp")
          (codes "get")
          []).0
        ≡ err (exit "credential protocol invalid"))
unfolding running
refusals = (refl, refl)
