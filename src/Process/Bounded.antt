-- ===== src/Process/Bounded.antt =====
-- `bounded_output` of runtime/templates/runtime_metadata.py around its reading loop: the end of the
-- process, and what is left of it.
use clamp.Prelude.{
  ℕ, zero, suc, ◌+◌, ◌-◌, Bool, true, false, ◌==◌, Option, none, some, [], leb, if◌then◌else◌,
}
use clamp.Prelude.Results.{
  Exn, Result, ok, err, os_error, value_error, out_of_rounds, unicode_decode_error,
  subprocess_error,
}
use clamp.Text.{Text}
use clamp.Utf8.{Bytes, decode}
use clamp.Os.{Env, M, History, ◌>>=◌, ◌>>◌, return, require, raise, fail, handle, handled, ending}
use clamp.Process.{
  do_make_selector, do_register, do_close_selector, Command, Child, Processes, Probe, waitid,
  kqueue, unavailable, Pump, esrch, pump, do_popen, do_clock, do_exited, do_exit_event, do_sleep,
  do_killpg, do_kill, do_poll, do_wait, do_wait_until,
}

-- `max(0.1, deadline - time.monotonic())` and `min(0.01, …)`
abbrev pub last_wait : ℕ → ℕ
last_wait time = if leb 100000000 time then time else 100000000

abbrev pub short_sleep : ℕ → ℕ
short_sleep time = if leb time 10000000 then time else 10000000

-- `except (UnicodeDecodeError, subprocess.TimeoutExpired)`
unfoldable pub output_error : Exn → M Text
output_error unicode_decode_error = fail "command output invalid"
output_error subprocess_error = fail "command output invalid"
output_error e = raise e

-- `output.decode("utf-8", "strict")`
unfoldable pub decoded : Option Text → M Text
decoded none = raise unicode_decode_error
decoded (some text) = return text

-- `input_data`, and the state in which the loop starts.
abbrev pub input_of : Option Bytes → Bytes
input_of none = []
input_of (some data_bytes) = data_bytes

abbrev pub first_pump : Option Bytes → Pump
first_pump none = record { output = []; reading = true; offset = 0; writing = false }
first_pump (some _) = record { output = []; reading = true; offset = 0; writing = true }

module _ (env : Env) (processes : Processes) where
  -- `except ProcessLookupError: pass`
  unfoldable pub already_gone : Exn → M (Unit {0})
  already_gone (os_error n) = if n == esrch then return tt else raise (os_error n)
  already_gone e = raise e

  unfoldable pub kill_group : ℕ → M (Unit {0})
  kill_group pid = handle (do_killpg env processes pid) already_gone

  -- `time.sleep(min(0.01, deadline - time.monotonic()))`, which refuses a negative time.
  unfoldable pub sleep_shortly : ℕ → M (Unit {0})
  sleep_shortly deadline = do
    now ← do_clock env processes
    if leb now deadline
        then do_sleep env processes (short_sleep (deadline - now))
        else raise value_error

  -- The loop round `os.waitid`, on fuel; to run out of it is the error `out_of_rounds`.
  unfoldable pub await_exit : ℕ → ℕ → ℕ → M (Unit {0})
  await_exit zero pid deadline = raise out_of_rounds
  await_exit (suc fuel) pid deadline = do_exited env processes pid >>= λ ended.
      let rest = await_exit fuel pid deadline in
      if ended
      then return tt
      else (do_clock env processes >>= λ now.
          if leb deadline now then fail "command timeout" else (sleep_shortly deadline >> rest))

  -- The process's end, by the way that the platform has.
  unfoldable pub probe_exit : Probe → ℕ → ℕ → ℕ → M (Unit {0})
  probe_exit waitid fuel pid deadline = await_exit fuel pid deadline
  probe_exit kqueue fuel pid deadline = do
    now ← do_clock env processes
    ended ← do_exit_event env processes pid (deadline - now)
    require ended "command timeout"
  probe_exit unavailable fuel pid deadline = fail "command exit probe unavailable"

  -- The part for a new session, behind which `group_cleaned` is set.
  unfoldable pub end_group : Bool → ℕ → ℕ → ℕ → M (Unit {0})
  end_group true fuel pid deadline = probe_exit processes.probe fuel pid deadline >> kill_group pid
  end_group false fuel pid deadline = return tt

  -- The `try` until `group_cleaned` is set, or would be.
  unfoldable pub first_stage : ℕ → Command → Child → ℕ → M Bytes
  first_stage fuel command child deadline = do
    output ←
        pump env processes fuel command.maximum (input_of command.input_data) child deadline
          (first_pump command.input_data)
    end_group command.new_session fuel child.pid deadline
    return output

  -- The rest of the `try`.
  unfoldable pub last_stage : Child → ℕ → Bytes → M Text
  last_stage child deadline output = do
    now ← do_clock env processes
    succeeded ← do_wait_until env processes child.pid (last_wait (deadline - now))
    require succeeded "command failed"
    decoded (decode output)

  -- The selector and its registrations, which stand in front of the `try`.
  unfoldable pub set_up : Option Bytes → Child → M (Unit {0})
  set_up none child = do_make_selector env processes >> do_register env processes child.stdout
  set_up (some _) child = do
    do_make_selector env processes
    do_register env processes child.stdout
    do_register env processes child.stdin

  -- The `finally`; `signal_group` is `new_session and not group_cleaned`.
  unfoldable pub clean_up : Bool → ℕ → M (Unit {0})
  clean_up signal_group pid = do
    do_close_selector env processes
    if signal_group
        then kill_group pid
        else (do_poll env processes pid >>= λ running.
            if running then do_kill env processes pid else return tt)
    running ← do_poll env processes pid
    if running then (do_wait env processes pid >>= λ _. return tt) else return tt

  -- The whole `try`, behind the outcome of its first stage.
  unfoldable pub behind_stage : Command → Child → ℕ → Result Bytes × History → Result Text × History
  behind_stage command child deadline (err e, h) =
      ending (clean_up command.new_session child.pid) (output_error e h)
  behind_stage command child deadline (ok output, h) =
      ending (clean_up false child.pid) (handled output_error (last_stage child deadline output h))

  -- `bounded_output`; the fuel is that of its two loops.
  unfoldable pub bounded_output : ℕ → Command → M Text
  bounded_output fuel command = do
    child ← do_popen env processes command
    set_up command.input_data child
    now ← do_clock env processes
    λ h.
        behind_stage command child (now + command.timeout)
          (first_stage fuel command child (now + command.timeout) h)
