-- ===== src/Process.antt =====
-- `bounded_output` of runtime/templates/runtime_metadata.py: the output of a command, up to a number
-- of bytes and within a time. What `subprocess`, `selectors`, `signal` and the clock give are
-- parameters; the pipes are descriptors.
pub mod Bounded
pub mod Reaped
pub mod Silent
pub mod Within
pub mod Output
pub mod Measure
pub mod Rounds
pub mod Waits
pub mod Tests
use clamp.Prelude.{
  ℕ, zero, suc, ◌+◌, ◌-◌, Bool, true, false, ◌==◌, Option, none, some, List, [], ◌∷◌, ◌++◌, ltb,
  leb, take, drop, length, is_empty, if◌then◌else◌,
}
use clamp.Prelude.Results.{Exn, Result, ok, err, os_error, out_of_rounds}
use clamp.Text.{Text}
use clamp.Utf8.{Bytes}
use clamp.Os.{
  Env, M, History, Call, ◌>>=◌, ◌>>◌, return, require, raise, handle, do_read, do_write, spawned,
  spawn_failed, killed_group, killed, kill_failed, polled, probed, waited, waited_until, clock,
  slept, selected, pipe_closed, selector_set, selector_failed, selector_closed, selector_stuck,
}

-- What `bounded_output` is asked for; times are whole nanoseconds.
pub record Command : Type 0 where
  pub arguments : List Text
  pub environment : List (Text × Text)
  pub executable : Option Text
  pub input_data : Option Bytes
  pub new_session : Bool
  pub maximum : ℕ
  pub timeout : ℕ

-- What the code uses of a `Popen`.
pub record Child : Type 0 where
  pub pid : ℕ
  pub stdin : ℕ
  pub stdout : ℕ

-- What a selector gives: the pipes that are ready, in its order. It gives only those that it has.
pub data Ready : Type 0 where
  nothing only_stdout only_stdin stdout_first stdin_first : Ready

-- Which of the ways to see a process end without taking its status there is.
pub data Probe : Type 0 where
  waitid kqueue unavailable : Probe

pub record Processes : Type 0 where
  pub popen : History → Command → Result Child
  pub monotonic : History → ℕ
  -- `selectors.DefaultSelector()`, its `register` and its `close`.
  pub make_selector : History → Result (Unit {0})
  pub register : History → ℕ → Result (Unit {0})
  pub close_selector : History → Result (Unit {0})
  pub select : History → ℕ → Result Ready
  -- `process.stdin.close()`, which raises no `BrokenPipeError`, since nothing is buffered.
  pub close_pipe : History → ℕ → Result (Unit {0})
  pub probe : Probe
  -- `os.waitid` with `WNOHANG`: whether the process has ended.
  pub exited : History → ℕ → Result Bool
  -- `select.kqueue`, `control` and `close`: whether it ended within the time.
  pub exit_event : History → ℕ → ℕ → Result Bool
  pub sleep : History → ℕ → Result (Unit {0})
  pub killpg : History → ℕ → Result (Unit {0})
  pub kill : History → ℕ → Result (Unit {0})
  -- `process.poll() is None`
  pub is_running : History → ℕ → Bool
  -- `process.wait(timeout)`, as whether the status is 0. It raises no other error of `subprocess`
  -- than `TimeoutExpired`.
  pub wait : History → ℕ → Option ℕ → Result Bool

-- `errno.EPIPE` and `errno.ESRCH`, of `BrokenPipeError` and `ProcessLookupError`.
abbrev pub epipe : ℕ
epipe = 32

abbrev pub esrch : ℕ
esrch = 3

-- A pipe that is ready.
pub data Event : Type 0 where
  readable writable : Event

abbrev if_writing : Bool → List Event → List Event
if_writing true es = writable ∷ es
if_writing false es = es

-- `events`; `writing` is whether the selector has the standard input. It has the output as long as
-- the loop runs.
unfoldable pub events_of : Ready → Bool → List Event
events_of nothing writing = []
events_of only_stdout writing = readable ∷ []
events_of only_stdin writing = if_writing writing []
events_of stdout_first writing = readable ∷ if_writing writing []
events_of stdin_first writing = if_writing writing (readable ∷ [])

-- The state of the loop: the output, whether its pipe is registered, the bytes that were given to
-- the input, and whether its pipe is registered.
pub record Pump : Type 0 where
  pub output : Bytes
  pub reading : Bool
  pub offset : ℕ
  pub writing : Bool

abbrev pub note_popen : Command → History → Result Child → Result Child × History
note_popen command h (ok child) = (ok child, spawned command.arguments child.pid ∷ h)
note_popen command h (err e) = (err e, spawn_failed ∷ h)

-- A call that answers nothing, by one of two names.
abbrev pub note_either : Call → Call → History → Result (Unit {0}) → Result (Unit {0}) × History
note_either yes_call no_call h (ok _) = (ok tt, yes_call ∷ h)
note_either yes_call no_call h (err e) = (err e, no_call ∷ h)

-- A signal, by its call or as one that the system refused.
abbrev pub note_kill : Call → ℕ → History → Result (Unit {0}) → Result (Unit {0}) × History
note_kill c pid h (ok _) = (ok tt, c ∷ h)
note_kill c pid h (err e) = (err e, kill_failed pid ∷ h)

module _ (env : Env) (processes : Processes) where
  abbrev pub do_popen : Command → M Child
  do_popen command h = note_popen command h (processes.popen h command)

  abbrev pub do_clock : M ℕ
  do_clock h = (ok (processes.monotonic h), clock ∷ h)

  abbrev pub do_make_selector : M (Unit {0})
  do_make_selector h = note_either selector_set selector_failed h (processes.make_selector h)

  abbrev pub do_register : ℕ → M (Unit {0})
  do_register fd h = note_either selector_set selector_failed h (processes.register h fd)

  abbrev pub do_close_selector : M (Unit {0})
  do_close_selector h = note_either selector_closed selector_stuck h (processes.close_selector h)

  abbrev pub do_select : ℕ → M Ready
  do_select remaining h = (processes.select h remaining, selected ∷ h)

  abbrev pub do_close_pipe : ℕ → M (Unit {0})
  do_close_pipe fd h = (processes.close_pipe h fd, pipe_closed fd ∷ h)

  abbrev pub do_exited : ℕ → M Bool
  do_exited pid h = (processes.exited h pid, probed pid ∷ h)

  abbrev pub do_exit_event : ℕ → ℕ → M Bool
  do_exit_event pid time h = (processes.exit_event h pid time, probed pid ∷ h)

  abbrev pub do_sleep : ℕ → M (Unit {0})
  do_sleep time h = (processes.sleep h time, slept ∷ h)

  abbrev pub do_killpg : ℕ → M (Unit {0})
  do_killpg pid h = note_kill (killed_group pid) pid h (processes.killpg h pid)

  abbrev pub do_kill : ℕ → M (Unit {0})
  do_kill pid h = note_kill (killed pid) pid h (processes.kill h pid)

  abbrev pub do_poll : ℕ → M Bool
  do_poll pid h = (ok (processes.is_running h pid), polled pid (processes.is_running h pid) ∷ h)

  abbrev pub do_wait : ℕ → M Bool
  do_wait pid h = (processes.wait h pid none, waited pid ∷ h)

  abbrev pub do_wait_until : ℕ → ℕ → M Bool
  do_wait_until pid time h = (processes.wait h pid (some time), waited_until pid time ∷ h)

  -- The part of the loop for the output. The result tells whether the round ends here too.
  unfoldable pub read_output : ℕ → Child → Pump → M (Pump × Bool)
  read_output maximum child p = do
    chunk ← do_read env child.stdout 4096
    if is_empty chunk
        then return (record p { reading = false }, if p.writing then false else true)
        else (require (leb (length (p.output ++ chunk)) maximum) "command output too large"
            >> return (record p { output = p.output ++ chunk }, false))

  -- The end of the input: its pipe leaves the selector and is closed.
  unfoldable pub close_input : Child → Pump → M Pump
  close_input child p = do_close_pipe child.stdin >> return (record p { writing = false })

  -- The body of the `try` of the part for the input.
  unfoldable pub write_input : Bytes → Child → Pump → M Pump
  write_input data_bytes child p = do
    written ← do_write env child.stdin (take 4096 (drop p.offset data_bytes))
    let q : Pump = record p { offset = p.offset + written }
    if q.offset == length data_bytes then close_input child q else return q

  -- `except BrokenPipeError`
  unfoldable pub broken_input : Child → Pump → Exn → M Pump
  broken_input child p (os_error n) = if n == epipe then close_input child p else raise (os_error n)
  broken_input child p e = raise e

  -- The loop over the events.
  unfoldable pub take_events : ℕ → Bytes → Child → List Event → Pump → M Pump
  take_events maximum data_bytes child [] p = return p
  take_events maximum data_bytes child (readable ∷ es) p =
      read_output maximum child p >>= λ (q, ended).
      if ended then return q else take_events maximum data_bytes child es q
  take_events maximum data_bytes child (writable ∷ es) p =
      handle (write_input data_bytes child p) (broken_input child p) >>= λ q.
      take_events maximum data_bytes child es q

  -- One round of `while True`.
  unfoldable pub pump_round : ℕ → Bytes → Child → ℕ → Pump → M Pump
  pump_round maximum data_bytes child deadline p = do
    now ← do_clock
    require (ltb now deadline) "command timeout"
    ready ← do_select (deadline - now)
    let events = events_of ready p.writing
    require (ltb 0 (length events)) "command timeout"
    take_events maximum data_bytes child events p

  -- `while True`, on fuel; to run out of it is the error `out_of_rounds`.
  unfoldable pub pump : ℕ → ℕ → Bytes → Child → ℕ → Pump → M Bytes
  pump zero maximum data_bytes child deadline p = raise out_of_rounds
  pump (suc fuel) maximum data_bytes child deadline p =
      pump_round maximum data_bytes child deadline p >>= λ q.
      let rest = pump fuel maximum data_bytes child deadline q in
      if q.reading then rest else return q.output
