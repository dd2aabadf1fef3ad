-- ===== src/Process/Silent.antt =====
-- The parts of `bounded_output` of runtime/templates/runtime_metadata.py that read nothing.
use clamp.Prelude.{
  ℕ, zero, suc, ◌+◌, ◌-◌, Bool, true, false, ◌==◌, Option, none, some, leb, length, take, drop,
  if◌then◌else◌,
}
use clamp.Prelude.Results.{Exn, os_error, value_error, Result, ok, err}
use clamp.Utf8.{Bytes}
use clamp.Os.{Env, Call, History, return, raise, fail, handle, do_write}
use clamp.Os.Emits.{
  Emits, Grows, same, more, none-Emits, one-Emits, bind-Emits, if-Emits, handle-Emits,
  require-Emits, return-Emits,
}
use clamp.Os.Heard.{IsSilent}
use clamp.Process.{
  Processes, Child, Pump, Probe, waitid, kqueue, unavailable, epipe, esrch, note_kill, note_either,
  close_input, write_input, broken_input, do_close_pipe, do_clock, do_exited, do_exit_event,
  do_sleep, do_kill, do_poll, do_wait, do_make_selector, do_register, do_close_selector,
}
use clamp.Process.Bounded.{
  already_gone, kill_group, sleep_shortly, await_exit, probe_exit, end_group, clean_up, set_up,
  short_sleep,
}

-- A call that is noted by one of two names, neither of which reads.
either-Emits :
    (c d : Call) (f : History → Result (Unit {0}))
    → IsSilent c
    → IsSilent d
    → Emits IsSilent (λ h. note_either c d h (f h))
either-Emits c d f p q = record { grows = λ h. noted h (f h) }
  where
    noted : (h : History) (r : Result (Unit {0})) → Grows IsSilent h (note_either c d h r).1
    noted h (ok _) = more p same
    noted h (err _) = more q same

kill-Emits :
    (c : Call) (pid : ℕ) (f : History → Result (Unit {0}))
    → IsSilent c
    → Emits IsSilent (λ h. note_kill c pid h (f h))
kill-Emits c pid f p = record { grows = λ h. noted h (f h) }
  where
    noted : (h : History) (r : Result (Unit {0})) → Grows IsSilent h (note_kill c pid h r).1
    noted h (ok _) = more p same
    noted h (err _) = more tt same

module _ (env : Env) (processes : Processes) where
  close_input-IsSilent :
      (child : Child) (p : Pump) → Emits IsSilent (close_input env processes child p)
  unfolding close_input
  close_input-IsSilent child p =
      bind-Emits (do_close_pipe env processes child.stdin) _ (one-Emits _ _ tt)
        λ _. return-Emits (record p { writing = false })

  write_input-IsSilent :
      (data_bytes : Bytes) (child : Child) (p : Pump)
      → Emits IsSilent (write_input env processes data_bytes child p)
  unfolding write_input
  write_input-IsSilent data_bytes child p =
      bind-Emits (do_write env child.stdin (take 4096 (drop p.offset data_bytes))) _
        (one-Emits _ _ tt)
        λ written.
          if-Emits (p.offset + written == length data_bytes) _ _
            (close_input-IsSilent child (record p { offset = p.offset + written }))
            (return-Emits (record p { offset = p.offset + written }))

  broken_input-IsSilent :
      (child : Child) (p : Pump) (e : Exn) → Emits IsSilent (broken_input env processes child p e)
  unfolding broken_input
  broken_input-IsSilent child p (os_error n) =
      if-Emits (n == epipe) _ (raise (os_error n)) (close_input-IsSilent child p) (none-Emits _)
  broken_input-IsSilent child p _ = none-Emits _

  pub writing-IsSilent :
      (data_bytes : Bytes) (child : Child) (p : Pump)
      → Emits IsSilent (
          handle
            (write_input env processes data_bytes child p)
            (broken_input env processes child p))
  writing-IsSilent data_bytes child p =
      handle-Emits _ _ (write_input-IsSilent data_bytes child p) (broken_input-IsSilent child p)

  already_gone-IsSilent : (e : Exn) → Emits IsSilent (already_gone env processes e)
  unfolding already_gone
  already_gone-IsSilent (os_error n) =
      if-Emits (n == esrch) _ (raise (os_error n)) (return-Emits tt) (none-Emits _)
  already_gone-IsSilent _ = none-Emits _

  kill_group-IsSilent : (pid : ℕ) → Emits IsSilent (kill_group env processes pid)
  unfolding kill_group
  kill_group-IsSilent pid =
      handle-Emits _ _ (kill-Emits _ pid (λ h. processes.killpg h pid) tt) already_gone-IsSilent

  sleep_shortly-IsSilent : (deadline : ℕ) → Emits IsSilent (sleep_shortly env processes deadline)
  unfolding sleep_shortly
  sleep_shortly-IsSilent deadline = bind-Emits (do_clock env processes) _ (one-Emits _ _ tt) λ now.
      if-Emits (leb now deadline) (do_sleep env processes (short_sleep (deadline - now)))
        (raise value_error) (one-Emits _ _ tt) (none-Emits _)

  await_exit-IsSilent :
      (fuel pid deadline : ℕ) → Emits IsSilent (await_exit env processes fuel pid deadline)
  unfolding await_exit
  await_exit-IsSilent zero pid deadline = none-Emits _
  await_exit-IsSilent (suc fuel) pid deadline =
      bind-Emits (do_exited env processes pid) _ (one-Emits _ _ tt) λ ended.
        if-Emits ended _ _ (return-Emits tt) (
          bind-Emits (do_clock env processes) _ (one-Emits _ _ tt) λ now.
            if-Emits (leb deadline now) (fail "command timeout") _ (none-Emits _) (
              bind-Emits (sleep_shortly env processes deadline) _ (sleep_shortly-IsSilent deadline)
                λ _. await_exit-IsSilent fuel pid deadline))

  probe_exit-IsSilent :
      (probe : Probe) (fuel pid deadline : ℕ)
      → Emits IsSilent (probe_exit env processes probe fuel pid deadline)
  unfolding probe_exit
  probe_exit-IsSilent waitid fuel pid deadline = await_exit-IsSilent fuel pid deadline
  probe_exit-IsSilent kqueue fuel pid deadline =
      bind-Emits (do_clock env processes) _ (one-Emits _ _ tt) λ now.
        bind-Emits (do_exit_event env processes pid (deadline - now)) _ (one-Emits _ _ tt)
          λ ended. require-Emits ended "command timeout"
  probe_exit-IsSilent unavailable fuel pid deadline = none-Emits _

  pub end_group-IsSilent :
      (b : Bool) (fuel pid deadline : ℕ)
      → Emits IsSilent (end_group env processes b fuel pid deadline)
  unfolding end_group
  end_group-IsSilent true fuel pid deadline =
      bind-Emits (probe_exit env processes processes.probe fuel pid deadline) _
        (probe_exit-IsSilent processes.probe fuel pid deadline) λ _. kill_group-IsSilent pid
  end_group-IsSilent false fuel pid deadline = return-Emits tt

  pub set_up-IsSilent :
      (given : Option Bytes) (child : Child) → Emits IsSilent (set_up env processes given child)
  unfolding set_up
  set_up-IsSilent none child =
      bind-Emits (do_make_selector env processes) _ (either-Emits _ _ processes.make_selector tt tt)
        λ _. either-Emits _ _ (λ h. processes.register h child.stdout) tt tt
  set_up-IsSilent (some _) child =
      bind-Emits (do_make_selector env processes) _ (either-Emits _ _ processes.make_selector tt tt)
        λ _.
          bind-Emits (do_register env processes child.stdout) _
            (either-Emits _ _ (λ h. processes.register h child.stdout) tt tt)
            λ _. either-Emits _ _ (λ h. processes.register h child.stdin) tt tt

  pub clean_up-IsSilent : (b : Bool) (pid : ℕ) → Emits IsSilent (clean_up env processes b pid)
  unfolding clean_up
  clean_up-IsSilent b pid =
      bind-Emits (do_close_selector env processes) _
        (either-Emits _ _ processes.close_selector tt tt)
        λ _.
          bind-Emits (if b then kill_group env processes pid else _) _
            (if-Emits b _ _ (kill_group-IsSilent pid) (
              bind-Emits (do_poll env processes pid)
                (λ running. if running then do_kill env processes pid else return tt)
                (record { grows = λ h. more tt same })
                λ running.
                  if-Emits running _ _ (kill-Emits _ pid (λ h. processes.kill h pid) tt)
                    (return-Emits tt)))
            λ _.
              bind-Emits (do_poll env processes pid) _ (record { grows = λ h. more tt same })
                λ running.
                  if-Emits running _ _
                    (bind-Emits (do_wait env processes pid) (λ _. return tt) (one-Emits _ _ tt)
                      λ _. return-Emits tt)
                    (return-Emits tt)
