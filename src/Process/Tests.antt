-- ===== src/Process/Tests.antt =====
-- A command that prints a text and ends, and the theorems there.
use clamp.Prelude.{
  ◌≡◌, ◌≢◌, refl, take, sym, subst, length, ◌≤◌, arith, true, false, ◌==◌, none, some, [], ◌∷◌,
  if◌then◌else◌,
}
use clamp.Prelude.Results.{err-ne-ok, ok_inj, out_of_rounds, ok, err, exit}
use clamp.Text.{Text, codes}
use clamp.Utf8.{decode}
use clamp.Os.{Env, History, read, spawned}
use clamp.Os.Outcome.{EndsWith}
use clamp.Trust.Tests.{at_home}
use clamp.Files.Tests.{take-length}
use clamp.Process.Rounds.{IsPiped, pump-total}
use clamp.Process.{
  Command, Child, Processes, stdin_first, nothing, waitid, events_of, read_output, close_input,
  write_input, broken_input, take_events, pump_round, pump,
}
use clamp.Process.Bounded.{
  input_of, first_pump, output_error, decoded, already_gone, kill_group, sleep_shortly, await_exit,
  probe_exit, end_group, first_stage, last_stage, set_up, clean_up, behind_stage, bounded_output,
}
use clamp.Process.Reaped.{IsReaped, bounded_output-IsReaped}
use clamp.Process.Output.{IsOutput, bounded_output_sound}

-- The first read behind the start of a process gives the text, and the next one its end.
abbrev pub said : Text → History → Text
said text [] = []
said text (spawned _ _ ∷ h) = text
said text (read fd n ∷ h) = if fd == 9 then [] else said text h
said text (_ ∷ h) = said text h

abbrev pub telling : Text → Env
telling text = record at_home { read = λ h fd n. ok (take n (if fd == 9 then said text h else [])) }

abbrev pub child : Child
child = record { pid = 7; stdin = 8; stdout = 9 }

-- Processes that end with status 0, in no time.
abbrev pub at_work : Processes
at_work = record {
  popen = λ h command. ok child;
  monotonic = λ h. 0;
  make_selector = λ h. ok tt;
  register = λ h fd. ok tt;
  close_selector = λ h. ok tt;
  select = λ h time. ok stdin_first;
  close_pipe = λ h fd. ok tt;
  probe = waitid;
  exited = λ h pid. ok true;
  exit_event = λ h pid time. ok true;
  sleep = λ h time. ok tt;
  killpg = λ h pid. ok tt;
  kill = λ h pid. ok tt;
  is_running = λ h pid. false;
  wait = λ h pid time. ok true;
}

abbrev echo : Command
echo = record {
  arguments = codes "echo" ∷ [];
  environment = [];
  executable = none;
  input_data = some (codes "in");
  new_session = true;
  maximum = 2;
  timeout = 5;
}

running : Unit {0}
unfolding decode events_of read_output close_input write_input broken_input take_events pump_round
    pump output_error decoded already_gone kill_group sleep_shortly await_exit probe_exit end_group
    first_stage last_stage set_up clean_up behind_stage bounded_output
running = tt

echoes : (bounded_output (telling (codes "hi")) at_work 3 echo []).0 ≡ ok (codes "hi")
unfolding running
echoes = refl

too_much :
    (bounded_output (telling (codes "hey")) at_work 3 echo []).0
    ≡ err (exit "command output too large")
unfolding running
too_much = refl

late :
    (bounded_output
      (telling (codes "hi"))
      (record at_work { select = λ h time. ok nothing })
      3
      echo
      []).0
    ≡ err (exit "command timeout")
unfolding running
late = refl

failing :
    (bounded_output
      (telling (codes "hi"))
      (record at_work { wait = λ h pid time. ok false })
      3
      echo
      []).0
    ≡ err (exit "command failed")
unfolding running
failing = refl

bounded_output-IsReaped_example :
    EndsWith (IsReaped 7) (bounded_output (telling (codes "hi")) at_work 3 echo []).1
bounded_output-IsReaped_example =
    bounded_output-IsReaped (telling (codes "hi")) at_work 3 echo [] child refl

bounded_output_sound_example :
    IsOutput
      (telling (codes "hi"))
      at_work
      echo
      []
      (bounded_output (telling (codes "hi")) at_work 3 echo []).1
      (codes "hi")
bounded_output_sound_example =
    bounded_output_sound (telling (codes "hi")) at_work 3 echo [] (codes "hi") echoes

telling-IsPiped : (text : Text) → IsPiped (telling text) at_work
telling-IsPiped text = record {
  reads = record {
    at_most = λ h fd n chunk e.
        subst (λ c. length c ≤ n) (sym (ok_inj e))
          (take-length n (if fd == 9 then said text h else []));
    honest = λ h fd n e. err-ne-ok _ _ (sym e);
  };
  takes = λ h fd bytes n e. (omega (arith, ok_inj e), λ m. omega (arith, ok_inj e));
  honest_write = λ h fd bytes e. err-ne-ok _ _ (sym e);
  honest_select = λ h time e. err-ne-ok _ _ (sym e);
  honest_close = λ h fd e. err-ne-ok _ _ (sym e);
}

pump-total_example :
    (pump
      (telling (codes "hi"))
      at_work
      6
      2
      (input_of (some (codes "in")))
      child
      5
      (first_pump (some (codes "in")))
      []).0
    ≢ err out_of_rounds
pump-total_example =
    pump-total (telling (codes "hi")) at_work (telling-IsPiped (codes "hi")) 6 2 (some (codes "in"))
      child 5 [] (omega arith)
