-- ===== src/Process/Reaped.antt =====
-- `bounded_output` of runtime/templates/runtime_metadata.py leaves no process behind.
use clamp.Prelude.{
  Option, some, ◌≡◌, refl, sym, subst, ℕ, Bool, true, false, ◌==◌, inl, inr, Bool-cases, ◌∷◌,
  if◌then◌else◌, none,
}
use clamp.Prelude.Results.{Exn, os_error, Result, ok, err}
use clamp.Utf8.{Bytes}
use clamp.Os.{
  selector_set, selector_failed, selector_closed, selector_stuck, return, ◌>>=◌, Env, M, Call,
  History, polled, waited, kill_failed, killed_group, killed, after, ending, handled,
}
use clamp.Os.Outcome.{EndsWith, settled-history}
use clamp.Process.{
  do_close_selector, do_make_selector, do_register, note_either, Processes, Command, Child, esrch,
  note_kill, do_kill, do_wait,
}
use clamp.Process.Bounded.{set_up, already_gone, kill_group, clean_up, behind_stage, bounded_output}

-- The process was seen to have ended or was waited for, or the system refused to kill it; or the
-- selector could not be set up, or not be closed, and nothing more is done.
abbrev pub IsReaped : ℕ → Call → Type 0
IsReaped pid selector_failed = Unit {0}
IsReaped pid selector_stuck = Unit {0}
IsReaped pid (polled k running) = (k ≡ pid) × (running ≡ false)
IsReaped pid (waited k) = k ≡ pid
IsReaped pid (kill_failed k) = k ≡ pid
IsReaped pid _ = ⊥

-- A condition on the last call of a computation that failed.
abbrev OnError {ℓ} : {A : Type ℓ} → (Call → Type 0) → Result A × History → Type 0
OnError P (ok _, h) = Unit {0}
OnError P (err _, h) = EndsWith P h

after-EndsWith {ℓ κ} :
    {A : Type ℓ} {B : Type κ} (P : Call → Type 0) (f : A → M B) (r : Result A × History)
    → OnError P r
    → ((a : A) (g : History) → EndsWith P (f a g).1)
    → EndsWith P (after f r).1
after-EndsWith P f (ok a, g) o k = k a g
after-EndsWith P f (err x, g) o k = o

after-OnError {ℓ κ} :
    {A : Type ℓ} {B : Type κ} (P : Call → Type 0) (f : A → M B) (r : Result A × History)
    → OnError P r
    → ((a : A) (g : History) → OnError P (f a g))
    → OnError P (after f r)
after-OnError P f (ok a, g) o k = k a g
after-OnError P f (err x, g) o k = o

ending-EndsWith {ℓ} :
    {A : Type ℓ} (P : Call → Type 0) (last : M (Unit {0})) (r : Result A × History)
    → ((g : History) → EndsWith P (last g).1)
    → EndsWith P (ending last r).1
ending-EndsWith P last (r, g) k = subst (EndsWith P) (sym (settled-history r (last g))) (k g)

module _ (env : Env) (processes : Processes) (pid : ℕ) where
  already_gone-OnError :
      (e : Exn) (g : History)
      → EndsWith (IsReaped pid) g
      → OnError (IsReaped pid) (already_gone env processes e g)
  unfolding already_gone
  already_gone-OnError (os_error n) g w = elim (Bool-cases (n == esrch)) [
    | inl y ↦ rw y tt
    | inr f ↦ rw f w
  ]
  already_gone-OnError _ g w = w

  kill_group-OnError : (h : History) → OnError (IsReaped pid) (kill_group env processes pid h)
  unfolding kill_group
  kill_group-OnError h = noted (processes.killpg h pid)
    where
      noted :
          (r : Result (Unit {0}))
          → OnError
              (IsReaped pid)
              (handled (already_gone env processes) (note_kill (killed_group pid) pid h r))
      noted (ok _) = tt
      noted (err e) = already_gone-OnError e (kill_failed pid ∷ h) refl

  do_kill-OnError : (h : History) → OnError (IsReaped pid) (do_kill env processes pid h)
  do_kill-OnError h = noted (processes.kill h pid)
    where
      noted : (r : Result (Unit {0})) → OnError (IsReaped pid) (note_kill (killed pid) pid h r)
      noted (ok _) = tt
      noted (err e) = refl

  polled-OnError :
      (b : Bool) (h : History)
      → OnError (IsReaped pid) ((if b then do_kill env processes pid else return tt) h)
  polled-OnError true h = do_kill-OnError h
  polled-OnError false h = tt

  reap-EndsWith :
      (b : Bool) (h : History)
      → EndsWith
          (IsReaped pid)
          ((if b then (do_wait env processes pid >>= λ _. return (tt {0})) else return (tt {0}))
            (polled pid b ∷ h)).1
  reap-EndsWith true h = noted (processes.wait (polled pid true ∷ h) pid none)
    where
      noted :
          (r : Result Bool)
          → EndsWith
              (IsReaped pid)
              (after (λ _. return (tt {0})) (r, waited pid ∷ polled pid true ∷ h)).1
      noted (ok _) = refl
      noted (err _) = refl
  reap-EndsWith false h = (refl, refl)

  either-OnError :
      (c d : Call) (h : History) (r : Result (Unit {0}))
      → IsReaped pid d
      → OnError (IsReaped pid) (note_either c d h r)
  either-OnError c d h (ok _) p = tt
  either-OnError c d h (err _) p = p

  clean_up-EndsWith :
      (signal_group : Bool) (h : History)
      → EndsWith (IsReaped pid) (clean_up env processes signal_group pid h).1
  unfolding clean_up
  clean_up-EndsWith true k =
      after-EndsWith (IsReaped pid) _ (do_close_selector env processes k)
        (either-OnError selector_closed selector_stuck k (processes.close_selector k) tt)
        λ _ h.
          after-EndsWith (IsReaped pid) _ (kill_group env processes pid h) (kill_group-OnError h)
            λ _ g. reap-EndsWith (processes.is_running g pid) g
  clean_up-EndsWith false k =
      after-EndsWith (IsReaped pid) _ (do_close_selector env processes k)
        (either-OnError selector_closed selector_stuck k (processes.close_selector k) tt)
        λ _ h.
          after-EndsWith (IsReaped pid) _
            ((if processes.is_running h pid then do_kill env processes pid else return tt)
              (polled pid (processes.is_running h pid) ∷ h))
            (polled-OnError (processes.is_running h pid)
              (polled pid (processes.is_running h pid) ∷ h))
            λ _ g. reap-EndsWith (processes.is_running g pid) g

  register-OnError :
      (fd : ℕ) (h : History) → OnError (IsReaped pid) (do_register env processes fd h)
  register-OnError fd h = either-OnError selector_set selector_failed h (processes.register h fd) tt

  -- What follows the start of the process, if it ends as it should.
  set_up-EndsWith {ℓ} :
      {A : Type ℓ} (given : Option Bytes) (child : Child) (f : M A) (h : History)
      → ((g : History) → EndsWith (IsReaped pid) (f g).1)
      → EndsWith (IsReaped pid) (after (λ _. f) (set_up env processes given child h)).1
  unfolding set_up
  set_up-EndsWith {A = A} none child f h k =
      after-EndsWith (IsReaped pid) (λ _. f) (set_up env processes none child h)
        (after-OnError (IsReaped pid) _ (do_make_selector env processes h)
          (either-OnError selector_set selector_failed h (processes.make_selector h) tt)
          λ _ g. register-OnError child.stdout g)
        λ _ g. k g
  set_up-EndsWith (some d) child f h k =
      after-EndsWith (IsReaped pid) (λ _. f) (set_up env processes (some d) child h)
        (after-OnError (IsReaped pid) _ (do_make_selector env processes h)
          (either-OnError selector_set selector_failed h (processes.make_selector h) tt)
          λ _ g.
            after-OnError (IsReaped pid) _ (do_register env processes child.stdout g)
              (register-OnError child.stdout g) λ _ j. register-OnError child.stdin j)
        λ _ g. k g

  behind_stage-EndsWith :
      (command : Command) (deadline stdin stdout : ℕ) (r : Result Bytes × History)
      → EndsWith
          (IsReaped pid)
          (behind_stage env processes command
            (record { pid = pid; stdin = stdin; stdout = stdout })
            deadline
            r).1
  unfolding behind_stage
  behind_stage-EndsWith command deadline stdin stdout (err e, h) =
      ending-EndsWith (IsReaped pid) (clean_up env processes command.new_session pid) _
        (clean_up-EndsWith command.new_session)
  behind_stage-EndsWith command deadline stdin stdout (ok output, h) =
      ending-EndsWith (IsReaped pid) (clean_up env processes false pid) _ (clean_up-EndsWith false)

-- For every system: once `bounded_output` has started a process, then whatever its outcome, the last
-- call is one that saw the process ended, or one that waited for it without end, or the system
-- refused to kill it, or to set up the selector or to close it. Where the selector cannot be set
-- up, the process that was started is left.
pub bounded_output-IsReaped :
    (env : Env) (processes : Processes) (fuel : ℕ) (command : Command) (h : History) (child : Child)
    → processes.popen h command ≡ ok child
    → EndsWith (IsReaped child.pid) (bounded_output env processes fuel command h).1
unfolding bounded_output
bounded_output-IsReaped env processes fuel command h child e = rw e (
    set_up-EndsWith env processes child.pid command.input_data child _ _
      λ g. behind_stage-EndsWith env processes child.pid command _ child.stdin child.stdout _)
