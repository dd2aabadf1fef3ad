-- ===== src/Process/Waits.antt =====
-- The loop of `bounded_output` of runtime/templates/runtime_metadata.py that waits for the process
-- ends by the deadline.
use clamp.Prelude.{
  Bool-cases, inl, inr, ap, ◌≡◌, ◌≢◌, ◌≤◌, refl, ℕ, zero, suc, ◌-◌, Bool, true, false, ◌∷◌, leb,
  leb→le, if◌then◌else◌, arith,
}
use clamp.Prelude.Results.{Result, ok, err, out_of_rounds}
use clamp.Os.{◌>>=◌, M, Env, Call, History, after, return, fail, probed, clock, slept, ◌>>◌}
use clamp.Os.Ends.{Ends, Ends-total, return-Ends, if-Ends}
use clamp.Process.{Processes, do_clock}
use clamp.Process.Bounded.{await_exit, sleep_shortly, short_sleep}

-- What the code relies on: the clock never goes back, a sleep lets it go on, and the model's own error
-- is not the system's.
pub record IsClocked (processes : Processes) : Type 0 where
  pub onwards : (h : History) (c : Call) → processes.monotonic h ≤ processes.monotonic (c ∷ h)
  pub passes :
      (h : History) (time : ℕ)
      → processes.sleep h time ≡ ok tt
      → 1 ≤ time
      → suc (processes.monotonic h) ≤ processes.monotonic (slept ∷ h)
  pub honest_sleep : (h : History) (time : ℕ) → processes.sleep h time ≢ err out_of_rounds
  pub honest_exited : (h : History) (pid : ℕ) → processes.exited h pid ≢ err out_of_rounds

short_sleep-positive : (time : ℕ) → 1 ≤ time → 1 ≤ short_sleep time
short_sleep-positive time n = ground arith

time-decreases :
    (deadline m m₁ m₂ m₃ : ℕ)
    → suc m ≤ deadline
    → m ≤ m₁
    → m₁ ≤ m₂
    → m₂ ≤ m₃
    → m₁ ≤ deadline
    → (1 ≤ deadline - m₁ → suc m₂ ≤ m₃)
    → suc (deadline - m₃) ≤ deadline - m
time-decreases deadline m m₁ m₂ m₃ n a b c e k = elim (Bool-cases (leb (suc m₁) deadline)) [
  | inl y ↦ let later = k (ground arith) in omega arith
  | inr f ↦ ground arith
]

module _ (env : Env) (processes : Processes) (law : IsClocked processes) where
  -- A sleep behind which the rest ends, if less time is left then.
  sleep-Ends :
      (deadline : ℕ) (rest : M (Unit {0})) (h : History)
      → suc (processes.monotonic h) ≤ deadline
      → ((g : History)
          → suc (deadline - processes.monotonic g) ≤ deadline - processes.monotonic h
          → Ends (λ _. Unit {0}) (rest g))
      → Ends (λ _. Unit {0}) ((sleep_shortly env processes deadline >> rest) (clock ∷ h))
  unfolding sleep_shortly
  sleep-Ends deadline rest h n k =
      elim (Bool-cases (leb (processes.monotonic (clock ∷ h)) deadline)) [
        | inl y ↦ rw y (
            slept_step (processes.sleep (clock ∷ clock ∷ h) time) refl
              (law.honest_sleep (clock ∷ clock ∷ h) time) (leb→le _ _ y))
        | inr f ↦ rw f (record { holds = λ e. cc })
      ]
    where
      time : ℕ
      time = short_sleep (deadline - processes.monotonic (clock ∷ h))

      slept_step :
          (r : Result (Unit {0}))
          → processes.sleep (clock ∷ clock ∷ h) time ≡ r
          → r ≢ err out_of_rounds
          → processes.monotonic (clock ∷ h) ≤ deadline
          → Ends (λ _. Unit {0}) (after (λ _. rest) (r, slept ∷ clock ∷ clock ∷ h))
      slept_step (err x) is ne early = record { holds = λ e. ne (ap err e) }
      slept_step (ok _) is ne early = k (slept ∷ clock ∷ clock ∷ h) (
          time-decreases deadline (processes.monotonic h) (processes.monotonic (clock ∷ h))
            (processes.monotonic (clock ∷ clock ∷ h))
            (processes.monotonic (slept ∷ clock ∷ clock ∷ h)) n (law.onwards h clock)
            (law.onwards (clock ∷ h) clock) (law.onwards (clock ∷ clock ∷ h) slept) early
            λ some_time. law.passes (clock ∷ clock ∷ h) time is (short_sleep-positive _ some_time))

  await_exit-Ends :
      (fuel pid deadline : ℕ) (h : History)
      → suc (deadline - processes.monotonic h) ≤ fuel
      → Ends (λ _. Unit {0}) (await_exit env processes fuel pid deadline h)
  unfolding await_exit
  await_exit-Ends zero pid deadline h n = absurd (omega arith)
  await_exit-Ends (suc fuel) pid deadline h n =
      exited_step (await_exit-Ends fuel pid deadline) (processes.exited h pid)
        (law.honest_exited h pid)
    where
      rest : M (Unit {0})
      rest = await_exit env processes fuel pid deadline

      exited_step :
          ((g : History)
            → suc (deadline - processes.monotonic g) ≤ fuel
            → Ends (λ _. Unit {0}) (rest g))
          → (r : Result Bool) → r ≢ err out_of_rounds
          → Ends
              (λ _. Unit {0})
              (after
                (λ ended.
                  if ended
                  then return tt
                  else (do_clock env processes >>= λ now.
                      if leb deadline now
                      then fail "command timeout"
                      else (sleep_shortly env processes deadline >> rest)))
                (r, probed pid ∷ h))
      exited_step again (err x) ne = record { holds = λ e. ne (ap err e) }
      exited_step again (ok true) ne = return-Ends tt _ tt
      exited_step again (ok false) ne =
          if-Ends (leb deadline (processes.monotonic (probed pid ∷ h))) (fail "command timeout") _ _
            (λ _. record { holds = λ e. cc })
            λ early.
              sleep-Ends deadline rest (probed pid ∷ h) (ground arith)
                λ g less. again g (omega (arith, law.onwards h (probed pid)))

  -- Where the clock does not stand still in a sleep, a round for each nanosecond up to the deadline
  -- and one more are enough: the loop does not run out of them.
  pub await_exit-total :
      (fuel pid deadline : ℕ) (h : History)
      → suc (deadline - processes.monotonic h) ≤ fuel
      → (await_exit env processes fuel pid deadline h).0 ≢ err out_of_rounds
  await_exit-total fuel pid deadline h n = Ends-total _ (await_exit-Ends fuel pid deadline h n)
