-- ===== src/Process/Rounds.antt =====
-- The reading loop of `bounded_output` of runtime/templates/runtime_metadata.py ends.
use clamp.Prelude.{
  Option, none, some, ◌≡◌, ◌≢◌, ◌≤◌, refl, sym, subst, ap, ℕ, zero, suc, ◌+◌, ◌-◌, Bool, true,
  false, ◌==◌, List, [], ◌∷◌, ◌++◌, ltb, leb, leb→le, length, length-append, take, drop, is_empty,
  arith,
}
use mathlib.Core.Bool.{false≢true}
use clamp.Prelude.Results.{Exn, os_error, ok, err, out_of_rounds}
use clamp.Utf8.{Bytes}
use clamp.Os.{Env, History, IsBounded, require, handled, do_read, do_write}
use clamp.Os.Outcome.{filled-length}
use clamp.Os.Ends.{
  Ends, Ends-total, return-Ends, answer-Ends, after-Ends, map-Ends, handled-Ends, if-Ends,
  tested-Ends,
}
use clamp.Process.{
  Processes, Child, Pump, Event, readable, writable, Ready, nothing, only_stdout, only_stdin,
  stdout_first, stdin_first, events_of, epipe, read_output, close_input, write_input, broken_input,
  take_events, pump_round, pump, do_clock, do_select, do_close_pipe,
}
use clamp.Process.Measure.{
  weight, left, IsPumping, IsLater, IsProgress, IsLater-refl, IsProgress-later, given-decreases,
  piece-length,
}
use clamp.Process.Bounded.{input_of, first_pump}

-- What the code relies on: a pipe that is ready takes a byte at least, and no more than it is given;
-- and the model's own error is not the system's.
pub record IsPiped (env : Env) (processes : Processes) : Type 0 where
  pub reads : IsBounded env
  pub takes :
      (h : History) (fd : ℕ) (bytes : Bytes) (n : ℕ)
      → env.write h fd bytes ≡ ok n
      → (n ≤ length bytes) × (1 ≤ length bytes → 1 ≤ n)
  pub honest_write :
      (h : History) (fd : ℕ) (bytes : Bytes) → env.write h fd bytes ≢ err out_of_rounds
  pub honest_select : (h : History) (time : ℕ) → processes.select h time ≢ err out_of_rounds
  pub honest_close : (h : History) (fd : ℕ) → processes.close_pipe h fd ≢ err out_of_rounds

module _ (env : Env) (processes : Processes) (law : IsPiped env processes) where
  close_input-Ends :
      (maximum : ℕ) (data_bytes : Bytes) (child : Child) (p q : Pump) (h : History)
      → q.writing ≡ true
      → IsLater maximum data_bytes p q
      → Ends (IsProgress maximum data_bytes p) (close_input env processes child q h)
  unfolding close_input
  close_input-Ends maximum data_bytes child p q h w s =
      after-Ends _ (do_close_pipe env processes child.stdin h)
        (answer-Ends {P = λ _. Unit {0}} _ _ (law.honest_close h child.stdin) λ _ _. tt)
        λ _ g _. return-Ends _ g (record {
          later = record {
            sound = s.sound;
            fewer = omega (arith, s.fewer, ap weight w);
            still = s.still;
          };
          done = λ e. omega (arith, s.fewer, ap weight w);
        })

  write_input-Ends :
      (maximum : ℕ) (data_bytes : Bytes) (child : Child) (p : Pump) (h : History)
      → p.writing ≡ true
      → IsPumping maximum data_bytes p
      → Ends (IsProgress maximum data_bytes p) (write_input env processes data_bytes child p h)
  unfolding write_input
  write_input-Ends maximum data_bytes child p h w s =
      let piece = take 4096 (drop p.offset data_bytes) in
      let (most, least) = piece-length p.offset data_bytes in
      after-Ends _ (do_write env child.stdin piece h)
        (answer-Ends {P = λ n. (n ≤ length piece) × (1 ≤ length piece → 1 ≤ n)} _ _
          (law.honest_write h child.stdin piece) λ n e. law.takes h child.stdin piece n e)
        λ written g (few, some_bytes).
          if-Ends (p.offset + written == length data_bytes) _ _ g
            (λ _.
              close_input-Ends maximum data_bytes child p (record p { offset = p.offset + written })
                g w
                (record { sound = (s.0, omega (arith, s.1)); fewer = omega arith; still = λ r. r }))
            λ n. return-Ends _ g (record {
              later = record {
                sound = (s.0, omega (arith, s.1));
                fewer = omega arith;
                still = λ r. r;
              };
              done = λ e.
                  given-decreases (length data_bytes) p.offset written (length piece)
                    (maximum - length p.output) (weight p.writing) n s.1 few least most some_bytes;
            })

  read_output-Ends :
      (maximum : ℕ) (data_bytes : Bytes) (child : Child) (p : Pump) (h : History)
      → IsPumping maximum data_bytes p
      → Ends
          (λ (q, _). IsProgress maximum data_bytes p q × (q.writing ≡ p.writing))
          (read_output env processes maximum child p h)
  unfolding read_output
  read_output-Ends maximum data_bytes child p h s =
      after-Ends _ (do_read env child.stdout 4096 h)
        (answer-Ends {P = λ _. Unit {0}} _ _ (law.reads.honest h child.stdout 4096) λ _ _. tt)
        λ chunk g _.
          if-Ends (is_empty chunk) _ _ g
            (λ _. return-Ends _ g (
              record {
                later = record {
                  sound = s;
                  fewer = omega arith;
                  still = λ e. absurd (false≢true e);
                };
                done = λ e. absurd (false≢true e);
              },
              refl,
            ))
            λ filled.
              after-Ends _
                (require (leb (length (p.output ++ chunk)) maximum) "command output too large" g)
                (tested-Ends _ _ g)
                λ _ k small.
                  let more = length-append p.output chunk in
                  let fits = leb→le _ _ small in
                  let some_bytes = filled-length chunk filled in
                  return-Ends _ k (
                    record {
                      later = record {
                        sound = (fits, s.1);
                        fewer = omega (arith, more);
                        still = λ e. e;
                      };
                      done = λ e. omega (arith, more);
                    },
                    refl,
                  )

  broken_input-Ends :
      (maximum : ℕ) (data_bytes : Bytes) (child : Child) (p : Pump) (x : Exn) (h : History)
      → x ≢ out_of_rounds
      → p.writing ≡ true
      → IsPumping maximum data_bytes p
      → Ends (IsProgress maximum data_bytes p) (broken_input env processes child p x h)
  unfolding broken_input
  broken_input-Ends maximum data_bytes child p (os_error n) h ne w s =
      if-Ends (n == epipe) _ _ h
        (λ _.
          close_input-Ends maximum data_bytes child p p h w (IsLater-refl maximum data_bytes p s))
        λ _. record { holds = ne }
  broken_input-Ends maximum data_bytes child p _ h ne w s = record { holds = ne }

  -- The input is ready at most once, and only while its pipe is registered.
  abbrev Fits : List Event → Bool → Type 0
  Fits [] w = Unit {0}
  Fits (readable ∷ es) w = Fits es w
  Fits (writable ∷ es) w = (w ≡ true) × Fits es false

  Fits-any : (es : List Event) (w : Bool) → Fits es false → Fits es w
  Fits-any [] w f = tt
  Fits-any (readable ∷ es) w f = Fits-any es w f
  Fits-any (writable ∷ es) w f = absurd (false≢true f.0)

  events_of-Fits : (ready : Ready) (w : Bool) → Fits (events_of ready w) w
  unfolding events_of
  events_of-Fits nothing w = tt
  events_of-Fits only_stdout w = tt
  events_of-Fits only_stdin true = (refl, tt)
  events_of-Fits only_stdin false = tt
  events_of-Fits stdout_first true = (refl, tt)
  events_of-Fits stdout_first false = tt
  events_of-Fits stdin_first true = (refl, tt)
  events_of-Fits stdin_first false = tt

  take_events-Ends :
      (maximum : ℕ) (data_bytes : Bytes) (child : Child) (es : List Event) (p : Pump) (h : History)
      → Fits es p.writing
      → IsPumping maximum data_bytes p
      → Ends
          (λ q.
            IsLater maximum data_bytes p q
            × (ltb 0 (length es) ≡ true → IsProgress maximum data_bytes p q))
          (take_events env processes maximum data_bytes child es p h)
  unfolding take_events
  take_events-Ends maximum data_bytes child [] p h f s =
      return-Ends p h (IsLater-refl maximum data_bytes p s, λ e. absurd (false≢true e))
  take_events-Ends maximum data_bytes child (readable ∷ es) p h f s =
      after-Ends _ (read_output env processes maximum child p h)
        (read_output-Ends maximum data_bytes child p h s)
        λ (q, ended) g (made, same).
          if-Ends ended _ _ g (λ _. return-Ends q g (made.later, λ _. made))
            λ _.
              map-Ends (take_events env processes maximum data_bytes child es q g)
                (take_events-Ends maximum data_bytes child es q g (subst (Fits es) (sym same) f)
                  made.later.sound)
                λ r (later, _).
                  let whole = IsProgress-later maximum data_bytes p q r made later in
                  (whole.later, λ _. whole)
  take_events-Ends maximum data_bytes child (writable ∷ es) p h (w, f) s =
      after-Ends _
        (handled (broken_input env processes child p)
          (write_input env processes data_bytes child p h))
        (handled-Ends (broken_input env processes child p) _
          (write_input-Ends maximum data_bytes child p h w s)
          λ x g ne. broken_input-Ends maximum data_bytes child p x g ne w s)
        λ q g made.
          map-Ends (take_events env processes maximum data_bytes child es q g)
            (take_events-Ends maximum data_bytes child es q g (Fits-any es q.writing f)
              made.later.sound)
            λ r (later, _).
              let whole = IsProgress-later maximum data_bytes p q r made later in
              (whole.later, λ _. whole)

  pump_round-Ends :
      (maximum : ℕ) (data_bytes : Bytes) (child : Child) (deadline : ℕ) (p : Pump) (h : History)
      → IsPumping maximum data_bytes p
      → Ends
          (IsProgress maximum data_bytes p)
          (pump_round env processes maximum data_bytes child deadline p h)
  unfolding pump_round
  pump_round-Ends maximum data_bytes child deadline p h s =
      after-Ends _ (do_clock env processes h) (record { holds = tt })
        λ now g (_ : Unit {0}).
          after-Ends _ (require (ltb now deadline) "command timeout" g) (tested-Ends _ _ g)
            λ _ g₁ _.
              after-Ends _ (do_select env processes (deadline - now) g₁)
                (answer-Ends {P = λ _. Unit {0}} _ _ (law.honest_select g₁ (deadline - now))
                  λ _ _. tt)
                λ ready g₂ _.
                  after-Ends _
                    (require (ltb 0 (length (events_of ready p.writing))) "command timeout" g₂)
                    (tested-Ends _ _ g₂)
                    λ _ g₃ some_event.
                      map-Ends _
                        (take_events-Ends maximum data_bytes child (events_of ready p.writing) p g₃
                          (events_of-Fits ready p.writing) s)
                        λ q (_, made). made some_event

  pump-Ends :
      (fuel maximum : ℕ) (data_bytes : Bytes) (child : Child) (deadline : ℕ) (p : Pump)
      (h : History)
      → suc (left maximum data_bytes p) ≤ fuel
      → IsPumping maximum data_bytes p
      → Ends (λ _. Unit {0}) (pump env processes fuel maximum data_bytes child deadline p h)
  unfolding pump
  pump-Ends zero maximum data_bytes child deadline p h n s = absurd (omega arith)
  pump-Ends (suc fuel) maximum data_bytes child deadline p h n s =
      after-Ends _ (pump_round env processes maximum data_bytes child deadline p h)
        (pump_round-Ends maximum data_bytes child deadline p h s)
        λ q g made.
          if-Ends q.reading _ _ g
            (λ going.
              pump-Ends fuel maximum data_bytes child deadline q g (omega (arith, made.done going))
                made.later.sound)
            λ _. return-Ends _ g tt

-- For every system whose pipes take a byte where they are ready, and no more than they are given:
-- the reading loop of `bounded_output`, started as it is there, does not run out of rounds when it
-- has one for each byte that it may read, one for each byte of the input, and two more.
pub pump-total :
    (env : Env) (processes : Processes) (law : IsPiped env processes) (fuel maximum : ℕ)
    (given : Option Bytes) (child : Child) (deadline : ℕ) (h : History)
    → maximum + length (input_of given) + 2 ≤ fuel
    → (pump env processes fuel maximum (input_of given) child deadline (first_pump given) h).0
      ≢ err out_of_rounds
pump-total env processes law fuel maximum none child deadline h n = Ends-total _ (
    pump-Ends env processes law fuel maximum [] child deadline (first_pump none) h (omega arith)
      (omega arith, omega arith))
pump-total env processes law fuel maximum (some data_bytes) child deadline h n = Ends-total _ (
    pump-Ends env processes law fuel maximum data_bytes child deadline
      (first_pump (some data_bytes)) h (omega arith) (omega arith, omega arith))
