-- ===== src/Process/Within.antt =====
-- The reading loop of `bounded_output` of runtime/templates/runtime_metadata.py collects what it reads
-- of the output, in order, and keeps its bound.
use clamp.Prelude.{
  ◌≤◌, ◌≡◌, refl, sym, ◌∙◌, ap, ℕ, zero, suc, ◌+◌, ◌-◌, ◌==◌, true, List, [], ◌∷◌, ◌++◌, ltb, leb,
  leb→le, length, take, drop, is_empty, append-nil, append_assoc, arith, ==_iff,
}
use clamp.Prelude.Results.{Exn, os_error, ok}
use clamp.Utf8.{Bytes}
use clamp.Os.{Env, M, History, require, handle, read, do_read, do_write}
use clamp.Os.Emits.{Emits, Grows, more, same, Grows-trans, one-Emits}
use clamp.Os.Heard.{answered, heard, IsSilent, Follows, silent-heard, silent-Follows}
use clamp.Os.Yields.{
  any-Yields, Yields, answer-Yields, after-Yields, if-Yields, handled-Yields, require-Yields,
  map-Yields, Emits-Yields,
}
use clamp.Process.{
  Processes, Child, Pump, Event, readable, writable, events_of, epipe, read_output, close_input,
  write_input, broken_input, take_events, pump_round, pump, do_clock, do_select, do_close_pipe,
}
use clamp.Process.Silent.{writing-IsSilent}

module _ (env : Env) (processes : Processes) where
  -- The output is what was read of the pipe since a history, and no more of it than allowed.
  pub record IsWithin (maximum fd : ℕ) (start : History) (output : Bytes) (h : History)
      : Type 0 where
    pub bounded : length output ≤ maximum
    pub collected : heard env fd h ≡ heard env fd start ++ output
    pub follows : Follows start h

  pub none-read : (maximum fd : ℕ) (h : History) → IsWithin maximum fd h [] h
  none-read maximum fd h = record {
    bounded = omega arith;
    collected = sym (append-nil _);
    follows = same;
  }

  -- Calls that read nothing change nothing of it.
  pub still :
      (maximum fd : ℕ) (start : History) (output : Bytes) {h g : History}
      → Grows IsSilent h g
      → IsWithin maximum fd start output h
      → IsWithin maximum fd start output g
  still maximum fd start output r w = record {
    bounded = w.bounded;
    collected = silent-heard env fd r ∙ w.collected;
    follows = Grows-trans w.follows (silent-Follows r);
  }

  pub still-Yields {ℓ} :
      {A : Type ℓ} (maximum fd : ℕ) (start : History) (output : Bytes) (m : M A) (h : History)
      → Emits IsSilent m
      → IsWithin maximum fd start output h
      → Yields (λ g _. IsWithin maximum fd start output g) (m h)
  still-Yields maximum fd start output m h e w =
      map-Yields _ (Emits-Yields m h e (any-Yields (m h)))
        λ _ g (grows, _). still maximum fd start output grows w

  heard-read :
      (fd n : ℕ) (h : History) (chunk : Bytes)
      → env.read h fd n ≡ ok chunk
      → heard env fd (read fd n ∷ h) ≡ heard env fd h ++ chunk
  heard-read fd n h chunk e = rw ((==_iff fd fd).1 refl) (ap (λ r. heard env fd h ++ answered r) e)

  empty-chunk : (chunk : Bytes) → is_empty chunk ≡ true → chunk ≡ []
  empty-chunk [] e = refl
  empty-chunk (b ∷ chunk) e = cc

  module _ (maximum : ℕ) (child : Child) (start : History) where
    abbrev Collects : History → Pump → Type 0
    Collects g q = IsWithin maximum child.stdout start q.output g

    read_output-Yields :
        (p : Pump) (h : History)
        → Collects h p
        → Yields (λ g q. Collects g q.0) (read_output env processes maximum child p h)
    unfolding read_output
    read_output-Yields p h w =
        after-Yields _ (do_read env child.stdout 4096 h)
          (answer-Yields
            {P = λ g chunk.
              Follows start g
              × (heard env child.stdout g ≡ heard env child.stdout start ++ (p.output ++ chunk))}
            _ (read child.stdout 4096 ∷ h)
            λ chunk is. (
              more tt w.follows,
              heard-read child.stdout 4096 h chunk is
                  ∙ ap (λ b. b ++ chunk) w.collected
                  ∙ append_assoc _ p.output chunk,
            ))
          λ chunk g (follows, all).
            if-Yields (is_empty chunk) _ _ g
              (λ none_left. record {
                holds = record {
                  bounded = w.bounded;
                  collected =
                      all
                      ∙ ap (λ b. heard env child.stdout start ++ (p.output ++ b))
                          (empty-chunk chunk none_left)
                      ∙ ap (λ b. heard env child.stdout start ++ b) (append-nil p.output);
                  follows = follows;
                };
              })
              λ _.
                after-Yields _
                  (require (leb (length (p.output ++ chunk)) maximum) "command output too large" g)
                  (require-Yields
                    {P = λ k _. IsWithin maximum child.stdout start (p.output ++ chunk) k} _ _ g
                    λ small. record {
                      bounded = leb→le _ _ small;
                      collected = all;
                      follows = follows;
                    })
                  λ _ k fits. record { holds = fits }

    -- The part for the input leaves the output.
    close_input-Yields :
        (p : Pump) (h : History)
        → Yields (λ _ q. q.output ≡ p.output) (close_input env processes child p h)
    unfolding close_input
    close_input-Yields p h =
        after-Yields _ (do_close_pipe env processes child.stdin h) (any-Yields _)
          λ _ g _. record { holds = refl }

    write_input-Yields :
        (data_bytes : Bytes) (p : Pump) (h : History)
        → Yields (λ _ q. q.output ≡ p.output) (write_input env processes data_bytes child p h)
    unfolding write_input
    write_input-Yields data_bytes p h =
        after-Yields _ (do_write env child.stdin (take 4096 (drop p.offset data_bytes)) h)
          (any-Yields _)
          λ written g _.
            if-Yields (p.offset + written == length data_bytes) _ _ g
              (λ _. close_input-Yields (record p { offset = p.offset + written }) g)
              λ _. record { holds = refl }

    broken_input-Yields :
        (p : Pump) (e : Exn) (h : History)
        → Yields (λ _ q. q.output ≡ p.output) (broken_input env processes child p e h)
    unfolding broken_input
    broken_input-Yields p (os_error n) h =
        if-Yields (n == epipe) _ _ h (λ _. close_input-Yields p h) λ _. record { holds = tt }
    broken_input-Yields p _ h = record { holds = tt }

    writing-Yields :
        (data_bytes : Bytes) (p : Pump) (h : History)
        → Collects h p
        → Yields Collects (
            handle
              (write_input env processes data_bytes child p)
              (broken_input env processes child p)
              h)
    writing-Yields data_bytes p h w =
        map-Yields _
          (Emits-Yields _ h (writing-IsSilent env processes data_bytes child p) (
            handled-Yields {P = λ _ q. q.output ≡ p.output} (broken_input env processes child p) _
              (write_input-Yields data_bytes p h) (broken_input-Yields p)))
          λ q g (grows, e).
            let kept = still maximum child.stdout start p.output grows w in
            record {
              bounded = rw e kept.bounded;
              collected = rw e kept.collected;
              follows = kept.follows;
            }

    take_events-Yields :
        (data_bytes : Bytes) (es : List Event) (p : Pump) (h : History)
        → Collects h p
        → Yields Collects (take_events env processes maximum data_bytes child es p h)
    unfolding take_events
    take_events-Yields data_bytes [] p h w = record { holds = w }
    take_events-Yields data_bytes (readable ∷ es) p h w =
        after-Yields _ (read_output env processes maximum child p h) (read_output-Yields p h w)
          λ (q, ended) g w'.
            if-Yields ended _ _ g (λ _. record { holds = w' })
              λ _. take_events-Yields data_bytes es q g w'
    take_events-Yields data_bytes (writable ∷ es) p h w =
        after-Yields _
          (handle (write_input env processes data_bytes child p)
            (broken_input env processes child p) h)
          (writing-Yields data_bytes p h w) λ q g w'. take_events-Yields data_bytes es q g w'

    pump_round-Yields :
        (data_bytes : Bytes) (deadline : ℕ) (p : Pump) (h : History)
        → Collects h p
        → Yields Collects (pump_round env processes maximum data_bytes child deadline p h)
    unfolding pump_round
    pump_round-Yields data_bytes deadline p h w =
        let keep : (g : History) → Type 0 = λ g. Collects g p in
        after-Yields _ (do_clock env processes h)
          (still-Yields maximum child.stdout start p.output (do_clock env processes) h
            (one-Emits _ _ tt) w)
          λ now g w₀.
            after-Yields _ (require (ltb now deadline) "command timeout" g)
              (require-Yields {P = λ k _. keep k} _ _ g λ _. w₀)
              λ _ g₁ w₁.
                after-Yields _ (do_select env processes (deadline - now) g₁)
                  (still-Yields maximum child.stdout start p.output
                    (do_select env processes (deadline - now)) g₁ (one-Emits _ _ tt) w₁)
                  λ ready g₂ w₂.
                    after-Yields _
                      (require (ltb 0 (length (events_of ready p.writing))) "command timeout" g₂)
                      (require-Yields {P = λ k _. keep k} _ _ g₂ λ _. w₂)
                      λ _ g₃ w₃. take_events-Yields data_bytes (events_of ready p.writing) p g₃ w₃

    pub pump-Yields :
        (fuel : ℕ) (data_bytes : Bytes) (deadline : ℕ) (p : Pump) (h : History)
        → Collects h p
        → Yields
            (λ g output. IsWithin maximum child.stdout start output g)
            (pump env processes fuel maximum data_bytes child deadline p h)
    unfolding pump
    pump-Yields zero data_bytes deadline p h w = record { holds = tt }
    pump-Yields (suc fuel) data_bytes deadline p h w =
        after-Yields _ (pump_round env processes maximum data_bytes child deadline p h)
          (pump_round-Yields data_bytes deadline p h w)
          λ q g w'.
            if-Yields q.reading _ _ g (λ _. pump-Yields fuel data_bytes deadline q g w')
              λ _. record { holds = w' }
