-- ===== src/Process/Output.antt =====
-- What `bounded_output` of runtime/templates/runtime_metadata.py returns: the bytes that it read, no
-- more of them than allowed, of a command that succeeded.
use clamp.Prelude.{
  ◌≡◌, ◌≤◌, refl, ap, ◌∙◌, ℕ, ◌+◌, ◌-◌, true, false, Bool, Option, none, some, length, ◌++◌, ◌∷◌,
  [],
}
use clamp.Prelude.Results.{Exn, unicode_decode_error, subprocess_error, Result, ok, err}
use clamp.Text.{Text}
use clamp.Utf8.{Bytes, decode}
use clamp.Os.{Env, M, History, require, spawned, waited_until}
use clamp.Os.Emits.{Grows, Grows-trans, same, more, one-Emits, Emits}
use clamp.Os.Heard.{heard, IsSilent, Follows, silent-heard, silent-Follows}
use clamp.Os.Yields.{
  any-Yields, Yields, Yields-ok, answer-Yields, after-Yields, map-Yields, handled-Yields,
  finally-Yields, require-Yields, Emits-Yields,
}
use clamp.Process.{note_popen, Processes, Command, Child, pump, do_popen, do_clock, do_wait_until}
use clamp.Process.Within.{IsWithin, none-read, still, still-Yields, pump-Yields}
use clamp.Process.Silent.{end_group-IsSilent, set_up-IsSilent, clean_up-IsSilent}
use clamp.Process.Bounded.{
  input_of, first_pump, output_error, decoded, end_group, first_stage, last_stage, behind_stage,
  clean_up, bounded_output, last_wait, set_up,
}

module _ (env : Env) (processes : Processes) where
  -- The history with which a command's process begins.
  abbrev begun : Command → Child → History → History
  begun command child h = spawned command.arguments child.pid ∷ h

  -- A wait for the process, after it was started and before the history, with its answer.
  abbrev Waited : Command → Child → History → Bool → History → Type 0
  Waited command child h b k =
      (g : History) × (time : ℕ) × (processes.wait g child.pid (some time) ≡ ok b)
      × Follows (begun command child h) g
      × Follows (waited_until child.pid time ∷ g) k

  -- Between two histories of a run: the command was started, and its text is the decoding of all
  -- that was read of its output, within its bound; and after the start its status was seen to be 0.
  pub record IsOutput (command : Command) (h k : History) (text : Text) : Type 0 where
    pub child : Child
    pub started : processes.popen h command ≡ ok child
    pub follows : Follows (begun command child h) k
    pub raw : Bytes
    pub collected : heard env child.stdout k ≡ heard env child.stdout h ++ raw
    pub decodes : decode raw ≡ some text
    pub bounded : length raw ≤ command.maximum
    pub succeeded : Waited command child h true k

  -- Calls that read nothing leave it so.
  later :
      (command : Command) (h : History) (text : Text) {k k' : History}
      → Grows IsSilent k k'
      → IsOutput command h k text
      → IsOutput command h k' text
  later command h text r found =
      let (g, time, seen, before, behind) = found.succeeded in
      record {
        child = found.child;
        started = found.started;
        follows = Grows-trans found.follows (silent-Follows r);
        raw = found.raw;
        collected = silent-heard env found.child.stdout r ∙ found.collected;
        decodes = found.decodes;
        bounded = found.bounded;
        succeeded = (g, time, seen, before, Grows-trans behind (silent-Follows r));
      }

  decoded-Yields {κ} :
      {P : History → Text → Type κ} (given : Option Text) (h : History)
      → ((text : Text) → given ≡ some text → P h text)
      → Yields P (decoded given h)
  unfolding decoded
  decoded-Yields none h k = record { holds = tt }
  decoded-Yields (some text) h k = record { holds = k text refl }

  output_error-Yields {κ} :
      {P : History → Text → Type κ} (e : Exn) (h : History) → Yields P (output_error e h)
  unfolding output_error
  output_error-Yields unicode_decode_error h = record { holds = tt }
  output_error-Yields subprocess_error h = record { holds = tt }
  output_error-Yields _ h = record { holds = tt }

  module _ (command : Command) (child : Child) (start : History) where
    abbrev Collected : Bytes → History → Type 0
    Collected output h =
        IsWithin env processes command.maximum child.stdout (begun command child start) output h

    quiet :
        {A : Type 0} (output : Bytes) (m : M A) (h : History)
        → Emits IsSilent m
        → Collected output h
        → Yields (λ g _. Collected output g) (m h)
    quiet output m h =
        still-Yields env processes command.maximum child.stdout (begun command child start) output m
          h

    nothing-Collected :
        (given : Option Bytes) (h : History)
        → Collected [] h
        → Collected (first_pump given).output h
    nothing-Collected none h w = w
    nothing-Collected (some _) h w = w

    first_stage-Yields :
        (fuel deadline : ℕ) (h : History)
        → Collected [] h
        → Yields
            (λ g output. Collected output g)
            (first_stage env processes fuel command child deadline h)
    unfolding first_stage
    first_stage-Yields fuel deadline h w =
        after-Yields _
          (pump env processes fuel command.maximum (input_of command.input_data) child deadline
            (first_pump command.input_data) h)
          (pump-Yields env processes command.maximum child (begun command child start) fuel
            (input_of command.input_data) deadline (first_pump command.input_data) h
            (nothing-Collected command.input_data h w))
          λ output g w₁.
            after-Yields _ (end_group env processes command.new_session fuel child.pid deadline g)
              (quiet output _ g
                (end_group-IsSilent env processes command.new_session fuel child.pid deadline) w₁)
              λ _ k w₂. record { holds = w₂ }

    last_stage-Yields :
        (deadline : ℕ) (output : Bytes) (h : History)
        → processes.popen start command ≡ ok child
        → Collected output h
        → Yields (IsOutput command start) (last_stage env processes child deadline output h)
    unfolding last_stage
    last_stage-Yields deadline output h is w =
        after-Yields _ (do_clock env processes h)
          (quiet output (do_clock env processes) h (one-Emits _ _ tt) w)
          λ now g w₁.
            let time = last_wait (deadline - now) in
            after-Yields _ (do_wait_until env processes child.pid time g)
              (answer-Yields {P = λ k b. Collected output k × Waited command child start b k} _
                (waited_until child.pid time ∷ g)
                λ b seen. (
                  still env processes command.maximum child.stdout (begun command child start)
                      output (more tt same) w₁,
                  (g, time, seen, w₁.follows, same),
                ))
              λ b g₁ (w₂, (k, time', seen, before, behind)).
                after-Yields _ (require b "command failed" g₁)
                  (require-Yields
                    {P = λ k₁ _. Waited command child start true k₁ × Collected output k₁} b _ g₁
                    λ yes. ((k, time', seen ∙ ap ok yes, before, behind), w₂))
                  λ _ g₂ (good, w₃). decoded-Yields (decode output) g₂ λ text reads. record {
                    child = child;
                    started = is;
                    follows = w₃.follows;
                    raw = output;
                    collected = w₃.collected;
                    decodes = reads;
                    bounded = w₃.bounded;
                    succeeded = good;
                  }

    cleaned-Yields :
        (b : Bool) (text : Text) (g : History)
        → IsOutput command start g text
        → Yields (λ k _. IsOutput command start k text) (clean_up env processes b child.pid g)
    cleaned-Yields b text g found =
        map-Yields _ (Emits-Yields _ g (clean_up-IsSilent env processes b child.pid) (any-Yields _))
          λ _ k (grows, _). later command start text grows found

    behind_stage-Yields :
        (deadline : ℕ) (r : Result Bytes × History)
        → processes.popen start command ≡ ok child
        → Yields (λ g output. Collected output g) r
        → Yields (IsOutput command start) (behind_stage env processes command child deadline r)
    unfolding behind_stage
    behind_stage-Yields deadline (err e, h) is y =
        finally-Yields (clean_up env processes command.new_session child.pid) _
          (output_error-Yields {P = IsOutput command start} e h)
          (cleaned-Yields command.new_session)
    behind_stage-Yields deadline (ok output, h) is y =
        finally-Yields (clean_up env processes false child.pid) _
          (handled-Yields {P = IsOutput command start} output_error _
            (last_stage-Yields deadline output h is y.holds) output_error-Yields)
          (cleaned-Yields false)

  -- For every system: when `bounded_output` returns a text, it has started the command, the text is
  -- the decoding of all that it has read of the process's output, in order, which is at most
  -- `maximum` bytes, and after the start it has seen the process's status to be 0.
  pub bounded_output_sound :
      (fuel : ℕ) (command : Command) (h : History) (text : Text)
      → (bounded_output env processes fuel command h).0 ≡ ok text
      → IsOutput command h (bounded_output env processes fuel command h).1 text
  unfolding bounded_output
  bounded_output_sound fuel command h text =
      Yields-ok {P = IsOutput command h} (bounded_output env processes fuel command h) (
        after-Yields _ (do_popen env processes command h)
          (popen-Yields (processes.popen h command) refl)
          λ child g (is, starts).
            after-Yields _ (set_up env processes command.input_data child g)
              (quiet command child h [] _ g (set_up-IsSilent env processes command.input_data child)
                starts)
              λ _ g₁ w.
                after-Yields _ (do_clock env processes g₁)
                  (quiet command child h [] (do_clock env processes) g₁ (one-Emits _ _ tt) w)
                  λ now k w₁.
                    behind_stage-Yields command child h (now + command.timeout)
                      (first_stage env processes fuel command child (now + command.timeout) k) is
                      (first_stage-Yields command child h fuel (now + command.timeout) k w₁))
    where
      popen-Yields :
          (r : Result Child)
          → processes.popen h command ≡ r
          → Yields
              (λ g child. (processes.popen h command ≡ ok child) × Collected command child h [] g)
              (note_popen command h r)
      popen-Yields (ok child) is = record {
        holds = (is, none-read env processes command.maximum child.stdout (begun command child h));
      }
      popen-Yields (err e) is = record { holds = tt }
