-- ===== src/Enroll/Written.antt =====
-- The temporary file of `enroll_amp` of runtime/templates/runtime_metadata.py: how it is written, and
-- that it does not stay.
use clamp.Prelude.{
  ℕ, zero, suc, ◌≡◌, ◌≢◌, ◌≤◌, ◌⊎◌, inl, inr, refl, sym, subst, false, ◌==◌, Option, [], ◌∷◌, drop,
  length, arith, Bool-cases,
}
use clamp.Prelude.Results.{Result, ok, err, out_of_rounds}
use clamp.Text.{Text}
use clamp.Utf8.{Bytes}
use clamp.Os.{Env, Stat, History, unlink, did, failed, lexists, note_act, do_write, handle}
use clamp.Os.Outcome.{after-total, settled-history}
use clamp.Enroll.{write_all, remove_temporary, save, write_and_commit, os_failure, Local}

module _ (env : Env) where
  drop_less : (n b : ℕ) (bytes : Bytes) → n ≢ 0 → length (drop n (b ∷ bytes)) ≤ length bytes
  drop_less zero b bytes n = absurd (n refl)
  drop_less (suc n) b bytes _ = shorter n bytes
    where
      shorter : (k : ℕ) (s : Bytes) → length (drop k s) ≤ length s
      shorter zero s = omega arith
      shorter (suc k) [] = omega arith
      shorter (suc k) (c ∷ s) = omega (arith, shorter k s)

  -- A round for each byte is enough: the loop that writes the record ends when all is written, when a
  -- write makes no progress or by an error of the system.
  pub write_all-total :
      (fuel fd : ℕ) (bytes : Bytes) (h : History)
      → ((g : History) (d : ℕ) (s : Bytes) → env.write g d s ≢ err out_of_rounds)
      → length bytes ≤ fuel
      → (write_all env fuel fd bytes h).0 ≢ err out_of_rounds
  unfolding write_all
  write_all-total zero fd [] h n l = λ q. cc
  write_all-total (suc fuel) fd [] h n l = λ q. cc
  write_all-total zero fd (b ∷ bytes) h n l = absurd (omega arith)
  write_all-total (suc fuel) fd (b ∷ bytes) h n l =
      after-total _ (do_write env fd (b ∷ bytes) h) (n h fd (b ∷ bytes)) λ written g.
        elim (Bool-cases (written == 0)) [
          | inl y ↦ rw y (λ q. cc)
          | inr m ↦ rw m (
              write_all-total fuel fd (drop written (b ∷ bytes)) g n
                (omega (arith, drop_less written b bytes (ground arith))))
        ]

  -- The last calls removed the file, or were refused, or told that there is none.
  abbrev pub IsRemoved : Text → History → Type 0
  IsRemoved temporary h =
      (g : History) × ((h ≡ did (unlink temporary) ∷ g)
        ⊎ ((h ≡ failed (unlink temporary) ∷ g)
            ⊎ ((h ≡ lexists temporary ∷ g) × (env.lexists g temporary ≡ false))))

  remove_temporary-IsRemoved :
      (temporary : Text) (h : History) → IsRemoved temporary (remove_temporary env temporary h).1
  unfolding remove_temporary
  remove_temporary-IsRemoved temporary h = elim (Bool-cases (env.lexists h temporary)) [
    | inl y ↦ rw y (noted (env.act _ (unlink temporary)))
    | inr n ↦ rw n ((h, inr (inr (refl, n))))
  ]
    where
      noted :
          (r : Result (Unit {0}))
          → IsRemoved temporary (note_act (unlink temporary) (lexists temporary ∷ h) r).1
      noted (ok _) = (_, inl refl)
      noted (err _) = (_, inr (inl refl))

  -- For every system: whatever the outcome of saving the record, by success, by a test that failed or
  -- by an error of the system at any step, the last call removes the temporary file, or is refused,
  -- or tells that no such file is there.
  pub save-IsRemoved :
      (site : Local) (home executable : Text) (observed : Stat × Text) (identity : Option Stat)
      (temporary repository : Text) (raw : Bytes) (h : History)
      → IsRemoved temporary
          (save env site home executable observed identity temporary repository raw h).1
  unfolding save
  save-IsRemoved site home executable observed identity temporary repository raw h =
      let body =
        handle
          (write_and_commit env site home executable observed identity temporary repository raw)
          (os_failure env "Amp enrollment write failed") in
      subst (IsRemoved temporary)
        (sym (settled-history (body h).0 (remove_temporary env temporary (body h).1)))
        (remove_temporary-IsRemoved temporary (body h).1)
