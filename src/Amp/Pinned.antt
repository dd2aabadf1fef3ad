-- ===== src/Amp/Pinned.antt =====
-- The private directory of `pinned_amp_path` of runtime/templates/runtime_metadata.py is removed again,
-- and nothing else is changed.
use clamp.Prelude.{◌≡◌, refl, ◌⊎◌, inl, inr, ◌++◌, ◌∷◌, ℕ, Bool-cases, sym, subst}
use clamp.Prelude.Results.{Exn, Result, ok, err}
use clamp.Text.{Text, codes}
use clamp.Posix.{dirname, join_name}
use clamp.Os.{
  Call, token, Env, M, History, did, failed, mkdir, rmdir, unlink, after, finally, act, note_act,
}
use clamp.Os.Outcome.{EndsWith, settled-history}
use clamp.Amp.{unpin, run_pinned, with_pinned}

module _ (env : Env) where
  -- The directory is removed, or the system refused to remove it or its file.
  abbrev pub IsCleaned : Text → Call → Type 0
  IsCleaned directory (did op) = op ≡ rmdir directory
  IsCleaned directory (failed op) =
      (op ≡ rmdir directory) ⊎ (op ≡ unlink (join_name directory (codes "amp")))
  IsCleaned directory _ = ⊥

  act-IsCleaned :
      (directory : Text) (h : History)
      → EndsWith (IsCleaned directory) (act env (rmdir directory) h).1
  act-IsCleaned directory h = noted (env.act h (rmdir directory))
    where
      noted :
          (r : Result (Unit {0}))
          → EndsWith (IsCleaned directory) (note_act (rmdir directory) h r).1
      noted (ok _) = refl
      noted (err _) = inl refl

  unpin-IsCleaned :
      (directory : Text) (h : History)
      → EndsWith (IsCleaned directory) (unpin env directory (join_name directory (codes "amp")) h).1
  unfolding unpin
  unpin-IsCleaned directory h =
      elim (Bool-cases (env.lexists h (join_name directory (codes "amp")))) [
        | inl y ↦ rw y (unlinked _ (env.act _ (unlink (join_name directory (codes "amp")))))
        | inr n ↦ rw n (act-IsCleaned directory _)
      ]
    where
      unlinked :
          (g : History) (r : Result (Unit {0}))
          → EndsWith
              (IsCleaned directory)
              (after
                (λ _. act env (rmdir directory))
                (note_act (unlink (join_name directory (codes "amp"))) g r)).1
      unlinked g (ok _) = act-IsCleaned directory _
      unlinked g (err _) = inr refl

  -- The private directory for a run that begins behind a history.
  abbrev pub directory_at : Text → History → Text
  directory_at executable h = join_name (dirname executable) (codes ".clamp-exec-" ++ env.token h)

  -- The system refused to make the directory, and that was all; or it made it, and the run ends as it
  -- should.
  abbrev pub IsTidy : Text → History → History → Type 0
  IsTidy directory h g =
      ((x : Exn) × (env.act (token ∷ h) (mkdir directory 0x1C0) ≡ err x)
        × (g ≡ failed (mkdir directory 0x1C0) ∷ token ∷ h))
      ⊎ ((env.act (token ∷ h) (mkdir directory 0x1C0) ≡ ok tt) × EndsWith (IsCleaned directory) g)

  -- For every system and every use of the private name: with the directory that is named by the token
  -- which `pinned_amp_path` draws, either the system refuses to make it, and no other call is made,
  -- or it makes it, and then, whatever the outcome, the last call of the run removes that very
  -- directory, or the system refused this call or the one that removes the file in it.
  pub with_pinned-IsCleaned {ℓ} :
      {A : Type ℓ} (executable : Text) (descriptor : ℕ) (body : Text → M A) (h : History)
      → IsTidy (directory_at executable h) h (with_pinned env executable descriptor body h).1
  unfolding with_pinned
  with_pinned-IsCleaned {A = A} executable descriptor body h =
      made (directory_at executable h) (env.act _ (mkdir (directory_at executable h) 0x1C0)) refl
    where
      made :
          (directory : Text) (r : Result (Unit {0}))
          → env.act (token ∷ h) (mkdir directory 0x1C0) ≡ r
          → IsTidy directory h
              (after
                (λ _.
                  finally
                    (run_pinned env executable descriptor (join_name directory (codes "amp")) body)
                    (unpin env directory (join_name directory (codes "amp"))))
                (note_act (mkdir directory 0x1C0) (token ∷ h) r)).1
      made directory (ok _) is =
          let linked = join_name directory (codes "amp") in
          let r =
            run_pinned env executable descriptor linked body
              (did (mkdir directory 0x1C0) ∷ token ∷ h) in
          inr (
            is,
            subst (EndsWith (IsCleaned directory))
                (sym (settled-history r.0 (unpin env directory linked r.1)))
                (unpin-IsCleaned directory r.1),
          )
      made directory (err x) is = inl (x, is, refl)
