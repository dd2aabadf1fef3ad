-- ===== src/Os/Keeps.antt =====
-- Computations that leave the open descriptors as they were.
use clamp.Prelude.{ℕ, ◌≡◌, refl, ◌∙◌, ap, Bool, true, false, List, ◌∷◌, if◌then◌else◌, arith}
use clamp.Prelude.Results.{Exn, Result, ok, err}
use clamp.Text.{Text}
use clamp.Os.{
  Env, M, History, Op, after, handled, handle, finally, ending, note_open, note_create, note_act,
  opened, created, do_open, do_create, do_close, act, ◌>>=◌,
}
use clamp.Os.Held.{held, drop_one}
use clamp.Os.Outcome.{settled-history}

-- The descriptors are the same behind every outcome.
abbrev pub Keeps {ℓ} : {A : Type ℓ} → M A → Type 0
Keeps m = (h : History) → held (m h).1 ≡ held h

after-held {ℓ κ} :
    {A : Type ℓ} {B : Type κ} (f : A → M B)
    → ((a : A) → Keeps (f a))
    → (r : Result A × History) → held (after f r).1 ≡ held r.1
after-held f k (ok a, h) = k a h
after-held f k (err e, h) = refl

pub if-Keeps {ℓ} :
    {A : Type ℓ} (b : Bool) (m n : M A) → Keeps m → Keeps n → Keeps (if b then m else n)
if-Keeps true m n j k = j
if-Keeps false m n j k = k

pub bind-Keeps {ℓ κ} :
    {A : Type ℓ} {B : Type κ} (m : M A) (f : A → M B)
    → Keeps m
    → ((a : A) → Keeps (f a))
    → Keeps (m >>= f)
bind-Keeps m f j k h = after-held f k (m h) ∙ j h

pub handle-Keeps {ℓ} :
    {A : Type ℓ} (m : M A) (handler : Exn → M A)
    → Keeps m
    → ((e : Exn) → Keeps (handler e))
    → Keeps (handle m handler)
handle-Keeps {A = A} m handler j k h = after_body (m h) ∙ j h
  where
    after_body : (r : Result A × History) → held (handled handler r).1 ≡ held r.1
    after_body (ok a, g) = refl
    after_body (err e, g) = k e g

pub finally-Keeps {ℓ} :
    {A : Type ℓ} (body : M A) (last : M (Unit {0}))
    → Keeps body
    → Keeps last
    → Keeps (finally body last)
finally-Keeps {A = A} body last j k h = after_body (body h) ∙ j h
  where
    after_body : (r : Result A × History) → held (ending last r).1 ≡ held r.1
    after_body (r, g) = ap held (settled-history r (last g)) ∙ k g

module _ (env : Env) where
  pub act-Keeps : (op : Op) → Keeps (act env op)
  act-Keeps op h = noted (env.act h op)
    where
      noted : (r : Result (Unit {0})) → held (note_act op h r).1 ≡ held h
      noted (ok _) = refl
      noted (err _) = refl

  drop_one_head : (fd : ℕ) (ds : List ℕ) → drop_one fd (fd ∷ ds) ≡ ds
  drop_one_head fd ds = ground arith

  -- Closing in the end takes back the descriptor with which the body began.
  finally_close {ℓ} :
      {A : Type ℓ} (body : M A) (fd : ℕ) (g h : History)
      → held g ≡ fd ∷ held h
      → Keeps body
      → held (finally body (do_close env fd) g).1 ≡ held h
  finally_close {A = A} body fd g h e k = closing (body g) (k g ∙ e)
    where
      closing :
          (r : Result A × History)
          → held r.1 ≡ fd ∷ held h
          → held (ending (do_close env fd) r).1 ≡ held h
      closing (r, g') e' =
          ap held (settled-history r (do_close env fd g'))
          ∙ ap (drop_one fd) e'
          ∙ drop_one_head fd (held h)

  -- A file that is opened, used and closed.
  pub using_open-Keeps {ℓ} :
      {A : Type ℓ} (path : Text) (body : ℕ → M A)
      → ((fd : ℕ) → Keeps (body fd))
      → Keeps (do_open env path >>= λ fd. finally (body fd) (do_close env fd))
  using_open-Keeps path body k h = noted (env.open_read h path)
    where
      noted :
          (r : Result ℕ)
          → held (after (λ fd. finally (body fd) (do_close env fd)) (note_open path h r)).1 ≡ held h
      noted (ok fd) = finally_close (body fd) fd (opened path fd ∷ h) h refl (k fd)
      noted (err e) = refl

  pub using_create-Keeps {ℓ} :
      {A : Type ℓ} (path : Text) (mode : ℕ) (body : ℕ → M A)
      → ((fd : ℕ) → Keeps (body fd))
      → Keeps (do_create env path mode >>= λ fd. finally (body fd) (do_close env fd))
  using_create-Keeps path mode body k h = noted (env.create h path mode)
    where
      noted :
          (r : Result ℕ)
          → held (after (λ fd. finally (body fd) (do_close env fd)) (note_create path mode h r)).1
            ≡ held h
      noted (ok fd) = finally_close (body fd) fd (created path mode fd ∷ h) h refl (k fd)
      noted (err e) = refl
