-- ===== src/Os/Emits.antt =====
-- Computations all of whose calls satisfy a condition, whatever they return.
use clamp.Prelude.{ℕ, ◌≡◌, refl, Bool, true, false, ◌∷◌, if◌then◌else◌, String}
use clamp.Prelude.Results.{Exn, Result, ok, err}
use clamp.Text.{Text}
use clamp.Os.{
  M, Env, History, Call, Op, after, handled, handle, finally, settled, ending, lift, note_act,
  note_open, note_create, did, failed, opened, open_failed, created, create_failed, act, do_open,
  do_create, ◌>>=◌, require, return,
}

-- The second history continues the first by calls that satisfy the condition.
pub data Grows (P : Call → Type 0) (h : History) : History → Type 0 where
  same : Grows P h h
  more : {c : Call} {g : History} → P c → Grows P h g → Grows P h (c ∷ g)

pub record Emits {ℓ} {A : Type ℓ} (P : Call → Type 0) (m : M A) : Type ℓ where
  pub grows : (h : History) → Grows P h (m h).1

module _ {P : Call → Type 0} where
  pub Grows-trans : {h g k : History} → Grows P h g → Grows P g k → Grows P h k
  Grows-trans a same = a
  Grows-trans a (more p b) = more p (Grows-trans a b)

  pub map-Emits {ℓ} :
      {A : Type ℓ} {Q : Call → Type 0} {m : M A} → ((c : Call) → Q c → P c) → Emits Q m → Emits P m
  map-Emits {Q = Q} f e = record { grows = λ h. weaker (e.grows h) }
    where
      weaker : {h g : History} → Grows Q h g → Grows P h g
      weaker same = same
      weaker (more q r) = more (f _ q) (weaker r)

  -- No call at all, as in `require`, `fail` and `return`.
  pub none-Emits {ℓ} : {A : Type ℓ} (f : History → Result A) → Emits P (λ h. (f h, h))
  none-Emits f = record { grows = λ h. same }

  pub require-Emits : (b : Bool) (message : String) → Emits P (require b message)
  require-Emits b message = none-Emits _

  pub return-Emits {ℓ} : {A : Type ℓ} (a : A) → Emits P (return a)
  return-Emits a = none-Emits _

  pub one-Emits {ℓ} :
      {A : Type ℓ} (c : Call) (f : History → Result A) → P c → Emits P (λ h. (f h, c ∷ h))
  one-Emits c f p = record { grows = λ h. more p same }

  pub if-Emits {ℓ} :
      {A : Type ℓ} (b : Bool) (m n : M A) → Emits P m → Emits P n → Emits P (if b then m else n)
  if-Emits true m n j k = j
  if-Emits false m n j k = k

  pub bind-Emits {ℓ κ} :
      {A : Type ℓ} {B : Type κ} (m : M A) (f : A → M B)
      → Emits P m
      → ((a : A) → Emits P (f a))
      → Emits P (m >>= f)
  bind-Emits {A = A} m f j k = record { grows = λ h. after_step h (m h) (j.grows h) }
    where
      after_step : (h : History) (r : Result A × History) → Grows P h r.1 → Grows P h (after f r).1
      after_step h (ok a, g) e = Grows-trans e ((k a).grows g)
      after_step h (err e, g) e' = e'

  -- Behind a value that needs no call, the rest may use where it comes from.
  pub lift-Emits {ℓ κ} :
      {A : Type ℓ} {B : Type κ} (r : Result A) (f : A → M B)
      → ((a : A) → r ≡ ok a → Emits P (f a))
      → Emits P (lift r >>= f)
  lift-Emits (ok a) f k = record { grows = (k a refl).grows }
  lift-Emits (err e) f k = record { grows = λ h. same }

  pub handle-Emits {ℓ} :
      {A : Type ℓ} (m : M A) (handler : Exn → M A)
      → Emits P m
      → ((e : Exn) → Emits P (handler e))
      → Emits P (handle m handler)
  handle-Emits {A = A} m handler j k = record { grows = λ h. after_body h (m h) (j.grows h) }
    where
      after_body :
          (h : History) (r : Result A × History) → Grows P h r.1 → Grows P h (handled handler r).1
      after_body h (ok a, g) e = e
      after_body h (err x, g) e = Grows-trans e ((k x).grows g)

  pub finally-Emits {ℓ} :
      {A : Type ℓ} (body : M A) (last : M (Unit {0}))
      → Emits P body
      → Emits P last
      → Emits P (finally body last)
  finally-Emits {A = A} body last j k = record { grows = λ h. after_body h (body h) (j.grows h) }
    where
      settle :
          (h : History) (r : Result A) (s : Result (Unit {0}) × History)
          → Grows P h s.1
          → Grows P h (settled r s).1
      settle h r (ok _, g) e = e
      settle h r (err _, g) e = e

      after_body :
          (h : History) (r : Result A × History) → Grows P h r.1 → Grows P h (ending last r).1
      after_body h (r, g) e = settle h r (last g) (Grows-trans e (k.grows g))

  module _ (env : Env) where
    pub act-Emits : (op : Op) → P (did op) → P (failed op) → Emits P (act env op)
    act-Emits op d f = record { grows = λ h. noted h (env.act h op) }
      where
        noted : (h : History) (r : Result (Unit {0})) → Grows P h (note_act op h r).1
        noted h (ok _) = more d same
        noted h (err _) = more f same

    pub open-Emits :
        (path : Text)
        → ((fd : ℕ) → P (opened path fd))
        → P (open_failed path)
        → Emits P (do_open env path)
    open-Emits path o f = record { grows = λ h. noted h (env.open_read h path) }
      where
        noted : (h : History) (r : Result ℕ) → Grows P h (note_open path h r).1
        noted h (ok fd) = more (o fd) same
        noted h (err _) = more f same

    pub create-Emits :
        (path : Text) (mode : ℕ)
        → ((fd : ℕ) → P (created path mode fd))
        → P (create_failed path)
        → Emits P (do_create env path mode)
    create-Emits path mode o f = record { grows = λ h. noted h (env.create h path mode) }
      where
        noted : (h : History) (r : Result ℕ) → Grows P h (note_create path mode h r).1
        noted h (ok fd) = more (o fd) same
        noted h (err _) = more f same
