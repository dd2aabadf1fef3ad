-- ===== src/Os/Yields.antt =====
-- What holds of the value and of the calls of a computation that returns.
use clamp.Prelude.{◌≡◌, refl, Bool, true, false, if◌then◌else◌, String, sym, subst, ◌∷◌}
use clamp.Prelude.Results.{Exn, Result, ok, err, err-ne-ok, ok_inj}
use clamp.Os.{
  Call, return, handled, M, Env, Op, History, after, ending, settled, did, note_act, act, fail,
  require,
}
use clamp.Os.Emits.{Emits, Grows}

abbrev Yielded {ℓ κ} : {A : Type ℓ} → (History → A → Type κ) → Result A × History → Type κ
Yielded P (ok a, g) = P g a
Yielded P (err _, g) = Unit

pub record Yields {ℓ κ} {A : Type ℓ} (P : History → A → Type κ) (r : Result A × History)
    : Type κ where
  pub holds : Yielded P r

module _ {ℓ κ} {A : Type ℓ} {P : History → A → Type κ} where
  pub Yields-ok : (r : Result A × History) {a : A} → Yields P r → r.0 ≡ ok a → P r.1 a
  Yields-ok (ok b, g) y e = subst (P g) (sym (ok_inj e)) y.holds
  Yields-ok (err x, g) y e = absurd (err-ne-ok x _ e)

  pub return-Yields : (a : A) (g : History) → P g a → Yields P (return a g)
  return-Yields a g p = record { holds = p }

  pub answer-Yields : (r : Result A) (g : History) → ((a : A) → r ≡ ok a → P g a) → Yields P (r, g)
  answer-Yields (ok a) g k = record { holds = k a refl }
  answer-Yields (err x) g k = record { holds = tt }

  pub after-Yields {λ' μ} :
      {B : Type λ'} {Q : History → B → Type μ} (f : A → M B) (r : Result A × History)
      → Yields P r
      → ((a : A) (g : History) → P g a → Yields Q (f a g))
      → Yields Q (after f r)
  after-Yields f (ok a, g) y k = k a g y.holds
  after-Yields f (err x, g) y k = record { holds = tt }

  pub map-Yields {μ} :
      {Q : History → A → Type μ} (r : Result A × History)
      → Yields P r
      → ((a : A) (g : History) → P g a → Q g a)
      → Yields Q r
  map-Yields (ok a, g) y k = record { holds = k a g y.holds }
  map-Yields (err x, g) y k = record { holds = tt }

  pub unless-Yields :
      (b : Bool) (message : String) (m : M A) (h : History)
      → (b ≡ false → Yields P (m h))
      → Yields P ((if b then fail message else m) h)
  unless-Yields true message m h k = record { holds = tt }
  unless-Yields false message m h k = k refl

  pub handled-Yields :
      (handler : Exn → M A) (r : Result A × History)
      → Yields P r
      → ((e : Exn) (g : History) → Yields P (handler e g))
      → Yields P (handled handler r)
  handled-Yields handler (ok a, g) y k = y
  handled-Yields handler (err e, g) y k = k e g

  pub if-Yields :
      (b : Bool) (m n : M A) (h : History)
      → (b ≡ true → Yields P (m h))
      → (b ≡ false → Yields P (n h))
      → Yields P ((if b then m else n) h)
  if-Yields true m n h k l = k refl
  if-Yields false m n h k l = l refl

  -- `finally` returns what its body does, behind the calls of its last part.
  pub finally-Yields {μ} :
      {Q : History → A → Type μ} (last : M (Unit {0})) (r : Result A × History)
      → Yields P r
      → ((a : A) (g : History) → P g a → Yields (λ k _. Q k a) (last g))
      → Yields Q (ending last r)
  finally-Yields {Q = Q} last (ok a, g) y k = returned (last g) (k a g y.holds)
    where
      returned :
          (s : Result (Unit {0}) × History)
          → Yields (λ k _. Q k a) s
          → Yields Q (settled (Result.ok a) s)
      returned (ok _, g') y' = record { holds = y'.holds }
      returned (err x, g') y' = record { holds = tt }
  finally-Yields {Q = Q} last (err x, g) y k = failed (last g)
    where
      failed : (s : Result (Unit {0}) × History) → Yields Q (settled (Result.err x) s)
      failed (ok _, g') = record { holds = tt }
      failed (err _, g') = record { holds = tt }

module _ {κ} {P : History → Unit {0} → Type κ} where
  pub require-Yields :
      (b : Bool) (message : String) (h : History)
      → (b ≡ true → P h tt)
      → Yields P (require b message h)
  require-Yields true message h k = record { holds = k refl }
  require-Yields false message h k = record { holds = tt }

  pub act-Yields : (env : Env) (op : Op) (h : History) → P (did op ∷ h) tt → Yields P (act env op h)
  act-Yields env op h p = noted (env.act h op)
    where
      noted : (r : Result (Unit {0})) → Yields P (note_act op h r)
      noted (ok _) = record { holds = p }
      noted (err _) = record { holds = tt }

-- A computation that returned, for the theorems about it.
pub run-Yields {ℓ} : {A : Type ℓ} (m : M A) (h : History) → Yields (λ _ a. (m h).0 ≡ ok a) (m h)
run-Yields {A = A} m h = noted (m h)
  where
    noted : (r : Result A × History) → Yields (λ _ a. r.0 ≡ ok a) r
    noted (ok a, g) = record { holds = refl }
    noted (err x, g) = record { holds = tt }

-- A test that was passed.
pub tested-Yields :
    (b : Bool) (message : String) (h : History) → Yields (λ _ _. b ≡ true) (require b message h)
tested-Yields b message h = require-Yields b message h λ yes. yes

-- That a computation returns says nothing more.
pub any-Yields {ℓ} : {A : Type ℓ} (r : Result A × History) → Yields (λ _ _. Unit {0}) r
any-Yields (ok a, g) = record { holds = tt }
any-Yields (err x, g) = record { holds = tt }

-- And its calls follow those before it.
pub Emits-Yields {ℓ κ} :
    {A : Type ℓ} {Q : Call → Type 0} {P : History → A → Type κ} (m : M A) (h : History)
    → Emits Q m
    → Yields P (m h)
    → Yields (λ g a. Grows Q h g × P g a) (m h)
Emits-Yields {A = A} {Q = Q} {P = P} m h e y = noted (m h) (e.grows h) y
  where
    noted :
        (r : Result A × History)
        → Grows Q h r.1
        → Yields P r
        → Yields (λ g a. Grows Q h g × P g a) r
    noted (ok a, g) grows y' = record { holds = (grows, y'.holds) }
    noted (err x, g) grows y' = record { holds = tt }
