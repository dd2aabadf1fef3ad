-- ===== src/Os/Ends.antt =====
-- Computations that do not run out of the model's fuel, with what holds where they return.
use clamp.Prelude.{◌≡◌, ◌≢◌, refl, Bool, true, false, if◌then◌else◌, String}
use clamp.Prelude.Results.{Exn, out_of_rounds, Result, ok, err}
use clamp.Os.{M, History, after, handled, require, return}

abbrev Ended {ℓ} : {A : Type ℓ} → (A → Type 0) → Result A × History → Type 0
Ended P (ok a, g) = P a
Ended P (err x, g) = x ≢ out_of_rounds

pub record Ends {ℓ} {A : Type ℓ} (P : A → Type 0) (r : Result A × History) : Type 0 where
  pub holds : Ended P r

module _ {ℓ} {A : Type ℓ} {P : A → Type 0} where
  pub Ends-total : (r : Result A × History) → Ends P r → r.0 ≢ err out_of_rounds
  Ends-total (ok a, g) y e = cc
  Ends-total (err x, g) y e = y.holds (cc)

  pub return-Ends : (a : A) (g : History) → P a → Ends P (return a g)
  return-Ends a g p = record { holds = p }

  pub answer-Ends :
      (r : Result A) (g : History)
      → r ≢ err out_of_rounds
      → ((a : A) → r ≡ ok a → P a)
      → Ends P (r, g)
  answer-Ends (ok a) g n k = record { holds = k a refl }
  answer-Ends (err x) g n k = record { holds = λ e. n (cc) }

  pub after-Ends {κ} :
      {B : Type κ} {Q : B → Type 0} (f : A → M B) (r : Result A × History)
      → Ends P r
      → ((a : A) (g : History) → P a → Ends Q (f a g))
      → Ends Q (after f r)
  after-Ends f (ok a, g) y k = k a g y.holds
  after-Ends f (err x, g) y k = record { holds = y.holds }

  pub map-Ends :
      {Q : A → Type 0} (r : Result A × History) → Ends P r → ((a : A) → P a → Q a) → Ends Q r
  map-Ends (ok a, g) y k = record { holds = k a y.holds }
  map-Ends (err x, g) y k = record { holds = y.holds }

  pub handled-Ends :
      (handler : Exn → M A) (r : Result A × History)
      → Ends P r
      → ((x : Exn) (g : History) → x ≢ out_of_rounds → Ends P (handler x g))
      → Ends P (handled handler r)
  handled-Ends handler (ok a, g) y k = record { holds = y.holds }
  handled-Ends handler (err x, g) y k = k x g y.holds

  pub if-Ends :
      (b : Bool) (m n : M A) (h : History)
      → (b ≡ true → Ends P (m h))
      → (b ≡ false → Ends P (n h))
      → Ends P ((if b then m else n) h)
  if-Ends true m n h k l = k refl
  if-Ends false m n h k l = l refl

-- A test that was passed.
pub tested-Ends :
    (b : Bool) (message : String) (h : History) → Ends (λ _. b ≡ true) (require b message h)
tested-Ends true message h = record { holds = refl }
tested-Ends false message h = record { holds = λ e. cc }
