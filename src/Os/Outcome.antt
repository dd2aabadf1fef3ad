-- ===== src/Os/Outcome.antt =====
-- What a successful run of system calls tells of its steps.
use clamp.Prelude.{
  sym, ◌≤◌, List, [], ◌∷◌, length, is_empty, arith, if◌then◌else◌, ◌≢◌, ◌≡◌, refl, Bool, true,
  false, String,
}
use mathlib.Core.Bool.{true≢false}
use clamp.Prelude.Results.{exit, Exn, out_of_rounds, Result, ok, err, err-ne-ok}
use clamp.Os.{Call, Env, Op, act, note_act, fail, M, History, after, require, ending, settled, ◌>>◌}

-- The last call of a history.
abbrev pub EndsWith : (Call → Type 0) → History → Type 0
EndsWith P [] = ⊥
EndsWith P (c ∷ _) = P c

-- A step that succeeded, and what followed it.
pub after-ok {ℓ κ} :
    {A : Type ℓ} {B : Type κ} (f : A → M B) (r : Result A × History) {b : B}
    → (after f r).0 ≡ ok b
    → (a : A) × (r.0 ≡ ok a) × ((f a r.1).0 ≡ ok b)
after-ok f (ok a, h) e = (a, refl, e)
after-ok f (err x, h) e = absurd (err-ne-ok x _ e)

-- A test that was passed, and what followed it.
pub require-ok :
    {B : Type 0} (b : Bool) (message : String) (rest : M B) (h : History) {y : B}
    → ((require b message >> rest) h).0 ≡ ok y
    → (b ≡ true) × ((rest h).0 ≡ ok y)
require-ok true message rest h e = (refl, e)
require-ok false message rest h e = absurd (err-ne-ok _ _ e)

-- A step that does not fail with an error, and what follows it.
pub after-total {ℓ κ} :
    {A : Type ℓ} {B : Type κ} (f : A → M B) (r : Result A × History) {x : Exn}
    → r.0 ≢ err x
    → ((a : A) (h : History) → (f a h).0 ≢ err x)
    → (after f r).0 ≢ err x
after-total f (ok a, h) n k = k a h
after-total f (err y, h) n k = λ q. n (cc)

pub require-total :
    {B : Type 0} (b : Bool) (message : String) (rest : M B) (h : History)
    → (rest h).0 ≢ err out_of_rounds
    → ((require b message >> rest) h).0 ≢ err out_of_rounds
require-total true message rest h n = n
require-total false message rest h n = λ q. cc

-- What `finally` returned: its body did, and so did the last part.
pub ending-ok {ℓ} :
    {A : Type ℓ} (last : M (Unit {0})) (r : Result A × History) {a : A}
    → (ending last r).0 ≡ ok a
    → (r.0 ≡ ok a) × ((last r.1).0 ≡ ok tt)
ending-ok {A = A} last (r, h) e = both (last h) e
  where
    both :
        (s : Result (Unit {0}) × History) {a : A}
        → (settled r s).0 ≡ ok a
        → (r ≡ ok a) × (s.0 ≡ ok tt)
    both (ok _, g) q = (q, refl)
    both (err x, g) q = absurd (err-ne-ok x _ q)

-- A test at the end.
pub last-required :
    (b : Bool) (message : String) (h : History) → (require b message h).0 ≡ ok tt → b ≡ true
last-required true message h e = refl
last-required false message h e = absurd (cc)

-- The last part of `finally` makes the last calls.
pub settled-history {ℓ} :
    {B : Type ℓ} (r : Result B) (s : Result (Unit {0}) × History) → (settled r s).1 ≡ s.1
settled-history r (ok _, g) = refl
settled-history r (err _, g) = refl

err-transfer {ℓ κ} :
    {A : Type ℓ} {B : Type κ} (y x : Exn)
    → ◌≡◌ {A = Result A} (err y) (err x)
    → ◌≡◌ {A = Result B} (err y) (err x)
err-transfer y x e = cc

-- An error behind a step that does not fail with it.
pub after-err {ℓ κ} :
    {A : Type ℓ} {B : Type κ} (f : A → M B) (r : Result A × History) {x : Exn}
    → r.0 ≢ err x
    → (after f r).0 ≡ err x
    → (a : A) × (r.0 ≡ ok a) × ((f a r.1).0 ≡ err x)
after-err f (ok a, h) n e = (a, refl, e)
after-err f (err y, h) {x} n e = absurd (n (err-transfer y x e))

exit-ne-rounds {ℓ} :
    {A : Type ℓ} (message : String)
    → ◌≡◌ {A = Result A} (err (exit message)) (err out_of_rounds)
    → ⊥
exit-ne-rounds message e = cc

-- `if b: fail(message)`, and what followed it.
pub unless-ok {ℓ} :
    {A : Type ℓ} (b : Bool) (message : String) (m : M A) (h : History) {a : A}
    → ((if b then fail message else m) h).0 ≡ ok a
    → (b ≡ false) × ((m h).0 ≡ ok a)
unless-ok true message m h e = absurd (err-ne-ok _ _ e)
unless-ok false message m h e = (refl, e)

pub unless-err {ℓ} :
    {A : Type ℓ} (b : Bool) (message : String) (m : M A) (h : History)
    → ((if b then fail message else m) h).0 ≡ err out_of_rounds
    → (b ≡ false) × ((m h).0 ≡ err out_of_rounds)
unless-err true message m h e = absurd (exit-ne-rounds message e)
unless-err false message m h e = (refl, e)

pub filled-length {ℓ} : {A : Type ℓ} (chunk : List A) → is_empty chunk ≡ false → 1 ≤ length chunk
filled-length [] h = absurd (true≢false h)
filled-length (c ∷ chunk) h = omega arith

pub act-total :
    (env : Env) (op : Op) (h : History)
    → env.act h op ≢ err out_of_rounds
    → (act env op h).0 ≢ err out_of_rounds
act-total env op h n = noted (env.act h op) n
  where
    noted :
        (r : Result (Unit {0})) → r ≢ err out_of_rounds → (note_act op h r).0 ≢ err out_of_rounds
    noted (ok _) k e = err-ne-ok _ _ (sym e)
    noted (err x) k e = k e
