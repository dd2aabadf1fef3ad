-- ===== src/Prelude/Results.antt =====
-- Failure: the exceptions that the helper raises or that its libraries raise through it.
use Prim.Native.Nat.{ℕ}
use Prim.Native.String.{String}
use mathlib.Core.Path.{◌≡◌, refl}
use mathlib.Core.Bool.{Bool, true, false}
use clamp.Prelude.Tests.{if◌then◌else◌}

-- `exit` is `SystemExit`, raised by `fail` with its message; the others leave the program with
-- a traceback where no handler names them. `out_of_rounds` is the model's own: a loop that used up
-- its fuel.
pub data Exn : Type 0 where
  exit : String → Exn
  json_decode_error unicode_decode_error unicode_encode_error : Exn
  value_error type_error key_error recursion_error file_not_found file_exists tar_error : Exn
  subprocess_error : Exn
  os_error : ℕ → Exn
  out_of_rounds : Exn

pub data Result {ℓ} (A : Type ℓ) : Type ℓ where
  err : Exn → Result A
  ok : A → Result A

-- What follows a call, which an exception leaves out.
infixl 5 ◌>>=◌
abbrev pub ◌>>=◌ {κ ℓ} : {X : Type κ} {Y : Type ℓ} → Result X → (X → Result Y) → Result Y
err raised >>= rest = err raised
ok value >>= rest = rest value

infixl 5 ◌>>◌
abbrev pub ◌>>◌ {κ} : {Y : Type κ} → Result (Unit {0}) → Result Y → Result Y
test >> rest = test >>= λ done. rest

-- `fail(message)`
abbrev pub fail {ℓ} : {A : Type ℓ} → String → Result A
fail message = err (exit message)

-- `if not test: fail(message)`
abbrev pub require : Bool → String → Result (Unit {0})
require true message = ok tt
require false message = fail message

pub err-ne-ok {ℓ} : {A : Type ℓ} (e : Exn) (a : A) → err e ≡ ok a → ⊥
err-ne-ok e a h = cc

-- A successful chain had a successful first step.
pub >>=-eq-ok {κ ℓ} :
    {X : Type κ} {Y : Type ℓ} (first : Result X) (rest : X → Result Y) {y : Y}
    → (first >>= rest) ≡ ok y
    → (x : X) × (first ≡ ok x) × (rest x ≡ ok y)
>>=-eq-ok (err raised) rest q = absurd (err-ne-ok raised _ q)
>>=-eq-ok (ok value) rest q = (value, refl, q)

pub ok_inj {ℓ} : {A : Type ℓ} {a b : A} → Result.ok a ≡ ok b → b ≡ a
ok_inj e = cc

-- Inversion of the tests in front of a result.
module _ {ℓ} {A : Type ℓ} where
  pub if-ok :
      (b : Bool) (r : Result A) (message : String) {y : A}
      → (if b then r else fail message) ≡ ok y
      → (b ≡ true) × (r ≡ ok y)
  if-ok true r message e = (refl, e)
  if-ok false r message e = absurd (cc)

  pub if_not-ok :
      (b : Bool) (r : Result A) (message : String) {y : A}
      → (if b then fail message else r) ≡ ok y
      → (b ≡ false) × (r ≡ ok y)
  if_not-ok true r message e = absurd (cc)
  if_not-ok false r message e = (refl, e)

  pub require-ok :
      (b : Bool) (message : String) (r : Result A) {y : A}
      → (require b message >> r) ≡ ok y
      → (b ≡ true) × (r ≡ ok y)
  require-ok true message r e = (refl, e)
  require-ok false message r e = absurd (cc)
