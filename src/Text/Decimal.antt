-- ===== src/Text/Decimal.antt =====
-- Decimal notation: what `print` and `str` write of an integer that is not negative, and `int`.
use clamp.Prelude.{
  ℕ, zero, suc, ◌+◌, ◌-◌, ◌*◌, ◌/◌, ◌%◌, ◌<◌, ◌≡◌, refl, [], ◌∷◌, ◌==◌, if◌then◌else◌, arith,
  Bool-cases, inl, inr, ◌∙◌, ap,
}
use clamp.Text.{Text, codes}

-- One digit for each round, in front of those that are there.
digits_from : ℕ → ℕ → Text → Text
digits_from zero n shown = shown
digits_from (suc fuel) n shown =
    let digit : ℕ = b'0' + n % 10 in
    let more = digits_from fuel (n / 10) (digit ∷ shown) in
    if n / 10 == 0 then digit ∷ shown else more

-- `str(n)`: the fuel exceeds the number, and each round divides it by ten.
unfoldable pub decimal : ℕ → Text
unfolding digits_from
decimal n = digits_from (suc n) n []

value_from : ℕ → Text → ℕ
value_from acc [] = acc
value_from acc (c ∷ s) = value_from (acc * 10 + (c - b'0')) s

-- `int(s)` of a run of ASCII digits.
unfoldable pub digits_value : Text → ℕ
unfolding value_from
digits_value s = value_from 0 s

decimal_67108864 : decimal 67108864 ≡ codes "67108864"
unfolding decimal
decimal_67108864 = refl

-- Reading on from the digits of `n` is reading on from `n`.
value_from-digits :
    (fuel n : ℕ) (shown : Text)
    → n < fuel
    → value_from 0 (digits_from fuel n shown) ≡ value_from n shown
unfolding value_from digits_from
value_from-digits zero n shown h = absurd (omega arith)
value_from-digits (suc fuel) n shown h = elim (Bool-cases (n / 10 == 0)) [
  | inl y ↦ rw y (ap (λ m. value_from m shown) (ground arith))
  | inr m ↦ rw m (
      value_from-digits fuel (n / 10) _ (ground arith)
      ∙ ap (λ k. value_from k shown) (ground arith))
]

-- `int(str(n))` is `n`.
pub digits_value-decimal : (n : ℕ) → digits_value (decimal n) ≡ n
unfolding digits_value decimal
digits_value-decimal n = value_from-digits (suc n) n [] (omega arith)
