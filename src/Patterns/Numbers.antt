-- ===== src/Patterns/Numbers.antt =====
-- VERSION accepts three decimal numbers without leading zeros, joined by dots.
use clamp.Prelude.{
  ℕ, ◌≡◌, refl, ◌∙◌, ◌↔◌, ◌⊎◌, inl, inr, Bool, true, ◌||◌, [], ◌∷◌, ◌++◌, all, arith, and-split,
  ◌==◌, all-append,
}
use clamp.Text.{Text}
use clamp.Regex.{one}
use clamp.Regex.Runs.{Language, one_char, both, left, right, fullmatch_iff, IsPlain}
use clamp.Patterns.{is_digit, is_nonzero_digit, is_version, numeral_pattern, version_pattern}
use clamp.Patterns.Classes.{Language-star_all, all-Language_star}

-- `0`, or digits of which the first is not `0`.
abbrev pub IsNumeral : Text → Type 0
IsNumeral s =
    (s ≡ b'0' ∷ [])
    ⊎ ((c : ℕ) × (t : Text) × (s ≡ c ∷ t) × (is_nonzero_digit c ≡ true) × (all is_digit t ≡ true))

abbrev pub dotted : Text → Text → Text → Text
dotted a b c = a ++ (b'.' ∷ (b ++ (b'.' ∷ c)))

Language-IsNumeral : {s : Text} → Language numeral_pattern s → IsNumeral s
Language-IsNumeral (left (one_char h e)) = inl (ground arith)
Language-IsNumeral (right (both {v = v} (one_char {c = c} h e) l e')) =
    inr (c, v, rw (e', e), h, Language-star_all is_digit l)

numeral-Language : {s : Text} → IsNumeral s → Language numeral_pattern s
numeral-Language (inl e) = left (one_char refl e)
numeral-Language (inr (c, t, e, h, d)) =
    right (both (one_char h refl) (all-Language_star is_digit t d) e)

dot : {s : Text} → Language (one (λ d. d == b'.')) s → s ≡ b'.' ∷ []
dot (one_char h e) = ground arith

Language-version :
    {s : Text}
    → Language version_pattern s
    → (a b c : Text) × IsNumeral a × IsNumeral b × IsNumeral c × (s ≡ dotted a b c)
Language-version (both {u = a} la (both ld (both {u = b} lb (both {v = c} ld' lc e₄) e₃) e₂) e₁) = (
  a,
  b,
  c,
  Language-IsNumeral la,
  Language-IsNumeral lb,
  Language-IsNumeral lc,
  rw (e₁, e₂, e₃, e₄, dot ld, dot ld'),
)

version-IsPlain : IsPlain version_pattern
version-IsPlain = omega arith

-- VERSION accepts exactly the texts `a.b.c` of three numerals.
pub is_version_iff :
    (s : Text)
    → (is_version s ≡ true)
      ↔ ((a b c : Text) × IsNumeral a × IsNumeral b × IsNumeral c × (s ≡ dotted a b c))
unfolding is_version
is_version_iff s =
    let (to, from) = fullmatch_iff version_pattern s version-IsPlain in
    (
      λ h. Language-version (to h),
      λ v. from (
          both (numeral-Language v.3)
            (both (one_char refl refl)
              (both (numeral-Language v.4) (both (one_char refl refl) (numeral-Language v.5) refl)
                refl)
              refl)
            v.6),
    )

unfoldable pub is_version_char : ℕ → Bool
is_version_char c = is_digit c || c == b'.'

digits-version_chars : (s : Text) → all is_digit s ≡ true → all is_version_char s ≡ true
unfolding is_version_char
digits-version_chars [] h = refl
digits-version_chars (c ∷ s) h = ground (arith, digits-version_chars s)

IsNumeral-version_chars : {s : Text} → IsNumeral s → all is_version_char s ≡ true
unfolding is_version_char is_digit is_nonzero_digit
IsNumeral-version_chars (inl e) = rw e
IsNumeral-version_chars (inr (c, t, e, h, d)) = rw e (ground (arith, digits-version_chars t d))

all-dotted :
    (q : ℕ → Bool) (a b c : Text)
    → q b'.' ≡ true
    → all q a ≡ true
    → all q b ≡ true
    → all q c ≡ true
    → all q (dotted a b c) ≡ true
all-dotted q a b c d h k l =
    all-append q a (b'.' ∷ (b ++ (b'.' ∷ c))) ∙ rw (h, d, all-append q b (b'.' ∷ c), k, d, l)

-- A version holds digits and dots alone.
pub is_version-chars : (s : Text) → is_version s ≡ true → all is_version_char s ≡ true
is_version-chars s h =
    let (a, b, c, na, nb, nc, e) = (is_version_iff s).0 h in
    rw e (
      all-dotted is_version_char a b c (unfold is_version_char is_digit in refl)
        (IsNumeral-version_chars na) (IsNumeral-version_chars nb) (IsNumeral-version_chars nc))

pub all_mono :
    (p q : ℕ → Bool)
    → ((c : ℕ) → p c ≡ true → q c ≡ true)
    → (s : Text) → all p s ≡ true
    → all q s ≡ true
all_mono p q h [] e = refl
all_mono p q h (c ∷ s) e =
    let (here, later) = and-split (p c) (all p s) e in rw (h c here) (all_mono p q h s later)
