-- ===== src/Text/Order.antt =====
-- `sorted(set(xs))` is in strictly rising order, and has the members of `xs`.
use clamp.Prelude.{
  ◌≡◌, refl, sym, ◌∙◌, ◌⊎◌, inl, inr, true, false, List, [], ◌∷◌, arith, Bool-cases, subst,
}
use mathlib.Core.Bool.{true≢false}
use clamp.Text.{Text, text_eq, text_lt, mem, insert, sorted_set, texts_eq}
use clamp.Text.Equality.{text_eq_sound, texts_eq_sound}

-- Each text is below the next.
abbrev pub IsRising : List Text → Type 0
IsRising [] = Unit {0}
IsRising (s ∷ []) = Unit {0}
IsRising (s ∷ t ∷ ts) = (text_lt s t ≡ true) × IsRising (t ∷ ts)

text_lt_total : (s t : Text) → text_eq s t ≡ false → text_lt s t ≡ false → text_lt t s ≡ true
unfolding text_eq text_lt
text_lt_total [] [] e l = cc
text_lt_total [] (b ∷ t) e l = cc
text_lt_total (a ∷ s) [] e l = refl
text_lt_total (a ∷ s) (b ∷ t) e l = ground (arith, text_lt_total s t)

text_lt_irrefl : (s : Text) → text_lt s s ≡ false
unfolding text_lt
text_lt_irrefl [] = refl
text_lt_irrefl (a ∷ s) = ground (arith, text_lt_irrefl s)

text_lt_trans : (s t u : Text) → text_lt s t ≡ true → text_lt t u ≡ true → text_lt s u ≡ true
unfolding text_lt
text_lt_trans s [] u h k = absurd (elim_empty s h)
  where
    elim_empty : (s : Text) → text_lt s [] ≡ true → ⊥
    elim_empty [] h = cc
    elim_empty (_ ∷ _) h = cc
text_lt_trans s (b ∷ t) [] h k = cc
text_lt_trans [] (b ∷ t) (c ∷ u) h k = refl
text_lt_trans (a ∷ s) (b ∷ t) (c ∷ u) h k = ground (arith, text_lt_trans s t u)

-- The head of an insertion is the new text or the old head.
insert-head :
    (s t : Text) (ts : List Text)
    → (u : Text) × (us : List Text) × (insert s (t ∷ ts) ≡ u ∷ us) × ((u ≡ s) ⊎ (u ≡ t))
unfolding insert
insert-head s t ts = elim (Bool-cases (text_eq s t)) [
  | inl y ↦ (t, ts, rw y, inr refl)
  | inr n ↦ elim (Bool-cases (text_lt s t)) [
    | inl l ↦ (s, t ∷ ts, rw (n, l), inl refl)
    | inr g ↦ (t, insert s ts, rw (n, g), inr refl)
  ]
]

insert-IsRising : (s : Text) (ts : List Text) → IsRising ts → IsRising (insert s ts)
unfolding insert
insert-IsRising s [] _ = tt
insert-IsRising s (t ∷ []) h = elim (Bool-cases (text_eq s t)) [
  | inl y ↦ rw y tt
  | inr n ↦ elim (Bool-cases (text_lt s t)) [
    | inl l ↦ rw (n, l) (l, tt)
    | inr g ↦ rw (n, g) (text_lt_total s t n g, tt)
  ]
]
insert-IsRising s (t ∷ v ∷ ts) h = elim (Bool-cases (text_eq s t)) [
  | inl y ↦ rw y h
  | inr n ↦ elim (Bool-cases (text_lt s t)) [
    | inl l ↦ rw (n, l) (l, h)
    | inr g ↦
        let (u, us, e, which) = insert-head s v ts in
        let below : text_lt t u ≡ true = elim which [
          | inl p ↦ rw p (text_lt_total s t n g)
          | inr p ↦ rw p h.0
        ] in
        let later : IsRising (t ∷ insert s (v ∷ ts)) =
          subst (λ xs. IsRising (t ∷ xs)) (sym e)
            (below, subst IsRising e (insert-IsRising s (v ∷ ts) h.1)) in
        rw (n, g) later
  ]
]

pub sorted_set-IsRising : (xs : List Text) → IsRising (sorted_set xs)
unfolding sorted_set
sorted_set-IsRising [] = tt
sorted_set-IsRising (s ∷ xs) = insert-IsRising s (sorted_set xs) (sorted_set-IsRising xs)

-- `xs == sorted(set(xs))` leaves only lists in strictly rising order.
pub texts_eq-sorted_set : (xs : List Text) → texts_eq xs (sorted_set xs) ≡ true → IsRising xs
texts_eq-sorted_set xs h =
    subst IsRising (sym (texts_eq_sound xs (sorted_set xs) h)) (sorted_set-IsRising xs)

rising-lt : (s u : Text) (ts : List Text) → IsRising (s ∷ ts) → mem u ts ≡ true → text_lt s u ≡ true
unfolding mem
rising-lt s u [] h m = cc
rising-lt s u (t ∷ ts) (l, h) m = elim (Bool-cases (text_eq u t)) [
  | inl y ↦ rw (text_eq_sound u t y) l
  | inr n ↦ text_lt_trans s t u l (rising-lt t u ts h (rw n at m))
]

-- No text of a rising list stands in it again.
pub rising-distinct : (s : Text) (ts : List Text) → IsRising (s ∷ ts) → mem s ts ≡ false
rising-distinct s ts h = elim (Bool-cases (mem s ts)) [
  | inr n ↦ n
  | inl y ↦ absurd (true≢false (sym (rising-lt s s ts h y) ∙ text_lt_irrefl s))
]
