-- ===== src/Text/Split.antt =====
-- Splitting a text at a character, and joining its parts.
use clamp.Prelude.{
  ℕ, ◌≡◌, refl, ◌∙◌, ap, false, List, [], ◌∷◌, ◌++◌, ◌==◌, arith, All, Bool-cases, inl, inr,
}
use clamp.Text.{Text, split, join, contains}

-- `split` never returns the empty list.
pub split-cons : (sep : ℕ) (s : Text) → (p : Text) × (ps : List Text) × (split sep s ≡ p ∷ ps)
unfolding split
split-cons sep [] = ([], [], refl)
split-cons sep (c ∷ s) =
    let (p, ps, e) = split-cons sep s in
    elim (Bool-cases (c == sep)) [
      | inl y ↦ ([], split sep s, rw y)
      | inr n ↦ (c ∷ p, ps, rw (n, e))
    ]

join-push :
    (sep c : ℕ) (p : Text) (ps : List Text) → join sep ((c ∷ p) ∷ ps) ≡ c ∷ join sep (p ∷ ps)
unfolding join
join-push sep c p [] = refl
join-push sep c p (_ ∷ _) = refl

-- Joining the parts gives the text back.
pub join-split : (sep : ℕ) (s : Text) → join sep (split sep s) ≡ s
unfolding split join
join-split sep [] = refl
join-split sep (c ∷ s) =
    let (p, ps, e) = split-cons sep s in
    elim (Bool-cases (c == sep)) [
      | inl y ↦ rw (y, e) (ground (arith, rw e at (join-split sep s)))
      | inr n ↦ rw (n, e) (join-push sep c p ps ∙ ap (λ t. c ∷ t) (rw e at (join-split sep s)))
    ]

pub split-contains : (sep : ℕ) (s : Text) → All (λ p. contains sep p ≡ false) (split sep s)
unfolding split contains
split-contains sep [] = (refl, tt)
split-contains sep (c ∷ s) =
    let (p, ps, e) = split-cons sep s in
    let ih = split-contains sep s in
    elim (Bool-cases (c == sep)) [
      | inl y ↦ rw y (refl, ih)
      | inr n ↦ rw (n, e) (let (here, later) = (rw e at ih) in (rw (n, here), later))
    ]

-- A text with no separator is its one part.
pub split_single : (sep : ℕ) (s : Text) → contains sep s ≡ false → split sep s ≡ s ∷ []
unfolding split contains
split_single sep [] h = refl
split_single sep (c ∷ s) h = ground (arith, split_single sep s)

pub split-append :
    (sep : ℕ) (p s : Text) → contains sep p ≡ false → split sep (p ++ (sep ∷ s)) ≡ p ∷ split sep s
unfolding split contains
split-append sep [] s h = ground arith
split-append sep (c ∷ p) s h = ground (arith, split-append sep p s)

-- Splitting what was joined gives the parts back, if none holds the separator.
pub split-join :
    (sep : ℕ) (p : Text) (ps : List Text)
    → All (λ q. contains sep q ≡ false) (p ∷ ps)
    → split sep (join sep (p ∷ ps)) ≡ p ∷ ps
unfolding join
split-join sep p [] (h, _) = split_single sep p h
split-join sep p (q ∷ ps) (h, rest) =
    split-append sep p (join sep (q ∷ ps)) h ∙ ap (λ t. p ∷ t) (split-join sep q ps rest)
