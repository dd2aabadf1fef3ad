-- ===== src/Posix/Shrinks.antt =====
-- `os.path.dirname` makes a path shorter until it is a root.
use clamp.Prelude.{
  ℕ, ◌≡◌, refl, sym, ap, ◌∙◌, ◌<◌, ◌⊎◌, suc, inl, inr, not, [], ◌∷◌, ◌==◌, all, length, arith,
  Bool-cases, if◌then◌else◌, Bool,
}
use clamp.Text.{Text, rstrip}
use clamp.Posix.{dirname}

-- Stripping leaves a text as it is or makes it shorter.
rstrip_shrinks : (p : ℕ → Bool) (s : Text) → (rstrip p s ≡ s) ⊎ (length (rstrip p s) < length s)
unfolding rstrip
rstrip_shrinks p [] = inl refl
rstrip_shrinks p (c ∷ s) = go (rstrip p s) (rstrip_shrinks p s)
  where
    go :
        (r : Text)
        → (r ≡ s) ⊎ (length r < length s)
        → ((elim r as (λ _. Text) [ [] ↦ if p c then [] else c ∷ [] | d ∷ rest ↦ c ∷ (d ∷ rest) ])
            ≡ c ∷ s)
          ⊎ (length (elim r as (λ _. Text) [
            | [] ↦ if p c then [] else c ∷ []
            | d ∷ rest ↦ c ∷ (d ∷ rest)
          ])
              < suc (length s))
    go [] r = elim (Bool-cases (p c)) [
      | inl y ↦ inr (rw y (omega arith))
      | inr n ↦ elim r [
        | inl e ↦ inl (rw n (ap (λ t. c ∷ t) e))
        | inr l ↦ inr (rw n (omega (arith, l)))
      ]
    ]
    go (d ∷ rest) (inl e) = inl (ap (λ t. c ∷ t) e)
    go (d ∷ rest) (inr l) = inr (omega (arith, l))

-- A path is a root, or its directory is shorter.
pub dirname_shrinks : (path : Text) → (dirname path ≡ path) ⊎ (length (dirname path) < length path)
unfolding dirname
dirname_shrinks path =
    elim (Bool-cases (all (λ c. c == b'/') (rstrip (λ c. not (c == b'/')) path))) [
      | inl y ↦ rw y (rstrip_shrinks _ path)
      | inr n ↦ rw n (twice (rstrip_shrinks _ (rstrip _ path)) (rstrip_shrinks _ path))
    ]
  where
    twice :
        {s t u : Text}
        → (u ≡ t) ⊎ (length u < length t)
        → (t ≡ s) ⊎ (length t < length s)
        → (u ≡ s) ⊎ (length u < length s)
    twice (inl e) (inl f) = inl (e ∙ f)
    twice (inl e) (inr l) = inr (rw e l)
    twice (inr l) (inl f) = inr (rw (sym f) l)
    twice (inr l) (inr k) = inr (omega (arith, l, k))
