-- ===== src/Text/Equality.antt =====
-- The tests on texts decide equality and membership.
use clamp.Prelude.{◌≡◌, refl, ◌↔◌, true, List, [], ◌∷◌, ◌++◌, arith}
use clamp.Text.{Text, text_eq, texts_eq, starts_with}

pub text_eq_sound : (s t : Text) → text_eq s t ≡ true → s ≡ t
unfolding text_eq
text_eq_sound [] [] h = refl
text_eq_sound (a ∷ s) (b ∷ t) h = ground (arith, text_eq_sound s t)
text_eq_sound _ _ h = cc

pub text_eq_refl : (s : Text) → text_eq s s ≡ true
unfolding text_eq
text_eq_refl [] = refl
text_eq_refl (a ∷ s) = ground (arith, text_eq_refl s)

pub text_eq_iff : (s t : Text) → (text_eq s t ≡ true) ↔ (s ≡ t)
text_eq_iff s t = (text_eq_sound s t, λ e. rw e (text_eq_refl t))

pub texts_eq_sound : (xs ys : List Text) → texts_eq xs ys ≡ true → xs ≡ ys
unfolding texts_eq
texts_eq_sound [] [] h = refl
texts_eq_sound (s ∷ xs) (t ∷ ys) h = ground (arith, text_eq_iff s t, texts_eq_sound xs ys)
texts_eq_sound _ _ h = cc

pub texts_eq_refl : (xs : List Text) → texts_eq xs xs ≡ true
unfolding texts_eq
texts_eq_refl [] = refl
texts_eq_refl (s ∷ xs) = ground (arith, text_eq_refl s, texts_eq_refl xs)

-- What starts with a prefix is the prefix and a rest.
pub starts_with_sound : (s p : Text) → starts_with s p ≡ true → (r : Text) × (s ≡ p ++ r)
unfolding starts_with
starts_with_sound s [] h = (s, refl)
starts_with_sound [] (b ∷ p) h = cc
starts_with_sound (a ∷ s) (b ∷ p) h =
    let (r, e) = starts_with_sound s p (ground arith) in (r, ground arith)

pub starts_with-append : (p r : Text) → starts_with (p ++ r) p ≡ true
unfolding starts_with
starts_with-append [] [] = refl
starts_with-append [] (_ ∷ _) = refl
starts_with-append (a ∷ p) r = ground (arith, starts_with-append p r)
