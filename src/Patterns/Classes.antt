-- ===== src/Patterns/Classes.antt =====
-- What VERSION, REVISION, DIGEST, COMPONENT and SOURCE accept, with no regular expression.
use clamp.Prelude.{
  ℕ, suc, ◌≡◌, refl, ap, ◌↔◌, ◌≢◌, Bool, true, [], ◌∷◌, length, all, and-split, subst,
}
use clamp.Text.{Text}
use clamp.Regex.{one, star, times, plus}
use clamp.Regex.Runs.{
  Language, one_char, both, none_more, once_more, counted, Times, no_times, more_times,
  fullmatch_iff,
}
use clamp.Patterns.{is_hex, is_component_char, is_revision, is_digest, is_component}

module _ (p : ℕ → Bool) where
  pub Language-star_all : {s : Text} → Language (star (one p)) s → all p s ≡ true
  Language-star_all (none_more e) = rw e
  Language-star_all (once_more (one_char h e) l e') = rw (e', e, h) (Language-star_all l)

  pub all-Language_star : (s : Text) → all p s ≡ true → Language (star (one p)) s
  all-Language_star [] h = none_more refl
  all-Language_star (c ∷ s) h =
      let (here, later) = and-split _ _ h in
      once_more (one_char here refl) (all-Language_star s later) refl

  Times-all : {n : ℕ} {s : Text} → Times (one p) n s → (length s ≡ n) × (all p s ≡ true)
  Times-all (no_times e) = rw e (refl, refl)
  Times-all (more_times (one_char h e) l e') =
      let (size, rest) = Times-all l in rw (e', e) (ap suc size, rw h rest)

  all-Times : (s : Text) → all p s ≡ true → Times (one p) (length s) s
  all-Times [] h = no_times refl
  all-Times (c ∷ s) h =
      let (here, later) = and-split _ _ h in
      more_times (one_char here refl) (all-Times s later) refl

  -- One or more characters of the class.
  abbrev pub IsRun : Text → Type 0
  IsRun s = (s ≢ []) × (all p s ≡ true)

  Language-plus_iff : (s : Text) → Language (plus (one p)) s ↔ IsRun s
  Language-plus_iff s = (λ l. to l, λ r. from s r)
    where
      to : {t : Text} → Language (plus (one p)) t → IsRun t
      to (both (one_char h e) l e') = rw (e', e) (λ q. cc, rw h (Language-star_all l))

      from : (t : Text) → IsRun t → Language (plus (one p)) t
      from [] r = absurd (r.0 refl)
      from (c ∷ t) r =
          let (here, later) = and-split _ _ r.1 in
          both (one_char here refl) (all-Language_star t later) refl

  Language-times_iff :
      (n : ℕ) (s : Text) → Language (times n (one p)) s ↔ ((length s ≡ n) × (all p s ≡ true))
  Language-times_iff n s = (
    λ l. to l,
    λ (h : (length s ≡ n) × (all p s ≡ true)).
        counted (subst (λ k. Times (one p) k s) h.0 (all-Times s h.1)),
  )
    where
      to : {k : ℕ} {t : Text} → Language (times k (one p)) t → (length t ≡ k) × (all p t ≡ true)
      to (counted l) = Times-all l

-- A component is a nonempty run of `[A-Za-z0-9._+-]`.
pub is_component_iff : (s : Text) → (is_component s ≡ true) ↔ IsRun is_component_char s
unfolding is_component
is_component_iff s =
    let (to, from) = fullmatch_iff (plus (one is_component_char)) s (tt, tt) in
    let (out, back) = Language-plus_iff is_component_char s in (λ h. out (to h), λ r. from (back r))

pub is_revision_iff :
    (s : Text) → (is_revision s ≡ true) ↔ ((length s ≡ 40) × (all is_hex s ≡ true))
unfolding is_revision
is_revision_iff s =
    let (to, from) = fullmatch_iff (times 40 (one is_hex)) s tt in
    let (out, back) = Language-times_iff is_hex 40 s in (λ h. out (to h), λ r. from (back r))

pub is_digest_iff : (s : Text) → (is_digest s ≡ true) ↔ ((length s ≡ 64) × (all is_hex s ≡ true))
unfolding is_digest
is_digest_iff s =
    let (to, from) = fullmatch_iff (times 64 (one is_hex)) s tt in
    let (out, back) = Language-times_iff is_hex 64 s in (λ h. out (to h), λ r. from (back r))
