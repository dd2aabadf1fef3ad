-- ===== src/Paths/Safe.antt =====
-- What `valid_path` accepts.
use clamp.Prelude.{
  none, ℕ, ◌≡◌, ◌≤◌, refl, ◌∙◌, ap, ◌↔◌, ◌≢◌, Bool, true, false, List, [], ◌∷◌, ◌==◌, arith, All,
  Bool-cases, inl, inr, all, any, length, is_empty, some, and-split, ltb, le→leb, Option, leb→le,
  subst,
}
use clamp.Prelude.Results.{unicode_encode_error, err, ok}
use clamp.Text.{Text, codes, split, text_eq, starts_with, ends_with, push_first}
use clamp.Text.Split.{split-cons}
use clamp.Text.Equality.{text_eq_iff}
use clamp.Utf8.{is_ascii, encode, encode-ascii}
use clamp.Patterns.{is_component_char}
use clamp.Patterns.Classes.{IsRun, is_component_iff}
use clamp.Paths.{is_safe_part, valid_path, valid_encoded, Result}

-- A name that can be joined to a directory without leaving it: not empty, not `.` or `..`, and
-- of characters that a path gives no meaning.
pub record IsSafePart (p : Text) : Type 0 where
  pub filled : p ≢ []
  pub not_here : p ≢ codes "."
  pub not_parent : p ≢ codes ".."
  pub plain : all is_component_char p ≡ true

pub is_safe_part_iff : (p : Text) → (is_safe_part p ≡ true) ↔ IsSafePart p
unfolding is_safe_part
is_safe_part_iff p = (
  λ h.
      let run : IsRun is_component_char p = (is_component_iff p).0 (ground arith) in
      record {
        filled = run.0;
        not_here = ground (arith, text_eq_iff p (codes "."));
        not_parent = ground (arith, text_eq_iff p (codes ".."));
        plain = run.1;
      },
  λ s. ground (
    arith,
    text_eq_iff p (codes "."),
    text_eq_iff p (codes ".."),
    (is_component_iff p).1 (s.filled, s.plain),
  ),
)

pub all_safe_iff : (ps : List Text) → (all is_safe_part ps ≡ true) ↔ All IsSafePart ps
all_safe_iff [] = (λ _. tt, λ _. refl)
all_safe_iff (p ∷ ps) = (
  λ h. ((is_safe_part_iff p).0 (and-split _ _ h).0, (all_safe_iff ps).0 (and-split _ _ h).1),
  λ h. rw ((is_safe_part_iff p).1 h.0) ((all_safe_iff ps).1 h.1),
)

component_char-ascii : (c : ℕ) → is_component_char c ≡ true → is_ascii c ≡ true
unfolding is_component_char
component_char-ascii c h = ground arith

-- Parts of component characters, with slashes between them, are ASCII.
parts-ascii :
    (s : Text) → All (λ p. all is_component_char p ≡ true) (split b'/' s) → all is_ascii s ≡ true
unfolding split
parts-ascii [] h = refl
parts-ascii (c ∷ s) h =
    let (p, ps, e) = split-cons b'/' s in
    elim (Bool-cases (c == b'/')) [
      | inl y ↦ rw (parts-ascii s (rw y at h).1) (ground arith)
      | inr n ↦
          let (front, behind) = rw (n, e) at h in
          let (here, later) = and-split (is_component_char c) (all is_component_char p) front in
          rw (component_char-ascii c here) (parts-ascii s (rw e (later, behind)))
    ]

All-plain : (ps : List Text) → All IsSafePart ps → All (λ p. all is_component_char p ≡ true) ps
All-plain [] h = tt
All-plain (p ∷ ps) (h, hs) = (h.plain, All-plain ps hs)

-- The text ends in an empty part behind a slash.
ends_with-slash :
    (s : Text)
    → ends_with s (codes "/") ≡ true
    → (p : Text) × (ps : List Text) × (split b'/' s ≡ p ∷ ps) × (any is_empty ps ≡ true)
unfolding ends_with split text_eq
ends_with-slash [] h = absurd (ground arith)
ends_with-slash (c ∷ []) h = ([], [] ∷ [], ground arith, refl)
ends_with-slash (c ∷ d ∷ s) h =
    let (p, ps, e, m) = ends_with-slash (d ∷ s) (ground arith) in
    elim (Bool-cases (c == b'/')) [
      | inl y ↦ ([], p ∷ ps, rw y (ap (λ t. [] ∷ t) e), rw m (ground arith))
      | inr n ↦ (c ∷ p, ps, rw n (ap (push_first c) e), m)
    ]

any_empty-unsafe : (ps : List Text) → any is_empty ps ≡ true → ¬ (All IsSafePart ps)
any_empty-unsafe [] h a = cc
any_empty-unsafe ([] ∷ ps) h (a, _) = a.filled refl
any_empty-unsafe ((_ ∷ _) ∷ ps) h (_, a) = any_empty-unsafe ps h a

safe-ends_with : (s : Text) → All IsSafePart (split b'/' s) → ends_with s (codes "/") ≡ false
safe-ends_with s h = elim (Bool-cases (ends_with s (codes "/"))) [
  | inr n ↦ n
  | inl y ↦ let (p, ps, e, m) = ends_with-slash s y in absurd (any_empty-unsafe ps m (rw e at h).1)
]

safe-starts_with :
    (s : Text)
    → All IsSafePart (split b'/' s)
    → (starts_with s (codes "/") ≡ false) × (ltb 0 (length s) ≡ true)
unfolding split starts_with
safe-starts_with [] h = absurd (h.0.filled refl)
safe-starts_with (c ∷ s) h = elim (Bool-cases (c == b'/')) [
  | inl y ↦ absurd ((rw y at h).0.filled refl)
  | inr n ↦ (rw n, ground arith)
]

valid_encoded-split :
    (s bytes : Text)
    → valid_encoded s bytes ≡ true
    → (length bytes ≤ 4096) × (all is_safe_part (split b'/' s) ≡ true)
unfolding valid_encoded
valid_encoded-split s bytes h =
    let (front, parts) = and-split _ _ h in
    let (front₁, _) = and-split _ _ front in
    let (front₂, _) = and-split _ _ front₁ in (leb→le _ _ (and-split _ _ front₂).1, parts)

valid_path_of : (s bytes : Text) → encode s ≡ some bytes → valid_path s ≡ ok (valid_encoded s bytes)
unfolding valid_path
valid_path_of s bytes e = rw (e, valid_path)

valid_path-encoded :
    (s : Text)
    → valid_path s ≡ ok true
    → (bytes : Text) × (encode s ≡ some bytes) × (valid_encoded s bytes ≡ true)
unfolding valid_path
valid_path-encoded s h = go (encode s) refl h
  where
    go :
        (o : Option Text)
        → encode s ≡ o
        → (elim o as (λ x. Result Bool) [
          | none ↦ err unicode_encode_error
          | some bytes ↦ ok (valid_encoded s bytes)
        ])
          ≡ ok true
        → (bytes : Text) × (encode s ≡ some bytes) × (valid_encoded s bytes ≡ true)
    go none e q = absurd (cc)
    go (some bytes) e q = (bytes, e, cc)

text_of : {o : Option Text} {s t : Text} → o ≡ some t → o ≡ some s → t ≡ s
text_of p q = cc

-- `valid_path` accepts a text exactly when it is at most 4096 characters long and each of its
-- parts between slashes is a safe name; no part is empty, so it neither begins nor ends in a
-- slash.
pub valid_path_iff :
    (s : Text) → (valid_path s ≡ ok true) ↔ (All IsSafePart (split b'/' s) × (length s ≤ 4096))
unfolding valid_encoded
valid_path_iff s = (to, from)
  where
    to : valid_path s ≡ ok true → All IsSafePart (split b'/' s) × (length s ≤ 4096)
    to h =
        let (bytes, e, v) = valid_path-encoded s h in
        let (size, parts) = valid_encoded-split s bytes v in
        let a = (all_safe_iff _).0 parts in
        let same : bytes ≡ s = text_of e (encode-ascii s (parts-ascii s (All-plain _ a))) in
        (a, subst (λ b. length b ≤ 4096) same size)

    from : All IsSafePart (split b'/' s) × (length s ≤ 4096) → valid_path s ≡ ok true
    from (a, n) =
        let e = encode-ascii s (parts-ascii s (All-plain _ a)) in
        let (open_slash, some_length) = safe-starts_with s a in
        valid_path_of s s e
        ∙ ap ok (
            rw (
              valid_encoded,
              some_length,
              le→leb _ _ n,
              open_slash,
              safe-ends_with s a,
              (all_safe_iff _).1 a,
            ))
