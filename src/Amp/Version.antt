-- ===== src/Amp/Version.antt =====
-- The versions that `amp_version_result` of runtime/templates/runtime_metadata.py finds supported.
use clamp.Prelude.{
  ℕ, ◌-◌, ◌≤◌, ◌≡◌, refl, sym, ap, ◌∙◌, subst, true, List, [], ◌∷◌, ◌++◌, length, take, any, ltb,
  is_empty, arith, Option, none, some, inl, inr, Bool-cases, length-append, suc,
}
use clamp.Text.{Text, text_eq}
use clamp.Text.Equality.{text_eq_iff, text_eq_refl}
use clamp.Regex.{run}
use clamp.Regex.Runs.{IsPlain, Language, run_sound, fullmatch_iff}
use clamp.Amp.{
  amp_pattern, in_front, behind, first_version, version_behind, find_version, amp_number, least_amp,
  supported, version_status, amp_version_result, is_amp_version,
}

plain : IsPlain amp_pattern
plain = ((tt, (tt, (tt, (tt, tt)))), ((tt, tt), ((tt, (tt, tt)), (tt, tt))))

some_inj : {a b : Text} → some a ≡ some b → b ≡ a
some_inj e = cc

-- What is taken of a text in front of the rest that is left is the front.
take_front : (v u : Text) → take (length (v ++ u) - length u) (v ++ u) ≡ v
take_front [] u = let e : length u - length u ≡ 0 = omega arith in rw e refl
take_front (c ∷ v) u =
    let e : suc (length (v ++ u)) - length u ≡ suc (length (v ++ u) - length u) =
      omega (arith, length-append v u) in
    rw e (ap (λ x. c ∷ x) (take_front v u))

-- The text that is taken belongs to one of the rests.
first_version-rest :
    (total : ℕ) (t : Text) (us : List Text) {v : Text}
    → first_version total t us ≡ some v
    → (u : Text) × (any (text_eq u) us ≡ true) × (v ≡ take (length t - length u) t)
unfolding first_version
first_version-rest total t [] e = absurd (cc)
first_version-rest total t (u ∷ us) e = elim (Bool-cases (is_empty (run total behind u))) [
  | inl y ↦
      let (u', among, is) = first_version-rest total t us (rw y at e) in (u', ground arith, is)
  | inr n ↦ (u, rw (text_eq_refl u) refl, some_inj (rw n at e))
]

-- The version that is found is of the pattern.
first_version-IsAmp :
    (total : ℕ) (t : Text) {v : Text}
    → first_version total t (run total amp_pattern t) ≡ some v
    → is_amp_version v ≡ true
unfolding is_amp_version
first_version-IsAmp total t {v} e =
    let (u, among, is) = first_version-rest total t (run total amp_pattern t) e in
    let (w, u', split, l, same) = run_sound total amp_pattern plain (text_eq u) t among in
    let rest : u ≡ u' = (text_eq_iff u u').0 same in
    let front : v ≡ w =
      is
      ∙ subst (λ x. take (length t - length x) t ≡ take (length t - length u') t) (sym rest) refl
      ∙ subst (λ x. take (length x - length u') x ≡ w) (sym split) (take_front w u') in
    (fullmatch_iff amp_pattern v plain).1 (subst (λ x. Language amp_pattern x) (sym front) l)

version_behind-IsAmp :
    (total : ℕ) (ts : List Text) {v : Text}
    → version_behind total ts ≡ some v
    → is_amp_version v ≡ true
unfolding version_behind
version_behind-IsAmp total [] e = absurd (cc)
version_behind-IsAmp total (t ∷ ts) {v} e =
    found (first_version total t (run total amp_pattern t)) (λ w. first_version-IsAmp total t)
      (version_behind-IsAmp total ts) e
  where
    found :
        (o : Option Text)
        → ((w : Text) → o ≡ some w → is_amp_version w ≡ true)
        → (version_behind total ts ≡ some v → is_amp_version v ≡ true)
        → (elim o as (λ _. Option Text) [ none ↦ version_behind total ts | some w ↦ some w ])
          ≡ some v
        → is_amp_version v ≡ true
    found none f k q = k q
    found (some w) f k q = f v q

find_version-IsAmp :
    (total : ℕ) (s : Text) {v : Text} → find_version total s ≡ some v → is_amp_version v ≡ true
unfolding find_version
find_version-IsAmp total [] e = version_behind-IsAmp total _ e
find_version-IsAmp total (c ∷ s) {v} e =
    found (version_behind total (run total in_front (c ∷ s))) (λ w. version_behind-IsAmp total _)
      (find_version-IsAmp total s) e
  where
    found :
        (o : Option Text)
        → ((w : Text) → o ≡ some w → is_amp_version w ≡ true)
        → (find_version total s ≡ some v → is_amp_version v ≡ true)
        → (elim o as (λ _. Option Text) [ none ↦ find_version total s | some w ↦ some w ]) ≡ some v
        → is_amp_version v ≡ true
    found none f k q = k q
    found (some w) f k q = f v q

supported_inj : {a b : Text} → supported a ≡ supported b → b ≡ a
supported_inj e = cc

-- What `version_status` accepts.
version_status-supported :
    (o : Option Text) {v : Text}
    → version_status o ≡ supported v
    → (o ≡ some v) × (length v ≤ 64) × (least_amp ≤ amp_number v)
unfolding version_status
version_status-supported none e = absurd (cc)
version_status-supported (some w) {v} e = elim (Bool-cases (ltb 64 (length w))) [
  | inl y ↦ absurd (cc)
  | inr n ↦ elim (Bool-cases (ltb (amp_number w) least_amp)) [
    | inl y ↦ absurd (cc)
    | inr m ↦
        let is : v ≡ w = supported_inj (rw (n, m) at e) in
        (
          ap some (sym is),
          subst (λ x. length x ≤ 64) (sym is) (ground arith),
          subst (λ x. least_amp ≤ amp_number x) (sym is) (ground arith),
        )
  ]
]

-- For every output: a version that `amp_version_result` finds supported is one that `enroll_amp`
-- accepts, has at most 64 characters, and its number is at least 1789113641.
pub amp_version_result_sound :
    (observed v : Text)
    → amp_version_result observed ≡ supported v
    → (is_amp_version v ≡ true) × (length v ≤ 64) × (least_amp ≤ amp_number v)
unfolding amp_version_result
amp_version_result_sound observed v e =
    let (found, short, recent) =
      version_status-supported (find_version (length observed) observed) e in
    (find_version-IsAmp (length observed) observed found, short, recent)
