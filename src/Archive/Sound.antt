-- ===== src/Archive/Sound.antt =====
-- What an accepted archive guarantees: nothing in it can be written outside its root.
use clamp.Prelude.{
  ℕ, ◌+◌, ◌≡◌, ◌≤◌, refl, sym, ◌∙◌, ap, inl, inr, Bool, true, false, ◌||◌, List, [], ◌∷◌, ◌++◌,
  Bool-cases, if◌then◌else◌, all, All, arith, append-nil, subst, append_assoc, and-split, Option,
  leb, suc,
}
use mathlib.Core.Bool.{false≢true}
use clamp.Prelude.Results.{◌>>=◌, ok, err, Result, >>=-eq-ok, ok_inj, require-ok}
use clamp.Json.{pos, negsuc, ◌+ℤ◌}
use clamp.Text.{Text, text_eq, mem}
use clamp.Text.Equality.{text_eq_iff, text_eq_sound, text_eq_refl}
use clamp.Archive.{
  Member, Tally, no_tally, is_file, trimmed, has_repeat, tally_member, tally_members,
  as_invalid_archive, max_archive, archive_entries, finished, at_most, same_files, ArchiveStat, ℤ,
  check_request, pos, ◌+ℤ◌, negsuc,
}
use clamp.Archive.Members.{IsSafeMember, add_member, relative, tally_member_sound}

-- The paths of the files below the root, the names of all members, and the bytes of the files, where
-- a negative size counts as none.
abbrev pub file_paths : Text → List Member → List Text
file_paths root [] = []
file_paths root (m ∷ ms) =
    if is_file m.kind then relative root m ∷ file_paths root ms else file_paths root ms

abbrev pub member_names : List Member → List Text
member_names [] = []
member_names (m ∷ ms) = trimmed m.name ∷ member_names ms

abbrev up : ℤ → ℕ
up (pos n) = n
up (negsuc _) = 0

abbrev down : ℤ → ℕ
down (pos _) = 0
down (negsuc n) = suc n

abbrev pub file_bytes : List Member → ℕ
file_bytes [] = 0
file_bytes (m ∷ ms) = if is_file m.kind then up m.size + file_bytes ms else file_bytes ms

-- What the negative sizes of files take away.
abbrev pub missing_bytes : List Member → ℕ
missing_bytes [] = 0
missing_bytes (m ∷ ms) = if is_file m.kind then down m.size + missing_bytes ms else missing_bytes ms

-- An integer is a sum less another.
abbrev IsDifference : ℤ → ℕ → ℕ → Type 0
IsDifference z p n = up z + n ≡ p + down z

sum-IsDifference :
    (z w : ℤ) (p n : ℕ) → IsDifference z p n → IsDifference (z +ℤ w) (p + up w) (n + down w)
unfolding ◌+ℤ◌
sum-IsDifference (pos a) (pos b) p n e = omega arith
sum-IsDifference (pos a) (negsuc b) p n e = elim (Bool-cases (leb (suc b) a)) [
  | inl y ↦ rw y (ground (arith, e))
  | inr f ↦ rw f (ground (arith, e))
]
sum-IsDifference (negsuc a) (pos b) p n e = elim (Bool-cases (leb (suc a) b)) [
  | inl y ↦ rw y (ground (arith, e))
  | inr f ↦ rw f (ground (arith, e))
]
sum-IsDifference (negsuc a) (negsuc b) p n e = omega arith

-- None of the names stands among the others.
abbrev Apart : List Text → List Text → Type 0
Apart names others = All (λ n. mem n others ≡ false) names

Apart-cons :
    (name : Text) (names others : List Text)
    → Apart names (name ∷ others)
    → Apart names others × (mem name names ≡ false)
unfolding mem
Apart-cons name [] others h = (tt, refl)
Apart-cons name (n ∷ names) others (h, hs) =
    let (rest, new) = Apart-cons name names others hs in
    ((ground arith, rest), ground (arith, text_eq_iff n name, text_eq_iff name n))

-- What the loop comes to, from any tally.
record IsTallied (root : Text) (required : List Text) (ms : List Member) (t u : Tally)
    : Type 0 where
  safe : All (IsSafeMember root required) ms
  apart : Apart (member_names ms) t.names
  distinct : has_repeat (member_names ms) ≡ false
  kept : u.members ≡ t.members ++ ms
  summed :
      (p n : ℕ)
      → IsDifference t.total p n
      → IsDifference u.total (p + file_bytes ms) (n + missing_bytes ms)
  filed : (s : Text) → mem s u.files ≡ (mem s (file_paths root ms) || mem s t.files)

add_member-names :
    (root : Text) (m : Member) (t : Tally)
    → ((add_member root m t).members ≡ t.members ++ (m ∷ []))
      × ((add_member root m t).names ≡ trimmed m.name ∷ t.names)
add_member-names root m t = elim (Bool-cases (is_file m.kind)) [
  | inl y ↦ rw y (refl, refl)
  | inr n ↦ rw n (refl, refl)
]

add_member-total :
    (root : Text) (m : Member) (t : Tally) (ms : List Member) (z : ℤ) (p n : ℕ)
    → ((q k : ℕ)
        → IsDifference (add_member root m t).total q k
        → IsDifference z (q + file_bytes ms) (k + missing_bytes ms))
    → IsDifference t.total p n
    → IsDifference z (p + file_bytes (m ∷ ms)) (n + missing_bytes (m ∷ ms))
add_member-total root m t ms z p n k d = elim (Bool-cases (is_file m.kind)) [
  | inl y ↦
      let later =
        k (p + up m.size) (n + down m.size) (rw y (sum-IsDifference t.total m.size p n d)) in
      rw y (omega (arith, later))
  | inr f ↦ rw f (k p n (rw f d))
]

add_member-files :
    (root : Text) (m : Member) (t : Tally) (ms : List Member) (s : Text)
    → (mem s (file_paths root ms) || mem s (add_member root m t).files)
      ≡ (mem s (file_paths root (m ∷ ms)) || mem s t.files)
unfolding mem
add_member-files root m t ms s = elim (Bool-cases (is_file m.kind)) [
  | inl y ↦ rw y (ground arith)
  | inr n ↦ rw n refl
]

tally_members_sound :
    (root : Text) (required : List Text) (ms : List Member) (t u : Tally)
    → tally_members root required ms t ≡ ok u
    → IsTallied root required ms t u
unfolding tally_members has_repeat
tally_members_sound root required [] t u e =
    let same = ok_inj e in
    record {
      safe = tt;
      apart = tt;
      distinct = refl;
      kept = ap (λ (x : Tally). x.members) same ∙ sym (append-nil t.members);
      summed = λ p n d.
          subst (λ (x : Tally). IsDifference x.total (p + 0) (n + 0)) (sym same) (omega (arith, d));
      filed = λ s. unfold mem in ap (λ (x : Tally). mem s x.files) same;
    }
tally_members_sound root required (m ∷ ms) t u e =
    let (v, e₁, e₂) = >>=-eq-ok (tally_member root required m t) _ e in
    let (safe, new, same) = tally_member_sound root required m t v e₁ in
    let r =
      tally_members_sound root required ms (add_member root m t) u
        (subst (λ x. tally_members root required ms x ≡ ok u) same e₂) in
    let (members, names) = add_member-names root m t in
    let (apart, alone) =
      Apart-cons (trimmed m.name) (member_names ms) t.names
        (subst (Apart (member_names ms)) names r.apart) in
    record {
      safe = (safe, r.safe);
      apart = (new, apart);
      distinct = rw alone r.distinct;
      kept = r.kept ∙ ap (λ xs. xs ++ ms) members ∙ append_assoc t.members (m ∷ []) ms;
      summed = λ p n d. add_member-total root m t ms u.total p n r.summed d;
      filed = λ s. r.filed s ∙ add_member-files root m t ms s;
    }

-- Everything that an accepted archive comes to.
pub record IsInspected (opened : Result (List Member)) (root : Text) (required : List Text)
    (ms : List Member) : Type 0 where
  pub listed : opened ≡ ok ms
  pub safe : All (IsSafeMember root required) ms
  pub distinct : has_repeat (member_names ms) ≡ false
  pub bounded : file_bytes ms ≤ max_archive + missing_bytes ms
  pub no_more : all (λ s. mem s required) (file_paths root ms) ≡ true
  pub no_less : all (λ s. mem s (file_paths root ms)) required ≡ true

as_invalid_archive-ok : (r : Result Tally) (t : Tally) → as_invalid_archive r ≡ ok t → r ≡ ok t
unfolding as_invalid_archive
as_invalid_archive-ok (ok v) t e = e
as_invalid_archive-ok (err x) t e = absurd (ground arith)

all-pointwise :
    (p q : Text → Bool) → ((s : Text) → p s ≡ q s) → (xs : List Text) → all p xs ≡ all q xs
all-pointwise p q h [] = refl
all-pointwise p q h (x ∷ xs) = rw (h x, all-pointwise p q h xs)

all-mem :
    (p : Text → Bool) (s : Text) (xs : List Text) → all p xs ≡ true → mem s xs ≡ true → p s ≡ true
unfolding mem
all-mem p s [] h m = absurd (false≢true m)
all-mem p s (x ∷ xs) h m =
    let (here, later) = and-split (p x) (all p xs) h in
    elim (Bool-cases (text_eq s x)) [
      | inl y ↦ rw (text_eq_sound s x y) here
      | inr n ↦ all-mem p s xs later (rw n at m)
    ]

all_of_mem :
    (p : Text → Bool) (xs : List Text)
    → ((s : Text) → mem s xs ≡ true → p s ≡ true)
    → all p xs ≡ true
unfolding mem
all_of_mem p [] h = refl
all_of_mem p (x ∷ xs) h =
    rw (h x (rw (text_eq_refl x)), all_of_mem p xs (λ s m. h s (ground arith)))

sum-bounded : (z : ℤ) (a b m : ℕ) → IsDifference z (0 + a) (0 + b) → at_most z m ≡ true → a ≤ m + b
unfolding at_most
sum-bounded (pos z) a b m e h = ground (arith, e, h)
sum-bounded (negsuc z) a b m e h = omega (arith, e)

or-mem_nil : (s : Text) (b : Bool) → (b || mem s []) ≡ b
unfolding mem
or-mem_nil s true = refl
or-mem_nil s false = refl

-- For every archive: when `archive_entries` returns, it returns the members as they were listed;
-- each is a file or a directory whose name, without final slashes, is safe parts below the root,
-- no name occurs twice, the files are those required and no others, each allowed by a rule of
-- the inventory, and they hold at most 64 MiB and what the negative sizes among them, if any, come
-- to.
pub archive_entries_sound :
    (lstat : Result ArchiveStat) (opened : Result (List Member)) (version revision root : Text)
    (maximum : Option ℤ) (required : List Text) (ms : List Member)
    → archive_entries lstat opened version revision root maximum required ≡ ok ms
    → IsInspected opened root required ms
unfolding archive_entries finished same_files
archive_entries_sound lstat opened version revision root maximum required ms e =
    let (limit, _, e₁) = >>=-eq-ok (check_request version revision root maximum required) _ e in
    let (observed, _, e₂) = >>=-eq-ok lstat _ e₁ in
    let (_, e₃) = require-ok observed.is_regular "unsafe runtime archive" _ e₂ in
    let (_, e₄) = require-ok (leb observed.size limit) "runtime archive too large" _ e₃ in
    let (t, inspected, e₅) =
      >>=-eq-ok (as_invalid_archive (opened >>= λ ms. tally_members root required ms no_tally)) _
        e₄ in
    let (given, is_given, walked) = >>=-eq-ok opened _ (as_invalid_archive-ok _ t inspected) in
    let r = tally_members_sound root required given no_tally t walked in
    let (small, e₆) = require-ok (at_most t.total max_archive) _ _ e₅ in
    let (same, e₇) = require-ok _ _ _ e₆ in
    let (no_more, no_less) = and-split _ _ same in
    let eq : given ≡ ms = sym r.kept ∙ sym (ok_inj e₇) in
    let filed : (s : Text) → mem s t.files ≡ mem s (file_paths root given) =
      λ s. r.filed s ∙ or-mem_nil s _ in
    subst (IsInspected opened root required) eq (record {
      listed = is_given;
      safe = r.safe;
      distinct = r.distinct;
      bounded =
          sum-bounded t.total (file_bytes given) (missing_bytes given) max_archive
            (r.summed 0 0 refl) small;
      no_more =
          all_of_mem _ (file_paths root given) (λ s m. all-mem _ s t.files no_more (filed s ∙ m));
      no_less = sym (all-pointwise _ _ filed required) ∙ no_less;
    })
