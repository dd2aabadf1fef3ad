-- ===== src/Archive/Members.antt =====
-- What the tests on one member of an archive establish.
use clamp.Prelude.{
  suc, ◌≡◌, refl, sym, ◌∙◌, ap, inl, inr, Bool, true, false, not, List, [], ◌∷◌, ◌++◌, Bool-cases,
  if◌then◌else◌, all, any, drop, length, All, arith,
}
use mathlib.Core.Bool.{true≢false}
use clamp.Prelude.Results.{ok, >>=-eq-ok, ok_inj, require-ok, if_not-ok}
use clamp.Json.{◌+ℤ◌}
use clamp.Text.{Text, mem, split}
use clamp.Text.Equality.{text_eq_sound}
use clamp.Paths.{is_safe_part}
use clamp.Paths.Safe.{IsSafePart, all_safe_iff}
use clamp.Archive.{
  Member, Tally, is_file, is_unsafe_kind, trimmed, is_bad_part, is_bad_path, is_unexpected,
  tally_file, tally_member,
}

abbrev pub relative : Text → Member → Text
relative root m = drop (suc (length root)) (trimmed m.name)

-- A member that may be written below the root.
pub record IsSafeMember (root : Text) (required : List Text) (m : Member) : Type 0 where
  pub plain : is_unsafe_kind m.kind ≡ false
  pub rooted : (rest : List Text) × (split b'/' (trimmed m.name) ≡ root ∷ rest)
  pub safe : All IsSafePart (split b'/' (trimmed m.name))
  pub expected : is_file m.kind ≡ true → is_unexpected required (relative root m) ≡ false

-- What the loop's body adds for an accepted member.
abbrev add_file : Text → Member → Tally → Tally
add_file root m t = record t { files = relative root m ∷ t.files; total = t.total +ℤ m.size }

abbrev pub add_member : Text → Member → Tally → Tally
add_member root m t =
    let named : Tally = record t { names = trimmed m.name ∷ t.names } in
    let counted : Tally = if is_file m.kind then add_file root m named else named in
    record counted { members = counted.members ++ (m ∷ []) }

not-true : (b : Bool) → not b ≡ true → b ≡ false
not-true true h = sym h
not-true false h = refl

bad_part-safe : (p : Text) → is_bad_part p ≡ false → is_safe_part p ≡ true
unfolding is_bad_part is_safe_part
bad_part-safe p h = ground arith

no_bad_parts-safe : (ps : List Text) → any is_bad_part ps ≡ false → all is_safe_part ps ≡ true
no_bad_parts-safe [] h = refl
no_bad_parts-safe (p ∷ ps) h = ground (arith, bad_part-safe p, no_bad_parts-safe ps)

bad_path-safe :
    (root : Text) (ps : List Text)
    → is_bad_path root ps ≡ false
    → ((rest : List Text) × (ps ≡ root ∷ rest)) × (all is_safe_part ps ≡ true)
unfolding is_bad_path
bad_path-safe root [] h = absurd (ground arith)
bad_path-safe root (p ∷ ps) h = (
  (ps, ap (λ q. q ∷ ps) (text_eq_sound p root (ground arith))),
  no_bad_parts-safe (p ∷ ps) (ground arith),
)

tally_file_sound :
    (required : List Text) (path : Text) (m : Member) (t u : Tally)
    → tally_file required path m t ≡ ok u
    → (is_unexpected required path ≡ false)
      × (u ≡ record t { files = path ∷ t.files; total = t.total +ℤ m.size })
unfolding tally_file
tally_file_sound required path m t u e =
    let (expected, same) = if_not-ok (is_unexpected required path) _ _ e in (expected, ok_inj same)

-- The tally of one member, its name noted already.
tally_kind_sound :
    (root : Text) (required : List Text) (m : Member) (t u : Tally)
    → (if is_file m.kind then tally_file required (relative root m) m t else ok t) ≡ ok u
    → (is_file m.kind ≡ true → is_unexpected required (relative root m) ≡ false)
      × (u ≡ (if is_file m.kind then add_file root m t else t))
tally_kind_sound root required m t u e = elim (Bool-cases (is_file m.kind)) [
  | inl y ↦
      let (expected, same) = tally_file_sound required (relative root m) m t u (rw y at e) in
      (λ _. expected, rw y same)
  | inr n ↦ (λ y. absurd (true≢false (sym y ∙ n)), rw n (ok_inj (rw n at e)))
]

pub tally_member_sound :
    (root : Text) (required : List Text) (m : Member) (t u : Tally)
    → tally_member root required m t ≡ ok u
    → IsSafeMember root required m
      × (mem (trimmed m.name) t.names ≡ false)
      × (u ≡ add_member root m t)
unfolding tally_member
tally_member_sound root required m t u e =
    let name : Text = trimmed m.name in
    let named : Tally = record t { names = name ∷ t.names } in
    let (kind, e₁) = require-ok (not (is_unsafe_kind m.kind)) "unsafe runtime archive entry" _ e in
    let (path, e₂) =
      require-ok (not (is_bad_path root (split b'/' name))) "unsafe runtime archive path" _ e₁ in
    let (new, e₃) = require-ok (not (mem name t.names)) "duplicate runtime archive entry" _ e₂ in
    let (c, counted, e₄) =
      >>=-eq-ok (if is_file m.kind then tally_file required (relative root m) m named else ok named)
        _ e₃ in
    let (expected, same) = tally_kind_sound root required m named c counted in
    let (rooted, safe) = bad_path-safe root (split b'/' name) (not-true _ path) in
    (
      record {
        plain = not-true _ kind;
        rooted = rooted;
        safe = (all_safe_iff _).0 safe;
        expected = expected;
      },
      not-true _ new,
      ok_inj e₄ ∙ ap (λ (x : Tally). record x { members = x.members ++ (m ∷ []) }) same,
    )
