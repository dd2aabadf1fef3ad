-- ===== src/Json/Parse.antt =====
-- What `parse_json` lets through.
use clamp.Prelude.{none, ◌↔◌, sym, ◌≤◌, ◌≡◌, refl, ◌∙◌, ap, false, arith, some, Option, subst}
use clamp.Prelude.Results.{Result, ok, err, >>=-eq-ok}
use clamp.Text.{Text}
use clamp.Utf8.{Bytes, decode}
use clamp.Json.{
  Raw, RawItems, RawFields, Document, Value, null, bool, int, str, list, dict, Items, nil, cons,
  Fields, end, field, broken, float, constant, pairs, build, build_items, build_fields, load,
  as_invalid, parse_json, parse_text, max_nodes, bounded,
}
use clamp.Json.Pairs.{HasDistinctKeys, pairs_iff}
use clamp.Json.Bounds.{IsShallow, nodes, bounded_iff}

-- The value is the scanned tree, and the tree has no place where a hook or the scanner fails.
abbrev mutual
  pub Reads : Raw → Value → Type 0
  Reads null v = v ≡ null
  Reads (bool b) v = v ≡ bool b
  Reads (int z) v = v ≡ int z
  Reads (str s) v = v ≡ str s
  Reads (list xs) v = (vs : Items) × (v ≡ list vs) × ReadsAll xs vs
  Reads (dict fs) v = (vs : Fields) × (v ≡ dict vs) × ReadsFields fs vs × HasDistinctKeys vs
  Reads _ v = ⊥

  pub ReadsAll : RawItems → Items → Type 0
  ReadsAll nil ws = ws ≡ nil
  ReadsAll (cons x xs) ws =
      (v : Value) × (vs : Items) × (ws ≡ cons v vs) × Reads x v × ReadsAll xs vs

  pub ReadsFields : RawFields → Fields → Type 0
  ReadsFields end ws = ws ≡ end
  ReadsFields (field k x fs) ws =
      (v : Value) × (vs : Fields) × (ws ≡ field k v vs) × Reads x v × ReadsFields fs vs

ok_inj {ℓ} : {A : Type ℓ} {a b : A} → Result.ok a ≡ ok b → b ≡ a
ok_inj e = cc

mutual
  unfolding build

  build_sound : (x : Raw) (v : Value) → build x ≡ ok v → Reads x v
  build_sound null v e = ok_inj e
  build_sound float v e = absurd (ground arith)
  build_sound constant v e = absurd (ground arith)
  build_sound (bool b) v e = ok_inj e
  build_sound (int z) v e = ok_inj e
  build_sound (str s) v e = ok_inj e
  build_sound (list xs) v e =
      let (vs, e₁, e₂) = >>=-eq-ok (build_items xs) _ e in
      (vs, ok_inj e₂, build_items_sound xs vs e₁)
  build_sound (dict fs) v e =
      let (vs, e₁, e₂) = >>=-eq-ok (build_fields fs) _ e in
      let (d, e₃, e₄) = >>=-eq-ok (pairs vs) _ e₂ in
      let (same, distinct) = (pairs_iff vs d).0 e₃ in
      (vs, ok_inj e₄ ∙ ap dict same, build_fields_sound fs vs e₁, distinct)
  build_sound (broken x) v e = absurd (ground arith)

  build_items_sound : (xs : RawItems) (vs : Items) → build_items xs ≡ ok vs → ReadsAll xs vs
  build_items_sound nil vs e = ok_inj e
  build_items_sound (cons x xs) ws e =
      let (v, e₁, e₂) = >>=-eq-ok (build x) _ e in
      let (vs, e₃, e₄) = >>=-eq-ok (build_items xs) _ e₂ in
      (v, vs, ok_inj e₄, build_sound x v e₁, build_items_sound xs vs e₃)

  build_fields_sound : (fs : RawFields) (vs : Fields) → build_fields fs ≡ ok vs → ReadsFields fs vs
  build_fields_sound end vs e = ok_inj e
  build_fields_sound (field k x fs) ws e =
      let (v, e₁, e₂) = >>=-eq-ok (build x) _ e in
      let (vs, e₃, e₄) = >>=-eq-ok (build_fields fs) _ e₂ in
      (v, vs, ok_inj e₄, build_sound x v e₁, build_fields_sound fs vs e₃)

mutual
  unfolding build

  build_complete : (x : Raw) (v : Value) → Reads x v → build x ≡ ok v
  build_complete null v r = rw r
  build_complete float v r = absurd r
  build_complete constant v r = absurd r
  build_complete (bool b) v r = rw r
  build_complete (int z) v r = rw r
  build_complete (str s) v r = rw r
  build_complete (list xs) v (vs, e, r) = rw (e, build_items_complete xs vs r)
  build_complete (dict fs) v (vs, e, r, d) =
      rw (e, build_fields_complete fs vs r, (pairs_iff vs vs).1 (refl, d))
  build_complete (broken x) v r = absurd r

  build_items_complete : (xs : RawItems) (vs : Items) → ReadsAll xs vs → build_items xs ≡ ok vs
  build_items_complete nil vs r = rw r
  build_items_complete (cons x xs) ws (v, vs, e, r, rs) =
      rw (e, build_complete x v r, build_items_complete xs vs rs)

  build_fields_complete :
      (fs : RawFields) (vs : Fields) → ReadsFields fs vs → build_fields fs ≡ ok vs
  build_fields_complete end vs r = rw r
  build_fields_complete (field k x fs) ws (v, vs, e, r, rs) =
      rw (e, build_complete x v r, build_fields_complete fs vs rs)

-- What `parse_json` accepts of a text: a whole document with no failing place in it, whose
-- dictionaries have distinct keys, within the limits.
pub record Accepted (d : Document) (v : Value) : Type 0 where
  pub whole : d.extra ≡ false
  pub read : Reads d.tree v
  pub shallow : IsShallow 1 v
  pub small : nodes v ≤ max_nodes

as_invalid-ok : (r : Result Value) {v : Value} → as_invalid r ≡ ok v → r ≡ ok v
unfolding as_invalid
as_invalid-ok (ok w) e = e
as_invalid-ok (err x) e = absurd (ground arith)

load_iff : (d : Document) (v : Value) → (load d ≡ ok v) ↔ ((d.extra ≡ false) × Reads d.tree v)
unfolding load
load_iff d v = (to, λ r. rw (build_complete d.tree v r.1, r.0))
  where
    to : load d ≡ ok v → (d.extra ≡ false) × Reads d.tree v
    to e =
        let (w, e₁, e₂) = >>=-eq-ok (build d.tree) _ e in
        let same : d.extra ≡ false = ground arith in
        let eq : w ≡ v = ground arith in (same, build_sound d.tree v (rw eq at e₁))

parse_text-ok :
    (loads : Text → Document) (o : Option Text) (v : Value)
    → parse_text loads o ≡ ok v
    → (t : Text) × (o ≡ some t) × (load (loads t) ≡ ok v)
unfolding parse_text
parse_text-ok loads none v e = absurd (ground arith)
parse_text-ok loads (some t) v e = (t, refl, e)

-- For every scanner: `parse_json` returns a value exactly for UTF-8 text that the scanner reads to
-- the end as that value, with distinct keys in each dictionary, only dictionaries, lists, texts
-- and integers in it, at most 8 deep and 1024 in number.
pub parse_json_iff :
    (loads : Text → Document) (raw : Bytes) (v : Value)
    → (parse_json loads raw ≡ ok v) ↔ ((t : Text) × (decode raw ≡ some t) × Accepted (loads t) v)
unfolding parse_json
parse_json_iff loads raw v = (
  λ e.
      let (w, e₁, e₂) = >>=-eq-ok (as_invalid (parse_text loads (decode raw))) _ e in
      let (n, e₃, e₄) = >>=-eq-ok (bounded w 1 0) _ e₂ in
      let eq : w ≡ v = ok_inj (sym e₄) in
      let (t, text, read) = parse_text-ok loads (decode raw) v (as_invalid-ok _ e₁ ∙ ap ok eq) in
      let (whole, reads) = (load_iff (loads t) v).0 read in
      let (shallow, _, small) = (bounded_iff v n).0 (subst (λ x. bounded x 1 0 ≡ ok n) eq e₃) in
      (t, text, record { whole = whole; read = reads; shallow = shallow; small = small }),
  λ h.
      let a = h.2 in
      rw (
        h.1,
        parse_text,
        (load_iff (loads h.0) v).1 (a.whole, a.read),
        as_invalid,
        (bounded_iff v (nodes v)).1 (a.shallow, refl, a.small),
      ),
)
