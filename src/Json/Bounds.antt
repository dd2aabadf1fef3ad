-- ===== src/Json/Bounds.antt =====
-- `bounded` accepts exactly the values of supported kinds that fit in the limits, and counts
-- their nodes.
use clamp.Prelude.{ℕ, suc, ◌+◌, ◌≤◌, ◌≡◌, ◌↔◌, arith, ap, ◌∙◌}
use clamp.Prelude.Results.{Result, ok, >>=-eq-ok}
use clamp.Json.{
  Value, null, bool, int, str, list, dict, Items, nil, cons, Fields, end, field, bounded,
  bounded_items, bounded_fields, max_depth, max_nodes, within_limits,
}

-- The number of values in a value, itself included.
abbrev mutual
  pub nodes : Value → ℕ
  nodes (list xs) = suc (nodes_items xs)
  nodes (dict fs) = suc (nodes_fields fs)
  nodes _ = 1

  pub nodes_items : Items → ℕ
  nodes_items nil = 0
  nodes_items (cons v vs) = nodes v + nodes_items vs

  pub nodes_fields : Fields → ℕ
  nodes_fields end = 0
  nodes_fields (field k v fs) = nodes v + nodes_fields fs

-- A value that stands at a depth, with all that it holds, is a dictionary, a list, a text or an
-- integer, and stands no deeper than the limit.
abbrev mutual
  pub IsShallow : ℕ → Value → Type 0
  IsShallow depth null = ⊥
  IsShallow depth (bool b) = ⊥
  IsShallow depth (int z) = depth ≤ max_depth
  IsShallow depth (str s) = depth ≤ max_depth
  IsShallow depth (list xs) = (depth ≤ max_depth) × AllShallow (depth + 1) xs
  IsShallow depth (dict fs) = (depth ≤ max_depth) × FieldsShallow (depth + 1) fs

  pub AllShallow : ℕ → Items → Type 0
  AllShallow depth nil = Unit {0}
  AllShallow depth (cons v vs) = IsShallow depth v × AllShallow depth vs

  pub FieldsShallow : ℕ → Fields → Type 0
  FieldsShallow depth end = Unit {0}
  FieldsShallow depth (field k v fs) = IsShallow depth v × FieldsShallow depth fs

within_limits_complete :
    (depth count : ℕ) (rest : Result ℕ) {n : ℕ}
    → depth ≤ max_depth
    → count ≤ max_nodes
    → rest ≡ ok n
    → within_limits depth count rest ≡ ok n
within_limits_complete depth count rest d c e = ground arith

mutual
  unfolding bounded

  bounded_complete :
      (v : Value) (depth count : ℕ)
      → IsShallow depth v
      → count + nodes v ≤ max_nodes
      → bounded v depth count ≡ ok (count + nodes v)
  bounded_complete null depth count h n = absurd h
  bounded_complete (bool b) depth count h n = absurd h
  bounded_complete (int z) depth count h n = ground arith
  bounded_complete (str s) depth count h n = ground arith
  bounded_complete (list xs) depth count h n =
      within_limits_complete depth (count + 1) _ h.0 (omega arith)
        (bounded_items_complete xs (depth + 1) (count + 1) h.1 (omega arith) ∙ ground arith)
  bounded_complete (dict fs) depth count h n =
      within_limits_complete depth (count + 1) _ h.0 (omega arith)
        (bounded_fields_complete fs (depth + 1) (count + 1) h.1 (omega arith) ∙ ground arith)

  bounded_items_complete :
      (xs : Items) (depth count : ℕ)
      → AllShallow depth xs
      → count + nodes_items xs ≤ max_nodes
      → bounded_items xs depth count ≡ ok (count + nodes_items xs)
  bounded_items_complete nil depth count h n = ground arith
  bounded_items_complete (cons v vs) depth count h n =
      rw (bounded_complete v depth count h.0 (omega arith))
        (bounded_items_complete vs depth (count + nodes v) h.1 (omega arith) ∙ ground arith)

  bounded_fields_complete :
      (fs : Fields) (depth count : ℕ)
      → FieldsShallow depth fs
      → count + nodes_fields fs ≤ max_nodes
      → bounded_fields fs depth count ≡ ok (count + nodes_fields fs)
  bounded_fields_complete end depth count h n = ground arith
  bounded_fields_complete (field k v fs) depth count h n =
      rw (bounded_complete v depth count h.0 (omega arith))
        (bounded_fields_complete fs depth (count + nodes v) h.1 (omega arith) ∙ ground arith)

within_limits_sound :
    (depth count : ℕ) (rest : Result ℕ) {n : ℕ}
    → within_limits depth count rest ≡ ok n
    → (depth ≤ max_depth) × (count ≤ max_nodes) × (rest ≡ ok n)
within_limits_sound depth count rest e = ground arith

mutual
  unfolding bounded

  bounded_sound :
      (v : Value) (depth count : ℕ) {n : ℕ}
      → bounded v depth count ≡ ok n
      → IsShallow depth v × (n ≡ count + nodes v) × (n ≤ max_nodes)
  bounded_sound null depth count e = absurd (ground arith)
  bounded_sound (bool b) depth count e = absurd (ground arith)
  bounded_sound (int z) depth count e = ground arith
  bounded_sound (str s) depth count e = ground arith
  bounded_sound (list xs) depth count e =
      let (deep, many, rest) = within_limits_sound depth (count + 1) _ e in
      let (shallow, size, most) = bounded_items_sound xs (depth + 1) (count + 1) rest in
      ((deep, shallow), omega arith, most many)
  bounded_sound (dict fs) depth count e =
      let (deep, many, rest) = within_limits_sound depth (count + 1) _ e in
      let (shallow, size, most) = bounded_fields_sound fs (depth + 1) (count + 1) rest in
      ((deep, shallow), omega arith, most many)

  bounded_items_sound :
      (xs : Items) (depth count : ℕ) {n : ℕ}
      → bounded_items xs depth count ≡ ok n
      → AllShallow depth xs × (n ≡ count + nodes_items xs) × ((count ≤ max_nodes) → n ≤ max_nodes)
  bounded_items_sound nil depth count e = (tt, ground arith, λ h. ground arith)
  bounded_items_sound (cons v vs) depth count e =
      let (m, first, rest) = >>=-eq-ok (bounded v depth count) _ e in
      let (shallow, size, most) = bounded_sound v depth count first in
      let (shallow', size', most') = bounded_items_sound vs depth m rest in
      ((shallow, shallow'), omega arith, λ _. most' most)

  bounded_fields_sound :
      (fs : Fields) (depth count : ℕ) {n : ℕ}
      → bounded_fields fs depth count ≡ ok n
      → FieldsShallow depth fs
        × (n ≡ count + nodes_fields fs)
        × ((count ≤ max_nodes) → n ≤ max_nodes)
  bounded_fields_sound end depth count e = (tt, ground arith, λ h. ground arith)
  bounded_fields_sound (field k v fs) depth count e =
      let (m, first, rest) = >>=-eq-ok (bounded v depth count) _ e in
      let (shallow, size, most) = bounded_sound v depth count first in
      let (shallow', size', most') = bounded_fields_sound fs depth m rest in
      ((shallow, shallow'), omega arith, λ _. most' most)

-- `bounded` accepts a value exactly when it holds at most 1024 values, all dictionaries, lists,
-- texts or integers, nested at most 8 deep; the counter then stands at their number.
pub bounded_iff :
    (v : Value) (n : ℕ)
    → (bounded v 1 0 ≡ ok n) ↔ (IsShallow 1 v × (n ≡ nodes v) × (nodes v ≤ max_nodes))
bounded_iff v n = (
  λ e. let (shallow, size, most) = bounded_sound v 1 0 e in (shallow, omega arith, omega arith),
  λ h. bounded_complete v 1 0 h.0 (omega arith) ∙ ap ok (omega arith),
)
