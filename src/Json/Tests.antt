-- ===== src/Json/Tests.antt =====
-- Runs of `parse_json` and its parts, and the theorems at concrete values.
use clamp.Prelude.{ℕ, ◌≡◌, ◌≤◌, refl, ◌↔◌, false, some, [], ◌∷◌}
use clamp.Prelude.Results.{ok, err, exit, json_decode_error}
use clamp.Text.{Text, codes, text_eq}
use clamp.Utf8.{decode}
use clamp.Json.{
  Raw, RawItems, RawFields, Document, Value, Items, Fields, pos, bounded, parse_json, max_nodes,
}
use clamp.Json.Bounds.{IsShallow, nodes, bounded_iff}
use clamp.Json.Parse.{Accepted, parse_json_iff}

-- `{"a": 1, "b": [2]}`, whatever the text.
abbrev two_fields : Text → Document
two_fields text = record {
  tree = Raw.dict (
      RawFields.field (codes "a") (Raw.int (pos 1)) (
        RawFields.field (codes "b") (Raw.list (RawItems.cons (Raw.int (pos 2)) RawItems.nil))
          RawFields.end));
  extra = false;
}

-- `{"a": 1, "a": 1` and then a syntax error: the inner duplicate is met first.
abbrev broken_twice : Text → Document
broken_twice text = record {
  tree = Raw.list (
      RawItems.cons
        (Raw.dict (
          RawFields.field (codes "a") (Raw.int (pos 1))
            (RawFields.field (codes "a") (Raw.int (pos 1)) RawFields.end)))
        (RawItems.cons (Raw.broken json_decode_error) RawItems.nil));
  extra = false;
}

abbrev two_values : Value
two_values = Value.dict (
    Fields.field (codes "a") (Value.int (pos 1))
      (Fields.field (codes "b") (Value.list (Items.cons (Value.int (pos 2)) Items.nil)) Fields.end))

parse_tests :
    (parse_json two_fields (codes "x") ≡ ok two_values)
    × (parse_json broken_twice (codes "x") ≡ err (exit "duplicate JSON key"))
    × (parse_json two_fields (0xFF ∷ []) ≡ err (exit "invalid JSON"))
unfolding parse_json text_eq
parse_tests = (refl, refl, refl)

parse_json_iff_example :
    (parse_json two_fields (codes "x") ≡ ok two_values)
    ↔ ((t : Text) × (decode (codes "x") ≡ some t) × Accepted (two_fields t) two_values)
parse_json_iff_example = parse_json_iff two_fields (codes "x") two_values

bounded_iff_example :
    (bounded two_values 1 0 ≡ ok 4)
    ↔ (IsShallow 1 two_values × (◌≡◌ {A = ℕ} 4 (nodes two_values)) × (nodes two_values ≤ max_nodes))
bounded_iff_example = bounded_iff two_values 4

abbrev one_field : Fields
one_field = Fields.field (codes "a") (Value.int (pos 1)) Fields.end
