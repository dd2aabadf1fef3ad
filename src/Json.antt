-- ===== src/Json.antt =====
-- The JSON values that metadata may hold, and `parse_json`, `pairs`, `bounded` and `exact` of
-- runtime/templates/runtime_metadata.py.
-- The scanner of Python's `json` module is a parameter, `loads`: it gives the tree of what it
-- reads, in reading order, with the exception that it raises at the place where it gives up.
pub mod Pairs
pub mod Bounds
pub mod Parse
mod Tests
use clamp.Prelude.{
  ℕ, ◌+◌, Bool, false, ◌&&◌, ◌||◌, Option, none, some, List, [], ◌∷◌, ltb, if◌then◌else◌, all, leb,
  suc, ◌-◌,
}
use clamp.Prelude.Results.{
  Exn, json_decode_error, unicode_decode_error, key_error, Result, ok, err, ◌>>=◌, ◌>>◌, fail,
}
use clamp.Text.{Text, text_eq, mem}
use clamp.Utf8.{Bytes, decode}

-- `negsuc n` is -(n + 1).
pub data ℤ : Type 0 where
  pos : ℕ → ℤ
  negsuc : ℕ → ℤ

infixl 6 ◌+ℤ◌
unfoldable pub ◌+ℤ◌ : ℤ → ℤ → ℤ
pos a +ℤ pos b = pos (a + b)
pos a +ℤ negsuc b = if leb (suc b) a then pos (a - suc b) else negsuc (b - a)
negsuc a +ℤ pos b = if leb (suc a) b then pos (b - suc a) else negsuc (a - b)
negsuc a +ℤ negsuc b = negsuc (suc (a + b))

-- What the scanner reads. `float` and `constant` (NaN and the infinities) are the places of the
-- hooks `parse_float` and `parse_constant`; `broken` is where the scanner raises.
mutual
  pub data Raw : Type 0 where
    null float constant : Raw
    bool : Bool → Raw
    int : ℤ → Raw
    str : Text → Raw
    list : RawItems → Raw
    dict : RawFields → Raw
    broken : Exn → Raw

  pub data RawFields : Type 0 where
    field : Text → Raw → RawFields → RawFields
    end : RawFields

  pub data RawItems : Type 0 where
    cons : Raw → RawItems → RawItems
    nil : RawItems

-- A whole text: a tree, and whether anything but space stands behind it.
pub record Document : Type 0 where
  pub tree : Raw
  pub extra : Bool

mutual
  pub data Value : Type 0 where
    dict : Fields → Value
    list : Items → Value
    str : Text → Value
    int : ℤ → Value
    bool : Bool → Value
    null : Value

  -- A `dict`, in insertion order.
  pub data Fields : Type 0 where
    field : Text → Value → Fields → Fields
    end : Fields

  pub data Items : Type 0 where
    cons : Value → Items → Items
    nil : Items

-- `key in d` and `d[key]`
unfoldable pub has_key : Text → Fields → Bool
has_key k end = false
has_key k (field j v fs) = text_eq k j || has_key k fs

unfoldable pub get : Text → Fields → Option Value
get k end = none
get k (field j v fs) = if text_eq k j then some v else get k fs

-- `d[key] = v` for a new key.
unfoldable pub add_field : Fields → Text → Value → Fields
add_field end k v = field k v end
add_field (field j w fs) k v = field j w (add_field fs k v)

-- The loop of `pairs` from the result so far.
unfoldable pub pairs_from : Fields → Fields → Result Fields
unfolding has_key add_field
pairs_from result end = ok result
pairs_from result (field k v fs) =
    let rest = pairs_from (add_field result k v) fs in
    if has_key k result then fail "duplicate JSON key" else rest

unfoldable pub pairs : Fields → Result Fields
unfolding pairs_from
pairs values = pairs_from end values

-- The values that the scanner makes, with its hooks called in reading order.
unfoldable mutual
  unfolding pairs

  pub build : Raw → Result Value
  build null = ok null
  build float = fail "float not allowed"
  build constant = fail "constant not allowed"
  build (bool b) = ok (bool b)
  build (int z) = ok (int z)
  build (str s) = ok (str s)
  build (list xs) = build_items xs >>= λ vs. ok (list vs)
  build (dict fs) = build_fields fs >>= λ vs. pairs vs >>= λ d. ok (dict d)
  build (broken e) = err e

  pub build_items : RawItems → Result Items
  build_items nil = ok nil
  build_items (cons x xs) = build x >>= λ v. build_items xs >>= λ vs. ok (cons v vs)

  pub build_fields : RawFields → Result Fields
  build_fields end = ok end
  build_fields (field k x fs) = build x >>= λ v. build_fields fs >>= λ vs. ok (field k v vs)

-- `json.loads(text, …)` over the scanner's document.
unfoldable pub load : Document → Result Value
unfolding build
load d = build d.tree >>= λ v. if d.extra then err json_decode_error else ok v

abbrev pub max_depth : ℕ
max_depth = 8

abbrev pub max_nodes : ℕ
max_nodes = 1024

-- The test that `bounded` makes on each node, in front of the rest of its work.
abbrev pub within_limits : ℕ → ℕ → Result ℕ → Result ℕ
within_limits depth count rest =
    if ltb max_nodes count || ltb max_depth depth then fail "JSON structural limit" else rest

-- `bounded(value, depth, count)`: the counter's cell is passed on.
unfoldable mutual
  pub bounded : Value → ℕ → ℕ → Result ℕ
  bounded null depth count = within_limits depth (count + 1) (fail "unsupported JSON value")
  bounded (bool b) depth count = within_limits depth (count + 1) (fail "unsupported JSON value")
  bounded (int z) depth count = within_limits depth (count + 1) (ok (count + 1))
  bounded (str s) depth count = within_limits depth (count + 1) (ok (count + 1))
  bounded (list xs) depth count =
      let rest = bounded_items xs (depth + 1) (count + 1) in within_limits depth (count + 1) rest
  bounded (dict fs) depth count =
      let rest = bounded_fields fs (depth + 1) (count + 1) in within_limits depth (count + 1) rest

  pub bounded_items : Items → ℕ → ℕ → Result ℕ
  bounded_items nil depth count = ok count
  bounded_items (cons v vs) depth count =
      bounded v depth count >>= λ count'. bounded_items vs depth count'

  pub bounded_fields : Fields → ℕ → ℕ → Result ℕ
  bounded_fields end depth count = ok count
  bounded_fields (field k v fs) depth count =
      bounded v depth count >>= λ count'. bounded_fields fs depth count'

-- The `except` clause of `parse_json`.
unfoldable pub as_invalid : Result Value → Result Value
as_invalid (err json_decode_error) = fail "invalid JSON"
as_invalid (err unicode_decode_error) = fail "invalid JSON"
as_invalid r = r

unfoldable pub parse_text : (Text → Document) → Option Text → Result Value
unfolding load
parse_text loads none = err unicode_decode_error
parse_text loads (some text) = load (loads text)

unfoldable pub parse_json : (Text → Document) → Bytes → Result Value
unfolding as_invalid parse_text bounded decode
parse_json loads raw = do
  value ← as_invalid (parse_text loads (decode raw))
  _ ← bounded value 1 0
  ok value

abbrev pub keys : Fields → List Text
keys end = []
keys (field k v fs) = k ∷ keys fs

-- `exact(value, names)`
unfoldable pub exact : Value → List Text → Bool
unfolding has_key mem
exact (dict fs) names = all (λ k. mem k names) (keys fs) && all (λ k. has_key k fs) names
exact _ names = false

-- `value[name]`, of a value that is known to be a `dict`.
unfoldable pub item : Value → Text → Result Value
unfolding get
item (dict fs) name = elim (get name fs) [ none ↦ err key_error | some v ↦ ok v ]
item _ name = err key_error
