-- ===== src/Json/Pairs.antt =====
-- `pairs` refuses a repeated key and keeps everything else.
use clamp.Prelude.{
  ◌≡◌, refl, sym, ◌∙◌, ap, ◌↔◌, true, false, ◌||◌, arith, Bool-cases, inl, inr, ◌⊎◌,
}
use clamp.Prelude.Results.{ok, fail}
use clamp.Text.{Text, text_eq}
use clamp.Text.Equality.{text_eq_iff, text_eq_refl}
use clamp.Json.{Value, Fields, end, field, has_key, add_field, pairs_from, pairs}

-- Every key is new among the keys behind it.
abbrev pub HasDistinctKeys : Fields → Type 0
HasDistinctKeys end = Unit {0}
HasDistinctKeys (field k v fs) = (has_key k fs ≡ false) × HasDistinctKeys fs

-- `result.update(fs)`, field by field.
abbrev pub joined : Fields → Fields → Fields
joined end gs = gs
joined (field k v fs) gs = field k v (joined fs gs)

joined-end : (fs : Fields) → joined fs end ≡ fs
joined-end end = refl
joined-end (field k v fs) = ap (field k v) (joined-end fs)

joined-add_field :
    (fs gs : Fields) (k : Text) (v : Value)
    → joined (add_field fs k v) gs ≡ joined fs (field k v gs)
unfolding add_field
joined-add_field end gs k v = refl
joined-add_field (field j w fs) gs k v = ap (field j w) (joined-add_field fs gs k v)

has_key-add_field :
    (fs : Fields) (j k : Text) (v : Value)
    → has_key j (add_field fs k v) ≡ (has_key j fs || text_eq j k)
unfolding has_key add_field
has_key-add_field end j k v = ground arith
has_key-add_field (field i w fs) j k v = ground (arith, has_key-add_field fs j k v)

-- The keys of `fs` are distinct, and new to `result`.
abbrev Fresh : Fields → Fields → Type 0
Fresh result end = Unit {0}
Fresh result (field k v fs) = (has_key k result ≡ false) × Fresh (add_field result k v) fs

pairs_from_sound :
    (result fs : Fields) {d : Fields}
    → pairs_from result fs ≡ ok d
    → Fresh result fs × (d ≡ joined result fs)
unfolding pairs_from
pairs_from_sound result end e = (tt, ground (arith, joined-end result))
pairs_from_sound result (field k v fs) e = elim (Bool-cases (has_key k result)) [
  | inl old ↦ absurd (ground arith)
  | inr new ↦
      let (fresh, same) = pairs_from_sound (add_field result k v) fs (rw new at e) in
      ((new, fresh), same ∙ joined-add_field result fs k v)
]

-- The keys of `result` followed by those of `fs` are distinct where `fs` is fresh.
Fresh-has_key :
    (fs result : Fields) (k : Text)
    → has_key k result ≡ true
    → Fresh result fs
    → has_key k fs ≡ false
unfolding has_key
Fresh-has_key end result k old _ = refl
Fresh-has_key (field j v fs) result k old (new, h) = ground (
  arith,
  text_eq_iff k j,
  has_key-add_field result k j v,
  Fresh-has_key fs (add_field result j v) k,
)

Fresh-HasDistinctKeys : (fs result : Fields) → Fresh result fs → HasDistinctKeys fs
Fresh-HasDistinctKeys end result _ = tt
Fresh-HasDistinctKeys (field k v fs) result (new, h) = (
  Fresh-has_key fs (add_field result k v) k
      (ground (arith, has_key-add_field result k k v, text_eq_refl k)) h,
  Fresh-HasDistinctKeys fs (add_field result k v) h,
)

-- No key of `fs` is one of `result`.
abbrev Apart : Fields → Fields → Type 0
Apart result end = Unit {0}
Apart result (field k v fs) = (has_key k result ≡ false) × Apart result fs

Apart-add_field :
    (fs result : Fields) (k : Text) (v : Value)
    → Apart result fs
    → has_key k fs ≡ false
    → Apart (add_field result k v) fs
unfolding has_key
Apart-add_field end result k v _ _ = tt
Apart-add_field (field j w fs) result k v (a, rest) new = (
  ground (arith, has_key-add_field result j k v, text_eq_iff j k, text_eq_iff k j),
  Apart-add_field fs result k v rest (ground arith),
)

pairs_from_complete :
    (fs result : Fields)
    → Apart result fs
    → HasDistinctKeys fs
    → pairs_from result fs ≡ ok (joined result fs)
unfolding pairs_from
pairs_from_complete end result _ _ = ap ok (sym (joined-end result))
pairs_from_complete (field k v fs) result (a, rest) (new, h) = rw a (
    pairs_from_complete fs (add_field result k v) (Apart-add_field fs result k v rest new) h
    ∙ ap ok (joined-add_field result fs k v))

Apart-end : (fs : Fields) → Apart end fs
unfolding has_key
Apart-end end = tt
Apart-end (field k v fs) = (refl, Apart-end fs)

-- `pairs` returns the very pairs that it is given, exactly when their keys are distinct.
pub pairs_iff : (fs d : Fields) → (pairs fs ≡ ok d) ↔ ((d ≡ fs) × HasDistinctKeys fs)
unfolding pairs
pairs_iff fs d = (
  λ e. let (fresh, same) = pairs_from_sound end fs e in (same, Fresh-HasDistinctKeys fs end fresh),
  λ h. pairs_from_complete fs end (Apart-end fs) h.1 ∙ ap ok (sym h.0),
)

-- Its one failure is that of a repeated key.
pub pairs_from-cases :
    (result fs : Fields)
    → ((d : Fields) × (pairs_from result fs ≡ ok d))
      ⊎ (pairs_from result fs ≡ fail "duplicate JSON key")
unfolding pairs_from
pairs_from-cases result end = inl (result, refl)
pairs_from-cases result (field k v fs) = elim (Bool-cases (has_key k result)) [
  | inl old ↦ inr (rw old)
  | inr new ↦ rw new (pairs_from-cases (add_field result k v) fs)
]
