-- ===== src/Manifest/Sound.antt =====
-- What an accepted manifest guarantees about the record that is printed.
use clamp.Prelude.{
  ◌≡◌, refl, sym, ◌∙◌, ap, inl, inr, true, List, [], ◌∷◌, ◌++◌, Bool-cases, Option, none, some,
  append-nil, subst, append_assoc,
}
use clamp.Prelude.Results.{if-ok, ok, Result, >>=-eq-ok, ok_inj, require-ok, err-ne-ok}
use clamp.Text.{Text, codes, text_eq, sorted_set, texts_eq}
use clamp.Text.Equality.{text_eq_sound}
use clamp.Text.Order.{IsRising, texts_eq-sorted_set}
use clamp.Utf8.{Bytes}
use clamp.Json.{Value, Document, Items, nil, cons, item, parse_json}
use clamp.Manifest.{
  Entry, check_entry, check_entries, select, entry_output, chosen, targets_of, manifest_value,
  parse_manifest,
}
use clamp.Manifest.Checked.{IsChecked, check_entry_sound}

-- The records of a list of targets, in order, each as `check_entry` accepts it.
abbrev pub Accepts : Text → Items → List Entry → Type 0
Accepts version nil es = es ≡ []
Accepts version (cons v vs) es =
    (e : Entry) × (rest : List Entry) × (es ≡ e ∷ rest)
    × (check_entry version v ≡ ok e)
    × Accepts version vs rest

abbrev pub names_of : List Entry → List Text
names_of [] = []
names_of (e ∷ es) = e.target ∷ names_of es

-- The last record for the target, or what was selected before.
abbrev pub last_for : Text → Option Entry → List Entry → Option Entry
last_for target selected [] = selected
last_for target selected (e ∷ es) = last_for target (select target e selected) es

check_entries_sound :
    (version target : Text) (vs : Items) (names : List Text) (selected : Option Entry)
    (found : List Text × Option Entry)
    → check_entries version target vs names selected ≡ ok found
    → (es : List Entry) × Accepts version vs es
      × (found.0 ≡ names ++ names_of es)
      × (found.1 ≡ last_for target selected es)
unfolding check_entries
check_entries_sound version target nil names selected found h =
    ([], refl, ap (λ f. f.0) (ok_inj h) ∙ sym (append-nil names), ap (λ f. f.1) (ok_inj h))
check_entries_sound version target (cons v vs) names selected found h =
    let (e, accepted, h₁) = >>=-eq-ok (check_entry version v) _ h in
    let (es, accepts, listed, last) = check_entries_sound version target vs _ _ found h₁ in
    (
      e ∷ es,
      (e, es, refl, accepted, accepts),
      listed ∙ append_assoc names (e.target ∷ []) (names_of es),
      last,
    )

some-inj {ℓ} : {A : Type ℓ} {a b : A} → some a ≡ some b → a ≡ b
some-inj e = cc

none-ne-some {ℓ} : {A : Type ℓ} (a : A) → Option.none ≡ some a → ⊥
none-ne-some a h = cc

-- Whatever is selected is a checked record for the target.
last_for-IsChecked :
    (version target : Text) (vs : Items) (es : List Entry) (selected : Option Entry) (e : Entry)
    → Accepts version vs es
    → ((d : Entry) → selected ≡ some d → IsChecked version d × (d.target ≡ target))
    → last_for target selected es ≡ some e
    → IsChecked version e × (e.target ≡ target)
last_for-IsChecked version target nil es selected e a h q =
    h e (subst (λ x. last_for target selected x ≡ some e) a q)
last_for-IsChecked version target (cons v vs) es selected e (d, rest, same, accepted, a) h q =
    last_for-IsChecked version target vs rest (select target d selected) e a step
      (subst (λ x. last_for target selected x ≡ some e) same q)
  where
    step :
        (c : Entry) → select target d selected ≡ some c → IsChecked version c × (c.target ≡ target)
    step c p = elim (Bool-cases (text_eq d.target target)) [
      | inl y ↦
          let eq : c ≡ d = some-inj (sym p ∙ rw y) in
          rw eq (check_entry_sound version v d accepted, text_eq_sound d.target target y)
      | inr n ↦ h c (sym (rw n) ∙ p)
    ]

chosen_sound :
    (names : List Text) (selected : Option Entry) (out : List Text)
    → chosen names selected ≡ ok out
    → (e : Entry) × (texts_eq names (sorted_set names) ≡ true)
      × (selected ≡ some e)
      × (out ≡ entry_output e)
unfolding chosen
chosen_sound names none out h = let (_, h₁) = require-ok _ _ _ h in absurd (err-ne-ok _ out h₁)
chosen_sound names (some e) out h =
    let (sorted, h₁) = require-ok _ _ _ h in (e, sorted, refl, ok_inj h₁)

targets_of-list : (given : Value) (vs : Items) → targets_of given ≡ ok vs → given ≡ Value.list vs
unfolding targets_of
targets_of-list (Value.list items) vs e = ap Value.list (sym (ok_inj (if-ok _ _ _ e).1))
targets_of-list _ vs e = cc

-- Everything that an accepted manifest comes to.
pub record IsSelected (loads : Text → Document) (sha256 : Bytes → Text) (read : Result Bytes)
    (version target digest : Text) (out : List Text) : Type 0 where
  pub raw : Bytes
  pub value : Value
  pub items : Items
  pub entry : Entry
  pub entries : List Entry
  pub obtained : read ≡ ok raw
  pub matched : sha256 raw ≡ digest
  pub parsed : parse_json loads raw ≡ ok value
  pub listed : item value (codes "targets") ≡ ok (Value.list items)
  pub accepted : Accepts version items entries
  pub checked : IsChecked version entry
  pub targeted : entry.target ≡ target
  pub rising : IsRising (names_of entries)
  pub last : last_for target none entries ≡ some entry
  pub printed : out ≡ entry_output entry

-- For every scanner and digest function: when `parse_manifest` prints, the file's digest is the
-- expected one, the records listed under `targets` in the value that it holds are each accepted as
-- a record, their targets are in strictly rising order, the printed record is the one of them
-- for the asked target, and it passed every check of a record.
pub parse_manifest_sound :
    (loads : Text → Document) (sha256 : Bytes → Text) (read : Result Bytes)
    (version revision target digest : Text) (out : List Text)
    → parse_manifest loads sha256 read version revision target digest ≡ ok out
    → IsSelected loads sha256 read version target digest out
unfolding parse_manifest manifest_value
parse_manifest_sound loads sha256 read version revision target digest out h =
    let (raw, obtained, h₁) = >>=-eq-ok read _ h in
    let (matched, h₂) = require-ok _ _ _ h₁ in
    let (value, parsed, h₃) = >>=-eq-ok (parse_json loads raw) _ h₂ in
    let (_, h₄) = require-ok _ _ _ h₃ in
    let (schema, _, h₅) = >>=-eq-ok (item value (codes "schema_version")) _ h₄ in
    let (_, h₆) = require-ok _ _ _ h₅ in
    let (stated, _, h₇) = >>=-eq-ok (item value (codes "version")) _ h₆ in
    let (_, h₈) = require-ok _ _ _ h₇ in
    let (revised, _, h₉) = >>=-eq-ok (item value (codes "revision")) _ h₈ in
    let (_, k₁) = require-ok _ _ _ h₉ in
    let (given, under, k₂) = >>=-eq-ok (item value (codes "targets")) _ k₁ in
    let (vs, fitting, k₃) = >>=-eq-ok (targets_of given) _ k₂ in
    let (found, walked, k₄) = >>=-eq-ok (check_entries version target vs [] none) _ k₃ in
    let (es, accepts, listed, last) = check_entries_sound version target vs [] none found walked in
    let (e, sorted, picked, printed) = chosen_sound found.0 found.1 out k₄ in
    let is_last : last_for target none es ≡ some e = sym last ∙ picked in
    let (checked, targeted) =
      last_for-IsChecked version target vs es none e accepts (λ d p. absurd (none-ne-some d p))
        is_last in
    record {
      raw = raw;
      value = value;
      items = vs;
      entry = e;
      entries = es;
      obtained = obtained;
      matched = text_eq_sound (sha256 raw) digest matched;
      parsed = parsed;
      listed = under ∙ ap ok (targets_of-list given vs fitting);
      accepted = accepts;
      checked = checked;
      targeted = targeted;
      rising = subst IsRising listed (texts_eq-sorted_set found.0 sorted);
      last = is_last;
      printed = printed;
    }
