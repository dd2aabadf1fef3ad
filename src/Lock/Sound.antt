-- ===== src/Lock/Sound.antt =====
-- Locks of both formats: what an accepted lock guarantees.
use clamp.Prelude.{
  ◌≡◌, refl, ◌∙◌, ap, ◌↔◌, ◌⊎◌, inl, inr, true, List, [], ◌∷◌, Bool-cases, and-split,
}
use clamp.Prelude.Results.{ok, Result, >>=-eq-ok, ok_inj, if-ok, require-ok}
use clamp.Text.{Text, codes, starts_with, mem}
use clamp.Text.Equality.{text_eq_sound, text_eq_refl}
use clamp.Utf8.{Bytes}
use clamp.Json.{Value, str, Document, exact, item, parse_json}
use clamp.Paths.{targets}
use clamp.Lock.{
  equals_int, checked_v2, parse_lock_v2, parse_lock_raw, parse_lock, lock_v2_keys,
  lock_manifest_url, linux,
}
use clamp.Lock.Version1.{IsPin, v1_output, parse_lock_v1_iff}

abbrev pub v2_output : Text → Text → Text → List Text
v2_output version revision sha256 =
    codes "v2" ∷ version ∷ revision ∷ lock_manifest_url version ∷ sha256 ∷ []

-- A JSON lock: exactly the five keys, the schema 2, and texts that pin a release.
pub record IsLockV2 (value : Value) (out : List Text) : Type 0 where
  pub schema : Value
  pub version : Text
  pub revision : Text
  pub sha256 : Text
  pub keyed : exact value lock_v2_keys ≡ true
  pub schema_item : item value (codes "schema_version") ≡ ok schema
  pub second : equals_int schema 2 ≡ true
  pub version_item : item value (codes "version") ≡ ok (str version)
  pub revision_item : item value (codes "revision") ≡ ok (str revision)
  pub url_item : item value (codes "manifest_url") ≡ ok (str (lock_manifest_url version))
  pub sha256_item : item value (codes "manifest_sha256") ≡ ok (str sha256)
  pub pinned : IsPin version revision sha256
  pub printed : out ≡ v2_output version revision sha256

checked_v2_sound :
    (a b c d : Value) (out : List Text)
    → checked_v2 a b c d ≡ ok out
    → (version revision sha256 : Text) × ((a ≡ str version)
        × (b ≡ str revision)
        × (c ≡ str (lock_manifest_url version))
        × (d ≡ str sha256))
      × IsPin version revision sha256
      × (out ≡ v2_output version revision sha256)
unfolding checked_v2
checked_v2_sound (str version) (str revision) (str url) (str sha256) out e =
    let (tests, same) = if-ok _ _ _ e in
    let (three, hashed) = and-split _ _ tests in
    let (two, located) = and-split _ _ three in
    let (numbered, revised) = and-split _ _ two in
    let place = text_eq_sound url _ located in
    (
      version,
      revision,
      sha256,
      (refl, refl, ap str place, refl),
      record { numbered = numbered; revised = revised; hashed = hashed },
      ok_inj same ∙ ap (λ u. codes "v2" ∷ version ∷ revision ∷ u ∷ sha256 ∷ []) place,
    )
checked_v2_sound _ _ _ _ out e = absurd (cc)

v2_sound : (value : Value) (out : List Text) → parse_lock_v2 value ≡ ok out → IsLockV2 value out
unfolding parse_lock_v2
v2_sound value out e =
    let (keyed, e₁) = require-ok _ _ _ e in
    let (schema, schema_item, e₂) = >>=-eq-ok (item value (codes "schema_version")) _ e₁ in
    let (second, e₃) = require-ok _ _ _ e₂ in
    let (a, a_item, e₄) = >>=-eq-ok (item value (codes "version")) _ e₃ in
    let (b, b_item, e₅) = >>=-eq-ok (item value (codes "revision")) _ e₄ in
    let (c, c_item, e₆) = >>=-eq-ok (item value (codes "manifest_url")) _ e₅ in
    let (d, d_item, e₇) = >>=-eq-ok (item value (codes "manifest_sha256")) _ e₆ in
    let (version, revision, sha256, (pa, pb, pc, pd), pin, printed) =
      checked_v2_sound a b c d out e₇ in
    record {
      schema = schema;
      version = version;
      revision = revision;
      sha256 = sha256;
      keyed = keyed;
      schema_item = schema_item;
      second = second;
      version_item = a_item ∙ ap ok pa;
      revision_item = b_item ∙ ap ok pb;
      url_item = c_item ∙ ap ok pc;
      sha256_item = d_item ∙ ap ok pd;
      pinned = pin;
      printed = printed;
    }

v2_complete : (value : Value) (out : List Text) → IsLockV2 value out → parse_lock_v2 value ≡ ok out
unfolding parse_lock_v2 checked_v2
v2_complete value out l =
    rw
      (l.keyed, l.schema_item, l.second, l.version_item, l.revision_item, l.url_item, l.sha256_item)
      (rw (
        l.pinned.numbered,
        l.pinned.revised,
        text_eq_refl (lock_manifest_url l.version),
        l.pinned.hashed,
        l.printed,
      ))

-- A JSON lock is accepted exactly when it has the five keys and no other, the schema version 2,
-- a version, a revision, the release's manifest URL and a digest; these are printed.
pub parse_lock_v2_iff :
    (value : Value) (out : List Text) → (parse_lock_v2 value ≡ ok out) ↔ IsLockV2 value out
parse_lock_v2_iff value out = (v2_sound value out, v2_complete value out)

-- What any accepted lock comes to, whatever the file and the scanner: the target is known, and the
-- output is a valid pin with the one URL that its version and format allow.
pub parse_lock_sound :
    (loads : Text → Document) (read : Result Bytes) (target : Text) (out : List Text)
    → parse_lock loads read target ≡ ok out
    → (mem target targets ≡ true)
      × ((version revision sha256 : Text) × IsPin version revision sha256
          × (((target ≡ linux) × (out ≡ v1_output version revision sha256))
              ⊎ (out ≡ v2_output version revision sha256)))
unfolding parse_lock parse_lock_raw
parse_lock_sound loads read target out e =
    let (known, e₁) = require-ok _ _ _ e in
    let (raw, _, e₂) = >>=-eq-ok read _ e₁ in
    (
      known,
      elim (Bool-cases (starts_with raw (codes "version="))) [
        | inl y ↦
            let l = (parse_lock_v1_iff raw target out).0 (rw y at e₂) in
            (l.version, l.revision, l.sha256, l.pinned, inl (l.on_linux, l.printed))
        | inr n ↦
            let (value, _, e₃) = >>=-eq-ok (parse_json loads raw) _ (rw n at e₂) in
            let l = (parse_lock_v2_iff value out).0 e₃ in
            (l.version, l.revision, l.sha256, l.pinned, inr l.printed)
      ],
    )
