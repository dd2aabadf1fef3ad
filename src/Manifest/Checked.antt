-- ===== src/Manifest/Checked.antt =====
-- What one accepted record of a target guarantees, and when a record raises instead of failing.
use clamp.Prelude.{
  ℕ, ◌≡◌, ◌≤◌, ◌<◌, refl, sym, ◌∙◌, ap, inl, inr, true, false, ◌&&◌, List, [], ◌∷◌, arith, All, all,
  Bool-cases, and-split, if◌then◌else◌, ltb, leb, length, Option, none, some, ltb→lt, leb→le,
  length, subst, Option-cases,
}
use mathlib.Core.Bool.{false≢true}
use clamp.Prelude.Results.{ok, >>=-eq-ok, ok_inj, if-ok, require-ok}
use clamp.Text.{Text, codes, mem, split}
use clamp.Text.Order.{IsRising, texts_eq-sorted_set}
use clamp.Patterns.{is_digest}
use clamp.Json.{Value, int, str, list, dict, null, bool, pos, Items, nil, cons, item}
use clamp.Paths.{targets, mandatory, valid_path, max_archive}
use clamp.Paths.Safe.{IsSafePart, valid_path_iff}
use clamp.Manifest.{
  Entry, archive_url_of, archive_root_of, known_target, digest_of, size_of, files_of, all_valid,
  all_texts, check_sortable, check_entry, count_items, check_files,
}

-- A path that stays below the directory that it is joined to.
abbrev pub IsSafePath : Text → Type 0
IsSafePath s = All IsSafePart (split b'/' s) × (length s ≤ 4096)

pub record IsInventory (files : List Text) : Type 0 where
  pub rising : IsRising files
  pub safe : All IsSafePath files
  pub complete : all (λ s. mem s files) mandatory ≡ true
  pub few : length files ≤ 256

pub record IsChecked (version : Text) (e : Entry) : Type 0 where
  pub known : mem e.target targets ≡ true
  pub located : e.archive_url ≡ archive_url_of version e.target
  pub rooted : e.archive_root ≡ archive_root_of version e.target
  pub hashed : is_digest e.archive_sha256 ≡ true
  pub positive : 0 < e.archive_size
  pub bounded : e.archive_size ≤ max_archive
  pub listed : IsInventory e.required_files

known_target_sound : (v : Value) (s : Text) → known_target v ≡ ok s → mem s targets ≡ true
unfolding known_target
known_target_sound (str t) s e =
    let (known, same) = if-ok (mem t targets) _ _ e in rw (ok_inj same) known
known_target_sound (list _) s e = absurd (cc)
known_target_sound (dict _) s e = absurd (cc)
known_target_sound null s e = absurd (cc)
known_target_sound (int _) s e = absurd (cc)
known_target_sound (bool _) s e = absurd (cc)

digest_of_sound : (v : Value) (s : Text) → digest_of v ≡ ok s → is_digest s ≡ true
unfolding digest_of
digest_of_sound (str t) s e =
    let (hashed, same) = if-ok (is_digest t) _ _ e in rw (ok_inj same) hashed
digest_of_sound _ s e = absurd (cc)

size_of_sound : (v : Value) (n : ℕ) → size_of v ≡ ok n → (0 < n) × (n ≤ max_archive)
unfolding size_of
size_of_sound (int (pos m)) n e =
    let (tests, same) = if-ok (ltb 0 m && leb m max_archive) _ _ e in
    let (some_bytes, few) = and-split _ _ tests in
    rw (ok_inj same) (ltb→lt _ _ some_bytes, leb→le _ _ few)
size_of_sound _ n e = absurd (cc)

all_valid_sound : (files : List Text) → all_valid files ≡ ok true → All IsSafePath files
unfolding all_valid
all_valid_sound [] e = tt
all_valid_sound (s ∷ ss) e =
    let (good, e₁, e₂) = >>=-eq-ok (valid_path s) _ e in
    elim (Bool-cases good) [
      | inl y ↦ (
        (valid_path_iff s).0 (e₁ ∙ ap ok y),
        all_valid_sound ss (subst (λ b. (if b then all_valid ss else ok false) ≡ ok true) y e₂),
      )
      | inr n ↦ absurd (
          false≢true
            (ok_inj (sym (subst (λ b. (if b then all_valid ss else ok false) ≡ ok true) n e₂))))
    ]

all_texts-length :
    (items : Items) (files : List Text)
    → all_texts items ≡ some files
    → length files ≡ count_items items
unfolding all_texts count_items
all_texts-length nil files e = ground arith
all_texts-length (cons (str s) vs) files e = elim (Option-cases (all_texts vs)) [
  | inl n ↦ absurd (ground arith)
  | inr (ss, y) ↦ ground (arith, all_texts-length vs ss y)
]
all_texts-length (cons _ vs) files e = absurd (cc)

check_files_sound :
    (o : Option (List Text)) (files : List Text)
    → check_files o ≡ ok files
    → (o ≡ some files)
      × IsRising files
      × All IsSafePath files
      × (all (λ s. mem s files) mandatory ≡ true)
unfolding check_files
check_files_sound none files e = absurd (cc)
check_files_sound (some given) files e =
    let (sorted, e₁) = require-ok _ _ _ e in
    let (good, valid, e₂) = >>=-eq-ok (all_valid given) _ e₁ in
    let (tests, e₃) = require-ok _ _ _ e₂ in
    let (is_good, complete) = and-split _ _ tests in
    let same : given ≡ files = sym (ok_inj e₃) in
    subst
      (λ fs.
        (some given ≡ some fs)
        × IsRising fs
        × All IsSafePath fs
        × (all (λ s. mem s fs) mandatory ≡ true))
      same
      (
        refl,
        texts_eq-sorted_set given sorted,
        all_valid_sound given (valid ∙ ap ok is_good),
        complete,
      )

files_of_sound : (v : Value) (files : List Text) → files_of v ≡ ok files → IsInventory files
unfolding files_of
files_of_sound (list items) files e =
    let (size, e₁) = require-ok _ _ _ e in
    let (_, _, e₂) = >>=-eq-ok (check_sortable items) _ e₁ in
    let (given, rising, safe, complete) = check_files_sound (all_texts items) files e₂ in
    record {
      rising = rising;
      safe = safe;
      complete = complete;
      few = rw (all_texts-length items files given) (leb→le _ _ (and-split _ _ size).1);
    }
files_of_sound _ files e = absurd (cc)

-- An accepted record names a known target, has that target's URL and root in the release, a digest,
-- a size from 1 to 64 MiB, and an inventory in rising order of safe paths with every mandatory one.
pub check_entry_sound :
    (version : Text) (v : Value) (e : Entry) → check_entry version v ≡ ok e → IsChecked version e
unfolding check_entry
check_entry_sound version v e h =
    let (_, h₁) = require-ok _ _ _ h in
    let (name, _, h₂) = >>=-eq-ok (item v (codes "target")) _ h₁ in
    let (files, _, h₃) = >>=-eq-ok (item v (codes "required_files")) _ h₂ in
    let (known, is_known, h₄) = >>=-eq-ok (known_target name) _ h₃ in
    let (_, _, h₅) = >>=-eq-ok (item v (codes "archive_url")) _ h₄ in
    let (_, h₆) = require-ok _ _ _ h₅ in
    let (sha256, _, h₇) = >>=-eq-ok (item v (codes "archive_sha256")) _ h₆ in
    let (digest, is_hashed, h₈) = >>=-eq-ok (digest_of sha256) _ h₇ in
    let (_, _, h₉) = >>=-eq-ok (item v (codes "archive_root")) _ h₈ in
    let (_, k₁) = require-ok _ _ _ h₉ in
    let (size, _, k₂) = >>=-eq-ok (item v (codes "archive_size")) _ k₁ in
    let (bytes, is_sized, k₃) = >>=-eq-ok (size_of size) _ k₂ in
    let (paths, is_listed, k₄) = >>=-eq-ok (files_of files) _ k₃ in
    let (positive, bounded) = size_of_sound size bytes is_sized in
    subst (IsChecked version) (sym (ok_inj k₄)) (record {
      known = known_target_sound name known is_known;
      located = refl;
      rooted = refl;
      hashed = digest_of_sound sha256 digest is_hashed;
      positive = positive;
      bounded = bounded;
      listed = files_of_sound files paths is_listed;
    })
