-- ===== src/Repository/Accepted.antt =====
-- The configurations that name one repository, and the files with an expected digest.
use clamp.Prelude.{
  ◌≡◌, ◌≢◌, refl, sym, ap, ◌∙◌, ◌↔◌, inl, inr, Bool, true, false, some, List, [], ◌∷◌, All, all,
  Bool-cases, String, Option-cases, and-split, is_empty, length, arith,
}
use clamp.Prelude.Results.{Result, ok, err, if-ok, ok_inj}
use clamp.Text.{Text, codes, text_eq, split, splitlines}
use clamp.Text.Equality.{text_eq_iff}
use clamp.Utf8.{Bytes, decode}
use clamp.Patterns.{is_source, is_digest, is_hex}
use clamp.Repository.{
  is_named_part, one_repository, repository_of, repository_values, verify_digest,
}
use clamp.Files.{read_regular}
use clamp.Os.{Env, History, M, ◌>>=◌, ◌>>◌, require, after}
use clamp.Patterns.Classes.{is_digest_iff}
use clamp.Paths.{max_archive}

-- A part of the path that names something below.
pub record IsNamed (part : Text) : Type 0 where
  pub filled : part ≢ []
  pub not_here : part ≢ codes "."
  pub not_parent : part ≢ codes ".."

filled-is_empty : (s : Text) → s ≢ [] → is_empty s ≡ false
filled-is_empty [] n = absurd (n refl)
filled-is_empty (_ ∷ _) n = refl

is_named_part_iff : (part : Text) → (is_named_part part ≡ true) ↔ IsNamed part
unfolding is_named_part
is_named_part_iff part = (
  λ h. record {
    filled = λ q. absurd (cc);
    not_here = ground (arith, text_eq_iff part (codes "."));
    not_parent = ground (arith, text_eq_iff part (codes ".."));
  },
  λ s. ground (
    arith,
    filled-is_empty part s.filled,
    s.not_here,
    s.not_parent,
    text_eq_iff part (codes "."),
    text_eq_iff part (codes ".."),
  ),
)

all-IsNamed_iff : (parts : List Text) → (all is_named_part parts ≡ true) ↔ All IsNamed parts
all-IsNamed_iff [] = (λ _. tt, λ _. refl)
all-IsNamed_iff (p ∷ ps) = (
  λ h. ((is_named_part_iff p).0 (and-split _ _ h).0, (all-IsNamed_iff ps).0 (and-split _ _ h).1),
  λ h. rw ((is_named_part_iff p).1 h.0) ((all-IsNamed_iff ps).1 h.1),
)

-- One line of the configuration names the repository, and its value is a host and a path of named
-- parts.
abbrev pub Names : Bytes → Text → Type 0
Names raw value =
    (text : Text) × (decode raw ≡ some text)
    × (repository_values (splitlines text) ≡ value ∷ [])
    × (is_source value ≡ true)
    × All IsNamed (split b'/' value)

one_repository_sound :
    (values out : List Text)
    → one_repository values ≡ ok out
    → (value : Text) × (values ≡ value ∷ [])
      × (out ≡ value ∷ [])
      × (is_source value ≡ true)
      × All IsNamed (split b'/' value)
unfolding one_repository
one_repository_sound [] out e = absurd (cc)
one_repository_sound (value ∷ []) out e =
    let (tests, same) = if-ok _ _ _ e in
    let (source, parts) = and-split _ _ tests in
    (value, refl, ok_inj same, source, (all-IsNamed_iff _).0 parts)
one_repository_sound (_ ∷ _ ∷ _) out e = absurd (cc)

-- For all bytes of a configuration: `source_repository` prints exactly the one value that they
-- name.
pub repository_of_iff :
    (raw : Bytes) (out : List Text)
    → (repository_of raw ≡ ok out) ↔ ((value : Text) × (out ≡ value ∷ []) × Names raw value)
unfolding repository_of one_repository
repository_of_iff raw out = (
  λ e. sound e,
  λ s.
      let (value, is, (text, decoded, only, source, parts)) = s in
      rw (decoded, repository_of)
        (rw (only, one_repository, source, (all-IsNamed_iff _).1 parts, is) refl),
)
  where
    sound : repository_of raw ≡ ok out → (value : Text) × (out ≡ value ∷ []) × Names raw value
    sound e = elim (Option-cases (decode raw)) [
      | inl n ↦ absurd (cc)
      | inr (text, is) ↦
          let (value, only, same, source, parts) =
            one_repository_sound (repository_values (splitlines text)) out
              (rw (is, repository_of) at e) in
          (value, same, (text, is, only, source, parts))
    ]

require-guards :
    (b : Bool) (message : String) (m : M (Unit {0})) (h : History)
    → (((require b message >> m) h).0 ≡ ok tt) ↔ ((b ≡ true) × ((m h).0 ≡ ok tt))
require-guards true message m h = (λ e. (refl, e), λ r. r.1)
require-guards false message m h = (λ e. absurd (cc), λ r. absurd (cc))

-- The comparison behind the reading.
digest-compared :
    (sha256 : Bytes → Text) (expected : Text) (r : Result Bytes × History)
    → ((after (λ raw. require (text_eq (sha256 raw) expected) "checksum mismatch") r).0 ≡ ok tt)
      ↔ ((raw : Bytes) × (r.0 ≡ ok raw) × (sha256 raw ≡ expected))
digest-compared sha256 expected (ok raw, h) = elim (Bool-cases (text_eq (sha256 raw) expected)) [
  | inl y ↦ (λ e. (raw, refl, (text_eq_iff _ _).0 y), λ r. rw y refl)
  | inr n ↦ (
    λ e. absurd (cc),
    λ r.
        let (raw', same, is) = r in
        let q : sha256 raw ≡ expected = ap sha256 (sym (ok_inj same)) ∙ is in
        absurd (ground (arith, text_eq_iff (sha256 raw) expected)),
  )
]
digest-compared sha256 expected (err x, h) = (λ e. absurd (cc), λ r. absurd (cc))

-- For every system and digest function: `verify_digest` succeeds exactly when the expected digest
-- is 64 hexadecimal digits, `read_regular` returned a file of at most 64 MiB, and the file's digest
-- is the expected one.
pub verify_digest_iff :
    (env : Env) (sha256 : Bytes → Text) (path expected : Text) (h : History)
    → ((verify_digest env sha256 path expected h).0 ≡ ok tt) ↔ (
        ((length expected ≡ 64) × (all is_hex expected ≡ true))
        × ((raw : Bytes) × ((read_regular env path max_archive h).0 ≡ ok raw)
            × (sha256 raw ≡ expected)))
unfolding verify_digest
verify_digest_iff env sha256 path expected h =
    let (guarded, guard) =
      require-guards (is_digest expected) "invalid digest"
        (read_regular env path max_archive >>= λ raw.
          require (text_eq (sha256 raw) expected) "checksum mismatch")
        h in
    let (compared, compare) =
      digest-compared sha256 expected (read_regular env path max_archive h) in
    let (digits, digest) = is_digest_iff expected in
    (λ e. (digits (guarded e).0, compared (guarded e).1), λ r. guard (digest r.0, compare r.1))
