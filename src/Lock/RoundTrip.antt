-- ===== src/Lock/RoundTrip.antt =====
-- A lock that is written line by line is read back.
use clamp.Prelude.{
  ℕ, ◌≡◌, refl, ◌∙◌, Bool, true, ◌&&◌, List, [], ◌∷◌, ◌++◌, arith, All, all, leb, all-append,
}
use mathlib.Core.List.{tail}
use clamp.Prelude.Results.{ok}
use clamp.Text.{Text, codes, is_line_break}
use clamp.Text.Equality.{starts_with-append}
use clamp.Text.Lines.{written, no_break, splitlines-written}
use clamp.Utf8.{is_ascii, decode-ascii}
use clamp.Patterns.{is_hex, is_digit}
use clamp.Patterns.Classes.{is_revision_iff, is_digest_iff}
use clamp.Patterns.Numbers.{is_version_char, is_version-chars, all_mono}
use clamp.Json.{Document}
use clamp.Lock.{parse_lock_raw, release_base, lock_archive_url, linux}
use clamp.Lock.Version1.{IsPin, lock_lines, v1_output, parse_lock_v1_iff}

-- A printable ASCII character.
abbrev is_printable : ℕ → Bool
is_printable c = leb 32 c && leb c 126

printable-no_break : (c : ℕ) → is_printable c ≡ true → no_break c ≡ true
unfolding is_line_break
printable-no_break c h = ground arith

printable-ascii : (c : ℕ) → is_printable c ≡ true → is_ascii c ≡ true
printable-ascii c h = ground arith

hex-printable : (c : ℕ) → is_hex c ≡ true → is_printable c ≡ true
unfolding is_hex
hex-printable c h = ground arith

version_char-printable : (c : ℕ) → is_version_char c ≡ true → is_printable c ≡ true
unfolding is_version_char is_digit
version_char-printable c h = ground arith

module _ {version revision sha256 : Text} (p : IsPin version revision sha256) where
  version-printable : all is_printable version ≡ true
  version-printable =
      all_mono is_version_char is_printable version_char-printable version
        (is_version-chars version p.numbered)

  lines-printable : All (λ l. all is_printable l ≡ true) (lock_lines version revision sha256)
  unfolding lock_archive_url release_base
  lines-printable = (
    version-printable,
    (
      all_mono is_hex is_printable hex-printable revision
          ((is_revision_iff revision).0 p.revised).1,
      (
        simp (all-append, version-printable),
        (
          all_mono is_hex is_printable hex-printable sha256 ((is_digest_iff sha256).0 p.hashed).1,
          tt,
        ),
      ),
    ),
  )

All-mono :
    (p q : ℕ → Bool)
    → ((c : ℕ) → p c ≡ true → q c ≡ true)
    → (ps : List Text) → All (λ l. all p l ≡ true) ps
    → All (λ l. all q l ≡ true) ps
All-mono p q h [] _ = tt
All-mono p q h (l ∷ ps) (e, es) = (all_mono p q h l e, All-mono p q h ps es)

written-ascii :
    (ps : List Text) → All (λ l. all is_ascii l ≡ true) ps → all is_ascii (written ps) ≡ true
written-ascii [] _ = refl
written-ascii (p ∷ ps) (h, hs) = all-append is_ascii p _ ∙ rw (h, written-ascii ps hs)

-- Whatever the scanner: the four lines of a valid version, revision and digest, each with its line
-- feed, are accepted for Linux and printed.
pub parse_lock_raw-written :
    (loads : Text → Document) {version revision sha256 : Text}
    → IsPin version revision sha256
    → parse_lock_raw loads (written (lock_lines version revision sha256)) linux
      ≡ ok (v1_output version revision sha256)
unfolding parse_lock_raw
parse_lock_raw-written loads {version} {revision} {sha256} p =
    let lines = lock_lines version revision sha256 in
    let plain = lines-printable p in
    rw (starts_with-append (codes "version=") (version ++ (10 ∷ written (tail lines)))) (
      (parse_lock_v1_iff (written lines) linux _).1 (record {
        text = written lines;
        version = version;
        revision = revision;
        sha256 = sha256;
        decoded =
            decode-ascii (written lines)
              (written-ascii lines (All-mono is_printable is_ascii printable-ascii lines plain));
        written =
            splitlines-written lines
              (All-mono is_printable no_break printable-no_break lines plain);
        on_linux = refl;
        pinned = p;
        printed = refl;
      }))
