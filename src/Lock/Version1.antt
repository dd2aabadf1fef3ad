-- ===== src/Lock/Version1.antt =====
-- The four-line lock: exactly which bytes it accepts, and what it prints for them.
use clamp.Prelude.{
  ◌||◌, if◌then◌else◌, ◌≡◌, refl, sym, ◌∙◌, ap, ◌↔◌, true, not, List, [], ◌∷◌, ◌++◌, ◌==◌, arith,
  none, some, length, drop, and-split, Option, drop-append, append_assoc, subst, neither, ==_iff,
}
use clamp.Prelude.Results.{ok, Result, >>=-eq-ok, ◌>>=◌, fail, if-ok, ok_inj, if_not-ok}
use clamp.Text.{Text, codes, splitlines, starts_with, text_eq}
use clamp.Text.Equality.{starts_with_sound, starts_with-append, text_eq_refl, text_eq_sound}
use clamp.Utf8.{Bytes, decode}
use clamp.Patterns.{is_version, is_revision, is_digest}
use clamp.Lock.{parse_lock_v1, field_values, checked_v1, lock_archive_url, linux, lock_keys}

-- The three facts that a lock states, in the form that it must give them.
pub record IsPin (version revision sha256 : Text) : Type 0 where
  pub numbered : is_version version ≡ true
  pub revised : is_revision revision ≡ true
  pub hashed : is_digest sha256 ≡ true

-- The lines of a lock in the first format.
abbrev pub lock_lines : Text → Text → Text → List Text
lock_lines version revision sha256 =
    (codes "version=" ++ version)
    ∷ (codes "revision=" ++ revision)
    ∷ (codes "url=" ++ lock_archive_url version)
    ∷ (codes "sha256=" ++ sha256)
    ∷ []

abbrev pub v1_output : Text → Text → Text → List Text
v1_output version revision sha256 =
    codes "v1" ∷ version ∷ revision ∷ lock_archive_url version ∷ sha256 ∷ []

-- One line of a field.
field_values-step :
    (line key : Text) (lines keys vs : List Text)
    → field_values (line ∷ lines) (key ∷ keys) ≡ ok vs
    → (v : Text) × (ws : List Text) × (line ≡ key ++ (b'=' ∷ v))
      × (vs ≡ v ∷ ws)
      × (field_values lines keys ≡ ok ws)
unfolding field_values
field_values-step line key lines keys vs e =
    let prefix : Text = key ++ (b'=' ∷ []) in
    let (starts, rest) = if-ok (starts_with line prefix) _ _ e in
    let (ws, e₁, e₂) = >>=-eq-ok (field_values lines keys) _ rest in
    let (v, split) = starts_with_sound line prefix starts in
    let cut : drop (length prefix) line ≡ v =
      ap (drop (length prefix)) split ∙ drop-append prefix v in
    (v, ws, split ∙ append_assoc key (b'=' ∷ []) v, ok_inj e₂ ∙ ap (λ x. x ∷ ws) cut, e₁)

field_values-field :
    (key v : Text) (lines keys ws : List Text)
    → field_values lines keys ≡ ok ws
    → field_values ((key ++ (b'=' ∷ v)) ∷ lines) (key ∷ keys) ≡ ok (v ∷ ws)
unfolding field_values
field_values-field key v lines keys ws e =
    let prefix : Text = key ++ (b'=' ∷ []) in
    rw (← append_assoc key (b'=' ∷ []) v, starts_with-append prefix v, e, drop-append prefix v)

checked_v1_sound :
    (version revision url sha256 : Text) (out : List Text)
    → checked_v1 (version ∷ revision ∷ url ∷ sha256 ∷ []) ≡ ok out
    → IsPin version revision sha256
      × (url ≡ lock_archive_url version)
      × (out ≡ v1_output version revision sha256)
unfolding checked_v1
checked_v1_sound version revision url sha256 out e =
    let (tests, same) = if-ok _ _ _ e in
    let (three, hashed) = and-split _ _ tests in
    let (two, located) = and-split _ _ three in
    let (numbered, revised) = and-split _ _ two in
    let place = text_eq_sound url _ located in
    (
      record { numbered = numbered; revised = revised; hashed = hashed },
      place,
      ok_inj same ∙ ap (λ u. codes "v1" ∷ version ∷ revision ∷ u ∷ sha256 ∷ []) place,
    )

checked_v1_complete :
    (version revision sha256 : Text)
    → IsPin version revision sha256
    → checked_v1 (version ∷ revision ∷ lock_archive_url version ∷ sha256 ∷ [])
      ≡ ok (v1_output version revision sha256)
unfolding checked_v1
checked_v1_complete version revision sha256 p =
    rw (p.numbered, p.revised, p.hashed, text_eq_refl (lock_archive_url version))

-- The values of the four lines.
field_values_sound :
    (lines vs : List Text)
    → length lines ≡ 4
    → field_values lines lock_keys ≡ ok vs
    → (a b c d : Text) × (vs ≡ a ∷ b ∷ c ∷ d ∷ [])
      × (lines
          ≡ (codes "version=" ++ a)
            ∷ (codes "revision=" ++ b)
            ∷ (codes "url=" ++ c)
            ∷ (codes "sha256=" ++ d)
            ∷ [])
field_values_sound (l₁ ∷ l₂ ∷ l₃ ∷ l₄ ∷ []) vs n e =
    let (a, vs₁, p₁, q₁, e₁) = field_values-step l₁ _ _ _ vs e in
    let (b, vs₂, p₂, q₂, e₂) = field_values-step l₂ _ _ _ vs₁ e₁ in
    let (c, vs₃, p₃, q₃, e₃) = field_values-step l₃ _ _ _ vs₂ e₂ in
    let (d, vs₄, p₄, q₄, e₄) = field_values-step l₄ _ _ _ vs₃ e₃ in
    let last : vs₄ ≡ [] = unfold field_values in ok_inj e₄ in
    (
      a,
      b,
      c,
      d,
      q₁
          ∙ ap (λ x. a ∷ x)
              (q₂ ∙ ap (λ x. b ∷ x) (q₃ ∙ ap (λ x. c ∷ x) (q₄ ∙ ap (λ x. d ∷ x) last))),
      cc,
    )
field_values_sound _ vs n e = absurd (omega arith)

field_values-nil : field_values [] [] ≡ ok []
unfolding field_values
field_values-nil = refl

field_values_complete :
    (a b c d : Text)
    → field_values
        ((codes "version=" ++ a)
          ∷ (codes "revision=" ++ b)
          ∷ (codes "url=" ++ c)
          ∷ (codes "sha256=" ++ d)
          ∷ [])
        lock_keys
      ≡ ok (a ∷ b ∷ c ∷ d ∷ [])
field_values_complete a b c d = field_values-field (codes "version") a _ _ _ (
    field_values-field (codes "revision") b _ _ _ (
      field_values-field (codes "url") c _ _ _
        (field_values-field (codes "sha256") d _ _ _ field_values-nil)))

-- The bytes are UTF-8 text of just the four lines of a lock, and the lines printed are its output.
pub record IsLockV1 (raw : Bytes) (target : Text) (out : List Text) : Type 0 where
  pub text : Text
  pub version : Text
  pub revision : Text
  pub sha256 : Text
  pub decoded : decode raw ≡ some text
  pub written : splitlines text ≡ lock_lines version revision sha256
  pub on_linux : target ≡ linux
  pub pinned : IsPin version revision sha256
  pub printed : out ≡ v1_output version revision sha256

v1-some :
    (raw : Bytes) (target : Text) (out : List Text)
    → parse_lock_v1 raw target ≡ ok out
    → (text : Text) × (decode raw ≡ some text)
      × ((length (splitlines text) ≡ 4) × (target ≡ linux))
      × ((field_values (splitlines text) lock_keys >>= checked_v1) ≡ ok out)
unfolding parse_lock_v1
v1-some raw target out e = go (decode raw) refl e
  where
    go :
        (o : Option Text)
        → decode raw ≡ o
        → (elim o as (λ x. Result (List Text)) [
          | none ↦ fail "invalid v1 lock"
          | some text ↦
              if not (length (splitlines text) == 4) || not (text_eq target linux)
              then fail "v1 lock requires Linux x86-64 migration"
              else field_values (splitlines text) lock_keys >>= checked_v1
        ])
          ≡ ok out
        → (text : Text) × (decode raw ≡ some text)
          × ((length (splitlines text) ≡ 4) × (target ≡ linux))
          × ((field_values (splitlines text) lock_keys >>= checked_v1) ≡ ok out)
    go none q e = absurd (cc)
    go (some text) q e =
        let (tests, rest) = if_not-ok _ _ _ e in
        let (four, here) = neither _ _ tests in
        (text, q, ((==_iff _ 4).0 four, text_eq_sound target linux here), rest)

v1_sound :
    (raw : Bytes) (target : Text) (out : List Text)
    → parse_lock_v1 raw target ≡ ok out
    → IsLockV1 raw target out
v1_sound raw target out e =
    let (text, decoded, (four, on_linux), rest) = v1-some raw target out e in
    let (vs, values, checked) = >>=-eq-ok (field_values (splitlines text) lock_keys) _ rest in
    let (a, b, c, d, vs_eq, lines_eq) = field_values_sound (splitlines text) vs four values in
    let (pin, place, printed) =
      checked_v1_sound a b c d out (subst (λ v. checked_v1 v ≡ ok out) vs_eq checked) in
    record {
      text = text;
      version = a;
      revision = b;
      sha256 = d;
      decoded = decoded;
      written =
          lines_eq
          ∙ ap
              (λ u.
                (codes "version=" ++ a)
                ∷ (codes "revision=" ++ b)
                ∷ (codes "url=" ++ u)
                ∷ (codes "sha256=" ++ d)
                ∷ [])
              place;
      on_linux = on_linux;
      pinned = pin;
      printed = printed;
    }

v1_complete :
    (raw : Bytes) (target : Text) (out : List Text)
    → IsLockV1 raw target out
    → parse_lock_v1 raw target ≡ ok out
unfolding parse_lock_v1
v1_complete raw target out l =
    rw (l.decoded, parse_lock_v1)
      (rw (l.written, l.on_linux, text_eq_refl linux)
        (rw (field_values_complete l.version l.revision (lock_archive_url l.version) l.sha256)
          (checked_v1_complete l.version l.revision l.sha256 l.pinned ∙ ap ok (sym l.printed))))

-- A lock that begins with `version=` is accepted for exactly the Linux target, when its text is
-- the four lines of a version, a revision, the release's archive URL and a digest; these are
-- printed.
pub parse_lock_v1_iff :
    (raw : Bytes) (target : Text) (out : List Text)
    → (parse_lock_v1 raw target ≡ ok out) ↔ IsLockV1 raw target out
parse_lock_v1_iff raw target out = (v1_sound raw target out, v1_complete raw target out)
