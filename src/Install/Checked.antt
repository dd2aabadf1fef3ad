-- ===== src/Install/Checked.antt =====
-- What `installed` and `install` of runtime/templates/runtime_metadata.py have checked and done when
-- they return.
use clamp.Prelude.{◌≡◌, sym, ap, List, [], ◌∷◌, All, Option, none, some}
use clamp.Prelude.Results.{ok, err-ne-ok}
use clamp.Text.{Text, codes, text_eq}
use clamp.Text.Equality.{text_eq_iff}
use clamp.Utf8.{Bytes, encode}
use clamp.Posix.{join_name}
use clamp.Os.{Env, History, require, do_lstat}
use clamp.Os.Outcome.{after-ok, require-ok, last-required}
use clamp.Os.Emits.{Emits, none-Emits, one-Emits, bind-Emits}
use clamp.Os.Looks.{IsLook}
use clamp.Files.{read_regular}
use clamp.Files.Looks.{read_regular-IsLook}
use clamp.Trust.{is_private, is_own_executable}
use clamp.Trust.Amp.{WasPrivate, WasExecutable}
use clamp.Install.{Marker, expected_markers, require_encoded, check_markers, installed}

module _ (env : Env) where
  -- The file of a marker was read, and held the encoding of its value.
  abbrev pub HasMarker : Text → Marker → Type 0
  HasMarker path (name, value) =
      (h : History) × (bytes : Bytes) × (encode value ≡ some bytes)
      × ((read_regular env (join_name path name) 128 h).0 ≡ ok bytes)

  pub record IsInstalled (path version revision digest : Text) : Type 0 where
    pub directory : WasPrivate env path
    pub bin_directory : WasPrivate env (join_name path (codes "bin"))
    pub markers : All (HasMarker path) (expected_markers version revision digest)
    pub runnable : WasExecutable env (join_name (join_name path (codes "bin")) (codes "kb"))

  encoded :
      (raw : Bytes) (o : Option Bytes) (h : History)
      → (require_encoded raw o h).0 ≡ ok tt
      → o ≡ some raw
  unfolding require_encoded
  encoded raw none h e = absurd (err-ne-ok _ _ e)
  encoded raw (some bytes) h e = ap some (
      sym (
        (text_eq_iff _ _).0 (last-required (text_eq raw bytes) "installation marker mismatch" h e)))

  check_markers-HasMarker :
      (path : Text) (markers : List Marker) (h : History)
      → (check_markers env path markers h).0 ≡ ok tt
      → All (HasMarker path) markers
  unfolding check_markers
  check_markers-HasMarker path [] h e = tt
  check_markers-HasMarker path ((name, value) ∷ markers) h e =
      let (raw, was_read, e₁) = after-ok _ (read_regular env (join_name path name) 128 h) e in
      let (_, same, e₂) = after-ok _ (require_encoded raw (encode value) _) e₁ in
      (
        (h, raw, encoded raw (encode value) _ same, was_read),
        check_markers-HasMarker path markers _ e₂,
      )

  -- For every system: when `installed` returns, the installation and its `bin` were seen to be the
  -- user's and writable by nobody else, each marker's file was read and holds the expected version,
  -- revision or digest with a line feed, and `bin/kb` was seen to be a file of the user that the user
  -- may run and nobody else may write.
  pub installed_sound :
      (path version revision digest : Text) (h : History)
      → (installed env path version revision digest h).0 ≡ ok tt
      → IsInstalled path version revision digest
  unfolding installed
  installed_sound path version revision digest h e =
      let (first, seen, e₁) = after-ok _ (do_lstat env path h) e in
      let (private, e₂) = require-ok (is_private env.euid first) "unsafe installation" _ _ e₁ in
      let (second, seen', e₃) = after-ok _ (do_lstat env (join_name path (codes "bin")) _) e₂ in
      let (private', e₄) =
        require-ok (is_private env.euid second) "unsafe runtime bin directory" _ _ e₃ in
      let (_, marked, e₅) =
        after-ok _ (check_markers env path (expected_markers version revision digest) _) e₄ in
      let (third, seen'', e₆) =
        after-ok _ (do_lstat env (join_name (join_name path (codes "bin")) (codes "kb")) _) e₅ in
      record {
        directory = (_, first, seen, private);
        bin_directory = (_, second, seen', private');
        markers = check_markers-HasMarker path _ _ marked;
        runnable = (
          _,
          third,
          seen'',
          last-required (is_own_executable env.euid third) "unsafe runtime executable" h e₆,
        );
      }

  check_markers-IsLook :
      (path : Text) (markers : List Marker) → Emits IsLook (check_markers env path markers)
  unfolding check_markers
  check_markers-IsLook path [] = none-Emits _
  check_markers-IsLook path ((name, value) ∷ markers) =
      bind-Emits (read_regular env (join_name path name) 128) _
        (read_regular-IsLook env (join_name path name) 128)
        λ raw.
          bind-Emits (require_encoded raw (encode value)) _ (compared raw (encode value))
            λ _. check_markers-IsLook path markers
    where
      compared : (raw : Bytes) (o : Option Bytes) → Emits IsLook (require_encoded raw o)
      compared raw none = unfold require_encoded in none-Emits _
      compared raw (some bytes) = unfold require_encoded in none-Emits _

  -- For every system: `installed` makes no call that changes a file, whatever its outcome.
  pub installed-IsLook :
      (path version revision digest : Text)
      → Emits IsLook (installed env path version revision digest)
  unfolding installed
  installed-IsLook path version revision digest =
      bind-Emits (do_lstat env path) _ (one-Emits _ _ tt) λ first.
        bind-Emits (require (is_private env.euid first) "unsafe installation") _ (none-Emits _) λ _.
          bind-Emits (do_lstat env (join_name path (codes "bin"))) _ (one-Emits _ _ tt) λ second.
            bind-Emits (require (is_private env.euid second) "unsafe runtime bin directory") _
              (none-Emits _)
              λ _.
                bind-Emits (check_markers env path (expected_markers version revision digest)) _
                  (check_markers-IsLook path (expected_markers version revision digest))
                  λ _.
                    bind-Emits
                      (do_lstat env (join_name (join_name path (codes "bin")) (codes "kb"))) _
                      (one-Emits _ _ tt) λ _. none-Emits _
