-- ===== src/Trust/Amp.antt =====
-- What `verify_trusted_chain` and `verify_amp` of runtime/templates/runtime_metadata.py have checked
-- when they return.
use clamp.Prelude.{◌≡◌, ◌≢◌, true, Bool-cases, inl, inr, [], ◌∷◌, length}
use clamp.Prelude.Results.{ok}
use clamp.Text.{Text, codes, text_eq}
use clamp.Text.Equality.{text_eq_iff}
use clamp.Os.{Stat, Env, History, do_lstat}
use clamp.Os.Outcome.{last-required, after-ok, require-ok}
use clamp.Trust.{
  is_private, is_own_executable, amp_path, check_real, check_below, verify_trusted_chain,
  verify_amp,
}
use clamp.Posix.{is_absolute, join_name, dirname}
use clamp.Trust.Chain.{Above, WasTrusted, climb-WasTrusted}

module _ (env : Env) where
  -- An absolute path with no symbolic link on it.
  abbrev pub IsReal : Text → Type 0
  IsReal path = (is_absolute path ≡ true) × ((h : History) × (env.real_path h path ≡ path))

  -- Every directory from the path up to the root was seen to be one to be trusted.
  abbrev pub IsTrustedChain : Text → Type 0
  IsTrustedChain path = (q : Text) → Above path q → q ≢ dirname q → WasTrusted env q

  abbrev pub WasPrivate : Text → Type 0
  WasPrivate path =
      (h : History) × (observed : Stat) × (env.lstat h path ≡ ok observed)
      × (is_private env.euid observed ≡ true)

  abbrev pub WasExecutable : Text → Type 0
  WasExecutable path =
      (h : History) × (observed : Stat) × (env.lstat h path ≡ ok observed)
      × (is_own_executable env.euid observed ≡ true)

  pub record IsAmp (home : Text) (executable : Text) : Type 0 where
    pub real : IsReal home
    pub chain : IsTrustedChain home
    pub expected : executable ≡ amp_path home
    pub directory : WasPrivate (join_name home (codes ".amp"))
    pub binaries : WasPrivate (join_name (join_name home (codes ".amp")) (codes "bin"))
    pub runnable : WasExecutable executable

  check_real-IsReal : (path : Text) (h : History) → (check_real env path h).0 ≡ ok tt → IsReal path
  unfolding check_real
  check_real-IsReal path h e =
      let (absolute, e₁) = require-ok (is_absolute path) "unsafe Amp parent" _ h e in
      elim (Bool-cases (text_eq (env.real_path h path) path)) [
        | inl y ↦ (absolute, (h, (text_eq_iff _ _).0 y))
        | inr n ↦ absurd (cc)
      ]

  -- For every system: when `verify_trusted_chain` returns, the path is absolute and has no symbolic
  -- link on it, and every directory from it up to the root was seen to belong to root or the user and
  -- to be writable by nobody else, or to be a sticky directory of root.
  pub verify_trusted_chain_sound :
      (path : Text) (h : History)
      → (verify_trusted_chain env path h).0 ≡ ok tt
      → IsReal path × IsTrustedChain path
  unfolding verify_trusted_chain
  verify_trusted_chain_sound path h e =
      let (_, real, e₁) = after-ok _ (check_real env path h) e in
      (
        check_real-IsReal path h real,
        λ q above below. climb-WasTrusted env (length path) path q _ e₁ above below,
      )

  check_below-private :
      (home : Text) (h : History)
      → (check_below env home (codes ".amp" ∷ codes "bin" ∷ []) h).0 ≡ ok tt
      → WasPrivate (join_name home (codes ".amp"))
        × WasPrivate (join_name (join_name home (codes ".amp")) (codes "bin"))
  unfolding check_below
  check_below-private home h e =
      let (first, seen, e₁) = after-ok _ (do_lstat env (join_name home (codes ".amp")) h) e in
      let (private, e₂) = require-ok (is_private env.euid first) "unsafe Amp parent" _ _ e₁ in
      let (second, seen', e₃) =
        after-ok _ (do_lstat env (join_name (join_name home (codes ".amp")) (codes "bin")) _) e₂ in
      let (private', _) = require-ok (is_private env.euid second) "unsafe Amp parent" _ _ e₃ in
      ((_, first, seen, private), (_, second, seen', private'))

  -- For every system: when `verify_amp` returns, the home directory is at the end of a trusted chain,
  -- the executable is Amp's place below it, the two directories between them were seen to be the
  -- user's and writable by nobody else, and the executable to be such a file that the user may run.
  pub verify_amp_sound :
      (home executable : Text) (h : History)
      → (verify_amp env home executable h).0 ≡ ok tt
      → IsAmp home executable
  unfolding verify_amp
  verify_amp_sound home executable h e =
      let (_, _, e₁) = after-ok _ (check_real env home h) e in
      let (_, chain, e₂) = after-ok _ (verify_trusted_chain env home _) e₁ in
      let (expected, e₃) =
        require-ok (text_eq executable (amp_path home)) "unexpected Amp executable" _ _ e₂ in
      let (_, below, e₄) =
        after-ok _ (check_below env home (codes ".amp" ∷ codes "bin" ∷ []) _) e₃ in
      let (directory, binaries) = check_below-private home _ below in
      let (observed, seen, e₅) = after-ok _ (do_lstat env executable _) e₄ in
      let (real, trusted) = verify_trusted_chain_sound home _ chain in
      record {
        real = real;
        chain = trusted;
        expected = (text_eq_iff _ _).0 expected;
        directory = directory;
        binaries = binaries;
        runnable = (
          _,
          observed,
          seen,
          last-required (is_own_executable env.euid observed) "unsafe Amp executable" h e₅,
        );
      }
