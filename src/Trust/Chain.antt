-- ===== src/Trust/Chain.antt =====
-- The directories that `verify_trusted_chain` of runtime/templates/runtime_metadata.py has checked.
use clamp.Prelude.{
  ℕ, zero, suc, ◌≡◌, ◌≢◌, sym, ap, ◌∙◌, subst, ◌≤◌, ◌⊎◌, inl, inr, true, length, arith, Bool-cases,
}
use clamp.Prelude.Results.{ok, err, out_of_rounds}
use clamp.Text.{Text, text_eq}
use clamp.Text.Equality.{text_eq_iff, text_eq_refl}
use clamp.Os.{Stat, Env, History, do_lstat}
use clamp.Os.Outcome.{after-ok, require-ok, after-total, require-total}
use clamp.Posix.{dirname}
use clamp.Posix.Shrinks.{dirname_shrinks}
use clamp.Trust.{is_trusted, climb}

-- The paths that the loop goes through: the path, its directory, and so on.
pub data Above : Text → Text → Type 0 where
  here : {p q : Text} → p ≡ q → Above p q
  up : {p q : Text} → Above (dirname p) q → Above p q

-- Above a root is nothing else.
root-Above : {p q : Text} → Above p q → p ≡ dirname p → q ≡ p
root-Above (here e) r = sym e
root-Above (up a) r = root-Above a (ap dirname r) ∙ sym r

first-Above : {p q : Text} → Above p q → (p ≡ q) ⊎ Above (dirname p) q
first-Above (here e) = inl e
first-Above (up a) = inr a

-- The loop stops at a root, and the root is none of the paths below it.
root_passed :
    (path q : Text) → text_eq path (dirname path) ≡ true → Above path q → q ≢ dirname q → ⊥
root_passed path q y above below =
    let root : path ≡ dirname path = (text_eq_iff _ _).0 y in
    let same : q ≡ path = root-Above above root in below (same ∙ root ∙ ap dirname (sym same))

module _ (env : Env) where
  -- The system told of this path once that it is a directory to be trusted.
  abbrev pub WasTrusted : Text → Type 0
  WasTrusted path =
      (h : History) × (observed : Stat) × (env.lstat h path ≡ ok observed)
      × (is_trusted env.euid observed ≡ true)

  pub climb-WasTrusted :
      (fuel : ℕ) (path q : Text) (h : History)
      → (climb env fuel path h).0 ≡ ok tt
      → Above path q
      → q ≢ dirname q
      → WasTrusted q
  unfolding climb
  climb-WasTrusted zero path q h e above below = elim (Bool-cases (text_eq path (dirname path))) [
    | inl y ↦ absurd (root_passed path q y above below)
    | inr n ↦ absurd (cc)
  ]
  climb-WasTrusted (suc fuel) path q h e above below =
      elim (Bool-cases (text_eq path (dirname path))) [
        | inl y ↦ absurd (root_passed path q y above below)
        | inr n ↦
            let (observed, seen, e₁) = after-ok _ (do_lstat env path h) (rw n at e) in
            let (trusted, e₂) =
              require-ok (is_trusted env.euid observed) "unsafe Amp parent" _ _ e₁ in
            elim (first-Above above) [
              | inl same ↦ subst WasTrusted same (h, observed, seen, trusted)
              | inr later ↦ climb-WasTrusted fuel (dirname path) q _ e₂ later below
            ]
      ]

  climb-root :
      (fuel : ℕ) (path : Text) (h : History)
      → text_eq path (dirname path) ≡ true
      → (climb env fuel path h).0 ≢ err out_of_rounds
  unfolding climb
  climb-root zero path h y = rw y (λ q. cc)
  climb-root (suc k) path h y = rw y (λ q. cc)

  -- The length of the path is fuel enough: the loop ends at a root, at a directory that is not to be
  -- trusted or by an error of the system.
  pub climb-total :
      (fuel : ℕ) (path : Text) (h : History)
      → ((h' : History) (p : Text) → env.lstat h' p ≢ err out_of_rounds)
      → length path ≤ fuel
      → (climb env fuel path h).0 ≢ err out_of_rounds
  unfolding climb
  climb-total zero path h n l = elim (dirname_shrinks path) [
    | inl root ↦ climb-root zero path h (rw root (text_eq_refl path))
    | inr shorter ↦ absurd (omega (arith, l, shorter))
  ]
  climb-total (suc k) path h n l = elim (dirname_shrinks path) [
    | inl root ↦ climb-root (suc k) path h (rw root (text_eq_refl path))
    | inr shorter ↦ elim (Bool-cases (text_eq path (dirname path))) [
      | inl y ↦ climb-root (suc k) path h y
      | inr m ↦ rw m (
          after-total _ (env.lstat h path, _) (n h path)
            (λ observed h'.
              require-total (is_trusted env.euid observed) "unsafe Amp parent" _ h'
                (climb-total k (dirname path) h' n (omega (arith, l, shorter)))))
    ]
  ]
