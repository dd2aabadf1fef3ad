-- ===== src/Install/Moved.antt =====
-- What `install` of runtime/templates/runtime_metadata.py has done when it returns, and what it can do.
use clamp.Prelude.{
  ◌≡◌, refl, ◌⊎◌, inl, inr, true, false, Bool, ◌||◌, ◌==◌, Bool-cases, Option, none, some,
}
use clamp.Prelude.Results.{Exn, Result, ok, err, err-ne-ok, ok_inj, file_exists, os_error}
use clamp.Text.{Text, codes, text_eq}
use clamp.Utf8.{decode}
use clamp.Posix.{join_name, dirname}
use clamp.Os.{
  Call, Env, History, Op, after, handled, handle, return, act, rename_noreplace, fsync, ◌>>◌,
}
use clamp.Os.Outcome.{after-ok}
use clamp.Os.Emits.{Emits, none-Emits, bind-Emits, if-Emits, handle-Emits, act-Emits, map-Emits}
use clamp.Os.Looks.{Only, look-Only}
use clamp.Files.{read_regular, sync_directory}
use clamp.Files.Looks.{read_regular-Only, sync_directory-Only}
use clamp.Install.{
  stripped, installed, rename_error, move_noreplace, read_marker, accept_installed, install, eexist,
}
use clamp.Install.Checked.{IsInstalled, installed_sound, installed-IsLook}

module _ (env : Env) where
  -- The payload was renamed, and its new directory written out.
  abbrev pub IsMoved : Text → Text → Type 0
  IsMoved payload destination =
      ((g : History) × ((act env (rename_noreplace payload destination) g).0 ≡ ok tt))
      × ((g : History) × ((sync_directory env (dirname destination) g).0 ≡ ok tt))

  -- What stands at the destination is an installation with the payload's markers.
  pub record IsReused (payload destination : Text) : Type 0 where
    pub version : Text
    pub revision : Text
    pub digest : Text
    pub version_read :
        (g : History) × ((read_marker env payload (codes "VERSION") g).0 ≡ ok version)
    pub revision_read :
        (g : History) × ((read_marker env payload (codes "REVISION") g).0 ≡ ok revision)
    pub digest_read :
        (g : History) × ((read_marker env payload (codes ".archive-sha256") g).0 ≡ ok digest)
    pub installation : IsInstalled env destination version revision digest

  rename_error-fails : (x : Exn) (h : History) → (rename_error env x h).0 ≡ ok tt → ⊥
  unfolding rename_error
  rename_error-fails (os_error n) h e = elim (Bool-cases (n == eexist)) [ inl y ↦ cc | inr m ↦ cc ]
  rename_error-fails _ h e = err-ne-ok _ _ e

  -- A rename that returned did rename.
  moved-act :
      (platform payload destination : Text) (h : History)
      → (move_noreplace env platform payload destination h).0 ≡ ok tt
      → (act env (rename_noreplace payload destination) h).0 ≡ ok tt
  unfolding move_noreplace
  moved-act platform payload destination h e =
      elim (Bool-cases (text_eq platform (codes "linux") || text_eq platform (codes "darwin"))) [
        | inl y ↦ answered (act env (rename_noreplace payload destination) h) (rw y at e)
        | inr n ↦ absurd (cc)
      ]
    where
      answered :
          (r : Result (Unit {0}) × History) → (handled (rename_error env) r).0 ≡ ok tt → r.0 ≡ ok tt
      answered (ok _, g) q = refl
      answered (err x, g) q = absurd (rename_error-fails x g q)

  accepted-IsInstalled :
      (destination version revision digest : Text) (x : Exn) (h : History) {b : Bool}
      → (accept_installed env destination version revision digest x h).0 ≡ ok b
      → (b ≡ false) × IsInstalled env destination version revision digest
  unfolding accept_installed
  accepted-IsInstalled destination version revision digest file_exists h e =
      let (_, checked, e₁) = after-ok _ (installed env destination version revision digest h) e in
      (ok_inj e₁, installed_sound env destination version revision digest h checked)
  accepted-IsInstalled destination version revision digest _ h e = absurd (err-ne-ok _ _ e)

  -- The two ways in which the rename, with its handler, returns.
  moved-cases :
      (platform payload destination version revision digest : Text) (h : History) {b : Bool}
      → (handle
          (move_noreplace env platform payload destination >> return true)
          (accept_installed env destination version revision digest)
          h).0
        ≡ ok b
      → ((b ≡ true) × ((act env (rename_noreplace payload destination) h).0 ≡ ok tt))
        ⊎ ((b ≡ false) × IsInstalled env destination version revision digest)
  moved-cases platform payload destination version revision digest h {b} e =
      outcome (move_noreplace env platform payload destination h)
        (moved-act platform payload destination h) e
    where
      outcome :
          (r : Result (Unit {0}) × History)
          → (r.0 ≡ ok tt → (act env (rename_noreplace payload destination) h).0 ≡ ok tt)
          → (handled
              (accept_installed env destination version revision digest)
              (after (λ _. return true) r)).0
            ≡ ok b
          → ((b ≡ true) × ((act env (rename_noreplace payload destination) h).0 ≡ ok tt))
            ⊎ ((b ≡ false) × IsInstalled env destination version revision digest)
      outcome (ok _, g) done q = inl (ok_inj q, done refl)
      outcome (err x, g) done q =
          inr (accepted-IsInstalled destination version revision digest x g q)

  -- For every system: when `install` returns, either the payload was renamed to the destination
  -- without replacing anything and the directory was written out, or something stood there, and it
  -- is an installation, fully checked, of the version, the revision and the digest that the payload's
  -- markers hold.
  pub install_sound :
      (platform payload destination : Text) (h : History)
      → (install env platform payload destination h).0 ≡ ok tt
      → IsMoved payload destination ⊎ IsReused payload destination
  unfolding install
  install_sound platform payload destination h e =
      let (version, e_v, e₁) = after-ok _ (read_marker env payload (codes "VERSION") h) e in
      let (revision, e_r, e₂) = after-ok _ (read_marker env payload (codes "REVISION") _) e₁ in
      let (digest, e_d, e₃) = after-ok _ (read_marker env payload (codes ".archive-sha256") _) e₂ in
      let (moved, e_m, e₄) =
        after-ok _
          (handle (move_noreplace env platform payload destination >> return true)
            (accept_installed env destination version revision digest) _)
          e₃ in
      elim (moved-cases platform payload destination version revision digest _ e_m) [
        | inl (was_moved, renamed) ↦ inl ((_, renamed), (_, rw was_moved at e₄))
        | inr (_, checked) ↦ inr (record {
          version = version;
          revision = revision;
          digest = digest;
          version_read = (_, e_v);
          revision_read = (_, e_r);
          digest_read = (_, e_d);
          installation = checked;
        })
      ]

  -- The operations of an installation.
  abbrev pub Moves : Text → Text → Op → Type 0
  Moves payload destination (rename_noreplace source target) =
      (source ≡ payload) × (target ≡ destination)
  Moves payload destination (fsync fd) = Unit {0}
  Moves payload destination _ = ⊥

  -- Nothing but that, and no new file.
  abbrev pub IsMove : Text → Text → Call → Type 0
  IsMove payload destination = Only (Moves payload destination) (λ path mode. ⊥)

  rename_error-IsMove : (p d : Text) (x : Exn) → Emits (IsMove p d) (rename_error env x)
  unfolding rename_error
  rename_error-IsMove p d (os_error n) = if-Emits (n == eexist) _ _ (none-Emits _) (none-Emits _)
  rename_error-IsMove p d _ = none-Emits _

  move_noreplace-IsMove :
      (platform payload destination : Text)
      → Emits (IsMove payload destination) (move_noreplace env platform payload destination)
  unfolding move_noreplace
  move_noreplace-IsMove platform payload destination =
      if-Emits (text_eq platform (codes "linux") || text_eq platform (codes "darwin")) _ _
        (handle-Emits _ _
          (act-Emits env (rename_noreplace payload destination) (refl, refl) (refl, refl))
          (rename_error-IsMove payload destination))
        (none-Emits _)

  accept_installed-IsMove :
      (payload destination version revision digest : Text) (x : Exn)
      → Emits
          (IsMove payload destination)
          (accept_installed env destination version revision digest x)
  unfolding accept_installed
  accept_installed-IsMove payload destination version revision digest file_exists =
      bind-Emits (installed env destination version revision digest) _
        (map-Emits (look-Only _ _) (installed-IsLook env destination version revision digest))
        λ _. none-Emits _
  accept_installed-IsMove payload destination version revision digest _ = none-Emits _

  read_marker-IsMove : (p d payload name : Text) → Emits (IsMove p d) (read_marker env payload name)
  unfolding read_marker
  read_marker-IsMove p d payload name =
      bind-Emits (read_regular env (join_name payload name) 128) _
        (read_regular-Only env _ _ (join_name payload name) 128) λ raw. shown (decode raw)
    where
      shown : (o : Option Text) → Emits (IsMove p d) (stripped o)
      shown none = unfold stripped in none-Emits _
      shown (some text) = unfold stripped in none-Emits _

  -- For every system and outcome: the only changes that `install` asks for are the rename of the
  -- payload to the destination that replaces nothing, and writing out its directory.
  pub install-IsMove :
      (platform payload destination : Text)
      → Emits (IsMove payload destination) (install env platform payload destination)
  unfolding install
  install-IsMove platform payload destination =
      bind-Emits (read_marker env payload (codes "VERSION")) _ (read_marker-IsMove _ _ _ _)
        λ version.
          bind-Emits (read_marker env payload (codes "REVISION")) _ (read_marker-IsMove _ _ _ _)
            λ revision.
              bind-Emits (read_marker env payload (codes ".archive-sha256")) _
                (read_marker-IsMove _ _ _ _)
                λ digest.
                  bind-Emits
                    (handle (move_noreplace env platform payload destination >> return true)
                      (accept_installed env destination version revision digest))
                    _
                    (handle-Emits _ _
                      (bind-Emits (move_noreplace env platform payload destination) _
                        (move_noreplace-IsMove platform payload destination) λ _. none-Emits _)
                      (accept_installed-IsMove payload destination version revision digest))
                    λ moved.
                      if-Emits moved _ _
                        (sync_directory-Only env _ _ (dirname destination) (λ fd. tt))
                        (none-Emits _)
