-- ===== src/Enroll/Saved.antt =====
-- What the part of `enroll_amp` of runtime/templates/runtime_metadata.py that saves the record has
-- checked and done when it returns.
use clamp.Prelude.{
  ◌≡◌, refl, ◌&&◌, true, Option, none, some, subst, inl, inr, and-split, Bool-cases, String, subst,
}
use clamp.Prelude.Results.{Exn, Result, ok, err, err-ne-ok}
use clamp.Text.{Text, codes, text_eq}
use clamp.Text.Equality.{text_eq_iff}
use clamp.Utf8.{Bytes}
use clamp.Posix.{join_name}
use clamp.Trust.{verify_amp}
use clamp.Trust.Amp.{IsAmp, verify_amp_sound}
use clamp.Os.{Stat, Env, History, handled, handle, act, replace, is_os_error}
use clamp.Os.Outcome.{after-ok, require-ok, ending-ok}
use clamp.Files.{same_file, amp_digest, sync_directory}
use clamp.Enroll.{
  last_identity, same_identity, write_record, os_failure, remove_temporary, Local, commit,
  write_and_commit, save, save_encoded,
}

-- A handler that only fails changes no success.
os_failure-fails :
    (env : Env) (message : String) (x : Exn) (h : History)
    → (os_failure env message x h).0 ≡ ok tt
    → ⊥
unfolding os_failure
os_failure-fails env message x h e = elim (Bool-cases (is_os_error x)) [ inl y ↦ cc | inr n ↦ cc ]

handle-ok :
    (env : Env) (message : String) (r : Result (Unit {0}) × History)
    → (handled (os_failure env message) r).0 ≡ ok tt
    → r.0 ≡ ok tt
handle-ok env message (ok _, h) e = refl
handle-ok env message (err x, h) e = absurd (os_failure-fails env message x h e)

handled-same :
    (env : Env) (message : String) (r : Result (Unit {0}) × History)
    → (handled (os_failure env message) r).0 ≡ ok tt
    → handled (os_failure env message) r ≡ r
handled-same env message (ok _, h) e = refl
handled-same env message (err x, h) e = absurd (os_failure-fails env message x h e)

module _ (env : Env) (site : Local) where
  -- What the look at the executable gave, when it was taken behind a history.
  abbrev pub WasDigested : Text → History → Stat × Text → Type 0
  WasDigested executable h observed =
      (amp_digest env site.sha256 site.rounds executable h).0 ≡ ok observed

  -- The histories of a run of `save`: behind the record's writing, behind the second `verify_amp`,
  -- behind the second digest, and behind the second look at the destination.
  abbrev pub saved_at : Text → Bytes → History → History
  saved_at temporary raw h = (write_record env temporary raw h).1

  abbrev pub verified_at : Text → Text → History → History
  verified_at home executable h = (verify_amp env home executable h).1

  abbrev pub digested_at : Text → History → History
  digested_at executable h = (amp_digest env site.sha256 site.rounds executable h).1

  abbrev pub placed : Text → Text
  placed repository = join_name repository (codes "local.json")

  -- From the history with which `save` begins: the record was written to the temporary file; behind
  -- that, Amp was verified, then digested, then the destination was looked at, and found as before;
  -- and then the file was put in the destination's place.
  pub record IsRecorded (home executable repository temporary : Text) (observed : Stat × Text)
      (identity : Option Stat) (raw : Bytes) (h : History) : Type 0 where
    pub written : (write_record env temporary raw h).0 ≡ ok tt
    pub verified : (verify_amp env home executable (saved_at temporary raw h)).0 ≡ ok tt
    pub amp : IsAmp env home executable
    pub final : Stat × Text
    pub digested :
        WasDigested executable (verified_at home executable (saved_at temporary raw h)) final
    pub same_executable : same_file final.0 observed.0 ≡ true
    pub same_digest : final.1 ≡ observed.1
    pub current : Option Stat
    pub looked :
        (last_identity env
          (placed repository)
          (digested_at executable (verified_at home executable (saved_at temporary raw h)))).0
        ≡ ok current
    pub unmoved : same_identity current identity ≡ true
    pub replaced :
        (act env
          (replace temporary (placed repository))
          (last_identity env
            (placed repository)
            (digested_at executable (verified_at home executable (saved_at temporary raw h)))).1).0
        ≡ ok tt
    pub synced :
        (sync_directory env repository
          (commit env site home executable observed identity temporary
            (placed repository)
            (saved_at temporary raw h)).1).0
        ≡ ok tt

  save-IsRecorded :
      (home executable : Text) (observed : Stat × Text) (identity : Option Stat)
      (temporary repository : Text) (raw : Bytes) (h : History)
      → (save env site home executable observed identity temporary repository raw h).0 ≡ ok tt
      → IsRecorded home executable repository temporary observed identity raw h
  unfolding save write_and_commit commit
  save-IsRecorded home executable observed identity temporary repository raw h e =
      let (body, _) =
        ending-ok (remove_temporary env temporary)
          (handle
            (write_and_commit env site home executable observed identity temporary repository raw)
            (os_failure env "Amp enrollment write failed") h)
          e in
      let tried = handle-ok env "Amp enrollment write failed" _ body in
      let (_, written, e₁) = after-ok _ (write_record env temporary raw h) tried in
      let (_, committed, e₂) =
        after-ok _
          (handle
            (commit env site home executable observed identity temporary
              (join_name repository (codes "local.json")))
            (os_failure env "Amp enrollment write failed") _)
          e₁ in
      let synced = handle-ok env "Amp enrollment durability uncertain" _ e₂ in
      let done = handle-ok env "Amp enrollment write failed" _ committed in
      let (_, amp, e₃) = after-ok _ (verify_amp env home executable _) done in
      let (final, digested, e₄) =
        after-ok _ (amp_digest env site.sha256 site.rounds executable _) e₃ in
      let (tests, e₅) =
        require-ok (same_file final.0 observed.0 && text_eq final.1 observed.1)
          "Amp executable changed" _ _ e₄ in
      let (current, looked, e₆) =
        after-ok _ (last_identity env (join_name repository (codes "local.json")) _) e₅ in
      let (unmoved, e₇) =
        require-ok (same_identity current identity) "unsafe Amp enrollment" _ _ e₆ in
      let (same, digest) = and-split _ _ tests in
      record {
        written = written;
        verified = amp;
        amp = verify_amp_sound env home executable _ amp;
        final = final;
        digested = digested;
        same_executable = same;
        same_digest = (text_eq_iff _ _).0 digest;
        current = current;
        looked = looked;
        unmoved = unmoved;
        replaced = e₇;
        synced =
            subst (λ r. (sync_directory env repository r.1).0 ≡ ok tt)
              (handled-same env "Amp enrollment write failed" _ committed) synced;
      }

  pub save_encoded-IsRecorded :
      (home executable : Text) (observed : Stat × Text) (identity : Option Stat)
      (temporary repository : Text) (o : Option Bytes) (h : History)
      → (save_encoded env site home executable observed identity temporary repository o h).0 ≡ ok tt
      → (raw : Bytes) × (o ≡ some raw)
        × IsRecorded home executable repository temporary observed identity raw h
  unfolding save_encoded
  save_encoded-IsRecorded home executable observed identity temporary repository none h e =
      absurd (err-ne-ok _ _ e)
  save_encoded-IsRecorded home executable observed identity temporary repository (some raw) h e =
      (raw, refl, save-IsRecorded home executable observed identity temporary repository raw h e)
