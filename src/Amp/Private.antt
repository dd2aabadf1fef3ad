-- ===== src/Amp/Private.antt =====
-- What the body of `pinned_amp_path` of runtime/templates/runtime_metadata.py runs on.
use clamp.Prelude.{◌≡◌, ◌∷◌, ◌&&◌, ℕ, true, and-split}
use clamp.Prelude.Results.{ok}
use clamp.Text.{Text, codes}
use clamp.Posix.{join_name}
use clamp.Files.{same_file}
use clamp.Os.{Call, Stat, token, Env, M, History, mkdir, link, act, do_fstat, do_lstat}
use clamp.Os.Outcome.{after-ok, require-ok, ending-ok}
use clamp.Amp.{unpin, run_pinned, with_pinned}
use clamp.Amp.Pinned.{directory_at}

module _ (env : Env) where
  -- The private name of Amp, for a run that begins behind a history.
  abbrev pub private_name : Text → History → Text
  private_name executable h = join_name (directory_at env executable h) (codes "amp")

  -- The history behind the link to Amp.
  abbrev pub linked_at : Text → History → History
  linked_at executable h =
      (act env (link executable (private_name executable h))
        (act env (mkdir (directory_at env executable h) 0x1C0) (token ∷ h)).1).1

  -- The history with which the body begins.
  abbrev pub pinned_at : Text → ℕ → History → History
  pinned_at executable descriptor h =
      Call.lstat (private_name executable h) ∷ Call.fstat descriptor ∷ linked_at executable h

  -- The private name was made a link to Amp, and named the file that the descriptor holds.
  pub record IsPinned (executable : Text) (descriptor : ℕ) (h : History) : Type 0 where
    pub was_linked :
        (act env
          (link executable (private_name executable h))
          (act env (mkdir (directory_at env executable h) 0x1C0) (token ∷ h)).1).0
        ≡ ok tt
    pub retained : Stat
    pub held : env.fstat (linked_at executable h) descriptor ≡ ok retained
    pub observed : Stat
    pub named :
        env.lstat (Call.fstat descriptor ∷ linked_at executable h) (private_name executable h)
        ≡ ok observed
    pub same : same_file retained observed ≡ true
    pub regular : observed.is_regular ≡ true

  pub with_pinned-IsPinned :
      {A : Type 0} (executable : Text) (descriptor : ℕ) (body : Text → M A) (h : History) {a : A}
      → (with_pinned env executable descriptor body h).0 ≡ ok a
      → IsPinned executable descriptor h
        × ((body (private_name executable h) (pinned_at executable descriptor h)).0 ≡ ok a)
  unfolding with_pinned run_pinned
  with_pinned-IsPinned executable descriptor body h e =
      let directory = directory_at env executable h in
      let linked = private_name executable h in
      let (_, _, e₁) = after-ok _ (act env (mkdir directory 0x1C0) (token ∷ h)) e in
      let (ran, _) =
        ending-ok (unpin env directory linked)
          (run_pinned env executable descriptor linked body
            (act env (mkdir directory 0x1C0) (token ∷ h)).1)
          e₁ in
      let (_, was_linked, e₂) = after-ok _ (act env (link executable linked) _) ran in
      let (retained, held, e₃) = after-ok _ (do_fstat env descriptor _) e₂ in
      let (observed, named, e₄) = after-ok _ (do_lstat env linked _) e₃ in
      let (tests, e₅) =
        require-ok (same_file retained observed && observed.is_regular) "Amp executable changed"
          (body linked) _ e₄ in
      let (same, regular) = and-split _ _ tests in
      (
        record {
          was_linked = was_linked;
          retained = retained;
          held = held;
          observed = observed;
          named = named;
          same = same;
          regular = regular;
        },
        e₅,
      )
