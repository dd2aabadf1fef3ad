-- ===== src/Files/Digest.antt =====
-- What `amp_digest_descriptor` of runtime/templates/runtime_metadata.py returns.
use clamp.Prelude.{◌≡◌, sym, ◌∙◌, ap, subst, ℕ, [], length, true, arith, ◌∷◌}
use clamp.Prelude.Results.{Result, ok, ok_inj}
use clamp.Text.{Text}
use clamp.Utf8.{Bytes}
use clamp.Os.{Call, Stat, Env, IsBounded, History, return, do_fstat, do_rewind}
use clamp.Os.Outcome.{after-ok, require-ok}
use clamp.Files.{read_exactly, same_state, amp_digest_descriptor}
use clamp.Files.Complete.{read_exactly-length}

module _ (env : Env) (law : IsBounded env) (sha256 : Bytes → Text) where
  -- The reading, behind a first look at the descriptor and its return to the start.
  abbrev pub reading : ℕ → Stat → History → Result Bytes × History
  reading fd current h =
      read_exactly env "Amp executable changed" current.size fd current.size []
        (Call.rewind fd ∷ Call.fstat fd ∷ h)

  -- The state that the first look gave, a digest of as many bytes as it names, which were read from
  -- the start, and the look behind the last read, which gave the same state.
  pub record IsDigestOf (fd : ℕ) (h : History) (current : Stat) (digest : Text) : Type 0 where
    pub first : env.fstat h fd ≡ ok current
    pub raw : Bytes
    pub was_read : (reading fd current h).0 ≡ ok raw
    pub whole : length raw ≡ current.size
    pub hashed : digest ≡ sha256 raw
    pub again :
        (later : Stat) × (env.fstat (reading fd current h).1 fd ≡ ok later)
        × (same_state later current ≡ true)

  -- For every system whose `read` gives no more than it is asked for: what `amp_digest_descriptor`
  -- returns is the state that it saw first and the digest of as many bytes as the file had then, read
  -- from its start; and the look at the descriptor behind the last read gave the same state.
  pub amp_digest_descriptor_sound :
      (fd : ℕ) (h : History) (current : Stat) (digest : Text)
      → (amp_digest_descriptor env sha256 fd h).0 ≡ ok (current, digest)
      → IsDigestOf fd h current digest
  unfolding amp_digest_descriptor
  amp_digest_descriptor_sound fd h current digest e =
      let (first, looked, e₁) = after-ok _ (do_fstat env fd h) e in
      let (_, _, e₂) = after-ok _ (do_rewind env fd _) e₁ in
      let loop = read_exactly env "Amp executable changed" first.size fd first.size [] in
      let (raw, got, e₃) = after-ok _ (loop _) e₂ in
      let (later, seen, e₄) = after-ok _ (do_fstat env fd _) e₃ in
      let (same, e₅) =
        require-ok (same_state later first) "Amp executable changed" (return (first, sha256 raw)) _
          e₄ in
      let returned = ok_inj e₅ in
      let is : current ≡ first = ap (λ p. p.0) returned in
      subst (λ st. IsDigestOf fd h st digest) (sym is)
        (record {
          first = looked;
          raw = raw;
          was_read = got;
          whole =
              read_exactly-length env law "Amp executable changed" first.size fd first.size [] _
                (omega arith) got
              ∙ omega arith;
          hashed = ap (λ p. p.1) returned;
          again = (later, seen, same);
        })
