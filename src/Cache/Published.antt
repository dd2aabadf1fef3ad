-- ===== src/Cache/Published.antt =====
-- What `cache` of runtime/templates/runtime_metadata.py has done when it returns, and what it can do.
use clamp.Prelude.{◌≡◌, refl, ◌⊎◌, inl, inr, true, ◌++◌, ◌∷◌, length, all, ℕ, Bool-cases}
use clamp.Prelude.Results.{Result, ok, err, err-ne-ok}
use clamp.Text.{Text, codes}
use clamp.Utf8.{Bytes}
use clamp.Patterns.{is_hex, is_digest}
use clamp.Posix.{dirname, join_name}
use clamp.Paths.{max_archive, max_manifest}
use clamp.Os.{
  created, note_create, after, finally, Call, lexists, Env, History, Op, link, unlink, fsync, act,
  require, do_create, do_write, do_close, do_lexists, do_token, ◌>>=◌, ◌>>◌,
}
use clamp.Os.Outcome.{after-ok, ending-ok}
use clamp.Os.Emits.{
  Emits, none-Emits, one-Emits, bind-Emits, if-Emits, act-Emits, create-Emits, finally-Emits,
}
use clamp.Os.Looks.{Only}
use clamp.Files.{read_regular, sync_directory}
use clamp.Files.Looks.{read_regular-Only, sync_directory-Only}
use clamp.Repository.{verify_digest}
use clamp.Repository.Accepted.{verify_digest_iff}
use clamp.Cache.{fill, publish, cache}

module _ (env : Env) (sha256 : Bytes → Text) where
  -- A file was read whole, and its digest was the expected one, which is a digest.
  abbrev pub IsVerified : Text → Text → History → Type 0
  IsVerified path expected h =
      ((length expected ≡ 64) × (all is_hex expected ≡ true))
      × ((raw : Bytes) × ((read_regular env path max_archive h).0 ≡ ok raw)
          × (sha256 raw ≡ expected))

  verified :
      (path expected : Text) (h : History)
      → (verify_digest env sha256 path expected h).0 ≡ ok tt
      → IsVerified path expected h
  verified path expected h e = (verify_digest_iff env sha256 path expected h).0 e

  -- A new file was made, the source was read behind that, what was read was given to one write to the
  -- file, which took `taken` bytes of it, and behind all this the file was linked to the
  -- destination, and then its own name removed. That `taken` is the whole length is not said.
  pub record IsPublished (source destination temporary : Text) (start : History) : Type 0 where
    pub raw : Bytes
    pub fd : ℕ
    pub made : env.create start temporary 0x180 ≡ ok fd
    pub was_read :
        (read_regular env source max_manifest (created temporary 0x180 fd ∷ start)).0 ≡ ok raw
    pub taken : ℕ
    pub was_written :
        env.write
          (read_regular env source max_manifest (created temporary 0x180 fd ∷ start)).1
          fd
          raw
        ≡ ok taken
    pub linked :
        (act env (link temporary destination) (fill env source temporary start).1).0 ≡ ok tt
    pub removed :
        (act env
          (unlink temporary)
          ((act env (link temporary destination) >> sync_directory env (dirname destination))
            (fill env source temporary start).1).1).0
        ≡ ok tt

  -- The temporary file's name, by the token that is drawn behind the look at the destination.
  abbrev pub temporary_at : Text → History → Text
  temporary_at destination h =
      join_name (dirname destination) (codes ".manifest-" ++ env.token (lexists destination ∷ h))

  published :
      (source temporary destination : Text) (h : History)
      → (fill env source temporary h).0 ≡ ok tt
      → (publish env temporary destination (fill env source temporary h).1).0 ≡ ok tt
      → IsPublished source destination temporary h
  unfolding fill publish
  published source temporary destination h e q = filled_from (env.create h temporary 0x180) refl e
    where
      filled_from :
          (r : Result ℕ)
          → env.create h temporary 0x180 ≡ r
          → (after
              (λ fd.
                finally
                  (read_regular env source max_manifest >>= λ raw.
                    do_write env fd raw >>= λ n. act env (fsync fd))
                  (do_close env fd))
              (note_create temporary 0x180 h r)).0
            ≡ ok tt
          → IsPublished source destination temporary h
      filled_from (err x) made e₁ = absurd (err-ne-ok x _ e₁)
      filled_from (ok fd) made e₁ =
          let g : History = (fill env source temporary h).1 in
          let k : History = created temporary 0x180 fd ∷ h in
          let (body, _) =
            ending-ok (do_close env fd)
              ((read_regular env source max_manifest >>= λ raw.
                  do_write env fd raw >>= λ n. act env (fsync fd))
                k)
              e₁ in
          let (raw, was_read, e₂) = after-ok _ (read_regular env source max_manifest k) body in
          let (n, was_written, e₃) =
            after-ok _ (do_write env fd raw (read_regular env source max_manifest k).1) e₂ in
          let (linking, removing) =
            ending-ok (act env (unlink temporary))
              ((act env (link temporary destination) >> sync_directory env (dirname destination)) g)
              q in
          let (_, linked, _) = after-ok _ (act env (link temporary destination) g) linking in
          record {
            raw = raw;
            fd = fd;
            made = made;
            was_read = was_read;
            taken = n;
            was_written = was_written;
            linked = linked;
            removed = removing;
          }

  -- For every system and digest function: when `cache` returns, the source was verified against the
  -- expected digest, and behind that the destination was either seen to exist and verified too, or
  -- was made a link to a new file, whose first name was then removed, and to which, before it was
  -- linked, one write of what was then read of the source was made. How many of those bytes the
  -- write took is not said, nor that they have the digest.
  pub cache_sound :
      (source destination expected : Text) (h : History)
      → (cache env sha256 source destination expected h).0 ≡ ok tt
      → IsVerified source expected h
        × (IsVerified destination expected
              (lexists destination ∷ (verify_digest env sha256 source expected h).1)
            ⊎ IsPublished source destination
                (temporary_at destination (verify_digest env sha256 source expected h).1)
                (Call.token ∷ lexists destination ∷ (verify_digest env sha256 source expected h).1))
  unfolding cache
  cache_sound source destination expected h e =
      let (_, first, e₁) = after-ok _ (verify_digest env sha256 source expected h) e in
      let g : History = (verify_digest env sha256 source expected h).1 in
      (
        verified source expected h first,
        elim (Bool-cases (env.lexists g destination)) [
          | inl y ↦ inl (verified destination expected _ (rw y at e₁))
          | inr n ↦
              let temporary : Text = temporary_at destination g in
              let (_, filled, e₂) = after-ok _ (fill env source temporary _) (rw n at e₁) in
              inr (published source temporary destination _ filled e₂)
        ],
      )

  -- A name for a temporary file beside the destination.
  abbrev pub IsTemporary : Text → Text → Type 0
  IsTemporary destination path =
      (token : Text) × (path ≡ join_name (dirname destination) (codes ".manifest-" ++ token))

  abbrev pub Publishes : Text → Op → Type 0
  Publishes destination (link source target) =
      IsTemporary destination source × (target ≡ destination)
  Publishes destination (unlink path) = IsTemporary destination path
  Publishes destination (fsync fd) = Unit {0}
  Publishes destination _ = ⊥

  -- New files are temporary and private to the user; they are linked to the destination and removed.
  abbrev pub IsPublishing : Text → Call → Type 0
  IsPublishing destination =
      Only (Publishes destination) (λ path mode. IsTemporary destination path × (mode ≡ 0x180))

  verify_digest-IsPublishing :
      (destination path expected : Text)
      → Emits (IsPublishing destination) (verify_digest env sha256 path expected)
  unfolding verify_digest
  verify_digest-IsPublishing destination path expected =
      bind-Emits (require (is_digest expected) "invalid digest") _ (none-Emits _) λ _.
        bind-Emits (read_regular env path max_archive) _
          (read_regular-Only env _ _ path max_archive) λ raw. none-Emits _

  fill-IsPublishing :
      (destination source token : Text)
      → Emits
          (IsPublishing destination)
          (fill env source (join_name (dirname destination) (codes ".manifest-" ++ token)))
  unfolding fill
  fill-IsPublishing destination source token =
      bind-Emits
        (do_create env (join_name (dirname destination) (codes ".manifest-" ++ token)) 0x180) _
        (create-Emits env _ _ (λ fd. ((token, refl), refl)) tt)
        λ fd.
          finally-Emits _ (do_close env fd)
            (bind-Emits (read_regular env source max_manifest) _
              (read_regular-Only env _ _ source max_manifest)
              λ raw.
                bind-Emits (do_write env fd raw) _ (one-Emits _ _ tt)
                  λ n. act-Emits env (fsync fd) tt tt)
            (one-Emits _ _ tt)

  publish-IsPublishing :
      (destination temporary : Text)
      → IsTemporary destination temporary
      → Emits (IsPublishing destination) (publish env temporary destination)
  unfolding publish
  publish-IsPublishing destination temporary t =
      finally-Emits _ (act env (unlink temporary))
        (bind-Emits (act env (link temporary destination)) _
          (act-Emits env (link temporary destination) (t, refl) (t, refl))
          λ _. sync_directory-Only env _ _ (dirname destination) (λ fd. tt))
        (act-Emits env (unlink temporary) t t)

  -- For every system and outcome: the only files that `cache` asks to create or to remove are
  -- temporary ones beside the destination, new and readable by the user only, and the only other
  -- change is the link of such a file to the destination, which replaces nothing.
  pub cache-IsPublishing :
      (source destination expected : Text)
      → Emits (IsPublishing destination) (cache env sha256 source destination expected)
  unfolding cache
  cache-IsPublishing source destination expected =
      bind-Emits (verify_digest env sha256 source expected) _
        (verify_digest-IsPublishing destination source expected)
        λ _. bind-Emits (do_lexists env destination) _ (one-Emits _ _ tt) λ there.
          if-Emits there _ _ (verify_digest-IsPublishing destination destination expected) (
            bind-Emits (do_token env) _ (one-Emits _ _ tt) λ token.
              bind-Emits
                (fill env source (join_name (dirname destination) (codes ".manifest-" ++ token))) _
                (fill-IsPublishing destination source token)
                λ _. publish-IsPublishing destination _ (token, refl))
