-- ===== src/Files/Complete.antt =====
-- What `read_regular` returns is the whole file, unchanged while it was read.
use clamp.Prelude.{
  ℕ, zero, suc, ◌+◌, ◌-◌, ◌≤◌, ◌≡◌, ◌≢◌, sym, ◌∙◌, ap, true, ◌&&◌, leb, [], ◌++◌, length, is_empty,
  arith, String, length-append, and-split, leb→le,
}
use clamp.Prelude.Results.{ok, err, out_of_rounds, err-ne-ok, ok_inj}
use clamp.Text.{Text}
use clamp.Utf8.{Bytes}
use clamp.Os.{
  ◌>>◌, Stat, Env, IsBounded, History, ◌>>=◌, require, do_read, do_fstat, do_close, do_lstat,
}
use clamp.Os.Outcome.{
  unless-ok, unless-err, after-err, filled-length, ending-ok, after-ok, require-ok,
}
use clamp.Files.{
  read_exactly, read_opened, read_regular, chunk_size, same_file, same_state, do_open, return,
}

same_file-size : (a b : Stat) → same_file a b ≡ true → a.size ≡ b.size
unfolding same_file
same_file-size a b h = ground arith

module _ (env : Env) (law : IsBounded env) where
  chunk-le :
      (fd remaining : ℕ) (h : History) (chunk : Bytes)
      → env.read h fd (chunk_size remaining) ≡ ok chunk
      → length chunk ≤ remaining
  chunk-le fd remaining h chunk e = ground (arith, law.at_most h fd (chunk_size remaining) chunk e)

  -- The loop returns as many bytes more as remained, given a round for each of them.
  pub read_exactly-length :
      (message : String) (fuel fd remaining : ℕ) (chunks : Bytes) (h : History) {raw : Bytes}
      → remaining ≤ fuel
      → (read_exactly env message fuel fd remaining chunks h).0 ≡ ok raw
      → length raw ≡ length chunks + remaining
  unfolding read_exactly
  read_exactly-length message zero fd zero chunks h n e = ap length (ok_inj e) ∙ omega arith
  read_exactly-length message (suc fuel) fd zero chunks h n e = ap length (ok_inj e) ∙ omega arith
  read_exactly-length message zero fd (suc remaining) chunks h n e = absurd (omega arith)
  read_exactly-length message (suc fuel) fd (suc remaining) chunks h {raw} n e =
      let (chunk, got, e₁) = after-ok _ (do_read env fd (chunk_size (suc remaining)) h) e in
      let (filled, e₂) = unless-ok (is_empty chunk) message _ _ e₁ in
      let some_bytes = filled-length chunk filled in
      let few = chunk-le fd (suc remaining) h chunk got in
      let size =
        read_exactly-length message fuel fd (suc remaining - length chunk) (chunks ++ chunk) _
          (omega arith) e₂ in
      omega (arith, length-append chunks chunk)

  -- A round for each byte that remains is enough: the reading loop ends by its own test, by the end
  -- of the file or by an error of the system.
  pub read_exactly-total :
      (message : String) (fuel fd remaining : ℕ) (chunks : Bytes) (h : History)
      → remaining ≤ fuel
      → (read_exactly env message fuel fd remaining chunks h).0 ≢ err out_of_rounds
  unfolding read_exactly
  read_exactly-total message zero fd zero chunks h n e = err-ne-ok _ chunks (sym e)
  read_exactly-total message (suc fuel) fd zero chunks h n e = err-ne-ok _ chunks (sym e)
  read_exactly-total message zero fd (suc remaining) chunks h n e = absurd (omega arith)
  read_exactly-total message (suc fuel) fd (suc remaining) chunks h n e =
      let (chunk, got, e₁) =
        after-err _ (do_read env fd (chunk_size (suc remaining)) h)
          (law.honest h fd (chunk_size (suc remaining))) e in
      let (filled, e₂) = unless-err (is_empty chunk) message _ _ e₁ in
      let some_bytes = filled-length chunk filled in
      read_exactly-total message fuel fd (suc remaining - length chunk) (chunks ++ chunk) _
        (omega arith) e₂

  -- A returned file: regular, no larger than allowed, and whole.
  pub record IsWhole (before : Stat) (maximum : ℕ) (raw : Bytes) : Type 0 where
    pub regular : before.is_regular ≡ true
    pub bounded : before.size ≤ maximum
    pub whole : length raw ≡ before.size

  -- The part of the body behind the first look at the descriptor.
  read_back :
      (current : Stat) (fd : ℕ) (h : History) (raw : Bytes)
      → ((read_exactly env "metadata file changed" current.size fd current.size [] >>= λ bytes.
            do_fstat env fd >>= λ later.
            require (same_state later current) "metadata file changed" >> return bytes)
          h).0
        ≡ ok raw
      → length raw ≡ current.size
  read_back current fd h raw e =
      let loop = read_exactly env "metadata file changed" current.size fd current.size [] in
      let (bytes, got, e₁) = after-ok _ (loop h) e in
      let (later, _, e₂) = after-ok _ (do_fstat env fd (loop h).1) e₁ in
      let (_, e₃) =
        require-ok (same_state later current) "metadata file changed" (return bytes) _ e₂ in
      let size =
        read_exactly-length "metadata file changed" current.size fd current.size [] h (omega arith)
          got in
      ap length (ok_inj e₃) ∙ size ∙ omega arith

  read_opened-length :
      (before : Stat) (fd : ℕ) (h : History) (raw : Bytes)
      → (read_opened env before fd h).0 ≡ ok raw
      → length raw ≡ before.size
  unfolding read_opened
  read_opened-length before fd h raw e =
      let (current, _, e₁) = after-ok _ (do_fstat env fd h) e in
      let (same, e₂) = require-ok (same_file current before) "metadata file changed" _ _ e₁ in
      read_back current fd _ raw e₂ ∙ same_file-size current before same

  -- For every system whose `read` gives no more than it is asked for: what `read_regular` returns
  -- has the length that `lstat` gave at first, of a regular file no larger than the maximum.
  pub read_regular-IsWhole :
      (path : Text) (maximum : ℕ) (h : History) (raw : Bytes)
      → (read_regular env path maximum h).0 ≡ ok raw
      → (before : Stat) × (env.lstat h path ≡ ok before) × IsWhole before maximum raw
  unfolding read_regular
  read_regular-IsWhole path maximum h raw e =
      let (before, seen, e₁) = after-ok _ (do_lstat env path h) e in
      let (tests, e₂) =
        require-ok (before.is_regular && leb before.size maximum) "unsafe metadata file" _ _ e₁ in
      let (regular, small) = and-split _ _ tests in
      let (fd, _, e₃) = after-ok _ (do_open env path _) e₂ in
      let (body, _) = ending-ok (do_close env fd) (read_opened env before fd _) e₃ in
      (
        before,
        seen,
        record {
          regular = regular;
          bounded = leb→le _ _ small;
          whole = read_opened-length before fd _ raw body;
        },
      )
