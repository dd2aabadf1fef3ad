-- ===== src/Files/Reads.antt =====
-- The reading loop of `amp_digest` of runtime/templates/runtime_metadata.py ends with the file.
use clamp.Prelude.{
  ap, ◌≡◌, ◌≢◌, ◌≤◌, refl, ℕ, zero, suc, false, ◌∷◌, ◌++◌, is_empty, if◌then◌else◌, arith,
}
use clamp.Prelude.Results.{Result, ok, err, out_of_rounds}
use clamp.Utf8.{Bytes}
use clamp.Os.{after, Env, Call, History, return}
use clamp.Os.Ends.{Ends, Ends-total, return-Ends, if-Ends}
use clamp.Files.{read_all}

module _ (env : Env) (rest : History → ℕ)
    (shrinks : (h : History) (fd : ℕ) (chunk : Bytes)
      → env.read h fd 65536 ≡ ok chunk
      → is_empty chunk ≡ false
      → suc (rest (Call.read fd 65536 ∷ h)) ≤ rest h)
    (honest : (h : History) (fd : ℕ) → env.read h fd 65536 ≢ err out_of_rounds) where
  read_all-Ends :
      (fuel fd : ℕ) (chunks : Bytes) (h : History)
      → suc (rest h) ≤ fuel
      → Ends (λ _. Unit {0}) (read_all env fuel fd chunks h)
  unfolding read_all
  read_all-Ends zero fd chunks h n = absurd (omega arith)
  read_all-Ends (suc fuel) fd chunks h n =
      read_step (λ chunk. read_all-Ends fuel fd (chunks ++ chunk) (Call.read fd 65536 ∷ h))
        (env.read h fd 65536) refl (honest h fd)
    where
      read_step :
          ((chunk : Bytes)
            → suc (rest (Call.read fd 65536 ∷ h)) ≤ fuel
            → Ends
                (λ _. Unit {0})
                (read_all env fuel fd (chunks ++ chunk) (Call.read fd 65536 ∷ h)))
          → (r : Result Bytes) → env.read h fd 65536 ≡ r
          → r ≢ err out_of_rounds
          → Ends
              (λ _. Unit {0})
              (after
                (λ chunk.
                  if is_empty chunk then return chunks else read_all env fuel fd (chunks ++ chunk))
                (r, Call.read fd 65536 ∷ h))
      read_step again (err x) is ne = record { holds = λ e. ne (ap err e) }
      read_step again (ok chunk) is ne =
          if-Ends (is_empty chunk) (return chunks) _ _ (λ _. return-Ends chunks _ tt)
            λ some_bytes. again chunk (omega (arith, shrinks h fd chunk is some_bytes))

  -- Where each read that gives something leaves less to read, a round for each such step and one more
  -- are enough: the loop does not run out of them.
  pub read_all-total :
      (fuel fd : ℕ) (chunks : Bytes) (h : History)
      → suc (rest h) ≤ fuel
      → (read_all env fuel fd chunks h).0 ≢ err out_of_rounds
  read_all-total fuel fd chunks h n = Ends-total _ (read_all-Ends fuel fd chunks h n)
