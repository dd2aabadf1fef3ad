-- ===== src/Extract/Entry.antt =====
-- A member of an archive that `extract_archive` of runtime/templates/runtime_metadata.py has
-- written is whole.
use clamp.Prelude.{
  sym, append-nil, append_assoc, ◌∙◌, ap, ℕ, zero, suc, ◌-◌, ◌≤◌, ◌≡◌, ◌≢◌, refl, ◌==◌, [], ◌∷◌,
  ◌++◌, if◌then◌else◌, is_empty, length, length-append, arith,
}
use clamp.Prelude.Results.{err-ne-ok, ok, err, out_of_rounds}
use clamp.Utf8.{Bytes}
use clamp.Archive.{Member}
use clamp.Os.{Op, flush, require, Env, History, did, write_buffer, act}
use clamp.Os.Yields.{
  any-Yields, map-Yields, require-Yields, Yields-ok, Yields, answer-Yields, after-Yields,
  unless-Yields, act-Yields,
}
use clamp.Os.Outcome.{after-err, unless-err, act-total, filled-length}
use clamp.Files.{chunk_size}
use clamp.Json.{ℤ, pos, negsuc}
use clamp.Extract.{
  drain_rounds, do_entry_rest, copy_size, Library, IsReader, copy_rounds, do_entry_read, copy_entry,
}

-- The bytes that a history gave to a buffered file, which are those of its writes that succeeded.
abbrev pub buffered : ℕ → History → Bytes
buffered fd [] = []
buffered fd (did (write_buffer k bytes) ∷ h) =
    if k == fd then buffered fd h ++ bytes else buffered fd h
buffered fd (_ ∷ h) = buffered fd h

buffered_behind :
    (fd : ℕ) (bytes : Bytes) (h : History)
    → buffered fd (did (write_buffer fd bytes) ∷ h) ≡ buffered fd h ++ bytes
buffered_behind fd bytes h = ground arith

-- The bytes that a computation gave to a file.
abbrev pub Appends : ℕ → ℕ → History → History → Type 0
Appends fd n h g = (bytes : Bytes) × (buffered fd g ≡ buffered fd h ++ bytes) × (length bytes ≡ n)

append_more :
    (fd : ℕ) (chunk : Bytes) (n : ℕ) (h k g : History)
    → length chunk ≤ n
    → buffered fd k ≡ buffered fd h ++ chunk
    → Appends fd (n - length chunk) k g
    → Appends fd n h g
append_more fd chunk n h k g few wrote (bytes, more, size) = (
  chunk ++ bytes,
  more ∙ ap (λ b. b ++ bytes) wrote ∙ append_assoc (buffered fd h) chunk bytes,
  omega (arith, length-append chunk bytes),
)

module _ (env : Env) (library : Library) (law : IsReader library) where
  chunk-le :
      (m : Member) (remaining : ℕ) (h : History) (chunk : Bytes)
      → library.entry_read h m (chunk_size remaining) ≡ ok chunk
      → length chunk ≤ remaining
  chunk-le m remaining h chunk e = ground (arith, law.at_most h m (chunk_size remaining) chunk e)

  copy_rounds-Yields :
      (fuel : ℕ) (m : Member) (fd remaining : ℕ) (h : History)
      → remaining ≤ fuel
      → Yields (λ g _. Appends fd remaining h g) (copy_rounds env library fuel m fd remaining h)
  unfolding copy_rounds
  copy_rounds-Yields zero m fd zero h n = record { holds = ([], sym (append-nil _), refl) }
  copy_rounds-Yields (suc fuel) m fd zero h n = record { holds = ([], sym (append-nil _), refl) }
  copy_rounds-Yields zero m fd (suc remaining) h n = absurd (omega arith)
  copy_rounds-Yields (suc fuel) m fd (suc remaining) h n =
      after-Yields _ (do_entry_read env library m (chunk_size (suc remaining)) h)
        (answer-Yields
          {P = λ g chunk. (buffered fd g ≡ buffered fd h) × (length chunk ≤ suc remaining)} _ _
          λ chunk got. (refl, chunk-le m (suc remaining) h chunk got))
        λ chunk g (same, few). unless-Yields (is_empty chunk) _ _ g λ filled.
          after-Yields _ (act env (write_buffer fd chunk) g)
            (act-Yields {P = λ k _. buffered fd k ≡ buffered fd h ++ chunk} env
              (write_buffer fd chunk) g
              (buffered_behind fd chunk g ∙ ap (λ bytes. bytes ++ chunk) same))
            λ _ k wrote.
              map-Yields (copy_rounds env library fuel m fd (suc remaining - length chunk) k)
                (copy_rounds-Yields fuel m fd (suc remaining - length chunk) k
                  (omega (arith, filled-length chunk filled)))
                λ _ j. append_more fd chunk (suc remaining) h k j few wrote

  -- A negative size is never copied.
  drain_rounds-Yields :
      (fuel : ℕ) (m : Member) (fd : ℕ) (h : History)
      → Yields (λ _ _. ⊥) (drain_rounds env library fuel m fd h)
  unfolding drain_rounds
  drain_rounds-Yields zero m fd h = record { holds = tt }
  drain_rounds-Yields (suc fuel) m fd h =
      after-Yields _ (do_entry_rest env library m h) (any-Yields _) λ chunk g _.
        unless-Yields (is_empty chunk) _ _ g λ _.
          after-Yields _ (act env (write_buffer fd chunk) g) (any-Yields _)
            λ _ k _. drain_rounds-Yields fuel m fd k

  -- The file has got as many bytes as an integer says, which is not negative.
  abbrev pub Copies : ℕ → ℤ → History → History → Type 0
  Copies fd size h g = (n : ℕ) × (size ≡ pos n) × Appends fd n h g

  copy_size-Yields :
      (size : ℤ) (m : Member) (fd : ℕ) (h : History)
      → Yields (λ g _. Copies fd size h g) (copy_size env library size m fd h)
  unfolding copy_size
  copy_size-Yields (pos n) m fd h =
      map-Yields (copy_rounds env library n m fd n h) (copy_rounds-Yields n m fd n h (omega arith))
        λ _ g copied. (n, refl, copied)
  copy_size-Yields (negsuc _) m fd h =
      map-Yields (drain_rounds env library library.rounds m fd h)
        (drain_rounds-Yields library.rounds m fd h) λ _ g never. absurd never

  -- For every system and every archive library whose `read` gives no more than it is asked for:
  -- when a member of the archive has been copied, the size that the archive's list says of it is not
  -- negative, and the buffered file of its descriptor was given bytes behind those that it had,
  -- exactly as many as that size.
  pub copy_entry_sound :
      (m : Member) (fd : ℕ) (h : History)
      → (copy_entry env library m fd h).0 ≡ ok tt
      → Copies fd m.size h (copy_entry env library m fd h).1
  unfolding copy_entry
  copy_entry_sound m fd h =
      Yields-ok {P = λ g _. Copies fd m.size h g} (copy_entry env library m fd h) (
        after-Yields _ (copy_size env library m.size m fd h) (copy_size-Yields m.size m fd h)
          λ _ g copied.
            after-Yields _ (do_entry_read env library m 1 g)
              (answer-Yields {P = λ k _. Copies fd m.size h k} _ _ λ _ _. copied)
              λ extra k copied'.
                after-Yields _ (require (is_empty extra) "long runtime archive entry" k)
                  (require-Yields {P = λ j _. Copies fd m.size h j} (is_empty extra) _ k
                    λ _. copied')
                  λ _ j copied''. act-Yields env (flush fd) j copied'')

  -- A round for each byte is enough: where neither the reads nor the writes fail with the model's
  -- own error, copying a member does not run out of rounds.
  pub copy_rounds-total :
      (sound : (h : History) (op : Op) → env.act h op ≢ err out_of_rounds) (fuel : ℕ) (m : Member)
      (fd remaining : ℕ) (h : History)
      → remaining ≤ fuel
      → (copy_rounds env library fuel m fd remaining h).0 ≢ err out_of_rounds
  unfolding copy_rounds
  copy_rounds-total sound zero m fd zero h n e = err-ne-ok _ tt (sym e)
  copy_rounds-total sound (suc fuel) m fd zero h n e = err-ne-ok _ tt (sym e)
  copy_rounds-total sound zero m fd (suc remaining) h n e = absurd (omega arith)
  copy_rounds-total sound (suc fuel) m fd (suc remaining) h n e =
      let (chunk, got, e₁) =
        after-err _ (do_entry_read env library m (chunk_size (suc remaining)) h)
          (law.honest h m (chunk_size (suc remaining))) e in
      let (filled, e₂) = unless-err (is_empty chunk) _ _ _ e₁ in
      let (_, _, e₃) =
        after-err _ (act env (write_buffer fd chunk) _)
          (act-total env (write_buffer fd chunk) _ (sound _ (write_buffer fd chunk))) e₂ in
      copy_rounds-total sound fuel m fd (suc remaining - length chunk) _
        (omega (arith, filled-length chunk filled)) e₃
