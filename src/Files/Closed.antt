-- ===== src/Files/Closed.antt =====
-- Every descriptor that is opened is closed again.
use clamp.Prelude.{◌&&◌, leb, ℕ, zero, suc, ◌-◌, ◌≡◌, refl, [], ◌++◌, length, is_empty, String}
use clamp.Text.{Text}
use clamp.Utf8.{Bytes}
use clamp.Os.{Stat, Env, fail, require, do_read, do_fstat}
use clamp.Os.Held.{held}
use clamp.Files.{
  read_exactly, read_opened, read_regular, chunk_size, same_file, same_state, do_lstat,
}
use clamp.Os.Keeps.{Keeps, if-Keeps, bind-Keeps, using_open-Keeps}

module _ (env : Env) where
  pub read_exactly-Keeps :
      (message : String) (fuel fd remaining : ℕ) (chunks : Bytes)
      → Keeps (read_exactly env message fuel fd remaining chunks)
  unfolding read_exactly
  read_exactly-Keeps message fuel fd zero chunks h = done fuel
    where
      done : (k : ℕ) → held (read_exactly env message k fd zero chunks h).1 ≡ held h
      done zero = refl
      done (suc k) = refl
  read_exactly-Keeps message zero fd (suc remaining) chunks h = refl
  read_exactly-Keeps message (suc fuel) fd (suc remaining) chunks h =
      bind-Keeps (do_read env fd (chunk_size (suc remaining))) _ (λ h'. refl)
        (λ chunk.
          if-Keeps (is_empty chunk) (fail message) _ (λ h'. refl)
            (read_exactly-Keeps message fuel fd (suc remaining - length chunk) (chunks ++ chunk)))
        h

  read_opened-Keeps : (before : Stat) (fd : ℕ) → Keeps (read_opened env before fd)
  unfolding read_opened
  read_opened-Keeps before fd =
      bind-Keeps (do_fstat env fd) _ (λ h. refl)
        λ current.
          bind-Keeps (require (same_file current before) "metadata file changed") _ (λ h. refl)
            λ _.
              bind-Keeps (read_exactly env "metadata file changed" current.size fd current.size [])
                _ (read_exactly-Keeps "metadata file changed" current.size fd current.size [])
                λ raw.
                  bind-Keeps (do_fstat env fd) _ (λ h. refl)
                    λ later.
                      bind-Keeps (require (same_state later current) "metadata file changed") _
                        (λ h. refl) λ _ h. refl

  -- Whatever the system answers, `read_regular` leaves the open descriptors as they were: the one
  -- that it opens is closed once, when the file is read and on every failure.
  pub read_regular-Keeps : (path : Text) (maximum : ℕ) → Keeps (read_regular env path maximum)
  unfolding read_regular
  read_regular-Keeps path maximum =
      bind-Keeps (do_lstat env path) _ (λ h. refl)
        λ before.
          bind-Keeps (require (before.is_regular && leb before.size maximum) "unsafe metadata file")
            _ (λ h. refl)
            λ _. using_open-Keeps env path (read_opened env before) (read_opened-Keeps before)
