-- ===== src/Os/Heard.antt =====
-- What the calls of a run have read from a descriptor, and the order of calls in a run.
use clamp.Prelude.{◌≡◌, refl, ◌∙◌, ℕ, ◌==◌, [], ◌∷◌, ◌++◌, if◌then◌else◌}
use clamp.Prelude.Results.{Result, ok, err}
use clamp.Utf8.{Bytes}
use clamp.Os.{Env, Call, read, History}
use clamp.Os.Emits.{Grows, same, more}

abbrev pub answered : Result Bytes → Bytes
answered (ok bytes) = bytes
answered (err _) = []

-- The bytes that the reads of a descriptor gave, in the order of the reads.
abbrev pub heard : Env → ℕ → History → Bytes
heard env fd [] = []
heard env fd (read k n ∷ h) =
    if k == fd then heard env fd h ++ answered (env.read h k n) else heard env fd h
heard env fd (_ ∷ h) = heard env fd h

-- A call that reads nothing.
abbrev pub IsSilent : Call → Type 0
IsSilent (read _ _) = ⊥
IsSilent _ = Unit {0}

-- The second history continues the first.
abbrev pub Follows : History → History → Type 0
Follows h g = Grows (λ _. Unit {0}) h g

pub silent-heard :
    (env : Env) (fd : ℕ) {h g : History} → Grows IsSilent h g → heard env fd g ≡ heard env fd h
silent-heard env fd same = refl
silent-heard env fd (more {c = c} {g = g} p r) = call c p ∙ silent-heard env fd r
  where
    call : (d : Call) → IsSilent d → heard env fd (d ∷ g) ≡ heard env fd g
    call (read _ _) q = elim q [ ]
    call _ q = refl

pub silent-Follows : {h g : History} → Grows IsSilent h g → Follows h g
silent-Follows same = same
silent-Follows (more p r) = more tt (silent-Follows r)
