-- ===== src/Os/Looks.antt =====
-- Calls that change no file and start no program, and calls that change only what a condition names.
use clamp.Prelude.{ℕ}
use clamp.Text.{Text}
use clamp.Os.{Call, Op, did, failed, created, create_failed, wrote, spawned}

-- A call that changes no file and starts no program.
abbrev pub IsLook : Call → Type 0
IsLook (did _) = ⊥
IsLook (failed _) = ⊥
IsLook (created _ _ _) = ⊥
IsLook (create_failed _) = ⊥
IsLook (wrote _ _) = ⊥
IsLook (spawned _ _) = ⊥
IsLook _ = Unit {0}

-- The changes are operations of one kind, and new files of another. What is written goes to a
-- descriptor.
abbrev pub Only : (Op → Type 0) → (Text → ℕ → Type 0) → Call → Type 0
Only ops new (did op) = ops op
Only ops new (failed op) = ops op
Only ops new (created path mode _) = new path mode
Only ops new (spawned _ _) = ⊥
Only ops new _ = Unit {0}

pub look-Only : (ops : Op → Type 0) (new : Text → ℕ → Type 0) (c : Call) → IsLook c → Only ops new c
look-Only ops new (did op) l = elim l [ ]
look-Only ops new (failed op) l = elim l [ ]
look-Only ops new (created _ _ _) l = elim l [ ]
look-Only ops new (spawned _ _) l = elim l [ ]
look-Only ops new _ l = tt
