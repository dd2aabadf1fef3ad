-- ===== src/Os/Held.antt =====
-- The descriptors that a history leaves open.
use clamp.Prelude.{ℕ, List, [], ◌∷◌, ◌==◌, if◌then◌else◌}
use clamp.Os.{History, opened, created, close}

-- One closing takes back one opening of the descriptor.
abbrev pub drop_one : ℕ → List ℕ → List ℕ
drop_one fd [] = []
drop_one fd (d ∷ ds) = if d == fd then ds else d ∷ drop_one fd ds

abbrev pub held : History → List ℕ
held [] = []
held (opened path fd ∷ h) = fd ∷ held h
held (created path mode fd ∷ h) = fd ∷ held h
held (close fd ∷ h) = drop_one fd (held h)
held (_ ∷ h) = held h
