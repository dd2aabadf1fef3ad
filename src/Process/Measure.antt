-- ===== src/Process/Measure.antt =====
-- The states of the reading loop of `bounded_output` of runtime/templates/runtime_metadata.py, and
-- what is left to do in each.
use clamp.Prelude.{
  ◌≡◌, ◌≤◌, ◌∙◌, ℕ, zero, suc, ◌+◌, ◌-◌, Bool, true, false, ◌==◌, [], ◌∷◌, leb, length, take, drop,
  if◌then◌else◌, arith, inl, inr, Bool-cases,
}
use clamp.Utf8.{Bytes}
use clamp.Process.{Pump}

abbrev pub weight : Bool → ℕ
weight true = 1
weight false = 0

-- What is left to do: bytes that may be read, bytes that are to be written, and the input's end.
abbrev pub left : ℕ → Bytes → Pump → ℕ
left maximum data_bytes p =
    (maximum - length p.output) + (length data_bytes - p.offset) + weight p.writing

-- The bounds that each state keeps.
abbrev pub IsPumping : ℕ → Bytes → Pump → Type 0
IsPumping maximum data_bytes p = (length p.output ≤ maximum) × (p.offset ≤ length data_bytes)

-- From one state to a later one.
pub record IsLater (maximum : ℕ) (data_bytes : Bytes) (p q : Pump) : Type 0 where
  pub sound : IsPumping maximum data_bytes q
  pub fewer : left maximum data_bytes q ≤ left maximum data_bytes p
  pub still : q.reading ≡ true → p.reading ≡ true

-- And something was done, or the output has ended.
pub record IsProgress (maximum : ℕ) (data_bytes : Bytes) (p q : Pump) : Type 0 where
  pub later : IsLater maximum data_bytes p q
  pub done : q.reading ≡ true → suc (left maximum data_bytes q) ≤ left maximum data_bytes p

pub IsLater-refl :
    (maximum : ℕ) (data_bytes : Bytes) (p : Pump)
    → IsPumping maximum data_bytes p
    → IsLater maximum data_bytes p p
IsLater-refl maximum data_bytes p s = record { sound = s; fewer = omega arith; still = λ r. r }

pub IsProgress-later :
    (maximum : ℕ) (data_bytes : Bytes) (p q r : Pump)
    → IsProgress maximum data_bytes p q
    → IsLater maximum data_bytes q r
    → IsProgress maximum data_bytes p r
IsProgress-later maximum data_bytes p q r a b = record {
  later = record {
    sound = b.sound;
    fewer = omega (arith, b.fewer, a.later.fewer);
    still = λ e. a.later.still (b.still e);
  };
  done = λ e. omega (arith, b.fewer, a.done (b.still e));
}

length-take : (n : ℕ) (s : Bytes) → length (take n s) ≡ (if leb n (length s) then n else length s)
length-take zero s = ground arith
length-take (suc n) [] = ground arith
length-take (suc n) (c ∷ s) = ground (arith, length-take n s)

length-drop : (n : ℕ) (s : Bytes) → length (drop n s) ≡ length s - n
length-drop zero s = omega arith
length-drop (suc n) [] = omega arith
length-drop (suc n) (c ∷ s) = length-drop n s ∙ omega arith

cut-bounds :
    (n l d x : ℕ) → 1 ≤ n → x ≡ (if leb n l then n else l) → l ≡ d → (x ≤ d) × (1 ≤ d → 1 ≤ x)
cut-bounds n l d x e f g = elim (Bool-cases (leb n l)) [
  | inl y ↦ let x' = rw y at f in (ground arith, λ m. omega arith)
  | inr z ↦ let x' = rw z at f in (omega arith, λ m. omega arith)
]

-- Something has been given where the input is not at its end then.
pub given-decreases :
    (size offset written most a w : ℕ)
    → (offset + written == size) ≡ false
    → offset ≤ size
    → written ≤ most
    → (suc offset ≤ size → 1 ≤ most)
    → most ≤ size - offset
    → (1 ≤ most → 1 ≤ written)
    → suc (a + (size - (offset + written)) + w) ≤ a + (size - offset) + w
given-decreases size offset written most a w n s few least bound some_bytes = ground arith

-- The bytes that are given to the input at an offset.
pub piece-length :
    (offset : ℕ) (s : Bytes)
    → (length (take 4096 (drop offset s)) ≤ length s - offset)
      × (suc offset ≤ length s → 1 ≤ length (take 4096 (drop offset s)))
piece-length offset s =
    let taken = length-take 4096 (drop offset s) in
    let dropped = length-drop offset s in
    let (most, least) =
      cut-bounds 4096 (length (drop offset s)) (length s - offset) _ (omega arith) taken dropped in
    (most, λ n. least (omega arith))
