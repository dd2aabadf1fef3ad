-- ===== src/Regex.antt =====
-- Python's `re`, as far as the patterns of runtime/templates/runtime_metadata.py use it: a
-- backtracking matcher that lists what may be left behind a match, the preferred first.
pub mod Runs
use clamp.Prelude.{
  ℕ, zero, suc, Bool, List, [], ◌∷◌, ◌++◌, ltb, ◌==◌, length, if◌then◌else◌, any, is_empty,
}
use clamp.Text.{Text}

pub data Regex : Type 0 where
  -- One character of a class.
  one : (ℕ → Bool) → Regex
  seq : Regex → Regex → Regex
  alt : Regex → Regex → Regex
  -- `r*`, greedy.
  star : Regex → Regex
  -- `r{n}`
  times : ℕ → Regex → Regex
  -- `^` with no flag: only at the start of the text.
  start : Regex
  -- `$` with no flag: at the end, or before a final line feed.
  stop : Regex
  -- The empty pattern.
  empty : Regex

-- What each of the given rests may leave behind.
pub from_each : (Text → List Text) → List Text → List Text
from_each f [] = []
from_each f (s ∷ ss) = f s ++ from_each f ss

-- The rounds of `r*`: each consumes something, so their number is bounded by the length.
pub rounds : (Text → List Text) → ℕ → Text → List Text
unfolding from_each
rounds f zero s = s ∷ []
rounds f (suc fuel) s =
    from_each (λ t. if ltb (length t) (length s) then rounds f fuel t else []) (f s) ++ (s ∷ [])

pub repeat : (Text → List Text) → ℕ → Text → List Text
unfolding from_each
repeat f zero s = s ∷ []
repeat f (suc n) s = from_each (repeat f n) (f s)

pub run_one : (ℕ → Bool) → Text → List Text
run_one p [] = []
run_one p (c ∷ s) = if p c then s ∷ [] else []

pub run_stop : Text → List Text
run_stop [] = [] ∷ []
run_stop (c ∷ []) = if c == 10 then (c ∷ []) ∷ [] else []
run_stop (_ ∷ _ ∷ _) = []

-- The rests of `s` behind the matches of a pattern; `total` is the length of the whole text.
unfoldable pub run : ℕ → Regex → Text → List Text
unfolding from_each rounds repeat run_one run_stop
run total (one p) s = run_one p s
run total (seq a b) s = from_each (run total b) (run total a s)
run total (alt a b) s = run total a s ++ run total b s
run total (star r) s = rounds (run total r) (length s) s
run total (times n r) s = repeat (run total r) n s
run total start s = if length s == total then s ∷ [] else []
run total stop s = run_stop s
run total empty s = s ∷ []

-- `re.fullmatch(r, s) is not None`
unfoldable pub fullmatch : Regex → Text → Bool
unfolding run
fullmatch r s = any is_empty (run (length s) r s)

-- `r+`
abbrev pub plus : Regex → Regex
plus r = seq r (star r)

-- The pattern of one literal text.
abbrev pub literal : Text → Regex
literal [] = empty
literal (c ∷ s) = seq (one (λ d. d == c)) (literal s)
