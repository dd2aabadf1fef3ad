-- ===== src/Version.antt =====
-- `version_tuple` of runtime/templates/runtime_metadata.py, the tuples that it gives, and their
-- comparison.
use clamp.Prelude.{
  ℕ, ◌-◌, Bool, true, false, ◌||◌, ◌&&◌, Option, none, some, List, [], ◌∷◌, ltb, ◌==◌, length, take,
  map,
}
use clamp.Prelude.Results.{Result, ok, ◌>>=◌}
use clamp.Text.{Text, split, join}
use clamp.Text.Decimal.{decimal}
use clamp.Regex.{Regex, one, seq, plus, run}
use clamp.Patterns.{is_digit}

-- `match.group(1)` of `re.search`, where the group is the whole pattern; the first argument is the
-- length of the whole text.
unfoldable pub search : ℕ → Regex → Text → Option Text
search total r [] = elim (run total r []) [ [] ↦ none | rest ∷ _ ↦ some [] ]
search total r (c ∷ s) =
    let later = search total r s in
    elim (run total r (c ∷ s)) [
      | [] ↦ later
      | rest ∷ _ ↦ some (take (length (c ∷ s) - length rest) (c ∷ s))
    ]

-- `[0-9]+(?:\.[0-9]+)+`
abbrev pub dotted_pattern : Regex
dotted_pattern = seq (plus (one is_digit)) (plus (seq (one (λ c. c == b'.')) (plus (one is_digit))))

-- A tuple of integers, compared with `<`.
abbrev pub Version : Type 0
Version = List ℕ

unfoldable pub version_lt : Version → Version → Bool
version_lt _ [] = false
version_lt [] (_ ∷ _) = true
version_lt (a ∷ v) (b ∷ w) = ltb a b || a == b && version_lt v w

-- `".".join(map(str, minimum))`
unfoldable pub shown_version : Version → Text
shown_version v = join b'.' (map decimal v)

-- `int` is the library's, which may refuse a very long run of digits.
module _ (int : Text → Result ℕ) where
  unfoldable pub int_parts : List Text → Result Version
  int_parts [] = ok []
  int_parts (part ∷ parts) = do n ← int part; v ← int_parts parts; ok (n ∷ v)

  unfoldable pub version_tuple : Text → Result Version
  version_tuple text = elim (search (length text) dotted_pattern text) [
    | none ↦ ok []
    | some matched ↦ int_parts (split b'.' matched)
  ]
