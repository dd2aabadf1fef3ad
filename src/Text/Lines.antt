-- ===== src/Text/Lines.antt =====
-- Splitting a text that was written line by line.
use clamp.Prelude.{
  ℕ, ◌≡◌, refl, ◌∙◌, ap, Bool, true, false, not, List, [], ◌∷◌, ◌++◌, arith, All, all, append_assoc,
  append-nil, and-split,
}
use clamp.Text.{Text, is_line_break, lines_from, splitlines}

abbrev pub no_break : ℕ → Bool
no_break c = not (is_line_break c)

-- The text of some lines, each with its line feed.
abbrev pub written : List Text → Text
written [] = []
written (p ∷ ps) = p ++ (10 ∷ written ps)

lines_from-line :
    (p line s : Text) (fresh : Bool)
    → all no_break p ≡ true
    → lines_from false fresh line (p ++ (10 ∷ s)) ≡ (line ++ p) ∷ lines_from false true [] s
unfolding lines_from is_line_break
lines_from-line [] line s fresh h = rw append-nil
lines_from-line (c ∷ p) line s fresh h =
    let (here, later) = and-split (no_break c) (all no_break p) h in
    let plain : is_line_break c ≡ false = ground arith in
    rw plain (
      lines_from-line p (line ++ (c ∷ [])) s false later
      ∙ ap (λ l. l ∷ lines_from false true [] s) (append_assoc line (c ∷ []) p))

-- Lines with no break in them come back.
pub splitlines-written :
    (ps : List Text) → All (λ p. all no_break p ≡ true) ps → splitlines (written ps) ≡ ps
unfolding splitlines
splitlines-written [] _ = refl
splitlines-written (p ∷ ps) (h, hs) =
    lines_from-line p [] (written ps) true h ∙ ap (λ l. p ∷ l) (splitlines-written ps hs)
