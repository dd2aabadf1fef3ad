-- ===== src/Text.antt =====
-- Python's `str` and `bytes` as lists of code points and of byte values, with the methods of
-- `str` that runtime/templates/runtime_metadata.py calls.
pub mod Equality
pub mod Order
pub mod Split
pub mod Lines
pub mod Decimal
use Prim.Native.Char.{code}
use clamp.Prelude.{
  ℕ, ◌≡◌, refl, String, Bool, true, false, ◌&&◌, ◌||◌, List, [], ◌∷◌, ◌++◌, ltb, leb, ◌==◌,
  if◌then◌else◌,
}

abbrev pub Text : Type 0
Text = List ℕ

-- The code points of a literal. `String` has its own `[]` and `∷`.
abbrev pub codes : String → Text
codes String.[] = []
codes (String.◌∷◌ c s) = code c ∷ codes s

unfoldable pub text_eq : Text → Text → Bool
text_eq [] [] = true
text_eq (a ∷ s) (b ∷ t) = a == b && text_eq s t
text_eq _ _ = false

-- `s in xs`, for a list, a tuple or a set of texts.
unfoldable pub mem : Text → List Text → Bool
unfolding text_eq
mem s [] = false
mem s (t ∷ ts) = text_eq s t || mem s ts

-- `s.startswith(p)`
unfoldable pub starts_with : Text → Text → Bool
starts_with s [] = true
starts_with [] (_ ∷ _) = false
starts_with (a ∷ s) (b ∷ p) = a == b && starts_with s p

-- `s.endswith(p)`: some end of `s` is `p`.
unfoldable pub ends_with : Text → Text → Bool
unfolding text_eq
ends_with [] p = text_eq [] p
ends_with (a ∷ s) p = text_eq (a ∷ s) p || ends_with s p

unfoldable pub contains : ℕ → Text → Bool
contains c [] = false
contains c (a ∷ s) = a == c || contains c s

abbrev pub push_first : ℕ → List Text → List Text
push_first c [] = (c ∷ []) ∷ []
push_first c (p ∷ ps) = (c ∷ p) ∷ ps

-- `s.split(c)` for a separator of one character: never empty.
unfoldable pub split : ℕ → Text → List Text
split sep [] = [] ∷ []
split sep (c ∷ s) = let rest = split sep s in if c == sep then [] ∷ rest else push_first c rest

-- `s.split(c, 1)` where `c` occurs: what stands before and behind its first occurrence.
unfoldable pub split_once : ℕ → Text → Text × Text
split_once sep [] = ([], [])
split_once sep (c ∷ s) =
    let (before, behind) = split_once sep s in if c == sep then ([], s) else (c ∷ before, behind)

-- `c.join(parts)` for a separator of one character.
unfoldable pub join : ℕ → List Text → Text
join sep [] = []
join sep (p ∷ []) = p
join sep (p ∷ q ∷ ps) = p ++ (sep ∷ join sep (q ∷ ps))

-- The boundaries of `str.splitlines`, but for the pair CR LF.
unfoldable pub is_line_break : ℕ → Bool
is_line_break c = leb 10 c && leb c 13 || leb 28 c && leb c 30 || c == 133 || c == 8232 || c == 8233

-- `s.splitlines()`: a final line break starts no further line. The flag tells that the character
-- before was a CR, whose LF belongs to the same break; `fresh` that no line has begun since the last
-- break; `line` is the line so far.
unfoldable pub lines_from : Bool → Bool → Text → Text → List Text
lines_from cr fresh line [] = if fresh then [] else line ∷ []
lines_from cr fresh line (c ∷ s) =
    let again = lines_from false fresh line s in
    let closed = line ∷ lines_from (c == 13) true [] s in
    let longer = lines_from false false (line ++ (c ∷ [])) s in
    if cr && c == 10 then again else if is_line_break c then closed else longer

unfoldable pub splitlines : Text → List Text
unfolding lines_from is_line_break
splitlines s = lines_from false true [] s

-- `str.isspace` of one character, which `strip`, and `\s` in a pattern, go by.
unfoldable pub is_space : ℕ → Bool
is_space c =
    leb 9 c && leb c 13
    || leb 28 c && leb c 32
    || c == 133
    || c == 160
    || c == 5760
    || leb 8192 c && leb c 8202
    || c == 8232
    || c == 8233
    || c == 8239
    || c == 8287
    || c == 12288

-- `s.rstrip(c)`, for a test on characters.
unfoldable pub rstrip : (ℕ → Bool) → Text → Text
rstrip p [] = []
rstrip p (c ∷ s) = elim (rstrip p s) [ [] ↦ if p c then [] else c ∷ [] | d ∷ rest ↦ c ∷ (d ∷ rest) ]

unfoldable pub lstrip : (ℕ → Bool) → Text → Text
lstrip p [] = []
lstrip p (c ∷ s) = let rest = lstrip p s in if p c then rest else c ∷ s

-- `s.strip()`
unfoldable pub strip : Text → Text
unfolding is_space lstrip rstrip
strip s = rstrip is_space (lstrip is_space s)

-- `s < t`, by code points.
unfoldable pub text_lt : Text → Text → Bool
text_lt _ [] = false
text_lt [] (_ ∷ _) = true
text_lt (a ∷ s) (b ∷ t) = ltb a b || a == b && text_lt s t

-- One step of `sorted(set(xs))`.
insert : Text → List Text → List Text
unfolding text_eq text_lt
insert s [] = s ∷ []
insert s (t ∷ ts) =
    let later = t ∷ insert s ts in
    if text_eq s t then t ∷ ts else if text_lt s t then s ∷ t ∷ ts else later

-- `sorted(set(xs))`
unfoldable pub sorted_set : List Text → List Text
unfolding insert
sorted_set [] = []
sorted_set (s ∷ ss) = insert s (sorted_set ss)

-- `xs == ys` for lists of texts.
unfoldable pub texts_eq : List Text → List Text → Bool
unfolding text_eq
texts_eq [] [] = true
texts_eq (s ∷ ss) (t ∷ ts) = text_eq s t && texts_eq ss ts
texts_eq _ _ = false

text_tests :
    (split b'/' (codes "a//b/") ≡ codes "a" ∷ [] ∷ codes "b" ∷ [] ∷ [])
    × (splitlines (10 ∷ 97 ∷ 13 ∷ 10 ∷ 98 ∷ 10 ∷ []) ≡ [] ∷ (97 ∷ []) ∷ (98 ∷ []) ∷ [])
    × (split_once b'=' (codes "a=b=c") ≡ (codes "a", codes "b=c"))
    × (rstrip (λ c. c == b'/') (codes "a/b//") ≡ codes "a/b")
    × (sorted_set (codes "b" ∷ codes "a" ∷ codes "b" ∷ []) ≡ codes "a" ∷ codes "b" ∷ [])
    × (strip (codes " a b ") ≡ codes "a b")
    × (join b'/' (codes "a" ∷ codes "b" ∷ []) ≡ codes "a/b")
unfolding split splitlines split_once rstrip sorted_set strip join
text_tests = (refl, refl, refl, refl, refl, refl, refl)
