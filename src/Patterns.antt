-- ===== src/Patterns.antt =====
-- The character classes and the module-level patterns VERSION, REVISION, DIGEST, COMPONENT and
-- SOURCE of runtime/templates/runtime_metadata.py. All are used by `fullmatch`, so that their
-- final `\Z` adds nothing.
pub mod Classes
pub mod Numbers
mod Tests
use clamp.Prelude.{ℕ, Bool, ◌&&◌, ◌||◌, leb, ◌==◌}
use clamp.Text.{Text}
use clamp.Regex.{Regex, one, seq, alt, star, times, plus, fullmatch}

-- `[0-9]`
unfoldable pub is_digit : ℕ → Bool
is_digit c = leb b'0' c && leb c b'9'

-- `[1-9]`
unfoldable pub is_nonzero_digit : ℕ → Bool
is_nonzero_digit c = leb b'1' c && leb c b'9'

unfoldable pub is_upper : ℕ → Bool
is_upper c = leb b'A' c && leb c b'Z'

unfoldable pub is_lower : ℕ → Bool
is_lower c = leb b'a' c && leb c b'z'

-- `[0-9a-f]`
unfoldable pub is_hex : ℕ → Bool
unfolding is_digit
is_hex c = is_digit c || leb b'a' c && leb c b'f'

-- `[A-Za-z0-9._+-]`
unfoldable pub is_component_char : ℕ → Bool
unfolding is_digit is_upper is_lower
is_component_char c =
    is_upper c || is_lower c || is_digit c || c == b'.' || c == b'_' || c == b'+' || c == b'-'

-- `[a-z0-9.-]`
unfoldable pub is_host_char : ℕ → Bool
unfolding is_digit is_lower
is_host_char c = is_lower c || is_digit c || c == b'.' || c == b'-'

-- `[A-Za-z0-9._@/-]`
unfoldable pub is_source_char : ℕ → Bool
unfolding is_digit is_upper is_lower
is_source_char c =
    is_upper c
    || is_lower c
    || is_digit c
    || c == b'.'
    || c == b'_'
    || c == b'@'
    || c == b'/'
    || c == b'-'

abbrev character : ℕ → Regex
character c = one (λ d. d == c)

-- `(?:0|[1-9][0-9]*)`
abbrev pub numeral_pattern : Regex
numeral_pattern = alt (character b'0') (seq (one is_nonzero_digit) (star (one is_digit)))

abbrev pub version_pattern : Regex
version_pattern =
    seq numeral_pattern
      (seq (character b'.') (seq numeral_pattern (seq (character b'.') numeral_pattern)))

unfoldable pub is_version : Text → Bool
unfolding fullmatch is_digit is_nonzero_digit
is_version s = fullmatch version_pattern s

unfoldable pub is_revision : Text → Bool
unfolding fullmatch is_hex
is_revision s = fullmatch (times 40 (one is_hex)) s

unfoldable pub is_digest : Text → Bool
unfolding fullmatch is_hex
is_digest s = fullmatch (times 64 (one is_hex)) s

unfoldable pub is_component : Text → Bool
unfolding fullmatch is_component_char
is_component s = fullmatch (plus (one is_component_char)) s

unfoldable pub is_source : Text → Bool
unfolding fullmatch is_host_char is_source_char
is_source s =
    fullmatch (seq (plus (one is_host_char)) (seq (character b'/') (plus (one is_source_char)))) s
