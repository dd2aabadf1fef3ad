-- ===== src/Paths/Tests.antt =====
-- Runs of `valid_path`, and its theorem at a concrete path.
use clamp.Prelude.{◌≡◌, ◌≤◌, refl, ◌↔◌, true, false, [], ◌∷◌, All, length}
use clamp.Prelude.Results.{ok, err, unicode_encode_error}
use clamp.Text.{codes, split, starts_with, ends_with}
use clamp.Utf8.{encode}
use clamp.Paths.{valid_path, valid_encoded, is_safe_part}
use clamp.Paths.Safe.{IsSafePart, valid_path_iff}
use clamp.Patterns.{is_component}
use clamp.Text.{text_eq}

valid_path_tests :
    (valid_path (codes "lib/libpq.so.5") ≡ ok true)
    × (valid_path (codes "lib/../x") ≡ ok false)
    × (valid_path (codes "/lib") ≡ ok false)
    × (valid_path (codes "lib/") ≡ ok false)
    × (valid_path (codes "a//b") ≡ ok false)
    × (valid_path (codes "") ≡ ok false)
    × (valid_path (0xD800 ∷ []) ≡ err unicode_encode_error)
unfolding valid_path valid_encoded encode starts_with ends_with split is_safe_part is_component
    text_eq
valid_path_tests = (refl, refl, refl, refl, refl, refl, refl)

valid_path_iff_example :
    (valid_path (codes "lib/a") ≡ ok true)
    ↔ (All IsSafePart (split b'/' (codes "lib/a")) × (length (codes "lib/a") ≤ 4096))
valid_path_iff_example = valid_path_iff (codes "lib/a")
