-- ===== src/Patterns/Tests.antt =====
-- The patterns at concrete texts.
use clamp.Prelude.{◌≡◌, refl, true, false}
use clamp.Text.{codes}
use clamp.Patterns.{is_version, is_component, is_source, is_revision}

pattern_tests :
    (is_version (codes "0.1.14") ≡ true)
    × (is_version (codes "0.01.4") ≡ false)
    × (is_version (codes "1.2.3.4") ≡ false)
    × (is_component (codes "a+B-9_.x") ≡ true)
    × (is_component (codes "") ≡ false)
    × (is_source (codes "ampcode.com/git/@u/k") ≡ true)
    × (is_revision (codes "0123456789abcdef0123456789abcdef01234567") ≡ true)
unfolding is_version is_component is_source is_revision
pattern_tests = (refl, refl, refl, refl, refl, refl, refl)
