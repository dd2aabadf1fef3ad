-- ===== src/Paths.antt =====
-- `valid_path`, the member and size limits, and the mandatory inventory of
-- runtime/templates/runtime_metadata.py.
pub mod Safe
mod Tests
use clamp.Prelude.{ℕ, Bool, ◌&&◌, not, none, some, List, [], ◌∷◌, leb, ltb, all, length}
use clamp.Prelude.Results.{Result, ok, err, unicode_encode_error}
use clamp.Text.{Text, codes, text_eq, starts_with, ends_with, split}
use clamp.Utf8.{encode}
use clamp.Patterns.{is_component}

abbrev pub max_lock : ℕ
max_lock = 8192

abbrev pub max_manifest : ℕ
max_manifest = 1048576

abbrev pub max_archive : ℕ
max_archive = 67108864

abbrev pub max_targets : ℕ
max_targets = 16

unfoldable pub targets : List Text
targets = codes "linux-x86_64" ∷ codes "macos-arm64" ∷ []

unfoldable pub mandatory : List Text
mandatory =
    codes "LICENSE"
    ∷ codes "README.txt"
    ∷ codes "REVISION"
    ∷ codes "THIRD_PARTY_NOTICES"
    ∷ codes "VERSION"
    ∷ codes "bin/kb"
    ∷ codes "share/clamp/migrations/0001_enable_vector.sql"
    ∷ codes "share/clamp/migrations/0002_application_schema.sql"
    ∷ codes "share/clamp/templates/AGENTS.md"
    ∷ codes "share/clamp/templates/README.md"
    ∷ codes "share/clamp/templates/gitignore"
    ∷ codes "share/clamp/templates/kb"
    ∷ codes "share/clamp/templates/resume"
    ∷ codes "share/clamp/templates/setup-local"
    ∷ codes "share/clamp/templates/runtime_metadata.py"
    ∷ codes "share/clamp/templates/setup"
    ∷ codes "share/clamp/templates/skill.md"
    ∷ []

-- One part of a path: neither `.` nor `..`, and a component.
unfoldable pub is_safe_part : Text → Bool
is_safe_part part =
    not (text_eq part (codes ".")) && not (text_eq part (codes "..")) && is_component part

-- The tests of `valid_path` on a text whose encoding is known.
unfoldable pub valid_encoded : Text → Text → Bool
valid_encoded s bytes =
    ltb 0 (length bytes)
    && leb (length bytes) 4096
    && not (starts_with s (codes "/"))
    && not (ends_with s (codes "/"))
    && all is_safe_part (split b'/' s)

-- `valid_path(value)` of a text; the call of `encode` raises on a lone surrogate.
unfoldable pub valid_path : Text → Result Bool
valid_path s = elim (encode s) [
  | none ↦ err unicode_encode_error
  | some bytes ↦ ok (valid_encoded s bytes)
]
