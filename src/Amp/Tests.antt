-- ===== src/Amp/Tests.antt =====
-- Versions of Amp, and a private name for it.
use clamp.Prelude.{◌≡◌, ◌≤◌, refl, true, [], ◌∷◌, length}
use clamp.Text.{codes, split_once, is_space}
use clamp.Text.Decimal.{digits_value}
use clamp.Regex.{run, fullmatch}
use clamp.Patterns.{is_digit, is_hex}
use clamp.Os.{return}
use clamp.Files.Tests.{quiet}
use clamp.Amp.{
  supported, least_amp, amp_number, first_version, version_behind, find_version, version_status,
  amp_version_result, version_lines, verify_amp_version, is_amp_version, with_pinned,
}
use clamp.Amp.Version.{amp_version_result_sound}
use clamp.Amp.Pinned.{IsTidy, directory_at, with_pinned-IsCleaned}

running : Unit {0}
unfolding run fullmatch is_digit is_hex is_space split_once digits_value amp_number first_version
    version_behind find_version version_status amp_version_result version_lines verify_amp_version
    is_amp_version
running = tt

is_supported :
    amp_version_result (codes "amp 0.0.1789113641-gab (built)")
    ≡ supported (codes "0.0.1789113641-gab")
unfolding running
is_supported = refl

too_old : verify_amp_version (codes "0.0.12-gab") ≡ codes "unsupported" ∷ codes "0.0.12-gab" ∷ []
unfolding running
too_old = refl

no_version : verify_amp_version (codes "x0.0.12-gab") ≡ codes "invalid" ∷ []
unfolding running
no_version = refl

amp_version_result_sound_example :
    (is_amp_version (codes "0.0.1789113641-gab") ≡ true)
    × (length (codes "0.0.1789113641-gab") ≤ 64)
    × (least_amp ≤ amp_number (codes "0.0.1789113641-gab"))
amp_version_result_sound_example =
    amp_version_result_sound (codes "amp 0.0.1789113641-gab (built)") (codes "0.0.1789113641-gab")
      is_supported

with_pinned-IsCleaned_example :
    IsTidy quiet
      (directory_at quiet (codes "/b/amp") [])
      []
      (with_pinned quiet (codes "/b/amp") 5 (λ linked. return linked) []).1
with_pinned-IsCleaned_example =
    with_pinned-IsCleaned quiet (codes "/b/amp") 5 (λ linked. return linked) []
