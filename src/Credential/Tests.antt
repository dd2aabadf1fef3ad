-- ===== src/Credential/Tests.antt =====
-- Runs of `valid_credential_protocol`, and the theorems at concrete exchanges.
use clamp.Prelude.{◌≡◌, refl, ◌↔◌, true, false, [], ◌∷◌, ◌++◌}
use clamp.Text.{Text, codes, mem, split, split_once, contains, text_eq}
use clamp.Utf8.{decode}
use clamp.Credential.{
  allowed_names, repeated_names, line_key, read_lines, is_answered, valid_lines,
  valid_credential_protocol,
}
use clamp.Credential.Accepted.{IsProtocol, valid_credential_protocol_iff}

-- Two lines and the empty line that ends them.
abbrev answer : Text
answer = codes "username=u" ++ (10 ∷ (codes "password=p=q" ++ (10 ∷ 10 ∷ [])))

abbrev twice : Text
twice = codes "username=u" ++ (10 ∷ (codes "username=v" ++ (10 ∷ [])))

credential_tests :
    (valid_credential_protocol answer true ≡ true)
    × (valid_credential_protocol answer false ≡ true)
    × (valid_credential_protocol twice false ≡ false)
    × (valid_credential_protocol (codes "username=u") true ≡ false)
    × (valid_credential_protocol (codes "host=") false ≡ false)
    × (valid_credential_protocol (13 ∷ []) false ≡ false)
    × (valid_credential_protocol [] false ≡ true)
unfolding valid_credential_protocol valid_lines is_answered read_lines line_key repeated_names
    allowed_names mem split split_once contains text_eq decode
credential_tests = (refl, refl, refl, refl, refl, refl, refl)

valid_credential_protocol_iff_example :
    (valid_credential_protocol answer true ≡ true) ↔ IsProtocol answer true
valid_credential_protocol_iff_example = valid_credential_protocol_iff answer true
