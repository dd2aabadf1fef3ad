-- ===== src/Repository/Tests.antt =====
-- A configuration with one repository, and a file with its digest.
use clamp.Prelude.{◌≡◌, refl, true, all, [], ◌∷◌}
use clamp.Prelude.Results.{ok, err, exit}
use clamp.Text.{Text, codes, split, splitlines, starts_with, text_eq}
use clamp.Utf8.{decode}
use clamp.Patterns.{is_source, is_hex}
use clamp.Paths.{max_archive}
use clamp.Files.{read_regular, read_opened, read_exactly, same_file, same_state}
use clamp.Files.Tests.{quiet}
use clamp.Repository.{repository_of, repository_values, is_named_part, one_repository}
use clamp.Repository.Accepted.{Names, repository_of_iff}

abbrev configuration : Text
configuration = codes "name: k\nsource_repository: ampcode.com/git/@u/k\n"

named : repository_of configuration ≡ ok (codes "ampcode.com/git/@u/k" ∷ [])
unfolding repository_of repository_values is_named_part one_repository decode splitlines starts_with
    split text_eq is_source
named = refl

two_names :
    repository_of (codes "source_repository: a/b\nsource_repository: a/c\n")
    ≡ err (exit "invalid source repository")
unfolding repository_of repository_values one_repository decode splitlines starts_with
two_names = refl

parent_part :
    repository_of (codes "source_repository: a/../b") ≡ err (exit "invalid source repository")
unfolding repository_of repository_values is_named_part one_repository decode splitlines starts_with
    split text_eq is_source
parent_part = refl

repository_of_iff_example :
    (value : Text) × ((codes "ampcode.com/git/@u/k" ∷ []) ≡ value ∷ []) × Names configuration value
repository_of_iff_example =
    (repository_of_iff configuration (codes "ampcode.com/git/@u/k" ∷ [])).0 named

-- The digest of the tests.
abbrev zeros : Text
zeros = codes "0000000000000000000000000000000000000000000000000000000000000000"

reads_abc : (read_regular quiet (codes "f") max_archive []).0 ≡ ok (codes "abc")
unfolding read_regular read_opened read_exactly same_file same_state
reads_abc = refl

zeros-is_hex : all is_hex zeros ≡ true
unfolding is_hex
zeros-is_hex = refl
