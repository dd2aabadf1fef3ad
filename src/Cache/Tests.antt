-- ===== src/Cache/Tests.antt =====
-- A manifest that is put in place.
use clamp.Prelude.{◌≡◌, refl, [], ◌⊎◌, ◌∷◌}
use clamp.Prelude.Results.{ok}
use clamp.Text.{Text, codes, text_eq, ends_with, rstrip}
use clamp.Patterns.{is_digest}
use clamp.Posix.{join_name, dirname}
use clamp.Os.{Call, History, lexists}
use clamp.Os.Emits.{Emits}
use clamp.Files.{read_regular, read_opened, read_exactly, same_file, same_state, sync_directory}
use clamp.Files.Tests.{quiet}
use clamp.Repository.{verify_digest}
use clamp.Cache.{fill, publish, cache}
use clamp.Cache.Published.{
  temporary_at, IsVerified, IsPublished, IsPublishing, cache_sound, cache-IsPublishing,
}

abbrev zeros : Text
zeros = codes "0000000000000000000000000000000000000000000000000000000000000000"

caches : (cache quiet (λ raw. zeros) (codes "/s") (codes "/c/m") zeros []).0 ≡ ok tt
unfolding cache fill publish verify_digest is_digest text_eq join_name dirname rstrip ends_with
    read_regular read_opened read_exactly same_file same_state sync_directory
caches = refl

cache_sound_example :
    let g : History = (verify_digest quiet (λ raw. zeros) (codes "/s") zeros []).1 in
    IsVerified quiet (λ raw. zeros) (codes "/s") zeros []
    × (IsVerified quiet (λ raw. zeros) (codes "/c/m") zeros (lexists (codes "/c/m") ∷ g)
        ⊎ IsPublished quiet
            (λ raw. zeros)
            (codes "/s")
            (codes "/c/m")
            (temporary_at quiet (λ raw. zeros) (codes "/c/m") g)
            (Call.token ∷ lexists (codes "/c/m") ∷ g))
cache_sound_example = cache_sound quiet (λ raw. zeros) (codes "/s") (codes "/c/m") zeros [] caches

cache-IsPublishing_example :
    Emits
      (IsPublishing quiet (λ raw. zeros) (codes "/c/m"))
      (cache quiet (λ raw. zeros) (codes "/s") (codes "/c/m") zeros)
cache-IsPublishing_example =
    cache-IsPublishing quiet (λ raw. zeros) (codes "/s") (codes "/c/m") zeros
