-- ===== src/Directories/Tests.antt =====
-- Directories in a home directory of the user, and the theorems there.
use clamp.Prelude.{◌≡◌, refl, true, false, [], ◌∷◌, All}
use clamp.Prelude.Results.{ok, err, exit}
use clamp.Text.{codes, text_eq, starts_with, ends_with, split, join}
use clamp.Posix.{absolute, absolute_parts, common_path, relative_parts, join_name, is_absolute}
use clamp.Trust.{is_private, is_shared}
use clamp.Trust.Tests.{at_home}
use clamp.Trust.Amp.{WasPrivate}
use clamp.Os.Emits.{Emits}
use clamp.Os.Looks.{IsLook}
use clamp.Directories.{
  make_missing, check_components, check_paths, components_of, private_directories,
}
use clamp.Directories.Checked.{IsPrivatePath, private_directories_sound}
use clamp.Directories.Effects.{private_directories-IsLook}

running : Unit {0}
unfolding make_missing check_components check_paths components_of private_directories is_private
    is_shared absolute absolute_parts common_path relative_parts join_name is_absolute text_eq
    starts_with ends_with split join
running = tt

checked : (private_directories at_home false (codes "/h/u") (codes "/h/u/a/b" ∷ []) []).0 ≡ ok tt
unfolding running
checked = refl

escaping :
    (private_directories at_home true (codes "/h/u") (codes "/h/u/../v" ∷ []) []).0
    ≡ err (exit "private directory escapes home")
unfolding running
escaping = refl

private_directories_sound_example :
    WasPrivate at_home (codes "/h/u")
    × All (IsPrivatePath at_home (codes "/h/u")) (codes "/h/u/a/b" ∷ [])
private_directories_sound_example =
    private_directories_sound at_home false (codes "/h/u") (codes "/h/u/a/b" ∷ []) [] checked

private_directories-IsLook_example :
    Emits IsLook (private_directories at_home false (codes "/h/u") (codes "/h/u/a" ∷ []))
private_directories-IsLook_example =
    private_directories-IsLook at_home (codes "/h/u") (codes "/h/u/a" ∷ [])
