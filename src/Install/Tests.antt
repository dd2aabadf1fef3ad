-- ===== src/Install/Tests.antt =====
-- A payload that is moved into place, and one that finds its place taken.
use clamp.Prelude.{◌≡◌, refl, true, false, [], ◌∷◌, if◌then◌else◌, ◌⊎◌, take}
use clamp.Prelude.Results.{Result, ok, err, os_error}
use clamp.Text.{codes, text_eq, ends_with, strip, is_space, rstrip, lstrip}
use clamp.Utf8.{decode, encode}
use clamp.Posix.{join_name, dirname}
use clamp.Trust.{is_private, is_shared, is_own_executable, is_runnable}
use clamp.Os.{Stat, Env, Op, rename_noreplace}
use clamp.Os.Emits.{Emits}
use clamp.Files.{read_regular, read_opened, read_exactly, same_file, same_state, sync_directory}
use clamp.Install.{
  expected_markers, require_encoded, stripped, check_markers, installed, rename_error,
  move_noreplace, read_marker, accept_installed, install,
}
use clamp.Install.Checked.{IsInstalled, installed_sound}
use clamp.Install.Moved.{IsMoved, IsReused, IsMove, install_sound, install-IsMove}

abbrev directory : Stat
directory = record {
  is_regular = false;
  is_directory = true;
  mode = 0x1C0;
  dev = 1;
  ino = 2;
  uid = 1000;
  size = 0;
  mtime_ns = 7;
}

-- A marker's file of two bytes.
abbrev marker : Stat
marker = record directory { is_regular = true; is_directory = false; size = 2 }

-- The C library's answer to the rename.
abbrev renaming : Result (Unit {0}) → Op → Result (Unit {0})
renaming answer (rename_noreplace _ _) = answer
renaming answer _ = ok tt

-- The files are directories, but for the markers, each of which holds `1` and a line feed, and `kb`.
abbrev shop : Result (Unit {0}) → Env
shop answer = record {
  lstat = λ h path. ok (
      if ends_with path (codes "bin")
      then directory
      else if ends_with path (codes "/d")
      then directory
      else marker);
  open_read = λ h path. ok 5;
  fstat = λ h fd. ok marker;
  read = λ h fd n. ok (take n (49 ∷ 10 ∷ []));
  rewind = λ h fd. ok tt;
  close = λ h fd. ok tt;
  create = λ h path mode. ok 6;
  write = λ h fd bytes. ok 0;
  act = λ h op. renaming answer op;
  lexists = λ h path. false;
  token = λ h. codes "0";
  real_path = λ h path. path;
  working_directory = codes "/";
  euid = 1000;
}

running : Unit {0}
unfolding text_eq ends_with strip is_space rstrip lstrip decode encode join_name dirname is_private
    is_shared is_own_executable is_runnable read_regular read_opened read_exactly same_file
    same_state sync_directory expected_markers require_encoded stripped check_markers installed
    rename_error move_noreplace read_marker accept_installed install
running = tt

is_installed :
    (installed (shop (ok tt)) (codes "/d") (codes "1") (codes "1") (codes "1") []).0 ≡ ok tt
unfolding running
is_installed = refl

installs : (install (shop (ok tt)) (codes "linux") (codes "/p") (codes "/d") []).0 ≡ ok tt
unfolding running
installs = refl

-- The rename finds the destination there.
reuses : (install (shop (err (os_error 17))) (codes "linux") (codes "/p") (codes "/d") []).0 ≡ ok tt
unfolding running
reuses = refl

installed_sound_example :
    IsInstalled (shop (ok tt)) (codes "/d") (codes "1") (codes "1") (codes "1")
installed_sound_example =
    installed_sound (shop (ok tt)) (codes "/d") (codes "1") (codes "1") (codes "1") [] is_installed

install_sound_example :
    IsMoved (shop (err (os_error 17))) (codes "/p") (codes "/d")
    ⊎ IsReused (shop (err (os_error 17))) (codes "/p") (codes "/d")
install_sound_example =
    install_sound (shop (err (os_error 17))) (codes "linux") (codes "/p") (codes "/d") [] reuses

install-IsMove_example :
    Emits
      (IsMove (shop (ok tt)) (codes "/p") (codes "/d"))
      (install (shop (ok tt)) (codes "linux") (codes "/p") (codes "/d"))
install-IsMove_example = install-IsMove (shop (ok tt)) (codes "linux") (codes "/p") (codes "/d")
