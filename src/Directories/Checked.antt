-- ===== src/Directories/Checked.antt =====
-- What `private_directories` of runtime/templates/runtime_metadata.py has checked when it returns, and
-- that without `create` it changes nothing.
use clamp.Prelude.{◌≡◌, refl, ◌∙◌, true, false, List, [], ◌∷◌, All, Bool}
use clamp.Prelude.Results.{Exn, Result, ok, err, err-ne-ok, file_not_found}
use clamp.Text.{Text, text_eq}
use clamp.Text.Equality.{text_eq_iff}
use clamp.Posix.{join_name, absolute, common_path}
use clamp.Os.{Stat, Env, History, handled, handle, do_lstat, act, mkdir, lstat}
use clamp.Os.Outcome.{after-ok, require-ok}
use clamp.Trust.{is_private}
use clamp.Trust.Amp.{WasPrivate}
use clamp.Directories.{
  make_missing, check_components, check_paths, components_of, private_directories,
}

module _ (env : Env) where
  -- Every directory on the way from `current` was seen to be private.
  abbrev pub ArePrivate : Text → List Text → Type 0
  ArePrivate current [] = Unit {0}
  ArePrivate current (component ∷ components) =
      WasPrivate env (join_name current component)
      × ArePrivate (join_name current component) components

  -- A path that does not leave the home directory, with private directories on the way to it.
  abbrev pub IsPrivatePath : Text → Text → Type 0
  IsPrivatePath home path =
      (common_path home (absolute env.working_directory path) ≡ home)
      × ArePrivate home (components_of env home path)

  made-looked :
      (create : Bool) (current : Text) (x : Exn) (h : History) {observed : Stat}
      → (make_missing env create current x h).0 ≡ ok observed
      → (g : History) × (env.lstat g current ≡ ok observed)
  unfolding make_missing
  made-looked true current file_not_found h e =
      let (_, _, e₁) = after-ok _ (act env (mkdir current 0x1C0) h) e in (_, e₁)
  made-looked false current file_not_found h e = absurd (err-ne-ok _ _ e)
  made-looked create current _ h e = absurd (err-ne-ok _ _ e)

  -- However the directory was found or made, it was looked at.
  looked :
      (create : Bool) (current : Text) (h : History) {observed : Stat}
      → (handle (do_lstat env current) (make_missing env create current) h).0 ≡ ok observed
      → (g : History) × (env.lstat g current ≡ ok observed)
  looked create current h e = answered (env.lstat h current) refl e
    where
      answered :
          {observed : Stat} (r : Result Stat)
          → env.lstat h current ≡ r
          → (handled (make_missing env create current) (r, lstat current ∷ h)).0 ≡ ok observed
          → (g : History) × (env.lstat g current ≡ ok observed)
      answered (ok a) is e' = (h, is ∙ e')
      answered (err x) is e' = made-looked create current x _ e'

  check_components-ArePrivate :
      (create : Bool) (current : Text) (components : List Text) (h : History)
      → (check_components env create current components h).0 ≡ ok tt
      → ArePrivate current components
  unfolding check_components
  check_components-ArePrivate create current [] h e = tt
  check_components-ArePrivate create current (component ∷ components) h e =
      let (observed, seen, e₁) =
        after-ok _
          (handle (do_lstat env (join_name current component))
            (make_missing env create (join_name current component)) h)
          e in
      let (private, e₂) =
        require-ok (is_private env.euid observed) "unsafe private directory" _ _ e₁ in
      let (g, answer) = looked create (join_name current component) h seen in
      (
        (g, observed, answer, private),
        check_components-ArePrivate create (join_name current component) components _ e₂,
      )

  check_paths-IsPrivatePath :
      (create : Bool) (home : Text) (paths : List Text) (h : History)
      → (check_paths env create home paths h).0 ≡ ok tt
      → All (IsPrivatePath home) paths
  unfolding check_paths
  check_paths-IsPrivatePath create home [] h e = tt
  check_paths-IsPrivatePath create home (path ∷ paths) h e =
      let (inside, e₁) =
        require-ok (text_eq (common_path home (absolute env.working_directory path)) home)
          "private directory escapes home" _ _ e in
      let (_, checked, e₂) =
        after-ok _ (check_components env create home (components_of env home path) h) e₁ in
      (
        ((text_eq_iff _ _).0 inside, check_components-ArePrivate create home _ h checked),
        check_paths-IsPrivatePath create home paths _ e₂,
      )

  -- For every system: when `private_directories` returns, with or without `create`, the home
  -- directory was seen to be private, and every path leads from it, without leaving it, through
  -- directories that were each seen to be private.
  pub private_directories_sound :
      (create : Bool) (home : Text) (paths : List Text) (h : History)
      → (private_directories env create home paths h).0 ≡ ok tt
      → WasPrivate env (env.real_path h home) × All (IsPrivatePath (env.real_path h home)) paths
  unfolding private_directories
  private_directories_sound create home paths h e =
      let (observed, seen, e₁) = after-ok _ (do_lstat env (env.real_path h home) _) e in
      let (private, e₂) =
        require-ok (is_private env.euid observed) "unsafe home directory" _ _ e₁ in
      (
        (_, observed, seen, private),
        check_paths-IsPrivatePath create (env.real_path h home) paths _ e₂,
      )
