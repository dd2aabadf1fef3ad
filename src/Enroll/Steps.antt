-- ===== src/Enroll/Steps.antt =====
-- What the parts of `enroll_amp` of runtime/templates/runtime_metadata.py can change: its directories,
-- its looks at the destination, and its temporary file.
use clamp.Prelude.{
  ℕ, zero, suc, ◌≡◌, refl, ◌==◌, List, [], ◌∷◌, ◌++◌, Option, none, some, drop, length, true,
  String,
}
use clamp.Prelude.Results.{Exn, file_not_found}
use clamp.Text.{Text, codes, text_eq}
use clamp.Utf8.{Bytes}
use clamp.Posix.{is_absolute, join_name, dirname}
use clamp.Os.{
  Call, Op, Env, M, mkdir, replace, unlink, fsync, require, raise, fail, handle, is_os_error, act,
  do_lstat, do_lexists, do_create, do_write, do_close, do_real_path,
}
use clamp.Os.Emits.{
  Emits, none-Emits, return-Emits, require-Emits, one-Emits, bind-Emits, if-Emits, handle-Emits,
  finally-Emits, act-Emits, create-Emits, map-Emits,
}
use clamp.Os.Looks.{IsLook, Only, look-Only}
use clamp.Trust.{is_private, verify_trusted_chain}
use clamp.Trust.Looks.{verify_trusted_chain-IsLook}
use clamp.Directories.{private_directories}
use clamp.Directories.Effects.{private_directories-Emits}
use clamp.Enroll.{
  is_state_directory, is_state_file, check_state_home, state_directory, make_state, check_state,
  first_identity, last_identity, write_all, write_record, os_failure, remove_temporary, Local,
  repository_path,
}

-- A repository of the source, below some state directory.
abbrev pub IsRepository : Local → Text → Text → Type 0
IsRepository site source repository =
    (state_home : Text) × (repository ≡ repository_path site state_home source)

-- A name for a temporary file in such a repository.
abbrev pub IsTemporary : Local → Text → Text → Type 0
IsTemporary site source path =
    (repository : Text) × (token : Text) × IsRepository site source repository
    × (path ≡ join_name repository (codes ".enrollment-" ++ token))

abbrev pub Enrolls : Local → Text → Op → Type 0
Enrolls site source (mkdir path mode) = mode ≡ 0x1C0
Enrolls site source (replace from to) =
    IsTemporary site source from
    × ((repository : Text) × IsRepository site source repository
        × (to ≡ join_name repository (codes "local.json")))
Enrolls site source (unlink path) = IsTemporary site source path
Enrolls site source (fsync fd) = Unit {0}
Enrolls site source _ = ⊥

-- New files are temporary and private to the user.
abbrev pub IsEnrolling : Local → Text → Call → Type 0
IsEnrolling site source =
    Only (Enrolls site source) (λ path mode. IsTemporary site source path × (mode ≡ 0x180))

module _ (env : Env) (site : Local) (source : Text) where
  pub looking : {A : Type 0} {m : M A} → Emits IsLook m → Emits (IsEnrolling site source) m
  looking e = map-Emits (look-Only _ _) e

  make_state-IsEnrolling :
      (path : Text) (x : Exn) → Emits (IsEnrolling site source) (make_state env path x)
  unfolding make_state
  make_state-IsEnrolling path file_not_found =
      bind-Emits (act env (mkdir path 0x1C0)) _ (act-Emits env (mkdir path 0x1C0) refl refl)
        λ _. one-Emits _ _ tt
  make_state-IsEnrolling path _ = none-Emits _

  pub check_state-IsEnrolling :
      (current : Text) (paths : List Text)
      → Emits (IsEnrolling site source) (check_state env current paths)
  unfolding check_state
  check_state-IsEnrolling current [] = none-Emits _
  check_state-IsEnrolling current (path ∷ paths) =
      bind-Emits (require (text_eq (dirname path) current) "unsafe state directory") _
        (none-Emits _)
        λ _.
          bind-Emits (handle (do_lstat env path) (make_state env path)) _
            (handle-Emits _ _ (one-Emits _ _ tt) (make_state-IsEnrolling path))
            λ observed.
              bind-Emits (require (is_state_directory env.euid observed) "unsafe state directory") _
                (none-Emits _) λ _. check_state-IsEnrolling path paths

  pub first_identity-IsLook : (destination : Text) → Emits IsLook (first_identity env destination)
  unfolding first_identity
  first_identity-IsLook destination =
      bind-Emits (do_lexists env destination) _ (one-Emits _ _ tt) λ there.
        if-Emits there _ _
          (bind-Emits (do_lstat env destination) _ (one-Emits _ _ tt) λ observed.
            bind-Emits (require (is_state_file env.euid observed) "unsafe Amp enrollment") _
              (none-Emits _) λ _. return-Emits (some observed))
          (return-Emits none)

  pub last_identity-IsLook : (destination : Text) → Emits IsLook (last_identity env destination)
  unfolding last_identity
  last_identity-IsLook destination =
      bind-Emits (do_lexists env destination) _ (one-Emits _ _ tt) λ there.
        if-Emits there _ _
          (bind-Emits (do_lstat env destination) _ (one-Emits _ _ tt)
            λ observed. return-Emits (some observed))
          (return-Emits none)

  write_all-IsEnrolling :
      (fuel fd : ℕ) (bytes : Bytes) → Emits (IsEnrolling site source) (write_all env fuel fd bytes)
  unfolding write_all
  write_all-IsEnrolling zero fd [] = none-Emits _
  write_all-IsEnrolling (suc fuel) fd [] = none-Emits _
  write_all-IsEnrolling zero fd (b ∷ bytes) = none-Emits _
  write_all-IsEnrolling (suc fuel) fd (b ∷ bytes) =
      bind-Emits (do_write env fd (b ∷ bytes)) _ (one-Emits _ _ tt) λ written.
        if-Emits (written == 0) (fail "Amp enrollment write failed") _ (none-Emits _)
          (write_all-IsEnrolling fuel fd (drop written (b ∷ bytes)))

  pub write_record-IsEnrolling :
      (temporary : Text) (raw : Bytes)
      → IsTemporary site source temporary
      → Emits (IsEnrolling site source) (write_record env temporary raw)
  unfolding write_record
  write_record-IsEnrolling temporary raw t =
      bind-Emits (do_create env temporary 0x180) _
        (create-Emits env temporary 0x180 (λ fd. (t, refl)) tt)
        λ fd.
          finally-Emits _ (do_close env fd)
            (bind-Emits (write_all env (length raw) fd raw) _
              (write_all-IsEnrolling (length raw) fd raw) λ _. act-Emits env (fsync fd) tt tt)
            (one-Emits _ _ tt)

  pub os_failure-IsEnrolling :
      (message : String) (x : Exn) → Emits (IsEnrolling site source) (os_failure env message x)
  unfolding os_failure
  os_failure-IsEnrolling message x =
      if-Emits (is_os_error x) (fail message) (raise x) (none-Emits _) (none-Emits _)

  pub remove_temporary-IsEnrolling :
      (temporary : Text)
      → IsTemporary site source temporary
      → Emits (IsEnrolling site source) (remove_temporary env temporary)
  unfolding remove_temporary
  remove_temporary-IsEnrolling temporary t =
      bind-Emits (do_lexists env temporary) _ (one-Emits _ _ tt)
        λ there. if-Emits there _ _ (act-Emits env (unlink temporary) t t) (return-Emits tt)

  check_state_home-IsLook : (state_home : Text) → Emits IsLook (check_state_home env state_home)
  unfolding check_state_home
  check_state_home-IsLook state_home =
      bind-Emits (require (is_absolute state_home) "unsafe state directory") _ (none-Emits _) λ _.
        bind-Emits (do_real_path env state_home) _ (one-Emits _ _ tt) λ real.
          bind-Emits (require (text_eq real state_home) "unsafe state directory") _ (none-Emits _)
            λ _.
              bind-Emits (verify_trusted_chain env state_home) _
                (verify_trusted_chain-IsLook env state_home)
                λ _.
                  bind-Emits (do_lstat env state_home) _ (one-Emits _ _ tt) λ observed.
                    require-Emits (is_private env.euid observed) "unsafe state directory"

  pub state_directory-IsEnrolling :
      (home : Text) (o : Option Text) → Emits (IsEnrolling site source) (state_directory env home o)
  unfolding state_directory
  state_directory-IsEnrolling home (some state_home) =
      bind-Emits (check_state_home env state_home) _ (looking (check_state_home-IsLook state_home))
        λ _. return-Emits state_home
  state_directory-IsEnrolling home none =
      bind-Emits (do_real_path env home) _ (one-Emits _ _ tt) λ real.
        bind-Emits (private_directories env true home _) _
          (private_directories-Emits env true (look-Only _ _) (λ _ path. (refl, refl)) home
            (dirname (join_name (join_name real (codes ".local")) (codes "state"))
              ∷ join_name (join_name real (codes ".local")) (codes "state")
              ∷ []))
          λ _. return-Emits (join_name (join_name real (codes ".local")) (codes "state"))
