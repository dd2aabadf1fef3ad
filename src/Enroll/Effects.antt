-- ===== src/Enroll/Effects.antt =====
-- What `enroll_amp` of runtime/templates/runtime_metadata.py can change.
use clamp.Prelude.{refl, ◌&&◌, ◌++◌, Option, none, some}
use clamp.Text.{Text, codes, text_eq}
use clamp.Utf8.{Bytes, encode}
use clamp.Posix.{join_name, common_path}
use clamp.Os.{Env, Stat, replace, require, do_token}
use clamp.Os.Emits.{
  Emits, none-Emits, one-Emits, bind-Emits, handle-Emits, finally-Emits, act-Emits,
}
use clamp.Files.{same_file, amp_digest}
use clamp.Files.Looks.{amp_digest-IsLook, sync_directory-Only}
use clamp.Trust.{verify_amp}
use clamp.Trust.Looks.{verify_amp-IsLook}
use clamp.Enroll.{
  is_identity, is_expected, state_directory, check_state, first_identity, last_identity,
  same_identity, write_record, Local, repository_path, state_paths, enrollment_of, commit,
  write_and_commit, save, save_encoded, enroll_in, enroll_amp,
}
use clamp.Enroll.Record.{record_text}
use clamp.Enroll.Steps.{
  IsRepository, IsTemporary, IsEnrolling, looking, check_state-IsEnrolling, first_identity-IsLook,
  last_identity-IsLook, write_record-IsEnrolling, os_failure-IsEnrolling,
  remove_temporary-IsEnrolling, state_directory-IsEnrolling,
}

module _ (env : Env) (site : Local) (source : Text) where
  module _ (repository token : Text) (r : IsRepository site source repository) where
    named-IsTemporary :
        IsTemporary site source (join_name repository (codes ".enrollment-" ++ token))
    named-IsTemporary = (repository, token, r, refl)

    commit-IsEnrolling :
        (home executable : Text) (observed : Stat × Text) (identity : Option Stat)
        → Emits (IsEnrolling site source) (
            commit env site home executable observed identity
              (join_name repository (codes ".enrollment-" ++ token))
              (join_name repository (codes "local.json")))
    unfolding commit
    commit-IsEnrolling home executable (st, digest) identity =
        bind-Emits (verify_amp env home executable) _
          ((looking env site source) (verify_amp-IsLook env home executable))
          λ _.
            bind-Emits (amp_digest env site.sha256 site.rounds executable) _
              ((looking env site source) (amp_digest-IsLook env site.sha256 site.rounds executable))
              λ final.
                bind-Emits
                  (require (same_file final.0 st && text_eq final.1 digest)
                    "Amp executable changed")
                  _ (none-Emits _)
                  λ _.
                    bind-Emits (last_identity env (join_name repository (codes "local.json"))) _
                      ((looking env site source) (
                        (last_identity-IsLook env site source)
                          (join_name repository (codes "local.json"))))
                      λ current.
                        bind-Emits
                          (require (same_identity current identity) "unsafe Amp enrollment") _
                          (none-Emits _)
                          λ _.
                            act-Emits env
                              (replace (join_name repository (codes ".enrollment-" ++ token))
                                (join_name repository (codes "local.json")))
                              (named-IsTemporary, (repository, r, refl))
                              (named-IsTemporary, (repository, r, refl))

    save-IsEnrolling :
        (home executable : Text) (observed : Stat × Text) (identity : Option Stat) (raw : Bytes)
        → Emits (IsEnrolling site source) (
            save env site home executable observed identity
              (join_name repository (codes ".enrollment-" ++ token))
              repository
              raw)
    unfolding save write_and_commit
    save-IsEnrolling home executable observed identity raw =
        finally-Emits _ _
          (handle-Emits _ _
            (bind-Emits
              (write_record env (join_name repository (codes ".enrollment-" ++ token)) raw) _
              ((write_record-IsEnrolling env site source) _ raw named-IsTemporary)
              λ _.
                bind-Emits _ _
                  (handle-Emits _ _ (commit-IsEnrolling home executable observed identity)
                    ((os_failure-IsEnrolling env site source) "Amp enrollment write failed"))
                  λ _. handle-Emits _ _ (sync_directory-Only env _ _ repository (λ fd. tt)) (
                    (os_failure-IsEnrolling env site source) "Amp enrollment durability uncertain"))
            ((os_failure-IsEnrolling env site source) "Amp enrollment write failed"))
          ((remove_temporary-IsEnrolling env site source) _ named-IsTemporary)

    save_encoded-IsEnrolling :
        (home executable : Text) (observed : Stat × Text) (identity : Option Stat)
        (o : Option Bytes)
        → Emits (IsEnrolling site source) (
            save_encoded env site home executable observed identity
              (join_name repository (codes ".enrollment-" ++ token))
              repository
              o)
    unfolding save_encoded
    save_encoded-IsEnrolling home executable observed identity none = none-Emits _
    save_encoded-IsEnrolling home executable observed identity (some raw) =
        save-IsEnrolling home executable observed identity raw

  enroll_in-IsEnrolling :
      (home target executable version : Text) (expected : Option (Stat × Text)) (repository : Text)
      → IsRepository site source repository
      → Emits
          (IsEnrolling site source)
          (enroll_in env site home source target executable version expected repository)
  unfolding enroll_in
  enroll_in-IsEnrolling home target executable version expected repository r =
      bind-Emits (amp_digest env site.sha256 site.rounds executable) _
        ((looking env site source) (amp_digest-IsLook env site.sha256 site.rounds executable))
        λ observed.
          bind-Emits (require (is_expected observed.0 observed.1 expected) "Amp executable changed")
            _ (none-Emits _)
            λ _.
              bind-Emits (first_identity env (join_name repository (codes "local.json"))) _
                ((looking env site source) (
                  (first_identity-IsLook env site source)
                    (join_name repository (codes "local.json"))))
                λ identity. bind-Emits (do_token env) _ (one-Emits _ _ tt) λ token.
                  save_encoded-IsEnrolling repository token r home executable observed identity (
                    encode (
                      record_text site.quoted
                        (enrollment_of site source target executable version observed)))

  -- For every system, surroundings and outcome: the only changes that `enroll_amp` asks for are new
  -- directories with no right for anyone but the user, a new file in the source's repository
  -- directory that only the user may read and that is put in the place of the `local.json` there or
  -- removed, and writing out.
  pub enroll_amp-IsEnrolling :
      (home target executable version : Text) (expected : Option (Stat × Text))
      → Emits
          (IsEnrolling site source)
          (enroll_amp env site home source target executable version expected)
  unfolding enroll_amp
  enroll_amp-IsEnrolling home target executable version expected =
      bind-Emits (verify_amp env home executable) _
        ((looking env site source) (verify_amp-IsLook env home executable))
        λ _.
          bind-Emits (require (is_identity source target version) "invalid Amp enrollment identity")
            _ (none-Emits _)
            λ _.
              bind-Emits (state_directory env home site.state_home) _
                ((state_directory-IsEnrolling env site source) home site.state_home)
                λ state_home.
                  bind-Emits
                    (require
                      (text_eq (common_path state_home (repository_path site state_home source))
                        state_home)
                      "unsafe state directory")
                    _ (none-Emits _)
                    λ _.
                      bind-Emits (check_state env state_home (state_paths site state_home source)) _
                        ((check_state-IsEnrolling env site source) state_home
                          (state_paths site state_home source))
                        λ _.
                          enroll_in-IsEnrolling home target executable version expected
                            (repository_path site state_home source) (state_home, refl)
