-- ===== src/Arguments/Named.antt =====
-- Which arguments name a command of runtime/templates/runtime_metadata.py.
use clamp.Prelude.{
  ◌≡◌, ◌↔◌, refl, sym, ◌∙◌, ap, Option, none, some, List, [], ◌∷◌, All, Bool-cases, inl, inr,
}
use clamp.Text.{Text, codes, text_eq}
use clamp.Text.Equality.{text_eq_sound}
use clamp.Arguments.{
  Task, call_parse_lock, call_parse_manifest, call_verify_digest, call_source_repository,
  call_local_preflight, call_verify_amp, call_verify_amp_version, call_run_amp_version,
  call_check_amp_remote, call_qualify_amp, call_setup_credential_helper, call_enroll_amp,
  call_extract_archive, call_private_directories, call_check_directories, call_installed,
  call_install, call_cache, Reader, one_argument, two_arguments, three_arguments, four_arguments,
  five_arguments, six_arguments, two_arguments_and_more, seven_arguments_and_more, commands,
  first_fit, selected,
}

-- How a call is written behind the program's name.
abbrev pub words : Task → List Text
words (call_parse_lock a b) = codes "lock" ∷ a ∷ b ∷ []
words (call_parse_manifest a b c d e) = codes "manifest" ∷ a ∷ b ∷ c ∷ d ∷ e ∷ []
words (call_verify_digest a b) = codes "digest" ∷ a ∷ b ∷ []
words (call_source_repository a) = codes "source" ∷ a ∷ []
words (call_local_preflight a b) = codes "preflight" ∷ a ∷ b ∷ []
words (call_verify_amp a b) = codes "verify-amp" ∷ a ∷ b ∷ []
words (call_verify_amp_version a) = codes "amp-version" ∷ a ∷ []
words (call_run_amp_version a b) = codes "amp-version-exec" ∷ a ∷ b ∷ []
words (call_check_amp_remote a b c d) = codes "amp-ready" ∷ a ∷ b ∷ c ∷ d ∷ []
words (call_qualify_amp a b c d e g) = codes "qualify-amp" ∷ a ∷ b ∷ c ∷ d ∷ e ∷ g ∷ []
words (call_setup_credential_helper a b) = codes "credential-helper" ∷ a ∷ b ∷ []
words (call_enroll_amp a b c d e) = codes "enroll-amp" ∷ a ∷ b ∷ c ∷ d ∷ e ∷ []
words (call_extract_archive a b c d e g i more) = codes "extract" ∷ a ∷ b ∷ c ∷ d ∷ e ∷ g ∷ i ∷ more
words (call_private_directories a b more) = codes "private-dirs" ∷ a ∷ b ∷ more
words (call_check_directories a b more) = codes "verify-dirs" ∷ a ∷ b ∷ more
words (call_installed a b c d) = codes "installed" ∷ a ∷ b ∷ c ∷ d ∷ []
words (call_install a b) = codes "install" ∷ a ∷ b ∷ []
words (call_cache a b c) = codes "cache" ∷ a ∷ b ∷ c ∷ []

-- A reader takes just the arguments with which its call is written.
abbrev IsFaithful : Text × Reader → Type 0
IsFaithful (name, reader) =
    (args : List Text) (task : Task) → reader args ≡ some task → words task ≡ name ∷ args

some_inj : {a b : Task} → some a ≡ some b → b ≡ a
some_inj e = cc

first_fit-words :
    (table : List (Text × Reader))
    → All IsFaithful table
    → (name : Text) (args : List Text) (task : Task) → first_fit table name args ≡ some task
    → words task ≡ name ∷ args
unfolding first_fit
first_fit-words [] all name args task e = cc
first_fit-words ((key, reader) ∷ table) (here, rest) name args task e =
    elim (Bool-cases (text_eq name key)) [
      | inl y ↦
          read (first_fit-words table rest name args task) (reader args) refl (rw y at e)
            (text_eq_sound name key y)
      | inr n ↦ first_fit-words table rest name args task (rw n at e)
    ]
  where
    read :
        (first_fit table name args ≡ some task → words task ≡ name ∷ args)
        → (r : Option Task) → reader args ≡ r
        → (elim r [ none ↦ first_fit table name args | some found ↦ some found ]) ≡ some task
        → name ≡ key
        → words task ≡ name ∷ args
    read later none is e' same = later e'
    read later (some found) is e' same =
        ap words (some_inj e') ∙ here args found is ∙ ap (λ k. k ∷ args) (sym same)

one_argument-IsFaithful :
    (name : Text) (f : Text → Task)
    → ((a : Text) → words (f a) ≡ name ∷ a ∷ [])
    → IsFaithful (name, one_argument f)
unfolding one_argument
one_argument-IsFaithful name f w (a ∷ []) task is = ap words (some_inj is) ∙ w a
one_argument-IsFaithful name f w _ task is = cc

two_arguments-IsFaithful :
    (name : Text) (f : Text → Text → Task)
    → ((a b : Text) → words (f a b) ≡ name ∷ a ∷ b ∷ [])
    → IsFaithful (name, two_arguments f)
unfolding two_arguments
two_arguments-IsFaithful name f w (a ∷ b ∷ []) task is = ap words (some_inj is) ∙ w a b
two_arguments-IsFaithful name f w _ task is = cc

three_arguments-IsFaithful :
    (name : Text) (f : Text → Text → Text → Task)
    → ((a b c : Text) → words (f a b c) ≡ name ∷ a ∷ b ∷ c ∷ [])
    → IsFaithful (name, three_arguments f)
unfolding three_arguments
three_arguments-IsFaithful name f w (a ∷ b ∷ c ∷ []) task is = ap words (some_inj is) ∙ w a b c
three_arguments-IsFaithful name f w _ task is = cc

four_arguments-IsFaithful :
    (name : Text) (f : Text → Text → Text → Text → Task)
    → ((a b c d : Text) → words (f a b c d) ≡ name ∷ a ∷ b ∷ c ∷ d ∷ [])
    → IsFaithful (name, four_arguments f)
unfolding four_arguments
four_arguments-IsFaithful name f w (a ∷ b ∷ c ∷ d ∷ []) task is = ap words (some_inj is) ∙ w a b c d
four_arguments-IsFaithful name f w _ task is = cc

five_arguments-IsFaithful :
    (name : Text) (f : Text → Text → Text → Text → Text → Task)
    → ((a b c d e : Text) → words (f a b c d e) ≡ name ∷ a ∷ b ∷ c ∷ d ∷ e ∷ [])
    → IsFaithful (name, five_arguments f)
unfolding five_arguments
five_arguments-IsFaithful name f w (a ∷ b ∷ c ∷ d ∷ e ∷ []) task is =
    ap words (some_inj is) ∙ w a b c d e
five_arguments-IsFaithful name f w _ task is = cc

six_arguments-IsFaithful :
    (name : Text) (f : Text → Text → Text → Text → Text → Text → Task)
    → ((a b c d e g : Text) → words (f a b c d e g) ≡ name ∷ a ∷ b ∷ c ∷ d ∷ e ∷ g ∷ [])
    → IsFaithful (name, six_arguments f)
unfolding six_arguments
six_arguments-IsFaithful name f w (a ∷ b ∷ c ∷ d ∷ e ∷ g ∷ []) task is =
    ap words (some_inj is) ∙ w a b c d e g
six_arguments-IsFaithful name f w _ task is = cc

two_arguments_and_more-IsFaithful :
    (name : Text) (f : Text → Text → List Text → Task)
    → ((a b : Text) (more : List Text) → words (f a b more) ≡ name ∷ a ∷ b ∷ more)
    → IsFaithful (name, two_arguments_and_more f)
unfolding two_arguments_and_more
two_arguments_and_more-IsFaithful name f w (a ∷ b ∷ more) task is =
    ap words (some_inj is) ∙ w a b more
two_arguments_and_more-IsFaithful name f w _ task is = cc

seven_arguments_and_more-IsFaithful :
    (name : Text) (f : Text → Text → Text → Text → Text → Text → Text → List Text → Task)
    → ((a b c d e g i : Text) (more : List Text)
        → words (f a b c d e g i more) ≡ name ∷ a ∷ b ∷ c ∷ d ∷ e ∷ g ∷ i ∷ more)
    → IsFaithful (name, seven_arguments_and_more f)
unfolding seven_arguments_and_more
seven_arguments_and_more-IsFaithful name f w (a ∷ b ∷ c ∷ d ∷ e ∷ g ∷ i ∷ more) task is =
    ap words (some_inj is) ∙ w a b c d e g i more
seven_arguments_and_more-IsFaithful name f w _ task is = cc

commands-AreFaithful : All IsFaithful commands
commands-AreFaithful = (
  two_arguments-IsFaithful _ call_parse_lock (λ _ _. refl),
  (
    five_arguments-IsFaithful _ call_parse_manifest (λ _ _ _ _ _. refl),
    (
      two_arguments-IsFaithful _ call_verify_digest (λ _ _. refl),
      (
        one_argument-IsFaithful _ call_source_repository (λ _. refl),
        (
          two_arguments-IsFaithful _ call_local_preflight (λ _ _. refl),
          (
            two_arguments-IsFaithful _ call_verify_amp (λ _ _. refl),
            (
              one_argument-IsFaithful _ call_verify_amp_version (λ _. refl),
              (
                two_arguments-IsFaithful _ call_run_amp_version (λ _ _. refl),
                (
                  four_arguments-IsFaithful _ call_check_amp_remote (λ _ _ _ _. refl),
                  (
                    six_arguments-IsFaithful _ call_qualify_amp (λ _ _ _ _ _ _. refl),
                    (
                      two_arguments-IsFaithful _ call_setup_credential_helper (λ _ _. refl),
                      (
                        five_arguments-IsFaithful _ call_enroll_amp (λ _ _ _ _ _. refl),
                        (
                          seven_arguments_and_more-IsFaithful _ call_extract_archive
                              (λ _ _ _ _ _ _ _ _. refl),
                          (
                            two_arguments_and_more-IsFaithful _ call_private_directories
                                (λ _ _ _. refl),
                            (
                              two_arguments_and_more-IsFaithful _ call_check_directories
                                  (λ _ _ _. refl),
                              (
                                four_arguments-IsFaithful _ call_installed (λ _ _ _ _. refl),
                                (
                                  two_arguments-IsFaithful _ call_install (λ _ _. refl),
                                  (three_arguments-IsFaithful _ call_cache (λ _ _ _. refl), tt),
                                ),
                              ),
                            ),
                          ),
                        ),
                      ),
                    ),
                  ),
                ),
              ),
            ),
          ),
        ),
      ),
    ),
  ),
)

words-selected : (program : Text) (task : Task) → selected (program ∷ words task) ≡ some task
unfolding selected first_fit text_eq one_argument two_arguments three_arguments four_arguments
    five_arguments six_arguments two_arguments_and_more seven_arguments_and_more
words-selected program (call_parse_lock a b) = refl
words-selected program (call_parse_manifest a b c d e) = refl
words-selected program (call_verify_digest a b) = refl
words-selected program (call_source_repository a) = refl
words-selected program (call_local_preflight a b) = refl
words-selected program (call_verify_amp a b) = refl
words-selected program (call_verify_amp_version a) = refl
words-selected program (call_run_amp_version a b) = refl
words-selected program (call_check_amp_remote a b c d) = refl
words-selected program (call_qualify_amp a b c d e g) = refl
words-selected program (call_setup_credential_helper a b) = refl
words-selected program (call_enroll_amp a b c d e) = refl
words-selected program (call_extract_archive a b c d e g i more) = refl
words-selected program (call_private_directories a b more) = refl
words-selected program (call_check_directories a b more) = refl
words-selected program (call_installed a b c d) = refl
words-selected program (call_install a b) = refl
words-selected program (call_cache a b c) = refl

-- The table selects a call exactly when the arguments behind the program's name are the call's name
-- and its arguments, as many as it takes; for any others there is none, which is the usage error.
pub selected_iff :
    (program : Text) (args : List Text) (task : Task)
    → (selected (program ∷ args) ≡ some task) ↔ (args ≡ words task)
unfolding selected
selected_iff program args task =
    (named args, λ e. ap (λ ws. selected (program ∷ ws)) e ∙ words-selected program task)
  where
    named : (args : List Text) → selected (program ∷ args) ≡ some task → args ≡ words task
    named [] e = cc
    named (name ∷ rest) e = sym (first_fit-words commands commands-AreFaithful name rest task e)
