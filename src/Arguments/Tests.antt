-- ===== src/Arguments/Tests.antt =====
-- Arguments that name a command, and some that do not.
use clamp.Prelude.{◌≡◌, ◌↔◌, refl, some, none, [], ◌∷◌}
use clamp.Text.{codes, text_eq}
use clamp.Arguments.{
  call_install, one_argument, two_arguments, three_arguments, four_arguments, five_arguments,
  six_arguments, two_arguments_and_more, seven_arguments_and_more, first_fit, selected,
}
use clamp.Arguments.Named.{words, selected_iff}

running : Unit {0}
unfolding text_eq one_argument two_arguments three_arguments four_arguments five_arguments
    six_arguments two_arguments_and_more seven_arguments_and_more first_fit selected
running = tt

selected_tests :
    (selected (codes "p" ∷ codes "install" ∷ codes "a" ∷ codes "b" ∷ [])
      ≡ some (call_install (codes "a") (codes "b")))
    × (selected (codes "p" ∷ codes "install" ∷ codes "a" ∷ []) ≡ none)
    × (selected (codes "p" ∷ codes "private-dirs" ∷ codes "/h" ∷ []) ≡ none)
    × (selected (codes "p" ∷ []) ≡ none)
unfolding running
selected_tests = (refl, refl, refl, refl)

selected_iff_example :
    (selected (codes "p" ∷ codes "install" ∷ codes "a" ∷ codes "b" ∷ [])
      ≡ some (call_install (codes "a") (codes "b")))
    ↔ (codes "install" ∷ codes "a" ∷ codes "b" ∷ [] ≡ words (call_install (codes "a") (codes "b")))
selected_iff_example =
    selected_iff (codes "p") (codes "install" ∷ codes "a" ∷ codes "b" ∷ [])
      (call_install (codes "a") (codes "b"))
