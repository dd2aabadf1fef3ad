-- ===== src/Preflight/Ready.antt =====
-- When the preflight of runtime/templates/runtime_metadata.py succeeds.
use clamp.Prelude.{
  ◌≢◌, ◌≡◌, refl, sym, ap, ◌↔◌, ◌⊎◌, inl, inr, Bool, true, false, not, Option, none, some, List, [],
  ◌∷◌, All, Bool-cases, if◌then◌else◌, ◌∙◌, arith, Option-cases,
}
use clamp.Prelude.Results.{Result, ok, err, >>=-eq-ok, ok_inj, ◌>>=◌}
use clamp.Text.{Text, codes, mem, text_eq}
use clamp.Text.Equality.{text_eq_iff}
use clamp.Version.{Version, version_tuple, version_lt}
use clamp.Preflight.{
  Machine, Tool, Platform, Outcome, ready, preflight, version_command, first_executable,
  filesystem_of, is_older, caught, is_run_error, tool_found, missing_tool, ripgrep_found,
  check_platform, on_platform, filesystem_outcome, linux, macos,
}

module _ (machine : Machine) where
  -- A text shows a version, and it is at least the minimum.
  abbrev pub Shows : Text → Version → Type 0
  Shows text minimum =
      (v : Version) × (version_tuple machine.int text ≡ ok v) × (version_lt v minimum ≡ false)

  -- A program that runs and is new enough.
  abbrev pub Runs : Text → Version → Type 0
  Runs executable minimum =
      (output : Text) × (machine.output (version_command machine executable) ≡ ok output)
      × Shows output minimum

  abbrev pub HasTool : Tool → Type 0
  HasTool tool = (machine.is_executable tool.executable ≡ true) × Runs tool.executable tool.minimum

  -- The first candidate that can run is new enough.
  abbrev pub Searches : List Text → Type 0
  Searches candidates =
      (rg : Text) × (first_executable machine candidates ≡ some rg) × Runs rg (14 ∷ 1 ∷ [])

  abbrev pub Stored : Platform → Text → Type 0
  Stored platform repository =
      (name : Text) × (filesystem_of machine (platform.stat_command repository) ≡ ok name)
      × (mem name platform.accepted ≡ true)

  -- What the preflight promises of a machine, for one platform.
  pub record IsFit (platform : Platform) (text : Text) (minimum : Version) (repository : Text)
      : Type 0 where
    pub recent : Shows text minimum
    pub equipped : All HasTool (platform.tools machine.python)
    pub searches : Searches platform.rg_candidates
    pub stored : Stored platform repository

  older_iff :
      (text : Text) (minimum : Version)
      → (is_older machine text minimum ≡ ok false) ↔ Shows text minimum
  unfolding is_older
  older_iff text minimum = (
    λ e.
        let (v, shown, e') = >>=-eq-ok (version_tuple machine.int text) _ e in
        (v, shown, ok_inj (sym e')),
    λ s. let (v, shown, new) = s in rw shown (ap ok new),
  )

  -- A command that answered behind the handler did answer.
  caught-answer :
      (r : Result Text) (output : Text) → caught machine r ≡ ok (some output) → r ≡ ok output
  caught-answer (ok text) output e = cc
  caught-answer (err x) output e = elim (Bool-cases (is_run_error x)) [
    | inl y ↦ absurd (cc)
    | inr n ↦ absurd (cc)
  ]

  -- The test of an answer.
  answer-Shows :
      (minimum : Version) (o : Option Text)
      → (elim o as (λ _. Result Bool) [
        | none ↦ ok false
        | some output ↦ version_tuple machine.int output >>= λ v. ok (not (version_lt v minimum))
      ])
        ≡ ok true
      → (output : Text) × (o ≡ some output) × Shows output minimum
  answer-Shows minimum none e = absurd (cc)
  answer-Shows minimum (some output) e =
      let (v, shown, e') = >>=-eq-ok (version_tuple machine.int output) _ e in
      let new : true ≡ not (version_lt v minimum) = ok_inj e' in
      (output, refl, (v, shown, ground arith))

  tool_found-HasTool : (tool : Tool) → tool_found machine tool ≡ ok true → HasTool tool
  unfolding tool_found
  tool_found-HasTool tool e = elim (Bool-cases (machine.is_executable tool.executable)) [
    | inr n ↦ absurd (cc)
    | inl there ↦
        let (o, called, e') =
          >>=-eq-ok (caught machine (machine.output (version_command machine tool.executable))) _
            (rw there at e) in
        let (output, is, shows) = answer-Shows tool.minimum o e' in
        (there, (output, caught-answer _ output (called ∙ ap ok is), shows))
  ]

  HasTool-tool_found : (tool : Tool) → HasTool tool → tool_found machine tool ≡ ok true
  unfolding tool_found
  HasTool-tool_found tool (there, (output, answer, (v, shown, new))) =
      rw (there, answer, shown, new) refl

  missing_tool_iff :
      (tools : List Tool) → (missing_tool machine tools ≡ ok none) ↔ All HasTool tools
  unfolding missing_tool
  missing_tool_iff [] = (λ _. tt, λ _. refl)
  missing_tool_iff (tool ∷ tools) = (
    λ e.
        let (found, is, e') = >>=-eq-ok (tool_found machine tool) _ e in
        elim (Bool-cases found) [
          | inl y ↦
              (tool_found-HasTool tool (is ∙ ap ok y), (missing_tool_iff tools).0 (rw y at e'))
          | inr n ↦ absurd (cc)
        ],
    λ h. rw (HasTool-tool_found tool h.0) ((missing_tool_iff tools).1 h.1),
  )

  ripgrep_found_iff :
      (candidates : List Text) → (ripgrep_found machine candidates ≡ ok true) ↔ Searches candidates
  unfolding ripgrep_found
  ripgrep_found_iff candidates = (
    λ e. found e,
    λ s.
        let (rg, is, (output, answer, (v, shown, new))) = s in
        rw (is, ripgrep_found) (rw (answer, shown, new) refl),
  )
    where
      found : ripgrep_found machine candidates ≡ ok true → Searches candidates
      found e = elim (Option-cases (first_executable machine candidates)) [
        | inl n ↦ absurd (cc)
        | inr (rg, is) ↦
            let (output, answer, e') =
              >>=-eq-ok (machine.output (version_command machine rg)) _
                (rw (is, ripgrep_found) at e) in
            let (v, shown, e₂) = >>=-eq-ok (version_tuple machine.int output) _ e' in
            let new : true ≡ not (version_lt v (14 ∷ 1 ∷ [])) = ok_inj e₂ in
            (rg, is, (output, answer, (v, shown, ground arith)))
      ]

  outcome-ready :
      (accepted : List Text) (name : Text)
      → filesystem_outcome machine accepted name ≡ ready
      → mem name accepted ≡ true
  unfolding filesystem_outcome
  outcome-ready accepted name e = elim (Bool-cases (mem name accepted)) [
    | inl y ↦ y
    | inr n ↦ absurd (cc)
  ]

  -- Inversion of the tests with another outcome than `ready`.
  not_found-ready :
      (found : Bool) (o : Outcome) (r : Result Outcome)
      → o ≢ ready
      → (if not found then ok o else r) ≡ ok ready
      → (found ≡ true) × (r ≡ ok ready)
  not_found-ready true o r n e = (refl, e)
  not_found-ready false o r n e = absurd (n (sym (ok_inj e)))

  check_platform_iff :
      (platform : Platform) (repository : Text)
      → (check_platform machine platform repository ≡ ok ready) ↔ (
          All HasTool (platform.tools machine.python)
          × Searches platform.rg_candidates
          × Stored platform repository)
  unfolding check_platform filesystem_outcome
  check_platform_iff platform repository = (
    λ e.
        let (absent, e1, e') =
          >>=-eq-ok (missing_tool machine (platform.tools machine.python)) _ e in
        elim (Option-cases absent) [
          | inr (tool, is) ↦ absurd (cc)
          | inl none_absent ↦
              let (found, e₂, e₃) =
                >>=-eq-ok (ripgrep_found machine platform.rg_candidates) _ (rw none_absent at e') in
              let (is_found, e₄) = not_found-ready found _ _ (λ q. cc) e₃ in
              let (name, e₅, e₆) =
                >>=-eq-ok (filesystem_of machine (platform.stat_command repository)) _ e₄ in
              (
                (missing_tool_iff _).0 (e1 ∙ ap ok none_absent),
                (ripgrep_found_iff _).0 (e₂ ∙ ap ok is_found),
                (name, e₅, outcome-ready platform.accepted name (sym (ok_inj e₆))),
              )
        ],
    λ s.
        let (tools, searched, (name, named, known)) = s in
        rw ((missing_tool_iff _).1 tools, (ripgrep_found_iff _).1 searched, named, known) refl,
  )

  -- For each platform: the test of its version, and then the tools.
  on_platform_iff :
      (platform : Platform) (text : Text) (minimum : Version) (repository : Text)
      → (on_platform machine platform text minimum repository ≡ ok ready)
        ↔ IsFit platform text minimum repository
  unfolding on_platform
  on_platform_iff platform text minimum repository = (
    λ e.
        let (older, e₁, e₂) = >>=-eq-ok (is_older machine text minimum) _ e in
        elim (Bool-cases older) [
          | inl y ↦ absurd (cc)
          | inr n ↦
              let (tools, searched, held) =
                (check_platform_iff platform repository).0 (rw n at e₂) in
              record {
                recent = (older_iff text minimum).0 (e₁ ∙ ap ok n);
                equipped = tools;
                searches = searched;
                stored = held;
              }
        ],
    λ s.
        rw ((older_iff text minimum).1 s.recent)
          ((check_platform_iff platform repository).1 (s.equipped, s.searches, s.stored)),
  )

  -- A machine of one of the two platforms that fits it.
  abbrev pub IsReady : Text → Text → Type 0
  IsReady target repository =
      ((target ≡ codes "linux-x86_64") × IsFit linux machine.libc (2 ∷ 36 ∷ []) repository)
      ⊎ ((target ≡ codes "macos-arm64") × IsFit macos machine.mac (26 ∷ 5 ∷ 2 ∷ []) repository)

  -- For every machine: the preflight succeeds exactly for one of the two targets, when the version
  -- of the system and every tool of that platform's table are at least the minimum, the first `rg`
  -- is, and the file system of the repository is one of those accepted.
  pub preflight_iff :
      (target repository : Text)
      → (preflight machine target repository ≡ ok ready) ↔ IsReady target repository
  unfolding preflight
  preflight_iff target repository = elim (Bool-cases (text_eq target (codes "linux-x86_64"))) [
    | inl y ↦
        let is : target ≡ codes "linux-x86_64" = (text_eq_iff target _).0 y in
        let (to, from) = on_platform_iff linux machine.libc (2 ∷ 36 ∷ []) repository in
        (
          λ e. inl (is, to (rw y at e)),
          λ r. elim r [ inl (q, f) ↦ rw y (from f) | inr (q, f) ↦ absurd (cc) ],
        )
    | inr n ↦ elim (Bool-cases (text_eq target (codes "macos-arm64"))) [
      | inl y ↦
          let is : target ≡ codes "macos-arm64" = (text_eq_iff target _).0 y in
          let (to, from) = on_platform_iff macos machine.mac (26 ∷ 5 ∷ 2 ∷ []) repository in
          (
            λ e. inr (is, to (rw (n, y) at e)),
            λ r. elim r [ inl (q, f) ↦ absurd (cc) | inr (q, f) ↦ rw (n, y) (from f) ],
          )
      | inr m ↦ (
        λ e. absurd (cc),
        λ r. elim r [
          | inl (q, f) ↦ absurd (ground (arith, text_eq_iff target (codes "linux-x86_64")))
          | inr (q, f) ↦ absurd (ground (arith, text_eq_iff target (codes "macos-arm64")))
        ],
      )
    ]
  ]
