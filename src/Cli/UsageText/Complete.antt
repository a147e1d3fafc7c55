-- ===== src/Cli/UsageText/Complete.antt =====
-- The whole usage shows every mode.
use agent_smith_go.Base.{
  ◌≡◌, refl, sym, subst, true, List, [], ◌∷◌, ◌++◌, arith, Bytes, codes, contains, has_prefix,
}
use agent_smith_go.Cli.Flags.{
  OperationalMode, diagnostic, uninstall, config, service, update, operational_modes,
}
use agent_smith_go.Cli.UsageText.{
  Rendering, mode_name, mode_summary, capitalize, summary_lines, flag_sections, full_usage,
}

has_prefix-append : (p t : Bytes) → has_prefix (p ++ t) p ≡ true
unfolding has_prefix
has_prefix-append [] [] = refl
has_prefix-append [] (c ∷ t) = refl
has_prefix-append (c ∷ p) t = ground (arith, has_prefix-append p t)

contains_here : (p t : Bytes) → contains (p ++ t) p ≡ true
unfolding contains
contains_here [] [] = has_prefix-append [] []
contains_here [] (c ∷ t) = ground (arith, has_prefix-append [] (c ∷ t))
contains_here (c ∷ p) t = ground (arith, has_prefix-append (c ∷ p) t)

contains_later : (s t p : Bytes) → contains t p ≡ true → contains (s ++ t) p ≡ true
unfolding contains
contains_later [] t p h = h
contains_later (c ∷ s) t p h = ground (arith, contains_later s t p h)

has_prefix_longer : (s t p : Bytes) → has_prefix s p ≡ true → has_prefix (s ++ t) p ≡ true
unfolding has_prefix
has_prefix_longer [] [] [] h = refl
has_prefix_longer [] (c ∷ t) [] h = refl
has_prefix_longer [] t (d ∷ p) h = absurd cc
has_prefix_longer (c ∷ s) t [] h = refl
has_prefix_longer (c ∷ s) t (d ∷ p) h = ground (arith, has_prefix_longer s t p)

contains_before : (s t p : Bytes) → contains s p ≡ true → contains (s ++ t) p ≡ true
unfolding contains
contains_before [] [] [] h = refl
contains_before [] (c ∷ t) [] h = refl
contains_before [] t (d ∷ p) h = absurd (unfold has_prefix in cc)
contains_before (c ∷ s) t p h = ground (arith, contains_before s t p, has_prefix_longer (c ∷ s) t p)

module _ (r : Rendering) (mode : OperationalMode) (after : List OperationalMode) where
  summary_shown :
      (before : List OperationalMode)
      → contains (summary_lines r (before ++ (mode ∷ after))) (mode_summary r.allowed_levels mode)
        ≡ true
  unfolding summary_lines
  summary_shown [] =
      contains_later (codes "  rewst_agent_config ")
        (mode_summary r.allowed_levels mode ++ (codes "\n" ++ summary_lines r after))
        (mode_summary r.allowed_levels mode)
        (contains_here (mode_summary r.allowed_levels mode) (codes "\n" ++ summary_lines r after))
  summary_shown (m ∷ before) =
      let rest = summary_lines r (before ++ (mode ∷ after)) in
      let p = mode_summary r.allowed_levels mode in
      contains_later (codes "  rewst_agent_config ")
        (mode_summary r.allowed_levels m ++ (codes "\n" ++ rest)) p
        (contains_later (mode_summary r.allowed_levels m) (codes "\n" ++ rest) p
          (contains_later (codes "\n") rest p (summary_shown before)))

  flags_shown :
      (before : List OperationalMode)
      → contains (flag_sections r (before ++ (mode ∷ after))) (r.render_flag_defaults mode) ≡ true
  unfolding flag_sections
  flags_shown [] =
      let p = r.render_flag_defaults mode in
      let rest = p ++ flag_sections r after in
      contains_later (codes "\n") (capitalize (mode_name mode) ++ (codes " mode:\n" ++ rest)) p (
        contains_later (capitalize (mode_name mode)) (codes " mode:\n" ++ rest) p
          (contains_later (codes " mode:\n") rest p (contains_here p (flag_sections r after))))
  flags_shown (m ∷ before) =
      let p = r.render_flag_defaults mode in
      let more = flag_sections r (before ++ (mode ∷ after)) in
      let rest = r.render_flag_defaults m ++ more in
      contains_later (codes "\n") (capitalize (mode_name m) ++ (codes " mode:\n" ++ rest)) p (
        contains_later (capitalize (mode_name m)) (codes " mode:\n" ++ rest) p (
          contains_later (codes " mode:\n") rest p
            (contains_later (r.render_flag_defaults m) more p (flags_shown before))))

-- Where a mode stands among the modes.
before_of : OperationalMode → List OperationalMode
before_of diagnostic = []
before_of uninstall = diagnostic ∷ []
before_of config = diagnostic ∷ uninstall ∷ []
before_of service = diagnostic ∷ uninstall ∷ config ∷ []
before_of update = diagnostic ∷ uninstall ∷ config ∷ service ∷ []

after_of : OperationalMode → List OperationalMode
after_of diagnostic = uninstall ∷ config ∷ service ∷ update ∷ []
after_of uninstall = config ∷ service ∷ update ∷ []
after_of config = service ∷ update ∷ []
after_of service = update ∷ []
after_of update = []

placed : (mode : OperationalMode) → operational_modes ≡ before_of mode ++ (mode ∷ after_of mode)
unfolding before_of after_of
placed diagnostic = refl
placed uninstall = refl
placed config = refl
placed service = refl
placed update = refl

-- The whole usage has the summary of every mode and the description of its flags.
pub full_usage-contains :
    (r : Rendering) (mode : OperationalMode)
    → (contains (full_usage r) (mode_summary r.allowed_levels mode) ≡ true)
      × (contains (full_usage r) (r.render_flag_defaults mode) ≡ true)
unfolding full_usage
full_usage-contains r mode =
    let modes = before_of mode ++ (mode ∷ after_of mode) in
    let lines = summary_lines r modes in
    let sections = flag_sections r modes in
    let shown = λ (modes : List OperationalMode).
      codes "Usage:\n" ++ (summary_lines r modes ++ flag_sections r modes) in
    subst
      (λ (modes : List OperationalMode).
        (contains (shown modes) (mode_summary r.allowed_levels mode) ≡ true)
        × (contains (shown modes) (r.render_flag_defaults mode) ≡ true))
      (sym (placed mode))
      (
        contains_later (codes "Usage:\n") (lines ++ sections) (mode_summary r.allowed_levels mode) (
            contains_before lines sections (mode_summary r.allowed_levels mode)
              (summary_shown r mode (after_of mode) (before_of mode))),
        contains_later (codes "Usage:\n") (lines ++ sections) (r.render_flag_defaults mode) (
            contains_later lines sections (r.render_flag_defaults mode)
              (flags_shown r mode (after_of mode) (before_of mode))),
      )
