-- ===== src/Cli/Dispatch/Exclusive.antt =====
-- No command line suits two modes.
use agent_smith_go.Base.{
  ◌≡◌, refl, ap, ◌∙◌, subst, Option, none, some, List, [], ◌∷◌, Bytes, inl, inr, ◌⊎◌, ◌↔◌,
}
use agent_smith_go.Cli.Flags.{
  OperationalMode, diagnostic, uninstall, config, service, update, selector, operational_modes,
}
use agent_smith_go.Cli.Flags.Parse.{Scalars, is_set}
use agent_smith_go.Cli.Flags.Parse.Agree.{parse_flags_agree}
use agent_smith_go.Cli.Flags.Parse.Known.{parse_flags_known}
use agent_smith_go.Cli.Dispatch.{mode_error, dispatch, first_without_error}
use agent_smith_go.Cli.Dispatch.Compatible.{
  flag_set, some_injective, selector_unknown, compatible_sound, sets_compatible,
}
use agent_smith_go.Cli.Dispatch.Selected.{accepted-Selected}

-- No command line is accepted by the constructors of two modes.
pub modes_exclusive :
    (scalars : Scalars) (args : List Bytes) (m k : OperationalMode)
    → mode_error scalars args m ≡ none
    → mode_error scalars args k ≡ none
    → m ≡ k
modes_exclusive scalars args m k h g =
    let (l, p, s) = accepted-Selected scalars args m h in
    let (j, q, t) = accepted-Selected scalars args k g in
    let same =
      parse_flags_agree scalars (flag_set m) (flag_set k) args l j
        (compatible_sound _ _ (sets_compatible m k)) p q in
    let known =
      parse_flags_known scalars (flag_set m) args l (selector k) p
        (ap (is_set (selector k)) same ∙ t) in
    elim (selector_unknown m k) [ inl e ↦ e | inr e ↦ absurd (known e) ]

abbrev Among : OperationalMode → List OperationalMode → Type 0
Among m [] = ⊥
Among m (k ∷ modes) = (k ≡ m) ⊎ Among m modes

all-Among : (m : OperationalMode) → Among m operational_modes
all-Among diagnostic = inl refl
all-Among uninstall = inr (inl refl)
all-Among config = inr (inr (inl refl))
all-Among service = inr (inr (inr (inl refl)))
all-Among update = inr (inr (inr (inr (inl refl))))

-- The result for a mode with the mode's own error as a variable.
abbrev choose : OperationalMode → Option Bytes → Option OperationalMode → Option OperationalMode
choose k o rest = elim o [ none ↦ some k | some e ↦ rest ]

chosen_accepts :
    (scalars : Scalars) (args : List Bytes) (k m : OperationalMode) (o : Option Bytes)
    (rest : Option OperationalMode)
    → mode_error scalars args k ≡ o
    → (rest ≡ some m → mode_error scalars args m ≡ none)
    → choose k o rest ≡ some m
    → mode_error scalars args m ≡ none
chosen_accepts scalars args k m none rest e h g =
    subst (λ k. mode_error scalars args k ≡ none) (some_injective k m g) e
chosen_accepts scalars args k m (some x) rest e h g = h g

first_accepts :
    (scalars : Scalars) (args : List Bytes) (modes : List OperationalMode) (m : OperationalMode)
    → first_without_error scalars args modes ≡ some m
    → mode_error scalars args m ≡ none
unfolding first_without_error
first_accepts scalars args [] m h = absurd cc
first_accepts scalars args (k ∷ modes) m h =
    chosen_accepts scalars args k m (mode_error scalars args k) _ refl
      (first_accepts scalars args modes m) h

chosen_first :
    (scalars : Scalars) (args : List Bytes) (k m : OperationalMode) (o : Option Bytes)
    (rest : Option OperationalMode)
    → mode_error scalars args k ≡ o
    → mode_error scalars args m ≡ none
    → (k ≡ m) ⊎ (rest ≡ some m)
    → choose k o rest ≡ some m
chosen_first scalars args k m none rest e h g = ap some (modes_exclusive scalars args k m e h)
chosen_first scalars args k m (some x) rest e h (inl g) = absurd cc
chosen_first scalars args k m (some x) rest e h (inr g) = g

first_finds :
    (scalars : Scalars) (args : List Bytes) (modes : List OperationalMode) (m : OperationalMode)
    → Among m modes
    → mode_error scalars args m ≡ none
    → first_without_error scalars args modes ≡ some m
unfolding first_without_error
first_finds scalars args [] m g h = absurd g
first_finds scalars args (k ∷ modes) m (inl e) h =
    chosen_first scalars args k m (mode_error scalars args k) _ refl h (inl e)
first_finds scalars args (k ∷ modes) m (inr g) h =
    chosen_first scalars args k m (mode_error scalars args k) _ refl h
      (inr (first_finds scalars args modes m g h))

-- main runs a mode exactly when the mode's own constructor accepts the command line: no command line
-- suits two modes, so the order in which main tries them does not matter.
pub dispatch_iff :
    (scalars : Scalars) (args : List Bytes) (m : OperationalMode)
    → (dispatch scalars args ≡ some m) ↔ (mode_error scalars args m ≡ none)
unfolding dispatch
dispatch_iff scalars args m = (
  first_accepts scalars args operational_modes m,
  first_finds scalars args operational_modes m (all-Among m),
)
