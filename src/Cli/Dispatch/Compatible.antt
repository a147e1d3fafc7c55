-- ===== src/Cli/Dispatch/Compatible.antt =====
-- The flag sets of the modes beside each other.
use agent_smith_go.Base.{
  ◌≡◌, refl, sym, ap, ◌∙◌, subst, Bool, true, false, Option, none, some, List, [], ◌∷◌, eq_bytes,
  eq_bytes_sound, Bool-cases, inl, inr, ◌&&◌, if◌then◌else◌, ◌⊎◌,
}
use agent_smith_go.Cli.Flags.{
  OperationalMode, diagnostic, uninstall, config, service, update, selector,
}
use agent_smith_go.Cli.Flags.Parse.{FlagKind, text, switch, number, FlagDef, kind_of}
use agent_smith_go.Cli.Flags.Parse.Agree.{IsCompatible}
use agent_smith_go.Cli.Contexts.{
  config_defs, update_defs, uninstall_defs, diagnostic_defs, service_defs,
}

-- The flag set of a mode.
abbrev pub flag_set : OperationalMode → List FlagDef
flag_set diagnostic = diagnostic_defs
flag_set uninstall = uninstall_defs
flag_set config = config_defs
flag_set service = service_defs
flag_set update = update_defs

-- A flag set does not know the selector of another mode.
pub selector_unknown :
    (m k : OperationalMode) → (m ≡ k) ⊎ (kind_of (flag_set m) (selector k) ≡ none)
unfolding kind_of eq_bytes
selector_unknown diagnostic diagnostic = inl refl
selector_unknown diagnostic uninstall = inr refl
selector_unknown diagnostic config = inr refl
selector_unknown diagnostic service = inr refl
selector_unknown diagnostic update = inr refl
selector_unknown uninstall diagnostic = inr refl
selector_unknown uninstall uninstall = inl refl
selector_unknown uninstall config = inr refl
selector_unknown uninstall service = inr refl
selector_unknown uninstall update = inr refl
selector_unknown config diagnostic = inr refl
selector_unknown config uninstall = inr refl
selector_unknown config config = inl refl
selector_unknown config service = inr refl
selector_unknown config update = inr refl
selector_unknown service diagnostic = inr refl
selector_unknown service uninstall = inr refl
selector_unknown service config = inr refl
selector_unknown service service = inl refl
selector_unknown service update = inr refl
selector_unknown update diagnostic = inr refl
selector_unknown update uninstall = inr refl
selector_unknown update config = inr refl
selector_unknown update service = inr refl
selector_unknown update update = inl refl

abbrev eq_kind : FlagKind → FlagKind → Bool
eq_kind text text = true
eq_kind switch switch = true
eq_kind number number = true
eq_kind _ _ = false

eq_kind_sound : (k j : FlagKind) → eq_kind k j ≡ true → k ≡ j
eq_kind_sound text text h = refl
eq_kind_sound text switch h = absurd cc
eq_kind_sound text number h = absurd cc
eq_kind_sound switch text h = absurd cc
eq_kind_sound switch switch h = refl
eq_kind_sound switch number h = absurd cc
eq_kind_sound number text h = absurd cc
eq_kind_sound number switch h = absurd cc
eq_kind_sound number number h = refl

abbrev fits : FlagKind → Option FlagKind → Bool
fits k none = true
fits k (some j) = eq_kind k j

-- A test of whether two flag sets are compatible.
unfoldable pub compatible : List FlagDef → List FlagDef → Bool
compatible [] b = true
compatible (f ∷ a) b = fits f.kind (kind_of b f.name) && compatible a b

pub some_injective {ℓ} : {A : Type ℓ} (i j : A) → some i ≡ some j → i ≡ j
some_injective i j h = cc

both : (a b : Bool) → (a && b) ≡ true → (a ≡ true) × (b ≡ true)
both true b h = (refl, h)
both false b h = absurd cc

fits_sound : (k j : FlagKind) (o : Option FlagKind) → fits k o ≡ true → o ≡ some j → k ≡ j
fits_sound k j none h g = absurd cc
fits_sound k j (some i) h g =
    eq_kind_sound k j (subst (λ x. eq_kind k x ≡ true) (some_injective i j g) h)

pub compatible_sound : (a b : List FlagDef) → compatible a b ≡ true → IsCompatible a b
unfolding compatible kind_of
compatible_sound [] b h name k j e g = absurd cc
compatible_sound (f ∷ a) b h name k j e g =
    let (first, rest) = both _ _ h in
    elim (Bool-cases (eq_bytes f.name name)) [
      | inl same ↦
          subst (λ k. k ≡ j)
            (some_injective _ _
              (sym (ap (λ c. if c then some f.kind else kind_of a name) same) ∙ e))
            (fits_sound f.kind j _ first (ap (kind_of b) (eq_bytes_sound f.name name same) ∙ g))
      | inr other ↦
          compatible_sound a b rest name k j
            (sym (ap (λ c. if c then some f.kind else kind_of a name) other) ∙ e) g
    ]

pub sets_compatible : (m k : OperationalMode) → compatible (flag_set m) (flag_set k) ≡ true
unfolding compatible kind_of eq_bytes
sets_compatible diagnostic diagnostic = refl
sets_compatible diagnostic uninstall = refl
sets_compatible diagnostic config = refl
sets_compatible diagnostic service = refl
sets_compatible diagnostic update = refl
sets_compatible uninstall diagnostic = refl
sets_compatible uninstall uninstall = refl
sets_compatible uninstall config = refl
sets_compatible uninstall service = refl
sets_compatible uninstall update = refl
sets_compatible config diagnostic = refl
sets_compatible config uninstall = refl
sets_compatible config config = refl
sets_compatible config service = refl
sets_compatible config update = refl
sets_compatible service diagnostic = refl
sets_compatible service uninstall = refl
sets_compatible service config = refl
sets_compatible service service = refl
sets_compatible service update = refl
sets_compatible update diagnostic = refl
sets_compatible update uninstall = refl
sets_compatible update config = refl
sets_compatible update service = refl
sets_compatible update update = refl
