-- ===== src/Agent/Installation/Environment.antt =====
-- ValidateInstallationEnvironment of internal/agent/installation_windows.go.
use agent_smith_go.Base.{
  ◌≡◌, ◌↔◌, refl, false, Option, none, some, List, [], ◌∷◌, ◌++◌, if◌then◌else◌, Bytes, codes,
  is_empty, All, Bool-cases, inl, inr,
}

abbrev pub required : List Bytes
required = codes "PROGRAMFILES" ∷ codes "PROGRAMDATA" ∷ codes "SYSTEMDRIVE" ∷ []

-- The names whose variable is empty or not set.
unfoldable pub missing_variables : (Bytes → Bytes) → List Bytes → List Bytes
missing_variables getenv [] = []
missing_variables getenv (name ∷ names) =
    let rest = missing_variables getenv names in
    if is_empty (getenv name) then name ∷ rest else rest

-- strings.Join(names, ", ")
unfoldable pub comma_join : List Bytes → Bytes
comma_join [] = []
comma_join (name ∷ []) = name
comma_join (name ∷ next ∷ names) = name ++ (codes ", " ++ comma_join (next ∷ names))

abbrev missing_error : List Bytes → Option Bytes
missing_error [] = none
missing_error (name ∷ names) =
    some (codes "required Windows environment variable(s) not set: " ++ comma_join (name ∷ names))

unfoldable pub validate_windows_environment : (Bytes → Bytes) → Option Bytes
unfolding missing_variables comma_join
validate_windows_environment getenv = missing_error (missing_variables getenv required)

abbrev HasValue : (Bytes → Bytes) → Bytes → Type 0
HasValue getenv name = is_empty (getenv name) ≡ false

none_missing :
    (getenv : Bytes → Bytes) (names : List Bytes)
    → (missing_error (missing_variables getenv names) ≡ none) ↔ All (HasValue getenv) names
unfolding missing_variables
none_missing getenv [] = ((λ h. tt), λ h. refl)
none_missing getenv (name ∷ names) = elim (Bool-cases (is_empty (getenv name))) [
  | inl e ↦ rw e ((λ h. absurd cc), λ h. absurd (cc h.0))
  | inr e ↦
      rw e ((λ h. (refl, (none_missing getenv names).0 h)), λ h. (none_missing getenv names).1 h.1)
]

-- On Windows the environment is accepted exactly when every variable that a path is made of is set.
pub validate_windows_environment_iff :
    (getenv : Bytes → Bytes)
    → (validate_windows_environment getenv ≡ none) ↔ All (HasValue getenv) required
unfolding validate_windows_environment
validate_windows_environment_iff getenv = none_missing getenv required
