-- ===== src/Cli/Flags.antt =====
-- cmd/agent_smith/usage.go: flag names, the mode that the arguments select, and the exit code of usage.
pub mod Names
pub mod Parse
use agent_smith_go.Base.{
  ℕ, zero, suc, Bool, true, false, not, ◌&&◌, ◌||◌, Option, none, some, List, [], ◌∷◌, ltb, ◌==◌,
  if◌then◌else◌, Bytes, codes, length, eq_bytes,
}

-- strings.TrimLeft(arg, "-")
unfoldable pub trim_dashes : Bytes → Bytes
trim_dashes [] = []
trim_dashes (c ∷ s) = let rest = trim_dashes s in if c == b'-' then rest else c ∷ s

-- The name up to the first '='.
unfoldable pub before_eq : Bytes → Bytes
before_eq [] = []
before_eq (c ∷ s) = let rest = before_eq s in if c == b'=' then [] else c ∷ rest

abbrev pub starts_with : ℕ → Bytes → Bool
starts_with c [] = false
starts_with c (x ∷ s) = x == c

abbrev pub nonempty : Bytes → Option Bytes
nonempty [] = none
nonempty (c ∷ s) = some (c ∷ s)

unfoldable pub flag_name_from_arg : Bytes → Option Bytes
flag_name_from_arg arg =
    if ltb (length arg) 2 || not (starts_with b'-' arg)
    then none
    else nonempty (before_eq (trim_dashes arg))

abbrev is_name : Bytes → Option Bytes → Bool
is_name name none = false
is_name name (some n) = eq_bytes n name

unfoldable pub has_flag : List Bytes → Bytes → Bool
has_flag [] name = false
has_flag (arg ∷ args) name = is_name name (flag_name_from_arg arg) || has_flag args name

unfoldable pub has_help_flag : List Bytes → Bool
has_help_flag args = has_flag args (codes "help") || has_flag args (codes "h")

pub data OperationalMode : Type 0 where
  diagnostic uninstall config service update : OperationalMode

abbrev pub selector : OperationalMode → Bytes
selector diagnostic = codes "diagnostic"
selector uninstall = codes "uninstall"
selector config = codes "config-url"
selector service = codes "config-file"
selector update = codes "update"

abbrev pub operational_modes : List OperationalMode
operational_modes = diagnostic ∷ uninstall ∷ config ∷ service ∷ update ∷ []

unfoldable pub first_selected : List Bytes → List OperationalMode → Option OperationalMode
first_selected args [] = none
first_selected args (mode ∷ modes) =
    let rest = first_selected args modes in
    if has_flag args (selector mode) then some mode else rest

unfoldable pub detect_mode : List Bytes → Option OperationalMode
detect_mode args = first_selected args operational_modes
