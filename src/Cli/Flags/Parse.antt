-- ===== src/Cli/Flags/Parse.antt =====
-- What package flag makes of the arguments, for the flag sets of cmd/agent_smith.
pub mod Agree
pub mod Known
use agent_smith_go.Base.{
  ℕ, zero, suc, Bool, true, false, not, ◌&&◌, ◌||◌, Option, none, some, List, [], ◌∷◌, ◌++◌, ltb,
  ◌==◌, if◌then◌else◌, ℤ, pos, Bytes, codes, length, eq_bytes,
}
use agent_smith_go.Cli.Flags.{starts_with}

-- strconv.ParseInt with base 0, within an int, and strconv.ParseBool.
pub record Scalars : Type 0 where
  pub parse_int : Bytes → Option ℤ
  pub parse_bool : Bytes → Option Bool

pub data FlagKind : Type 0 where
  text switch number : FlagKind

pub record FlagDef : Type 0 where
  pub name : Bytes
  pub kind : FlagKind

pub data Value : Type 0 where
  text_value : Bytes → Value
  switch_value : Bool → Value
  number_value : ℤ → Value

-- A flag that was set, with its value.
abbrev pub Setting : Type 0
Setting = Bytes × Value

pub data Parsed : Type 0 where
  bad_flag : Parsed
  settings : List Setting → Parsed

pub data Argument : Type 0 where
  operand terminator malformed : Argument
  named : Bytes → Option Bytes → Argument

-- The part in front of the first '=' behind the first byte, and the part behind it.
unfoldable pub split_value : Bytes → Bytes × Option Bytes
split_value [] = ([], none)
split_value (c ∷ s) =
    let (name, value) = split_value s in if c == b'=' then ([], some s) else (c ∷ name, value)

unfoldable pub name_token : Bytes → Argument
name_token [] = malformed
name_token (c ∷ s) =
    let (name, value) = split_value s in
    if c == b'-' || c == b'=' then malformed else named (c ∷ name) value

-- What parseOne sees in an argument.
unfoldable pub token_of : Bytes → Argument
token_of (c ∷ d ∷ []) =
    if not (c == b'-') then operand else if d == b'-' then terminator else name_token (d ∷ [])
token_of (c ∷ d ∷ e ∷ s) =
    if not (c == b'-')
    then operand
    else if d == b'-'
    then name_token (e ∷ s)
    else name_token (d ∷ e ∷ s)
token_of _ = operand

unfoldable pub kind_of : List FlagDef → Bytes → Option FlagKind
kind_of [] name = none
kind_of (f ∷ defs) name =
    let rest = kind_of defs name in if eq_bytes f.name name then some f.kind else rest

-- The value that a kind of flag reads, none where Set fails.
unfoldable pub read_value : Scalars → FlagKind → Bytes → Option Value
read_value scalars text s = some (text_value s)
read_value scalars switch s = elim (scalars.parse_bool s) [
  | none ↦ none
  | some b ↦ some (switch_value b)
]
read_value scalars number s = elim (scalars.parse_int s) [
  | none ↦ none
  | some n ↦ some (number_value n)
]

-- One flag more in front of the others, unless its value was refused.
unfoldable pub set_flag : Bytes → Option Value → Parsed → Parsed
set_flag name none rest = bad_flag
set_flag name (some v) bad_flag = bad_flag
set_flag name (some v) (settings l) = settings ((name, v) ∷ l)

-- How a named flag takes its value.
pub data Taken : Type 0 where
  undefined : Taken
  here : Option Value → Taken
  needs_next : FlagKind → Taken

unfoldable pub taken : Scalars → Option FlagKind → Option Bytes → Taken
taken scalars none value = undefined
taken scalars (some switch) none = here (some (switch_value true))
taken scalars (some kind) none = needs_next kind
taken scalars (some kind) (some value) = here (read_value scalars kind value)

unfoldable pub take_flag : List FlagDef → Scalars → Argument → Taken
take_flag defs scalars (named name value) = taken scalars (kind_of defs name) value
take_flag defs scalars _ = undefined

-- The last argument, which has no next one to take.
unfoldable pub finish : Argument → Taken → Parsed → Parsed
finish operand t rest = settings []
finish terminator t rest = settings []
finish malformed t rest = bad_flag
finish (named name value) undefined rest = bad_flag
finish (named name value) (here v) rest = set_flag name v rest
finish (named name value) (needs_next kind) rest = bad_flag

-- An argument with a next one, whose text is `next`: `rest` goes on behind the argument and `skip`
-- behind the next.
unfoldable pub go_on : Scalars → Argument → Taken → Bytes → Parsed → Parsed → Parsed
go_on scalars (named name value) (needs_next kind) next rest skip =
    set_flag name (read_value scalars kind next) skip
go_on scalars token t next rest skip = finish token t rest

-- FlagSet.Parse: the flags that were set, in order.
unfoldable pub parse_flags : Scalars → List FlagDef → List Bytes → Parsed
parse_flags scalars defs [] = settings []
parse_flags scalars defs (arg ∷ []) =
    finish (token_of arg) (take_flag defs scalars (token_of arg)) (settings [])
parse_flags scalars defs (arg ∷ next ∷ args) =
    let rest = parse_flags scalars defs (next ∷ args) in
    let skip = parse_flags scalars defs args in
    go_on scalars (token_of arg) (take_flag defs scalars (token_of arg)) next rest skip

-- The value of a variable behind Parse: the last setting counts.
unfoldable pub value_of : Bytes → Value → List Setting → Value
value_of name v [] = v
value_of name v ((n, w) ∷ l) = value_of name (if eq_bytes n name then w else v) l

unfoldable pub as_text : Value → Bytes
as_text (text_value s) = s
as_text _ = []

unfoldable pub as_switch : Value → Bool
as_switch (switch_value b) = b
as_switch _ = false

unfoldable pub as_number : Value → ℤ → ℤ
as_number (number_value n) fallback = n
as_number _ fallback = fallback

-- FlagSet.Visit: whether the flag was set.
unfoldable pub is_set : Bytes → List Setting → Bool
is_set name [] = false
is_set name ((n, v) ∷ l) = eq_bytes n name || is_set name l
