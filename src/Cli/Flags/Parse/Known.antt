-- ===== src/Cli/Flags/Parse/Known.antt =====
-- The flags that a flag set can set.
use agent_smith_go.Base.{
  ◌≡◌, ◌≢◌, refl, subst, sym, ap, ◌∙◌, true, false, ◌||◌, Bool-cases, inl, inr, Option, none, some,
  List, [], ◌∷◌, Bytes, eq_bytes, eq_bytes_sound,
}
use agent_smith_go.Cli.Flags.Parse.{
  Scalars, FlagKind, FlagDef, Value, Setting, Parsed, bad_flag, settings, Argument, operand,
  terminator, malformed, named, token_of, kind_of, set_flag, Taken, undefined, here, needs_next,
  taken, take_flag, finish, go_on, parse_flags, is_set,
}

-- A flag that a flag set has set is one of its own.
abbrev Known : List FlagDef → Parsed → Type 0
Known defs p =
    (l : List Setting) (name : Bytes)
    → p ≡ settings l
    → is_set name l ≡ true
    → kind_of defs name ≢ none

settings_injective : (l m : List Setting) → settings l ≡ settings m → l ≡ m
settings_injective l m h = cc

not_set : (n : Bytes) (l : List Setting) → [] ≡ l → is_set n l ≢ true
unfolding is_set
not_set n [] h g = absurd cc
not_set n (x ∷ l) h g = absurd cc

later :
    (name n : Bytes) (v : Value) (x l : List Setting)
    → settings ((name, v) ∷ x) ≡ settings l
    → is_set n l ≡ true
    → eq_bytes name n ≡ false
    → is_set n x ≡ true
unfolding is_set
later name n v x l e g other =
    sym (ap (λ b. b || is_set n x) other) ∙ (ap (is_set n) (settings_injective _ _ e) ∙ g)

set_flag-Known :
    (defs : List FlagDef) (name : Bytes) (v : Option Value) (p : Parsed)
    → kind_of defs name ≢ none
    → Known defs p
    → Known defs (set_flag name v p)
unfolding set_flag is_set
set_flag-Known defs name none p k h l n e g = absurd cc
set_flag-Known defs name (some v) bad_flag k h l n e g = absurd cc
set_flag-Known defs name (some v) (settings x) k h l n e g = elim (Bool-cases (eq_bytes name n)) [
  | inl same ↦ subst (λ n. kind_of defs n ≢ none) (eq_bytes_sound name n same) k
  | inr other ↦ h x n refl (later name n v x l e g other)
]

bad-Known : (defs : List FlagDef) → Known defs bad_flag
bad-Known defs l n e g = absurd cc

empty-Known : (defs : List FlagDef) → Known defs (settings [])
unfolding is_set
empty-Known defs l n e g = absurd (not_set n l (settings_injective _ _ e) g)

finish-Known :
    (defs : List FlagDef) (name : Bytes) (value : Option Bytes) (s : Taken) (p : Parsed)
    → kind_of defs name ≢ none
    → Known defs p
    → Known defs (finish (named name value) s p)
unfolding finish
finish-Known defs name value undefined p k h = bad-Known defs
finish-Known defs name value (here v) p k h = set_flag-Known defs name v p k h
finish-Known defs name value (needs_next kind) p k h = bad-Known defs

go_on-Known :
    (scalars : Scalars) (defs : List FlagDef) (name : Bytes) (value : Option Bytes) (s : Taken)
    (next : Bytes) (p x : Parsed)
    → kind_of defs name ≢ none
    → Known defs p
    → Known defs x
    → Known defs (go_on scalars (named name value) s next p x)
unfolding go_on
go_on-Known scalars defs name value undefined next p x k h g =
    finish-Known defs name value undefined p k h
go_on-Known scalars defs name value (here v) next p x k h g =
    finish-Known defs name value (here v) p k h
go_on-Known scalars defs name value (needs_next kind) next p x k h g =
    set_flag-Known defs name _ x k g

-- With the kind of the flag as a variable.
kind-Known :
    (scalars : Scalars) (defs : List FlagDef) (name : Bytes) (value : Option Bytes)
    (o : Option FlagKind) (next : Bytes) (p x : Parsed)
    → kind_of defs name ≡ o
    → Known defs p
    → Known defs x
    → Known defs (go_on scalars (named name value) (taken scalars o value) next p x)
      × Known defs (finish (named name value) (taken scalars o value) p)
unfolding taken go_on finish
kind-Known scalars defs name value none next p x k h g = (bad-Known defs, bad-Known defs)
kind-Known scalars defs name value (some kind) next p x k h g =
    let known = λ (e : kind_of defs name ≡ none). absurd cc in
    (
      go_on-Known scalars defs name value (taken scalars (some kind) value) next p x known h g,
      finish-Known defs name value (taken scalars (some kind) value) p known h,
    )

token-Known :
    (scalars : Scalars) (defs : List FlagDef) (t : Argument) (next : Bytes) (p x : Parsed)
    → Known defs p
    → Known defs x
    → Known defs (go_on scalars t (take_flag defs scalars t) next p x)
      × Known defs (finish t (take_flag defs scalars t) p)
unfolding take_flag go_on finish
token-Known scalars defs operand next p x h g = (empty-Known defs, empty-Known defs)
token-Known scalars defs terminator next p x h g = (empty-Known defs, empty-Known defs)
token-Known scalars defs malformed next p x h g = (bad-Known defs, bad-Known defs)
token-Known scalars defs (named name value) next p x h g =
    kind-Known scalars defs name value (kind_of defs name) next p x refl h g

all-Known :
    (scalars : Scalars) (defs : List FlagDef) (args : List Bytes)
    → Known defs (parse_flags scalars defs args)
unfolding parse_flags
all-Known scalars defs [] = empty-Known defs
all-Known scalars defs (arg ∷ []) =
    (token-Known scalars defs (token_of arg) [] (settings []) (settings []) (empty-Known defs)
      (empty-Known defs)).1
all-Known scalars defs (arg ∷ next ∷ args) =
    (token-Known scalars defs (token_of arg) next _ _ (all-Known scalars defs (next ∷ args))
      (all-Known scalars defs args)).0

-- A flag that Parse has set is one of the flag set.
pub parse_flags_known :
    (scalars : Scalars) (defs : List FlagDef) (args : List Bytes) (l : List Setting) (name : Bytes)
    → parse_flags scalars defs args ≡ settings l
    → is_set name l ≡ true
    → kind_of defs name ≢ none
parse_flags_known scalars defs args l name h g = all-Known scalars defs args l name h g
