-- ===== src/Cli/Flags/Parse/Agree.antt =====
-- Two flag sets that read the same arguments.
use agent_smith_go.Base.{◌≡◌, refl, subst, Option, none, some, List, [], ◌∷◌, Bytes}
use agent_smith_go.Cli.Flags.Parse.{
  Scalars, FlagKind, FlagDef, Value, Setting, Parsed, bad_flag, settings, Argument, operand,
  terminator, malformed, named, token_of, kind_of, set_flag, Taken, undefined, here, needs_next,
  taken, take_flag, finish, go_on, parse_flags,
}

-- No flag has one kind in the one set and another in the other.
abbrev pub IsCompatible : List FlagDef → List FlagDef → Type 0
IsCompatible a b =
    (name : Bytes) (k j : FlagKind) → kind_of a name ≡ some k → kind_of b name ≡ some j → k ≡ j

-- Whatever settings both results hold are the same.
abbrev Agree : Parsed → Parsed → Type 0
Agree p q = (l m : List Setting) → p ≡ settings l → q ≡ settings m → l ≡ m

same_settings : (p : Parsed) → Agree p p
same_settings p l m h g = cc

set_flag-Agree :
    (name : Bytes) (v : Option Value) (p q : Parsed)
    → Agree p q
    → Agree (set_flag name v p) (set_flag name v q)
unfolding set_flag
set_flag-Agree name none p q h l m a b = absurd cc
set_flag-Agree name (some v) bad_flag q h l m a b = absurd cc
set_flag-Agree name (some v) (settings x) bad_flag h l m a b = absurd cc
set_flag-Agree name (some v) (settings x) (settings y) h l m a b = let e = h x y refl refl in cc

finish-Agree :
    (t : Argument) (s : Taken) (p q : Parsed) → Agree p q → Agree (finish t s p) (finish t s q)
unfolding finish
finish-Agree operand s p q h = same_settings _
finish-Agree terminator s p q h = same_settings _
finish-Agree malformed s p q h = same_settings _
finish-Agree (named name value) undefined p q h = same_settings _
finish-Agree (named name value) (here v) p q h = set_flag-Agree name v p q h
finish-Agree (named name value) (needs_next kind) p q h = same_settings _

go_on-Agree :
    (scalars : Scalars) (t : Argument) (s : Taken) (next : Bytes) (p q x y : Parsed)
    → Agree p q
    → Agree x y
    → Agree (go_on scalars t s next p x) (go_on scalars t s next q y)
unfolding go_on
go_on-Agree scalars operand s next p q x y h g = finish-Agree operand s p q h
go_on-Agree scalars terminator s next p q x y h g = finish-Agree terminator s p q h
go_on-Agree scalars malformed s next p q x y h g = finish-Agree malformed s p q h
go_on-Agree scalars (named name value) undefined next p q x y h g =
    finish-Agree (named name value) undefined p q h
go_on-Agree scalars (named name value) (here v) next p q x y h g =
    finish-Agree (named name value) (here v) p q h
go_on-Agree scalars (named name value) (needs_next kind) next p q x y h g =
    set_flag-Agree name _ x y g

-- Where the two sets take a flag differently, one of them does not know it.
known-Agree :
    (scalars : Scalars) (name : Bytes) (value : Option Bytes) (next : Bytes)
    (ka kb : Option FlagKind) (p q x y : Parsed)
    → ((k j : FlagKind) → ka ≡ some k → kb ≡ some j → k ≡ j)
    → Agree p q
    → Agree x y
    → Agree
        (go_on scalars (named name value) (taken scalars ka value) next p x)
        (go_on scalars (named name value) (taken scalars kb value) next q y)
unfolding taken go_on finish
known-Agree scalars name value next none kb p q x y c h g = λ l m a b. absurd cc
known-Agree scalars name value next (some k) none p q x y c h g = λ l m a b. absurd cc
known-Agree scalars name value next (some k) (some j) p q x y c h g =
    subst
      (λ j.
        Agree (go_on scalars (named name value) (taken scalars (some k) value) next p x)
          (go_on scalars (named name value) (taken scalars (some j) value) next q y))
      (c k j refl refl)
      (go_on-Agree scalars (named name value) (taken scalars (some k) value) next p q x y h g)

next-Agree :
    (a b : List FlagDef) (scalars : Scalars) (t : Argument) (next : Bytes) (p q x y : Parsed)
    → IsCompatible a b
    → Agree p q
    → Agree x y
    → Agree
        (go_on scalars t (take_flag a scalars t) next p x)
        (go_on scalars t (take_flag b scalars t) next q y)
unfolding take_flag
next-Agree a b scalars operand next p q x y c h g =
    go_on-Agree scalars operand undefined next p q x y h g
next-Agree a b scalars terminator next p q x y c h g =
    go_on-Agree scalars terminator undefined next p q x y h g
next-Agree a b scalars malformed next p q x y c h g =
    go_on-Agree scalars malformed undefined next p q x y h g
next-Agree a b scalars (named name value) next p q x y c h g =
    known-Agree scalars name value next (kind_of a name) (kind_of b name) p q x y (c name) h g

known_last-Agree :
    (scalars : Scalars) (name : Bytes) (value : Option Bytes) (ka kb : Option FlagKind) (p : Parsed)
    → ((k j : FlagKind) → ka ≡ some k → kb ≡ some j → k ≡ j)
    → Agree
        (finish (named name value) (taken scalars ka value) p)
        (finish (named name value) (taken scalars kb value) p)
unfolding taken finish
known_last-Agree scalars name value none kb p c = λ l m a b. absurd cc
known_last-Agree scalars name value (some k) none p c = λ l m a b. absurd cc
known_last-Agree scalars name value (some k) (some j) p c =
    subst
      (λ j.
        Agree (finish (named name value) (taken scalars (some k) value) p)
          (finish (named name value) (taken scalars (some j) value) p))
      (c k j refl refl) (same_settings _)

last-Agree :
    (a b : List FlagDef) (scalars : Scalars) (t : Argument) (p : Parsed)
    → IsCompatible a b
    → Agree (finish t (take_flag a scalars t) p) (finish t (take_flag b scalars t) p)
unfolding take_flag
last-Agree a b scalars operand p c = same_settings _
last-Agree a b scalars terminator p c = same_settings _
last-Agree a b scalars malformed p c = same_settings _
last-Agree a b scalars (named name value) p c =
    known_last-Agree scalars name value (kind_of a name) (kind_of b name) p (c name)

read :
    (scalars : Scalars) (a b : List FlagDef) (args : List Bytes)
    → IsCompatible a b
    → Agree (parse_flags scalars a args) (parse_flags scalars b args)
unfolding parse_flags
read scalars a b [] c = same_settings _
read scalars a b (arg ∷ []) c = last-Agree a b scalars (token_of arg) (settings []) c
read scalars a b (arg ∷ next ∷ args) c =
    next-Agree a b scalars (token_of arg) next _ _ _ _ c (read scalars a b (next ∷ args) c)
      (read scalars a b args c)

-- Two compatible flag sets that both accept the arguments read the same settings from them.
pub parse_flags_agree :
    (scalars : Scalars) (a b : List FlagDef) (args : List Bytes) (l m : List Setting)
    → IsCompatible a b
    → parse_flags scalars a args ≡ settings l
    → parse_flags scalars b args ≡ settings m
    → l ≡ m
parse_flags_agree scalars a b args l m c = read scalars a b args c l m
