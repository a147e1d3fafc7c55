-- ===== src/Cli/Dispatch/Selected.antt =====
-- A mode that accepts the arguments has seen its selector.
use agent_smith_go.Base.{
  ◌≡◌, refl, ap, true, false, none, List, [], Bytes, is_empty, Bool-cases, inl, inr, not,
}
use agent_smith_go.Interpreter.Message.{Except, done, failed, ◌>>=◌}
use agent_smith_go.Cli.Flags.{
  OperationalMode, diagnostic, uninstall, config, service, update, selector,
}
use agent_smith_go.Cli.Flags.Parse.{
  Scalars, Setting, settings, parse_flags, is_set, text_value, switch_value, as_text, as_switch,
}
use agent_smith_go.Cli.Contexts.Chains.{
  is_false, require_holds, and_then_done, bind_done, value_of_unset, parsed_done,
}
use agent_smith_go.Cli.Dispatch.{mode_error, error_of}
use agent_smith_go.Cli.Contexts.{
  ConfigContext, ServiceContext, CommonFlags, require, parsed_flags, config_of, update_of,
  uninstall_of, diagnostic_of, service_of, new_diagnostic_context, new_uninstall_context,
  new_config_context, new_service_context, new_update_context, text_flag, switch_flag,
}
use agent_smith_go.Cli.Dispatch.Compatible.{flag_set}

-- A text that is not empty and a switch that is on have been set.
text_is_set :
    (name : Bytes) (l : List Setting) → is_empty (text_flag name l) ≡ false → is_set name l ≡ true
unfolding text_flag as_text
text_is_set name l h = elim (Bool-cases (is_set name l)) [
  | inl e ↦ e
  | inr e ↦
      let u = ap (λ v. is_empty (as_text v)) (value_of_unset name (text_value []) l e) in absurd cc
]

switch_is_set : (name : Bytes) (l : List Setting) → switch_flag name l ≡ true → is_set name l ≡ true
unfolding switch_flag as_switch
switch_is_set name l h = elim (Bool-cases (is_set name l)) [
  | inl e ↦ e
  | inr e ↦ let u = ap as_switch (value_of_unset name (switch_value false) l e) in absurd cc
]

-- A mode that accepts the arguments has read settings from them, its selector among them.
abbrev pub Selected : Scalars → List Bytes → OperationalMode → Type 0
Selected scalars args m =
    (l : List Setting) × (parse_flags scalars (flag_set m) args ≡ settings l)
    × (is_set (selector m) l ≡ true)

error_of_done {ℓ} : {A : Type ℓ} (r : Except A) → error_of r ≡ none → (a : A) × (r ≡ done a)
error_of_done (done a) h = (a, refl)
error_of_done (failed e) h = absurd cc

-- A constructor made of Parse and checks, whose checks need the selector to be set.
made-Selected {ℓ} :
    {C : Type ℓ} (scalars : Scalars) (args : List Bytes) (m : OperationalMode)
    (checks : List Setting → Except C)
    → ((l : List Setting) (c : C) → checks l ≡ done c → is_set (selector m) l ≡ true)
    → error_of (parsed_flags (parse_flags scalars (flag_set m) args) >>= checks) ≡ none
    → Selected scalars args m
made-Selected scalars args m checks sets h =
    let (c, e) = error_of_done _ h in
    let (l, p, q) = bind_done (parsed_flags (parse_flags scalars (flag_set m) args)) checks c e in
    (l, parsed_done _ l p, sets l c q)

nonempty_set :
    (name : Bytes) (l : List Setting) (message : Bytes)
    → require (not (is_empty (text_flag name l))) message ≡ done tt
    → is_set name l ≡ true
nonempty_set name l message h = text_is_set name l (is_false _ (require_holds _ message h))

diagnostic_sets :
    (l : List Setting) (c : Bytes)
    → diagnostic_of l ≡ done c
    → is_set (selector diagnostic) l ≡ true
unfolding diagnostic_of
diagnostic_sets l c q =
    switch_is_set (selector diagnostic) l (require_holds _ _ (and_then_done _ _ c q).0)

uninstall_sets :
    (l : List Setting) (c : Bytes) → uninstall_of l ≡ done c → is_set (selector uninstall) l ≡ true
unfolding uninstall_of
uninstall_sets l c q =
    let rest = (and_then_done _ _ c q).1 in
    switch_is_set (selector uninstall) l (require_holds _ _ (and_then_done _ _ c rest).0)

config_sets :
    (l : List Setting) (c : ConfigContext)
    → config_of l ≡ done c
    → is_set (selector config) l ≡ true
unfolding config_of
config_sets l c q =
    let rest = (and_then_done _ _ c q).1 in
    nonempty_set (selector config) l _ (and_then_done _ _ c rest).0

service_sets :
    (l : List Setting) (c : ServiceContext)
    → service_of l ≡ done c
    → is_set (selector service) l ≡ true
unfolding service_of
service_sets l c q =
    let rest = (and_then_done _ _ c q).1 in
    nonempty_set (selector service) l _ (and_then_done _ _ c rest).0

update_sets :
    (l : List Setting) (c : CommonFlags) → update_of l ≡ done c → is_set (selector update) l ≡ true
unfolding update_of
update_sets l c q =
    let rest = (and_then_done _ _ c q).1 in
    switch_is_set (selector update) l (require_holds _ _ (and_then_done _ _ c rest).0)

pub accepted-Selected :
    (scalars : Scalars) (args : List Bytes) (m : OperationalMode)
    → mode_error scalars args m ≡ none
    → Selected scalars args m
unfolding mode_error new_diagnostic_context new_uninstall_context new_config_context
    new_service_context new_update_context
accepted-Selected scalars args diagnostic h =
    made-Selected scalars args diagnostic diagnostic_of diagnostic_sets h
accepted-Selected scalars args uninstall h =
    made-Selected scalars args uninstall uninstall_of uninstall_sets h
accepted-Selected scalars args config h = made-Selected scalars args config config_of config_sets h
accepted-Selected scalars args service h =
    made-Selected scalars args service service_of service_sets h
accepted-Selected scalars args update h = made-Selected scalars args update update_of update_sets h
