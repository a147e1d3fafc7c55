-- ===== src/System/Starts.antt =====
-- A registered service starts in service mode, with what it was registered with.
use agent_smith_go.Base.{◌≡◌, refl, ap, some, ◌∙◌, false, List, [], ◌∷◌, codes, is_empty, eq_bytes}
use agent_smith_go.Interpreter.Message.{done, ◌>>=◌}
use agent_smith_go.Cli.Flags.{service}
use agent_smith_go.Cli.Flags.Parse.{
  Scalars, Setting, settings, text_value, parse_flags, token_of, name_token, split_value, kind_of,
  taken, take_flag, read_value, set_flag, finish, go_on, value_of, as_text,
}
use agent_smith_go.Cli.Contexts.{
  ServiceContext, parsed_flags, text_flag, service_defs, service_of, new_service_context, require,
}
use agent_smith_go.Cli.Dispatch.{dispatch, mode_error, error_of}
use agent_smith_go.Cli.Dispatch.Exclusive.{dispatch_iff}
use agent_smith_go.System.{AgentParams, service_arguments}

abbrev pub registered_context : AgentParams → ServiceContext
registered_context p = record {
  org_id = p.org_id;
  config_file = p.config_file_path;
  log_file = p.log_file_path;
}

abbrev read_settings : AgentParams → List Setting
read_settings p =
    (codes "org-id", text_value p.org_id)
    ∷ (codes "config-file", text_value p.config_file_path)
    ∷ (codes "log-file", text_value p.log_file_path)
    ∷ []

reads :
    (scalars : Scalars) (p : AgentParams)
    → parse_flags scalars service_defs (service_arguments p) ≡ settings (read_settings p)
unfolding parse_flags token_of name_token split_value kind_of taken take_flag read_value set_flag
    finish go_on eq_bytes
reads scalars p = refl

checks_pass :
    (p : AgentParams)
    → is_empty p.org_id ≡ false
    → is_empty p.config_file_path ≡ false
    → is_empty p.log_file_path ≡ false
    → service_of (read_settings p) ≡ done (registered_context p)
unfolding service_of require text_flag value_of as_text eq_bytes
checks_pass p a b c = rw (a, b, c) refl

-- The arguments that a service is registered with make main run service mode, with the org id, the
-- configuration file and the log file of the registration, whatever they contain, if none is empty.
pub service_arguments_start :
    (scalars : Scalars) (p : AgentParams)
    → is_empty p.org_id ≡ false
    → is_empty p.config_file_path ≡ false
    → is_empty p.log_file_path ≡ false
    → (dispatch scalars (service_arguments p) ≡ some service)
      × (new_service_context scalars (service_arguments p) ≡ done (registered_context p))
unfolding mode_error new_service_context parsed_flags
service_arguments_start scalars p a b c =
    let made = ap (λ r. parsed_flags r >>= service_of) (reads scalars p) ∙ checks_pass p a b c in
    ((dispatch_iff scalars (service_arguments p) service).1 (ap error_of made), made)
