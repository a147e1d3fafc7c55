-- ===== src/Cli/Contexts.antt =====
-- The contexts of the modes and their checks: config_context.go, update_context.go,
-- uninstall_context.go, diagnostic_context.go and service_context.go of cmd/agent_smith.
pub mod Tuning
pub mod Chains
pub mod Valid
use agent_smith_go.Base.{
  ℕ, Bool, true, false, not, ◌&&◌, ◌||◌, Option, none, some, List, [], ◌∷◌, ◌++◌, if◌then◌else◌, ℤ,
  pos, negsuc, eq_ℤ, ltb_ℤ, leb_ℤ, Bytes, codes, is_empty, eq_bytes,
}
use agent_smith_go.Interpreter.Message.{Except, done, failed, ◌>>=◌, ◌>>◌, try}
use agent_smith_go.Cli.Flags.Parse.{
  Scalars, FlagDef, text, switch, number, text_value, switch_value, number_value, Value, Setting,
  Parsed, bad_flag, settings, parse_flags, value_of, as_text, as_switch, as_number, is_set,
}
use Tuning.{TuningFlags, tuning_defs, tuning_of, validate, tuning_flag_unset}

-- The error of Parse is package flag's; its text is not modelled.
unfoldable pub parsed_flags : Parsed → Except (List Setting)
parsed_flags bad_flag = failed (codes "flag")
parsed_flags (settings l) = done l

-- An error unless the condition holds.
unfoldable pub require : Bool → Bytes → Except (Unit {0})
require true message = done tt
require false message = failed message

unfoldable pub text_flag : Bytes → List Setting → Bytes
text_flag name l = as_text (value_of name (text_value []) l)

unfoldable pub switch_flag : Bytes → List Setting → Bool
switch_flag name l = as_switch (value_of name (switch_value false) l)

unfoldable pub number_flag : Bytes → List Setting → ℤ
number_flag name l = as_number (value_of name (number_value tuning_flag_unset) l) tuning_flag_unset

abbrev pub text_def : Bytes → FlagDef
text_def name = record { name = name; kind = text }

abbrev pub switch_def : Bytes → FlagDef
switch_def name = record { name = name; kind = switch }

-- The fields that config and update mode share.
pub record CommonFlags : Type 0 where
  pub org_id : Bytes
  pub logging_level : Bytes
  pub use_syslog : Bool
  pub disable_agent_postback : Bool
  pub no_auto_updates : Bool
  pub github_token : Bytes
  pub mqtt_qos : ℤ
  pub service_username : Bytes
  pub service_password : Bytes
  pub tuning : TuningFlags

abbrev pub common_defs : List FlagDef
common_defs =
    text_def (codes "org-id")
    ∷ text_def (codes "logging-level")
    ∷ switch_def (codes "syslog")
    ∷ switch_def (codes "disable-agent-postback")
    ∷ switch_def (codes "no-auto-updates")
    ∷ text_def (codes "github-token")
    ∷ record { name = codes "mqtt-qos"; kind = number }
    ∷ text_def (codes "service-username")
    ∷ text_def (codes "service-password")
    ∷ tuning_defs

unfoldable pub common_flags : List Setting → CommonFlags
common_flags l = record {
  org_id = text_flag (codes "org-id") l;
  logging_level = text_flag (codes "logging-level") l;
  use_syslog = switch_flag (codes "syslog") l;
  disable_agent_postback = switch_flag (codes "disable-agent-postback") l;
  no_auto_updates = switch_flag (codes "no-auto-updates") l;
  github_token = text_flag (codes "github-token") l;
  mqtt_qos = number_flag (codes "mqtt-qos") l;
  service_username = text_flag (codes "service-username") l;
  service_password = text_flag (codes "service-password") l;
  tuning = tuning_of l;
}

-- allowedLoggingLevels
unfoldable pub is_allowed_level : Bytes → Bool
is_allowed_level s =
    is_empty s
    || eq_bytes s (codes "info")
    || eq_bytes s (codes "warn")
    || eq_bytes s (codes "error")
    || eq_bytes s (codes "off")
    || eq_bytes s (codes "debug")

-- params.MqttQos != -1 && (params.MqttQos < 0 || params.MqttQos > 1)
unfoldable pub is_bad_qos : ℤ → Bool
is_bad_qos q = not (eq_ℤ q (negsuc 0)) && (ltb_ℤ q (pos 0) || ltb_ℤ (pos 1) q)

-- The checks that both modes end with.
unfoldable pub check_common : CommonFlags → List Setting → Except (Unit {0})
check_common c l = do
  require (is_allowed_level c.logging_level) (codes "invalid logging-level")
  require (not (is_bad_qos c.mqtt_qos)) (codes "invalid mqtt-qos: must be 0 or 1")
  try (validate c.tuning l)
  require (is_empty c.service_password || not (is_empty c.service_username))
      (codes "service-password requires service-username")

pub record ConfigContext : Type 0 where
  pub common : CommonFlags
  pub config_url : Bytes
  pub config_secret : Bytes

unfoldable pub config_of : List Setting → Except ConfigContext
config_of l = do
  require (not (is_empty (common_flags l).org_id)) (codes "missing org-id")
  require (not (is_empty (text_flag (codes "config-url") l))) (codes "missing config-url")
  require (not (is_empty (text_flag (codes "config-secret") l))) (codes "missing config-secret")
  check_common (common_flags l) l
  done (record {
    common = common_flags l;
    config_url = text_flag (codes "config-url") l;
    config_secret = text_flag (codes "config-secret") l;
  })

abbrev pub config_defs : List FlagDef
config_defs = text_def (codes "config-url") ∷ text_def (codes "config-secret") ∷ common_defs

unfoldable pub new_config_context : Scalars → List Bytes → Except ConfigContext
new_config_context scalars args = parsed_flags (parse_flags scalars config_defs args) >>= config_of

unfoldable pub update_of : List Setting → Except CommonFlags
update_of l = do
  require (not (is_empty (common_flags l).org_id)) (codes "missing org-id")
  require (switch_flag (codes "update") l) (codes "missing update")
  check_common (common_flags l) l
  done (common_flags l)

abbrev pub update_defs : List FlagDef
update_defs = switch_def (codes "update") ∷ common_defs

unfoldable pub new_update_context : Scalars → List Bytes → Except CommonFlags
new_update_context scalars args = parsed_flags (parse_flags scalars update_defs args) >>= update_of

-- The context of uninstall and diagnostic mode is the org id.
unfoldable pub uninstall_of : List Setting → Except Bytes
uninstall_of l = do
  require (not (is_empty (text_flag (codes "org-id") l))) (codes "missing org-id")
  require (switch_flag (codes "uninstall") l) (codes "missing uninstall")
  done (text_flag (codes "org-id") l)

abbrev pub uninstall_defs : List FlagDef
uninstall_defs = text_def (codes "org-id") ∷ switch_def (codes "uninstall") ∷ []

unfoldable pub new_uninstall_context : Scalars → List Bytes → Except Bytes
new_uninstall_context scalars args =
    parsed_flags (parse_flags scalars uninstall_defs args) >>= uninstall_of

unfoldable pub diagnostic_of : List Setting → Except Bytes
diagnostic_of l = do
  require (switch_flag (codes "diagnostic") l) (codes "missing diagnostic")
  done (text_flag (codes "org-id") l)

abbrev pub diagnostic_defs : List FlagDef
diagnostic_defs = text_def (codes "org-id") ∷ switch_def (codes "diagnostic") ∷ []

unfoldable pub new_diagnostic_context : Scalars → List Bytes → Except Bytes
new_diagnostic_context scalars args =
    parsed_flags (parse_flags scalars diagnostic_defs args) >>= diagnostic_of

pub record ServiceContext : Type 0 where
  pub org_id : Bytes
  pub config_file : Bytes
  pub log_file : Bytes

unfoldable pub service_of : List Setting → Except ServiceContext
service_of l = do
  require (not (is_empty (text_flag (codes "org-id") l))) (codes "missing org-id")
  require (not (is_empty (text_flag (codes "config-file") l))) (codes "missing config-file")
  require (not (is_empty (text_flag (codes "log-file") l))) (codes "missing log-file")
  done (record {
    org_id = text_flag (codes "org-id") l;
    config_file = text_flag (codes "config-file") l;
    log_file = text_flag (codes "log-file") l;
  })

abbrev pub service_defs : List FlagDef
service_defs =
    text_def (codes "org-id") ∷ text_def (codes "config-file") ∷ text_def (codes "log-file") ∷ []

unfoldable pub new_service_context : Scalars → List Bytes → Except ServiceContext
new_service_context scalars args =
    parsed_flags (parse_flags scalars service_defs args) >>= service_of
