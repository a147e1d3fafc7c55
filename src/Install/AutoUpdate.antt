-- ===== src/Install/AutoUpdate.antt =====
-- What an automatic update does to the configuration: internal/agent/updater.go starts the command
-- line that update_context.go reads and update.go applies.
use agent_smith_go.Base.{
  Bool, true, false, ◌≡◌, refl, none, List, [], ◌∷◌, ◌++◌, ap, ◌∙◌, Bytes, codes, is_empty,
  eq_bytes,
}
use agent_smith_go.Agent.Device.{Device}
use agent_smith_go.Agent.Updater.{flag_if, update_args}
use agent_smith_go.Interpreter.Message.{done, ◌>>=◌}
use agent_smith_go.Cli.Flags.Parse.{
  Scalars, text_value, switch_value, Setting, settings, parse_flags, token_of, name_token,
  split_value, kind_of, taken, take_flag, read_value, set_flag, finish, go_on, value_of, as_text,
  as_switch, as_number, is_set,
}
use agent_smith_go.Cli.Contexts.{
  CommonFlags, parsed_flags, require, text_flag, switch_flag, number_flag, common_flags,
  is_allowed_level, is_bad_qos, check_common, update_defs, update_of, new_update_context,
}
use agent_smith_go.Cli.Contexts.Tuning.{
  TuningFlags, tuning_flag_unset, tuning_value, tuning_of, first_bad, validate,
}
use agent_smith_go.Install.Settings.{set_common, update_device}

abbrev switch_if : Bool → Bytes → List Setting
switch_if true name = (name, switch_value true) ∷ []
switch_if false name = []

-- The flags that the arguments of the updater set.
abbrev updater_settings : Bytes → Bytes → Bool → Bool → Bool → List Setting
updater_settings org level syslog postback updates =
    (codes "org-id", text_value org)
    ∷ (codes "update", switch_value true)
    ∷ (codes "logging-level", text_value level)
    ∷ (switch_if syslog (codes "syslog")
        ++ (switch_if postback (codes "disable-agent-postback")
            ++ switch_if updates (codes "no-auto-updates")))

abbrev updater_arguments : Bytes → Bytes → Bool → Bool → Bool → List Bytes
updater_arguments org level syslog postback updates =
    (codes "--org-id" ∷ org ∷ codes "--update" ∷ codes "--logging-level" ∷ level ∷ [])
    ++ (flag_if syslog (codes "--syslog")
        ++ (flag_if postback (codes "--disable-agent-postback")
            ++ flag_if updates (codes "--no-auto-updates")))

parse_updater :
    (scalars : Scalars) (org level : Bytes) (syslog postback updates : Bool)
    → parse_flags scalars update_defs (updater_arguments org level syslog postback updates)
      ≡ settings (updater_settings org level syslog postback updates)
unfolding parse_flags token_of name_token split_value kind_of taken take_flag read_value set_flag
    finish go_on eq_bytes
parse_updater scalars org level false false false = refl
parse_updater scalars org level false false true = refl
parse_updater scalars org level false true false = refl
parse_updater scalars org level false true true = refl
parse_updater scalars org level true false false = refl
parse_updater scalars org level true false true = refl
parse_updater scalars org level true true false = refl
parse_updater scalars org level true true true = refl

abbrev no_tuning : TuningFlags
no_tuning = record {
  mqtt_connect_timeout_seconds = tuning_flag_unset;
  mqtt_subscribe_timeout_seconds = tuning_flag_unset;
  worker_count = tuning_flag_unset;
  message_queue_size = tuning_flag_unset;
  postback_max_attempts = tuning_flag_unset;
  postback_base_retry_backoff_seconds = tuning_flag_unset;
  command_timeout_seconds = tuning_flag_unset;
  sas_token_lifetime_hours = tuning_flag_unset;
  max_output_bytes = tuning_flag_unset;
}

-- What update mode is told by an automatic update.
abbrev pub updater_context : Device → CommonFlags
updater_context d = record {
  org_id = d.rewst_org_id;
  logging_level = d.logging_level;
  use_syslog = d.use_syslog;
  disable_agent_postback = d.disable_agent_postback;
  no_auto_updates = d.disable_auto_updates;
  github_token = [];
  mqtt_qos = tuning_flag_unset;
  service_username = [];
  service_password = [];
  tuning = no_tuning;
}

abbrev plain : Bytes → Bytes → Bool → Bool → Bool → CommonFlags
plain org level syslog postback updates = record {
  org_id = org;
  logging_level = level;
  use_syslog = syslog;
  disable_agent_postback = postback;
  no_auto_updates = updates;
  github_token = [];
  mqtt_qos = tuning_flag_unset;
  service_username = [];
  service_password = [];
  tuning = no_tuning;
}

read_settings :
    (org level : Bytes) (syslog postback updates : Bool)
    → common_flags (updater_settings org level syslog postback updates)
      ≡ plain org level syslog postback updates
unfolding common_flags text_flag switch_flag number_flag tuning_of tuning_value value_of as_text
    as_switch as_number eq_bytes
read_settings org level false false false = refl
read_settings org level false false true = refl
read_settings org level false true false = refl
read_settings org level false true true = refl
read_settings org level true false false = refl
read_settings org level true false true = refl
read_settings org level true true false = refl
read_settings org level true true true = refl

no_complaint :
    (org level : Bytes) (syslog postback updates : Bool)
    → validate no_tuning (updater_settings org level syslog postback updates) ≡ none
unfolding validate first_bad is_set eq_bytes
no_complaint org level false false false = refl
no_complaint org level false false true = refl
no_complaint org level false true false = refl
no_complaint org level false true true = refl
no_complaint org level true false false = refl
no_complaint org level true false true = refl
no_complaint org level true true false = refl
no_complaint org level true true true = refl

says_update :
    (org level : Bytes) (syslog postback updates : Bool)
    → switch_flag (codes "update") (updater_settings org level syslog postback updates) ≡ true
unfolding switch_flag value_of as_switch eq_bytes
says_update org level false false false = refl
says_update org level false false true = refl
says_update org level false true false = refl
says_update org level false true true = refl
says_update org level true false false = refl
says_update org level true false true = refl
says_update org level true true false = refl
says_update org level true true true = refl

checked :
    (org level : Bytes) (syslog postback updates : Bool) (l : List Setting)
    → is_allowed_level level ≡ true
    → validate no_tuning l ≡ none
    → check_common (plain org level syslog postback updates) l ≡ done tt
unfolding check_common require is_bad_qos
checked org level syslog postback updates l allowed quiet = rw (allowed, quiet) refl

updated_of :
    (org level : Bytes) (syslog postback updates : Bool)
    → is_empty org ≡ false
    → is_allowed_level level ≡ true
    → update_of (updater_settings org level syslog postback updates)
      ≡ done (plain org level syslog postback updates)
unfolding update_of require
updated_of org level syslog postback updates full allowed =
    rw
      (
        read_settings org level syslog postback updates,
        says_update org level syslog postback updates,
        full,
        checked org level syslog postback updates
            (updater_settings org level syslog postback updates) allowed
            (no_complaint org level syslog postback updates),
      )
      refl

-- The command line of an automatic update is accepted for every device with an org id and an allowed
-- logging level, whatever the scalars' parsers, and the configuration that update mode then saves is
-- the old one, but without its GitHub token and its MQTT quality of service, which are lost.
pub auto_update_forgets :
    (scalars : Scalars) (d : Device)
    → is_empty d.rewst_org_id ≡ false
    → is_allowed_level d.logging_level ≡ true
    → (new_update_context scalars (update_args d) ≡ done (updater_context d))
      × (update_device (updater_context d) d ≡ record d { github_token = []; mqtt_qos = none })
unfolding new_update_context parsed_flags update_args update_device set_common
auto_update_forgets scalars d full allowed = (
  ap (λ p. parsed_flags p >>= update_of)
        (parse_updater scalars d.rewst_org_id d.logging_level d.use_syslog d.disable_agent_postback
          d.disable_auto_updates)
      ∙ updated_of d.rewst_org_id d.logging_level d.use_syslog d.disable_agent_postback
          d.disable_auto_updates full allowed,
  refl,
)
