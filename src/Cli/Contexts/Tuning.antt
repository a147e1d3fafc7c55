-- ===== src/Cli/Contexts/Tuning.antt =====
-- tuningFlags of cmd/agent_smith/config_context.go.
use agent_smith_go.Base.{
  ◌&&◌, Option, none, some, List, [], ◌∷◌, ◌++◌, if◌then◌else◌, ℤ, pos, negsuc, eq_ℤ, leb_ℤ, Bytes,
  codes, map,
}
use agent_smith_go.Cli.Flags.Parse.{
  FlagDef, number, number_value, Setting, value_of, as_number, is_set,
}

-- The sentinel of an omitted flag.
abbrev pub tuning_flag_unset : ℤ
tuning_flag_unset = negsuc 0

pub record TuningFlags : Type 0 where
  pub mqtt_connect_timeout_seconds : ℤ
  pub mqtt_subscribe_timeout_seconds : ℤ
  pub worker_count : ℤ
  pub message_queue_size : ℤ
  pub postback_max_attempts : ℤ
  pub postback_base_retry_backoff_seconds : ℤ
  pub command_timeout_seconds : ℤ
  pub sas_token_lifetime_hours : ℤ
  pub max_output_bytes : ℤ

abbrev pub connect_name : Bytes
connect_name = codes "mqtt-connect-timeout-seconds"

abbrev pub subscribe_name : Bytes
subscribe_name = codes "mqtt-subscribe-timeout-seconds"

abbrev pub workers_name : Bytes
workers_name = codes "worker-count"

abbrev pub queue_name : Bytes
queue_name = codes "message-queue-size"

abbrev pub attempts_name : Bytes
attempts_name = codes "postback-max-attempts"

abbrev pub backoff_name : Bytes
backoff_name = codes "postback-base-retry-backoff-seconds"

abbrev pub command_name : Bytes
command_name = codes "command-timeout-seconds"

abbrev pub lifetime_name : Bytes
lifetime_name = codes "sas-token-lifetime-hours"

abbrev pub output_name : Bytes
output_name = codes "max-output-bytes"

abbrev pub tuning_flag_names : List Bytes
tuning_flag_names =
    connect_name ∷ subscribe_name ∷ workers_name ∷ queue_name ∷ attempts_name ∷ backoff_name
    ∷ command_name ∷ lifetime_name ∷ output_name ∷ []

abbrev pub number_def : Bytes → FlagDef
number_def name = record { name = name; kind = number }

-- bindTuningFlags
abbrev pub tuning_defs : List FlagDef
tuning_defs = map number_def tuning_flag_names

unfoldable pub tuning_value : Bytes → List Setting → ℤ
tuning_value name l = as_number (value_of name (number_value tuning_flag_unset) l) tuning_flag_unset

unfoldable pub tuning_of : List Setting → TuningFlags
tuning_of l = record {
  mqtt_connect_timeout_seconds = tuning_value connect_name l;
  mqtt_subscribe_timeout_seconds = tuning_value subscribe_name l;
  worker_count = tuning_value workers_name l;
  message_queue_size = tuning_value queue_name l;
  postback_max_attempts = tuning_value attempts_name l;
  postback_base_retry_backoff_seconds = tuning_value backoff_name l;
  command_timeout_seconds = tuning_value command_name l;
  sas_token_lifetime_hours = tuning_value lifetime_name l;
  max_output_bytes = tuning_value output_name l;
}

-- The `checks` of validate.
abbrev pub tuning_checks : TuningFlags → List (Bytes × ℤ)
tuning_checks t =
    (connect_name, t.mqtt_connect_timeout_seconds)
    ∷ (subscribe_name, t.mqtt_subscribe_timeout_seconds)
    ∷ (workers_name, t.worker_count)
    ∷ (queue_name, t.message_queue_size)
    ∷ (attempts_name, t.postback_max_attempts)
    ∷ (backoff_name, t.postback_base_retry_backoff_seconds)
    ∷ (command_name, t.command_timeout_seconds)
    ∷ (lifetime_name, t.sas_token_lifetime_hours)
    ∷ (output_name, t.max_output_bytes)
    ∷ []

-- `provided` is captureProvided: the flags that were set.
unfoldable pub first_bad : List Setting → List (Bytes × ℤ) → Option Bytes
first_bad provided [] = none
first_bad provided ((name, value) ∷ cs) =
    let rest = first_bad provided cs in
    if is_set name provided && leb_ℤ value (pos 0)
    then some (codes "invalid " ++ (name ++ codes ": must be a positive integer"))
    else rest

unfoldable pub validate : TuningFlags → List Setting → Option Bytes
validate t provided = first_bad provided (tuning_checks t)

unfoldable pub tuning_ptr : ℤ → Option ℤ
tuning_ptr value = if eq_ℤ value tuning_flag_unset then none else some value
