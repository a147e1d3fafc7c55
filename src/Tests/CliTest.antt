-- ===== src/Tests/CliTest.antt =====
-- Flags on sample arguments.
use agent_smith_go.Base.{
  ◌≡◌, ◌↔◌, refl, true, false, Option, none, some, codes, List, [], ◌∷◌, ◌-◌, Bytes, ℤ, pos, negsuc,
  eq_bytes,
}
use agent_smith_go.Interpreter.Message.{done}
use agent_smith_go.Agent.Device.{Device}
use agent_smith_go.Install.Host.{Codec}
use agent_smith_go.Install.Settings.{configure_device}
use agent_smith_go.Install.Loads.{LeavesLoadable, configured_config_loads}
use agent_smith_go.Install.Succeeds.{sending, IsWorking}
use agent_smith_go.Install.Config.{run_config}
use agent_smith_go.Install.Machine.Runs.{Runs}
use agent_smith_go.Install.Machine.States.{described}
use agent_smith_go.Tests.InstallTest.{files, manager}
use agent_smith_go.Tests.Sample.{device}
use agent_smith_go.Cli.Flags.Parse.{
  Scalars, value_of, as_text, as_switch, as_number, parse_flags, token_of, name_token, split_value,
  kind_of, taken, take_flag, read_value, set_flag, finish, go_on, is_set,
}
use agent_smith_go.Cli.Contexts.{
  ConfigContext, new_config_context, parsed_flags, config_of, common_flags, text_flag, switch_flag,
  number_flag, require, check_common, is_allowed_level, is_bad_qos,
}
use agent_smith_go.Cli.Contexts.Tuning.{tuning_of, tuning_value, validate, first_bad}
use agent_smith_go.Cli.Dispatch.{dispatch, mode_error}
use agent_smith_go.Cli.Dispatch.Exclusive.{dispatch_iff}
use agent_smith_go.Cli.Flags.{
  flag_name_from_arg, detect_mode, config, first_selected, has_flag, trim_dashes, before_eq,
}

-- Numbers of one digit.
abbrev digit : Bytes → Option ℤ
digit (c ∷ []) = some (pos (c - b'0'))
digit s = none

abbrev scalars : Scalars
scalars = record { parse_int = digit; parse_bool = λ s. none }

abbrev config_args : List Bytes
config_args =
    codes "--org-id"
    ∷ codes "7"
    ∷ codes "--config-url=https://engine.example"
    ∷ codes "-config-secret"
    ∷ codes "s"
    ∷ codes "--mqtt-qos"
    ∷ codes "1"
    ∷ codes "--worker-count=4"
    ∷ codes "--syslog"
    ∷ []

abbrev read_config : ConfigContext
read_config = record {
  common = record {
    org_id = codes "7";
    logging_level = [];
    use_syslog = true;
    disable_agent_postback = false;
    no_auto_updates = false;
    github_token = [];
    mqtt_qos = pos 1;
    service_username = [];
    service_password = [];
    tuning = record {
      mqtt_connect_timeout_seconds = negsuc 0;
      mqtt_subscribe_timeout_seconds = negsuc 0;
      worker_count = pos 4;
      message_queue_size = negsuc 0;
      postback_max_attempts = negsuc 0;
      postback_base_retry_backoff_seconds = negsuc 0;
      command_timeout_seconds = negsuc 0;
      sas_token_lifetime_hours = negsuc 0;
      max_output_bytes = negsuc 0;
    };
  };
  config_url = codes "https://engine.example";
  config_secret = codes "s";
}

reads_config : new_config_context scalars config_args ≡ done read_config
unfolding new_config_context parsed_flags config_of common_flags text_flag switch_flag number_flag
    tuning_of tuning_value value_of as_text as_switch as_number parse_flags token_of name_token
    split_value kind_of taken take_flag read_value set_flag finish go_on eq_bytes require
    check_common is_allowed_level is_bad_qos validate first_bad is_set
reads_config = refl

dispatch_iff_example :
    (dispatch scalars config_args ≡ some config) ↔ (mode_error scalars config_args config ≡ none)
dispatch_iff_example = dispatch_iff scalars config_args config

detects_config : detect_mode (codes "--config-url" ∷ codes "-config-file=x" ∷ []) ≡ some config
unfolding detect_mode first_selected has_flag flag_name_from_arg trim_dashes before_eq eq_bytes
detects_config = refl

-- The engine asks for a quality of service that MQTT has and the agent does not accept.
abbrev exact : Device
exact = record device { mqtt_qos = some 2 }

abbrev kept : Codec
kept = record {
  print = λ d. done (codes "{}");
  parse = λ s. done (configure_device read_config.common exact);
}

-- The answers of a machine without a service on which nothing fails.
abbrev works : IsWorking files (record manager { open_error = some [] })
works = record {
  path = codes "/tmp/agent";
  program = codes "ELF";
  data_dir = refl;
  write_config = refl;
  program_dir = refl;
  executable = refl;
  read_executable = refl;
  write_program = refl;
  stopped = refl;
  deleted = refl;
  closed = refl;
  created = refl;
  started = refl;
}

configured_config_loads_example :
    Runs
      (described (record manager { open_error = some [] }) none none)
      (run_config
        (sending exact)
        files
        (record manager { open_error = some [] })
        kept
        (codes "agent")
        read_config)
      (LeavesLoadable kept read_config exact)
configured_config_loads_example =
    configured_config_loads scalars config_args read_config exact files
      (record manager { open_error = some [] }) kept (codes "agent") (codes "{}") none none
      reads_config (refl, refl, refl, refl) works (λ saved g. refl) refl
