-- ===== src/Tests/InstallTest.antt =====
-- Installs, updates and removals on sample machines.
use agent_smith_go.Base.{◌≡◌, refl, true, none, some, [], ◌++◌, codes, eq_bytes}
use agent_smith_go.Interpreter.Message.{done, failed}
use agent_smith_go.Agent.Updater.{update_args}
use agent_smith_go.Cli.Flags.Parse.{Scalars}
use agent_smith_go.Cli.Contexts.{ConfigContext, new_update_context, require, is_allowed_level}
use agent_smith_go.Install.Act.{then_do, after, perform, attempt}
use agent_smith_go.Install.Host.{Manager, Files, Codec, wrap, wrapped}
use agent_smith_go.Install.Fetch.{Fetching, fetch_configuration}
use agent_smith_go.Install.Settings.{update_device, validate_configuration}
use agent_smith_go.Install.AutoUpdate.{updater_context, auto_update_forgets}
use agent_smith_go.Install.Reread.{updated_configuration}
use agent_smith_go.Install.Machine.States.{described}
use agent_smith_go.Install.Machine.Runs.{Runs}
use agent_smith_go.Install.Config.{
  run_config, save_configuration, replace_existing, stop_if_active, stop_existing,
}
use agent_smith_go.Install.Config.Legal.{IsConfigured}
use agent_smith_go.Install.Config.Installs.{run_config-IsConfigured}
use agent_smith_go.Install.Update.{run_update}
use agent_smith_go.Install.Update.Whole.{IsUpdated, run_update-IsUpdated}
use agent_smith_go.Install.Uninstall.{run_uninstall}
use agent_smith_go.Install.Uninstall.Removes.{IsRemoved, run_uninstall-IsRemoved}
use agent_smith_go.Tests.Sample.{device}

-- A service that runs.
abbrev pub manager : Manager
manager = record {
  open_error = none;
  is_active = true;
  stop_error = none;
  delete_error = none;
  close_error = none;
  create_error = none;
  start_error = none;
  last_close_error = none;
}

abbrev stubborn : Manager
stubborn = record manager { stop_error = some (codes "busy") }

abbrev pub files : Files
files = record {
  data_dir_error = none;
  program_dir_error = none;
  config_file = done (codes "old");
  write_config_error = none;
  executable = done (codes "/tmp/agent");
  read_executable = λ path. done (codes "ELF");
  write_program_error = none;
  remove_data_error = none;
  remove_program_error = some (codes "in use");
  remove_scripts_error = none;
}

abbrev pub codec : Codec
codec = record { print = λ d. done (d.device_id ++ d.logging_level); parse = λ s. done device }

abbrev pub fetch : Fetching
fetch = record {
  paths_error = none;
  host_info = done (codes "{}");
  request_error = none;
  answer = λ info. done (record { status = 200; body = done (codes "{}") });
  parse_response = λ s. done device;
}

abbrev context : ConfigContext
context = record {
  common = record (updater_context device) {
    logging_level = codes "debug";
    service_username = codes "rewst";
  };
  config_url = codes "https://engine.example";
  config_secret = codes "secret";
}

run_config-IsConfigured_example :
    Runs
      (described manager none none)
      (run_config fetch files manager codec (codes "agent") context)
      (λ n l r. IsConfigured fetch files manager codec context (described manager none none) n r)
run_config-IsConfigured_example =
    run_config-IsConfigured fetch files manager codec (codes "agent") context none none

run_update-IsUpdated_example :
    Runs
      (described manager (some (codes "old")) none)
      (run_update none files manager codec context.common)
      (λ n l r.
        IsUpdated
          (updated_configuration none files codec context.common)
          files
          manager
          (described manager (some (codes "old")) none)
          n
          r)
run_update-IsUpdated_example =
    run_update-IsUpdated none files manager codec context.common (some (codes "old")) none

run_uninstall-IsRemoved_example :
    Runs
      (described manager none none)
      (run_uninstall files manager)
      (λ n l r. IsRemoved (described manager none none) n r)
run_uninstall-IsRemoved_example = run_uninstall-IsRemoved files manager none none

abbrev pub scalars : Scalars
scalars = record { parse_int = λ s. none; parse_bool = λ s. none }

auto_update_forgets_example :
    (new_update_context scalars (update_args device) ≡ done (updater_context device))
    × (update_device (updater_context device) device
        ≡ record device { github_token = []; mqtt_qos = none })
unfolding is_allowed_level eq_bytes
auto_update_forgets_example = auto_update_forgets scalars device refl refl

-- A service that cannot be stopped: Close has overwritten the error.
stop_message :
    (run_config fetch files stubborn codec (codes "agent") context).result
    ≡ failed (codes "failed to stop service agent: %!w(<nil>)")
unfolding run_config fetch_configuration wrapped validate_configuration require save_configuration
    replace_existing stop_if_active stop_existing then_do after perform attempt wrap
stop_message = refl
