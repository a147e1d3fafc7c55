-- ===== src/Tests/ProgramTest.antt =====
-- The whole process, from its arguments to its exit code.
use agent_smith_go.Base.{◌≡◌, refl, false, none, some, List, [], ◌∷◌, Bytes, codes, eq_bytes}
use agent_smith_go.Base.{true}
use agent_smith_go.Interpreter.Message.{failed}
use agent_smith_go.Agent.Installation.{linux}
use agent_smith_go.Cli.Dispatch.{dispatch}
use agent_smith_go.Cli.Flags.Parse.{
  parse_flags, token_of, name_token, split_value, kind_of, taken, take_flag, read_value, set_flag,
  finish, go_on, value_of, as_text, as_switch,
}
use agent_smith_go.Cli.Contexts.{
  new_diagnostic_context, new_uninstall_context, parsed_flags, text_flag, switch_flag,
  diagnostic_of, uninstall_of, require,
}
use agent_smith_go.Install.Host.{wrap}
use agent_smith_go.Install.Uninstall.{run_uninstall}
use agent_smith_go.Program.{World, main, run_modes}
use agent_smith_go.Program.Exits.{mode_of, failure_of, IsShown, main-mode}
use agent_smith_go.Install.Act.{perform, then_do, after}
use agent_smith_go.Tests.InstallTest.{manager, files, codec, fetch, scalars}
use agent_smith_go.Tests.SystemTest.{launching}

-- A machine on which the service cannot be opened.
abbrev world : World
world = record {
  environment_error = none;
  files = files;
  manager = record manager { open_error = some (codes "no such service") };
  codec = codec;
  fetching = fetch;
  paths_error = none;
  service_name_of = λ c. codes "agent";
  launching = λ c. launching;
  platform = linux;
  machine = record {
    exists = λ path. false;
    read_file = λ path. failed (codes "no such file");
    parse_device = λ bytes. none;
    query = λ name. failed (codes "no systemctl");
  };
  log_comes_back = λ a. true;
  data_root_entries = none;
  prompts = 0;
  input = [];
}

abbrev switches : List Bytes
switches = codes "--org-id" ∷ codes "7" ∷ codes "--uninstall" ∷ []

main-mode_example :
    (mode_of (main world scalars switches).part ≡ dispatch scalars switches)
    × IsShown (main world scalars switches)
main-mode_example = main-mode world scalars switches refl

-- The failure of an uninstall does not show in the exit code.
uninstall_run :
    let x = main world scalars switches in
    (x.exit_code ≡ some 0)
    × (failure_of x.part ≡ some (codes "Failed to open service: no such service"))
unfolding main run_modes new_diagnostic_context new_uninstall_context parsed_flags diagnostic_of
    uninstall_of require text_flag switch_flag parse_flags token_of name_token split_value kind_of
    taken take_flag read_value set_flag finish go_on value_of as_text as_switch eq_bytes
    run_uninstall then_do after perform wrap
uninstall_run = (refl, refl)
