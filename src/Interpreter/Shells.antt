-- ===== src/Interpreter/Shells.antt =====
-- internal/interpreter/executor_linux.go, executor_darwin.go and executor_windows.go: the shells, and the
-- cached diagnostics of base_executor.go.
pub mod Once
use agent_smith_go.Base.{
  ℕ, ◌+◌, Bool, true, false, Option, none, some, List, [], ◌∷◌, if◌then◌else◌, Bytes, codes,
  eq_bytes, trim_space,
}
use agent_smith_go.Agent.Device.{Device}
use agent_smith_go.Agent.Host.{to_lower}
use agent_smith_go.Interpreter.Message.{Message}
use agent_smith_go.Interpreter.Executor.{Host, Disk, Execution, execute}

pub record BaseExecutor : Type 0 where
  pub shell : Bytes
  pub shell_version_check_command : Bytes
  pub write_utf8_bom : Bool
  pub build_execute_command_args : Bytes → List Bytes
  pub build_execute_file_args : Bytes → List Bytes

abbrev powershell_version : Bytes
powershell_version =
    codes "\"$($PSVersionTable.PSVersion.Major).$($PSVersionTable.PSVersion.Minor)\""

unfoldable pub new_pwsh_executor : BaseExecutor
new_pwsh_executor = record {
  shell = codes "pwsh";
  shell_version_check_command = powershell_version;
  write_utf8_bom = true;
  build_execute_command_args = λ command. codes "-Command" ∷ command ∷ [];
  build_execute_file_args = λ path. codes "-File" ∷ path ∷ [];
}

unfoldable pub new_powershell_executor : BaseExecutor
new_powershell_executor = record {
  shell = codes "powershell";
  shell_version_check_command = powershell_version;
  write_utf8_bom = true;
  build_execute_command_args = λ command. codes "-Command" ∷ command ∷ [];
  build_execute_file_args = λ path. codes "-File" ∷ path ∷ [];
}

unfoldable pub new_bash_executor : BaseExecutor
new_bash_executor = record {
  shell = codes "bash";
  shell_version_check_command = codes "echo \"$BASH_VERSION\"";
  write_utf8_bom = false;
  build_execute_command_args = λ command. codes "-c" ∷ command ∷ [];
  build_execute_file_args = λ path. path ∷ [];
}

pub data Family : Type 0 where
  unix windows : Family

unfoldable pub platform_shell : Family → BaseExecutor
unfolding new_bash_executor new_powershell_executor
platform_shell unix = new_bash_executor
platform_shell windows = new_powershell_executor

-- The executor that the interpreter override of a message asks for.
unfoldable pub chosen_executor : Family → Bytes → BaseExecutor
unfolding platform_shell new_pwsh_executor
chosen_executor family override =
    if eq_bytes (to_lower override) (codes "pwsh") then new_pwsh_executor else platform_shell family

unfoldable pub always_postback : Family → Bool
always_postback unix = true
always_postback windows = false

-- Execute of the default executor; what the host does depends on the shell that runs.
unfoldable pub default_execute :
    Family → (BaseExecutor → Host) → Device → Message → Disk → Execution
unfolding chosen_executor
default_execute family host device message disk =
    let executor = chosen_executor family message.interpreter_override in
    execute (host executor) executor.write_utf8_bom device message disk

-- The cached version of the shell and the user; none before the first use.
abbrev pub Cache : Type 0
Cache = Option (Bytes × Bytes)

-- One call: its answer, the cache, and how many processes it started. The argument is what the two
-- commands print.
unfoldable pub diagnostics : Bytes × Bytes → Cache → (Bytes × Bytes) × Cache × ℕ
diagnostics (version, whoami) none =
    ((trim_space version, whoami), some (trim_space version, whoami), 2)
diagnostics printed (some cached) = (cached, some cached, 0)
