-- ===== src/Install/Host.antt =====
-- What the machine answers the modes of cmd/agent_smith, and the names that they use.
use agent_smith_go.Base.{◌≡◌, Bool, Option, Bytes, codes, ◌++◌}
use agent_smith_go.Interpreter.Message.{Except, done, failed}
use agent_smith_go.Agent.Device.{Device}

-- The answers of the service manager and of its handles: an error, or none.
pub record Manager : Type 0 where
  pub open_error : Option Bytes
  pub is_active : Bool
  pub stop_error : Option Bytes
  pub delete_error : Option Bytes
  -- Close of the handle that Open returned.
  pub close_error : Option Bytes
  pub create_error : Option Bytes
  pub start_error : Option Bytes
  -- The deferred Close.
  pub last_close_error : Option Bytes

-- The answers of the file system.
pub record Files : Type 0 where
  pub data_dir_error : Option Bytes
  pub program_dir_error : Option Bytes
  pub config_file : Except Bytes
  pub write_config_error : Option Bytes
  pub executable : Except Bytes
  pub read_executable : Bytes → Except Bytes
  pub write_program_error : Option Bytes
  pub remove_data_error : Option Bytes
  pub remove_program_error : Option Bytes
  pub remove_scripts_error : Option Bytes

-- encoding/json for a device.
pub record Codec : Type 0 where
  pub print : Device → Except Bytes
  pub parse : Bytes → Except Device

-- fmt.Errorf("…: %w", err)
unfoldable pub wrap : Bytes → Bytes → Bytes
wrap text err = text ++ (codes ": " ++ err)

unfoldable pub wrapped {ℓ} : {A : Type ℓ} → Bytes → Except A → Except A
wrapped text (done a) = done a
wrapped text (failed e) = failed (wrap text e)

pub wrapped_done :
    {A : Type 0} (text : Bytes) (r : Except A) (a : A) → wrapped text r ≡ done a → r ≡ done a
unfolding wrapped
wrapped_done text (done b) a h = h
wrapped_done text (failed e) a h = absurd cc
