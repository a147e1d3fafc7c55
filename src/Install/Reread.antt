-- ===== src/Install/Reread.antt =====
-- How runUpdate (cmd/agent_smith/update.go) makes the new configuration file from the old one.
use agent_smith_go.Base.{Option, Bytes, codes}
use agent_smith_go.Interpreter.Message.{Except, ◌>>=◌, ◌>>◌, try}
use agent_smith_go.Agent.Device.{Device}
use agent_smith_go.Cli.Contexts.{CommonFlags}
use agent_smith_go.Install.Host.{Files, Codec, wrapped}
use agent_smith_go.Install.Settings.{update_device}

-- The device in the file; `paths_error` is what NewPathsData fails with.
unfoldable pub saved_device : Option Bytes → Files → Codec → Except Device
saved_device paths_error files json = do
  wrapped (codes "Failed to read paths") (try paths_error)
  config_bytes ← wrapped (codes "Failed to load config") files.config_file
  wrapped (codes "Failed to decode config") (json.parse config_bytes)

unfoldable pub updated_configuration : Option Bytes → Files → Codec → CommonFlags → Except Bytes
updated_configuration paths_error files json c = do
  device ← saved_device paths_error files json
  wrapped (codes "Failed to print config file") (json.print (update_device c device))
