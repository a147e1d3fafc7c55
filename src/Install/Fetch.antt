-- ===== src/Install/Fetch.antt =====
-- The request of runConfig for the device configuration (cmd/agent_smith/config.go).
use agent_smith_go.Base.{ℕ, Option, ◌==◌, if◌then◌else◌, Bytes, codes, ◌++◌}
use agent_smith_go.Interpreter.Message.{Except, done, failed, ◌>>=◌, ◌>>◌, try}
use agent_smith_go.Service.Spool.Name.{zero_padded}
use agent_smith_go.Agent.Device.{Device}
use agent_smith_go.Install.Host.{wrapped}
use agent_smith_go.Install.Settings.{validate_configuration}

pub record Response : Type 0 where
  pub status : ℕ
  pub body : Except Bytes

-- What each step in front of the answer may fail with, and what the engine answers.
pub record Fetching : Type 0 where
  pub paths_error : Option Bytes
  pub host_info : Except Bytes
  pub request_error : Option Bytes
  pub answer : Bytes → Except Response
  -- json.Unmarshal of the response; its field `configuration`.
  pub parse_response : Bytes → Except Device

abbrev pub check_status : ℕ → Except (Unit {0})
check_status status =
    if status == 200
    then done tt
    else failed (codes "failed to fetch configuration: status " ++ zero_padded 0 status)

unfoldable pub fetch_configuration : Fetching → Except Device
fetch_configuration x = do
  wrapped (codes "failed to read paths") (try x.paths_error)
  host_info ← wrapped (codes "failed to read host info") x.host_info
  wrapped (codes "failed to create request") (try x.request_error)
  response ← wrapped (codes "failed to execute http request") (x.answer host_info)
  check_status response.status
  body ← wrapped (codes "failed to read response") response.body
  device ← wrapped (codes "failed to parse response") (x.parse_response body)
  wrapped (codes "invalid configuration") (validate_configuration device)
  done device
