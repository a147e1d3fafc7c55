-- ===== src/Install/Machine/States.antt =====
-- The states of the machine that the modes pass through.
use agent_smith_go.Base.{Bool, true, false, not, ◌&&◌, Option, Bytes}
use agent_smith_go.Install.Act.{succeeded}
use agent_smith_go.Install.Host.{Manager}
use agent_smith_go.Install.Machine.{Machine}

-- The machine that the answers of Open and IsActive describe, before a mode runs.
abbrev pub described_by : Manager → Option Bytes → Option Bytes → Option Bytes → Machine
described_by svc open_error config program =
    let running = succeeded open_error && svc.is_active in
    record {
      registered = succeeded open_error;
      running = running;
      settled = not running;
      handle = false;
      config = config;
      program = program;
    }

abbrev pub described : Manager → Option Bytes → Option Bytes → Machine
described svc = described_by svc svc.open_error

-- The machine where no service is, and its process is gone.
abbrev pub vacant : Option Bytes → Option Bytes → Machine
vacant config program = record {
  registered = false;
  running = false;
  settled = true;
  handle = false;
  config = config;
  program = program;
}

-- The service is registered, and its handle is held.
abbrev pub registered_with : Bool → Bool → Option Bytes → Option Bytes → Machine
registered_with running settled config program = record {
  registered = true;
  running = running;
  settled = settled;
  handle = true;
  config = config;
  program = program;
}

-- The service runs, with this configuration and program, and no handle is left.
abbrev pub in_service : Option Bytes → Option Bytes → Machine
in_service config program = record {
  registered = true;
  running = true;
  settled = false;
  handle = false;
  config = config;
  program = program;
}
