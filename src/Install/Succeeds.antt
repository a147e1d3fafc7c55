-- ===== src/Install/Succeeds.antt =====
-- When every call of runConfig succeeds (cmd/agent_smith/config.go).
use agent_smith_go.Base.{
  is_empty, [], ◌≡◌, refl, inl, inr, Bool, true, false, Option, none, some, Bytes, Bool-cases,
}
use agent_smith_go.Interpreter.Message.{done}
use agent_smith_go.Agent.Device.{Device}
use agent_smith_go.Cli.Contexts.{require, ConfigContext}
use agent_smith_go.Install.Host.{Codec, Files, Manager, wrapped}
use agent_smith_go.Install.Fetch.{Fetching, fetch_configuration}
use agent_smith_go.Install.Act.{
  Call, Outcome, Act, then_do, after, perform, attempt, deferring, make_data_dir, make_program_dir,
  open_service, delete, close, sleep, create, start, write_config, write_program,
}
use agent_smith_go.Install.Config.{
  save_configuration, replace_existing, stop_if_active, stop_existing, delete_existing,
  install_program, create_and_start, run_config,
}
use agent_smith_go.Install.Settings.{configure_device, validate_configuration}

-- The required fields of a device.
abbrev pub IsComplete : Device → Type 0
IsComplete d =
    (is_empty d.device_id ≡ false)
    × (is_empty d.rewst_engine_host ≡ false)
    × (is_empty d.shared_access_key ≡ false)
    × (is_empty d.azure_iot_hub_host ≡ false)

-- The engine answers the request with this device.
abbrev pub sending : Device → Fetching
sending d = record {
  paths_error = none;
  host_info = done [];
  request_error = none;
  answer = λ info. done (record { status = 200; body = done [] });
  parse_response = λ body. done d;
}

pub fetches : (d : Device) → IsComplete d → fetch_configuration (sending d) ≡ done d
unfolding fetch_configuration validate_configuration wrapped require
fetches d (a, b, c, e) = rw (a, b, c, e) refl

-- Every call that config mode makes on the file system and the service manager succeeds.
pub record IsWorking (files : Files) (svc : Manager) : Type 0 where
  pub path : Bytes
  pub program : Bytes
  pub data_dir : files.data_dir_error ≡ none
  pub write_config : files.write_config_error ≡ none
  pub program_dir : files.program_dir_error ≡ none
  pub executable : files.executable ≡ done path
  pub read_executable : files.read_executable path ≡ done program
  pub write_program : files.write_program_error ≡ none
  pub stopped : svc.stop_error ≡ none
  pub deleted : svc.delete_error ≡ none
  pub closed : svc.close_error ≡ none
  pub created : svc.create_error ≡ none
  pub started : svc.start_error ≡ none

-- A part that succeeds.
abbrev pub Succeeds : {A : Type 0} → A → Outcome A → Type 0
Succeeds a o = o.result ≡ done a

then_do-Succeeds :
    {A B : Type 0} (a : A) (b : B) (o : Outcome A) (f : A → Act B)
    → Succeeds a o
    → ((live : Bool) → Succeeds b (f a live))
    → Succeeds b (then_do o f)
unfolding then_do after
then_do-Succeeds a b o f h g = rw h (g o.live)

perform-Succeeds :
    (call : Call) (error : Option Bytes) (wrap : Bytes → Bytes) (held : Bool → Bool) (live : Bool)
    → error ≡ none
    → Succeeds tt (perform call error wrap held live)
unfolding perform
perform-Succeeds call error wrap held live h = rw h refl

attempt-Succeeds :
    (call : Call) (error : Option Bytes) (held : Bool → Bool) (live : Bool)
    → Succeeds tt (attempt call error held live)
unfolding attempt
attempt-Succeeds call none held live = refl
attempt-Succeeds call (some e) held live = refl

deferring-Succeeds :
    {A : Type 0} (a : A) (error : Option Bytes) (m : Act A) (live : Bool)
    → Succeeds a (m live)
    → Succeeds a (deferring error m live)
unfolding deferring
deferring-Succeeds a error m live h = elim (Bool-cases (m live).live) [
  | inl e ↦ rw e h
  | inr e ↦ rw e h
]

module _ (files : Files) (svc : Manager) (name : Bytes) (w : IsWorking files svc) where
  save-Succeeds :
      (saved : Bytes) (live : Bool) → Succeeds tt (save_configuration files (done saved) live)
  unfolding save_configuration wrapped
  save-Succeeds saved live =
      then_do-Succeeds tt tt _ _ (perform-Succeeds make_data_dir _ _ _ live w.data_dir) (λ live.
        then_do-Succeeds saved tt _ _ refl
          (λ live. perform-Succeeds (write_config saved) _ _ _ live w.write_config))

  stop-Succeeds : (active live : Bool) → Succeeds tt (stop_if_active svc name active live)
  unfolding stop_if_active stop_existing perform
  stop-Succeeds true live = rw (w.stopped) refl
  stop-Succeeds false live = refl

  replace-Succeeds :
      (open_error : Option Bytes) (live : Bool)
      → Succeeds tt (replace_existing svc name open_error live)
  unfolding replace_existing delete_existing
  replace-Succeeds (some e) live = attempt-Succeeds open_service (some e) _ live
  replace-Succeeds none live =
      then_do-Succeeds tt tt _ _ (attempt-Succeeds open_service none _ live) (λ live.
        then_do-Succeeds tt tt _ _ (stop-Succeeds svc.is_active live) (λ live.
          then_do-Succeeds tt tt _ _ (perform-Succeeds delete _ _ _ live w.deleted) (λ live.
            then_do-Succeeds tt tt _ _ (perform-Succeeds close _ _ _ live w.closed)
              (λ live. attempt-Succeeds sleep none _ live))))

  install-Succeeds : (live : Bool) → Succeeds tt (install_program files live)
  unfolding install_program wrapped
  install-Succeeds live =
      then_do-Succeeds tt tt _ _ (perform-Succeeds make_program_dir _ _ _ live w.program_dir)
        (λ live. then_do-Succeeds w.path tt _ _ (rw (w.executable) refl) (λ live.
          then_do-Succeeds w.program tt _ _ (rw (w.read_executable) refl)
            (λ live. perform-Succeeds (write_program w.program) _ _ _ live w.write_program)))

  create-Succeeds : (live : Bool) → Succeeds tt (create_and_start svc name live)
  unfolding create_and_start
  create-Succeeds live =
      then_do-Succeeds tt tt _ _ (perform-Succeeds create _ _ _ live w.created)
        (λ live. deferring-Succeeds tt _ _ live (perform-Succeeds start _ _ _ live w.started))

pub run_config-Succeeds :
    (d : Device) (files : Files) (svc : Manager) (json : Codec) (name saved : Bytes)
    (c : ConfigContext)
    → IsComplete d
    → IsWorking files svc
    → json.print (configure_device c.common d) ≡ done saved
    → Succeeds tt (run_config (sending d) files svc json name c)
unfolding run_config
run_config-Succeeds d files svc json name saved c complete w g =
    then_do-Succeeds d tt _ _ (fetches d complete) (λ live.
      then_do-Succeeds tt tt _ _ (rw g (save-Succeeds files svc name w saved live)) (λ live.
        then_do-Succeeds tt tt _ _ (replace-Succeeds files svc name w svc.open_error live) (λ live.
          then_do-Succeeds tt tt _ _ (install-Succeeds files svc name w live)
            (λ live. create-Succeeds files svc name w live))))
