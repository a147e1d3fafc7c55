-- ===== src/Install/Config/Legal.antt =====
-- The calls of runConfig, in the order in which it makes them, on the abstract machine.
use agent_smith_go.Base.{
  ◌⊎◌, inl, inr, Bool, true, false, not, ◌≡◌, refl, ap, Option, none, some, Bytes,
}
use agent_smith_go.Interpreter.Message.{Except, done, failed}
use agent_smith_go.Agent.Device.{Device}
use agent_smith_go.Cli.Contexts.{ConfigContext}
use agent_smith_go.Install.Act.{
  open_service, stop, delete, close, create, start, sleep, make_data_dir, make_program_dir,
  succeeded, same,
}
use agent_smith_go.Install.Host.{Manager, Files, Codec, wrap, wrapped_done}
use agent_smith_go.Install.Fetch.{Fetching, fetch_configuration}
use agent_smith_go.Install.Settings.{configure_device}
use agent_smith_go.Install.Machine.{Machine, is_allowed, effect, step}
use agent_smith_go.Install.Machine.States.{described_by, vacant, registered_with, in_service}
use agent_smith_go.Install.Machine.Runs.{
  Runs, runs_at, lift_runs, bind_runs, perform_runs, attempt_runs, lift_then_runs, last_runs,
  attempt_last_runs, deferring_runs,
}
use agent_smith_go.Install.Config.{
  stop_text, nil_text, stop_existing, stop_if_active, delete_existing, replace_existing,
  save_configuration, install_program, create_and_start,
}

-- Only a printed configuration is written, and a failure writes none.
abbrev pub Saved : Machine → Except Bytes → Machine → Bool → Except (Unit {0}) → Type 0
Saved m printed n l (done u) = (b : Bytes) × (printed ≡ done b) × (n ≡ record m { config = some b })
Saved m printed n l (failed e) = n ≡ m

pub save_runs :
    (files : Files) (printed : Except Bytes) (m : Machine) (live : Bool)
    → Runs m (save_configuration files printed live) (Saved m printed)
unfolding save_configuration step is_allowed effect
save_runs files printed m live =
    perform_runs (Saved m printed) m m live make_data_dir files.data_dir_error _ _ _ refl
      (lift_then_runs (Saved m printed) m _ _ _
        (λ b h.
          last_runs (Saved m printed) m (record m { config = some b }) _ _ files.write_config_error
            _ _ refl (b, wrapped_done _ printed b h, refl) (λ e no. (m, refl, refl)))
        (λ e h. refl))
      (λ e no. (m, refl, refl))

-- The existing service is gone, or its handle is kept only because it could not be deleted.
abbrev pub Replaced :
    Manager → Option Bytes → Option Bytes → Machine → Bool → Except (Unit {0}) → Type 0
Replaced svc config program n l (done u) = n ≡ vacant config program
Replaced svc config program n l (failed e) =
    (n.handle ≡ false) ⊎ (succeeded svc.delete_error ≡ false)

delete_runs :
    (svc : Manager) (name : Bytes) (config program : Option Bytes) (settled live : Bool)
    → Runs
        (record {
          registered = true;
          running = false;
          settled = settled;
          handle = true;
          config = config;
          program = program;
        })
        (delete_existing svc name live)
        (Replaced svc config program)
unfolding delete_existing step is_allowed effect succeeded
delete_runs svc name config program settled live =
    perform_runs (Replaced svc config program) _
      (record {
        registered = false;
        running = false;
        settled = settled;
        handle = true;
        config = config;
        program = program;
      })
      live delete svc.delete_error _ _ _ refl
      (perform_runs (Replaced svc config program) _
        (record {
          registered = false;
          running = false;
          settled = settled;
          handle = false;
          config = config;
          program = program;
        })
        _ close svc.close_error _ _ _ refl
        (attempt_last_runs (Replaced svc config program) _ (vacant config program) _ sleep none _
          refl refl)
        (λ e no. (_, refl, inl refl)))
      (λ e no. (_, refl, inr (ap succeeded no)))

abbrev pub Stopped : Option Bytes → Option Bytes → Machine → Bool → Except (Unit {0}) → Type 0
Stopped config program n l (done u) = (s : Bool) × (n ≡ registered_with false s config program)
Stopped config program n l (failed e) = n.handle ≡ false

stop_existing_runs :
    (svc : Manager) (name : Bytes) (o config program : Option Bytes) (live : Bool)
    → Runs
        (registered_with true false config program)
        (stop_existing svc name o live)
        (Stopped config program)
unfolding stop_existing step is_allowed effect succeeded
stop_existing_runs svc name none config program live =
    last_runs (Stopped config program) _ (registered_with false false config program) live stop none
      _ _ refl (false, refl) (λ e no. absurd cc)
stop_existing_runs svc name (some x) config program live =
    attempt_runs (Stopped config program) _ (registered_with true false config program) live stop
      (some x) _ _ refl
      (perform_runs (Stopped config program) _ _ _ close svc.close_error _ _ _ refl
        (lift_runs (Stopped config program) _ (same (same live))
          (failed (wrap (stop_text name) nil_text)) refl)
        (λ e no. (_, refl, refl)))

stop_if_active_runs :
    (svc : Manager) (name : Bytes) (active : Bool) (config program : Option Bytes) (live : Bool)
    → Runs
        (registered_with active (not active) config program)
        (stop_if_active svc name active live)
        (Stopped config program)
unfolding stop_if_active
stop_if_active_runs svc name true config program live =
    stop_existing_runs svc name svc.stop_error config program live
stop_if_active_runs svc name false config program live =
    lift_runs (Stopped config program) _ live (done tt) (true, refl)

pub replace_runs :
    (svc : Manager) (name : Bytes) (o config program : Option Bytes) (live : Bool)
    → Runs
        (described_by svc o config program)
        (replace_existing svc name o live)
        (Replaced svc config program)
unfolding replace_existing step is_allowed effect succeeded
replace_runs svc name none config program live =
    attempt_runs (Replaced svc config program) _
      (registered_with svc.is_active (not svc.is_active) config program) live open_service none _ _
      refl
      (bind_runs (Stopped config program) (Replaced svc config program) _ (same live)
        (stop_if_active svc name svc.is_active) (λ _. delete_existing svc name)
        (stop_if_active_runs svc name svc.is_active config program (same live))
        (λ n l u (s, e).
          runs_at (Replaced svc config program) n _ (delete_existing svc name) l e
            (delete_runs svc name config program s l))
        (λ n l e h. inl h))
replace_runs svc name (some x) config program live =
    attempt_last_runs (Replaced svc config program) _ (vacant config program) live open_service
      (some x) _ refl refl

-- The program file is a copy of the running executable.
abbrev pub Copied : Files → Option Bytes → Machine → Bool → Except (Unit {0}) → Type 0
Copied files config n l (done u) =
    (path program : Bytes) × (files.executable ≡ done path)
    × (files.read_executable path ≡ done program)
    × (n ≡ vacant config (some program))
Copied files config n l (failed e) = n.handle ≡ false

pub install_runs :
    (files : Files) (config program : Option Bytes) (live : Bool)
    → Runs (vacant config program) (install_program files live) (Copied files config)
unfolding install_program step is_allowed effect
install_runs files config program live =
    perform_runs (Copied files config) _ _ _ make_program_dir files.program_dir_error _ _ _ refl
      (lift_then_runs (Copied files config) _ _ _ _
        (λ path h.
          lift_then_runs (Copied files config) _ _ _ _
            (λ bytes g.
              last_runs (Copied files config) _ _ _ _ files.write_program_error _ _ refl
                (path, bytes, wrapped_done _ _ _ h, wrapped_done _ _ _ g, refl)
                (λ e no. (_, refl, refl)))
            (λ e g. refl))
        (λ e h. refl))
      (λ e no. (_, refl, refl))

abbrev pub Started : Option Bytes → Option Bytes → Machine → Bool → Except (Unit {0}) → Type 0
Started config program n l (done u) = n ≡ in_service config program
Started config program n l (failed e) = n.handle ≡ false

pub start_runs :
    (svc : Manager) (name : Bytes) (config program : Option Bytes) (live : Bool)
    → Runs (vacant config program) (create_and_start svc name live) (Started config program)
unfolding create_and_start step is_allowed effect
start_runs svc name config program live =
    perform_runs (Started config program) _ (registered_with false true config program) live create
      svc.create_error _ _ _ refl
      (deferring_runs (Started config program) _ _ svc.last_close_error _ (
        last_runs
          (λ n l r. (l ≡ n.handle) × Started config program (record n { handle = false }) l r) _
          (registered_with true false config program) _ start svc.start_error _ _ refl (refl, refl)
          (λ e no. (_, refl, (refl, refl)))))
      (λ e no. (_, refl, refl))

-- What a success of runConfig has installed.
abbrev pub Installed :
    Fetching → Files → Codec → ConfigContext → Machine → Except (Unit {0}) → Type 0
Installed x files json c n (done u) =
    (device : Device) × (config path program : Bytes) × (fetch_configuration x ≡ done device)
    × (json.print (configure_device c.common device) ≡ done config)
    × (files.executable ≡ done path)
    × (files.read_executable path ≡ done program)
    × (n ≡ in_service (some config) (some program))
Installed x files json c n (failed e) = Unit

-- What runConfig leaves. A success means that the service runs, with a copy of the executable and with
-- the fetched device under the given settings as its configuration. Where no configuration could be
-- fetched, the machine is as it was. A handle is left only where a service could not be deleted.
pub record IsConfigured (x : Fetching) (files : Files) (svc : Manager) (json : Codec)
    (c : ConfigContext) (m n : Machine) (r : Except (Unit {0})) : Type 0 where
  pub installed : Installed x files json c n r
  pub untouched : ((device : Device) × (fetch_configuration x ≡ done device)) ⊎ (n ≡ m)
  pub released : (n.handle ≡ false) ⊎ (succeeded svc.delete_error ≡ false)
