-- ===== src/Install/Config/Installs.antt =====
-- runConfig installs the agent: the whole of it on the abstract machine.
use agent_smith_go.Base.{◌⊎◌, inl, inr, Bool, false, ◌≡◌, refl, ap, Option, some, Bytes}
use agent_smith_go.Interpreter.Message.{Except, done, failed}
use agent_smith_go.Agent.Device.{Device}
use agent_smith_go.Cli.Contexts.{ConfigContext}
use agent_smith_go.Install.Act.{◌>>◌, succeeded}
use agent_smith_go.Install.Host.{Manager, Files, Codec}
use agent_smith_go.Install.Fetch.{Fetching, fetch_configuration}
use agent_smith_go.Install.Settings.{configure_device}
use agent_smith_go.Install.Machine.{Machine}
use agent_smith_go.Install.Machine.States.{described, vacant}
use agent_smith_go.Install.Machine.Runs.{Runs, runs_at, weaken_runs, bind_runs, lift_then_runs}
use agent_smith_go.Install.Config.{
  replace_existing, save_configuration, install_program, create_and_start, run_config,
}
use agent_smith_go.Install.Config.Legal.{
  Saved, Replaced, Copied, Started, save_runs, replace_runs, install_runs, start_runs, IsConfigured,
}

module _ (x : Fetching) (files : Files) (svc : Manager) (json : Codec) (name : Bytes)
    (c : ConfigContext) (m : Machine) where
  abbrev Q : Machine → Bool → Except (Unit {0}) → Type 0
  Q n l r = IsConfigured x files svc json c m n r

  gave_up :
      (device : Device) (n : Machine) (e : Bytes)
      → fetch_configuration x ≡ done device
      → (n.handle ≡ false) ⊎ (succeeded svc.delete_error ≡ false)
      → IsConfigured x files svc json c m n (failed e)
  gave_up device n e h released = record {
    installed = tt;
    untouched = inl (device, h);
    released = released;
  }

  started_runs :
      (device : Device) (config path program : Bytes) (live : Bool)
      → fetch_configuration x ≡ done device
      → json.print (configure_device c.common device) ≡ done config
      → files.executable ≡ done path
      → files.read_executable path ≡ done program
      → Runs (vacant (some config) (some program)) (create_and_start svc name live) Q
  started_runs device config path program live h g a b =
      weaken_runs (Started (some config) (some program)) Q _ (create_and_start svc name live)
        (start_runs svc name (some config) (some program) live)
        (λ n l u e. record {
          installed = (device, config, path, program, h, g, a, b, e);
          untouched = inl (device, h);
          released = inl (ap (λ n. n.handle) e);
        })
        (λ n l e q. gave_up device n e h (inl q))

  set_up_runs :
      (device : Device) (config : Bytes) (program : Option Bytes) (live : Bool)
      → fetch_configuration x ≡ done device
      → json.print (configure_device c.common device) ≡ done config
      → Runs
          (vacant (some config) program)
          ((install_program files >> create_and_start svc name) live)
          Q
  set_up_runs device config program live h g =
      bind_runs (Copied files (some config)) Q _ live (install_program files)
        (λ _. create_and_start svc name) (install_runs files (some config) program live)
        (λ n l u (path, bytes, a, b, e).
          runs_at Q n _ (create_and_start svc name) l e
            (started_runs device config path bytes l h g a b))
        (λ n l e q. gave_up device n e h (inl q))

  replaced_runs :
      (device : Device) (config : Bytes) (program : Option Bytes) (live : Bool)
      → fetch_configuration x ≡ done device
      → json.print (configure_device c.common device) ≡ done config
      → Runs
          (described svc (some config) program)
          ((replace_existing svc name svc.open_error
              >> (install_program files >> create_and_start svc name))
            live)
          Q
  replaced_runs device config program live h g =
      bind_runs (Replaced svc (some config) program) Q _ live
        (replace_existing svc name svc.open_error)
        (λ _. install_program files >> create_and_start svc name)
        (replace_runs svc name svc.open_error (some config) program live)
        (λ n l u e.
          runs_at Q n _ (install_program files >> create_and_start svc name) l e
            (set_up_runs device config program l h g))
        (λ n l e q. gave_up device n e h q)

-- Whatever the engine, the service manager and the file system answer, every call of runConfig is
-- allowed on the abstract machine that Open and IsActive describe: an existing service is stopped
-- before it is deleted, the program is replaced only when no process uses it, and a service is
-- registered and started once. A success leaves the fetched device under the given settings as the
-- configuration, a copy of the executable as the program, and the service running. Without a
-- configuration nothing changes. A handle stays open only where the service could not be deleted.
pub run_config-IsConfigured :
    (x : Fetching) (files : Files) (svc : Manager) (json : Codec) (name : Bytes) (c : ConfigContext)
    (config program : Option Bytes)
    → Runs
        (described svc config program)
        (run_config x files svc json name c)
        (λ n l r. IsConfigured x files svc json c (described svc config program) n r)
unfolding run_config
run_config-IsConfigured x files svc json name c config program =
    let m = described svc config program in
    lift_then_runs (Q x files svc json name c m) m false (fetch_configuration x) _
      (λ device h.
        bind_runs (Saved m (json.print (configure_device c.common device)))
          (Q x files svc json name c m) m _
          (save_configuration files (json.print (configure_device c.common device))) _
          (save_runs files _ m _)
          (λ n l u (bytes, g, e).
            runs_at (Q x files svc json name c m) n _
              (replace_existing svc name svc.open_error
                >> (install_program files >> create_and_start svc name))
              l e (replaced_runs x files svc json name c m device bytes program l h g))
          (λ n l e q. gave_up x files svc json name c m device n e h (inl (ap (λ n. n.handle) q))))
      (λ e h. record { installed = tt; untouched = inr refl; released = inl refl })
