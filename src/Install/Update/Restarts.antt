-- ===== src/Install/Update/Restarts.antt =====
-- runUpdate on the abstract machine.
use agent_smith_go.Base.{
  ◌⊎◌, inl, inr, Bool, true, false, not, ◌≡◌, refl, ap, Option, none, some, Bytes,
}
use agent_smith_go.Interpreter.Message.{Except, done, failed}
use agent_smith_go.Install.Act.{stop, delete, close, create, sleep, succeeded, same}
use agent_smith_go.Install.Host.{Manager, Files, wrapped_done}
use agent_smith_go.Install.Machine.{Machine, is_allowed, effect, step}
use agent_smith_go.Install.Machine.States.{vacant, registered_with}
use agent_smith_go.Install.Machine.Runs.{
  Runs, lift_runs, perform_runs, attempt_runs, lift_then_runs, last_runs, attempt_last_runs,
  step_close,
}
use agent_smith_go.Install.Update.{held, nil, halt_if_active, copy_program, register_again}

-- The service is stopped, and its process gone, or the whole failed and nothing has changed.
abbrev pub Halted : Bool → Option Bytes → Option Bytes → Machine → Bool → Except (Unit {0}) → Type 0
Halted active config program n l (done u) =
    (l ≡ true) × (n ≡ registered_with false true config program)
Halted active config program n l (failed e) =
    (l ≡ true) × (n ≡ registered_with active (not active) config program)

pub halt_runs :
    (svc : Manager) (active : Bool) (config program : Option Bytes)
    → Runs
        (registered_with active (not active) config program)
        (halt_if_active svc active true)
        (Halted active config program)
unfolding halt_if_active step is_allowed effect succeeded
halt_runs svc true config program =
    perform_runs (Halted true config program) _ (registered_with false false config program) true
      stop svc.stop_error _ _ _ refl
      (attempt_last_runs (Halted true config program) _ (registered_with false true config program)
        true sleep none same refl (refl, refl))
      (λ e no. (_, refl, (refl, refl)))
halt_runs svc false config program =
    lift_runs (Halted false config program) _ true (done tt) (refl, refl)

-- A part that starts and ends with the service stopped and its handle held.
abbrev pub Copied : Files → Option Bytes → Machine → Bool → Except (Unit {0}) → Type 0
Copied files config n l (done u) =
    (path program : Bytes) × (files.executable ≡ done path)
    × (files.read_executable path ≡ done program)
    × (l ≡ true)
    × (n ≡ registered_with false true config (some program))
Copied files config n l (failed e) =
    (l ≡ true) × ((p : Option Bytes) × (n ≡ registered_with false true config p))

pub copy_runs :
    (files : Files) (config program : Option Bytes)
    → Runs
        (registered_with false true config program)
        (copy_program files true)
        (Copied files config)
unfolding copy_program step is_allowed effect
copy_runs files config program =
    lift_then_runs (Copied files config) _ true _ _
      (λ path h.
        lift_then_runs (Copied files config) _ true _ _
          (λ bytes g.
            last_runs (Copied files config) _ _ true _ files.write_program_error _ same refl
              (path, bytes, wrapped_done _ _ _ h, wrapped_done _ _ _ g, refl, refl)
              (λ e no. (_, refl, (refl, (program, refl)))))
          (λ e g. (refl, (program, refl))))
      (λ e h. (refl, (program, refl)))

-- The registration is the old one or a new one, or there is none because Create failed.
abbrev pub Registered :
    Manager → Option Bytes → Option Bytes → Machine → Bool → Except (Unit {0}) → Type 0
Registered svc config program n l (done u) =
    (l ≡ true) × (n ≡ registered_with false true config program)
Registered svc config program n l (failed e) =
    ((l ≡ true) × (n ≡ registered_with false true config program))
    ⊎ ((l ≡ false) × ((n ≡ vacant config program) × (succeeded svc.create_error ≡ false)))

pub register_runs :
    (svc : Manager) (again : Bool) (config program : Option Bytes)
    → Runs
        (registered_with false true config program)
        (register_again svc again true)
        (Registered svc config program)
unfolding register_again step is_allowed effect succeeded
register_runs svc true config program =
    perform_runs (Registered svc config program) _
      (record {
        registered = false;
        running = false;
        settled = true;
        handle = true;
        config = config;
        program = program;
      })
      true delete svc.delete_error _ same _ refl
      (attempt_runs (Registered svc config program) _ (vacant config program) true close
        svc.close_error nil _ (step_close svc.close_error _ refl)
        (attempt_runs (Registered svc config program) _ (vacant config program) false sleep none
          same _ refl
          (last_runs (Registered svc config program) _ (registered_with false true config program)
            false create svc.create_error _ held refl (refl, refl)
            (λ e no. (_, refl, inr (refl, (refl, ap succeeded no)))))))
      (λ e no. (_, refl, inl (refl, refl)))
register_runs svc false config program =
    lift_runs (Registered svc config program) _ true (done tt) (refl, refl)
