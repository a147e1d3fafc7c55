-- ===== src/Install/Uninstall/Removes.antt =====
-- runUninstall on the abstract machine.
use agent_smith_go.Base.{
  ◌⊎◌, inl, inr, Bool, true, false, not, ◌≡◌, refl, sym, ap, Option, none, some, Bytes, codes,
}
use agent_smith_go.Interpreter.Message.{Except, done, failed}
use agent_smith_go.Install.Act.{
  open_service, stop, delete, sleep, remove_data, remove_program, remove_scripts, Act, ◌>>◌,
  perform, attempt, succeeded, same, deferring,
}
use agent_smith_go.Install.Host.{Manager, Files, wrap}
use agent_smith_go.Install.Machine.{Machine, is_allowed, effect, step}
use agent_smith_go.Install.Machine.States.{described, described_by, vacant, registered_with}
use agent_smith_go.Install.Machine.Runs.{
  Runs, perform_runs, attempt_runs, lift_then_runs, last_runs, refused_runs, deferring_runs,
}
use agent_smith_go.Install.Uninstall.{
  opened, delete_text, halt_if_active, remove_directories, uninstall_opened, run_uninstall,
}

-- A success leaves no service, no configuration and no program.
abbrev pub Removed : Machine → Except (Unit {0}) → Type 0
Removed n (done u) = n ≡ vacant none none
Removed n (failed e) = Unit

-- What runUninstall leaves. As long as the service is registered, its files are as they were, and it
-- runs only if nothing has changed. No handle is left.
pub record IsRemoved (m n : Machine) (r : Except (Unit {0})) : Type 0 where
  pub removed : Removed n r
  pub intact : (n.registered ≡ false) ⊎ ((n.config ≡ m.config) × (n.program ≡ m.program))
  pub unchanged : (n.running ≡ false) ⊎ (n ≡ m)
  pub released : n.handle ≡ false

module _ (files : Files) (svc : Manager) (config program : Option Bytes) where
  abbrev start_state : Option Bytes → Machine
  start_state o = described_by svc o config program

  abbrev Q : Machine → Bool → Except (Unit {0}) → Type 0
  Q n l r = IsRemoved (start_state none) n r

  -- The same before the deferred Close.
  abbrev P : Machine → Bool → Except (Unit {0}) → Type 0
  P n l r = (l ≡ n.handle) × Q (record n { handle = false }) l r

  -- The service is deleted, and its handle still held.
  abbrev deleted : Bool → Option Bytes → Option Bytes → Machine
  deleted settled c p = record {
    registered = false;
    running = false;
    settled = settled;
    handle = true;
    config = c;
    program = p;
  }

  part_way : (s : Bool) (c p : Option Bytes) (e : Bytes) → P (deleted s c p) true (failed e)
  part_way s c p e =
      (refl, record { removed = tt; intact = inl refl; unchanged = inl refl; released = refl })

  directories_run : Runs (deleted true config program) (remove_directories files true) P
  unfolding remove_directories step is_allowed effect
  directories_run =
      perform_runs P _ (deleted true none program) true remove_data files.remove_data_error
        delete_text same _ refl
        (perform_runs P _ (deleted true none none) true remove_program files.remove_program_error
          delete_text same _ refl
          (last_runs P _ (deleted true none none) true remove_scripts files.remove_scripts_error
            delete_text same refl
            (
              refl,
              record { removed = refl; intact = inl refl; unchanged = inl refl; released = refl },
            )
            (λ e no. (_, refl, part_way true none none _)))
          (λ e no. (_, refl, part_way true none program _)))
        (λ e no. (_, refl, part_way true config program _))

  abbrev deleting : Act (Unit {0})
  deleting =
      perform delete svc.delete_error (wrap (codes "Failed to delete service")) same
      >> (attempt sleep none same >> remove_directories files)

  deleting_runs : (s : Bool) → Runs (registered_with false s config program) (deleting true) P
  unfolding step is_allowed effect succeeded
  deleting_runs s =
      perform_runs P _ (deleted s config program) true delete svc.delete_error _ same _ refl
        (attempt_runs P _ (deleted true config program) true sleep none same _ refl directories_run)
        (λ e no. (
          _,
          refl,
          (
            refl,
            record {
              removed = tt;
              intact = inr (refl, refl);
              unchanged = inl refl;
              released = refl;
            },
          ),
        ))

  halted_runs :
      (active : Bool)
      → svc.is_active ≡ active
      → Runs
          (registered_with active (not active) config program)
          ((halt_if_active svc active >> deleting) true)
          P
  unfolding halt_if_active step is_allowed effect succeeded
  halted_runs true h =
      perform_runs P _ (registered_with false false config program) true stop svc.stop_error _ same
        _ refl (deleting_runs false)
        (λ e no. (
          _,
          refl,
          (
            refl,
            record {
              removed = tt;
              intact = inr (refl, refl);
              unchanged = inr (
                  ap
                    (λ b. record {
                      registered = true;
                      running = b;
                      settled = not b;
                      handle = false;
                      config = config;
                      program = program;
                    })
                    (sym h));
              released = refl;
            },
          ),
        ))
  halted_runs false h =
      lift_then_runs P _ true (done tt) (λ _. deleting) (λ a g. deleting_runs true)
        (λ e g. absurd cc)

  whole_runs :
      (o : Option Bytes)
      → Runs
          (start_state o)
          ((perform open_service o (wrap (codes "Failed to open service")) opened
              >> deferring svc.last_close_error (uninstall_opened files svc))
            false)
          (λ n l r. IsRemoved (start_state o) n r)
  unfolding uninstall_opened step is_allowed effect succeeded
  whole_runs none =
      perform_runs Q _ (registered_with svc.is_active (not svc.is_active) config program) false
        open_service none _ opened _ refl
        (deferring_runs Q _ true svc.last_close_error _ (halted_runs svc.is_active refl))
        (λ e no. absurd cc)
  whole_runs (some x) =
      refused_runs (λ n l r. IsRemoved (start_state (some x)) n r) _ (start_state (some x)) false
        open_service x _ opened _ refl
        (record { removed = tt; intact = inr (refl, refl); unchanged = inr refl; released = refl })

-- Whatever the service manager and the file system answer, every call of runUninstall is allowed on the
-- abstract machine that Open and IsActive describe: the service is stopped before it is deleted, and a
-- directory is removed only when the service is gone and its process too. A success leaves no service,
-- no configuration and no program. As long as the service is registered its files are as they were,
-- and it runs only if nothing has changed. No handle stays open.
pub run_uninstall-IsRemoved :
    (files : Files) (svc : Manager) (config program : Option Bytes)
    → Runs
        (described svc config program)
        (run_uninstall files svc)
        (λ n l r. IsRemoved (described svc config program) n r)
unfolding run_uninstall
run_uninstall-IsRemoved files svc config program =
    whole_runs files svc config program svc.open_error
