-- ===== src/Install/Update/Whole.antt =====
-- What the whole of runUpdate leaves.
use agent_smith_go.Base.{
  ◌⊎◌, inl, inr, Bool, true, false, not, ◌≡◌, refl, sym, subst, Option, none, some, Bytes, codes,
  is_empty,
}
use agent_smith_go.Interpreter.Message.{Except, done, failed}
use agent_smith_go.Cli.Contexts.{CommonFlags}
use agent_smith_go.Install.Act.{
  open_service, start, write_config, Act, ◌>>=◌, ◌>>◌, lift, perform, succeeded, same, deferring,
}
use agent_smith_go.Install.Host.{Manager, Files, Codec, wrap}
use agent_smith_go.Install.Reread.{updated_configuration}
use agent_smith_go.Install.Machine.{Machine, is_allowed, effect, step}
use agent_smith_go.Install.Machine.States.{
  described, described_by, vacant, registered_with, in_service,
}
use agent_smith_go.Install.Machine.Runs.{
  Runs, runs_at, bind_runs, refused_runs, perform_runs, lift_then_runs, last_runs, deferring_runs,
}
use agent_smith_go.Install.Update.{
  held, halt_if_active, copy_program, register_again, update_opened, run_update,
}
use agent_smith_go.Install.Update.Restarts.{
  Halted, Copied, Registered, halt_runs, copy_runs, register_runs,
}

-- What a success of runUpdate has installed.
abbrev pub Updated : Except Bytes → Files → Machine → Except (Unit {0}) → Type 0
Updated configuration files n (done u) =
    (config path program : Bytes) × (configuration ≡ done config)
    × (files.executable ≡ done path)
    × (files.read_executable path ≡ done program)
    × (n ≡ in_service (some config) (some program))
Updated configuration files n (failed e) = Unit

-- Behind a failure the service runs only if nothing has changed.
abbrev pub Unchanged : Machine → Machine → Except (Unit {0}) → Type 0
Unchanged m n (done u) = Unit
Unchanged m n (failed e) = (n.running ≡ false) ⊎ (n ≡ m)

-- What runUpdate leaves. A success means that the service runs with the new configuration and a copy of
-- the executable. The service is registered unless it was not or Create failed. No handle is left.
pub record IsUpdated (configuration : Except Bytes) (files : Files) (svc : Manager) (m n : Machine)
    (r : Except (Unit {0})) : Type 0 where
  pub updated : Updated configuration files n r
  pub unchanged : Unchanged m n r
  pub kept : (n.registered ≡ true) ⊎ ((m.registered ≡ false) ⊎ (succeeded svc.create_error ≡ false))
  pub released : n.handle ≡ false

module _ (configuration : Except Bytes) (files : Files) (svc : Manager) (again : Bool)
    (m : Machine) where
  abbrev Q : Machine → Bool → Except (Unit {0}) → Type 0
  Q n l r = IsUpdated configuration files svc m n r

  -- The same before the deferred Close.
  abbrev P : Machine → Bool → Except (Unit {0}) → Type 0
  P n l r = (l ≡ n.handle) × Q (record n { handle = false }) l r

  -- Facts that hold with the variable `svc` and the machine known.
  at_state :
      (n m : Machine) (l k : Bool) (r : Except (Unit {0})) → l ≡ k → n ≡ m → P m k r → P n l r
  at_state n m l k r h g p = subst (λ n. P n l r) (sym g) (subst (λ l. P m l r) (sym h) p)

  runs_held :
      (n m : Machine) (l : Bool) (p : Act (Unit {0}))
      → l ≡ true
      → n ≡ m
      → Runs m (p true) P
      → Runs n (p l) P
  runs_held n m l p h g r = runs_at P n m p l g (subst (λ l. Runs m (p l) P) (sym h) r)

  idle :
      (config program : Option Bytes) (e : Bytes)
      → P (registered_with false true config program) true (failed e)
  idle config program e =
      (refl, record { updated = tt; unchanged = inl refl; kept = inl refl; released = refl })

  started_runs :
      (config path program : Bytes)
      → configuration ≡ done config
      → files.executable ≡ done path
      → files.read_executable path ≡ done program
      → Runs
          (registered_with false true (some config) (some program))
          (perform start svc.start_error (wrap (codes "Failed to start service")) same true)
          P
  unfolding step is_allowed effect
  started_runs config path program h a b =
      last_runs P _ (record (in_service (some config) (some program)) { handle = true }) true start
        svc.start_error _ same refl
        (
          refl,
          record {
            updated = (config, path, program, h, a, b, refl);
            unchanged = tt;
            kept = inl refl;
            released = refl;
          },
        )
        (λ e no. (_, refl, idle (some config) (some program) _))

  abbrev starting : Act (Unit {0})
  starting = perform start svc.start_error (wrap (codes "Failed to start service")) same

  vacated :
      (config program : Option Bytes) (e : Bytes)
      → succeeded svc.create_error ≡ false
      → P (vacant config program) false (failed e)
  vacated config program e h =
      (refl, record { updated = tt; unchanged = inl refl; kept = inr (inr h); released = refl })

  not_registered :
      (n : Machine) (l : Bool) (e : Bytes) (config program : Option Bytes)
      → Registered svc config program n l (failed e)
      → P n l (failed e)
  not_registered n l e config program (inl (h, g)) =
      at_state n _ l true (failed e) h g (idle config program e)
  not_registered n l e config program (inr (h, (g, c))) =
      at_state n _ l false (failed e) h g (vacated config program e c)

  registered_runs :
      (config path program : Bytes)
      → configuration ≡ done config
      → files.executable ≡ done path
      → files.read_executable path ≡ done program
      → Runs
          (registered_with false true (some config) (some program))
          ((register_again svc again >> starting) true)
          P
  registered_runs config path program h a b =
      bind_runs (Registered svc (some config) (some program)) P _ true (register_again svc again)
        (λ _. starting) (register_runs svc again (some config) (some program))
        (λ n l u (held, e).
          runs_held n _ l starting held e (started_runs config path program h a b))
        (λ n l e q. not_registered n l e (some config) (some program) q)

  copied_runs :
      (config : Bytes) (program : Option Bytes)
      → configuration ≡ done config
      → Runs
          (registered_with false true (some config) program)
          ((copy_program files >> (register_again svc again >> starting)) true)
          P
  copied_runs config program h =
      bind_runs (Copied files (some config)) P _ true (copy_program files)
        (λ _. register_again svc again >> starting) (copy_runs files (some config) program)
        (λ n l u (path, bytes, a, b, held, e).
          runs_held n _ l (register_again svc again >> starting) held e
            (registered_runs config path bytes h a b))
        (λ n l e (held, (p, g)). at_state n _ l true (failed e) held g (idle (some config) p e))

  halted_runs :
      (config program : Option Bytes)
      → Runs
          (registered_with false true config program)
          ((lift configuration >>= λ config_bytes.
              perform
                (write_config config_bytes)
                files.write_config_error
                (wrap (codes "Failed to save config"))
                same
              >> (copy_program files >> (register_again svc again >> starting)))
            true)
          P
  unfolding step is_allowed effect
  halted_runs config program =
      lift_then_runs P _ true configuration _
        (λ bytes h.
          perform_runs P _ (registered_with false true (some bytes) program) true _
            files.write_config_error _ same _ refl (copied_runs bytes program h)
            (λ e no. (_, refl, idle config program _)))
        (λ e h. idle config program e)

module _ (configuration : Except Bytes) (files : Files) (svc : Manager) (again : Bool)
    (config program : Option Bytes) where
  abbrev start_state : Option Bytes → Machine
  start_state o = described_by svc o config program

  not_halted :
      (n : Machine) (l : Bool) (e : Bytes)
      → Halted svc.is_active config program n l (failed e)
      → P configuration files svc again (start_state none) n l (failed e)
  unfolding succeeded
  not_halted n l e (held, h) =
      at_state configuration files svc again (start_state none) n _ l true (failed e) held h
        (refl, record { updated = tt; unchanged = inr refl; kept = inl refl; released = refl })

  opened_runs :
      Runs
        (registered_with svc.is_active (not svc.is_active) config program)
        (update_opened configuration files svc again true)
        (P configuration files svc again (start_state none))
  unfolding update_opened
  opened_runs =
      let m = start_state none in
      bind_runs (Halted svc.is_active config program) (P configuration files svc again m) _ true
        (halt_if_active svc svc.is_active) _ (halt_runs svc svc.is_active config program)
        (λ n l u (held, e).
          runs_held configuration files svc again m n _ l
            (lift configuration >>= λ config_bytes.
              perform (write_config config_bytes) files.write_config_error
                (wrap (codes "Failed to save config")) same
              >> (copy_program files
                  >> (register_again svc again >> starting configuration files svc again m)))
            held e (halted_runs configuration files svc again m config program))
        (λ n l e q. not_halted n l e q)

  whole_runs :
      (o : Option Bytes)
      → Runs
          (start_state o)
          ((perform open_service o (wrap (codes "Failed to open service")) held
              >> deferring svc.last_close_error (update_opened configuration files svc again))
            false)
          (λ n l r. IsUpdated configuration files svc (start_state o) n r)
  unfolding step is_allowed effect succeeded
  whole_runs none =
      perform_runs (Q configuration files svc again (start_state none)) _
        (registered_with svc.is_active (not svc.is_active) config program) false open_service none _
        held _ refl
        (deferring_runs (Q configuration files svc again (start_state none)) _ true
          svc.last_close_error _ opened_runs)
        (λ e no. absurd cc)
  whole_runs (some x) =
      refused_runs (Q configuration files svc again (start_state (some x))) _ (start_state (some x))
        false open_service x _ held _ refl
        (record { updated = tt; unchanged = inr refl; kept = inr (inl refl); released = refl })

-- Whatever the service manager and the file system answer, every call of runUpdate is allowed on the
-- abstract machine that Open and IsActive describe: the program is replaced only when no process uses
-- it, a service is deleted only when it does not run, and a new one is registered only when the old
-- one is gone. A success leaves the service running with the new configuration and a copy of the
-- executable. Behind a failure the service runs only if nothing has changed, and it is registered
-- unless it was not before or Create failed. No handle stays open.
pub run_update-IsUpdated :
    (paths_error : Option Bytes) (files : Files) (svc : Manager) (json : Codec) (c : CommonFlags)
    (config program : Option Bytes)
    → Runs (described svc config program) (run_update paths_error files svc json c) (λ n l r.
      IsUpdated
        (updated_configuration paths_error files json c)
        files
        svc
        (described svc config program)
        n
        r)
unfolding run_update
run_update-IsUpdated paths_error files svc json c config program =
    whole_runs (updated_configuration paths_error files json c) files svc
      (not (is_empty c.service_username)) config program svc.open_error
