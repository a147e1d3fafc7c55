-- ===== src/Tests/PluginsTest.antt =====
-- A plugin that dies, is relaunched and is closed.
use agent_smith_go.Base.{
  ℕ, ◌≡◌, refl, arith, Bool, true, some, pos, codes, second, minute, ◌*◌, ◌-ℤ◌,
}
use agent_smith_go.Agent.Device.{Plugin}
use agent_smith_go.Plugins.Supervisor.{
  NotifierWrapper, dispensed, loaded, kill, check_health, dead_locked,
}
use agent_smith_go.Plugins.Supervisor.Steps.{stay, step, kills, checks, IsSupervised}
use agent_smith_go.Plugins.Supervisor.Invariant.{Steps-IsSupervised}
use agent_smith_go.Plugins.Supervisor.Restart.{
  StaysDown, Steps-StaysDown, check_health_forgets_crash_loop,
}

abbrev info : Plugin
info = record { name = codes "tray"; executable_path = codes "/opt/tray" }

-- Launched at 10 seconds and dead ever since, on the longest backoff.
abbrev crashing : NotifierWrapper
crashing = record (loaded (pos (10 * second)) info) {
  next_restart_at = some (pos (310 * second));
  restart_backoff = pos (5 * minute);
}

abbrev all_exited : ℕ → Bool
all_exited c = true

Steps-IsSupervised_example :
    IsSupervised
      (kill (check_health (pos (60 * second)) dispensed all_exited (loaded (pos 0) info)))
Steps-IsSupervised_example =
    Steps-IsSupervised (pos 0) info
      (kill (check_health (pos (60 * second)) dispensed all_exited (loaded (pos 0) info)))
      (step (step stay (checks (pos (60 * second)) dispensed all_exited)) kills)

Steps-StaysDown_example :
    StaysDown
      (kill (loaded (pos 0) info))
      (check_health (pos (60 * second)) dispensed all_exited (kill (loaded (pos 0) info)))
Steps-StaysDown_example =
    Steps-StaysDown (loaded (pos 0) info)
      (check_health (pos (60 * second)) dispensed all_exited (kill (loaded (pos 0) info)))
      (step stay (checks (pos (60 * second)) dispensed all_exited))

check_health_forgets_crash_loop_example :
    let q = check_health (pos (130 * second)) dispensed all_exited crashing in
    (q.launched ≡ 2) × (q.restart_backoff ≡ pos (10 * second))
unfolding loaded dead_locked ◌-ℤ◌
check_health_forgets_crash_loop_example =
    check_health_forgets_crash_loop (pos (130 * second)) (pos (10 * second)) dispensed all_exited
      crashing refl refl refl (omega arith)
