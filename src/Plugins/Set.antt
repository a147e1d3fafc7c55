-- ===== src/Plugins/Set.antt =====
-- notifierSetWrapper of plugins/loader.go: all the plugins of the configuration.
use agent_smith_go.Base.{
  ℕ, ◌≤◌, ◌≡◌, arith, ◌⊎◌, inl, inr, Bool, true, List, [], ◌∷◌, All, ℤ, pos, add_i64, leb,
  Bool-cases, Bytes,
}
use agent_smith_go.Agent.Device.{Plugin}
use agent_smith_go.Plugins.Supervisor.{
  NotifierWrapper, Launch, kill, check_health, loaded, drop_locked,
}
use agent_smith_go.Plugins.Supervisor.Steps.{Steps, IsSupervised, mem_id, killing_keeps}
use agent_smith_go.Plugins.Supervisor.Invariant.{Steps-IsSupervised}

unfoldable pub kill_all : List NotifierWrapper → List NotifierWrapper
kill_all [] = []
kill_all (p ∷ ps) = kill p ∷ kill_all ps

-- Plugins
unfoldable pub plugin_names : List NotifierWrapper → List Bytes
plugin_names [] = []
plugin_names (p ∷ ps) = p.info.name ∷ plugin_names ps

-- CheckHealth of every plugin: how a relaunch of it goes, and which of its processes have exited.
unfoldable pub check_all :
    ℤ → (Bytes → Launch) → (Bytes → ℕ → Bool) → List NotifierWrapper → List NotifierWrapper
check_all now launch exited [] = []
check_all now launch exited (p ∷ ps) =
    check_health now (launch p.info.name) (exited p.info.name) p ∷ check_all now launch exited ps

pub record NotifierStats : Type 0 where
  pub notify_failures : ℤ
  pub restarts : ℤ
  pub restart_failures : ℤ

unfoldable pub stats_from : NotifierStats → List NotifierWrapper → NotifierStats
stats_from s [] = s
stats_from s (p ∷ ps) =
    stats_from
      (record {
        notify_failures = add_i64 s.notify_failures p.notify_failures;
        restarts = add_i64 s.restarts p.restarts;
        restart_failures = add_i64 s.restart_failures p.restart_failures;
      })
      ps

-- Stats
unfoldable pub stats : List NotifierWrapper → NotifierStats
stats ps =
    stats_from (record { notify_failures = pos 0; restarts = pos 0; restart_failures = pos 0 }) ps

-- A wrapper that some sections have led to, from the load of its plugin.
abbrev pub Reached : NotifierWrapper → Type 0
Reached p = (now : ℤ) × (info : Plugin) × Steps (loaded now info) p

-- Every process that the wrapper has started has been killed, and none is in use.
abbrev pub IsDown : NotifierWrapper → Type 0
IsDown p = ((c : ℕ) → (p.launched ≤ c) ⊎ (mem_id c p.killed ≡ true))

killed-IsDown : (p : NotifierWrapper) → IsSupervised p → IsDown (kill p)
unfolding kill drop_locked
killed-IsDown p v c = elim (Bool-cases (leb p.launched c)) [
  | inl e ↦ inl (ground arith)
  | inr e ↦ inr (killing_keeps c p.client p.killed (v.no_orphan c (ground arith)))
]

-- Behind Kill of the set no plugin process is left: whatever notifications and health checks there were
-- since the plugins were loaded, every process that a plugin has started has been killed.
pub kill_all-IsDown : (ps : List NotifierWrapper) → All Reached ps → All IsDown (kill_all ps)
unfolding kill_all
kill_all-IsDown [] h = tt
kill_all-IsDown (p ∷ ps) ((now, info, steps), h) =
    (killed-IsDown p (Steps-IsSupervised now info p steps), kill_all-IsDown ps h)
