-- ===== src/Plugins/Supervisor/Invariant.antt =====
-- What holds of a plugin wrapper behind any sequence of sections (plugins/loader.go).
use agent_smith_go.Base.{ℕ, inl, inr, refl, arith, Bool, not, ◌||◌, ℤ, if_holds}
use agent_smith_go.Agent.Device.{Plugin}
use agent_smith_go.Plugins.Supervisor.{
  Begun, NotifierWrapper, Launch, drop_locked, kill, check_health, begin_notify, drop_used,
  record_failure, record_success, loaded, dead_locked, same_client, silent,
}
use agent_smith_go.Plugins.Supervisor.Steps.{
  Step, Steps, kills, checks, begins, drops, fails, delivers, stay, step, IsSupervised,
  killing_keeps, drop_locked-IsSupervised, restart_locked-IsSupervised,
}

kill-IsSupervised : (p : NotifierWrapper) → IsSupervised p → IsSupervised (kill p)
unfolding kill drop_locked
kill-IsSupervised p v = record {
  handles_agree = refl;
  no_orphan = λ c h. inr (killing_keeps c p.client p.killed (v.no_orphan c h));
  current_launched = λ c h. absurd cc;
  backoff_low = v.backoff_low;
  backoff_high = v.backoff_high;
  closed_stays_down = λ _. refl;
}

record_failure-IsSupervised :
    (p : NotifierWrapper) → IsSupervised p → IsSupervised (record_failure p)
unfolding record_failure
record_failure-IsSupervised p v = record {
  handles_agree = v.handles_agree;
  no_orphan = v.no_orphan;
  current_launched = v.current_launched;
  backoff_low = v.backoff_low;
  backoff_high = v.backoff_high;
  closed_stays_down = v.closed_stays_down;
}

record_success-IsSupervised :
    (p : NotifierWrapper) → IsSupervised p → IsSupervised (record_success p)
unfolding record_success
record_success-IsSupervised p v = record {
  handles_agree = v.handles_agree;
  no_orphan = v.no_orphan;
  current_launched = v.current_launched;
  backoff_low = omega arith;
  backoff_high = omega arith;
  closed_stays_down = v.closed_stays_down;
}

begin_notify-IsSupervised :
    (now : ℤ) (launch : Launch) (exited : ℕ → Bool) (p : NotifierWrapper)
    → IsSupervised p
    → IsSupervised (begin_notify now launch exited p).0
unfolding begin_notify
begin_notify-IsSupervised now launch exited p v =
    if_holds (λ (r : NotifierWrapper × Begun). IsSupervised r.0) p.closed (p, silent) _ (λ _. v)
      (λ _.
        if_holds IsSupervised (dead_locked exited p) _ p
          (λ _. restart_locked-IsSupervised now launch p v) (λ _. v))

Step-IsSupervised : {p q : NotifierWrapper} → Step p q → IsSupervised p → IsSupervised q
unfolding check_health drop_used
Step-IsSupervised (kills {p}) v = kill-IsSupervised p v
Step-IsSupervised (checks {p} now launch exited) v =
    if_holds IsSupervised (p.closed || not (dead_locked exited p)) p _ (λ _. v)
      (λ _. restart_locked-IsSupervised now launch p v)
Step-IsSupervised (begins {p} now launch exited) v = begin_notify-IsSupervised now launch exited p v
Step-IsSupervised (drops {p} c) v =
    if_holds IsSupervised (same_client p.client c) _ p (λ _. drop_locked-IsSupervised p v) (λ _. v)
Step-IsSupervised (fails {p}) v = record_failure-IsSupervised p v
Step-IsSupervised (delivers {p}) v = record_success-IsSupervised p v

loaded-IsSupervised : (now : ℤ) (info : Plugin) → IsSupervised (loaded now info)
unfolding loaded
loaded-IsSupervised now info = record {
  handles_agree = refl;
  no_orphan = λ c h. inl (ground arith);
  current_launched = λ c h. ground arith;
  backoff_low = omega arith;
  backoff_high = omega arith;
  closed_stays_down = λ h. absurd cc;
}

Steps-preserve : {p q : NotifierWrapper} → Steps p q → IsSupervised p → IsSupervised q
Steps-preserve stay v = v
Steps-preserve (step path s) v = Step-IsSupervised s (Steps-preserve path v)

-- However the locked sections of notifications, health checks and Kill interleave behind the load of
-- a plugin: the client and the plugin handle belong to one process, every process started is that
-- one or has been killed, the backoff lies between 5 seconds and 5 minutes, and a closed wrapper
-- runs none.
pub Steps-IsSupervised :
    (now : ℤ) (info : Plugin) (q : NotifierWrapper) → Steps (loaded now info) q → IsSupervised q
Steps-IsSupervised now info q path = Steps-preserve path (loaded-IsSupervised now info)
