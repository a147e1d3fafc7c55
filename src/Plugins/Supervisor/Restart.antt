-- ===== src/Plugins/Supervisor/Restart.antt =====
-- When a plugin is relaunched (plugins/loader.go).
use agent_smith_go.Base.{
  ℕ, suc, ◌*◌, ◌≡◌, refl, arith, Bool, true, false, not, ◌||◌, none, some, ℤ, pos, ◌≤ℤ◌, ◌+ℤ◌, ◌-ℤ◌,
  if◌then◌else◌, ap, ◌∙◌, leb_ℤ, if_holds, second, mul_i64,
}
use agent_smith_go.Plugins.Supervisor.{
  NotifierWrapper, Launch, restart_base_backoff, restart_max_backoff, drop_locked, kill, slate,
  charge, relaunch, restart_locked, check_health, begin_notify, drop_used, record_failure,
  record_success, is_deferred, restartable, succeeds, was_stable, at_most, dead_locked,
  restart_stable_uptime,
}
use agent_smith_go.Plugins.Supervisor.Steps.{
  Step, Steps, kills, checks, begins, drops, fails, delivers, stay, step,
}

-- Nothing has been launched from `p` to `q`, and both are closed.
abbrev pub StaysDown : NotifierWrapper → NotifierWrapper → Type 0
StaysDown p q = (q.closed ≡ true) × (q.launched ≡ p.launched)

Step-StaysDown : {p q : NotifierWrapper} → Step p q → p.closed ≡ true → StaysDown p q
unfolding kill check_health begin_notify drop_used record_failure record_success drop_locked
Step-StaysDown (kills {p}) h = (refl, refl)
Step-StaysDown (checks {p} now launch exited) h = ground arith
Step-StaysDown (begins {p} now launch exited) h = ground arith
Step-StaysDown (drops {p} c) h = ground arith
Step-StaysDown (fails {p}) h = (h, refl)
Step-StaysDown (delivers {p}) h = (h, refl)

Steps-down : {p q : NotifierWrapper} → Steps p q → p.closed ≡ true → StaysDown p q
Steps-down stay h = (h, refl)
Steps-down (step path s) h =
    let before = Steps-down path h in
    let (shut, same) = Step-StaysDown s before.0 in (shut, same ∙ before.1)

kill_closes : (p : NotifierWrapper) → (kill p).closed ≡ true
unfolding kill drop_locked
kill_closes p = refl

-- Once Kill has run no interleaving of the sections opens the wrapper again or launches a process.
pub Steps-StaysDown : (p q : NotifierWrapper) → Steps (kill p) q → StaysDown (kill p) q
Steps-StaysDown p q path = Steps-down path (kill_closes p)

-- Whether a restart is due: the process was stable, or the time of the next one has come.
abbrev pub is_due : ℤ → NotifierWrapper → Bool
is_due now p = was_stable now p.started_at || not (is_deferred now p.next_restart_at)

-- The backoff that a restart waits for: the base behind a stable process, else the current one.
abbrev pub current_backoff : ℤ → NotifierWrapper → ℤ
current_backoff now p =
    if was_stable now p.started_at || leb_ℤ p.restart_backoff (pos 0)
    then restart_base_backoff
    else p.restart_backoff

-- The state behind an attempt to launch at `now`, its wait charged in advance.
abbrev pub IsAttempted : ℤ → Launch → NotifierWrapper → NotifierWrapper → Type 0
IsAttempted now launch p q =
    (q.launched ≡ suc p.launched)
    × (q.next_restart_at ≡ some (now +ℤ current_backoff now p))
    × (q.restart_backoff ≡ at_most (mul_i64 (pos 2) (current_backoff now p)) restart_max_backoff)
    × (succeeds launch ≡ true → (q.client ≡ some p.launched) × (q.started_at ≡ some now))
    × (succeeds launch ≡ false → (q.client ≡ none) × (q.started_at ≡ none))

relaunch-IsAttempted :
    (now : ℤ) (launch : Launch) (p q : NotifierWrapper)
    → q.launched ≡ p.launched
    → q.restart_backoff ≡ current_backoff now p
    → IsAttempted now launch p (relaunch now launch (drop_locked (charge now q)))
unfolding relaunch drop_locked charge
relaunch-IsAttempted now launch p q l b = ground (arith, l, b)

slate_lem :
    (now : ℤ) (p : NotifierWrapper)
    → ((slate now p).launched ≡ p.launched)
      × ((slate now p).client ≡ p.client)
      × ((slate now p).restart_backoff ≡ current_backoff now p)
      × (is_deferred now (slate now p).next_restart_at ≡ not (is_due now p))
unfolding slate
slate_lem now p = ground arith

-- A restart that is not due leaves the process and the count of launches alone.
abbrev pub IsPutOff : NotifierWrapper → NotifierWrapper → Type 0
IsPutOff p q = (q.launched ≡ p.launched) × (q.client ≡ p.client)

restart_locked-due :
    (now : ℤ) (launch : Launch) (p : NotifierWrapper)
    → p.closed ≡ false
    → restartable p ≡ true
    → (is_due now p ≡ true → IsAttempted now launch p (restart_locked now launch p))
      × (is_due now p ≡ false → IsPutOff p (restart_locked now launch p))
unfolding restart_locked
restart_locked-due now launch p up can =
    let q = slate now p in
    let (l, c, b, d) = slate_lem now p in
    let shut : (p.closed || not (restartable p)) ≡ false = ground arith in
    rw shut (
      λ h.
          if_holds (IsAttempted now launch p) (is_deferred now q.next_restart_at) q _
            (λ e. absurd (ground arith)) (λ _. relaunch-IsAttempted now launch p q l b),
      λ h.
          if_holds (IsPutOff p) (is_deferred now q.next_restart_at) q _ (λ _. (l, c))
            (λ e. absurd (ground arith)),
    )

dead_restartable :
    (exited : ℕ → Bool) (p : NotifierWrapper) → dead_locked exited p ≡ true → restartable p ≡ true
unfolding dead_locked
dead_restartable exited p h = ground arith

-- A health check of an open wrapper leaves a plugin that is not dead alone. For a dead one it
-- launches a process exactly when the last one was stable or the backoff has passed, and it charges
-- the next wait whether the launch succeeds or fails.
pub check_health_lem :
    (now : ℤ) (launch : Launch) (exited : ℕ → Bool) (p : NotifierWrapper)
    → p.closed ≡ false
    → let q = check_health now launch exited p in
      (dead_locked exited p ≡ false → q ≡ p)
      × (dead_locked exited p ≡ true → is_due now p ≡ true → IsAttempted now launch p q)
      × (dead_locked exited p ≡ true → is_due now p ≡ false → IsPutOff p q)
unfolding check_health
check_health_lem now launch exited p up =
    let P = λ (q : NotifierWrapper).
      (dead_locked exited p ≡ true → is_due now p ≡ true → IsAttempted now launch p q)
      × (dead_locked exited p ≡ true → is_due now p ≡ false → IsPutOff p q) in
    let r =
      if_holds P (p.closed || not (dead_locked exited p)) p (restart_locked now launch p)
        (λ e. (λ d. absurd (ground arith), λ d. absurd (ground arith)))
        (λ e. (
          λ d. (restart_locked-due now launch p up (dead_restartable exited p d)).0,
          λ d. (restart_locked-due now launch p up (dead_restartable exited p d)).1,
        )) in
    (λ d. ground arith, r.0, r.1)

doubled_base :
    at_most (mul_i64 (pos 2) restart_base_backoff) restart_max_backoff ≡ pos (10 * second)
unfolding mul_i64
doubled_base = ground arith

-- The time since the launch counts as uptime even when the process died at once: a health check two
-- minutes behind the launch of a dead process relaunches it whatever the backoff, and resets the
-- schedule, so that the next backoff is 10 seconds again.
pub check_health_forgets_crash_loop :
    (now started : ℤ) (launch : Launch) (exited : ℕ → Bool) (p : NotifierWrapper)
    → p.closed ≡ false
    → dead_locked exited p ≡ true
    → p.started_at ≡ some started
    → restart_stable_uptime ≤ℤ now -ℤ started
    → let q = check_health now launch exited p in
      (q.launched ≡ suc p.launched) × (q.restart_backoff ≡ pos (10 * second))
check_health_forgets_crash_loop now started launch exited p up dead s long =
    let stable : was_stable now p.started_at ≡ true = ground arith in
    let (_, attempt, _) = check_health_lem now launch exited p up in
    let a = attempt dead (ground arith) in
    let base : current_backoff now p ≡ restart_base_backoff = ground arith in
    (a.0, a.2 ∙ ap (λ (b : ℤ). at_most (mul_i64 (pos 2) b) restart_max_backoff) base ∙ doubled_base)
