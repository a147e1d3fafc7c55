-- ===== src/Plugins/Supervisor.antt =====
-- optionalNotifierWrapper of plugins/loader.go: one plugin subprocess, relaunched when it dies.
pub mod Steps
pub mod Invariant
pub mod Restart
use agent_smith_go.Base.{
  ℕ, suc, ◌+◌, ◌*◌, Bool, true, false, not, ◌&&◌, ◌||◌, Option, none, some, List, [], ◌∷◌, ◌++◌, ℤ,
  pos, ◌-ℤ◌, ◌+ℤ◌, add_i64, mul_i64, ltb_ℤ, leb_ℤ, if◌then◌else◌, ◌==◌, Bytes, is_empty, second,
  minute,
}
use agent_smith_go.Agent.Device.{Plugin}

abbrev pub restart_base_backoff : ℤ
restart_base_backoff = pos (5 * second)

abbrev pub restart_max_backoff : ℤ
restart_max_backoff = pos (5 * minute)

abbrev pub restart_stable_uptime : ℤ
restart_stable_uptime = pos (2 * minute)

-- The wrapper with the subprocesses it has started: each has a number, in the order of their start.
-- A zero time.Time is `none`; times are nanoseconds.
pub record NotifierWrapper : Type 0 where
  pub client : Option ℕ
  pub plugin : Option ℕ
  pub info : Plugin
  pub started_at : Option ℤ
  pub next_restart_at : Option ℤ
  pub restart_backoff : ℤ
  pub closed : Bool
  pub failing : Bool
  pub notify_failures : ℤ
  pub restarts : ℤ
  pub restart_failures : ℤ
  pub launched : ℕ
  pub killed : List ℕ

-- How launchNotifier goes: each stage may fail, and then kills the client it started.
pub data Launch : Type 0 where
  no_client no_dispense wrong_type dispensed : Launch

abbrev pub succeeds : Launch → Bool
succeeds dispensed = true
succeeds _ = false

unfoldable pub killing : Option ℕ → List ℕ → List ℕ
killing none killed = killed
killing (some c) killed = c ∷ killed

unfoldable pub drop_locked : NotifierWrapper → NotifierWrapper
unfolding killing
drop_locked p = record p {
  client = none;
  plugin = none;
  started_at = none;
  killed = killing p.client p.killed;
}

unfoldable pub kill : NotifierWrapper → NotifierWrapper
kill p = drop_locked (record p { closed = true })

abbrev pub restartable : NotifierWrapper → Bool
restartable p = not (is_empty p.info.executable_path)

-- p.client == nil, or the client has exited
abbrev gone : (ℕ → Bool) → Option ℕ → Bool
gone exited none = true
gone exited (some c) = exited c

abbrev missing : Option ℕ → Bool
missing none = true
missing (some c) = false

unfoldable pub dead_locked : (ℕ → Bool) → NotifierWrapper → Bool
dead_locked exited p = restartable p && (gone exited p.client || missing p.plugin)

-- !startedAt.IsZero() && now.Sub(startedAt) >= restartStableUptime
abbrev pub was_stable : ℤ → Option ℤ → Bool
was_stable now none = false
was_stable now (some t) = leb_ℤ restart_stable_uptime (now -ℤ t)

-- now.Before(nextRestartAt)
abbrev pub is_deferred : ℤ → Option ℤ → Bool
is_deferred now none = false
is_deferred now (some t) = ltb_ℤ now t

-- The defaulted backoff, and the clean slate of a subprocess that stayed up.
unfoldable pub slate : ℤ → NotifierWrapper → NotifierWrapper
slate now p =
    if was_stable now p.started_at
    then record p { restart_backoff = restart_base_backoff; next_restart_at = none }
    else if leb_ℤ p.restart_backoff (pos 0)
    then record p { restart_backoff = restart_base_backoff }
    else p

abbrev pub at_most : ℤ → ℤ → ℤ
at_most x cap = if ltb_ℤ cap x then cap else x

unfoldable pub charge : ℤ → NotifierWrapper → NotifierWrapper
charge now p = record p {
  next_restart_at = some (now +ℤ p.restart_backoff);
  restart_backoff = at_most (mul_i64 (pos 2) p.restart_backoff) restart_max_backoff;
}

-- launchNotifier and what restartLocked does with its result.
unfoldable pub relaunch : ℤ → Launch → NotifierWrapper → NotifierWrapper
relaunch now launch p =
    if succeeds launch
    then record p {
      client = some p.launched;
      plugin = some p.launched;
      started_at = some now;
      restarts = add_i64 p.restarts (pos 1);
      launched = suc p.launched;
    }
    else record p {
      restart_failures = add_i64 p.restart_failures (pos 1);
      launched = suc p.launched;
      killed = p.launched ∷ p.killed;
    }

unfoldable pub restart_locked : ℤ → Launch → NotifierWrapper → NotifierWrapper
restart_locked now launch p =
    let q = slate now p in
    if p.closed || not (restartable p)
    then p
    else if is_deferred now q.next_restart_at
    then q
    else relaunch now launch (drop_locked (charge now q))

unfoldable pub check_health : ℤ → Launch → (ℕ → Bool) → NotifierWrapper → NotifierWrapper
check_health now launch exited p =
    if p.closed || not (dead_locked exited p) then p else restart_locked now launch p

-- What Notify goes on with when it has released the lock.
pub data Begun : Type 0 where
  silent not_running : Begun
  calling : ℕ → Begun

abbrev pub begun : NotifierWrapper → Option ℕ → Begun
begun p none = if restartable p then not_running else silent
begun p (some c) = calling c

-- The first locked section of Notify.
unfoldable pub begin_notify : ℤ → Launch → (ℕ → Bool) → NotifierWrapper → NotifierWrapper × Begun
begin_notify now launch exited p =
    let q = if dead_locked exited p then restart_locked now launch p else p in
    if p.closed then (p, silent) else (q, begun q q.plugin)

abbrev same_client : Option ℕ → ℕ → Bool
same_client none c = false
same_client (some d) c = d == c

-- The second: the handle that the call used is dropped, unless it has been replaced.
unfoldable pub drop_used : ℕ → NotifierWrapper → NotifierWrapper
drop_used c p = if same_client p.client c then drop_locked p else p

unfoldable pub record_failure : NotifierWrapper → NotifierWrapper
record_failure p = record p { notify_failures = add_i64 p.notify_failures (pos 1); failing = true }

unfoldable pub record_success : NotifierWrapper → NotifierWrapper
record_success p = record p {
  restart_backoff = restart_base_backoff;
  next_restart_at = none;
  failing = false;
}

-- What the plugin's Notify call returned: isTransportError tells the last two apart.
pub data Reply : Type 0 where
  delivered server_error transport_error : Reply

unfoldable pub end_notify : Reply → Begun → NotifierWrapper → NotifierWrapper × Bool
end_notify r silent p = (p, true)
end_notify r not_running p = (record_failure p, false)
end_notify delivered (calling c) p = (record_success p, true)
end_notify server_error (calling c) p = (record_failure p, false)
end_notify transport_error (calling c) p = (record_failure (drop_used c p), false)

-- Notify with nothing between its sections; the result tells whether it returned no error.
unfoldable pub notify : ℤ → Launch → (ℕ → Bool) → Reply → NotifierWrapper → NotifierWrapper × Bool
notify now launch exited r p = let (q, b) = begin_notify now launch exited p in end_notify r b q

-- The wrapper that LoadNotifer makes of a plugin whose launch succeeded.
unfoldable pub loaded : ℤ → Plugin → NotifierWrapper
loaded now info = record {
  client = some 0;
  plugin = some 0;
  info = info;
  started_at = some now;
  next_restart_at = none;
  restart_backoff = restart_base_backoff;
  closed = false;
  failing = false;
  notify_failures = pos 0;
  restarts = pos 0;
  restart_failures = pos 0;
  launched = 1;
  killed = [];
}

-- notifierSetWrapper.Notify: each plugin in turn, with the reply of each; true if none failed.
unfoldable pub notify_all :
    ℤ
    → (Bytes → Launch)
    → (ℕ → Bool)
    → (Bytes → Reply)
    → List NotifierWrapper
    → List NotifierWrapper × Bool
notify_all now launch exited reply [] = ([], true)
notify_all now launch exited reply (p ∷ ps) =
    let (q, ok) = notify now (launch p.info.name) exited (reply p.info.name) p in
    let (qs, rest) = notify_all now launch exited reply ps in (q ∷ qs, ok && rest)

-- LoadNotifer: a plugin that fails to launch is left out, and the result is then an error.
unfoldable pub load_notifier : ℤ → (Plugin → Launch) → List Plugin → List NotifierWrapper × Bool
load_notifier now launch [] = ([], true)
load_notifier now launch (info ∷ infos) =
    let (ps, ok) = load_notifier now launch infos in
    if succeeds (launch info) then (loaded now info ∷ ps, ok) else (ps, false)
