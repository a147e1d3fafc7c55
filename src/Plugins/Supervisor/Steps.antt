-- ===== src/Plugins/Supervisor/Steps.antt =====
-- The locked sections of a plugin wrapper in any order (plugins/loader.go).
use agent_smith_go.Base.{
  ℕ, suc, ◌<◌, ◌≡◌, ◌⊎◌, inl, inr, refl, arith, Bool, true, false, not, ◌||◌, Bool-cases, Option,
  none, some, List, [], ◌∷◌, ℤ, pos, ◌≤ℤ◌, ◌==◌, leb_ℤ, if_holds, mul_i64, ℕ_discrete,
}
use agent_smith_go.Plugins.Supervisor.{
  NotifierWrapper, Launch, restart_base_backoff, restart_max_backoff, killing, drop_locked, kill,
  slate, charge, relaunch, restart_locked, check_health, begin_notify, drop_used, record_failure,
  record_success, is_deferred, restartable, succeeds, was_stable, at_most,
}

-- One locked section. Sections of several Notify calls, health checks and Kill interleave freely.
pub data Step : NotifierWrapper → NotifierWrapper → Type 0 where
  kills : {p : NotifierWrapper} → Step p (kill p)
  checks :
      {p : NotifierWrapper} (now : ℤ) (launch : Launch) (exited : ℕ → Bool)
      → Step p (check_health now launch exited p)
  begins :
      {p : NotifierWrapper} (now : ℤ) (launch : Launch) (exited : ℕ → Bool)
      → Step p (begin_notify now launch exited p).0
  drops : {p : NotifierWrapper} (c : ℕ) → Step p (drop_used c p)
  fails : {p : NotifierWrapper} → Step p (record_failure p)
  delivers : {p : NotifierWrapper} → Step p (record_success p)

pub data Steps : NotifierWrapper → NotifierWrapper → Type 0 where
  stay : {p : NotifierWrapper} → Steps p p
  step : {p q r : NotifierWrapper} → Steps p q → Step q r → Steps p r

-- Whether process `c` is on the list of the killed.
unfoldable pub mem_id : ℕ → List ℕ → Bool
mem_id c [] = false
mem_id c (k ∷ ks) = k == c || mem_id c ks

-- Process `c` is the current one.
abbrev pub is_current : ℕ → Option ℕ → Bool
is_current c none = false
is_current c (some d) = d == c

-- What holds of a wrapper between two sections.
pub record IsSupervised (p : NotifierWrapper) : Type 0 where
  pub handles_agree : p.client ≡ p.plugin
  pub no_orphan :
      (c : ℕ) → c < p.launched → (is_current c p.client ≡ true) ⊎ (mem_id c p.killed ≡ true)
  pub current_launched : (c : ℕ) → is_current c p.client ≡ true → c < p.launched
  pub backoff_low : restart_base_backoff ≤ℤ p.restart_backoff
  pub backoff_high : p.restart_backoff ≤ℤ restart_max_backoff
  pub closed_stays_down : p.closed ≡ true → p.client ≡ none

pub killing_keeps :
    (c : ℕ) (client : Option ℕ) (killed : List ℕ)
    → (is_current c client ≡ true) ⊎ (mem_id c killed ≡ true)
    → mem_id c (killing client killed) ≡ true
unfolding killing mem_id
killing_keeps c none killed h = ground arith
killing_keeps c (some d) killed h = ground arith

none_current :
    (c : ℕ) (client : Option ℕ) (killed : List ℕ)
    → client ≡ none
    → (is_current c client ≡ true) ⊎ (mem_id c killed ≡ true)
    → mem_id c killed ≡ true
none_current c none killed e h = ground arith
none_current c (some d) killed e h = absurd cc

pub drop_locked-IsSupervised : (p : NotifierWrapper) → IsSupervised p → IsSupervised (drop_locked p)
unfolding drop_locked
drop_locked-IsSupervised p v = record {
  handles_agree = refl;
  no_orphan = λ c h. inr (killing_keeps c p.client p.killed (v.no_orphan c h));
  current_launched = λ c h. absurd cc;
  backoff_low = v.backoff_low;
  backoff_high = v.backoff_high;
  closed_stays_down = λ _. refl;
}

rescheduled :
    (p : NotifierWrapper) (at : Option ℤ) (backoff : ℤ)
    → IsSupervised p
    → (restart_base_backoff ≤ℤ backoff) × (backoff ≤ℤ restart_max_backoff)
    → IsSupervised (record p { next_restart_at = at; restart_backoff = backoff })
rescheduled p at backoff v h = record {
  handles_agree = v.handles_agree;
  no_orphan = v.no_orphan;
  current_launched = v.current_launched;
  backoff_low = h.0;
  backoff_high = h.1;
  closed_stays_down = v.closed_stays_down;
}

slate-IsSupervised : (now : ℤ) (p : NotifierWrapper) → IsSupervised p → IsSupervised (slate now p)
unfolding slate
slate-IsSupervised now p v = elim (Bool-cases (was_stable now p.started_at)) [
  | inl e ↦ rw e (rescheduled p none restart_base_backoff v (omega arith, omega arith))
  | inr e ↦ elim (Bool-cases (leb_ℤ p.restart_backoff (pos 0))) [
    | inl l ↦
        rw (e, l)
          (rescheduled p p.next_restart_at restart_base_backoff v (omega arith, omega arith))
    | inr l ↦ rw (e, l) v
  ]
]

charged_range :
    (b : ℤ)
    → restart_base_backoff ≤ℤ b
    → b ≤ℤ restart_max_backoff
    → let c = at_most (mul_i64 (pos 2) b) restart_max_backoff in
      (restart_base_backoff ≤ℤ c) × (c ≤ℤ restart_max_backoff)
unfolding mul_i64
charged_range b h k = ground arith

charge-IsSupervised : (now : ℤ) (p : NotifierWrapper) → IsSupervised p → IsSupervised (charge now p)
unfolding charge
charge-IsSupervised now p v =
    rescheduled p _ _ v (charged_range p.restart_backoff v.backoff_low v.backoff_high)

one_more :
    (c launched : ℕ) (killed : List ℕ)
    → ((c : ℕ) → c < launched → mem_id c killed ≡ true)
    → c < suc launched
    → mem_id c (launched ∷ killed) ≡ true
unfolding mem_id
one_more c launched killed h lt = elim (ℕ_discrete launched c) [
  | yes e ↦ ground arith
  | no n ↦ ground (arith, h c (omega arith))
]

one_more_current :
    (c launched : ℕ) (killed : List ℕ)
    → ((c : ℕ) → c < launched → mem_id c killed ≡ true)
    → c < suc launched
    → (is_current c (some launched) ≡ true) ⊎ (mem_id c killed ≡ true)
one_more_current c launched killed h lt = elim (ℕ_discrete launched c) [
  | yes e ↦ inl (ground arith)
  | no n ↦ inr (h c (omega arith))
]

-- A wrapper that runs no process launches one.
relaunch-IsSupervised :
    (now : ℤ) (launch : Launch) (p : NotifierWrapper)
    → p.closed ≡ false
    → p.client ≡ none
    → IsSupervised p
    → IsSupervised (relaunch now launch p)
unfolding relaunch
relaunch-IsSupervised now launch p up idle v =
    let all_killed : (c : ℕ) → c < p.launched → mem_id c p.killed ≡ true =
      λ c h. none_current c p.client p.killed idle (v.no_orphan c h) in
    elim (Bool-cases (succeeds launch)) [
      | inl e ↦ rw e (record {
        handles_agree = refl;
        no_orphan = λ c h. one_more_current c p.launched p.killed all_killed h;
        current_launched = λ c h. ground arith;
        backoff_low = v.backoff_low;
        backoff_high = v.backoff_high;
        closed_stays_down = λ h. absurd cc;
      })
      | inr e ↦ rw e (record {
        handles_agree = v.handles_agree;
        no_orphan = λ c h. inr (one_more c p.launched p.killed all_killed h);
        current_launched = λ c h. omega (arith, v.current_launched c h);
        backoff_low = v.backoff_low;
        backoff_high = v.backoff_high;
        closed_stays_down = v.closed_stays_down;
      })
    ]

closed_charge :
    (now : ℤ) (p : NotifierWrapper) → (drop_locked (charge now (slate now p))).closed ≡ p.closed
unfolding drop_locked charge slate
closed_charge now p = ground arith

idle_drop : (p : NotifierWrapper) → (drop_locked p).client ≡ none
unfolding drop_locked
idle_drop p = refl

pub restart_locked-IsSupervised :
    (now : ℤ) (launch : Launch) (p : NotifierWrapper)
    → IsSupervised p
    → IsSupervised (restart_locked now launch p)
unfolding restart_locked
restart_locked-IsSupervised now launch p v =
    let q = slate now p in
    let w = slate-IsSupervised now p v in
    let dropped = drop_locked (charge now q) in
    let d = drop_locked-IsSupervised (charge now q) (charge-IsSupervised now q w) in
    if_holds IsSupervised (p.closed || not (restartable p)) p _ (λ _. v)
      (λ up.
        if_holds IsSupervised (is_deferred now q.next_restart_at) q _ (λ _. w)
          (λ _.
            relaunch-IsSupervised now launch dropped (ground (arith, closed_charge now p))
              (idle_drop (charge now q)) d))
