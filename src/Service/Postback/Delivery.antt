-- ===== src/Service/Postback/Delivery.antt =====
-- The attempts of sendPostbackWithRetry and what becomes of the result (cmd/agent_smith/service.go).
pub mod Waits
pub mod Kept
use agent_smith_go.Base.{
  ℕ, zero, suc, ◌+◌, ◌-◌, ◌≤◌, ◌<◌, ◌≡◌, ◌≢◌, ◌↔◌, ◌⊎◌, inl, inr, refl, arith, Bool, true, false,
  ◌&&◌, ◌||◌, not, Bool-cases, ltb, if◌then◌else◌, List, [], ◌∷◌, ◌++◌, ℤ, pos, pos_part, ltb_ℤ,
  leb_ℤ, ap, ◌∙◌, dec_le, ℕ_discrete, subst,
}
use agent_smith_go.Agent.Device.{default_postback_base_retry_backoff}
use agent_smith_go.Service.Postback.{
  Surroundings, Ending, resolved, aborted, exhausted, Trip, attempt_postback, attempt_loop,
  wait_before, allowed_attempts, postback_trip,
}

-- Whether attempt `k` settles the matter.
abbrev pub done_at : Surroundings → ℕ → Bool
done_at env k = (attempt_postback env.reader (env.exchange k)).0

abbrev pub Fails : (ℕ → Bool) → ℕ → ℕ → Type 0
Fails settled lo hi = (k : ℕ) → lo ≤ k → k < hi → settled k ≡ false

-- How `n` attempts from `start` on, before `stop`, lead to an ending.
abbrev pub Course : (ℕ → Bool) → (ℕ → Bool) → ℕ → ℕ → ℕ → Ending → Type 0
Course settled cancelled start stop n resolved =
    (start ≤ n) × (n < stop) × Fails settled start n × (settled n ≡ true)
Course settled cancelled start stop n aborted =
    (start ≤ suc n)
    × (1 ≤ n)
    × (suc n < stop)
    × Fails settled start (suc n)
    × (cancelled (suc n) ≡ true)
Course settled cancelled start stop n exhausted = (suc n ≡ stop) × Fails settled start stop

Fails-step :
    (settled : ℕ → Bool) (lo hi : ℕ)
    → settled lo ≡ false
    → Fails settled (suc lo) hi
    → Fails settled lo hi
Fails-step settled lo hi h rest k a b = elim (ℕ_discrete k lo) [
  | yes e ↦ rw e h
  | no n ↦ rest k (omega arith) b
]

Course-step :
    (settled cancelled : ℕ → Bool) (start stop n : ℕ) (e : Ending)
    → settled start ≡ false
    → Course settled cancelled (suc start) stop n e
    → Course settled cancelled start stop n e
Course-step settled cancelled start stop n resolved h (a, b, c, d) =
    (omega arith, b, Fails-step settled start n h c, d)
Course-step settled cancelled start stop n aborted h (a, b, c, d, e) =
    (omega arith, b, c, Fails-step settled start (suc n) h d, e)
Course-step settled cancelled start stop n exhausted h (a, b) =
    (a, Fails-step settled start stop h b)

Fails-none : (settled : ℕ → Bool) (lo hi : ℕ) → hi ≤ lo → Fails settled lo hi
Fails-none settled lo hi h k a b = absurd (omega arith)

Course-range :
    (settled cancelled : ℕ → Bool) (allowed n : ℕ) (e : Ending)
    → 1 ≤ allowed
    → Course settled cancelled 1 (suc allowed) n e
    → (1 ≤ n) × (n ≤ allowed)
Course-range settled cancelled allowed n resolved one (a, b, _, _) = (a, omega arith)
Course-range settled cancelled allowed n aborted one (a, b, c, _, _) = (b, omega arith)
Course-range settled cancelled allowed n exhausted one (a, _) = (omega arith, omega arith)

attempt_loop-Course :
    (env : Surroundings) (left start stop : ℕ)
    → 1 ≤ start
    → stop ≡ start + left
    → let t = attempt_loop env left start in
      Course (done_at env) env.cancelled start stop t.attempts t.ending
unfolding attempt_loop
attempt_loop-Course env zero start stop one e =
    (omega arith, Fails-none (done_at env) start stop (omega arith))
attempt_loop-Course env (suc left) start stop one e =
    elim (Bool-cases (ltb 1 start && env.cancelled start)) [
      | inl c ↦ rw c (
        omega arith,
        ground arith,
        ground arith,
        Fails-none (done_at env) start _ (omega arith),
        ground arith,
      )
      | inr c ↦ elim (Bool-cases (done_at env start)) [
        | inl d ↦
            rw (c, d)
              (omega arith, omega arith, Fails-none (done_at env) start start (omega arith), d)
        | inr d ↦
            rw (c, d)
              (Course-step (done_at env) env.cancelled start stop
                (attempt_loop env left (suc start)).attempts _ d
                (attempt_loop-Course env left (suc start) stop (omega arith) (omega arith)))
      ]
    ]

pub allowed_attempts-positive : (env : Surroundings) → 1 ≤ allowed_attempts env
unfolding allowed_attempts
allowed_attempts-positive env = ground arith

-- The loop makes at least one attempt and at most the allowed number, and every attempt but the last
-- asks for another. It ends resolved when the last one settles the matter, aborted when the context
-- is done before the next one, and exhausted when it has made all of them and none settled it.
pub postback_trip-Course :
    (env : Surroundings)
    → let t = postback_trip env in
      (1 ≤ t.attempts)
      × (t.attempts ≤ allowed_attempts env)
      × Course (done_at env) env.cancelled 1 (suc (allowed_attempts env)) t.attempts t.ending
unfolding postback_trip
postback_trip-Course env =
    let t = postback_trip env in
    let c : Course (done_at env) env.cancelled 1 (suc (allowed_attempts env)) t.attempts t.ending =
      attempt_loop-Course _ (allowed_attempts env) 1 _ (omega arith) (omega arith) in
    let (lo, hi) =
      Course-range (done_at env) env.cancelled (allowed_attempts env) t.attempts t.ending
        (allowed_attempts-positive env) c in
    (lo, hi, c)
