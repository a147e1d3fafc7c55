-- ===== src/Service/Postback/Delivery/Waits.antt =====
-- The delays between the attempts of sendPostbackWithRetry (cmd/agent_smith/service.go).
use agent_smith_go.Base.{
  ℕ, zero, suc, ◌-◌, ◌*◌, ◌≤◌, ◌<◌, min, ◌≡◌, inl, inr, refl, arith, ◌&&◌, Bool-cases, ltb,
  if◌then◌else◌, List, [], ◌∷◌, ℤ, pos, length, second, leb_ℤ, pos_part,
}
use agent_smith_go.Utils.Reconnect.{IsJitter}
use agent_smith_go.Agent.Device.{
  default_postback_base_retry_backoff, default_postback_max_retry_backoff,
}
use agent_smith_go.Service.Backoff.{postback_retry_backoff}
use agent_smith_go.Service.Backoff.Schedule.{Scheduled, postback_retry_backoff-Scheduled}
use agent_smith_go.Service.Postback.{
  Surroundings, attempt_loop, wait_before, allowed_attempts, postback_trip,
}
use agent_smith_go.Service.Postback.Delivery.{done_at, allowed_attempts-positive}

-- A list of delays, the first of which stands in front of attempt `k`.
abbrev pub IsWaited : ℕ → ℕ → List ℤ → Type 0
IsWaited base k [] = Unit
IsWaited base k (w ∷ ws) =
    Scheduled (min base (64 * second)) (64 * second) k w × IsWaited base (suc k) ws

-- From attempt `k` on, with at most `left` of them.
abbrev Within : ℕ → ℕ → ℕ → List ℤ → Type 0
Within base left k ws = (length ws ≤ left) × IsWaited base k ws

wait_on_time :
    (draw : ℤ → ℤ) (base k : ℕ) (b : ℤ)
    → IsJitter draw
    → b ≡ pos base
    → 1 ≤ base
    → Scheduled
        (min base (64 * second))
        (64 * second)
        k
        (postback_retry_backoff draw b default_postback_max_retry_backoff k)
wait_on_time draw base k b J e one = rw e (postback_retry_backoff-Scheduled draw base k J one)

wait_before_later :
    (env : Surroundings) (k : ℕ)
    → 2 ≤ k
    → wait_before env k
      ≡ postback_retry_backoff
          (env.draw k)
          env.base_retry_backoff
          default_postback_max_retry_backoff
          k
        ∷ []
unfolding wait_before
wait_before_later env k two = ground arith

attempt_loop-later :
    (env : Surroundings) (base left k : ℕ)
    → ((attempt : ℕ) → IsJitter (env.draw attempt))
    → env.base_retry_backoff ≡ pos base
    → 1 ≤ base
    → 2 ≤ k
    → Within base left k (attempt_loop env left k).waits
unfolding attempt_loop
attempt_loop-later env base zero k J e one two = (omega arith, tt)
attempt_loop-later env base (suc left) k J e one two =
    let w = wait_on_time (env.draw k) base k env.base_retry_backoff (J k) e one in
    let (short, rest) = attempt_loop-later env base left (suc k) J e one (omega arith) in
    elim (Bool-cases (ltb 1 k && env.cancelled k)) [
      | inl c ↦ rw (c, wait_before_later env k two) (omega arith, (w, tt))
      | inr c ↦ elim (Bool-cases (done_at env k)) [
        | inl d ↦ rw (c, d, wait_before_later env k two) (omega arith, (w, tt))
        | inr d ↦ rw (c, d, wait_before_later env k two) (omega arith, (w, rest))
      ]
    ]

wait_before_first : (env : Surroundings) → wait_before env 1 ≡ []
unfolding wait_before
wait_before_first env = refl

attempt_loop-first :
    (env : Surroundings) (base allowed : ℕ)
    → ((attempt : ℕ) → IsJitter (env.draw attempt))
    → env.base_retry_backoff ≡ pos base
    → 1 ≤ base
    → 1 ≤ allowed
    → Within base (allowed - 1) 2 (attempt_loop env allowed 1).waits
unfolding attempt_loop
attempt_loop-first env base zero J e one some_left = absurd (omega arith)
attempt_loop-first env base (suc left) J e one some_left =
    let (short, rest) = attempt_loop-later env base left 2 J e one (omega arith) in
    elim (Bool-cases (done_at env 1)) [
      | inl d ↦ rw (d, wait_before_first env) (omega arith, tt)
      | inr d ↦ rw (d, wait_before_first env) (omega arith, rest)
    ]

-- The base of the schedule: the configured one, or the default where that is not positive.
abbrev pub effective_base : ℤ → ℕ
effective_base b = if leb_ℤ b (pos 0) then second else pos_part b

effective_base_lem :
    (b : ℤ)
    → ((if leb_ℤ b (pos 0) then default_postback_base_retry_backoff else b)
        ≡ pos (effective_base b))
      × (1 ≤ effective_base b)
effective_base_lem b = ground arith

-- There are fewer delays than allowed attempts, none in front of the first, and the one in front of
-- each later attempt is positive, at most 64 seconds, and within a quarter of the doubling schedule.
pub postback_trip-IsWaited :
    (env : Surroundings)
    → ((attempt : ℕ) → IsJitter (env.draw attempt))
    → let ws = (postback_trip env).waits in
      (length ws < allowed_attempts env) × IsWaited (effective_base env.base_retry_backoff) 2 ws
unfolding postback_trip
postback_trip-IsWaited env J =
    let b = effective_base_lem env.base_retry_backoff in
    let some_left = allowed_attempts-positive env in
    let (short, rest) =
      attempt_loop-first _ (effective_base env.base_retry_backoff) (allowed_attempts env) J b.0 b.1
        some_left in
    (omega arith, rest)
