-- ===== src/Service/Backoff.antt =====
-- postbackRetryBackoff of cmd/agent_smith/service.go.
pub mod Schedule
use agent_smith_go.Base.{
  ℕ, zero, suc, ◌-◌, ℤ, pos, ltb_ℤ, leb_ℤ, quot_ℤ, add_i64, mul_i64, if◌then◌else◌,
}
use agent_smith_go.Agent.Device.{
  default_postback_base_retry_backoff, default_postback_max_retry_backoff,
}

-- The doubling loop, with its early exit at the cap; the number is that of the rounds left.
doublings : ℕ → ℤ → ℤ → ℤ
doublings zero max_backoff backoff = backoff
doublings (suc n) max_backoff backoff =
    let rest = doublings n max_backoff (mul_i64 backoff (pos 2)) in
    if leb_ℤ (quot_ℤ max_backoff 2) backoff then max_backoff else rest

abbrev at_most : ℤ → ℤ → ℤ
at_most cap x = if ltb_ℤ cap x then cap else x

abbrev or_default : ℤ → ℤ → ℤ
or_default x fallback = if leb_ℤ x (pos 0) then fallback else x

-- From the cap and the base that the defaults and the clamp leave. `draw` is the jitter.
from_base : (ℤ → ℤ) → ℤ → ℤ → ℕ → ℤ
unfolding doublings
from_base draw base max_backoff attempt =
    let backoff = at_most max_backoff (doublings (attempt - 2) max_backoff base) in
    let jittered = at_most max_backoff (add_i64 backoff (draw backoff)) in
    if leb_ℤ jittered (pos 0) then base else jittered

unfoldable pub postback_retry_backoff : (ℤ → ℤ) → ℤ → ℤ → ℕ → ℤ
unfolding from_base
postback_retry_backoff draw base max_backoff attempt =
    let cap = or_default max_backoff default_postback_max_retry_backoff in
    from_base draw (at_most cap (or_default base default_postback_base_retry_backoff)) cap attempt
