-- ===== src/Utils/Reconnect.antt =====
-- ReconnectTimeoutGenerator and SasTokenRenewMargin of internal/utils/time.go.
pub mod Pace
use agent_smith_go.Base.{
  ℕ, ◌+◌, ◌*◌, ◌≤◌, ◌^◌, ℤ, pos, pos_part, neg_part, ltb_ℤ, leb_ℤ, eq_ℤ, quot_ℤ, add_i64, mul_i64,
  if◌then◌else◌, second, minute,
}

abbrev pub max_timeout : ℕ
max_timeout = 64 * second

abbrev pub initial_reconnect_interval : ℕ
initial_reconnect_interval = second

-- A quarter of the argument, at most, in either direction (the float64 of x is exact): the jitter
-- `time.Duration(float64(x) * 0.25 * (2*rand.Float64() - 1))` that the program draws for x.
abbrev pub IsJitter : (ℤ → ℤ) → Type 0
IsJitter draw =
    (x : ℕ) → x ≤ 2 ^ 53 → (4 * pos_part (draw (pos x)) ≤ x) × (4 * neg_part (draw (pos x)) ≤ x)

pub record Generator : Type 0 where
  pub base : ℤ
  pub timeout : ℤ

-- `base *= 2`, seeded and capped.
unfoldable pub next_base : ℤ → ℤ
next_base base =
    let seeded = if eq_ℤ base (pos 0) then pos initial_reconnect_interval else base in
    let doubled = mul_i64 seeded (pos 2) in
    if ltb_ℤ (pos max_timeout) doubled then pos max_timeout else doubled

cap_timeout : ℤ → ℤ
cap_timeout t = if ltb_ℤ (pos max_timeout) t then pos max_timeout else t

unfoldable pub next : (ℤ → ℤ) → Generator → Generator
unfolding next_base cap_timeout
next draw g =
    let base = next_base g.base in
    record { base = base; timeout = cap_timeout (add_i64 base (draw base)) }

unfoldable pub clear : Generator → Generator
clear g = record { base = pos 0; timeout = pos 0 }

abbrev pub zero_generator : Generator
zero_generator = record { base = pos 0; timeout = pos 0 }

abbrev min_margin : ℕ
min_margin = minute

abbrev pub max_margin : ℕ
max_margin = 15 * minute

unfoldable pub sas_token_renew_margin : ℤ → ℤ
sas_token_renew_margin lifetime =
    let tenth = quot_ℤ lifetime 10 in
    let floored = if ltb_ℤ tenth (pos min_margin) then pos min_margin else tenth in
    let capped = if ltb_ℤ (pos max_margin) floored then pos max_margin else floored in
    if leb_ℤ lifetime capped then quot_ℤ lifetime 2 else capped
