-- ===== src/Service/Backoff/Schedule.antt =====
-- The waits between two postback attempts (cmd/agent_smith/service.go).
use agent_smith_go.Base.{
  ℕ, pow-suc, one-le-pow, zero, suc, dec_le, ◌-◌, ◌*◌, ◌^◌, ◌≤◌, ◌<◌, min, ◌≡◌, ap, ◌∙◌, sym, arith,
  ℤ, pos, pos_part, neg_part, leb_ℤ, if◌then◌else◌, ◌≤ℤ◌, ◌<ℤ◌, add_i64, mul_i64, second,
}
use agent_smith_go.Agent.Device.{default_postback_max_retry_backoff}
use agent_smith_go.Utils.Reconnect.{IsJitter}
use agent_smith_go.Service.Backoff.{
  doublings, at_most, or_default, from_base, postback_retry_backoff,
}

double : (b : ℕ) → b < 2 ^ 62 → mul_i64 (pos b) (pos 2) ≡ pos (2 * b)
unfolding mul_i64
double b h = ground arith

capped_power : (b n half : ℕ) → half ≤ b → 1 ≤ n → min (b * (n * 2)) (2 * half) ≡ 2 * half
capped_power b n half h k = grind arith

doublings_full :
    (n half b : ℕ) → half ≤ b → doublings (suc n) (pos (2 * half)) (pos b) ≡ pos (2 * half)
unfolding doublings
doublings_full n half b h = ground arith

doublings_half :
    (n half b : ℕ)
    → b < half
    → half < 2 ^ 61
    → doublings (suc n) (pos (2 * half)) (pos b) ≡ doublings n (pos (2 * half)) (pos (2 * b))
unfolding doublings
doublings_half n half b h small = ground (arith, double b)

-- With an even cap the loop computes base * 2^n, cut off at the cap.
doublings_lem :
    (n half b : ℕ)
    → 1 ≤ b
    → b ≤ 2 * half
    → half < 2 ^ 61
    → doublings n (pos (2 * half)) (pos b) ≡ pos (min (b * 2 ^ n) (2 * half))
unfolding doublings
doublings_lem zero half b one le small = ap pos (omega arith)
doublings_lem (suc n) half b one le small = elim (dec_le half b) [
  | yes h ↦
      doublings_full n half b h
      ∙ ap pos (rw (pow-suc 2 n) (sym (capped_power b (2 ^ n) half h (one-le-pow n))))
  | no h ↦
      doublings_half n half b (omega arith) small
      ∙ doublings_lem n half (2 * b) (omega arith) (omega arith) small
      ∙ ap (λ (t : ℕ). pos (min t (2 * half))) (rw (pow-suc 2 n) (grind arith))
]

-- The delay before the jitter: the base, doubled for each retry behind the first, up to the cap.
abbrev pub nominal : ℕ → ℕ → ℕ → ℕ
nominal base cap attempt = min (base * 2 ^ (attempt - 2)) cap

jitter_range :
    (b base cap : ℕ) (j : ℤ)
    → 1 ≤ b
    → b ≤ cap
    → cap ≤ 2 ^ 53
    → (4 * pos_part j ≤ b) × (4 * neg_part j ≤ b)
    → let waited = at_most (pos cap) (add_i64 (pos b) j) in
      let result = if leb_ℤ waited (pos 0) then pos base else waited in
      (pos 0 <ℤ result)
      × (result ≤ℤ pos cap)
      × (3 * b ≤ 4 * pos_part result)
      × (4 * pos_part result ≤ 5 * b)
unfolding add_i64
jitter_range b base cap j one le small h = ground arith

-- What a wait of the schedule satisfies.
abbrev pub Scheduled : ℕ → ℕ → ℕ → ℤ → Type 0
Scheduled base cap attempt wait =
    (pos 0 <ℤ wait)
    × (wait ≤ℤ pos cap)
    × (3 * nominal base cap attempt ≤ 4 * pos_part wait)
    × (4 * pos_part wait ≤ 5 * nominal base cap attempt)

nominal_range :
    (base half attempt : ℕ)
    → 1 ≤ base
    → base ≤ 2 * half
    → (1 ≤ nominal base (2 * half) attempt) × (nominal base (2 * half) attempt ≤ 2 * half)
nominal_range base half attempt one le =
    let p = one-le-pow (attempt - 2) in (grind arith, omega arith)

from_base-Scheduled :
    (draw : ℤ → ℤ) (base half attempt : ℕ)
    → IsJitter draw
    → 1 ≤ base
    → base ≤ 2 * half
    → 2 * half ≤ 2 ^ 53
    → Scheduled base (2 * half) attempt (from_base draw (pos base) (pos (2 * half)) attempt)
unfolding from_base
from_base-Scheduled draw base half attempt J one le small =
    let n = nominal_range base half attempt one le in
    let capped : at_most (pos (2 * half)) (pos (nominal base (2 * half) attempt))
        ≡ pos (nominal base (2 * half) attempt) =
      ground arith in
    rw (doublings_lem (attempt - 2) half base one le (omega arith), capped)
      (jitter_range (nominal base (2 * half) attempt) base (2 * half)
        (draw (pos (nominal base (2 * half) attempt))) n.0 n.1 small
        (J (nominal base (2 * half) attempt) (omega arith)))

-- For any number of attempts, however large, the wait before a retry is positive, at most the 64
-- seconds of the cap, and within a quarter of the doubling schedule of the configured base.
pub postback_retry_backoff-Scheduled :
    (draw : ℤ → ℤ) (base attempt : ℕ)
    → IsJitter draw
    → 1 ≤ base
    → Scheduled
        (min base (64 * second))
        (64 * second)
        attempt
        (postback_retry_backoff draw (pos base) default_postback_max_retry_backoff attempt)
unfolding postback_retry_backoff
postback_retry_backoff-Scheduled draw base attempt J one =
    let clamped : at_most (pos (64 * second)) (or_default (pos base) (pos second))
        ≡ pos (min base (64 * second)) =
      ground arith in
    rw clamped (
      from_base-Scheduled draw (min base (64 * second)) (32 * second) attempt J (omega arith)
        (omega arith) (omega arith))
