-- ===== src/Utils/Reconnect/Pace.antt =====
-- How long the reconnect loop waits, and when a SAS token is renewed (internal/utils/time.go).
use agent_smith_go.Base.{
  ℕ, pow-suc, one-le-pow, zero, suc, ◌+◌, ◌*◌, ◌^◌, ◌≤◌, ◌<◌, min, ◌≡◌, refl, ◌⊎◌, inr, ap, arith,
  ℤ, pos, pos_part, neg_part, ◌+ℤ◌, ◌*ℤ◌, ◌≤ℤ◌, ◌<ℤ◌, wrap_i64, add_i64, mul_i64, second,
}
use agent_smith_go.Utils.Reconnect.{
  max_timeout, max_margin, IsJitter, Generator, next_base, cap_timeout, next, clear,
  sas_token_renew_margin,
}

-- What holds of a generator between two calls.
pub record IsPaced (g : Generator) : Type 0 where
  pub base_range : (g.base ≡ pos 0) ⊎ ((pos (2 * second) ≤ℤ g.base) × (g.base ≤ℤ pos max_timeout))
  pub timeout_range : (pos 0 ≤ℤ g.timeout) × (g.timeout ≤ℤ pos max_timeout)

next_base_range :
    (b : ℤ)
    → (b ≡ pos 0) ⊎ ((pos (2 * second) ≤ℤ b) × (b ≤ℤ pos max_timeout))
    → (pos (2 * second) ≤ℤ next_base b) × (next_base b ≤ℤ pos max_timeout)
unfolding next_base mul_i64 wrap_i64 ◌*ℤ◌
next_base_range b h = ground arith

cap_timeout_range :
    (b : ℕ) (j : ℤ)
    → 2 * second ≤ b
    → b ≤ max_timeout
    → (4 * pos_part j ≤ b) × (4 * neg_part j ≤ b)
    → (pos (second + 500_000_000) ≤ℤ cap_timeout (add_i64 (pos b) j))
      × (cap_timeout (add_i64 (pos b) j) ≤ℤ pos max_timeout)
unfolding cap_timeout add_i64 wrap_i64 ◌+ℤ◌
cap_timeout_range b j h k p = ground arith

jittered :
    (draw : ℤ → ℤ) (b : ℤ)
    → IsJitter draw
    → (pos (2 * second) ≤ℤ b) × (b ≤ℤ pos max_timeout)
    → (pos (second + 500_000_000) ≤ℤ cap_timeout (add_i64 b (draw b)))
      × (cap_timeout (add_i64 b (draw b)) ≤ℤ pos max_timeout)
jittered draw (pos n) J h =
    cap_timeout_range n (draw (pos n)) (omega arith) (omega arith) (J n (omega arith))
jittered draw (ℤ.negsuc n) J h = absurd (omega arith)

-- Whatever the jitter, a call of Next keeps the generator within its bounds and leaves a wait of at
-- least 1.5 seconds and at most 64 seconds.
pub next-IsPaced :
    (draw : ℤ → ℤ) (g : Generator)
    → IsJitter draw
    → IsPaced g
    → IsPaced (next draw g) × (pos (second + 500_000_000) ≤ℤ (next draw g).timeout)
unfolding next
next-IsPaced draw g J v =
    let r = next_base_range g.base v.base_range in
    let t = jittered draw (next_base g.base) J r in
    (record { base_range = inr r; timeout_range = (omega (arith, t), t.1) }, t.0)

-- The generator after n calls of Next behind a Clear.
pub nexts : (ℕ → ℤ → ℤ) → Generator → ℕ → Generator
nexts draws g zero = clear g
nexts draws g (suc n) = next (draws n) (nexts draws g n)

pub next_base_doubles :
    (p : ℕ)
    → 1 ≤ p
    → next_base (pos (min (p * second) max_timeout)) ≡ pos (min (2 * p * second) max_timeout)
unfolding next_base mul_i64 wrap_i64 ◌*ℤ◌
next_base_doubles p h = ground arith

base-first : (draw : ℤ → ℤ) (g : Generator) → (next draw (clear g)).base ≡ pos (2 * second)
unfolding next clear next_base mul_i64 wrap_i64 ◌*ℤ◌
base-first draw g = refl

pub base-next : (draw : ℤ → ℤ) (g : Generator) → (next draw g).base ≡ next_base g.base
unfolding next
base-next draw g = refl

-- The n-th call of Next behind a Clear sets the base to 2^n seconds, and to 64 seconds from there on.
pub base-nexts :
    (draws : ℕ → ℤ → ℤ) (g : Generator) (n : ℕ)
    → (nexts draws g (suc n)).base ≡ pos (min (2 ^ suc n * second) max_timeout)
unfolding nexts
base-nexts draws g zero = base-first (draws 0) g
base-nexts draws g (suc n) =
    rw (base-next, base-nexts draws g n, next_base_doubles (2 ^ suc n) (one-le-pow (suc n)))
      (ap pos (omega (arith, pow-suc 2 (suc n))))

cap_timeout_share :
    (b : ℕ) (j : ℤ)
    → 2 * second ≤ b
    → b ≤ max_timeout
    → (4 * pos_part j ≤ b) × (4 * neg_part j ≤ b)
    → let t = cap_timeout (add_i64 (pos b) j) in (3 * b ≤ 4 * pos_part t) × (4 * pos_part t ≤ 5 * b)
unfolding cap_timeout add_i64 wrap_i64 ◌+ℤ◌
cap_timeout_share b j h k p = ground arith

-- The timeout is within a quarter of the base.
pub timeout-next :
    (draw : ℤ → ℤ) (g : Generator) (b : ℕ)
    → IsJitter draw
    → next_base g.base ≡ pos b
    → 2 * second ≤ b
    → b ≤ max_timeout
    → let t = (next draw g).timeout in
      (pos 0 <ℤ t) × (t ≤ℤ pos max_timeout) × (3 * b ≤ 4 * pos_part t) × (4 * pos_part t ≤ 5 * b)
unfolding next
timeout-next draw g b J e low high =
    let j = J b (omega arith) in
    let (l, h) = cap_timeout_range b (draw (pos b)) low high j in
    let (a, c) = cap_timeout_share b (draw (pos b)) low high j in rw e (omega arith, h, a, c)

-- For a lifetime of at least two nanoseconds the renewal comes after the connection starts and
-- before the token expires, never more than 15 minutes ahead; and a lifetime of more than a minute
-- leaves at least a minute.
pub renew_margin_leaves_time :
    (lifetime : ℕ)
    → 2 ≤ lifetime
    → (pos 0 <ℤ sas_token_renew_margin (pos lifetime))
      × (sas_token_renew_margin (pos lifetime) <ℤ pos lifetime)
      × (sas_token_renew_margin (pos lifetime) ≤ℤ pos max_margin)
      × (60 * second < lifetime → pos (60 * second) ≤ℤ sas_token_renew_margin (pos lifetime))
unfolding sas_token_renew_margin
renew_margin_leaves_time lifetime h = ground arith
