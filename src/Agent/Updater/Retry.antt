-- ===== src/Agent/Updater/Retry.antt =====
-- The retries of a failed update (internal/agent/updater.go).
use agent_smith_go.Base.{
  ℕ, zero, suc, ◌+◌, ◌*◌, ◌^◌, ◌≤◌, ◌<◌, ◌≡◌, ap, ◌∙◌, arith, Bool, true, List, [], ◌∷◌, ℤ, pos,
  length, wrap_i64, mul_i64, if_holds, pow-suc, subst, ℕ_discrete,
}
use agent_smith_go.Agent.Updater.{Retries, backoff_of, retry_loop, retry_with_backoff}

-- Waits from attempt `k` on that double a base.
abbrev pub IsDoubling : ℕ → ℕ → List ℤ → Type 0
IsDoubling base k [] = Unit
IsDoubling base k (w ∷ ws) = (w ≡ pos (base * 2 ^ k)) × IsDoubling base (suc k) ws

small_shift : (n : ℕ) → n < 2 ^ 63 → wrap_i64 (pos n) ≡ pos n
unfolding wrap_i64
small_shift n h = ground arith

small_product : (base n : ℕ) → base * n < 2 ^ 63 → mul_i64 (pos base) (pos n) ≡ pos (base * n)
unfolding mul_i64
small_product base n h = ground arith

factor_le : (base n : ℕ) → 1 ≤ base → n ≤ base * n
factor_le base n one = grind arith

backoff_of_lem :
    (base k : ℕ) → 1 ≤ base → base * 2 ^ k < 2 ^ 63 → backoff_of (pos base) k ≡ pos (base * 2 ^ k)
unfolding backoff_of
backoff_of_lem base k one h =
    let le = factor_le base (2 ^ k) one in
    ap (mul_i64 (pos base)) (small_shift (2 ^ k) (omega arith)) ∙ small_product base (2 ^ k) h

step_down : (base n limit : ℕ) → base * (n * 2) < limit → base * n < limit
step_down base n limit h = grind arith

early : (base k n last : ℕ) → last ≡ k + n → base * 2 ^ last < 2 ^ 63 → base * 2 ^ k < 2 ^ 63
early base k zero last e h =
    let same : last ≡ k = omega arith in subst (λ (t : ℕ). base * 2 ^ t < 2 ^ 63) same h
early base k (suc n) last e h =
    let next = early base (suc k) n last (omega arith) h in
    step_down base (2 ^ k) (2 ^ 63) (subst (λ (t : ℕ). base * t < 2 ^ 63) (pow-suc 2 k) next)

-- What holds of the retries from attempt `k` on, with `left` to go.
abbrev pub IsRetried : ℕ → (ℕ → Bool) → (ℕ → Bool) → ℕ → ℕ → Retries → Type 0
IsRetried base stops fails left k r =
    IsDoubling base k r.waits
    × (length r.waits ≤ left)
    × (r.runs ≤ k + left)
    × ((r.stopped ≡ true) → stops r.runs ≡ true)
    × ((i : ℕ) → k ≤ i → suc i < r.runs → fails i ≡ true)

retry_loop-IsRetried :
    (base left k last : ℕ) (stops fails : ℕ → Bool)
    → last ≡ k + left
    → 1 ≤ base
    → base * 2 ^ last < 2 ^ 63
    → IsRetried base stops fails left k (retry_loop (pos base) stops fails left k)
unfolding retry_loop
retry_loop-IsRetried base zero k last stops fails e one small =
    (tt, omega arith, omega arith, λ h. absurd cc, λ i a b. absurd (omega arith))
retry_loop-IsRetried base (suc left) k last stops fails e one small =
    let P = IsRetried base stops fails (suc left) k in
    let here : base * 2 ^ k < 2 ^ 63 = early base k (suc left) last e small in
    let w = backoff_of_lem base k one here in
    let (ws, short, few, stop, failing) =
      retry_loop-IsRetried base left (suc k) last stops fails (omega arith) one small in
    if_holds P (stops k) _ _
      (λ s. ((w, tt), omega arith, omega arith, λ _. s, λ i a b. absurd (omega arith)))
      (λ _.
        if_holds P (fails k) _ _
          (λ f. (
            (w, ws),
            omega arith,
            omega arith,
            stop,
            λ i a b. elim (ℕ_discrete i k) [
              | yes same ↦ ap fails same ∙ f
              | no n ↦ failing i (omega arith) b
            ],
          ))
          (λ f. ((w, tt), omega arith, omega arith, λ h. absurd cc, λ i a b. absurd (omega arith))))

-- While the longest wait fits in an int64, the retries wait exactly base, 2 base, 4 base and so on;
-- they run at most the allowed number of updates, all but the last of which failed, and are stopped
-- only by a stop during a wait.
pub retry_with_backoff-IsRetried :
    (base max_retries : ℕ) (stops fails : ℕ → Bool)
    → 1 ≤ base
    → base * 2 ^ max_retries < 2 ^ 63
    → IsRetried base stops fails max_retries 0
        (retry_with_backoff (pos base) max_retries stops fails)
unfolding retry_with_backoff
retry_with_backoff-IsRetried base max_retries stops fails one small =
    retry_loop-IsRetried base max_retries 0 max_retries stops fails (omega arith) one small
