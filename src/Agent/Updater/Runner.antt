-- ===== src/Agent/Updater/Runner.antt =====
-- AutoUpdateRunner of internal/agent/updater.go: the timer loop of Start.
use agent_smith_go.Base.{
  ℕ, zero, suc, ◌+◌, ◌≤◌, ◌<◌, ◌≡◌, refl, arith, Bool, true, false, ◌&&◌, Option, none, some, ℤ,
  Bytes, if◌then◌else◌, ap, ◌∙◌,
}
use agent_smith_go.Agent.Updater.{Retries, retry_loop, retry_with_backoff}

-- How a run of the updater ends.
pub data Ended : Type 0 where
  returned : Option Bytes → Ended
  panicked : Bytes → Ended

-- runUpdate: a recovered panic is an error.
unfoldable pub run_update : Ended → Option Bytes
run_update (returned e) = e
run_update (panicked text) = some text

abbrev pub is_error : Option Bytes → Bool
is_error none = false
is_error (some e) = true

-- What the loop meets at tick `i`: whether the stop comes first, how the update goes, and for its
-- retries whether the stop comes in a wait and how they go.
pub record Schedule : Type 0 where
  pub base_backoff : ℤ
  pub max_retries : ℕ
  pub stops : ℕ → Bool
  pub update : ℕ → Ended
  pub stops_retry : ℕ → ℕ → Bool
  pub retry : ℕ → ℕ → Ended

-- How many ticks had their update, and whether the loop has returned.
pub record Ticked : Type 0 where
  pub ticks : ℕ
  pub over : Bool

abbrev pub retries_of : Schedule → ℕ → Retries
retries_of s i =
    retry_with_backoff s.base_backoff s.max_retries (s.stops_retry i)
      (λ k. is_error (run_update (s.retry i k)))

-- Whether the loop returns out of the update of tick `i`.
abbrev pub gives_up : Schedule → ℕ → Bool
gives_up s i = is_error (run_update (s.update i)) && (retries_of s i).stopped

-- The loop from tick `i` on.
unfoldable pub tick_loop : Schedule → ℕ → ℕ → Ticked
tick_loop s zero i = record { ticks = i; over = false }
tick_loop s (suc fuel) i =
    let rest = tick_loop s fuel (suc i) in
    if s.stops i
    then record { ticks = i; over = true }
    else if gives_up s i
    then record { ticks = suc i; over = true }
    else rest

and_false : (a b : Bool) → b ≡ false → (a && b) ≡ false
and_false true b h = h
and_false false b h = refl

goes_on :
    (s : Schedule) (n i : ℕ)
    → ((k : ℕ) → i ≤ k → k < i + n → (s.stops k ≡ false) × ((retries_of s k).stopped ≡ false))
    → tick_loop s n i ≡ record { ticks = i + n; over = false }
unfolding tick_loop
goes_on s zero i h = ap (λ k. record { ticks = k; over = false }) (omega arith)
goes_on s (suc n) i h =
    let (quiet, unstopped) = h i (omega arith) (omega arith) in
    let next = goes_on s n (suc i) (λ k a b. h k (omega arith) (omega arith)) in
    let given = and_false (is_error (run_update (s.update i))) (retries_of s i).stopped unstopped in
    ap
      (λ b.
        if b
        then record { ticks = i; over = true }
        else if gives_up s i
        then record { ticks = suc i; over = true }
        else tick_loop s n (suc i))
      quiet
    ∙ (ap (λ b. if b then record { ticks = suc i; over = true } else tick_loop s n (suc i)) given
        ∙ (next ∙ ap (λ k. record { ticks = k; over = false }) (omega arith)))

retry_loop_unstopped :
    (base : ℤ) (stops fails : ℕ → Bool) (left attempt : ℕ)
    → ((j : ℕ) → attempt ≤ j → j < attempt + left → stops j ≡ false)
    → (retry_loop base stops fails left attempt).stopped ≡ false
unfolding retry_loop
retry_loop_unstopped base stops fails zero attempt h = refl
retry_loop_unstopped base stops fails (suc left) attempt h =
    let quiet = h attempt (omega arith) (omega arith) in
    let rest =
      retry_loop_unstopped base stops fails left (suc attempt)
        (λ j a b. h j (omega arith) (omega arith)) in
    ground (arith, quiet, rest)

unstopped :
    (s : Schedule) (i : ℕ)
    → ((j : ℕ) → j < s.max_retries → s.stops_retry i j ≡ false)
    → (retries_of s i).stopped ≡ false
unfolding retry_with_backoff
unstopped s i h =
    retry_loop_unstopped s.base_backoff (s.stops_retry i)
      (λ (k : ℕ). is_error (run_update (s.retry i k))) s.max_retries 0 (λ j a b. h j (omega arith))

-- As long as no stop comes, neither in front of a tick nor in front of one of the retries of its
-- update, the loop makes every tick, however its updates and their retries end: no failure of an
-- update, no panic and no exhausted retry ends the loop.
pub tick_loop_goes_on :
    (s : Schedule) (n : ℕ)
    → ((k : ℕ) → k < n → s.stops k ≡ false)
    → ((k j : ℕ) → k < n → j < s.max_retries → s.stops_retry k j ≡ false)
    → tick_loop s n 0 ≡ record { ticks = n; over = false }
tick_loop_goes_on s n quiet free =
    goes_on s n 0
      (λ k a b. (quiet k (omega arith), unstopped s k (λ j c. free k j (omega arith) c)))
    ∙ ap (λ k. record { ticks = k; over = false }) (omega arith)
