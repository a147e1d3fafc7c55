-- ===== src/Service/Cycle/Loop.antt =====
-- The reconnect loop of Execute (cmd/agent_smith/service.go).
use agent_smith_go.Base.{
  length, ◌⊎◌, ℕ, zero, suc, ◌+◌, ◌*◌, ◌^◌, ◌≤◌, ◌<◌, min, ◌≡◌, ap, ◌∙◌, sym, arith, Bool, true,
  false, ◌&&◌, List, [], ◌∷◌, ◌++◌, ℤ, pos, pos_part, ltb_ℤ, ◌≤ℤ◌, ◌<ℤ◌, if◌then◌else◌, if_holds,
  Option, none, some, second,
}
use agent_smith_go.Utils.Reconnect.{Generator, next, clear, zero_generator, IsJitter, max_timeout}

-- What the loop meets: the jitter of each call of Next, by cycle, the result of each cycle, and
-- whether the stop comes during the wait in front of it.
pub record Outlook : Type 0 where
  pub draw : ℕ → ℤ → ℤ
  pub draw_cleared : ℕ → ℤ → ℤ
  pub should_return : ℕ → Bool
  pub clear_backoff : ℕ → Bool
  pub exit_code : ℕ → ℕ
  pub stopped_in_wait : ℕ → Bool

-- The generator behind cycle `i`.
unfoldable pub after_cycle : Outlook → ℕ → Generator → Generator
after_cycle env i g =
    let moved = next (env.draw i) g in
    if env.clear_backoff i then next (env.draw_cleared i) (clear moved) else moved

-- The waits, how many cycles ran, and the exit code; none where the fuel ends first.
pub record Run : Type 0 where
  pub waits : List ℤ
  pub cycles : ℕ
  pub exit : Option ℕ

-- The wait in front of a cycle.
unfoldable pub wait_of : Generator → List ℤ
wait_of g = if ltb_ℤ (pos 0) g.timeout then g.timeout ∷ [] else []

-- The loop from cycle `i` on.
unfoldable pub reconnect_loop : Outlook → ℕ → ℕ → Generator → Run
reconnect_loop env zero i g = record { waits = []; cycles = i; exit = none }
reconnect_loop env (suc fuel) i g =
    let rest = reconnect_loop env fuel (suc i) (after_cycle env i g) in
    if ltb_ℤ (pos 0) g.timeout && env.stopped_in_wait i
    then record { waits = wait_of g; cycles = i; exit = some 0 }
    else if env.should_return i
    then record { waits = wait_of g; cycles = suc i; exit = some (env.exit_code i) }
    else record rest { waits = wait_of g ++ rest.waits }

unfoldable pub run_loop : Outlook → ℕ → Run
run_loop env fuel = reconnect_loop env fuel 0 zero_generator

-- The generator in front of cycle `i`.
abbrev pub generator_at : Outlook → ℕ → Generator
generator_at env zero = zero_generator
generator_at env (suc i) = after_cycle env i (generator_at env i)

-- How many cycles there were since the last one that cleared the backoff, that one included.
abbrev pub streak : Outlook → ℕ → ℕ
streak env zero = 0
streak env (suc i) = if env.clear_backoff i then 1 else suc (streak env i)

-- The base of the wait behind a streak.
abbrev pub base_for : ℕ → ℕ
base_for zero = 0
base_for (suc k) = min (2 ^ suc k * second) max_timeout

-- The wait behind a streak of `k` cycles: positive, at most 64 seconds, and within a quarter of the base.
abbrev pub IsWait : ℕ → ℤ → Type 0
IsWait k wait =
    (pos 0 <ℤ wait)
    × (wait ≤ℤ pos max_timeout)
    × (3 * base_for k ≤ 4 * pos_part wait)
    × (4 * pos_part wait ≤ 5 * base_for k)

abbrev IsAfter : ℕ → Generator → Type 0
IsAfter k g = (g.base ≡ pos (base_for k)) × IsWait k g.timeout

-- The jitters that an outlook draws.
abbrev pub DrawsJitter : Outlook → Type 0
DrawsJitter env = ((i : ℕ) → IsJitter (env.draw i)) × ((i : ℕ) → IsJitter (env.draw_cleared i))

-- A list of waits, the first of which stands in front of cycle `i`.
abbrev pub AreWaits : Outlook → ℕ → List ℤ → Type 0
AreWaits env i [] = Unit
AreWaits env i (w ∷ ws) = IsWait (streak env i) w × AreWaits env (suc i) ws

-- One wait stands in front of each cycle from `i` on; behind the last cycle there is one more only
-- where a stop comes during it.
abbrev pub IsBackedOff : Outlook → ℕ → Run → Type 0
IsBackedOff env i r =
    AreWaits env i r.waits
    × ((i + length r.waits ≡ r.cycles)
        ⊎ ((i + length r.waits ≡ suc r.cycles)
            × (env.stopped_in_wait r.cycles ≡ true)
            × (r.exit ≡ some 0)))

-- Cycle `j` is the first that returns, and no stop comes before it.
abbrev pub ReturnsFirst : Outlook → ℕ → ℕ → Type 0
ReturnsFirst env i j =
    ((k : ℕ) → i ≤ k → k < j → env.should_return k ≡ false)
    × ((k : ℕ) → i ≤ k → k ≤ j → env.stopped_in_wait k ≡ false)
    × (env.should_return j ≡ true)

abbrev IsExit : Outlook → ℕ → Run → Type 0
IsExit env j r = (r.cycles ≡ suc j) × (r.exit ≡ some (env.exit_code j))

reconnect_loop-IsExit :
    (env : Outlook) (n i j fuel : ℕ) (g : Generator)
    → j ≡ i + n
    → n < fuel
    → ReturnsFirst env i j
    → IsExit env j (reconnect_loop env fuel i g)
unfolding reconnect_loop
reconnect_loop-IsExit env n i j zero g e lt h = absurd (omega arith)
reconnect_loop-IsExit env zero i j (suc fuel) g e lt (goes, free, ends) =
    let here : j ≡ i = omega arith in
    let quiet = free i (omega arith) (omega arith) in
    let returns : env.should_return i ≡ true = ap env.should_return (sym here) ∙ ends in
    if_holds (IsExit env j) (ltb_ℤ (pos 0) g.timeout && env.stopped_in_wait i) _ _
      (λ c. absurd (ground arith))
      (λ _.
        if_holds (IsExit env j) (env.should_return i) _ _
          (λ _. (ap suc (sym here), ap (λ (k : ℕ). some (env.exit_code k)) (sym here)))
          (λ c. absurd (ground arith)))
reconnect_loop-IsExit env (suc n) i j (suc fuel) g e lt (goes, free, ends) =
    let quiet = free i (omega arith) (omega arith) in
    let goes_on = goes i (omega arith) (omega arith) in
    if_holds (IsExit env j) (ltb_ℤ (pos 0) g.timeout && env.stopped_in_wait i) _ _
      (λ c. absurd (ground arith))
      (λ _.
        if_holds (IsExit env j) (env.should_return i) _ _ (λ c. absurd (ground arith))
          (λ _.
            reconnect_loop-IsExit env n (suc i) j fuel (after_cycle env i g) (omega arith)
              (omega arith)
              (λ k a b. goes k (omega arith) b, λ k a b. free k (omega arith) b, ends)))

-- If cycle `j` is the first to return and no stop comes during a wait up to it, fuel for j + 1 cycles
-- is enough: the loop runs exactly these cycles and ends with the exit code of cycle `j`.
pub run_loop-exits :
    (env : Outlook) (j fuel : ℕ)
    → j < fuel
    → ((k : ℕ) → k < j → env.should_return k ≡ false)
    → ((k : ℕ) → k ≤ j → env.stopped_in_wait k ≡ false)
    → env.should_return j ≡ true
    → ((run_loop env fuel).cycles ≡ suc j) × ((run_loop env fuel).exit ≡ some (env.exit_code j))
unfolding run_loop
run_loop-exits env j fuel lt goes free returns =
    reconnect_loop-IsExit env j 0 j fuel zero_generator (omega arith) lt
      (λ k _ h. goes k h, λ k _ h. free k h, returns)
