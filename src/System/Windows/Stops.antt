-- ===== src/System/Windows/Stops.antt =====
-- When a Windows service counts as stopped, and which exit code it reports.
use agent_smith_go.Base.{
  ◌≢◌, ◌++◌, map, ap, All, ◌^◌, ◌<◌, ◌≡◌, ◌↔◌, ◌⊎◌, inl, inr, refl, true, false, List, [], ◌∷◌,
  arith, ℤ, pos, negsuc,
}
use agent_smith_go.Interpreter.Message.{Except, done, failed}
use agent_smith_go.Service.Cycle.{generic_error}
use agent_smith_go.System.Windows.{
  State, stopped, start_pending, stop_pending, running, other, is_stopped, Stopping, has_stopped,
  waiting, stop_failed, wait_stopped, stop_service, exit_response,
}

-- Every one of these statuses is another than the one of a stopped service.
abbrev pub AllPending : List State → Type 0
AllPending states = All (λ (state : State). state ≢ stopped) states

-- What an ending says about all the answers, the first query's included: which of them is the first
-- that is no pending status, if there is one.
abbrev pub Waits : List (Except State) → Stopping → Type 0
Waits answers has_stopped =
    (earlier : List State) × (rest : List (Except State)) × AllPending earlier
    × (answers ≡ map done earlier ++ (done stopped ∷ rest))
Waits answers (stop_failed e) =
    (earlier : List State) × (rest : List (Except State)) × AllPending earlier
    × (answers ≡ map done earlier ++ (failed e ∷ rest))
Waits answers waiting = (earlier : List State) × AllPending earlier × (answers ≡ map done earlier)

Waits-later :
    (state : State) (answers : List (Except State)) (r : Stopping)
    → state ≢ stopped
    → Waits answers r
    → Waits (done state ∷ answers) r
Waits-later state answers has_stopped h (earlier, rest, all, e) =
    (state ∷ earlier, rest, (h, all), ap (λ l. done state ∷ l) e)
Waits-later state answers (stop_failed x) h (earlier, rest, all, e) =
    (state ∷ earlier, rest, (h, all), ap (λ l. done state ∷ l) e)
Waits-later state answers waiting h (earlier, all, e) =
    (state ∷ earlier, (h, all), ap (λ l. done state ∷ l) e)

-- Either the status is `stopped`, and the loop ends, or it is not.
stopped_cases :
    (state : State)
    → ((state ≡ stopped) × (is_stopped state ≡ true))
      ⊎ ((state ≢ stopped) × (is_stopped state ≡ false))
unfolding is_stopped
stopped_cases stopped = inl (refl, refl)
stopped_cases start_pending = inr ((λ e. absurd cc), refl)
stopped_cases stop_pending = inr ((λ e. absurd cc), refl)
stopped_cases running = inr ((λ e. absurd cc), refl)
stopped_cases other = inr ((λ e. absurd cc), refl)

-- Stop returns without an error exactly at the first answer that reports the state Stopped, where all
-- earlier ones report another, and with the error of a query where this is the first answer that is
-- no status; while every answer reports another state, it waits.
pub stop_service-Waits :
    (first : Except State) (answers : List (Except State))
    → Waits (first ∷ answers) (stop_service first answers)
unfolding stop_service wait_stopped
stop_service-Waits (failed e) answers = ([], answers, tt, refl)
stop_service-Waits (done state) [] = elim (stopped_cases state) [
  | inl (e, h) ↦ rw h ([], [], tt, ap (λ s. done s ∷ []) e)
  | inr (n, h) ↦ rw h (state ∷ [], (n, tt), refl)
]
stop_service-Waits (done state) (failed x ∷ answers) = elim (stopped_cases state) [
  | inl (e, h) ↦ rw h ([], failed x ∷ answers, tt, ap (λ s. done s ∷ failed x ∷ answers) e)
  | inr (n, h) ↦ rw h (state ∷ [], answers, (n, tt), refl)
]
stop_service-Waits (done state) (done next ∷ answers) = elim (stopped_cases state) [
  | inl (e, h) ↦ rw h ([], done next ∷ answers, tt, ap (λ s. done s ∷ done next ∷ answers) e)
  | inr (n, h) ↦ rw h (
      Waits-later state (done next ∷ answers) (wait_stopped next answers) n
        (stop_service-Waits (done next) answers))
]

-- The exit code that Windows gets is an unsigned 32-bit number; it is 0 exactly where the runner's is,
-- a code that does not fit becomes the generic error, and the code counts as specific to the service
-- exactly where the runner ended without an error.
pub exit_response_lem :
    (code : ℤ)
    → ((exit_response code).1 < 2 ^ 32)
      × (((exit_response code).1 ≡ 0) ↔ (code ≡ pos 0))
      × ((code ≡ pos (exit_response code).1) ⊎ ((exit_response code).1 ≡ generic_error))
      × (((exit_response code).0 ≡ true) ↔ (code ≡ pos 0))
unfolding exit_response
exit_response_lem (negsuc n) = (
  omega arith,
  ((λ h. absurd (omega arith)), λ h. absurd cc),
  inr refl,
  ((λ h. absurd cc), λ h. absurd cc),
)
exit_response_lem (pos n) = ground arith
