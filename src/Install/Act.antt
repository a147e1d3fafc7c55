-- ===== src/Install/Act.antt =====
-- What the modes that install, update and remove the agent do to the machine (config.go, update.go and
-- uninstall.go of cmd/agent_smith), and the order of these calls that keeps the service usable.
use agent_smith_go.Base.{
  Bool, true, false, Option, none, some, List, [], ◌∷◌, ◌++◌, if◌then◌else◌, Bytes,
}
use agent_smith_go.Interpreter.Message.{Except, done, failed}

-- The calls of the service manager, of a service handle and of the file system.
pub data Call : Type 0 where
  open_service stop delete close create start sleep : Call
  make_data_dir make_program_dir remove_data remove_program remove_scripts : Call
  write_config write_program : Bytes → Call

-- A call, and whether it returned without an error.
abbrev pub Answered : Type 0
Answered = Call × Bool

-- What a mode leaves: its calls in order, whether the variable `svc` still holds a handle, and its error.
pub record Outcome (A : Type 0) : Type 0 where
  pub events : List Answered
  pub live : Bool
  pub result : Except A

-- A part of a mode; its argument is whether `svc` holds a handle.
abbrev pub Act : Type 0 → Type 0
Act A = Bool → Outcome A

-- The outcome of one part in front of the next part's.
unfoldable pub after : {A : Type 0} → List Answered → Outcome A → Outcome A
after events o = record { events = events ++ o.events; live = o.live; result = o.result }

-- Where a part failed, the mode returns.
unfoldable pub then_do : {A B : Type 0} → Outcome A → (A → Act B) → Outcome B
then_do o f = elim o.result [
  | done a ↦ after o.events (f a o.live)
  | failed e ↦ record { events = o.events; live = o.live; result = failed e }
]

infixl 5 ◌>>=◌ ◌>>◌
abbrev pub ◌>>=◌ : {A B : Type 0} → Act A → (A → Act B) → Act B
m >>= f = λ live. then_do (m live) f

abbrev pub ◌>>◌ : {B : Type 0} → Act (Unit {0}) → Act B → Act B
m >> k = m >>= λ _. k

abbrev pub lift : {A : Type 0} → Except A → Act A
lift r live = record { events = []; live = live; result = r }

-- A call whose error is wrapped by `wrap` and returned; where it succeeds, `svc` holds a handle as
-- `held` says.
unfoldable pub perform : Call → Option Bytes → (Bytes → Bytes) → (Bool → Bool) → Act (Unit {0})
perform call none wrap held live = record {
  events = (call, true) ∷ [];
  live = held live;
  result = done tt;
}
perform call (some e) wrap held live = record {
  events = (call, false) ∷ [];
  live = live;
  result = failed (wrap e);
}

abbrev pub same : Bool → Bool
same live = live

-- A call whose error is only logged.
unfoldable pub attempt : Call → Option Bytes → (Bool → Bool) → Act (Unit {0})
attempt call none held live = record {
  events = (call, true) ∷ [];
  live = held live;
  result = done tt;
}
attempt call (some e) held live = record {
  events = (call, false) ∷ [];
  live = held live;
  result = done tt;
}

unfoldable pub succeeded : Option Bytes → Bool
succeeded none = true
succeeded (some e) = false

-- A part with a deferred Close of the handle that `svc` then holds.
unfoldable pub deferring : {A : Type 0} → Option Bytes → Act A → Act A
deferring close_error m live =
    let o = m live in
    if o.live
    then record {
      events = o.events ++ ((close, succeeded close_error) ∷ []);
      live = o.live;
      result = o.result;
    }
    else o
