-- ===== src/Install/Machine.antt =====
-- An abstract machine with one service: which calls keep its promise, and what they change.
pub mod States
pub mod Runs
use agent_smith_go.Base.{
  Bool, true, false, not, ◌&&◌, ◌≡◌, refl, sym, ap, ◌∙◌, arith, Option, none, some, List, [], ◌∷◌,
  ◌++◌, if◌then◌else◌, Bytes,
}
use agent_smith_go.Interpreter.Message.{Except, done, failed}
use agent_smith_go.Install.Act.{
  Call, open_service, stop, delete, close, create, start, sleep, make_data_dir, make_program_dir,
  remove_data, remove_program, remove_scripts, write_config, write_program, Answered, Outcome, Act,
  after, then_do, ◌>>=◌, ◌>>◌, lift, perform, attempt, succeeded, deferring,
}

-- Whether the service is registered and running, whether its process is known to be gone, how the one
-- handle stands, and what the configuration file and the program file hold.
pub record Machine : Type 0 where
  pub registered : Bool
  pub running : Bool
  pub settled : Bool
  pub handle : Bool
  pub config : Option Bytes
  pub program : Option Bytes

-- Whether a call is allowed. There is at most one handle, a service is stopped only while it runs and
-- deleted only while it does not, it is registered and started once, its program is replaced only when
-- its process is gone, and its directories are removed only when it is gone itself.
unfoldable pub is_allowed : Call → Machine → Bool
is_allowed open_service m = not m.handle
is_allowed stop m = m.handle && m.registered && m.running
is_allowed delete m = m.handle && m.registered && not m.running
is_allowed close m = m.handle
is_allowed create m = not m.handle && not m.registered
is_allowed start m = m.handle && m.registered && not m.running
is_allowed (write_program bytes) m = m.settled
is_allowed remove_data m = not m.registered && m.settled
is_allowed remove_program m = not m.registered && m.settled
is_allowed remove_scripts m = not m.registered && m.settled
is_allowed _ m = true

-- What a call does that succeeds.
unfoldable pub effect : Call → Machine → Machine
effect open_service m = record m { handle = true }
effect stop m = record m { running = false; settled = false }
effect delete m = record m { registered = false }
effect close m = record m { handle = false }
effect create m = record m { registered = true; handle = true }
effect start m = record m { running = true; settled = false }
effect sleep m = record m { settled = not m.running }
effect (write_config bytes) m = record m { config = some bytes }
effect (write_program bytes) m = record m { program = some bytes }
effect remove_data m = record m { config = none }
effect remove_program m = record m { program = none }
effect _ m = m

-- A call that fails changes nothing that the machine shows, but a handle is gone behind Close.
unfoldable pub step : Answered → Machine → Option Machine
step (call, true) m = if is_allowed call m then some (effect call m) else none
step (close, false) m = if is_allowed close m then some (effect close m) else none
step (call, false) m = if is_allowed call m then some m else none

-- The machine behind a sequence of calls, none where one of them is not allowed.
unfoldable pub replay : List Answered → Option Machine → Option Machine
replay events none = none
replay [] (some m) = some m
replay (e ∷ events) (some m) = replay events (step e m)

pub replay-++ :
    (a b : List Answered) (m : Option Machine) → replay (a ++ b) m ≡ replay b (replay a m)
unfolding replay
replay-++ a b none = refl
replay-++ [] b (some m) = refl
replay-++ (e ∷ a) b (some m) = replay-++ a b (step e m)
