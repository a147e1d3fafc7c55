-- ===== src/Interpreter/Message.antt =====
-- internal/interpreter/message.go and executor.go: a received message and what it asks for.
use agent_smith_go.Base.{
  Bool, Option, none, some, if◌then◌else◌, Bytes, codes, is_empty, replace_byte, ◌++◌, ◌≡◌, refl,
  ◌⊎◌, inl, inr,
}
use agent_smith_go.Agent.Device.{Device}
use agent_smith_go.Interpreter.Result.{Json, error_result_bytes}

pub record Message : Type 0 where
  pub post_id : Bytes
  pub commands : Bytes
  pub interpreter_override : Bytes
  pub get_installation : Bool
  pub kind : Bytes
  pub content : Bytes

-- A value or the text of an error.
pub data Except {ℓ} (A : Type ℓ) : Type ℓ where
  done : A → Except A
  failed : Bytes → Except A

infixl 5 ◌>>=◌ ◌>>◌
abbrev pub ◌>>=◌ {ℓ κ} : {A : Type ℓ} {B : Type κ} → Except A → (A → Except B) → Except B
done a >>= f = f a
failed e >>= f = failed e

abbrev pub ◌>>◌ {ℓ} : {B : Type ℓ} → Except (Unit {0}) → Except B → Except B
m >> k = m >>= λ _. k

-- An operation that returns only an error.
abbrev pub try : Option Bytes → Except (Unit {0})
try none = done tt
try (some e) = failed e

pub Except-cases {ℓ} :
    {A : Type ℓ} (x : Except A) → ((a : A) × (x ≡ done a)) ⊎ ((e : Bytes) × (x ≡ failed e))
Except-cases (done a) = inl (a, refl)
Except-cases (failed e) = inr (e, refl)

pub data Asked : Type 0 where
  run_commands installation nothing : Asked

-- Which of the three branches of Message.Execute a message takes.
unfoldable pub asked : Message → Asked
asked msg =
    if is_empty msg.commands
    then if msg.get_installation then installation else nothing
    else run_commands

-- The installation data as JSON; NewPathsData or MarshalIndent may fail.
installation_answer : Json → Except Bytes → Bytes
installation_answer json (done bytes) = bytes
installation_answer json (failed err) = error_result_bytes json err

-- Message.Execute: `executor` is what Executor.Execute returns for the message.
unfoldable pub execute_message : Json → Bytes → Except Bytes → Message → Bytes
unfolding asked installation_answer
execute_message json executor paths msg = elim (asked msg) [
  | run_commands ↦ executor
  | installation ↦ installation_answer json paths
  | nothing ↦ error_result_bytes json (codes "noop")
]

-- The URL of CreatePostbackRequest.
unfoldable pub postback_url : Device → Bytes → Bytes
postback_url device post_id =
    codes "https://"
    ++ (device.rewst_engine_host
        ++ (codes "/webhooks/custom/action/" ++ replace_byte b':' b'/' post_id))
