-- ===== src/Service/Postback/Handled.antt =====
-- When processMessage posts a result back (cmd/agent_smith/service.go).
use agent_smith_go.Base.{
  ◌≡◌, ◌≢◌, ◌↔◌, ◌⊎◌, refl, arith, Bool, true, false, Option, none, some, [], ◌∷◌, is_empty, Bytes,
}
use agent_smith_go.Agent.Device.{Device}
use agent_smith_go.Interpreter.Message.{Message}
use agent_smith_go.Service.Postback.{
  Handling, handle, process_message, build_received_message_notification,
}

-- Whether a result of the message is due to the engine.
abbrev pub IsDue : Bool → Device → Message → Type 0
IsDue always device message =
    (message.post_id ≢ []) × ((device.disable_agent_postback ≡ false) ⊎ (always ≡ true))

-- How a payload with the given parse is handled.
abbrev pub IsHandled :
    (Message → Bytes) → Bool → Device → Bytes → Option Message → Handling → Type 0
IsHandled run always device payload none h =
    (h.notified ≡ []) × (h.executed ≡ none) × (h.sent ≡ none)
IsHandled run always device payload (some message) h =
    (h.notified ≡ build_received_message_notification payload ∷ [])
    × (h.executed ≡ some message)
    × (IsDue always device message → h.sent ≡ some (run message))
    × (h.sent ≢ none → IsDue always device message)

is_empty_iff : (s : Bytes) → (is_empty s ≡ false) ↔ (s ≢ [])
is_empty_iff [] = ground arith
is_empty_iff (x ∷ s) = ground arith

handle-IsHandled :
    (run : Message → Bytes) (always : Bool) (device : Device) (payload : Bytes) (m : Option Message)
    → IsHandled run always device payload m (handle run always device payload m)
unfolding handle
handle-IsHandled run always device payload none = (refl, refl, refl)
handle-IsHandled run always device payload (some message) = (
  refl,
  refl,
  ground (arith, is_empty_iff message.post_id),
  ground (arith, is_empty_iff message.post_id),
)

-- A payload that does not parse is neither announced nor executed nor answered. One that parses is
-- announced once and executed, and its result is posted exactly when the message has a post id and
-- postbacks are not disabled, or the executor always posts back.
pub process_message-IsHandled :
    (parse : Bytes → Option Message) (run : Message → Bytes) (always : Bool) (device : Device)
    (payload : Bytes)
    → IsHandled run always device payload
        (parse payload)
        (process_message parse run always device payload)
unfolding process_message
process_message-IsHandled parse run always device payload =
    handle-IsHandled run always device payload (parse payload)
