-- ===== src/Service/Postback.antt =====
-- The postback of a result and the handling of a message (cmd/agent_smith/service.go).
pub mod Attempt
pub mod Delivery
pub mod Handled
pub mod Notification
use agent_smith_go.Base.{
  ℕ, zero, suc, ◌+◌, ◌-◌, Bool, true, false, not, ◌&&◌, ◌||◌, Option, none, some, List, [], ◌∷◌,
  ◌++◌, ℤ, pos, pos_part, ltb, leb, ltb_ℤ, leb_ℤ, ◌==◌, if◌then◌else◌, Bytes, codes, is_empty,
  contains, length, take,
}
use agent_smith_go.Agent.Device.{
  Device, default_postback_max_attempts, default_postback_base_retry_backoff,
  default_postback_max_retry_backoff,
}
use agent_smith_go.Interpreter.Message.{Message}
use agent_smith_go.Service.Backoff.{postback_retry_backoff}
use agent_smith_go.Service.Spool.{
  SpoolEntry, PostbackSpool, Codec, Disk, EnqueueError, enqueue, flush,
}
use agent_smith_go.Service.Spool.Name.{digits, digit_count}

-- What json.Unmarshal leaves in an errorResponse, and whether it returned no error.
pub record ErrorResponse : Type 0 where
  pub error : Bytes
  pub parsed : Bool

-- strings.ToLower and json.Unmarshal into an errorResponse.
pub record Reader : Type 0 where
  pub to_lower : Bytes → Bytes
  pub parse : Bytes → ErrorResponse

-- How CreatePostbackRequest, HTTPClient.Do and io.ReadAll went in one attempt.
pub data Exchange : Type 0 where
  not_created not_sent not_read : Exchange
  responded : ℕ → Bytes → Exchange

pub data PostbackError : Type 0 where
  request_error send_error read_error : PostbackError
  status_error : ℕ → Bytes → PostbackError

-- The tests of attemptPostback on a response other than 200.
unfoldable pub judge : Reader → ℕ → ErrorResponse → Bool × Option PostbackError
judge reader status response =
    if response.parsed
      && status == 400
      && contains (reader.to_lower response.error) (codes "fulfilled")
    then (true, none)
    else if leb 500 status || not response.parsed
    then (false, some (status_error status response.error))
    else (true, some (status_error status response.error))

-- Whether to stop retrying, and the error.
unfoldable pub attempt_postback : Reader → Exchange → Bool × Option PostbackError
attempt_postback reader not_created = (true, some request_error)
attempt_postback reader not_sent = (false, some send_error)
attempt_postback reader not_read = (false, some read_error)
attempt_postback reader (responded status body) =
    if status == 200 then (true, none) else judge reader status (reader.parse body)

-- What a service context and its surroundings give to sendPostbackWithRetry: the exchange of each
-- attempt, whether ctx is done before the wait in front of it is over, and its jitter.
pub record Surroundings : Type 0 where
  pub max_attempts : ℤ
  pub base_retry_backoff : ℤ
  pub reader : Reader
  pub exchange : ℕ → Exchange
  pub cancelled : ℕ → Bool
  pub draw : ℕ → ℤ → ℤ

pub data Ending : Type 0 where
  resolved aborted exhausted : Ending

-- The delays between the attempts, how many attempts were made, and how the loop ended.
pub record Trip : Type 0 where
  pub waits : List ℤ
  pub attempts : ℕ
  pub ending : Ending

-- The delay in front of an attempt, none in front of the first.
unfoldable pub wait_before : Surroundings → ℕ → List ℤ
wait_before env attempt =
    if ltb 1 attempt
    then postback_retry_backoff (env.draw attempt) env.base_retry_backoff
        default_postback_max_retry_backoff attempt
      ∷ []
    else []

-- The loop, from `attempt` on with `left` attempts to go.
unfoldable pub attempt_loop : Surroundings → ℕ → ℕ → Trip
attempt_loop env zero attempt = record { waits = []; attempts = attempt - 1; ending = exhausted }
attempt_loop env (suc left) attempt =
    let rest = attempt_loop env left (suc attempt) in
    let wait = wait_before env attempt in
    if ltb 1 attempt && env.cancelled attempt
    then record { waits = wait; attempts = attempt - 1; ending = aborted }
    else if (attempt_postback env.reader (env.exchange attempt)).0
    then record { waits = wait; attempts = attempt; ending = resolved }
    else record rest { waits = wait ++ rest.waits }

-- maxAttempts behind the check of its lower bound.
unfoldable pub allowed_attempts : Surroundings → ℕ
allowed_attempts env =
    pos_part
      (if ltb_ℤ env.max_attempts (pos 1) then default_postback_max_attempts else env.max_attempts)

unfoldable pub postback_trip : Surroundings → Trip
postback_trip env =
    let base =
      if leb_ℤ env.base_retry_backoff (pos 0)
      then default_postback_base_retry_backoff
      else env.base_retry_backoff in
    attempt_loop (record env { base_retry_backoff = base }) (allowed_attempts env) 1

-- svc.spool with what its calls use, or none: the postbacks are then not kept.
pub record Shelf : Type 0 where
  pub codec : Codec
  pub disk : Disk
  pub now : ℤ
  pub spool : PostbackSpool

-- The notifications, the trip, and the spool behind the call with what its enqueue returned.
pub record Delivered : Type 0 where
  pub notified : List Bytes
  pub trip : Trip
  pub spool : Option (PostbackSpool × Option EnqueueError)

shelve : Bytes → Bytes → Shelf → PostbackSpool × Option EnqueueError
shelve post_id bytes shelf =
    enqueue shelf.codec shelf.disk shelf.now
      (record { post_id = post_id; result = bytes; created_at = shelf.now }) shelf.spool

unfoldable pub after_loop : Bytes → Bytes → Option Shelf → Trip → Ending → Delivered
unfolding shelve
after_loop post_id bytes none trip exhausted = record {
  notified = (codes "AgentPostbackFailed:" ++ post_id) ∷ [];
  trip = trip;
  spool = none;
}
after_loop post_id bytes (some shelf) trip exhausted = record {
  notified = (codes "AgentPostbackFailed:" ++ post_id) ∷ [];
  trip = trip;
  spool = some (shelve post_id bytes shelf);
}
after_loop post_id bytes none trip _ = record { notified = []; trip = trip; spool = none }
after_loop post_id bytes (some shelf) trip _ = record {
  notified = [];
  trip = trip;
  spool = some (shelf.spool, none);
}

unfoldable pub send_postback_with_retry : Surroundings → Bytes → Bytes → Option Shelf → Delivered
send_postback_with_retry env post_id bytes shelf =
    let trip = postback_trip env in after_loop post_id bytes shelf trip trip.ending

-- flushPostbackSpool: one attempt for each entry, whose exchange depends on the entry.
unfoldable pub flush_postback_spool :
    Reader
    → (SpoolEntry → Exchange)
    → (ℕ → Bool)
    → Option Shelf
    → List SpoolEntry × Option PostbackSpool
flush_postback_spool reader exchange cancelled none = ([], none)
flush_postback_spool reader exchange cancelled (some shelf) =
    let (sent, spool) =
      flush shelf.codec shelf.disk shelf.now cancelled
        (λ (e : SpoolEntry). (attempt_postback reader (exchange e)).0) shelf.spool in
    (sent, some spool)

abbrev pub max_notification_payload_bytes : ℕ
max_notification_payload_bytes = 4096

-- %d of a length, which is below 2^63.
abbrev pub decimal : ℕ → Bytes
decimal n = digits (digit_count 19 n) n

unfoldable pub build_received_message_notification : Bytes → Bytes
build_received_message_notification payload =
    if leb (length payload) max_notification_payload_bytes
    then codes "AgentReceivedMessage:" ++ payload
    else codes "AgentReceivedMessage:"
      ++ (codes "[truncated "
          ++ (decimal (length payload)
              ++ (codes " bytes] " ++ take max_notification_payload_bytes payload)))

-- What processMessage does with a payload.
pub record Handling : Type 0 where
  pub notified : List Bytes
  pub executed : Option Message
  pub sent : Option Bytes  -- the result handed to sendPostbackWithRetry

-- processMessage behind Message.Parse: `run` is Message.Execute, `always` is AlwaysPostback.
unfoldable pub handle : (Message → Bytes) → Bool → Device → Bytes → Option Message → Handling
handle run always device payload none = record { notified = []; executed = none; sent = none }
handle run always device payload (some message) =
    let silent = is_empty message.post_id || (device.disable_agent_postback && not always) in
    record {
      notified = build_received_message_notification payload ∷ [];
      executed = some message;
      sent = if silent then none else some (run message);
    }

-- `parse` is Message.Parse.
unfoldable pub process_message :
    (Bytes → Option Message) → (Message → Bytes) → Bool → Device → Bytes → Handling
process_message parse run always device payload = handle run always device payload (parse payload)
