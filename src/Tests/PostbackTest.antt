-- ===== src/Tests/PostbackTest.antt =====
-- Postbacks against engines that fail, recover or accept.
use agent_smith_go.Base.{
  ℕ, suc, ◌≡◌, ◌≤◌, ◌<◌, ◌↔◌, refl, arith, false, not, none, some, [], ℤ, pos, codes, Bytes, leb,
  is_empty, if◌then◌else◌,
}
use agent_smith_go.Interpreter.Message.{Message}
use agent_smith_go.Service.Postback.{
  ErrorResponse, Reader, Exchange, not_sent, responded, Surroundings, Shelf, postback_trip,
  allowed_attempts, attempt_postback, judge, send_postback_with_retry,
}
use agent_smith_go.Service.Postback.Attempt.{Transient, Accepted, attempt_postback_lem}
use agent_smith_go.Service.Postback.Delivery.{Course, done_at, postback_trip-Course}
use agent_smith_go.Service.Postback.Delivery.Kept.{
  IsKept, entry_of, send_postback_with_retry-IsKept, send_postback_with_retry-settled,
}
use agent_smith_go.Tests.Sample.{codec, disk, spool}

-- An empty body does not parse; any other is taken as the error text.
abbrev parse : Bytes → ErrorResponse
parse body = record { error = body; parsed = not (is_empty body) }

abbrev reader : Reader
reader = record { to_lower = λ s. s; parse = parse }

abbrev steady : ℕ → ℤ → ℤ
steady k x = pos 0

abbrev engine : (ℕ → Exchange) → Surroundings
engine exchange = record {
  max_attempts = pos 3;
  base_retry_backoff = pos 0;
  reader = reader;
  exchange = exchange;
  cancelled = λ k. false;
  draw = steady;
}

-- Busy twice, then well.
abbrev recovering : ℕ → Exchange
recovering k = if leb k 2 then responded 503 [] else responded 200 []

abbrev shelf : Shelf
shelf = record { codec = codec; disk = disk; now = pos 2000; spool = spool }

attempt_postback_lem_example :
    (((attempt_postback reader (responded 204 [])).0 ≡ false) ↔ Transient reader (responded 204 []))
    × (((attempt_postback reader (responded 204 [])).1 ≡ none) ↔ Accepted reader (responded 204 []))
attempt_postback_lem_example = attempt_postback_lem reader (responded 204 [])

postback_trip-Course_example :
    let t = postback_trip (engine recovering) in
    (1 ≤ t.attempts)
    × (t.attempts ≤ allowed_attempts (engine recovering))
    × Course
        (done_at (engine recovering))
        (λ k. false)
        1
        (suc (allowed_attempts (engine recovering)))
        t.attempts
        t.ending
postback_trip-Course_example = postback_trip-Course (engine recovering)

send_postback_with_retry-IsKept_example :
    IsKept
      (codes "p")
      shelf
      disk
      (entry_of (codes "p") (codes "r") shelf)
      (send_postback_with_retry (engine (λ k. not_sent)) (codes "p") (codes "r") (some shelf))
unfolding attempt_postback
send_postback_with_retry-IsKept_example =
    send_postback_with_retry-IsKept (engine (λ k. not_sent)) (codes "p") (codes "r") (codes "p")
      shelf disk (λ k a b. refl) (λ k a b. refl) ((λ n. refl), refl, refl, refl) refl refl

busy : (k : ℕ) → 1 ≤ k → k < 3 → done_at (engine recovering) k ≡ false
unfolding attempt_postback judge
busy k a b = ground arith

send_postback_with_retry-settled_example :
    let d = send_postback_with_retry (engine recovering) (codes "p") (codes "r") (some shelf) in
    ((postback_trip (engine recovering)).attempts ≡ 3)
    × (d.notified ≡ [])
    × (d.spool ≡ some (spool, none))
unfolding attempt_postback allowed_attempts
send_postback_with_retry-settled_example =
    send_postback_with_retry-settled (engine recovering) (codes "p") (codes "r") shelf 3
      (omega arith) (omega arith) busy refl (λ i a b. refl)

abbrev message : Message
message = record {
  post_id = codes "org:p";
  commands = codes "bHM=";
  interpreter_override = [];
  get_installation = false;
  kind = [];
  content = [];
}
