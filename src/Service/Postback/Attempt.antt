-- ===== src/Service/Postback/Attempt.antt =====
-- The verdicts of attemptPostback (cmd/agent_smith/service.go).
use agent_smith_go.Base.{ℕ, ◌≤◌, ◌≡◌, ◌≢◌, ◌↔◌, ◌⊎◌, arith, true, false, none, contains, codes}
use agent_smith_go.Service.Postback.{
  ErrorResponse, Reader, Exchange, not_created, not_sent, not_read, responded, judge,
  attempt_postback,
}

-- The exchanges after which a later attempt may do better.
abbrev pub Transient : Reader → Exchange → Type 0
Transient reader not_created = ⊥
Transient reader not_sent = Unit
Transient reader not_read = Unit
Transient reader (responded status body) =
    (status ≢ 200) × ((500 ≤ status) ⊎ ((reader.parse body).parsed ≡ false))

-- The exchanges by which the engine has the result.
abbrev pub Accepted : Reader → Exchange → Type 0
Accepted reader (responded status body) =
    (status ≡ 200)
    ⊎ ((status ≡ 400)
        × ((reader.parse body).parsed ≡ true)
        × (contains (reader.to_lower (reader.parse body).error) (codes "fulfilled") ≡ true))
Accepted reader _ = ⊥

judge_retries :
    (reader : Reader) (status : ℕ) (r : ErrorResponse)
    → status ≢ 200
    → ((judge reader status r).0 ≡ false) ↔ ((status ≢ 200) × ((500 ≤ status) ⊎ (r.parsed ≡ false)))
unfolding judge
judge_retries reader status r n = ground arith

judge_accepts :
    (reader : Reader) (status : ℕ) (r : ErrorResponse)
    → status ≢ 200
    → ((judge reader status r).1 ≡ none) ↔ (
        (status ≡ 200)
        ⊎ ((status ≡ 400)
            × (r.parsed ≡ true)
            × (contains (reader.to_lower r.error) (codes "fulfilled") ≡ true)))
unfolding judge
judge_accepts reader status r n = ground arith

-- An attempt is retried exactly when the exchange was transient: the request could not be sent, the
-- body could not be read, or a response other than 200 had a status of 500 or more or a body that
-- does not parse. No error is reported exactly when the engine accepted the result, or says so with a
-- 400 whose error names it fulfilled.
pub attempt_postback_lem :
    (reader : Reader) (x : Exchange)
    → (((attempt_postback reader x).0 ≡ false) ↔ Transient reader x)
      × (((attempt_postback reader x).1 ≡ none) ↔ Accepted reader x)
unfolding attempt_postback
attempt_postback_lem reader not_created = ground arith
attempt_postback_lem reader not_sent = ground arith
attempt_postback_lem reader not_read = ground arith
attempt_postback_lem reader (responded status body) = ground (
  arith,
  judge_retries reader status (reader.parse body),
  judge_accepts reader status (reader.parse body),
)
