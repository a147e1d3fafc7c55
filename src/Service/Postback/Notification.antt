-- ===== src/Service/Postback/Notification.antt =====
-- The size of a forwarded notification (cmd/agent_smith/service.go).
use agent_smith_go.Base.{
  ℕ, zero, suc, ◌^◌, ◌/◌, ◌%◌, ◌≤◌, ◌≡◌, refl, arith, true, ◌++◌, leb, length, take, length-append,
  length-take, Bytes, codes, Bool-cases, inl, inr,
}
use agent_smith_go.Service.Spool.Name.{digits, digit_count}
use agent_smith_go.Service.Postback.{
  decimal, build_received_message_notification, max_notification_payload_bytes,
}

shortened :
    (d payload : Bytes)
    → length d ≤ 19
    → length (
        codes "AgentReceivedMessage:"
        ++ (codes "[truncated "
            ++ (d ++ (codes " bytes] " ++ take max_notification_payload_bytes payload))))
      ≤ 4155
shortened d payload h = omega (
  arith,
  length-append d (codes " bytes] " ++ take max_notification_payload_bytes payload),
  length-take max_notification_payload_bytes payload,
)

verbatim :
    (payload : Bytes)
    → leb (length payload) max_notification_payload_bytes ≡ true
    → length (codes "AgentReceivedMessage:" ++ payload) ≤ 4155
verbatim payload h = ground (arith, length-append (codes "AgentReceivedMessage:") payload)

length-digits : (w n : ℕ) → length (digits w n) ≡ w
unfolding digits
length-digits zero n = refl
length-digits (suc w) n = ground (arith, length-digits w (n % 10 ^ w))

digit_count_le : (fuel n : ℕ) → digit_count fuel n ≤ fuel
unfolding digit_count
digit_count_le zero n = omega arith
digit_count_le (suc fuel) n = ground (arith, digit_count_le fuel (n / 10))

-- However large the payload, the notification has at most 4155 bytes: the 4096 of the prefix of the
-- payload and 59 of text, in which the length takes 19 digits or fewer.
pub length-build_received_message_notification :
    (payload : Bytes) → length (build_received_message_notification payload) ≤ 4155
unfolding build_received_message_notification
length-build_received_message_notification payload =
    elim (Bool-cases (leb (length payload) max_notification_payload_bytes)) [
      | inl h ↦ rw h (verbatim payload h)
      | inr h ↦ rw h (
          shortened (decimal (length payload)) payload (
            omega (
              arith,
              length-digits (digit_count 19 (length payload)) (length payload),
              digit_count_le 19 (length payload),
            )))
    ]
