-- ===== src/Mqtt/AzureIotHub.antt =====
-- internal/mqtt/azure_iot_hub.go: the options of a connection to Azure IoT Hub and its SAS token.
use agent_smith_go.Base.{
  subst, sym, ◌^◌, sub_i64, wrap_i64, ℕ, ◌+◌, +ℤ_parts, -ℤ_parts, ◌*◌, ◌/◌, ◌<◌, ◌≡◌, ap, ◌∙◌,
  arith, none, List, [], ◌∷◌, ◌++◌, ℤ, pos, negsuc, ◌+ℤ◌, ◌-ℤ◌, ◌<ℤ◌, ◌≤ℤ◌, leb_ℤ, if◌then◌else◌,
  second, Bytes, codes,
}
use agent_smith_go.Interpreter.Message.{Except, done, failed, ◌>>=◌}
use agent_smith_go.Agent.Device.{Device, sas_token_lifetime, default_sas_token_lifetime}
use agent_smith_go.Service.Spool.Name.{zero_padded}
use agent_smith_go.Utils.Reconnect.{sas_token_renew_margin}
use agent_smith_go.Service.Cycle.{renew_after}
use agent_smith_go.Utils.Reconnect.Pace.{renew_margin_leaves_time}

-- encoding/base64 and crypto/hmac: the key of a text, and the encoded signature of a text.
pub record Signing : Type 0 where
  pub decode_key : Bytes → Except Bytes
  pub sign : Bytes → Bytes → Bytes

-- time.Time.Unix of a time in nanoseconds.
unfoldable pub unix_seconds : ℤ → ℤ
unix_seconds (pos n) = pos (n / 1_000_000_000)
unix_seconds (negsuc n) = negsuc (n / 1_000_000_000)

-- %d
abbrev pub int_text : ℤ → Bytes
int_text (pos n) = zero_padded 0 n
int_text (negsuc n) = b'-' ∷ zero_padded 0 (n + 1)

unfoldable pub expiration : ℤ → ℤ → ℤ
expiration now duration = unix_seconds (now +ℤ duration)

abbrev pub wrap_key : Except Bytes → Except Bytes
wrap_key (done key) = done key
wrap_key (failed e) = failed (codes "failed to decode key: " ++ e)

unfoldable pub generate_sas_token : Signing → ℤ → Bytes → Bytes → ℤ → Except Bytes
generate_sas_token signing now resource_uri key duration = do
  key_bytes ← wrap_key (signing.decode_key key)
  done (
      codes "SharedAccessSignature sr="
      ++ (resource_uri
          ++ (codes "&sig="
              ++ (signing.sign key_bytes (resource_uri ++ (10 ∷ int_text (expiration now duration)))
                  ++ (codes "&se=" ++ int_text (expiration now duration))))))

-- An unset lifetime falls back to the default.
unfoldable pub effective_lifetime : ℤ → ℤ
effective_lifetime lifetime =
    if leb_ℤ lifetime (pos 0) then default_sas_token_lifetime else lifetime

-- The options that depend on the device.
pub record ClientOptions : Type 0 where
  pub brokers : List Bytes
  pub client_id : Bytes
  pub username : Bytes
  pub password : Bytes

-- newAzureIotHubClientOptions, as NewClientOptions calls it.
unfoldable pub new_azure_iot_hub_client_options : Signing → ℤ → Device → Except ClientOptions
new_azure_iot_hub_client_options signing now d = do
  token ←
      generate_sas_token signing now (d.azure_iot_hub_host ++ (codes "/devices/" ++ d.device_id))
        d.shared_access_key (effective_lifetime (sas_token_lifetime none d))
  done (record {
    brokers =
        (codes "tls://" ++ (d.azure_iot_hub_host ++ codes ":8883"))
        ∷ (codes "wss://" ++ d.azure_iot_hub_host)
        ∷ [];
    client_id = d.device_id;
    username =
        d.azure_iot_hub_host ++ (codes "/" ++ (d.device_id ++ codes "/?api-version=2021-04-12"));
    password = token;
  })

kept_lifetime : (lifetime : ℕ) → 0 < lifetime → effective_lifetime (pos lifetime) ≡ pos lifetime
unfolding effective_lifetime
kept_lifetime lifetime h = ground arith

pos_sum : (a b : ℕ) → pos a +ℤ pos b ≡ pos (a + b)
unfolding ◌+ℤ◌
pos_sum a b = ground arith

expiration_lem :
    (now lifetime : ℕ) → expiration (pos now) (pos lifetime) ≡ pos ((now + lifetime) / second)
unfolding expiration unix_seconds
expiration_lem now lifetime = ap unix_seconds (pos_sum now lifetime)

rounded : (n : ℕ) → n < n / second * second + second
rounded n = omega arith

earlier :
    (now lifetime e : ℕ) (m : ℤ)
    → pos (60 * second) ≤ℤ m
    → now + lifetime < e + second
    → pos now +ℤ (pos lifetime -ℤ m) <ℤ pos e
earlier now lifetime e m h g =
    let a = +ℤ_parts (pos now) (pos lifetime -ℤ m) in
    let b = -ℤ_parts (pos lifetime) m in omega arith

small_difference :
    (n : ℕ) (m : ℤ) → n < 2 ^ 63 → pos 0 <ℤ m → m <ℤ pos n → sub_i64 (pos n) m ≡ pos n -ℤ m
unfolding sub_i64 wrap_i64 ◌-ℤ◌
small_difference n (pos k) h low high = ground arith
small_difference n (negsuc k) h low high = absurd (omega arith)

-- With a lifetime of more than a minute, within an int64, the renewal that runCycle plans at the time
-- `now` comes before the moment at which the token made at that time expires.
pub renewal_precedes_expiration :
    (now lifetime : ℕ)
    → 60 * second < lifetime
    → lifetime < 2 ^ 63
    → (e : ℕ) × (expiration (pos now) (effective_lifetime (pos lifetime)) ≡ pos e)
      × (pos now +ℤ renew_after (pos lifetime) <ℤ pos (e * second))
unfolding renew_after
renewal_precedes_expiration now lifetime long small =
    let margin = renew_margin_leaves_time lifetime (omega arith) in
    (
      (now + lifetime) / second,
      ap (expiration (pos now)) (kept_lifetime lifetime (omega arith))
          ∙ expiration_lem now lifetime,
      subst (λ d. pos now +ℤ d <ℤ pos ((now + lifetime) / second * second))
          (sym (
            small_difference lifetime (sas_token_renew_margin (pos lifetime)) small margin.0
              margin.1))
          (earlier now lifetime ((now + lifetime) / second * second)
            (sas_token_renew_margin (pos lifetime)) (margin.3 long) (rounded (now + lifetime))),
    )
