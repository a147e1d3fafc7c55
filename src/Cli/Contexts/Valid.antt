-- ===== src/Cli/Contexts/Valid.antt =====
-- What the checks of the config and update contexts establish (config_context.go, update_context.go).
use agent_smith_go.Base.{
  subst, ◌≡◌, ◌⊎◌, inl, inr, refl, ap, arith, Bool, true, false, not, ◌||◌, Option, none, some,
  List, [], ◌∷◌, All, ℤ, pos, negsuc, ◌<ℤ◌, Bytes, is_empty,
}
use agent_smith_go.Interpreter.Message.{done, try}
use agent_smith_go.Cli.Flags.Parse.{Scalars, Setting, parse_flags, number_value, as_number, is_set}
use agent_smith_go.Cli.Contexts.{
  CommonFlags, parsed_flags, common_flags, is_allowed_level, is_bad_qos, check_common, config_of,
  new_config_context, config_defs, ConfigContext, update_of, new_update_context, update_defs,
}
use agent_smith_go.Cli.Contexts.Chains.{
  is_false, require_holds, and_then_done, bind_done, done_injective, value_of_unset,
}
use agent_smith_go.Cli.Contexts.Tuning.{
  TuningFlags, tuning_flag_unset, tuning_value, tuning_of, tuning_checks, first_bad, validate,
}

-- An omitted flag or a positive number.
abbrev pub IsTuned : ℤ → Type 0
IsTuned v = (v ≡ tuning_flag_unset) ⊎ (pos 0 <ℤ v)

pub record IsTuning (t : TuningFlags) : Type 0 where
  pub connect : IsTuned t.mqtt_connect_timeout_seconds
  pub subscribe : IsTuned t.mqtt_subscribe_timeout_seconds
  pub workers : IsTuned t.worker_count
  pub queue : IsTuned t.message_queue_size
  pub attempts : IsTuned t.postback_max_attempts
  pub backoff : IsTuned t.postback_base_retry_backoff_seconds
  pub command : IsTuned t.command_timeout_seconds
  pub lifetime : IsTuned t.sas_token_lifetime_hours
  pub output : IsTuned t.max_output_bytes

-- A quality of service that was omitted, or 0 or 1.
abbrev pub IsQos : ℤ → Type 0
IsQos q = (q ≡ negsuc 0) ⊎ ((q ≡ pos 0) ⊎ (q ≡ pos 1))

pub record IsValid (c : CommonFlags) : Type 0 where
  pub org : is_empty c.org_id ≡ false
  pub level : is_allowed_level c.logging_level ≡ true
  pub qos : IsQos c.mqtt_qos
  pub tuned : IsTuning c.tuning
  pub credentials : (is_empty c.service_password ≡ true) ⊎ (is_empty c.service_username ≡ false)

first_bad-none :
    (l : List Setting) (cs : List (Bytes × ℤ))
    → first_bad l cs ≡ none
    → All (λ (c : Bytes × ℤ). (is_set c.0 l ≡ false) ⊎ (pos 0 <ℤ c.1)) cs
unfolding first_bad
first_bad-none l [] h = tt
first_bad-none l ((name, value) ∷ cs) h = ground (arith, first_bad-none l cs)

IsTuned-value :
    (name : Bytes) (l : List Setting)
    → (is_set name l ≡ false) ⊎ (pos 0 <ℤ tuning_value name l)
    → IsTuned (tuning_value name l)
unfolding tuning_value as_number
IsTuned-value name l (inl h) = inl (
    ap (λ v. as_number v tuning_flag_unset)
      (value_of_unset name (number_value tuning_flag_unset) l h))
IsTuned-value name l (inr h) = inr h

tuning_of-IsTuning : (l : List Setting) → validate (tuning_of l) l ≡ none → IsTuning (tuning_of l)
unfolding validate tuning_of
tuning_of-IsTuning l h =
    let r = first_bad-none l (tuning_checks (tuning_of l)) h in
    record {
      connect = IsTuned-value _ l (r.0);
      subscribe = IsTuned-value _ l (r.1.0);
      workers = IsTuned-value _ l (r.1.1.0);
      queue = IsTuned-value _ l (r.1.1.1.0);
      attempts = IsTuned-value _ l (r.1.1.1.1.0);
      backoff = IsTuned-value _ l (r.1.1.1.1.1.0);
      command = IsTuned-value _ l (r.1.1.1.1.1.1.0);
      lifetime = IsTuned-value _ l (r.1.1.1.1.1.1.1.0);
      output = IsTuned-value _ l (r.1.1.1.1.1.1.1.1.0);
    }

good-IsQos : (q : ℤ) → is_bad_qos q ≡ false → IsQos q
unfolding is_bad_qos
good-IsQos q h = ground arith

either_holds : (a b : Bool) → (a || not b) ≡ true → (a ≡ true) ⊎ (b ≡ false)
either_holds true b h = inl refl
either_holds false b h = inr (is_false b h)

try_done : (o : Option Bytes) → try o ≡ done tt → o ≡ none
try_done none h = refl
try_done (some e) h = absurd cc

checked-IsValid :
    (l : List Setting)
    → is_empty (common_flags l).org_id ≡ false
    → check_common (common_flags l) l ≡ done tt
    → IsValid (common_flags l)
unfolding check_common common_flags
checked-IsValid l full h =
    let level = and_then_done _ _ tt h in
    let qos = and_then_done _ _ tt level.1 in
    let tuned = and_then_done _ _ tt qos.1 in
    record {
      org = full;
      level = require_holds _ _ level.0;
      qos = good-IsQos _ (is_false _ (require_holds _ _ qos.0));
      tuned = tuning_of-IsTuning l (try_done _ tuned.0);
      credentials = either_holds _ _ (require_holds _ _ tuned.1);
    }

-- Every configuration context that the command line yields is valid: it has an org id, a configuration
-- URL and a secret, an allowed logging level, a quality of service that is omitted, 0 or 1, tuning
-- numbers that are omitted or positive, and no service password without a user name.
pub new_config_context-IsValid :
    (scalars : Scalars) (args : List Bytes) (c : ConfigContext)
    → new_config_context scalars args ≡ done c
    → IsValid c.common × ((is_empty c.config_url ≡ false) × (is_empty c.config_secret ≡ false))
unfolding new_config_context config_of
new_config_context-IsValid scalars args c h =
    let read = bind_done (parsed_flags (parse_flags scalars config_defs args)) config_of c h in
    let l = read.0 in
    let org = and_then_done _ _ c read.2 in
    let url = and_then_done _ _ c org.1 in
    let secret = and_then_done _ _ c url.1 in
    let good = and_then_done _ _ c secret.1 in
    let valid = checked-IsValid l (is_false _ (require_holds _ _ org.0)) good.0 in
    let same = done_injective _ c good.1 in
    subst
      (λ (x : ConfigContext).
        IsValid x.common × ((is_empty x.config_url ≡ false) × (is_empty x.config_secret ≡ false)))
      same (valid, (is_false _ (require_holds _ _ url.0), is_false _ (require_holds _ _ secret.0)))

-- Every update context that the command line yields is valid in the same sense.
pub new_update_context-IsValid :
    (scalars : Scalars) (args : List Bytes) (c : CommonFlags)
    → new_update_context scalars args ≡ done c
    → IsValid c
unfolding new_update_context update_of
new_update_context-IsValid scalars args c h =
    let read = bind_done (parsed_flags (parse_flags scalars update_defs args)) update_of c h in
    let l = read.0 in
    let org = and_then_done _ _ c read.2 in
    let asked = and_then_done _ _ c org.1 in
    let good = and_then_done _ _ c asked.1 in
    subst IsValid (done_injective _ c good.1)
      (checked-IsValid l (is_false _ (require_holds _ _ org.0)) good.0)
