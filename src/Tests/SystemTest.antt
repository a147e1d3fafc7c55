-- ===== src/Tests/SystemTest.antt =====
-- A registration on Linux, and the start of the service.
use agent_smith_go.Base.{
  Option, pos, second, hour, ◌*◌, ◌+ℤ◌, ◌<ℤ◌, arith, eq_bytes, ℕ, ◌≡◌, refl, ap, ◌∙◌, arith, Bool,
  true, false, none, some, ◌==◌, List, [], ◌∷◌, ◌++◌, Bytes, codes, ◌&&◌,
}
use agent_smith_go.Interpreter.Message.{done}
use agent_smith_go.Cli.Flags.{service}
use agent_smith_go.Cli.Flags.Parse.{Scalars}
use agent_smith_go.Cli.Contexts.{new_service_context}
use agent_smith_go.Cli.Dispatch.{dispatch}
use agent_smith_go.Service.Startup.{Launching, execute_service}
use agent_smith_go.Service.Startup.Nested.{IsNested, execute_service-IsNested}
use agent_smith_go.System.{AgentParams}
use agent_smith_go.Service.Cycle.{renew_after}
use agent_smith_go.Mqtt.AzureIotHub.{expiration, effective_lifetime, renewal_precedes_expiration}
use agent_smith_go.System.Linux.{exec_start}
use agent_smith_go.Base.{split_byte, trim_space, trim_left, trim_right}
use agent_smith_go.System.Darwin.{reports_running, any_running}
use agent_smith_go.System.Starts.{registered_context}
use agent_smith_go.System.Linux.Words.{
  is_plain_byte, IsSplitter, IsStarter, all_plain, unwords, linux_service_starts,
}
use agent_smith_go.Tests.Sample.{device}

abbrev scalars : Scalars
scalars = record { parse_int = λ s. none; parse_bool = λ s. none }

abbrev params : AgentParams
params = record {
  name = codes "agent";
  agent_executable_path = codes "/usr/local/bin/agent_smith.linux.bin";
  org_id = codes "--update";
  config_file_path = codes "/etc/config.json";
  log_file_path = codes "/etc/agent.log";
  service_username = [];
  service_password = [];
}

-- A byte in front of the words of the rest.
abbrev put : Bool → Bytes → List Bytes → List Bytes
put true c ws = [] ∷ ws
put false c [] = c ∷ []
put false c (w ∷ ws) = (c ++ w) ∷ ws

-- The words between the blanks.
unfoldable split_blanks : Bytes → List Bytes
split_blanks [] = [] ∷ []
split_blanks (c ∷ s) = let rest = split_blanks s in put (c == b' ') (c ∷ []) rest

not_blank : (c : ℕ) → is_plain_byte c ≡ true → (c == b' ') ≡ false
not_blank c h = ground arith

halves : (a b : Bool) → (a && b) ≡ true → (a ≡ true) × (b ≡ true)
halves true b h = (refl, h)
halves false b h = absurd cc

split_word :
    (w s : Bytes) → all_plain w ≡ true → split_blanks (w ++ (b' ' ∷ s)) ≡ w ∷ split_blanks s
unfolding split_blanks all_plain
split_word [] s h = refl
split_word (c ∷ w) s h =
    let (first, rest) = halves _ _ h in
    ap (λ b. put b (c ∷ []) (split_blanks (w ++ (b' ' ∷ s)))) (not_blank c first)
    ∙ ap (put false (c ∷ [])) (split_word w s rest)

split_last : (w : Bytes) → all_plain w ≡ true → split_blanks w ≡ w ∷ []
unfolding split_blanks all_plain
split_last [] h = refl
split_last (c ∷ w) h =
    let (first, rest) = halves _ _ h in
    ap (λ b. put b (c ∷ []) (split_blanks w)) (not_blank c first)
    ∙ ap (put false (c ∷ [])) (split_last w rest)

split_blanks-IsSplitter : IsSplitter split_blanks
split_blanks-IsSplitter = ((λ w h. split_last w h.1), λ w v ws h g. split_word w (unwords v ws) h.1)

abbrev first_word : List Bytes → Option (Bytes × List Bytes)
first_word [] = none
first_word (w ∷ ws) = some (w, ws)

abbrev start_line : Bytes → Option (Bytes × List Bytes)
start_line line = first_word (split_blanks line)

start_line-IsStarter : IsStarter split_blanks start_line
start_line-IsStarter line path ws e = ap first_word e

linux_service_starts_example :
    (args : List Bytes) × (start_line (exec_start params)
      ≡ some (params.agent_executable_path, args))
    × (dispatch scalars args ≡ some service)
    × (new_service_context scalars args ≡ done (registered_context params))
unfolding all_plain
linux_service_starts_example =
    linux_service_starts split_blanks start_line scalars params
      (codes "usr/local/bin/agent_smith.linux.bin") split_blanks-IsSplitter start_line-IsStarter
      refl (refl, refl) (refl, refl) (refl, refl) (refl, refl)

abbrev pub launching : Launching
launching = record {
  org_id = codes "7";
  config = done device;
  log_fails = false;
  syslog_fails = false;
  plugin_count = 2;
  loop_exit = 1;
}

execute_service-IsNested_example : IsNested (execute_service launching)
execute_service-IsNested_example = execute_service-IsNested launching

-- launchctl prints the state among other lines.
launched : reports_running (done (codes "agent = {\n\tpid = 7\n\tstate = running\n}")) ≡ true
unfolding any_running split_byte trim_space trim_left trim_right eq_bytes
launched = refl

-- The default lifetime, on 2025-01-01.
renewal_precedes_expiration_example :
    (e : ℕ) × (expiration (pos (1_735_689_600 * second)) (effective_lifetime (pos (24 * hour)))
      ≡ pos e)
    × (pos (1_735_689_600 * second) +ℤ renew_after (pos (24 * hour)) <ℤ pos (e * second))
renewal_precedes_expiration_example =
    renewal_precedes_expiration (1_735_689_600 * second) (24 * hour) (omega arith) (omega arith)
