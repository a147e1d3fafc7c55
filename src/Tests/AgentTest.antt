-- ===== src/Tests/AgentTest.antt =====
-- Resolved settings and an update on sample data.
use agent_smith_go.Base.{
  ◌≡◌, refl, arith, false, none, some, [], ◌∷◌, pos, codes, Bytes, second, ◌<ℤ◌, eq_bytes,
  has_suffix,
}
use agent_smith_go.Agent.Device.{sas_token_lifetime}
use agent_smith_go.Agent.Device.Settings.{sas_token_lifetime_overflows}
use agent_smith_go.Interpreter.Message.{done}
use agent_smith_go.Agent.Updater.{
  Asset, Release, linux, update_args, run, update_to, select_asset, install,
}
use agent_smith_go.Agent.Updater.Leftovers.{IsInstalled, run-IsInstalled}
use agent_smith_go.Agent.Updater.Runner.{Schedule, panicked, tick_loop, tick_loop_goes_on}
use agent_smith_go.Tests.Sample.{device}

sas_token_lifetime_overflows_example :
    sas_token_lifetime none (record device { sas_token_lifetime_hours = some (pos 3_000_000) })
    <ℤ pos 0
sas_token_lifetime_overflows_example =
    sas_token_lifetime_overflows (record device { sas_token_lifetime_hours = some (pos 3_000_000) })
      3_000_000 refl (omega arith) (omega arith)

abbrev asset : Bytes → Asset
asset name = record { id = pos 1; name = name; url = codes "https://example" }

abbrev release : Release
release = record {
  id = pos 1;
  tag_name = codes "v2";
  assets = asset (codes "agent.win.exe") ∷ asset (codes "agent.linux.bin") ∷ [];
}

run-IsInstalled_example :
    IsInstalled linux
      (λ a. done (codes "/tmp/i"))
      (λ p args. none)
      (codes "v1")
      device
      release
      (codes "/tmp/i")
      (update_args device)
unfolding run update_to select_asset install eq_bytes has_suffix
run-IsInstalled_example =
    run-IsInstalled linux release (λ a. done (codes "/tmp/i")) (λ p args. none) (codes "v1") device
      (codes "/tmp/i") (update_args device) refl

-- Every update panics, and so does every retry.
abbrev broken : Schedule
broken = record {
  base_backoff = pos second;
  max_retries = 3;
  stops = λ i. false;
  update = λ i. panicked (codes "nil");
  stops_retry = λ i k. false;
  retry = λ i k. panicked (codes "nil");
}

tick_loop_goes_on_example : tick_loop broken 5 0 ≡ record { ticks = 5; over = false }
tick_loop_goes_on_example = tick_loop_goes_on broken 5 (λ k h. refl) (λ k j a b. refl)
