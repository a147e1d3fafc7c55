-- ===== src/Cli/UsageText.antt =====
-- The texts of cmd/agent_smith/usage.go.
pub mod Complete
use agent_smith_go.Base.{
  ℕ, ◌-◌, Bool, true, false, ◌&&◌, Option, none, some, List, [], ◌∷◌, ◌++◌, leb, if◌then◌else◌,
  Bytes, codes,
}
use agent_smith_go.Cli.Flags.{
  OperationalMode, diagnostic, uninstall, config, service, update, operational_modes,
}
use agent_smith_go.Cli.Dispatch.{Usage, help, mode_usage, hint}

-- flag.PrintDefaults for the flags of a mode, and the allowed logging levels between bars, in the
-- order in which the map gives them.
pub record Rendering : Type 0 where
  pub render_flag_defaults : OperationalMode → Bytes
  pub allowed_levels : Bytes

unfoldable pub mode_name : OperationalMode → Bytes
mode_name diagnostic = codes "diagnostic"
mode_name uninstall = codes "uninstall"
mode_name config = codes "config"
mode_name service = codes "service"
mode_name update = codes "update"

unfoldable pub config_flags_list : Bytes → Bytes
config_flags_list levels =
    codes "[--logging-level "
    ++ (levels
        ++ codes
            "] [--syslog] [--disable-agent-postback] [--no-auto-updates] [--mqtt-qos 0|1] [--mqtt-connect-timeout-seconds <N>] [--worker-count <N>] [--message-queue-size <N>] [--postback-max-attempts <N>] [--postback-base-retry-backoff-seconds <N>] [--command-timeout-seconds <N>] [--service-username <USER>] [--service-password <PASS>]")

unfoldable pub mode_summary : Bytes → OperationalMode → Bytes
unfolding config_flags_list
mode_summary levels diagnostic = codes "--org-id <ORG_ID> --diagnostic"
mode_summary levels uninstall = codes "--org-id <ORG_ID> --uninstall"
mode_summary levels config =
    codes "--org-id <ORG_ID> --config-url <CONFIG URL> --config-secret <CONFIG SECRET> "
    ++ config_flags_list levels
mode_summary levels service =
    codes "--org-id <ORG_ID> --config-file <CONFIG FILE> --log-file <LOG FILE>"
mode_summary levels update = codes "--org-id <ORG_ID> --update " ++ config_flags_list levels

-- strings.ToUpper of the first byte, which is an ASCII letter.
unfoldable pub capitalize : Bytes → Bytes
capitalize [] = []
capitalize (c ∷ s) = (if leb b'a' c && leb c b'z' then c - 32 else c) ∷ s

unfoldable pub mode_usage_text : Rendering → OperationalMode → Bytes
unfolding mode_name mode_summary
mode_usage_text r mode =
    codes "Usage ("
    ++ (mode_name mode
        ++ (codes " mode):\n  rewst_agent_config "
            ++ (mode_summary r.allowed_levels mode
                ++ (codes "\n\nFlags:\n" ++ r.render_flag_defaults mode))))

-- One line for each mode.
unfoldable pub summary_lines : Rendering → List OperationalMode → Bytes
unfolding mode_summary
summary_lines r [] = []
summary_lines r (mode ∷ modes) =
    codes "  rewst_agent_config "
    ++ (mode_summary r.allowed_levels mode ++ (codes "\n" ++ summary_lines r modes))

unfoldable pub flag_sections : Rendering → List OperationalMode → Bytes
unfolding mode_name capitalize
flag_sections r [] = []
flag_sections r (mode ∷ modes) =
    codes "\n"
    ++ (capitalize (mode_name mode)
        ++ (codes " mode:\n" ++ (r.render_flag_defaults mode ++ flag_sections r modes)))

unfoldable pub full_usage : Rendering → Bytes
unfolding summary_lines flag_sections
full_usage r =
    codes "Usage:\n" ++ (summary_lines r operational_modes ++ flag_sections r operational_modes)

abbrev error_line : Option Bytes → Bytes
error_line none = []
error_line (some e) = codes "error: " ++ (e ++ codes "\n\n")

-- What reportUsage writes, on standard output and on standard error.
unfoldable pub usage_output : Rendering → Usage → Bytes × Bytes
unfolding full_usage mode_usage_text
usage_output r help = (full_usage r, [])
usage_output r (mode_usage mode error) = ([], error_line error ++ mode_usage_text r mode)
usage_output r hint = ([], full_usage r ++ codes "\nRun with --help for detailed usage.\n")
