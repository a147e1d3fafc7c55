-- ===== src/Agent/Updater/Defaults.antt =====
-- The defaults of internal/agent/updater.go, which the linker may override.
use agent_smith_go.Base.{
  arith, Option, none, some, ℤ, pos, ltb_ℤ, ◌<ℤ◌, if◌then◌else◌, Bytes, is_empty, if_holds,
  trim_left,
}
use agent_smith_go.Agent.Updater.{
  default_update_interval, default_base_backoff, default_max_retries,
}
use agent_smith_go.Utils.Sscanf.{scan_int}

abbrev parsed_or : ℤ → Option ℤ → ℤ
parsed_or d none = d
parsed_or d (some n) = n

-- time.ParseDuration reads the text of the linker.
abbrev overridden : (Bytes → Option ℤ) → ℤ → Bytes → ℤ
overridden parse_duration d text = if is_empty text then d else parsed_or d (parse_duration text)

-- DefaultUpdateInterval
unfoldable pub resolved_interval : (Bytes → Option ℤ) → Bytes → ℤ
resolved_interval parse_duration text = overridden parse_duration default_update_interval text

-- DefaultBaseBackoff
unfoldable pub resolved_base_backoff : (Bytes → Option ℤ) → Bytes → ℤ
resolved_base_backoff parse_duration text = overridden parse_duration default_base_backoff text

abbrev positive_retries : ℤ → Option ℤ → ℤ
positive_retries d none = d
positive_retries d (some n) = if ltb_ℤ (pos 0) n then n else d

-- DefaultMaxRetries, for a text without line breaks.
unfoldable pub resolved_retries : Bytes → ℤ
resolved_retries text =
    if is_empty text
    then pos default_max_retries
    else positive_retries (pos default_max_retries) (scan_int (trim_left text))

positive_retries-pos : (o : Option ℤ) → pos 0 <ℤ positive_retries (pos default_max_retries) o
positive_retries-pos none = omega arith
positive_retries-pos (some n) = ground arith

-- There is always at least one retry, whatever the linker set.
pub resolved_retries-pos : (text : Bytes) → pos 0 <ℤ resolved_retries text
unfolding resolved_retries
resolved_retries-pos text =
    if_holds (λ (n : ℤ). pos 0 <ℤ n) (is_empty text) (pos default_max_retries)
      (positive_retries (pos default_max_retries) (scan_int (trim_left text))) (λ e. omega arith)
      (λ e. positive_retries-pos (scan_int (trim_left text)))
