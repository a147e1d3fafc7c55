-- ===== src/Syslog.antt =====
-- internal/syslog: the writers of Linux, macOS and Windows.
pub mod Lines
use agent_smith_go.Base.{
  ℕ, ◌+◌, ◌==◌, Bool, true, false, Option, none, some, List, [], ◌∷◌, ◌++◌, ltb, if◌then◌else◌,
  Bytes, codes, contains, drop, length, suc,
}
use agent_smith_go.Interpreter.Message.{Except, done, failed, ◌>>◌, try}
use agent_smith_go.Agent.Installation.{UnixPlatform, linux, darwin}

-- strings.Index(line, "]"), none where there is no bracket.
unfoldable pub index_of_bracket : Bytes → Option ℕ
index_of_bracket [] = none
index_of_bracket (c ∷ s) =
    let rest = index_of_bracket s in
    if c == b']' then some 0 else elim rest [ none ↦ none | some i ↦ some (i + 1) ]

abbrev pub message_at : Bytes → Option ℕ → Bytes
message_at line none = line
message_at line (some i) = if ltb (length line) (i + 2) then line else drop (i + 2) line

unfoldable pub extract_message : Bytes → Bytes
unfolding index_of_bracket
extract_message line = message_at line (index_of_bracket line)

pub data Level : Type 0 where
  info warning error : Level

unfoldable pub level_of : Bytes → Level
level_of line =
    if contains line (codes "[ERROR]")
    then error
    else if contains line (codes "[WARNING]")
    then warning
    else info

abbrev pub priority : Level → Bytes
priority error = codes "daemon.err"
priority warning = codes "daemon.warning"
priority info = codes "daemon.info"

abbrev pub event_id : Level → ℕ
event_id info = 100
event_id warning = 200
event_id error = 300

-- What a write does: it runs logger with a priority, a source and a message, reports an event, and
-- writes to the output behind the system log.
pub data Effect : Type 0 where
  logged : Bytes → Bytes → Bytes → Effect
  reported : ℕ → Bytes → Effect
  written : Bytes → Effect

-- macOS puts the source in front of the message.
abbrev pub logged_message : UnixPlatform → Bytes → Bytes → Bytes
logged_message linux source message = message
logged_message darwin source message = source ++ (codes ": " ++ message)

-- How many bytes a Write returns, with its error; and what it did.
pub record Written : Type 0 where
  pub effects : List Effect
  pub count : ℕ
  pub error : Option Bytes

-- The output behind, by what it is given: its count and its error.
abbrev pub Output : Type 0
Output = Bytes → ℕ × Option Bytes

unfoldable pub pass_on : Output → List Effect → Bytes → Written
pass_on out effects line = record {
  effects = effects ++ (written line ∷ []);
  count = (out line).0;
  error = (out line).1;
}

-- Write of Linux and macOS; `failure` is the error of running logger.
unfoldable pub write_unix : UnixPlatform → Bytes → Option Bytes → Output → Bytes → Written
unfolding pass_on extract_message level_of
write_unix platform source failure out line =
    let call =
      logged (priority (level_of line)) source
        (logged_message platform source (extract_message line)) in
    elim failure [
      | some e ↦ record { effects = call ∷ []; count = 0; error = some e }
      | none ↦ pass_on out (call ∷ []) line
    ]

-- Write of Windows, which ignores the error of the event log.
unfoldable pub write_windows : Output → Bytes → Written
unfolding pass_on extract_message level_of
write_windows out line =
    pass_on out (reported (event_id (level_of line)) (extract_message line) ∷ []) line

-- What OpenKey of the event log finds.
pub data Key : Type 0 where
  present : Option Bytes → Key
  missing : Key
  refused : Bytes → Key

-- newWithFactory of Windows: the source is installed where its key is missing.
unfoldable pub new_with_factory : Key → Option Bytes → Option Bytes → Except (Unit {0})
new_with_factory (present close_error) install_error open_error = do try close_error; try open_error
new_with_factory missing install_error open_error = do try install_error; try open_error
new_with_factory (refused e) install_error open_error = failed e
