-- ===== src/Interpreter/Executor.antt =====
-- internal/interpreter/base_executor.go: a command is written to a script file, run with a bounded
-- output and an optional deadline, and the file is removed.
pub mod Cleanup
pub mod Answer
use agent_smith_go.Base.{
  ℕ, Bool, true, false, not, ◌&&◌, Option, none, some, List, [], ◌∷◌, ◌++◌, ℤ, pos, ltb, length,
  if◌then◌else◌, Bytes, codes, eq_bytes,
}
use agent_smith_go.Agent.Device.{Device, resolved_max_output_bytes, resolved_command_timeout}
use agent_smith_go.Interpreter.BoundedWriter.{
  BoundedWriter, new_bounded_writer, write, OutputTruncation, truncation_of,
}
use agent_smith_go.Interpreter.BoundedWriter.Stream.{writes}
use agent_smith_go.Interpreter.Message.{Message, Except, done, failed, ◌>>=◌, ◌>>◌, try}
use agent_smith_go.Interpreter.Result.{Json, error_result_bytes, result_bytes, timeout_result_bytes}

-- The scripts directory: names and contents.
abbrev pub Disk : Type 0
Disk = List (Bytes × Bytes)

-- How a started command ended: what it wrote, whether cmd.Run failed, and the two contexts.
pub record Run : Type 0 where
  pub stdout : List Bytes
  pub stderr : List Bytes
  pub failed_run : Bool
  pub deadline_exceeded : Bool
  pub parent_cancelled : Bool

-- The decoders, the formatting of a duration, and what the host does during one call.
pub record Host : Type 0 where
  pub json : Json
  pub decode_base64 : Bytes → Except Bytes
  pub decode_utf16le : Bytes → Except Bytes
  pub show_duration : ℤ → Bytes
  pub mkdir_error : Option Bytes
  pub create_temp : Except Bytes
  pub bom_error : Option Bytes
  pub write_error : Option Bytes
  pub close_error : Option Bytes
  pub remove_fails : Bool
  pub run : Bytes → Option ℤ → Run

pub record Execution : Type 0 where
  pub disk : Disk
  pub answer : Bytes
  -- The contents of the script that was run, if one was.
  pub ran : Option Bytes

abbrev pub utf8_bom : Bytes
utf8_bom = 0xEF ∷ 0xBB ∷ 0xBF ∷ []

-- The first bytes of a script.
abbrev pub script_head : Bool → Bytes
script_head true = utf8_bom
script_head false = []

unfoldable pub write_file : Bytes → Bytes → Disk → Disk
unfolding eq_bytes
write_file name contents [] = (name, contents) ∷ []
write_file name contents ((n, c) ∷ disk) =
    if eq_bytes n name then (n, contents) ∷ disk else (n, c) ∷ write_file name contents disk

unfoldable pub remove_file : Bytes → Disk → Disk
unfolding eq_bytes
remove_file name [] = []
remove_file name ((n, c) ∷ disk) = if eq_bytes n name then disk else (n, c) ∷ remove_file name disk

-- The error text of a timed-out command: the stderr, if any, behind the announcement.
pub timeout_message : Host → ℤ → Bytes → Bytes
timeout_message host timeout [] = codes "command timed out after " ++ host.show_duration timeout
timeout_message host timeout (c ∷ stderr) =
    (codes "command timed out after " ++ host.show_duration timeout) ++ (codes ": " ++ (c ∷ stderr))

-- The deadline that fired; `0` stands where none is configured.
abbrev pub or_zero : Option ℤ → ℤ
or_zero none = pos 0
or_zero (some t) = t

-- Everything behind cmd.Run.
unfoldable pub answer_of : Host → Device → Run → Bytes
unfolding timeout_message
answer_of host device r =
    let limit = resolved_max_output_bytes device in
    let out = writes (new_bounded_writer limit) r.stdout in
    let err = writes (new_bounded_writer limit) r.stderr in
    let trunc = truncation_of out err in
    if r.failed_run && (r.deadline_exceeded && not r.parent_cancelled)
    then timeout_result_bytes host.json
        (timeout_message host (or_zero (resolved_command_timeout device)) err.kept) out.kept trunc
    else result_bytes host.json err.kept out.kept trunc

-- From the created file to the answer, without the deferred cleanup.
unfoldable pub run_script : Host → Bool → Device → Bytes → Bytes → Disk → Execution
run_script host bom device commands name disk =
    let fail = λ (d : Disk) (e : Bytes).
      let x : Execution = record {
        disk = d;
        answer = error_result_bytes host.json e;
        ran = none;
      } in
      x in
    let headed = write_file name (script_head bom) disk in
    let script = script_head bom ++ commands in
    let written = write_file name script disk in
    elim (if bom then host.bom_error else none) [
      | some e ↦ fail disk e
      | none ↦ elim host.write_error [
        | some e ↦ fail headed e
        | none ↦ elim host.close_error [
          | some e ↦ fail written e
          | none ↦
              let timeout = resolved_command_timeout device in
              record {
                disk = written;
                answer = answer_of host device (host.run script timeout);
                ran = some script;
              }
        ]
      ]
    ]

-- The deferred cleanup.
cleaned : Host → Bytes → Execution → Execution
cleaned host name x = if host.remove_fails then x else record x { disk = remove_file name x.disk }

-- The commands as text and the name of the file created for them.
unfoldable pub prepare : Host → Message → Except (Bytes × Bytes)
prepare host message = do
  bytes ← host.decode_base64 message.commands
  commands ← host.decode_utf16le bytes
  try host.mkdir_error
  name ← host.create_temp
  done (commands, name)

unfoldable pub execute : Host → Bool → Device → Message → Disk → Execution
unfolding prepare cleaned run_script write_file remove_file
execute host bom device message disk = elim (prepare host message) [
  | failed e ↦ record { disk = disk; answer = error_result_bytes host.json e; ran = none }
  | done (commands, name) ↦
      cleaned host name (run_script host bom device commands name (write_file name [] disk))
]
