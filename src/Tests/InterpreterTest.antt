-- ===== src/Tests/InterpreterTest.antt =====
-- Commands on a sample host, a bounded output and a sweep.
use agent_smith_go.Base.{
  ◌≡◌, refl, arith, true, false, Option, none, some, List, [], ◌∷◌, ℤ, pos, codes, Bytes,
}
use agent_smith_go.Interpreter.Message.{Message, done}
use agent_smith_go.Interpreter.Result.{Json, Result}
use agent_smith_go.Interpreter.BoundedWriter.{new_bounded_writer}
use agent_smith_go.Interpreter.BoundedWriter.Stream.{stream, writes, Holds, writes-take}
use agent_smith_go.Interpreter.Executor.{Run, Host, execute}
use agent_smith_go.Interpreter.Executor.Cleanup.{execute-cleans}
use agent_smith_go.Interpreter.Sweep.{ScriptEntry}
use agent_smith_go.Tests.Sample.{device}

abbrev marshal : Result → Option Bytes
marshal r = some r.output

abbrev json : Json
json = record { marshal_error_result = λ e. some e; marshal_result = marshal }

-- Six bytes on one stream and two on the other, until the deadline.
abbrev late_run : Run
late_run = record {
  stdout = codes "abc" ∷ codes "def" ∷ [];
  stderr = codes "no" ∷ [];
  failed_run = true;
  deadline_exceeded = true;
  parent_cancelled = false;
}

abbrev host : Host
host = record {
  json = json;
  decode_base64 = λ s. done s;
  decode_utf16le = λ s. done s;
  show_duration = λ t. codes "1m0s";
  mkdir_error = none;
  create_temp = done (codes "exec-1.ps1");
  bom_error = none;
  write_error = none;
  close_error = none;
  remove_fails = false;
  run = λ script timeout. late_run;
}

abbrev message : Message
message = record {
  post_id = codes "p";
  commands = codes "ls";
  interpreter_override = [];
  get_installation = false;
  kind = [];
  content = [];
}

writes-take_example :
    Holds 4
      (stream (codes "abc" ∷ codes "def" ∷ []))
      (writes (new_bounded_writer (pos 4)) (codes "abc" ∷ codes "def" ∷ []))
writes-take_example = writes-take 4 (codes "abc" ∷ codes "def" ∷ []) (omega arith) (omega arith)

execute-cleans_example : (execute host true device message []).disk ≡ []
execute-cleans_example = execute-cleans host true device message [] refl (λ name h. tt)

abbrev script : Bytes → ℤ → ScriptEntry
script name t = record {
  name = name;
  is_dir = false;
  info = some (record { is_regular = true; mod_time = t });
  remove_fails = false;
}

abbrev scripts : List ScriptEntry
scripts =
    script (codes "exec-12.ps1") (pos 5)
    ∷ script (codes "exec-backup.ps1") (pos 5)
    ∷ script (codes "exec-13.ps1") (pos 50)
    ∷ []
