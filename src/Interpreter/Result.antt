-- ===== src/Interpreter/Result.antt =====
-- internal/interpreter/result.go: the JSON answers of a command. encoding/json is a parameter.
use agent_smith_go.Base.{Bool, true, false, Option, none, some, ℤ, pos, if◌then◌else◌, Bytes, codes}
use agent_smith_go.Interpreter.BoundedWriter.{OutputTruncation}

pub record Result : Type 0 where
  pub error : Bytes
  pub output : Bytes
  pub timed_out : Bool
  pub truncated : Bool
  pub output_bytes_produced : ℤ
  pub output_bytes_kept : ℤ

-- json.Marshal of an error result and of a result; `none` is an error.
pub record Json : Type 0 where
  pub marshal_error_result : Bytes → Option Bytes
  pub marshal_result : Result → Option Bytes

unfoldable pub apply_to : OutputTruncation → Result → Result
apply_to t r =
    if t.truncated
    then record r {
      truncated = true;
      output_bytes_produced = t.produced;
      output_bytes_kept = t.kept;
    }
    else r

or_text : Option Bytes → Bytes → Bytes
or_text none fallback = fallback
or_text (some b) fallback = b

unfoldable pub error_result_bytes : Json → Bytes → Bytes
unfolding or_text
error_result_bytes json err =
    or_text (json.marshal_error_result err) (codes "{\"error\":\"failed to marshal error result\"}")

-- The fields that the two kinds of answer start from.
abbrev plain_result : Bytes → Bytes → Bool → Result
plain_result err out timed_out = record {
  error = err;
  output = out;
  timed_out = timed_out;
  truncated = false;
  output_bytes_produced = pos 0;
  output_bytes_kept = pos 0;
}

unfoldable pub result_bytes : Json → Bytes → Bytes → OutputTruncation → Bytes
unfolding apply_to or_text
result_bytes json err out trunc =
    or_text (json.marshal_result (apply_to trunc (plain_result err out false)))
      (codes "{\"error\":\"failed to marshal result\",\"output\":\"\"}")

unfoldable pub timeout_result_bytes : Json → Bytes → Bytes → OutputTruncation → Bytes
unfolding apply_to or_text
timeout_result_bytes json err out trunc =
    or_text (json.marshal_result (apply_to trunc (plain_result err out true)))
      (codes "{\"error\":\"command timed out\",\"output\":\"\",\"timed_out\":true}")
