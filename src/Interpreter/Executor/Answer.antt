-- ===== src/Interpreter/Executor/Answer.antt =====
-- What the answer of a finished command says (internal/interpreter/base_executor.go).
use agent_smith_go.Base.{
  ℕ, Bool, not, ◌&&◌, ◌^◌, ◌<◌, ◌≡◌, ◌||◌, List, refl, arith, ap, pos, add_i64, ltb, length, take,
  min, length-take, ◌+◌, if◌then◌else◌, Bytes,
}
use agent_smith_go.Agent.Device.{Device, resolved_max_output_bytes, resolved_command_timeout}
use agent_smith_go.Interpreter.BoundedWriter.{new_bounded_writer, truncation_of, OutputTruncation}
use agent_smith_go.Interpreter.BoundedWriter.Stream.{
  stream, writes, writes-take, is_truncated-writes,
}
use agent_smith_go.Interpreter.Result.{result_bytes, timeout_result_bytes}
use agent_smith_go.Interpreter.Executor.{Host, Run, answer_of, timeout_message, or_zero}

-- The byte counts of a finished command under a ceiling for each stream.
abbrev pub counts : ℕ → Bytes → Bytes → OutputTruncation
counts limit out err = record {
  truncated = ltb limit (length out) || ltb limit (length err);
  produced = pos (length out + length err);
  kept = pos (min limit (length out) + min limit (length err));
}

-- The answer of a command whose two streams are `out` and `err`.
abbrev pub specified : Host → Device → ℕ → Bool → Bytes → Bytes → Bytes
specified host device limit timed_out out err =
    if timed_out
    then timeout_result_bytes host.json
        (timeout_message host (or_zero (resolved_command_timeout device)) (take limit err))
        (take limit out) (counts limit out err)
    else result_bytes host.json (take limit err) (take limit out) (counts limit out err)

sum_fits : (a b : ℕ) → a + b < 2 ^ 63 → add_i64 (pos a) (pos b) ≡ pos (a + b)
unfolding add_i64
sum_fits a b h = ground arith

module _ (limit : ℕ) (out err : List Bytes) (small : limit < 2 ^ 63)
    (room : length (stream out) + length (stream err) < 2 ^ 63) where
  truncation_lem :
      truncation_of
        (writes (new_bounded_writer (pos limit)) out)
        (writes (new_bounded_writer (pos limit)) err)
      ≡ counts limit (stream out) (stream err)
  unfolding truncation_of
  truncation_lem =
      let o = writes-take limit out small (omega arith) in
      let e = writes-take limit err small (omega arith) in
      let produced : add_i64 (writes (new_bounded_writer (pos limit)) out).produced
            (writes (new_bounded_writer (pos limit)) err).produced
          ≡ pos (length (stream out) + length (stream err)) =
        rw (o.total, e.total) (sum_fits (length (stream out)) (length (stream err)) room) in
      ground (
        arith,
        produced,
        ap length o.prefix,
        ap length e.prefix,
        length-take limit (stream out),
        length-take limit (stream err),
        is_truncated-writes limit out small (omega arith),
        is_truncated-writes limit err small (omega arith),
      )

-- The answer carries the first bytes of each stream, as many as the configured ceiling allows, and
-- the counts of what was produced and kept; it is marked as timed out exactly if the run failed with
-- its own deadline exceeded while the connection cycle was still alive.
pub answer_of_lem :
    (host : Host) (device : Device) (r : Run) (limit : ℕ)
    → resolved_max_output_bytes device ≡ pos limit
    → limit < 2 ^ 63
    → length (stream r.stdout) + length (stream r.stderr) < 2 ^ 63
    → answer_of host device r
      ≡ specified host device limit
          (r.failed_run && (r.deadline_exceeded && not r.parent_cancelled))
          (stream r.stdout)
          (stream r.stderr)
unfolding answer_of
answer_of_lem host device r limit e small room =
    let o = writes-take limit r.stdout small (omega arith) in
    let f = writes-take limit r.stderr small (omega arith) in
    rw (e, truncation_lem limit r.stdout r.stderr small room, o.prefix, f.prefix) refl
