-- ===== src/Interpreter/BoundedWriter.antt =====
-- internal/interpreter/bounded_writer.go and the truncation signal of result.go.
pub mod Stream
use agent_smith_go.Base.{
  ℕ, ◌+◌, ◌-◌, ◌*◌, Bool, true, false, ◌||◌, List, [], ◌++◌, ℤ, pos, sub_ℕ, pos_part, ltb, ltb_ℤ,
  sub_i64, add_i64, length, take, if◌then◌else◌, max, Bytes,
}

-- `kept` with the capacity of its backing array, a length that exists in memory.
pub record BoundedWriter : Type 0 where
  pub limit : ℤ
  pub kept : Bytes
  pub capacity : ℕ
  pub produced : ℤ

unfoldable pub new_bounded_writer : ℤ → BoundedWriter
new_bounded_writer limit = record { limit = limit; kept = []; capacity = 0; produced = pos 0 }

-- The capacity that appendLocked allocates for `need` bytes.
grown_capacity : BoundedWriter → ℕ → ℕ
grown_capacity w need =
    let doubled = 2 * w.capacity in
    let grown = if ltb doubled need then need else doubled in
    if ltb_ℤ w.limit (pos grown) then pos_part w.limit else grown

-- The built-in append allocates only where the capacity is short, to an unspecified size.
append_locked : BoundedWriter → Bytes → BoundedWriter
unfolding grown_capacity
append_locked w p =
    let need = length w.kept + length p in
    let allocated = if ltb w.capacity need then grown_capacity w need else w.capacity in
    record w { kept = w.kept ++ p; capacity = max allocated need }

-- The number of bytes reported is the second result; no error is ever returned.
unfoldable pub write : BoundedWriter → Bytes → BoundedWriter × ℕ
unfolding append_locked sub_i64 add_i64
write w p =
    let n = length p in
    let counted = record w { produced = add_i64 w.produced (pos n) } in
    let remaining = sub_i64 w.limit (pos (length w.kept)) in
    let fitting = if ltb_ℤ remaining (pos n) then take (pos_part remaining) p else p in
    (if ltb_ℤ (pos 0) remaining then append_locked counted fitting else counted, n)

unfoldable pub kept_len : BoundedWriter → ℕ
kept_len w = length w.kept

unfoldable pub is_truncated : BoundedWriter → Bool
is_truncated w = ltb_ℤ (pos (length w.kept)) w.produced

pub record OutputTruncation : Type 0 where
  pub truncated : Bool
  pub produced : ℤ
  pub kept : ℤ

unfoldable pub truncation_of : BoundedWriter → BoundedWriter → OutputTruncation
unfolding kept_len
truncation_of stdout stderr = record {
  truncated = is_truncated stdout || is_truncated stderr;
  produced = add_i64 stdout.produced stderr.produced;
  kept = pos (kept_len stdout + kept_len stderr);
}
