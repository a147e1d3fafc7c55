-- ===== src/Base/Time.antt =====
-- time.Duration: nanoseconds in an int64, and the units that the source names.
use Prim.Native.Nat.{ℕ, ◌*◌}
use agent_smith_go.Base.Int.{ℤ, wrap_i64, ◌+ℤ◌, ◌-ℤ◌, ◌*ℤ◌}

abbrev pub second : ℕ
second = 1_000_000_000

abbrev pub minute : ℕ
minute = 60 * second

abbrev pub hour : ℕ
hour = 60 * minute

-- int64 arithmetic wraps.
unfoldable pub add_i64 : ℤ → ℤ → ℤ
unfolding wrap_i64 ◌+ℤ◌
add_i64 a b = wrap_i64 (a +ℤ b)

unfoldable pub sub_i64 : ℤ → ℤ → ℤ
unfolding wrap_i64 ◌-ℤ◌
sub_i64 a b = wrap_i64 (a -ℤ b)

unfoldable pub mul_i64 : ℤ → ℤ → ℤ
unfolding wrap_i64 ◌*ℤ◌
mul_i64 a b = wrap_i64 (a *ℤ b)
