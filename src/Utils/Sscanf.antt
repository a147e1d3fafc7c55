-- ===== src/Utils/Sscanf.antt =====
-- fmt.Sscanf with the single verb %d, as selectAgent and DefaultMaxRetries use it, on a text that does not
-- begin with white space.
use agent_smith_go.Base.{
  ℕ, ◌+◌, ◌-◌, ◌*◌, ◌^◌, Bool, true, false, Option, none, some, [], ◌∷◌, ltb, leb, ◌==◌,
  if◌then◌else◌, ℤ, pos, negsuc, Bytes,
}
use agent_smith_go.Service.Spool.Name.{is_digit}

unfoldable pub digits_value : ℕ → Bytes → ℕ
digits_value acc [] = acc
digits_value acc (c ∷ s) =
    let rest = digits_value (10 * acc + (c - b'0')) s in if is_digit c then rest else acc

abbrev in_int64 : Bool → ℕ → Option ℤ
in_int64 negative n =
    if negative
    then if leb n (2 ^ 63) then some (if n == 0 then pos 0 else negsuc (n - 1)) else none
    else if ltb n (2 ^ 63)
    then some (pos n)
    else none

abbrev unsigned : Bool → Bytes → Option ℤ
unsigned negative [] = none
unsigned negative (c ∷ s) = if is_digit c then in_int64 negative (digits_value 0 (c ∷ s)) else none

-- fmt.Sscanf with %d: a sign, and the digits that come first.
unfoldable pub scan_int : Bytes → Option ℤ
unfolding digits_value
scan_int [] = none
scan_int (c ∷ s) =
    if c == b'-'
    then unsigned true s
    else if c == b'+'
    then unsigned false s
    else unsigned false (c ∷ s)
