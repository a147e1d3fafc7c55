-- ===== src/Service/Spool/Name.antt =====
-- The file names of cmd/agent_smith/postback_spool.go: "%020d-%06d.json" and its scanner.
pub mod Order
pub mod Scan
use agent_smith_go.Base.{
  ℕ, zero, suc, ◌+◌, ◌-◌, ◌*◌, ◌/◌, ◌%◌, ◌^◌, max, Bool, true, false, ◌&&◌, ◌||◌, Option, none,
  some, List, [], ◌∷◌, ◌++◌, ℤ, pos, negsuc, wrap_i64, ltb, leb, ◌==◌, if◌then◌else◌, Bytes, codes,
  length, take, drop, eq_bytes,
}

-- The last `w` decimal digits of a number below 10^w.
unfoldable pub digits : ℕ → ℕ → Bytes
digits zero n = []
digits (suc w) n = (b'0' + n / 10 ^ w) ∷ digits w (n % 10 ^ w)

-- How many digits a number has, below 10^fuel.
unfoldable pub digit_count : ℕ → ℕ → ℕ
digit_count zero n = 0
digit_count (suc fuel) n = let rest = digit_count fuel (n / 10) in if ltb n 10 then 1 else suc rest

-- %0wd of a uint64, which has at most 20 digits.
unfoldable pub zero_padded : ℕ → ℕ → Bytes
zero_padded w n = digits (max w (digit_count 20 n)) n

-- %020d of an int64: a sign takes one of the 20 places.
unfoldable pub padded_nanos : ℤ → Bytes
padded_nanos (pos n) = zero_padded 20 n
padded_nanos (negsuc n) = b'-' ∷ zero_padded 19 (suc n)

abbrev pub spool_file_suffix : Bytes
spool_file_suffix = codes ".json"

unfoldable pub file_name : ℤ → ℕ → Bytes
file_name nanos seq = padded_nanos nanos ++ (b'-' ∷ (zero_padded 6 seq ++ spool_file_suffix))

-- filepath.Ext(name) == ".json"
unfoldable pub has_spool_suffix : Bytes → Bool
unfolding eq_bytes
has_spool_suffix [] = false
has_spool_suffix (c ∷ s) = eq_bytes (c ∷ s) spool_file_suffix || has_spool_suffix s

-- sort.Strings compares bytes.
unfoldable pub lt_bytes : Bytes → Bytes → Bool
lt_bytes s [] = false
lt_bytes [] (y ∷ ys) = true
lt_bytes (x ∷ xs) (y ∷ ys) = ltb x y || (x == y && lt_bytes xs ys)

abbrev pub is_digit : ℕ → Bool
is_digit c = leb b'0' c && leb c b'9'

-- The digits that Sscanf takes within a width, with the number they stand for and the rest.
unfoldable pub scan_digits : ℕ → ℕ → Bytes → ℕ × Bytes
scan_digits zero n s = (n, s)
scan_digits (suc w) n [] = (n, [])
scan_digits (suc w) n (c ∷ s) =
    let rest = scan_digits w (n * 10 + (c - b'0')) s in if is_digit c then rest else (n, c ∷ s)

abbrev pub starts_digit : Bytes → Bool
starts_digit [] = false
starts_digit (c ∷ s) = is_digit c

unfoldable pub skip_space : Bytes → Bytes
skip_space [] = []
skip_space (c ∷ s) = if c == b' ' then skip_space s else c ∷ s

-- One "%0wd" of Sscanf into a uint64: at least one digit, and no overflow.
unfoldable pub scan_uint : ℕ → Bytes → Option (ℕ × Bytes)
scan_uint w s =
    let (n, rest) = scan_digits w 0 (skip_space s) in
    if starts_digit (skip_space s) && leb n (2 ^ 64 - 1) then some (n, rest) else none

abbrev pub after_dash : Bytes → Option Bytes
after_dash [] = none
after_dash (c ∷ s) = if c == b'-' then some s else none

-- Sscanf(base, "%020d-%06d", &nano, &seq), of which only `nano` is used.
unfoldable pub scan_name : Bytes → Option ℕ
scan_name base = elim (scan_uint 20 base) [
  | none ↦ none
  | some (nano, rest) ↦ elim (after_dash rest) [
    | none ↦ none
    | some s ↦ elim (scan_uint 6 s) [ none ↦ none | some _ ↦ some nano ]
  ]
]

-- `time.Unix(0, int64(nano))`, or ok = false.
abbrev pub unix_nanos : Option ℕ → Option ℤ
unix_nanos none = none
unix_nanos (some nano) = some (wrap_i64 (pos nano))

-- The name without its suffix is scanned; `none` is ok = false.
unfoldable pub spool_file_time : Bytes → Option ℤ
spool_file_time name = unix_nanos (scan_name (take (length name - length spool_file_suffix) name))
