-- ===== src/Service/Spool/Name/Scan.antt =====
-- The scanner reads back the time that is printed in a name (cmd/agent_smith/postback_spool.go).
use native.Mathlib.Nat.{div-add-mod, mod-lt}
use agent_smith_go.Base.{
  ℕ, zero, suc, ◌+◌, ◌-◌, ◌*◌, ◌/◌, ◌%◌, ◌^◌, ◌≤◌, ◌<◌, max, ◌≡◌, ap, ◌∙◌, arith, true, pow-suc, [],
  ◌∷◌, ◌++◌, append-nil, append_assoc, dec_le, pos, Bytes, wrap_i64, length, take, length-append,
  some,
}
use agent_smith_go.Service.Spool.Name.{
  digits, zero_padded, padded_nanos, file_name, digit_count, scan_digits, starts_digit, skip_space,
  scan_uint, scan_name, unix_nanos, spool_file_time, spool_file_suffix,
}
use agent_smith_go.Service.Spool.Name.Order.{digit_count-le, ten_pow_pos}

-- The leading digit and the number behind it.
leading_digit : (n w : ℕ) → n < 10 ^ suc w → (n / 10 ^ w ≤ 9) × (n % 10 ^ w < 10 ^ w)
leading_digit n w h =
    let p = ten_pow_pos w in
    (grind (arith, pow-suc 10 w, div-add-mod n (10 ^ w), mod-lt n {m = 10 ^ w} p), mod-lt n p)

value_step : (acc n p : ℕ) → 1 ≤ p → (acc * 10 + n / p) * p + n % p ≡ acc * (10 * p) + n
value_step acc n p one = grind (arith, div-add-mod n p)

scan_digits-digits :
    (w acc n : ℕ) (rest : Bytes)
    → n < 10 ^ w
    → scan_digits w acc (digits w n ++ rest) ≡ (acc * 10 ^ w + n, rest)
unfolding scan_digits digits
scan_digits-digits zero acc n rest h = ground arith
scan_digits-digits (suc w) acc n rest h =
    let (small, below) = leading_digit n w h in
    let same : acc * 10 + (b'0' + n / 10 ^ w - b'0') ≡ acc * 10 + n / 10 ^ w = omega arith in
    ground (
      arith,
      pow-suc 10 w,
      same,
      ap (λ (k : ℕ). scan_digits w k (digits w (n % 10 ^ w) ++ rest)) same,
      scan_digits-digits w (acc * 10 + n / 10 ^ w) (n % 10 ^ w) rest below,
      value_step acc n (10 ^ w) (ten_pow_pos w),
    )

bound_step : (n c p : ℕ) → c ≤ 9 → (n * 10 + c + 1) * p ≤ (n + 1) * (10 * p)
bound_step n c p h = grind arith

bound_stop : (n p : ℕ) → 1 ≤ p → n < (n + 1) * p
bound_stop n p h = grind arith

scan_digits-lt : (w n : ℕ) (s : Bytes) → (scan_digits w n s).0 < (n + 1) * 10 ^ w
unfolding scan_digits
scan_digits-lt zero n s = omega arith
scan_digits-lt (suc w) n [] = bound_stop n (10 ^ suc w) (ten_pow_pos (suc w))
scan_digits-lt (suc w) n (c ∷ s) = ground (
  arith,
  pow-suc 10 w,
  bound_step n (c - b'0') (10 ^ w),
  bound_stop n (10 ^ suc w) (ten_pow_pos (suc w)),
  scan_digits-lt w (n * 10 + (c - b'0')) s,
)

lt-digit_count : (fuel n : ℕ) → n < 10 ^ fuel → n < 10 ^ digit_count fuel n
unfolding digit_count
lt-digit_count zero n h = h
lt-digit_count (suc fuel) n h =
    ground
      (arith, pow-suc 10 fuel, pow-suc 10 (digit_count fuel (n / 10)), lt-digit_count fuel (n / 10))

pow_mono : (j k : ℕ) → j ≤ k → 10 ^ j ≤ 10 ^ k
pow_mono j zero h = let e : j ≡ 0 = omega arith in rw e (omega arith)
pow_mono j (suc k) h = elim (dec_le j k) [
  | yes le ↦ omega (arith, pow-suc 10 k, pow_mono j k le)
  | no gt ↦ let e : j ≡ suc k = omega arith in rw e (omega arith)
]

lt-max_power : (n w : ℕ) → n < 2 ^ 64 → n < 10 ^ max w (digit_count 20 n)
lt-max_power n w h = omega (
  arith,
  lt-digit_count 20 n (omega arith),
  pow_mono (digit_count 20 n) (max w (digit_count 20 n)) (omega arith),
)

-- A number that is printed with at least one place starts with a digit.
starts_digit-digits :
    (w n : ℕ) (rest : Bytes)
    → n < 10 ^ suc w
    → (starts_digit (digits (suc w) n ++ rest) ≡ true)
      × (skip_space (digits (suc w) n ++ rest) ≡ digits (suc w) n ++ rest)
unfolding digits skip_space
starts_digit-digits w n rest h = ground (arith, leading_digit n w h)

scan_uint-digits :
    (w n : ℕ) (rest : Bytes)
    → n < 10 ^ suc w
    → n < 2 ^ 64
    → scan_uint (suc w) (digits (suc w) n ++ rest) ≡ some (n, rest)
unfolding scan_uint
scan_uint-digits w n rest h small =
    let (d, k) = starts_digit-digits w n rest h in
    rw (k, d, scan_digits-digits (suc w) 0 n rest h) (ground arith)

scan_uint-some :
    (w n : ℕ) (rest : Bytes)
    → n < 10 ^ suc w
    → (r : ℕ × Bytes) × (scan_uint 6 (digits (suc w) n ++ rest) ≡ some r)
unfolding scan_uint
scan_uint-some w n rest h =
    let (d, k) = starts_digit-digits w n rest h in
    (
      scan_digits 6 0 (digits (suc w) n ++ rest),
      rw (k, d) (ground (arith, scan_digits-lt 6 0 (digits (suc w) n ++ rest))),
    )

take-length : (xs ys : Bytes) → take (length (xs ++ ys) - length ys) (xs ++ ys) ≡ xs
take-length [] ys = let e : length ys - length ys ≡ 0 = omega arith in rw e
take-length (x ∷ xs) ys =
    let e : suc (length (xs ++ ys)) - length ys ≡ suc (length (xs ++ ys) - length ys) =
      omega (arith, length-append xs ys) in
    rw e (ap (◌∷◌ x) (take-length xs ys))

-- A number printed in at least `suc w` places, seen as that many digits.
padded_as :
    (w n : ℕ) → n < 2 ^ 64 → (k : ℕ) × (max (suc w) (digit_count 20 n) ≡ suc k) × (n < 10 ^ suc k)
padded_as w n h =
    let e : max (suc w) (digit_count 20 n) ≡ suc (max (suc w) (digit_count 20 n) - 1) =
      omega arith in
    (max (suc w) (digit_count 20 n) - 1, e, rw (← e) (lt-max_power n (suc w) h))

scan_name-digits :
    (n k seq : ℕ)
    → n < 2 ^ 63
    → seq < 10 ^ suc k
    → scan_name (digits 20 n ++ (b'-' ∷ digits (suc k) seq)) ≡ some n
unfolding scan_name
scan_name-digits n k seq h small =
    let (r, e) = scan_uint-some k seq [] small in
    let second : scan_uint 6 (digits (suc k) seq) ≡ some r = rw append-nil at e in
    ground (arith, scan_uint-digits 19 n (b'-' ∷ digits (suc k) seq), second)

spool_file_time-append :
    (base : Bytes) → spool_file_time (base ++ spool_file_suffix) ≡ unix_nanos (scan_name base)
unfolding spool_file_time
spool_file_time-append base =
    ap (λ b. unix_nanos (scan_name b)) (take-length base spool_file_suffix)

in_range : (n : ℕ) → n < 2 ^ 63 → wrap_i64 (pos n) ≡ pos n
unfolding wrap_i64
in_range n h = ground arith

-- The time of creation is read back from the name of an entry.
pub spool_file_time-file_name :
    (n seq : ℕ) → n < 2 ^ 63 → seq < 2 ^ 64 → spool_file_time (file_name (pos n) seq) ≡ some (pos n)
unfolding file_name padded_nanos zero_padded
spool_file_time-file_name n seq h small =
    let (j, wide, first) = padded_as 19 n (omega arith) in
    let (k, e, second) = padded_as 5 seq small in
    let w : max 20 (digit_count 20 n) ≡ 20 = omega (arith, digit_count-le 20 n) in
    rw (w, e, ← append_assoc (digits 20 n) (b'-' ∷ digits (suc k) seq) spool_file_suffix)
      (spool_file_time-append (digits 20 n ++ (b'-' ∷ digits (suc k) seq))
        ∙ ap unix_nanos (scan_name-digits n k seq h second)
        ∙ ap some (in_range n h))
