-- ===== src/Service/Spool/Name/Order.antt =====
-- The names of spool entries sort by their time (cmd/agent_smith/postback_spool.go).
use native.Mathlib.Nat.{div-add-mod, mod-lt}
use agent_smith_go.Base.{
  ℕ, zero, suc, ◌/◌, ◌%◌, ◌^◌, ◌≤◌, ◌<◌, max, ◌≡◌, arith, true, pow-suc, ◌++◌, pos, Bytes, ◌⊎◌, inl,
  inr,
}
use agent_smith_go.Service.Spool.Name.{
  digits, zero_padded, padded_nanos, file_name, lt_bytes, digit_count,
}

pub ten_pow_pos : (w : ℕ) → 1 ≤ 10 ^ w
ten_pow_pos zero = omega arith
ten_pow_pos (suc w) = omega (arith, pow-suc 10 w, ten_pow_pos w)

-- The leading digits of two numbers are ordered or equal, and then the remainders are ordered.
leading : (n m p : ℕ) → 1 ≤ p → n < m → (n / p < m / p) ⊎ ((n / p ≡ m / p) × (n % p < m % p))
leading n m p one lt =
    grind (arith, div-add-mod n p, div-add-mod m p, mod-lt n {m = p} one, mod-lt m {m = p} one)

lt_bytes-digits :
    (w n m : ℕ) (s t : Bytes)
    → n < m
    → m < 10 ^ w
    → lt_bytes (digits w n ++ s) (digits w m ++ t) ≡ true
unfolding lt_bytes digits
lt_bytes-digits zero n m s t lt bound = absurd (omega arith)
lt_bytes-digits (suc w) n m s t lt bound = elim (leading n m (10 ^ w) (ten_pow_pos w) lt) [
  | inl h ↦ ground arith
  | inr (e, h) ↦
      ground (arith, lt_bytes-digits w (n % 10 ^ w) (m % 10 ^ w) s t h (mod-lt m (ten_pow_pos w)))
]

pub digit_count-le : (fuel n : ℕ) → digit_count fuel n ≤ fuel
unfolding digit_count
digit_count-le zero n = omega arith
digit_count-le (suc fuel) n = ground (arith, digit_count-le fuel (n / 10))

-- Names with a later time sort behind those with an earlier one, whatever their sequence numbers.
pub lt_bytes-file_name :
    (n m i j : ℕ) → n < m → m < 2 ^ 63 → lt_bytes (file_name (pos n) i) (file_name (pos m) j) ≡ true
unfolding file_name padded_nanos zero_padded
lt_bytes-file_name n m i j lt small =
    let wide : (k : ℕ) → max 20 (digit_count 20 k) ≡ 20 = λ k. omega (arith, digit_count-le 20 k) in
    rw (wide n, wide m) (lt_bytes-digits 20 n m _ _ lt (omega arith))
