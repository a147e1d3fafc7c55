-- ===== src/Cli/Flags/Names.antt =====
-- Which arguments name a flag (cmd/agent_smith/usage.go).
use agent_smith_go.Base.{
  ℕ, zero, suc, ◌≡◌, ◌≢◌, ◌↔◌, inl, inr, refl, ap, sym, ◌∙◌, arith, Bool, true, false, not, ◌&&◌,
  Bool-cases, some, [], ◌∷◌, ◌++◌, ltb, ◌==◌, Bytes, length,
}
use agent_smith_go.Cli.Flags.{trim_dashes, before_eq, starts_with, nonempty, flag_name_from_arg}

abbrev pub dashes : ℕ → Bytes
dashes zero = []
dashes (suc k) = b'-' ∷ dashes k

unfoldable pub has_no_eq : Bytes → Bool
has_no_eq [] = true
has_no_eq (c ∷ s) = not (c == b'=') && has_no_eq s

-- The end of the argument, or a value behind '='.
abbrev pub IsValue : Bytes → Type 0
IsValue [] = Unit
IsValue (c ∷ s) = c ≡ b'='

-- One dash or more, a name that is not empty and has no further dash in front nor '=' in it, and
-- perhaps a value.
abbrev pub IsFlag : Bytes → Bytes → Type 0
IsFlag arg name =
    (k : ℕ) × (rest : Bytes) × (arg ≡ b'-' ∷ (dashes k ++ (name ++ rest)))
    × (name ≢ [])
    × (starts_with b'-' name ≡ false)
    × (has_no_eq name ≡ true)
    × IsValue rest

trim_dashes_lem :
    (s : Bytes)
    → (k : ℕ) × (s ≡ dashes k ++ trim_dashes s) × (starts_with b'-' (trim_dashes s) ≡ false)
unfolding trim_dashes
trim_dashes_lem [] = (0, refl, refl)
trim_dashes_lem (c ∷ s) = elim (Bool-cases (c == b'-')) [
  | inl e ↦ let (k, a, b) = trim_dashes_lem s in rw e (suc k, ground arith, b)
  | inr e ↦ rw e (0, refl, e)
]

before_eq_lem :
    (s : Bytes)
    → (rest : Bytes) × (s ≡ before_eq s ++ rest) × (has_no_eq (before_eq s) ≡ true) × IsValue rest
unfolding before_eq has_no_eq
before_eq_lem [] = ([], refl, refl, tt)
before_eq_lem (c ∷ s) = elim (Bool-cases (c == b'=')) [
  | inl e ↦ rw e (c ∷ s, refl, refl, ground arith)
  | inr e ↦
      let (rest, a, b, v) = before_eq_lem s in
      rw e (rest, ap (λ (l : Bytes). c ∷ l) a, ground arith, v)
]

trim_dashes-dashes :
    (k : ℕ) (s : Bytes) → starts_with b'-' s ≡ false → trim_dashes (dashes k ++ s) ≡ s
unfolding trim_dashes
trim_dashes-dashes zero [] h = refl
trim_dashes-dashes zero (c ∷ s) h = ground arith
trim_dashes-dashes (suc k) s h = trim_dashes-dashes k s h

before_eq-append :
    (name rest : Bytes) → has_no_eq name ≡ true → IsValue rest → before_eq (name ++ rest) ≡ name
unfolding before_eq has_no_eq
before_eq-append [] [] h v = refl
before_eq-append [] (c ∷ rest) h v = ground arith
before_eq-append (c ∷ name) rest h v = ground (arith, before_eq-append name rest)

starts-before_eq : (s : Bytes) → starts_with b'-' s ≡ false → starts_with b'-' (before_eq s) ≡ false
unfolding before_eq
starts-before_eq [] h = refl
starts-before_eq (c ∷ s) h = ground arith

nonempty_lem : (s n : Bytes) → nonempty s ≡ some n → (s ≡ n) × (n ≢ [])
nonempty_lem [] n h = absurd cc
nonempty_lem (c ∷ s) n h = ground arith

nonempty_keeps : (s : Bytes) → s ≢ [] → nonempty s ≡ some s
nonempty_keeps [] h = absurd (h refl)
nonempty_keeps (c ∷ s) h = refl

-- What the tests of the function let through.
parts :
    (arg n : Bytes)
    → flag_name_from_arg arg ≡ some n
    → (s : Bytes) × (arg ≡ b'-' ∷ s) × (nonempty (before_eq (trim_dashes s)) ≡ some n)
unfolding flag_name_from_arg trim_dashes
parts [] n h = absurd cc
parts (c ∷ s) n h = (s, ground arith, ground arith)

flag_name_from_arg-IsFlag : (arg n : Bytes) → flag_name_from_arg arg ≡ some n → IsFlag arg n
flag_name_from_arg-IsFlag arg n h =
    let (s, a, e) = parts arg n h in
    let (k, t, d) = trim_dashes_lem s in
    let (rest, u, q, v) = before_eq_lem (trim_dashes s) in
    let (same, full) = nonempty_lem (before_eq (trim_dashes s)) n e in
    let named = u ∙ ap (λ (m : Bytes). m ++ rest) same in
    (
      k,
      rest,
      a ∙ ap (λ (m : Bytes). b'-' ∷ m) (t ∙ ap (λ (m : Bytes). dashes k ++ m) named),
      full,
      ap (starts_with b'-') (sym same) ∙ starts-before_eq (trim_dashes s) d,
      ap has_no_eq (sym same) ∙ q,
      v,
    )

starts-append :
    (name rest : Bytes)
    → name ≢ []
    → starts_with b'-' name ≡ false
    → starts_with b'-' (name ++ rest) ≡ false
starts-append [] rest n h = absurd (n refl)
starts-append (c ∷ name) rest n h = h

long_enough :
    (k : ℕ) (name rest : Bytes)
    → name ≢ []
    → ltb (length (b'-' ∷ (dashes k ++ (name ++ rest)))) 2 ≡ false
long_enough zero [] rest n = absurd (n refl)
long_enough zero (c ∷ name) rest n = ground arith
long_enough (suc k) name rest n = ground arith

finds_name :
    (k : ℕ) (name rest : Bytes)
    → name ≢ []
    → starts_with b'-' name ≡ false
    → has_no_eq name ≡ true
    → IsValue rest
    → flag_name_from_arg (b'-' ∷ (dashes k ++ (name ++ rest))) ≡ some name
unfolding flag_name_from_arg
finds_name k name rest n d q v =
    let t = trim_dashes-dashes (suc k) (name ++ rest) (starts-append name rest n d) in
    rw (long_enough k name rest n, t, before_eq-append name rest q v) (nonempty_keeps name n)

-- The name of a flag is found exactly in an argument that is made of one dash or more, a name that
-- is not empty, has no dash in front and no '=' in it, and perhaps a value behind '='; so it is the
-- same whether one dash is given or two, with a value or without.
pub flag_name_from_arg_iff :
    (arg name : Bytes) → (flag_name_from_arg arg ≡ some name) ↔ IsFlag arg name
flag_name_from_arg_iff arg name = (
  flag_name_from_arg-IsFlag arg name,
  λ (k, rest, a, n, d, q, v). ap flag_name_from_arg a ∙ finds_name k name rest n d q v,
)
