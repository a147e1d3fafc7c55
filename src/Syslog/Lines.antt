-- ===== src/Syslog/Lines.antt =====
-- Which lines the system log and the output behind it get.
use agent_smith_go.Base.{
  ℕ, ◌+◌, ◌≡◌, ◌≢◌, refl, Bool, true, false, Option, none, some, List, [], ◌∷◌, ◌++◌, arith, Bytes,
  length, drop, All, length-append, eq_bytes, eq_bytes_refl, ◌||◌,
}
use agent_smith_go.Agent.Installation.{UnixPlatform}
use agent_smith_go.Syslog.{
  index_of_bracket, extract_message, Effect, written, Output, pass_on, write_unix, write_windows,
}

index_of_bracket_lem :
    (level rest : Bytes)
    → All (λ (c : ℕ). c ≢ b']') level
    → index_of_bracket (level ++ (b']' ∷ rest)) ≡ some (length level)
unfolding index_of_bracket
index_of_bracket_lem [] rest h = refl
index_of_bracket_lem (c ∷ level) rest h = ground (arith, index_of_bracket_lem level rest h.1)

drop_behind :
    (level message : Bytes) (c : ℕ)
    → drop (length level + 2) (level ++ (b']' ∷ c ∷ message)) ≡ message
drop_behind [] message c = refl
drop_behind (d ∷ level) message c = ground (arith, drop_behind level message c)

-- The message of a line is what stands behind its first closing bracket and one further character,
-- whatever that character is.
pub extract_message_lem :
    (level message : Bytes) (c : ℕ)
    → All (λ (d : ℕ). d ≢ b']') level
    → extract_message (level ++ (b']' ∷ c ∷ message)) ≡ message
unfolding extract_message
extract_message_lem level message c h =
    rw (index_of_bracket_lem level (c ∷ message) h)
      (ground (arith, length-append level (b']' ∷ c ∷ message), drop_behind level message c))

-- Whether a line came to the output behind the system log.
unfoldable pub reaches : Bytes → List Effect → Bool
reaches line [] = false
reaches line (written text ∷ effects) = eq_bytes text line || reaches line effects
reaches line (e ∷ effects) = reaches line effects

abbrev pub is_none : Option Bytes → Bool
is_none none = true
is_none (some e) = false

-- The output behind the system log gets every line on Windows, but on Linux and macOS only the lines
-- that logger could be run for: the others are lost for the log file too.
pub writes_reach :
    (platform : UnixPlatform) (source line : Bytes) (failure : Option Bytes) (out : Output)
    → (reaches line (write_windows out line).effects ≡ true)
      × (reaches line (write_unix platform source failure out line).effects ≡ is_none failure)
unfolding write_windows write_unix pass_on reaches
writes_reach platform source line none out = (rw (eq_bytes_refl line), rw (eq_bytes_refl line))
writes_reach platform source line (some e) out = (rw (eq_bytes_refl line), refl)
