-- ===== src/Diagnostic/OrgId.antt =====
-- isValidOrgId of cmd/agent_smith/diagnostic.go.
pub mod Groups
use agent_smith_go.Base.{
  ℕ, ◌+◌, ◌≡◌, ◌≢◌, ◌↔◌, ◌⊎◌, refl, Bool, true, false, List, [], ◌∷◌, ◌++◌, ◌&&◌, ◌||◌, arith, ◌==◌,
  leb, Bytes, codes, is_empty, eq_bytes, All, length,
}
use agent_smith_go.Agent.Installation.Element.{IsElement}

-- The two kinds of characters of the pattern.
pub data Class : Type 0 where
  hex dash : Class

-- [0-9a-f] under (?i)
unfoldable pub is_hex : ℕ → Bool
is_hex c = (leb b'0' c && leb c b'9') || (leb b'a' c && leb c b'f') || (leb b'A' c && leb c b'F')

unfoldable pub in_class : Class → ℕ → Bool
unfolding is_hex
in_class hex c = is_hex c
in_class dash c = c == b'-'

abbrev pub four : List Class → List Class
four rest = hex ∷ hex ∷ hex ∷ hex ∷ rest

-- 8, 4, 4, 4 and 12 digits.
abbrev pub uuid_pattern : List Class
uuid_pattern = four (four (dash ∷ four (dash ∷ four (dash ∷ four (dash ∷ four (four (four [])))))))

-- The anchored match.
unfoldable pub matches : List Class → Bytes → Bool
unfolding in_class
matches [] [] = true
matches (k ∷ ks) (c ∷ s) = in_class k c && matches ks s
matches _ _ = false

unfoldable pub is_valid_org_id : Bytes → Bool
unfolding matches
is_valid_org_id s = matches uuid_pattern s

matches-no_slash : (ks : List Class) (s : Bytes) → matches ks s ≡ true → All (λ (c : ℕ). c ≢ b'/') s
unfolding matches in_class is_hex
matches-no_slash [] [] h = tt
matches-no_slash [] (c ∷ s) h = absurd cc
matches-no_slash (k ∷ ks) [] h = tt
matches-no_slash (hex ∷ ks) (c ∷ s) h = ground (arith, matches-no_slash ks s)
matches-no_slash (dash ∷ ks) (c ∷ s) h = ground (arith, matches-no_slash ks s)

-- A valid organization id is one element of a path.
pub is_valid_org_id-IsElement : (s : Bytes) → is_valid_org_id s ≡ true → IsElement s
unfolding is_valid_org_id matches in_class is_hex eq_bytes
is_valid_org_id-IsElement [] h = absurd cc
is_valid_org_id-IsElement (c ∷ []) h = absurd (ground arith)
is_valid_org_id-IsElement (c ∷ d ∷ []) h = absurd (ground arith)
is_valid_org_id-IsElement (c ∷ d ∷ e ∷ s) h = record {
  no_slash = matches-no_slash uuid_pattern (c ∷ d ∷ e ∷ s) h;
  not_empty = refl;
  not_dot = ground arith;
  not_dots = ground arith;
}
