-- ===== src/Diagnostic/OrgId/Groups.antt =====
-- The pattern of isValidOrgId against the groups between the dashes.
use agent_smith_go.Base.{
  ℕ, zero, suc, ◌≡◌, inl, inr, refl, Bool, true, false, List, [], ◌∷◌, ◌&&◌, arith, ◌==◌, Bytes,
  length, split_byte, Bool-cases,
}
use agent_smith_go.Diagnostic.OrgId.{Class, hex, dash, is_hex, in_class, matches, is_valid_org_id}

unfoldable pub all_hex : Bytes → Bool
unfolding is_hex
all_hex [] = true
all_hex (c ∷ w) = is_hex c && all_hex w

-- As many words as numbers, each of hexadecimal digits and of the number's length.
unfoldable pub hex_groups : List ℕ → List Bytes → Bool
unfolding all_hex
hex_groups [] [] = true
hex_groups (n ∷ ns) (w ∷ ws) = (length w == n && all_hex w) && hex_groups ns ws
hex_groups _ _ = false

-- n digits, and then a dash in front of each further group.
pattern_of : ℕ → List ℕ → List Class
pattern_of zero [] = []
pattern_of zero (m ∷ ms) = dash ∷ pattern_of m ms
pattern_of (suc n) ms = hex ∷ pattern_of n ms

split_byte-cases : (b : ℕ) (s : Bytes) → (w : Bytes) × (ws : List Bytes) × (split_byte b s ≡ w ∷ ws)
unfolding split_byte
split_byte-cases b [] = ([], [], refl)
split_byte-cases b (c ∷ s) =
    let (w, ws, e) = split_byte-cases b s in
    elim (Bool-cases (c == b)) [
      | inl at_b ↦ ([], w ∷ ws, rw (at_b, e))
      | inr other ↦ (c ∷ w, ws, rw (other, e))
    ]

matches-hex_groups :
    (n : ℕ) (ms : List ℕ) (s : Bytes)
    → matches (pattern_of n ms) s ≡ hex_groups (n ∷ ms) (split_byte b'-' s)
unfolding pattern_of matches in_class hex_groups all_hex split_byte is_hex
matches-hex_groups zero [] [] = refl
matches-hex_groups zero (m ∷ ms) [] = refl
matches-hex_groups (suc n) ms [] = ground arith
matches-hex_groups zero [] (c ∷ s) = let (w, ws, e) = split_byte-cases b'-' s in rw e (ground arith)
matches-hex_groups zero (m ∷ ms) (c ∷ s) =
    let (w, ws, e) = split_byte-cases b'-' s in ground (arith, matches-hex_groups m ms s, e)
matches-hex_groups (suc n) ms (c ∷ s) =
    let (w, ws, e) = split_byte-cases b'-' s in ground (arith, matches-hex_groups n ms s, e)

-- An organization id is valid exactly when the parts between its dashes are five words of
-- hexadecimal digits, in either case, of the lengths 8, 4, 4, 4 and 12.
pub is_valid_org_id-hex_groups :
    (s : Bytes) → is_valid_org_id s ≡ hex_groups (8 ∷ 4 ∷ 4 ∷ 4 ∷ 12 ∷ []) (split_byte b'-' s)
unfolding is_valid_org_id pattern_of
is_valid_org_id-hex_groups s = matches-hex_groups 8 (4 ∷ 4 ∷ 4 ∷ 12 ∷ []) s
