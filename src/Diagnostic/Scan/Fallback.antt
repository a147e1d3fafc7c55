-- ===== src/Diagnostic/Scan/Fallback.antt =====
-- fallbackScanAgents of cmd/agent_smith/diagnostic_scanner_windows.go, which asks the service control
-- manager where the scan of the data root found nothing.
use agent_smith_go.Base.{
  ◌≡◌, Bool, true, false, not, ◌||◌, List, [], ◌∷◌, arith, Bytes, codes, eq_bytes, has_prefix,
  length, drop, trim_space, split_byte, if◌then◌else◌, any, Option, none, some, Option-cases, inl,
  inr, map,
}
use agent_smith_go.Interpreter.Message.{Except, done, failed}
use agent_smith_go.Diagnostic.OrgId.{is_valid_org_id}
use agent_smith_go.Diagnostic.Scan.{AgentInfo}

-- strings.TrimPrefix behind a test of HasPrefix.
unfoldable pub behind : Bytes → Bytes → Option Bytes
behind prefix s = if has_prefix s prefix then some (drop (length prefix) s) else none

abbrev of_service : Option Bytes → Option Bytes
of_service none = none
of_service (some name) = behind (codes "RewstRemoteAgent_") (trim_space name)

-- The id in a line of sc query.
unfoldable pub org_of_line : Bytes → Option Bytes
unfolding behind
org_of_line line = of_service (behind (codes "SERVICE_NAME: ") (trim_space line))

abbrev pub is_seen : List Bytes → Bytes → Bool
is_seen seen org = any (λ (s : Bytes). eq_bytes s org) seen

-- An id that is valid and was not seen.
unfoldable pub new_org : List Bytes → Option Bytes → Option Bytes
new_org seen none = none
new_org seen (some org) = if not (is_valid_org_id org) || is_seen seen org then none else some org

-- The loop over the lines; `seen` has the ids that it met.
unfoldable pub fallback_lines : List Bytes → List Bytes → List Bytes
unfolding org_of_line new_org
fallback_lines seen [] = []
fallback_lines seen (line ∷ lines) = elim (new_org seen (org_of_line line)) [
  | none ↦ fallback_lines seen lines
  | some org ↦ org ∷ fallback_lines (org ∷ seen) lines
]

-- An agent is made of each id; `describe` reads its configuration and queries its service.
unfoldable pub fallback_scan_agents : (Bytes → AgentInfo) → Except Bytes → List AgentInfo
fallback_scan_agents describe (failed e) = []
fallback_scan_agents describe (done output) =
    map describe (fallback_lines [] (split_byte 10 output))

-- Valid ids, each of them new.
abbrev pub IsFresh : List Bytes → List Bytes → Type 0
IsFresh seen [] = Unit {0}
IsFresh seen (org ∷ orgs) =
    (is_valid_org_id org ≡ true) × (is_seen seen org ≡ false) × IsFresh (org ∷ seen) orgs

new_org-some :
    (seen : List Bytes) (o : Option Bytes) (org : Bytes)
    → new_org seen o ≡ some org
    → (is_valid_org_id org ≡ true) × (is_seen seen org ≡ false)
unfolding new_org
new_org-some seen none org h = absurd cc
new_org-some seen (some line_org) org h = ground arith

-- The ids that the fallback finds are valid and no id comes twice, whatever sc prints.
pub fallback_lines-IsFresh : (seen lines : List Bytes) → IsFresh seen (fallback_lines seen lines)
unfolding fallback_lines
fallback_lines-IsFresh seen [] = tt
fallback_lines-IsFresh seen (line ∷ lines) = elim (Option-cases (new_org seen (org_of_line line))) [
  | inl e ↦ rw (e, fallback_lines) (fallback_lines-IsFresh seen lines)
  | inr (org, e) ↦
      let (valid, fresh) = new_org-some seen (org_of_line line) org e in
      rw (e, fallback_lines) (valid, fresh, fallback_lines-IsFresh (org ∷ seen) lines)
]
