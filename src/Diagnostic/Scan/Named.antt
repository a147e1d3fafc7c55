-- ===== src/Diagnostic/Scan/Named.antt =====
-- The agents of the diagnostic mode when an organization is named on the command line.
use agent_smith_go.Base.{
  ◌≡◌, ◌⊎◌, inl, inr, refl, true, false, ◌||◌, Option, none, some, List, [], ◌∷◌, ◌++◌, arith,
  Bytes, is_empty, eq_bytes_refl, Bool-cases, All, All-append, if_holds,
}
use agent_smith_go.Agent.Installation.{UnixPlatform}
use agent_smith_go.Diagnostic.Scan.{AgentInfo, is_listed, named_agent, listed_agents}

is_listed-append :
    (org : Bytes) (agents : List AgentInfo) (a : AgentInfo)
    → a.org_id ≡ org
    → is_listed org (agents ++ (a ∷ [])) ≡ true
unfolding is_listed
is_listed-append org [] a e = rw (e, eq_bytes_refl org)
is_listed-append org (b ∷ agents) a e = rw (is_listed-append org agents a e) (ground arith)

-- With an organization named, the menu is reached; its agents are those of the scan, all of them and
-- in their order, with the named one behind them unless it was among them.
pub listed_agents_lem :
    (platform : UnixPlatform) (org : Bytes) (scanned : List AgentInfo)
    → is_empty org ≡ false
    → (agents : List AgentInfo) × (listed_agents platform org scanned ≡ some agents)
      × (is_listed org agents ≡ true)
      × ((agents ≡ scanned) ⊎ (agents ≡ scanned ++ (named_agent platform org ∷ [])))
unfolding listed_agents is_listed named_agent
listed_agents_lem platform org [] named =
    (named_agent platform org ∷ [], rw named, rw (eq_bytes_refl org), inr refl)
listed_agents_lem platform org (a ∷ agents) named = elim (Bool-cases (is_listed org (a ∷ agents))) [
  | inl found ↦ (a ∷ agents, rw (named, found), found, inl refl)
  | inr missing ↦ (
    (a ∷ agents) ++ (named_agent platform org ∷ []),
    rw (named, missing),
    is_listed-append org (a ∷ agents) (named_agent platform org) refl,
    inr refl,
  )
]

-- A property of every agent of a list that is not empty, if there is a list.
abbrev pub AllIn : (AgentInfo → Type 0) → Option (List AgentInfo) → Type 0
AllIn P none = Unit {0}
AllIn P (some []) = ⊥
AllIn P (some (a ∷ agents)) = All P (a ∷ agents)

pub listed_agents-AllIn :
    (P : AgentInfo → Type 0) (platform : UnixPlatform) (org : Bytes) (scanned : List AgentInfo)
    → All P scanned
    → P (named_agent platform org)
    → AllIn P (listed_agents platform org scanned)
unfolding listed_agents
listed_agents-AllIn P platform org [] hs hn =
    if_holds (AllIn P) (is_empty org) none (some (named_agent platform org ∷ [])) (λ e. tt)
      (λ e. (hn, tt))
listed_agents-AllIn P platform org (a ∷ agents) hs hn =
    if_holds (AllIn P) (is_empty org || is_listed org (a ∷ agents)) (some (a ∷ agents))
      (some ((a ∷ agents) ++ (named_agent platform org ∷ []))) (λ e. hs)
      (λ e. All-append P (a ∷ agents) (named_agent platform org ∷ []) hs (hn, tt))
