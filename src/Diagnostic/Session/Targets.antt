-- ===== src/Diagnostic/Session/Targets.antt =====
-- What the checks of a session run on.
use agent_smith_go.Base.{
  ℕ, zero, suc, ◌≡◌, ◌⊎◌, inl, inr, refl, Bool, Option, none, some, List, [], ◌∷◌, ◌++◌, Bytes,
  codes, eq_bytes, length, leb, All, All-append, if_holds, trim_space, ℤ, pos, negsuc,
}
use agent_smith_go.Agent.Installation.{UnixPlatform}
use agent_smith_go.Diagnostic.Scan.{
  AgentInfo, Machine, RootEntry, get_agent_data_root, scan_agents_from, named_agent, listed_agents,
}
use agent_smith_go.Diagnostic.Scan.Installed.{IsInstalled, scan_agents_from-IsInstalled}
use agent_smith_go.Diagnostic.Scan.Named.{AllIn, listed_agents-AllIn}
use agent_smith_go.Diagnostic.Session.{
  SessionEvent, ran, exiting, Stage, selecting, left, watching, panicked, diagnosing, prompt,
  Selection, selected, exit, again, select_agent, at_index, nth, MenuChoice, run_check, leave,
  unknown, menu_choice, has_multiple, stays_in, answer_menu, answer_selection, answer_prompt,
  is_over, converse, diagnose, run_diagnostic_full,
}
use agent_smith_go.Utils.Sscanf.{scan_int}

module _ (P : AgentInfo → Type 0) where
  -- A property of the agent that an event is about.
  abbrev pub Concerns : SessionEvent → Type 0
  Concerns (ran c a) = P a
  Concerns _ = Unit {0}

  -- And of the agent whose menu is shown, where the program has not panicked.
  abbrev pub AtStage : Stage → Type 0
  AtStage (diagnosing a) = P a
  AtStage panicked = ⊥
  AtStage _ = Unit {0}

  abbrev Chosen : Selection → Type 0
  Chosen (selected a) = P a
  Chosen _ = Unit {0}

  -- Both parts of what an answer, or a session, gives.
  abbrev pub Keeps : List SessionEvent × Stage → Type 0
  Keeps (events, stage) = All Concerns events × AtStage stage

  nth-Chosen : (agents : List AgentInfo) (i : ℕ) → All P agents → Chosen (nth agents i)
  unfolding nth
  nth-Chosen [] i h = tt
  nth-Chosen (a ∷ agents) zero h = h.0
  nth-Chosen (a ∷ agents) (suc i) h = nth-Chosen agents i h.1

  at_index-Chosen :
      (agents : List AgentInfo) (i : Option ℤ) → All P agents → Chosen (at_index agents i)
  unfolding at_index
  at_index-Chosen agents none h = tt
  at_index-Chosen agents (some (negsuc i)) h = tt
  at_index-Chosen agents (some (pos zero)) h = tt
  at_index-Chosen agents (some (pos (suc i))) h =
      if_holds Chosen (leb (suc i) (length agents)) (nth agents i) again
        (λ e. nth-Chosen agents i h) (λ e. tt)

  select_agent-Chosen :
      (agents : List AgentInfo) (choice : Bytes)
      → All P agents
      → Chosen (select_agent agents choice)
  unfolding select_agent
  select_agent-Chosen agents choice h =
      if_holds Chosen (eq_bytes (trim_space choice) (codes "0")) exit
        (at_index agents (scan_int choice)) (λ e. tt)
        (λ e. at_index-Chosen agents (scan_int choice) h)

  module _ (comes_back : AgentInfo → Bool) (agents : List AgentInfo) (h : All P agents) where
    answer_menu-Keeps :
        (a : AgentInfo) (choice : MenuChoice) → P a → Keeps (answer_menu comes_back agents a choice)
    unfolding answer_menu
    answer_menu-Keeps a (run_check c) p = (
      (p, tt),
      if_holds AtStage (stays_in comes_back c a) watching (diagnosing a) (λ e. tt) (λ e. p),
    )
    answer_menu-Keeps a leave p =
        if_holds Keeps (has_multiple agents) ([], selecting) (exiting ∷ [], left) (λ e. (tt, tt))
          (λ e. ((tt, tt), tt))
    answer_menu-Keeps a unknown p = ((tt, tt), p)

    answer_selection-Keeps :
        (s : Selection) → Chosen s → Keeps (answer_selection comes_back agents s)
    unfolding answer_selection
    answer_selection-Keeps (selected a) p = (tt, p)
    answer_selection-Keeps exit p = ((tt, tt), tt)
    answer_selection-Keeps again p = ((tt, tt), tt)

    answer_prompt-Keeps :
        (stage : Stage) (choice : Bytes)
        → AtStage stage
        → Keeps (answer_prompt comes_back agents stage choice)
    unfolding answer_prompt
    answer_prompt-Keeps selecting choice p =
        answer_selection-Keeps (select_agent agents choice) (select_agent-Chosen agents choice h)
    answer_prompt-Keeps (diagnosing a) choice p =
        answer_menu-Keeps a (menu_choice (trim_space choice)) p
    answer_prompt-Keeps left choice p = (tt, tt)
    answer_prompt-Keeps watching choice p = (tt, tt)
    answer_prompt-Keeps panicked choice p = absurd p

    pub converse-Keeps :
        (fuel : ℕ) (stage : Stage) (input : List Bytes)
        → AtStage stage
        → Keeps (converse comes_back agents fuel stage input)
    unfolding converse
    converse-Keeps zero stage input p = (tt, p)
    converse-Keeps (suc fuel) stage input p =
        let (choice, rest) = prompt input in
        let kept = answer_prompt-Keeps stage choice p in
        let next =
          converse-Keeps fuel (answer_prompt comes_back agents stage choice).1 rest kept.1 in
        if_holds Keeps (is_over stage) ([], stage)
          (
            (answer_prompt comes_back agents stage choice).0
                ++ (converse comes_back agents fuel (answer_prompt comes_back agents stage choice).1
                    rest).0,
            (converse comes_back agents fuel (answer_prompt comes_back agents stage choice).1
                rest).1,
          )
          (λ e. (tt, p))
          (λ e. (
            All-append Concerns (answer_prompt comes_back agents stage choice).0
                (converse comes_back agents fuel (answer_prompt comes_back agents stage choice).1
                  rest).0
                kept.0 next.0,
            next.1,
          ))

  diagnose-Keeps :
      (comes_back : AgentInfo → Bool) (fuel : ℕ) (input : List Bytes)
      (agents : Option (List AgentInfo))
      → AllIn P agents
      → Keeps (diagnose comes_back fuel input agents)
  unfolding diagnose
  diagnose-Keeps comes_back fuel input none h = ((tt, tt), tt)
  diagnose-Keeps comes_back fuel input (some []) h = absurd h
  diagnose-Keeps comes_back fuel input (some (a ∷ [])) h =
      converse-Keeps comes_back (a ∷ []) h fuel (diagnosing a) input h.0
  diagnose-Keeps comes_back fuel input (some (a ∷ b ∷ agents)) h =
      converse-Keeps comes_back (a ∷ b ∷ agents) h fuel selecting input tt

-- An agent that the scan found installed, or the one that the command line names.
abbrev pub IsTarget : UnixPlatform → Machine → Bytes → AgentInfo → Type 0
IsTarget platform machine org a = IsInstalled platform machine a ⊎ (a ≡ named_agent platform org)

All-inl :
    (P Q : AgentInfo → Type 0) (agents : List AgentInfo)
    → All P agents
    → All (λ (a : AgentInfo). P a ⊎ Q a) agents
All-inl P Q [] h = tt
All-inl P Q (a ∷ agents) h = (inl h.0, All-inl P Q agents h.1)

-- Whatever is typed, a check runs only on an agent that is installed with a valid organization id
-- and a configuration file, or on the one that the command line names; so is the agent whose menu is
-- shown, and no session comes to an agent that is not there.
pub run_diagnostic_full-Keeps :
    (platform : UnixPlatform) (machine : Machine) (comes_back : AgentInfo → Bool) (org : Bytes)
    (entries : Option (List RootEntry)) (fuel : ℕ) (input : List Bytes)
    → Keeps
        (IsTarget platform machine org)
        (run_diagnostic_full platform machine comes_back org entries fuel input)
unfolding run_diagnostic_full
run_diagnostic_full-Keeps platform machine comes_back org entries fuel input =
    let scanned = scan_agents_from platform machine (get_agent_data_root platform) entries in
    diagnose-Keeps (IsTarget platform machine org) comes_back fuel input
      (listed_agents platform org scanned)
      (listed_agents-AllIn (IsTarget platform machine org) platform org scanned
        (All-inl (IsInstalled platform machine) (λ (a : AgentInfo). a ≡ named_agent platform org)
          scanned (scan_agents_from-IsInstalled platform machine entries))
        (inr refl))
