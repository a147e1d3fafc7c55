-- ===== src/Diagnostic/Session.antt =====
-- The menu of runDiagnosticFull in cmd/agent_smith/diagnostic.go, with selectAgent and prompt.
pub mod Ends
pub mod Targets
use agent_smith_go.Base.{
  ℕ, zero, suc, ◌+◌, ◌-◌, ◌*◌, ◌^◌, Bool, true, false, not, ◌&&◌, ◌||◌, Option, none, some, List,
  [], ◌∷◌, ◌++◌, ltb, leb, ◌==◌, if◌then◌else◌, ℤ, pos, negsuc, Bytes, codes, eq_bytes, length,
  trim_space,
}
use agent_smith_go.Utils.Sscanf.{scan_int}
use agent_smith_go.Interpreter.Message.{Except, done, failed}
use agent_smith_go.Agent.Installation.{UnixPlatform}
use agent_smith_go.Diagnostic.Scan.{
  AgentInfo, Machine, RootEntry, get_agent_data_root, scan_agents_from, listed_agents,
}

-- The options of the menu that run something.
pub data Check : Type 0 where
  service_status command connectivity temp_dir live_logs all_checks host_info : Check

pub data MenuChoice : Type 0 where
  run_check : Check → MenuChoice
  leave unknown : MenuChoice

pub data SessionEvent : Type 0 where
  ran : Check → AgentInfo → SessionEvent
  invalid_option invalid_selection nothing_installed exiting : SessionEvent

-- Where the program is: at a prompt, behind its end, in a log that it follows for good, or in the
-- panic of agents[0] without an agent.
pub data Stage : Type 0 where
  selecting left watching panicked : Stage
  diagnosing : AgentInfo → Stage

-- reader.ReadString('\n') on the lines of the input; the error at its end is ignored.
unfoldable pub read_line : List Bytes → Bytes × List Bytes
read_line [] = ([], [])
read_line (line ∷ input) = (line, input)

unfoldable pub prompt : List Bytes → Bytes × List Bytes
unfolding read_line
prompt input = let (line, rest) = read_line input in (trim_space line, rest)

-- What one answer to selectAgent does.
pub data Selection : Type 0 where
  selected : AgentInfo → Selection
  exit again : Selection

unfoldable pub nth : List AgentInfo → ℕ → Selection
nth [] i = again
nth (a ∷ agents) zero = selected a
nth (a ∷ agents) (suc i) = nth agents i

unfoldable pub at_index : List AgentInfo → Option ℤ → Selection
unfolding nth
at_index agents (some (pos (suc i))) = if leb (suc i) (length agents) then nth agents i else again
at_index agents _ = again

unfoldable pub select_agent : List AgentInfo → Bytes → Selection
unfolding at_index scan_int
select_agent agents choice =
    if eq_bytes (trim_space choice) (codes "0") then exit else at_index agents (scan_int choice)

unfoldable pub is_leave : Bytes → Bool
is_leave s =
    eq_bytes s (codes "0")
    || (eq_bytes s (codes "q") || (eq_bytes s (codes "quit") || eq_bytes s (codes "exit")))

-- The switch of the menu.
unfoldable pub menu_choice : Bytes → MenuChoice
unfolding is_leave
menu_choice s =
    if eq_bytes s (codes "1")
    then run_check service_status
    else if eq_bytes s (codes "2")
    then run_check command
    else if eq_bytes s (codes "3")
    then run_check connectivity
    else if eq_bytes s (codes "4")
    then run_check temp_dir
    else if eq_bytes s (codes "5")
    then run_check live_logs
    else if eq_bytes s (codes "6")
    then run_check all_checks
    else if eq_bytes s (codes "7")
    then run_check host_info
    else if is_leave s
    then leave
    else unknown

abbrev pub has_multiple : List AgentInfo → Bool
has_multiple agents = ltb 1 (length agents)

-- The log viewer comes back where it cannot open the log, or once its context is cancelled.
unfoldable pub stays_in : (AgentInfo → Bool) → Check → AgentInfo → Bool
stays_in comes_back live_logs a = not (comes_back a)
stays_in comes_back _ a = false

abbrev pub is_over : Stage → Bool
is_over selecting = false
is_over (diagnosing a) = false
is_over _ = true

module _ (comes_back : AgentInfo → Bool) (agents : List AgentInfo) where
  unfoldable pub answer_menu : AgentInfo → MenuChoice → List SessionEvent × Stage
  unfolding stays_in
  answer_menu a (run_check c) =
      (ran c a ∷ [], if stays_in comes_back c a then watching else diagnosing a)
  answer_menu a leave = if has_multiple agents then ([], selecting) else (exiting ∷ [], left)
  answer_menu a unknown = (invalid_option ∷ [], diagnosing a)

  unfoldable pub answer_selection : Selection → List SessionEvent × Stage
  answer_selection (selected a) = ([], diagnosing a)
  answer_selection exit = (exiting ∷ [], left)
  answer_selection again = (invalid_selection ∷ [], selecting)

  -- One answer of the operator.
  unfoldable pub answer_prompt : Stage → Bytes → List SessionEvent × Stage
  unfolding answer_menu answer_selection
  answer_prompt selecting choice = answer_selection (select_agent agents choice)
  answer_prompt (diagnosing a) choice = answer_menu a (menu_choice (trim_space choice))
  answer_prompt stage choice = ([], stage)

  -- The loops, with fuel for the prompts.
  unfoldable pub converse : ℕ → Stage → List Bytes → List SessionEvent × Stage
  unfolding answer_prompt
  converse zero stage input = ([], stage)
  converse (suc fuel) stage input =
      let (choice, rest) = prompt input in
      let (events, stage') = answer_prompt stage choice in
      let (more, last) = converse fuel stage' rest in
      if is_over stage then ([], stage) else (events ++ more, last)

abbrev pub first_stage : List AgentInfo → Stage
first_stage [] = panicked
first_stage (a ∷ []) = diagnosing a
first_stage (a ∷ b ∷ agents) = selecting

unfoldable pub diagnose :
    (AgentInfo → Bool) → ℕ → List Bytes → Option (List AgentInfo) → List SessionEvent × Stage
diagnose comes_back fuel input none = (nothing_installed ∷ [], left)
diagnose comes_back fuel input (some agents) =
    converse comes_back agents fuel (first_stage agents) input

-- runDiagnosticFull
unfoldable pub run_diagnostic_full :
    UnixPlatform
    → Machine
    → (AgentInfo → Bool)
    → Bytes
    → Option (List RootEntry)
    → ℕ
    → List Bytes
    → List SessionEvent × Stage
unfolding diagnose
run_diagnostic_full platform machine comes_back org entries fuel input =
    diagnose comes_back fuel input (
      listed_agents platform org
        (scan_agents_from platform machine (get_agent_data_root platform) entries))
