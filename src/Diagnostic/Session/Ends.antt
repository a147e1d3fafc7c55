-- ===== src/Diagnostic/Session/Ends.antt =====
-- When a session of the diagnostic mode ends.
use agent_smith_go.Base.{
  ◌≢◌, ◌⊎◌, All, ℕ, zero, suc, ◌+◌, ◌≤◌, ◌≡◌, refl, sym, ◌∙◌, Bool, true, false, List, [], ◌∷◌,
  ◌++◌, arith, Bytes, codes, eq_bytes, length, trim_space, Bool-cases, inl, inr,
}
use agent_smith_go.Diagnostic.Scan.{AgentInfo}
use agent_smith_go.Diagnostic.Session.{
  Stage, selecting, left, watching, panicked, diagnosing, read_line, prompt, select_agent, at_index,
  menu_choice, is_leave, has_multiple, answer_menu, answer_selection, answer_prompt, is_over,
  converse,
}
use agent_smith_go.Diagnostic.Session.Targets.{AtStage, converse-Keeps}
use agent_smith_go.Utils.Sscanf.{scan_int}

module _ (comes_back : AgentInfo → Bool) (agents : List AgentInfo) where
  -- The prompt of a menu or of a selection that meets the end of the input comes back to itself.
  answer_nothing :
      (stage : Stage) → is_over stage ≡ false → (answer_prompt comes_back agents stage []).1 ≡ stage
  unfolding answer_prompt answer_menu answer_selection select_agent at_index scan_int menu_choice
      is_leave eq_bytes trim_space
  answer_nothing selecting h = refl
  answer_nothing (diagnosing a) h = refl
  answer_nothing left h = absurd cc
  answer_nothing watching h = absurd cc
  answer_nothing panicked h = absurd cc

  converse_next :
      (fuel : ℕ) (stage : Stage) (input : List Bytes)
      → is_over stage ≡ false
      → (converse comes_back agents (suc fuel) stage input).1
        ≡ (converse comes_back agents fuel
            (answer_prompt comes_back agents stage (prompt input).0).1
            (prompt input).1).1
  unfolding converse
  converse_next fuel stage input h = rw h

  -- Behind the end of the input nothing ends.
  spins :
      (fuel : ℕ) (stage : Stage)
      → is_over stage ≡ false
      → (converse comes_back agents fuel stage []).1 ≡ stage
  unfolding prompt read_line trim_space
  spins zero stage h = unfold converse in refl
  spins (suc fuel) stage h =
      converse_next fuel stage [] h ∙ rw (answer_nothing stage h) (spins fuel stage h)

  over_stays :
      (fuel : ℕ) (stage : Stage) (input : List Bytes)
      → is_over stage ≡ true
      → (converse comes_back agents fuel stage input).1 ≡ stage
  unfolding converse
  over_stays zero stage input h = refl
  over_stays (suc fuel) stage input h = rw h

  -- A session that is not over behind the last line of its input never is: with more fuel it stays
  -- at the prompt that this line led to.
  pub converse_spins :
      (fuel : ℕ) (stage : Stage) (input : List Bytes)
      → length input ≤ fuel
      → is_over (converse comes_back agents (length input) stage input).1 ≡ false
      → (converse comes_back agents fuel stage input).1
        ≡ (converse comes_back agents (length input) stage input).1
  unfolding prompt read_line
  converse_spins fuel stage [] le h = unfold converse in spins fuel stage h
  converse_spins zero stage (line ∷ input) le h = absurd (omega arith)
  converse_spins (suc fuel) stage (line ∷ input) le h = elim (Bool-cases (is_over stage)) [
    | inl over ↦
        over_stays (suc fuel) stage (line ∷ input) over
        ∙ sym (over_stays (suc (length input)) stage (line ∷ input) over)
    | inr open_ ↦
        converse_next fuel stage (line ∷ input) open_
        ∙ (converse_spins fuel (answer_prompt comes_back agents stage (trim_space line)).1 input
              (omega arith) (rw (converse_next (length input) stage (line ∷ input) open_) at h)
            ∙ sym (converse_next (length input) stage (line ∷ input) open_))
  ]

  over_later :
      (fuel : ℕ) (stage : Stage) (input : List Bytes)
      → is_over stage ≡ true
      → is_over (converse comes_back agents fuel stage input).1 ≡ true
  over_later fuel stage input h = rw (over_stays fuel stage input h) h

  -- "0" goes back to the selection or ends the session, and "0" ends it there.
  leaves_there :
      (stage : Stage)
      → is_over
          (answer_prompt comes_back agents
            (answer_prompt comes_back agents stage (codes "0")).1
            (codes "0")).1
        ≡ true
  unfolding answer_prompt answer_menu answer_selection select_agent menu_choice is_leave eq_bytes
      trim_space
  leaves_there selecting = refl
  leaves_there (diagnosing a) = elim (Bool-cases (has_multiple agents)) [
    | inl many ↦ rw many
    | inr one ↦ rw one
  ]
  leaves_there left = refl
  leaves_there watching = refl
  leaves_there panicked = refl

  leaves_twice :
      (fuel : ℕ) (stage : Stage) (y z : Bytes) (input : List Bytes)
      → trim_space y ≡ codes "0"
      → trim_space z ≡ codes "0"
      → is_over (converse comes_back agents (suc (suc fuel)) stage (y ∷ z ∷ input)).1 ≡ true
  unfolding converse prompt read_line
  leaves_twice fuel stage y z input hy hz =
      let next = (answer_prompt comes_back agents stage (codes "0")).1 in
      rw (hy, hz)
        (ground (
          arith,
          over_later fuel (answer_prompt comes_back agents next (codes "0")).1 input
              (leaves_there stage),
        ))

  converse_over :
      (fuel : ℕ) (stage : Stage) (before after : List Bytes) (y z : Bytes)
      → trim_space y ≡ codes "0"
      → trim_space z ≡ codes "0"
      → length before + 2 ≤ fuel
      → is_over (converse comes_back agents fuel stage (before ++ (y ∷ z ∷ after))).1 ≡ true
  unfolding prompt read_line
  converse_over zero stage before after y z hy hz le = absurd (omega arith)
  converse_over (suc zero) stage before after y z hy hz le = absurd (omega arith)
  converse_over (suc (suc fuel)) stage [] after y z hy hz le =
      leaves_twice fuel stage y z after hy hz
  converse_over (suc (suc fuel)) stage (line ∷ before) after y z hy hz le =
      elim (Bool-cases (is_over stage)) [
        | inl over ↦ over_later (suc (suc fuel)) stage (line ∷ (before ++ (y ∷ z ∷ after))) over
        | inr open_ ↦
            rw (converse_next (suc fuel) stage (line ∷ (before ++ (y ∷ z ∷ after))) open_) (
              converse_over (suc fuel) (answer_prompt comes_back agents stage (trim_space line)).1
                before after y z hy hz (omega arith))
      ]

  sound_stage : (stage : Stage) → stage ≢ panicked → AtStage (λ (a : AgentInfo). Unit {0}) stage
  sound_stage selecting h = tt
  sound_stage (diagnosing a) h = tt
  sound_stage left h = tt
  sound_stage watching h = tt
  sound_stage panicked h = absurd (h refl)

  every_agent : (others : List AgentInfo) → All (λ (a : AgentInfo). Unit {0}) others
  every_agent [] = tt
  every_agent (a ∷ others) = (tt, every_agent others)

  ended :
      (stage : Stage)
      → AtStage (λ (a : AgentInfo). Unit {0}) stage
      → is_over stage ≡ true
      → (stage ≡ left) ⊎ (stage ≡ watching)
  ended selecting p h = absurd cc
  ended (diagnosing a) p h = absurd cc
  ended left p h = inl refl
  ended watching p h = inr refl
  ended panicked p h = absurd p

  -- With two lines "0", one behind the other, every session that has not begun with a panic ends,
  -- whatever was typed before them: it was left, or it follows a log for good, but it does not panic.
  -- The fuel for the prompts up to these lines is enough.
  pub converse_ends :
      (fuel : ℕ) (stage : Stage) (before after : List Bytes) (y z : Bytes)
      → stage ≢ panicked
      → trim_space y ≡ codes "0"
      → trim_space z ≡ codes "0"
      → length before + 2 ≤ fuel
      → let last = (converse comes_back agents fuel stage (before ++ (y ∷ z ∷ after))).1 in
        (last ≡ left) ⊎ (last ≡ watching)
  converse_ends fuel stage before after y z sound hy hz le =
      let P = λ (a : AgentInfo). Unit {0} in
      let input = before ++ (y ∷ z ∷ after) in
      ended (converse comes_back agents fuel stage input).1
        (converse-Keeps P comes_back agents (every_agent agents) fuel stage input
          (sound_stage stage sound)).1
        (converse_over fuel stage before after y z hy hz le)
