-- ===== src/Tests/CycleTest.antt =====
-- Connection cycles, the reconnect loop and the message queue on sample behaviours.
use agent_smith_go.Base.{
  ◌≡◌, ◌⊎◌, ◌↔◌, refl, arith, true, false, none, some, [], ◌∷◌, pos, codes, ◌==◌,
}
use agent_smith_go.Service.Cycle.{completed, Token, lost, Surroundings, run_cycle}
use agent_smith_go.Service.Cycle.Teardown.{
  idle, joined, phase_after, Established, Stopped, run_cycle-joined, run_cycle_lem,
}
use agent_smith_go.Service.Cycle.Loop.{Outlook, run_loop, run_loop-exits}
use agent_smith_go.Service.Cycle.Queue.{
  Queue, open_queue, accept, drop_message, take_message, accepts, drops, takes, drains, Steps, stay,
  step, KeepsOrder, Steps-KeepsOrder,
}
use agent_smith_go.Tests.Sample.{device}

abbrev resolved_token : Token
resolved_token = record { is_done = false; first = completed; error = false }

-- The connection is made, and lost when the agent has been online.
abbrev broken_line : Surroundings
broken_line = record {
  options_fail = false;
  connect = resolved_token;
  subscribe = resolved_token;
  cycle_end = lost;
  is_connected = false;
}

run_cycle-joined_example : phase_after idle (run_cycle none device broken_line).events ≡ joined
run_cycle-joined_example = run_cycle-joined none device broken_line

run_cycle_lem_example :
    let c = run_cycle none device broken_line in
    ((c.clear_backoff ≡ true) ↔ Established broken_line)
    × ((c.should_return ≡ true) ↔ ((false ≡ true) ⊎ ((false ≡ false) × Stopped broken_line)))
    × (false ≡ true → c.exit_code ≡ 1)
    × (false ≡ false → c.exit_code ≡ 0)
run_cycle_lem_example = run_cycle_lem none device broken_line

-- Two failures, an established cycle, and a stop during the fourth.
abbrev outlook : Outlook
outlook = record {
  draw = λ i x. pos 0;
  draw_cleared = λ i x. pos 0;
  should_return = λ i. i == 3;
  clear_backoff = λ i. i == 2;
  exit_code = λ i. 0;
  stopped_in_wait = λ i. false;
}

run_loop-exits_example : ((run_loop outlook 10).cycles ≡ 4) × ((run_loop outlook 10).exit ≡ some 0)
run_loop-exits_example =
    run_loop-exits outlook 3 10 (omega arith) (λ k h. ground arith) (λ k h. refl) refl

-- One payload is accepted and taken, one waits, and one is dropped.
abbrev first_accepted : Queue
first_accepted = accept (codes "a") (open_queue (pos 5))

abbrev both_accepted : Queue
both_accepted = accept (codes "b") first_accepted

abbrev one_taken : Queue
one_taken = take_message (codes "b" ∷ []) (codes "a") both_accepted

abbrev last_dropped : Queue
last_dropped = drop_message (codes "c") (record one_taken { is_draining = true })

history : Steps 2 (open_queue (pos 5)) last_dropped
unfolding accept take_message
history =
    step
      (step
        (step
          (step (step stay (accepts (codes "a") (omega arith))) (accepts (codes "b") (omega arith)))
          (takes (codes "a") (codes "b" ∷ []) refl))
        drains)
      (drops (codes "c") refl)

Steps-KeepsOrder_example : KeepsOrder 2 (pos 5) last_dropped
Steps-KeepsOrder_example = Steps-KeepsOrder 2 (pos 5) last_dropped history
