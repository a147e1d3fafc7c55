-- ===== src/Service/Cycle/Teardown.antt =====
-- The order of a connection cycle and what it returns (cmd/agent_smith/service.go).
use agent_smith_go.Base.{
  ◌≡◌, ◌↔◌, ◌⊎◌, arith, Bool, true, false, Option, List, [], ◌∷◌, ◌++◌, ℤ, Bytes, codes, if_holds,
}
use agent_smith_go.Agent.Device.{Device, sas_token_lifetime}
use agent_smith_go.Service.Cycle.{
  TokenWaitResult, completed, timed_out, interrupted, wait_token, Event, starts_workers, connects,
  subscribes, arms_renewal, notifies, publishes_twin, starts_flush, closes_draining, unsubscribes,
  disconnects, cancels, closes_queue, joins_workers, CycleEnd, stopped, lost, renewal_due,
  Surroundings, Cycle, leaves, listen, online, subscribing, connecting, renew_after, cycle_body,
  teardown, run_cycle, generic_error,
}

-- The stages of a cycle that keeps the order.
pub data Phase : Type 0 where
  idle working dialing published awaiting serving draining drained disconnected : Phase
  cancelled queue_closed joined broken : Phase

-- The order that a cycle promises: workers before the connection, the subscription behind it; a
-- callback that waits is released before the unsubscribe and the disconnect, and the workers are
-- cancelled before the queue is closed and they are awaited.
abbrev pub moves : Phase → Event → Phase
moves idle (starts_workers n) = working
moves working (connects t) = dialing
moves working cancels = cancelled
moves dialing (notifies s) = dialing
moves dialing publishes_twin = published
moves dialing disconnects = disconnected
moves published (subscribes t) = awaiting
moves awaiting (notifies s) = awaiting
moves awaiting starts_flush = serving
moves awaiting closes_draining = drained
moves serving (arms_renewal t) = serving
moves serving (notifies s) = serving
moves serving closes_draining = draining
moves draining unsubscribes = drained
moves draining disconnects = disconnected
moves drained disconnects = disconnected
moves disconnected cancels = cancelled
moves cancelled closes_queue = queue_closed
moves queue_closed joins_workers = joined
moves _ _ = broken

abbrev pub phase_after : Phase → List Event → Phase
phase_after p [] = p
phase_after p (e ∷ es) = phase_after (moves p e) es

-- The events of a cycle and its teardown lead from a phase to the last one.
abbrev Finishes : Surroundings → Phase → Cycle → Type 0
Finishes env p c = phase_after p (c.events ++ teardown env c) ≡ joined

left_early :
    (env : Surroundings) (should_return : Bool) (text : Bytes)
    → env.options_fail ≡ false
    → Finishes env awaiting (leaves [] should_return true)
      × Finishes env awaiting (leaves (notifies text ∷ []) should_return true)
      × Finishes env dialing (leaves [] should_return false)
      × Finishes env dialing (leaves (notifies text ∷ []) should_return false)
unfolding teardown
left_early env should_return text ok = ground arith

left_online :
    (env : Surroundings) (wait : ℤ) (returns : Bool) (text said : Bytes)
    → env.options_fail ≡ false
    → Finishes env awaiting (record {
      events = notifies text ∷ starts_flush ∷ arms_renewal wait ∷ notifies said ∷ [];
      should_return = returns;
      clear_backoff = true;
      exit_code = 0;
      connected = true;
      subscribed = true;
    })
unfolding teardown
left_online env wait returns text said ok = ground arith

ends_online :
    (env : Surroundings) (lifetime : ℤ) (e : CycleEnd)
    → env.options_fail ≡ false
    → Finishes env awaiting (record {
      events = (online lifetime e).0;
      should_return = (online lifetime e).1;
      clear_backoff = true;
      exit_code = 0;
      connected = true;
      subscribed = true;
    })
unfolding online listen
ends_online env lifetime stopped ok = left_online env (renew_after lifetime) true _ _ ok
ends_online env lifetime lost ok = left_online env (renew_after lifetime) false _ _ ok
ends_online env lifetime renewal_due ok = left_online env (renew_after lifetime) false _ _ ok

subscribing-Finishes :
    (lifetime : ℤ) (env : Surroundings) (r : TokenWaitResult)
    → env.options_fail ≡ false
    → Finishes env awaiting (subscribing lifetime env r)
unfolding subscribing online listen
subscribing-Finishes lifetime env timed_out ok = (left_early env false [] ok).0
subscribing-Finishes lifetime env interrupted ok = (left_early env true _ ok).1
subscribing-Finishes lifetime env completed ok =
    if_holds (Finishes env awaiting) env.subscribe.error _ _ (λ _. (left_early env false [] ok).0)
      (λ _. ends_online env lifetime env.cycle_end ok)

connecting-Finishes :
    (lifetime : ℤ) (device : Device) (env : Surroundings) (r : TokenWaitResult)
    → env.options_fail ≡ false
    → Finishes env dialing (connecting lifetime device env r)
unfolding connecting teardown
connecting-Finishes lifetime device env timed_out ok = (left_early env false [] ok).2
connecting-Finishes lifetime device env interrupted ok =
    (left_early env true (codes "AgentStatus:Stopped") ok).3
connecting-Finishes lifetime device env completed ok =
    if_holds (Finishes env dialing) env.connect.error _ _ (λ _. (left_early env false [] ok).2)
      (λ _. subscribing-Finishes lifetime env (wait_token env.subscribe) ok)

without_client :
    (env : Surroundings)
    → env.options_fail ≡ true
    → Finishes env working (record (leaves [] true false) { exit_code = generic_error })
unfolding teardown
without_client env h = ground arith

-- Whatever the broker and the service manager do, a cycle keeps the order that it promises and comes
-- to its end: the workers are started first and awaited last, the client is disconnected if it was
-- made, and only a subscribed client is unsubscribed, when the waiting callback has been released.
pub run_cycle-joined :
    (override : Option ℤ) (device : Device) (env : Surroundings)
    → phase_after idle (run_cycle override device env).events ≡ joined
unfolding run_cycle cycle_body teardown
run_cycle-joined override device env =
    let lifetime = sas_token_lifetime override device in
    if_holds (Finishes env working) env.options_fail _ _ (without_client env)
      (λ ok. connecting-Finishes lifetime device env (wait_token env.connect) ok)

-- The connection was made and the subscription acknowledged.
abbrev pub Established : Surroundings → Type 0
Established env =
    (env.options_fail ≡ false)
    × (wait_token env.connect ≡ completed)
    × (env.connect.error ≡ false)
    × (wait_token env.subscribe ≡ completed)
    × (env.subscribe.error ≡ false)

-- The service is stopped during the connect, during the subscribe or while the agent is online.
abbrev pub Stopped : Surroundings → Type 0
Stopped env =
    (wait_token env.connect ≡ interrupted)
    ⊎ (((wait_token env.connect ≡ completed)
          × (env.connect.error ≡ false)
          × (wait_token env.subscribe ≡ interrupted))
        ⊎ (Established env × (env.cycle_end ≡ stopped)))

-- A cycle clears the backoff exactly when it was established. It ends the service exactly when the
-- options cannot be made, with exit code 1, or on a stop, with exit code 0.
pub run_cycle_lem :
    (override : Option ℤ) (device : Device) (env : Surroundings)
    → let c = run_cycle override device env in
      ((c.clear_backoff ≡ true) ↔ Established env)
      × ((c.should_return ≡ true)
          ↔ ((env.options_fail ≡ true) ⊎ ((env.options_fail ≡ false) × Stopped env)))
      × ((env.options_fail ≡ true) → c.exit_code ≡ 1)
      × ((env.options_fail ≡ false) → c.exit_code ≡ 0)
unfolding run_cycle cycle_body connecting subscribing online listen
run_cycle_lem override device env = ground arith
