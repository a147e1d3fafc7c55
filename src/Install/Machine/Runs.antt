-- ===== src/Install/Machine/Runs.antt =====
-- Rules for what a part of a mode does to the machine, one for each way in which parts are put together.
use agent_smith_go.Base.{
  Bool, true, false, ◌≡◌, refl, sym, ap, ◌∙◌, subst, Option, none, some, List, [], ◌∷◌, Bytes,
  if_holds,
}
use agent_smith_go.Interpreter.Message.{Except, done, failed}
use agent_smith_go.Install.Act.{
  Call, close, Answered, Outcome, Act, after, then_do, ◌>>=◌, ◌>>◌, lift, perform, attempt,
  succeeded, deferring,
}
use agent_smith_go.Install.Machine.{Machine, effect, is_allowed, step, replay, replay-++}

-- Every call of the outcome is allowed, and behind them `Q` holds of the machine, of whether `svc`
-- holds a handle, and of the result.
abbrev pub Runs : {A : Type 0} → Machine → Outcome A → (Machine → Bool → Except A → Type 0) → Type 0
Runs m o Q = (n : Machine) × (replay o.events (some m) ≡ some n) × Q n o.live o.result

pub lift_runs :
    {A : Type 0} (Q : Machine → Bool → Except A → Type 0) (m : Machine) (live : Bool) (r : Except A)
    → Q m live r
    → Runs m (lift r live) Q
unfolding replay
lift_runs Q m live r q = (m, refl, q)

-- On an equal machine.
pub runs_at :
    {A : Type 0} (Q : Machine → Bool → Except A → Type 0) (n m : Machine) (p : Act A) (live : Bool)
    → n ≡ m
    → Runs m (p live) Q
    → Runs n (p live) Q
runs_at Q n m p live e r = subst (λ k. Runs k (p live) Q) (sym e) r

weaken :
    {A : Type 0} (P Q : Except A → Type 0) (r : Except A)
    → P r
    → ((a : A) → P (done a) → Q (done a))
    → ((e : Bytes) → P (failed e) → Q (failed e))
    → Q r
weaken P Q (done a) p good bad = good a p
weaken P Q (failed e) p good bad = bad e p

-- A weaker property, for the two kinds of result.
pub weaken_runs :
    {A : Type 0} (P Q : Machine → Bool → Except A → Type 0) (m : Machine) (o : Outcome A)
    → Runs m o P
    → ((n : Machine) (l : Bool) (a : A) → P n l (done a) → Q n l (done a))
    → ((n : Machine) (l : Bool) (e : Bytes) → P n l (failed e) → Q n l (failed e))
    → Runs m o Q
weaken_runs P Q m o (n, e, p) good bad =
    (n, e, weaken (P n o.live) (Q n o.live) o.result p (good n o.live) (bad n o.live))

after_runs :
    {A : Type 0} (Q : Machine → Bool → Except A → Type 0) (m n : Machine) (events : List Answered)
    (o : Outcome A)
    → replay events (some m) ≡ some n
    → Runs n o Q
    → Runs m (after events o) Q
unfolding after
after_runs Q m n events o e (k, h, q) =
    (k, replay-++ events o.events (some m) ∙ (ap (replay o.events) e ∙ h), q)

then_do_runs :
    {A B : Type 0} (P : Machine → Bool → Except A → Type 0) (Q : Machine → Bool → Except B → Type 0)
    (m : Machine) (events : List Answered) (live : Bool) (r : Except A) (f : A → Act B)
    → Runs m (record { events = events; live = live; result = r }) P
    → ((n : Machine) (l : Bool) (a : A) → P n l (done a) → Runs n (f a l) Q)
    → ((n : Machine) (l : Bool) (e : Bytes) → P n l (failed e) → Q n l (failed e))
    → Runs m (then_do (record { events = events; live = live; result = r }) f) Q
unfolding then_do
then_do_runs P Q m events live (done a) f (n, e, p) next stop =
    after_runs Q m n events (f a live) e (next n live a p)
then_do_runs P Q m events live (failed e) f (n, h, p) next stop = (n, h, stop n live e p)

pub bind_runs :
    {A B : Type 0} (P : Machine → Bool → Except A → Type 0) (Q : Machine → Bool → Except B → Type 0)
    (m : Machine) (live : Bool) (p : Act A) (f : A → Act B)
    → Runs m (p live) P
    → ((n : Machine) (l : Bool) (a : A) → P n l (done a) → Runs n (f a l) Q)
    → ((n : Machine) (l : Bool) (e : Bytes) → P n l (failed e) → Q n l (failed e))
    → Runs m ((p >>= f) live) Q
bind_runs P Q m live p f = then_do_runs P Q m (p live).events (p live).live (p live).result f

-- One call, its error and what follows it.
pub perform_runs :
    {B : Type 0} (Q : Machine → Bool → Except B → Type 0) (m n : Machine) (live : Bool)
    (call : Call) (o : Option Bytes) (wrap : Bytes → Bytes) (held : Bool → Bool) (k : Act B)
    → step (call, true) m ≡ some n
    → Runs n (k (held live)) Q
    → ((e : Bytes)
        → o ≡ some e
        → (k : Machine) × (step (call, false) m ≡ some k) × Q k live (failed (wrap e)))
    → Runs m ((perform call o wrap held >> k) live) Q
unfolding perform then_do replay
perform_runs Q m n live call none wrap held k e next stop =
    after_runs Q m n ((call, true) ∷ []) (k (held live)) (ap (replay []) e) next
perform_runs Q m n live call (some x) wrap held k e next stop =
    let (z, h, q) = stop x refl in (z, ap (replay []) h, q)

-- A call that fails, whatever would follow.
pub refused_runs :
    {B : Type 0} (Q : Machine → Bool → Except B → Type 0) (m n : Machine) (live : Bool)
    (call : Call) (e : Bytes) (wrap : Bytes → Bytes) (held : Bool → Bool) (k : Act B)
    → step (call, false) m ≡ some n
    → Q n live (failed (wrap e))
    → Runs m ((perform call (some e) wrap held >> k) live) Q
unfolding perform then_do replay
refused_runs Q m n live call e wrap held k h q = (n, ap (replay []) h, q)

-- One call and its error.
pub last_runs :
    (Q : Machine → Bool → Except (Unit {0}) → Type 0) (m n : Machine) (live : Bool) (call : Call)
    (o : Option Bytes) (wrap : Bytes → Bytes) (held : Bool → Bool)
    → step (call, true) m ≡ some n
    → Q n (held live) (done tt)
    → ((e : Bytes)
        → o ≡ some e
        → (k : Machine) × (step (call, false) m ≡ some k) × Q k live (failed (wrap e)))
    → Runs m (perform call o wrap held live) Q
unfolding perform replay
last_runs Q m n live call none wrap held e next stop = (n, ap (replay []) e, next)
last_runs Q m n live call (some x) wrap held e next stop =
    let (z, h, q) = stop x refl in (z, ap (replay []) h, q)

-- A call whose error is only logged, at the end.
pub attempt_last_runs :
    (Q : Machine → Bool → Except (Unit {0}) → Type 0) (m n : Machine) (live : Bool) (call : Call)
    (o : Option Bytes) (held : Bool → Bool)
    → step (call, succeeded o) m ≡ some n
    → Q n (held live) (done tt)
    → Runs m (attempt call o held live) Q
unfolding attempt replay succeeded
attempt_last_runs Q m n live call none held e q = (n, ap (replay []) e, q)
attempt_last_runs Q m n live call (some x) held e q = (n, ap (replay []) e, q)

-- A call that may fail: what follows runs in both cases.
pub attempt_runs :
    {B : Type 0} (Q : Machine → Bool → Except B → Type 0) (m n : Machine) (live : Bool)
    (call : Call) (o : Option Bytes) (held : Bool → Bool) (k : Act B)
    → step (call, succeeded o) m ≡ some n
    → Runs n (k (held live)) Q
    → Runs m ((attempt call o held >> k) live) Q
unfolding attempt then_do replay succeeded
attempt_runs Q m n live call none held k e next =
    after_runs Q m n ((call, true) ∷ []) (k (held live)) (ap (replay []) e) next
attempt_runs Q m n live call (some x) held k e next =
    after_runs Q m n ((call, false) ∷ []) (k (held live)) (ap (replay []) e) next

pub lift_then_runs :
    {A B : Type 0} (Q : Machine → Bool → Except B → Type 0) (m : Machine) (live : Bool)
    (r : Except A) (f : A → Act B)
    → ((a : A) → r ≡ done a → Runs m (f a live) Q)
    → ((e : Bytes) → r ≡ failed e → Q m live (failed e))
    → Runs m ((lift r >>= f) live) Q
unfolding then_do replay after
lift_then_runs Q m live (done a) f next stop = next a refl
lift_then_runs Q m live (failed e) f next stop = (m, refl, stop e refl)

pub step_close :
    (o : Option Bytes) (m : Machine)
    → m.handle ≡ true
    → step (close, succeeded o) m ≡ some (record m { handle = false })
unfolding step effect is_allowed succeeded
step_close none m h = rw (h) refl
step_close (some e) m h = rw (h) refl

without_handle : (m : Machine) → false ≡ m.handle → record m { handle = false } ≡ m
without_handle m h = ap (λ b. record m { handle = b }) h

-- A deferred Close leaves no handle, provided that `svc` is kept in step with the machine.
pub deferring_runs :
    {A : Type 0} (Q : Machine → Bool → Except A → Type 0) (m : Machine) (live : Bool)
    (c : Option Bytes) (p : Act A)
    → Runs m (p live) (λ n l r. (l ≡ n.handle) × Q (record n { handle = false }) l r)
    → Runs m (deferring c p live) Q
unfolding deferring replay
deferring_runs Q m live c p (n, e, (h, q)) =
    if_holds (λ o. Runs m o Q) (p live).live _ _
      (λ on. (
        record n { handle = false },
        replay-++ (p live).events ((close, succeeded c) ∷ []) (some m)
            ∙ (ap (replay ((close, succeeded c) ∷ [])) e
                ∙ ap (replay []) (step_close c n (sym h ∙ on))),
        q,
      ))
      (λ off.
        (n, e, subst (λ k. Q k (p live).live (p live).result) (without_handle n (sym off ∙ h)) q))
