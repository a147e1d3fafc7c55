-- ===== src/Service/Cycle/Queue.antt =====
-- The message queue of a cycle: enqueueMessage and the workers (cmd/agent_smith/service.go).
use agent_smith_go.Base.{
  ℕ, suc, ◌≤◌, ◌<◌, ◌≡◌, refl, ap, ◌∙◌, sym, arith, Bool, true, false, List, [], ◌∷◌, ◌++◌, Bytes,
  length, length-append, append_assoc, zero, ℤ, pos, ◌+ℤ◌, add_i64, wrap_i64, subst,
}

-- The channel and its surroundings, with the payloads that each part has seen, oldest first.
pub record Queue : Type 0 where
  pub received : List Bytes
  pub waiting : List Bytes
  pub is_draining : Bool
  pub accepted : List Bytes
  pub taken : List Bytes
  pub dropped : List Bytes
  pub dropped_messages : ℤ  -- atomic.Int64
  pub dropped_totals : List ℤ  -- what the notifications of the drops say

abbrev pub open_queue : ℤ → Queue
open_queue dropped_before = record {
  received = [];
  waiting = [];
  is_draining = false;
  accepted = [];
  taken = [];
  dropped = [];
  dropped_messages = dropped_before;
  dropped_totals = [];
}

-- The send case of enqueueMessage.
unfoldable pub accept : Bytes → Queue → Queue
accept payload q = record q {
  received = q.received ++ (payload ∷ []);
  waiting = q.waiting ++ (payload ∷ []);
  accepted = q.accepted ++ (payload ∷ []);
}

-- The draining case of enqueueMessage.
unfoldable pub drop_message : Bytes → Queue → Queue
drop_message payload q =
    let total = add_i64 q.dropped_messages (pos 1) in
    record q {
      received = q.received ++ (payload ∷ []);
      dropped = q.dropped ++ (payload ∷ []);
      dropped_messages = total;
      dropped_totals = q.dropped_totals ++ (total ∷ []);
    }

-- The receive case of a worker.
unfoldable pub take_message : List Bytes → Bytes → Queue → Queue
take_message rest payload q = record q { waiting = rest; taken = q.taken ++ (payload ∷ []) }

-- What the callback, the workers and the teardown may do. A callback whose payload finds the queue
-- full and the cycle not draining has no step: it waits. Workers that are cancelled take no more.
pub data Step (size : ℕ) : Queue → Queue → Type 0 where
  accepts : {q : Queue} (payload : Bytes) → length q.waiting < size → Step size q (accept payload q)
  drops :
      {q : Queue} (payload : Bytes) → q.is_draining ≡ true → Step size q (drop_message payload q)
  takes :
      {q : Queue} (payload : Bytes) (rest : List Bytes)
      → q.waiting ≡ payload ∷ rest
      → Step size q (take_message rest payload q)
  drains : {q : Queue} → Step size q (record q { is_draining = true })

pub data Steps (size : ℕ) : Queue → Queue → Type 0 where
  stay : {q : Queue} → Steps size q q
  step : {p q r : Queue} → Steps size p q → Step size q r → Steps size p r

-- A list is an interleaving of two others.
pub data Interleaves : List Bytes → List Bytes → List Bytes → Type 0 where
  nothing : Interleaves [] [] []
  from_left :
      {all left right : List Bytes} (payload : Bytes)
      → Interleaves all left right
      → Interleaves (all ++ (payload ∷ [])) (left ++ (payload ∷ [])) right
  from_right :
      {all left right : List Bytes} (payload : Bytes)
      → Interleaves all left right
      → Interleaves (all ++ (payload ∷ [])) left (right ++ (payload ∷ []))

-- The int64 numbers behind `before`, as many as are asked for.
abbrev pub totals_from : ℤ → ℕ → List ℤ
totals_from before zero = []
totals_from before (suc n) = wrap_i64 (before +ℤ pos 1) ∷ totals_from (wrap_i64 (before +ℤ pos 1)) n

abbrev pub last_total : ℤ → ℕ → ℤ
last_total before zero = before
last_total before (suc n) = last_total (wrap_i64 (before +ℤ pos 1)) n

totals_from-suc :
    (before : ℤ) (n : ℕ)
    → totals_from before (suc n)
      ≡ totals_from before n ++ (wrap_i64 (last_total before n +ℤ pos 1) ∷ [])
totals_from-suc before zero = refl
totals_from-suc before (suc n) =
    ap (λ l. wrap_i64 (before +ℤ pos 1) ∷ l) (totals_from-suc (wrap_i64 (before +ℤ pos 1)) n)

last_total-suc :
    (before : ℤ) (n : ℕ) → last_total before (suc n) ≡ wrap_i64 (last_total before n +ℤ pos 1)
last_total-suc before zero = refl
last_total-suc before (suc n) = last_total-suc (wrap_i64 (before +ℤ pos 1)) n

-- The promise of the queue.
pub record KeepsOrder (size : ℕ) (before : ℤ) (q : Queue) : Type 0 where
  pub bounded : length q.waiting ≤ size
  pub split : Interleaves q.received (q.taken ++ q.waiting) q.dropped
  pub in_order : q.accepted ≡ q.taken ++ q.waiting
  pub counted : q.dropped_messages ≡ last_total before (length q.dropped)
  pub notified : q.dropped_totals ≡ totals_from before (length q.dropped)
  pub loses_none : q.is_draining ≡ false → q.dropped ≡ []

accept-KeepsOrder :
    (size : ℕ) (before : ℤ) (payload : Bytes) (q : Queue)
    → length q.waiting < size
    → KeepsOrder size before q
    → KeepsOrder size before (accept payload q)
unfolding accept
accept-KeepsOrder size before payload q room v = record {
  bounded = omega (arith, length-append q.waiting (payload ∷ []));
  split =
      subst (λ l. Interleaves (q.received ++ (payload ∷ [])) l q.dropped)
        (append_assoc q.taken q.waiting (payload ∷ [])) (from_left payload v.split);
  in_order =
      ap (λ (l : List Bytes). l ++ (payload ∷ [])) v.in_order
      ∙ append_assoc q.taken q.waiting (payload ∷ []);
  counted = v.counted;
  notified = v.notified;
  loses_none = v.loses_none;
}

length-snoc : (l : List Bytes) (payload : Bytes) → length (l ++ (payload ∷ [])) ≡ suc (length l)
length-snoc l payload = omega (arith, length-append l (payload ∷ []))

next_total :
    (before : ℤ) (q : Queue)
    → q.dropped_messages ≡ last_total before (length q.dropped)
    → add_i64 q.dropped_messages (pos 1) ≡ wrap_i64 (last_total before (length q.dropped) +ℤ pos 1)
unfolding add_i64
next_total before q e = ap (λ t. wrap_i64 (t +ℤ pos 1)) e

drop_message-KeepsOrder :
    (size : ℕ) (before : ℤ) (payload : Bytes) (q : Queue)
    → q.is_draining ≡ true
    → KeepsOrder size before q
    → KeepsOrder size before (drop_message payload q)
unfolding drop_message
drop_message-KeepsOrder size before payload q d v =
    let n = length q.dropped in
    let more = length-snoc q.dropped payload in
    let total = next_total before q v.counted in
    record {
      bounded = v.bounded;
      split = from_right payload v.split;
      in_order = v.in_order;
      counted = total ∙ (sym (last_total-suc before n) ∙ ap (last_total before) (sym more));
      notified =
          ap (λ l. l ++ (add_i64 q.dropped_messages (pos 1) ∷ [])) v.notified
          ∙ (ap (λ t. totals_from before n ++ (t ∷ [])) total
              ∙ (sym (totals_from-suc before n) ∙ ap (totals_from before) (sym more)));
      loses_none = λ h. absurd cc;
    }

take_message-KeepsOrder :
    (size : ℕ) (before : ℤ) (payload : Bytes) (rest : List Bytes) (q : Queue)
    → q.waiting ≡ payload ∷ rest
    → KeepsOrder size before q
    → KeepsOrder size before (take_message rest payload q)
unfolding take_message
take_message-KeepsOrder size before payload rest q e v =
    let moved : q.taken ++ q.waiting ≡ (q.taken ++ (payload ∷ [])) ++ rest =
      ap (λ (l : List Bytes). q.taken ++ l) e ∙ sym (append_assoc q.taken (payload ∷ []) rest) in
    record {
      bounded = omega (arith, ap length e, v.bounded);
      split = subst (λ l. Interleaves q.received l q.dropped) moved v.split;
      in_order = v.in_order ∙ moved;
      counted = v.counted;
      notified = v.notified;
      loses_none = v.loses_none;
    }

Step-KeepsOrder :
    {size : ℕ} {p q : Queue} (before : ℤ)
    → Step size p q
    → KeepsOrder size before p
    → KeepsOrder size before q
Step-KeepsOrder {size = size} before (accepts {q} payload room) v =
    accept-KeepsOrder size before payload q room v
Step-KeepsOrder {size = size} before (drops {q} payload d) v =
    drop_message-KeepsOrder size before payload q d v
Step-KeepsOrder {size = size} before (takes {q} payload rest e) v =
    take_message-KeepsOrder size before payload rest q e v
Step-KeepsOrder before (drains {q}) v = record {
  bounded = v.bounded;
  split = v.split;
  in_order = v.in_order;
  counted = v.counted;
  notified = v.notified;
  loses_none = λ h. absurd cc;
}

Steps-preserve :
    {size : ℕ} {p q : Queue} (before : ℤ)
    → Steps size p q
    → KeepsOrder size before p
    → KeepsOrder size before q
Steps-preserve before stay v = v
Steps-preserve before (step path s) v = Step-KeepsOrder before s (Steps-preserve before path v)

-- Whatever the interleaving of the callback, the workers and the teardown, every payload that the
-- callback has received is, in the order of their arrival, either taken, or still waiting, or
-- dropped; the queue holds no more payloads than its size; none is dropped before the teardown; and
-- the notifications of the drops count them in int64 arithmetic, one after the other, from the
-- total that earlier cycles have left.
pub Steps-KeepsOrder :
    (size : ℕ) (before : ℤ) (q : Queue)
    → Steps size (open_queue before) q
    → KeepsOrder size before q
Steps-KeepsOrder size before q path = Steps-preserve before path (record {
  bounded = omega arith;
  split = nothing;
  in_order = refl;
  counted = refl;
  notified = refl;
  loses_none = λ _. refl;
})
