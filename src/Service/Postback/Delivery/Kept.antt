-- ===== src/Service/Postback/Delivery/Kept.antt =====
-- Which results sendPostbackWithRetry puts on the spool (cmd/agent_smith/service.go).
use agent_smith_go.Base.{
  ℕ, suc, ◌≤◌, ◌<◌, ◌≡◌, refl, arith, Bool, true, false, [], ◌∷◌, ◌++◌, Option, none, some, ap,
  Bytes, codes, sym, subst, ◌%◌, ◌^◌, ◌+◌,
}
use agent_smith_go.Service.Spool.{SpoolEntry, PostbackSpool, Disk, EnqueueError, enqueue, commit}
use agent_smith_go.Service.Spool.Prune.{Removable}
use agent_smith_go.Service.Spool.Stored.{IsStored, enqueue-IsStored}
use agent_smith_go.Service.Spool.Name.{file_name}
use agent_smith_go.Service.Spool.Listed.{IsListed, store_file-IsListed, has_spool_suffix-file_name}
use agent_smith_go.Service.Postback.{
  Surroundings, Ending, resolved, aborted, exhausted, Trip, allowed_attempts, postback_trip, Shelf,
  Delivered, after_loop, send_postback_with_retry,
}
use agent_smith_go.Service.Postback.Delivery.{done_at, Fails, Course, postback_trip-Course}

-- The operations of the file system that enqueue needs all succeed.
abbrev pub IsSound : Disk → Type 0
IsSound disk =
    Removable disk
    × (disk.mkdir_fails ≡ false)
    × (disk.write_fails ≡ false)
    × (disk.rename_fails ≡ false)

enqueue_succeeds :
    (shelf : Shelf) (entry : SpoolEntry) (c : Bytes)
    → IsSound shelf.disk
    → shelf.codec.encode entry ≡ some c
    → (enqueue shelf.codec shelf.disk shelf.now entry shelf.spool).1 ≡ none
unfolding enqueue commit
enqueue_succeeds shelf entry c sound e = ground arith

-- Every attempt failed transiently and none was cancelled: the loop has run dry.
runs_dry :
    (settled cancelled : ℕ → Bool) (allowed n : ℕ) (e : Ending)
    → ((k : ℕ) → 1 ≤ k → k ≤ allowed → settled k ≡ false)
    → ((k : ℕ) → 2 ≤ k → k ≤ allowed → cancelled k ≡ false)
    → 1 ≤ n
    → Course settled cancelled 1 (suc allowed) n e
    → e ≡ exhausted
runs_dry settled cancelled allowed n resolved fails free one (a, b, _, d) =
    absurd (ground (arith, fails n a (omega arith)))
runs_dry settled cancelled allowed n aborted fails free one (a, b, c, _, d) =
    absurd (ground (arith, free (suc n) (omega arith) (omega arith)))
runs_dry settled cancelled allowed n exhausted fails free one c = refl

-- The name that the next entry of a spool gets.
abbrev pub name_of : SpoolEntry → PostbackSpool → Bytes
name_of entry s = file_name entry.created_at ((s.seq + 1) % 2 ^ 64)

-- What a caller sees when the result was put on the spool, and that a later listing finds it.
abbrev pub IsKept : Bytes → Shelf → Disk → SpoolEntry → Delivered → Type 0
IsKept post_id shelf later entry d =
    (d.notified ≡ (codes "AgentPostbackFailed:" ++ post_id) ∷ [])
    × (t : PostbackSpool) × (d.spool ≡ some (t, none))
    × IsStored shelf.codec shelf.disk shelf.now entry shelf.spool t
    × IsListed later (name_of entry shelf.spool) t.dir

abbrev pub entry_of : Bytes → Bytes → Shelf → SpoolEntry
entry_of post_id bytes shelf = record { post_id = post_id; result = bytes; created_at = shelf.now }

stored-IsListed :
    (shelf : Shelf) (later : Disk) (entry : SpoolEntry) (t : PostbackSpool)
    → later.read_dir_fails ≡ false
    → IsStored shelf.codec shelf.disk shelf.now entry shelf.spool t
    → IsListed later (name_of entry shelf.spool) t.dir
stored-IsListed shelf later entry t reads (contents, _, dir, _) =
    let name = name_of entry shelf.spool in
    subst (IsListed later name) (sym dir) (
      store_file-IsListed later name contents _
        (has_spool_suffix-file_name entry.created_at ((shelf.spool.seq + 1) % 2 ^ 64)) reads)

after_loop-IsKept :
    (trip : Trip) (e : Ending) (post_id bytes c : Bytes) (shelf : Shelf) (later : Disk)
    → e ≡ exhausted
    → IsSound shelf.disk
    → shelf.codec.encode (entry_of post_id bytes shelf) ≡ some c
    → later.read_dir_fails ≡ false
    → IsKept post_id shelf later
        (entry_of post_id bytes shelf)
        (after_loop post_id bytes (some shelf) trip e)
unfolding after_loop
after_loop-IsKept trip e post_id bytes c shelf later dry sound enc reads =
    let entry = entry_of post_id bytes shelf in
    let quiet = enqueue_succeeds shelf entry c sound enc in
    let t = (enqueue shelf.codec shelf.disk shelf.now entry shelf.spool).0 in
    let stored =
      enqueue-IsStored shelf.codec shelf.disk shelf.now entry shelf.spool sound.0 quiet in
    rw dry (
      refl,
      t,
      ap some (ap (λ (e : Option EnqueueError). (t, e)) quiet),
      stored,
      stored-IsListed shelf later entry t reads stored,
    )

-- A result whose every allowed attempt asks for another is not lost: if the context lives on, the
-- entry encodes and the file system works, a plugin notification names it and it is on disk in the
-- spool, and the name under which it can be read is in the listing that a later flush works
-- through, if the directory can be read then.
pub send_postback_with_retry-IsKept :
    (env : Surroundings) (post_id bytes c : Bytes) (shelf : Shelf) (later : Disk)
    → ((k : ℕ) → 1 ≤ k → k ≤ allowed_attempts env → done_at env k ≡ false)
    → ((k : ℕ) → 2 ≤ k → k ≤ allowed_attempts env → env.cancelled k ≡ false)
    → IsSound shelf.disk
    → shelf.codec.encode (entry_of post_id bytes shelf) ≡ some c
    → later.read_dir_fails ≡ false
    → IsKept post_id shelf later
        (entry_of post_id bytes shelf)
        (send_postback_with_retry env post_id bytes (some shelf))
unfolding send_postback_with_retry
send_postback_with_retry-IsKept env post_id bytes c shelf later fails free sound enc reads =
    let t = postback_trip env in
    let (one, _, course) = postback_trip-Course env in
    after_loop-IsKept t t.ending post_id bytes c shelf later
      (runs_dry (done_at env) env.cancelled (allowed_attempts env) t.attempts t.ending fails free
        one course)
      sound enc reads

settles :
    (settled cancelled : ℕ → Bool) (allowed n k : ℕ) (e : Ending)
    → 1 ≤ k
    → k ≤ allowed
    → Fails settled 1 k
    → settled k ≡ true
    → ((i : ℕ) → 2 ≤ i → i ≤ k → cancelled i ≡ false)
    → 1 ≤ n
    → Course settled cancelled 1 (suc allowed) n e
    → (n ≡ k) × (e ≡ resolved)
settles settled cancelled allowed n k resolved one le fails hit free pos_n (a, b, before, at) =
    let not_less : n < k → ⊥ = λ (h : n < k). absurd (ground (arith, fails n a h)) in
    let not_more : k < n → ⊥ = λ (h : k < n). absurd (ground (arith, before k one h)) in
    (ground (arith, not_less, not_more), refl)
settles settled cancelled allowed n k aborted one le fails hit free pos_n (a, b, c, before, at) =
    let early : suc n ≤ k → ⊥ =
      λ (h : suc n ≤ k). absurd (ground (arith, free (suc n) (omega arith) h)) in
    let late : k < suc n → ⊥ = λ (h : k < suc n). absurd (ground (arith, before k one h)) in
    absurd (ground (arith, early, late))
settles settled cancelled allowed n k exhausted one le fails hit free pos_n (a, before) =
    absurd (ground (arith, before k one (omega arith)))

after_loop-resolved :
    (trip : Trip) (e : Ending) (post_id bytes : Bytes) (shelf : Shelf)
    → e ≡ resolved
    → let d = after_loop post_id bytes (some shelf) trip e in
      (d.notified ≡ []) × (d.spool ≡ some (shelf.spool, none))
unfolding after_loop
after_loop-resolved trip e post_id bytes shelf r = rw r (refl, refl)

-- If attempt `k` is allowed and is the first to settle the matter, and the context lives until then,
-- exactly `k` attempts are made, no failure is notified, and the spool is left alone.
pub send_postback_with_retry-settled :
    (env : Surroundings) (post_id bytes : Bytes) (shelf : Shelf) (k : ℕ)
    → 1 ≤ k
    → k ≤ allowed_attempts env
    → Fails (done_at env) 1 k
    → done_at env k ≡ true
    → ((i : ℕ) → 2 ≤ i → i ≤ k → env.cancelled i ≡ false)
    → let d = send_postback_with_retry env post_id bytes (some shelf) in
      ((postback_trip env).attempts ≡ k) × (d.notified ≡ []) × (d.spool ≡ some (shelf.spool, none))
unfolding send_postback_with_retry
send_postback_with_retry-settled env post_id bytes shelf k one le fails hit free =
    let t = postback_trip env in
    let (pos_n, _, course) = postback_trip-Course env in
    let (n, e) =
      settles (done_at env) env.cancelled (allowed_attempts env) t.attempts k t.ending one le fails
        hit free pos_n course in
    let (quiet, same) = after_loop-resolved t t.ending post_id bytes shelf e in (n, quiet, same)
