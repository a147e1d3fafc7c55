-- ===== src/Service/Spool/Flush.antt =====
-- What a flush delivers and what it removes (cmd/agent_smith/postback_spool.go).
use agent_smith_go.Base.{
  ℕ, suc, ◌≡◌, refl, ◌∙◌, ◌⊎◌, inl, inr, arith, Bool, true, false, List, [], ◌∷◌, Option, ℤ, ◌-ℤ◌,
  Bytes, length, All, ltb_ℤ, Bool-cases,
}
use agent_smith_go.Service.Spool.{
  DirEntry, SpoolEntry, PostbackSpool, Codec, Disk, list_locked, read_file, Turn, turn, Fate,
  unreadable, corrupt, stale, deliverable, fate_of, fate, flush_loop, flush,
}

-- Every entry but the last was resolved: nothing is sent behind a failed delivery.
abbrev pub StopsAtFailure : (SpoolEntry → Bool) → List SpoolEntry → Type 0
StopsAtFailure deliver [] = Unit {0}
StopsAtFailure deliver (e ∷ []) = Unit {0}
StopsAtFailure deliver (e ∷ f ∷ sent) = (deliver e ≡ true) × StopsAtFailure deliver (f ∷ sent)

-- No entry is older than the cutoff.
abbrev pub AllFresh : ℤ → List SpoolEntry → Type 0
AllFresh cutoff sent = All (λ (e : SpoolEntry). ltb_ℤ e.created_at cutoff ≡ false) sent

StopsAtFailure-cons :
    (deliver : SpoolEntry → Bool) (e : SpoolEntry) (sent : List SpoolEntry)
    → deliver e ≡ true
    → StopsAtFailure deliver sent
    → StopsAtFailure deliver (e ∷ sent)
StopsAtFailure-cons deliver e [] h k = tt
StopsAtFailure-cons deliver e (f ∷ sent) h k = (h, k)

fate_of-fresh :
    (codec : Codec) (cutoff : ℤ) (contents : Option Bytes) (e : SpoolEntry)
    → fate_of codec cutoff contents ≡ deliverable e
    → ltb_ℤ e.created_at cutoff ≡ false
unfolding fate_of
fate_of-fresh codec cutoff contents e h = ground arith

-- What one round can do: go on without sending, send and go on, or send and stop.
abbrev Turns : (SpoolEntry → Bool) → ℤ → List DirEntry → Turn → Type 0
Turns deliver cutoff dir t =
    ((t.sent ≡ []) × (t.goes_on ≡ true))
    ⊎ ((e : SpoolEntry) × (t.sent ≡ e ∷ [])
        × (ltb_ℤ e.created_at cutoff ≡ false)
        × (deliver e ≡ t.goes_on)
        × (t.goes_on ≡ false → t.dir ≡ dir))

turn-Turns :
    (disk : Disk) (deliver : SpoolEntry → Bool) (n : Bytes) (dir : List DirEntry) (cutoff : ℤ)
    (f : Fate)
    → ((e : SpoolEntry) → f ≡ deliverable e → ltb_ℤ e.created_at cutoff ≡ false)
    → Turns deliver cutoff dir (turn disk deliver n dir f)
unfolding turn
turn-Turns disk deliver n dir cutoff unreadable h = inl (refl, refl)
turn-Turns disk deliver n dir cutoff corrupt h = inl (refl, refl)
turn-Turns disk deliver n dir cutoff stale h = inl (refl, refl)
turn-Turns disk deliver n dir cutoff (deliverable e) h = elim (Bool-cases (deliver e)) [
  | inl y ↦ rw y (inr (e, refl, h e refl, y, λ q. cc))
  | inr y ↦ rw y (inr (e, refl, h e refl, y, λ q. refl))
]

module _ (codec : Codec) (disk : Disk) (cutoff : ℤ) (cancelled : ℕ → Bool)
    (deliver : SpoolEntry → Bool) where
  flush_loop_sends :
      (names : List Bytes) (dir : List DirEntry)
      → let sent = (flush_loop codec disk cutoff cancelled deliver names dir).0 in
        AllFresh cutoff sent × StopsAtFailure deliver sent
  unfolding flush_loop
  flush_loop_sends [] dir = (tt, tt)
  flush_loop_sends (n ∷ names) dir =
      let f = fate codec disk cutoff n dir in
      let t = turn disk deliver n dir f in
      let ih = flush_loop_sends names t.dir in
      let c =
        turn-Turns disk deliver n dir cutoff f
          (fate_of-fresh codec cutoff (read_file disk n dir)) in
      elim (Bool-cases (cancelled (suc (length names)))) [
        | inl done ↦ rw done (tt, tt)
        | inr live ↦ rw live (elim c [
          | inl (none_sent, on) ↦ rw (on, none_sent) ih
          | inr (e, one, fresh, resolved, same) ↦ elim (Bool-cases t.goes_on) [
            | inl on ↦
                rw (on, one) ((fresh, ih.0), StopsAtFailure-cons deliver e _ (resolved ∙ on) ih.1)
            | inr off ↦ rw (off, one) ((fresh, tt), tt)
          ]
        ])
      ]

-- A flush gives only unexpired entries to `deliver`, and stops at the first that is not resolved.
pub flush_sends :
    (codec : Codec) (disk : Disk) (now : ℤ) (cancelled : ℕ → Bool) (deliver : SpoolEntry → Bool)
    (s : PostbackSpool)
    → let sent = (flush codec disk now cancelled deliver s).0 in
      AllFresh (now -ℤ s.max_age) sent × StopsAtFailure deliver sent
unfolding flush
flush_sends codec disk now cancelled deliver s =
    flush_loop_sends codec disk (now -ℤ s.max_age) cancelled deliver (list_locked disk s.dir) s.dir
