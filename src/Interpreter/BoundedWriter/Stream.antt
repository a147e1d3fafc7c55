-- ===== src/Interpreter/BoundedWriter/Stream.antt =====
-- What a bounded writer holds after any sequence of writes (internal/interpreter/bounded_writer.go).
use agent_smith_go.Base.{
  ℕ, zero, suc, ◌+◌, ◌-◌, ◌^◌, ◌≤◌, ◌<◌, min, ◌≡◌, ◌↔◌, refl, ap, ◌∙◌, sym, arith, true, List, [],
  ◌∷◌, ◌++◌, append-nil, append_assoc, pos, add_i64, length, take, length-append, length-take,
  Bytes, sub_i64, ltb, dec_lt,
}
use agent_smith_go.Interpreter.BoundedWriter.{
  BoundedWriter, new_bounded_writer, append_locked, write, is_truncated,
}

-- The writes of a command, in order.
pub writes : BoundedWriter → List Bytes → BoundedWriter
writes w [] = w
writes w (p ∷ ps) = writes (write w p).0 ps

abbrev pub stream : List Bytes → Bytes
stream [] = []
stream (p ∷ ps) = p ++ stream ps

-- The state that a writer with this limit is in when the command has produced `s`.
pub record Holds (limit : ℕ) (s : Bytes) (w : BoundedWriter) : Type 0 where
  pub same_limit : w.limit ≡ pos limit
  pub prefix : w.kept ≡ take limit s
  pub total : w.produced ≡ pos (length s)
  pub allocated : length w.kept ≤ w.capacity
  pub bounded : w.capacity ≤ limit

take-append_short :
    (n : ℕ) (s p : Bytes) → length s ≤ n → take n (s ++ p) ≡ s ++ take (n - length s) p
take-append_short n [] p h = ap (λ (k : ℕ). take k p) (omega arith)
take-append_short zero (x ∷ s) p h = absurd (omega arith)
take-append_short (suc n) (x ∷ s) p h =
    ap (◌∷◌ x) (take-append_short n s p (omega arith) ∙ ap (λ (k : ℕ). s ++ take k p) (omega arith))

take-append_long : (n : ℕ) (s p : Bytes) → n ≤ length s → take n (s ++ p) ≡ take n s
take-append_long zero s p h = refl
take-append_long (suc n) [] p h = absurd (omega arith)
take-append_long (suc n) (x ∷ s) p h = ap (◌∷◌ x) (take-append_long n s p (omega arith))

take-all : (n : ℕ) (s : Bytes) → length s ≤ n → take n s ≡ s
take-all zero [] h = refl
take-all zero (x ∷ s) h = absurd (omega arith)
take-all (suc n) [] h = refl
take-all (suc n) (x ∷ s) h = ap (◌∷◌ x) (take-all n s (omega arith))

-- A write that fits whole, in part or not at all, with the lists kept shut.
append_locked-room :
    (w : BoundedWriter) (p : Bytes) (limit : ℕ)
    → w.limit ≡ pos limit
    → length w.kept + length p ≤ limit
    → w.capacity ≤ limit
    → (length w.kept + length p ≤ (append_locked w p).capacity)
      × ((append_locked w p).capacity ≤ limit)
unfolding append_locked
append_locked-room w p limit e h c = ground arith

module _ (limit : ℕ) (s p : Bytes) (w : BoundedWriter) (h : Holds limit s w)
    (small : limit < 2 ^ 63) (room : length s + length p < 2 ^ 63) where
  kept_length : length w.kept ≡ min limit (length s)
  kept_length = ap length h.prefix ∙ length-take limit s

  remaining : sub_i64 w.limit (pos (length w.kept)) ≡ pos (limit - length w.kept)
  unfolding sub_i64
  remaining = ground (arith, h.same_limit, kept_length)

  counted : add_i64 w.produced (pos (length p)) ≡ pos (length (s ++ p))
  unfolding add_i64
  counted = ground (arith, h.total, length-append s p)

  -- The writer with the bytes counted, before any is kept.
  tallied : BoundedWriter
  tallied = record w { produced = add_i64 w.produced (pos (length p)) }

  write_full : limit ≤ length s → (write w p).0 ≡ tallied
  unfolding write tallied
  write_full full = rw remaining (ground (arith, kept_length))

  write_room :
      length s < limit → (write w p).0 ≡ append_locked tallied (take (limit - length w.kept) p)
  unfolding write tallied
  write_room lt = rw remaining (ground (arith, kept_length, take-all (limit - length w.kept) p))

  kept_whole : length s ≤ limit → w.kept ≡ s
  kept_whole le = h.prefix ∙ take-all limit s le

  kept_room : length s < limit → w.kept ++ take (limit - length w.kept) p ≡ take limit (s ++ p)
  kept_room lt = rw (kept_whole (omega arith)) (sym (take-append_short limit s p (omega arith)))

  write-Holds : Holds limit (s ++ p) (write w p).0
  unfolding tallied append_locked
  write-Holds = elim (dec_lt (length s) limit) [
    | yes lt ↦
        let fits =
          append_locked-room tallied (take (limit - length w.kept) p) limit h.same_limit
            (omega (arith, kept_length, length-take (limit - length w.kept) p)) h.bounded in
        rw (write_room lt) (record {
          same_limit = h.same_limit;
          prefix = kept_room lt;
          total = counted;
          allocated = omega (arith, fits, length-append w.kept (take (limit - length w.kept) p));
          bounded = fits.1;
        })
    | no ge ↦ rw (write_full (omega arith)) (record {
      same_limit = h.same_limit;
      prefix = h.prefix ∙ sym (take-append_long limit s p (omega arith));
      total = counted;
      allocated = h.allocated;
      bounded = h.bounded;
    })
  ]

writes-Holds :
    (limit : ℕ) (s : Bytes) (ps : List Bytes) (w : BoundedWriter)
    → Holds limit s w
    → limit < 2 ^ 63
    → length s + length (stream ps) < 2 ^ 63
    → Holds limit (s ++ stream ps) (writes w ps)
unfolding writes
writes-Holds limit s [] w h small room = rw append-nil h
writes-Holds limit s (p ∷ ps) w h small room =
    let first = write-Holds limit s p w h small (omega (arith, length-append p (stream ps))) in
    rw (← append_assoc) (
      writes-Holds limit (s ++ p) ps (write w p).0 first small
        (omega (arith, length-append s p, length-append p (stream ps))))

new-Holds : (limit : ℕ) → Holds limit [] (new_bounded_writer (pos limit))
unfolding new_bounded_writer
new-Holds limit = record {
  same_limit = refl;
  prefix = sym (take-all limit [] (omega arith));
  total = refl;
  allocated = omega arith;
  bounded = omega arith;
}

-- However a command splits its output into writes, a writer with an int limit ends up with exactly
-- the first `limit` bytes in a buffer that never grew past the limit, and has counted them all.
pub writes-take :
    (limit : ℕ) (ps : List Bytes)
    → limit < 2 ^ 63
    → length (stream ps) < 2 ^ 63
    → Holds limit (stream ps) (writes (new_bounded_writer (pos limit)) ps)
writes-take limit ps small room =
    writes-Holds limit [] ps (new_bounded_writer (pos limit)) (new-Holds limit) small (omega arith)

pub is_truncated-writes :
    (limit : ℕ) (ps : List Bytes)
    → limit < 2 ^ 63
    → length (stream ps) < 2 ^ 63
    → is_truncated (writes (new_bounded_writer (pos limit)) ps) ≡ ltb limit (length (stream ps))
unfolding is_truncated
is_truncated-writes limit ps small room =
    let h = writes-take limit ps small room in
    ground (arith, h.total, ap length h.prefix, length-take limit (stream ps))

-- The truncation flag is set exactly when the command produced more than the limit.
pub is_truncated_iff :
    (limit : ℕ) (ps : List Bytes)
    → limit < 2 ^ 63
    → length (stream ps) < 2 ^ 63
    → (is_truncated (writes (new_bounded_writer (pos limit)) ps) ≡ true)
      ↔ (limit < length (stream ps))
is_truncated_iff limit ps small room = rw (is_truncated-writes limit ps small room) (ground arith)
