-- ===== src/Service/Spool/Sorted.antt =====
-- The listing of the spool directory is sorted and complete (cmd/agent_smith/postback_spool.go).
use agent_smith_go.Base.{
  ◌≡◌, refl, inl, inr, arith, Bool, true, false, List, [], ◌∷◌, Bytes, length, keep_if, All,
  Bool-cases,
}
use agent_smith_go.Service.Spool.Name.{lt_bytes}
use agent_smith_go.Service.Spool.{insert_name, sort_names}

-- In the order of bytes, the first name does not come behind the second.
abbrev pub NotAfter : Bytes → Bytes → Type 0
NotAfter a b = lt_bytes b a ≡ false

lt_bytes-asymm : (a b : Bytes) → lt_bytes a b ≡ true → NotAfter a b
unfolding lt_bytes
lt_bytes-asymm a [] h = cc
lt_bytes-asymm [] (y ∷ b) h = refl
lt_bytes-asymm (x ∷ a) (y ∷ b) h = ground (arith, lt_bytes-asymm a b)

NotAfter-trans : (a b c : Bytes) → NotAfter a b → NotAfter b c → NotAfter a c
unfolding lt_bytes
NotAfter-trans [] b [] h k = refl
NotAfter-trans [] b (z ∷ c) h k = refl
NotAfter-trans (x ∷ a) [] c h k = cc
NotAfter-trans (x ∷ a) (y ∷ b) [] h k = cc
NotAfter-trans (x ∷ a) (y ∷ b) (z ∷ c) h k = ground (arith, NotAfter-trans a b c)

-- Every name comes before all that follow it.
abbrev pub IsSorted : List Bytes → Type 0
IsSorted [] = Unit {0}
IsSorted (n ∷ names) = All (NotAfter n) names × IsSorted names

All-weaken :
    (n m : Bytes) (names : List Bytes)
    → NotAfter n m
    → All (NotAfter m) names
    → All (NotAfter n) names
All-weaken n m [] h k = tt
All-weaken n m (x ∷ names) h k = (NotAfter-trans n m x h k.0, All-weaken n m names h k.1)

All-insert_name :
    (P : Bytes → Type 0) (n : Bytes) (names : List Bytes)
    → P n
    → All P names
    → All P (insert_name n names)
unfolding insert_name
All-insert_name P n [] p h = (p, tt)
All-insert_name P n (m ∷ names) p h = elim (Bool-cases (lt_bytes m n)) [
  | inl e ↦ rw e (h.0, All-insert_name P n names p h.1)
  | inr e ↦ rw e (p, h)
]

insert_name-IsSorted :
    (n : Bytes) (names : List Bytes) → IsSorted names → IsSorted (insert_name n names)
unfolding insert_name
insert_name-IsSorted n [] h = (tt, tt)
insert_name-IsSorted n (m ∷ names) h = elim (Bool-cases (lt_bytes m n)) [
  | inl e ↦ rw e (
    All-insert_name (NotAfter m) n names (lt_bytes-asymm m n e) h.0,
    insert_name-IsSorted n names h.1,
  )
  | inr e ↦ rw e ((e, All-weaken n m names e h.0), h)
]

-- Sorting leaves no name behind one that is less in the order of bytes.
pub sort_names-IsSorted : (names : List Bytes) → IsSorted (sort_names names)
unfolding sort_names
sort_names-IsSorted [] = tt
sort_names-IsSorted (n ∷ names) =
    insert_name-IsSorted n (sort_names names) (sort_names-IsSorted names)

count_insert :
    (p : Bytes → Bool) (n : Bytes) (names : List Bytes)
    → length (keep_if p (insert_name n names)) ≡ length (keep_if p (n ∷ names))
unfolding insert_name
count_insert p n [] = refl
count_insert p n (m ∷ names) = ground (arith, count_insert p n names)

-- Sorting changes no count.
pub count_sort :
    (p : Bytes → Bool) (names : List Bytes)
    → length (keep_if p (sort_names names)) ≡ length (keep_if p names)
unfolding sort_names
count_sort p [] = refl
count_sort p (n ∷ names) = ground (arith, count_insert p n (sort_names names), count_sort p names)
