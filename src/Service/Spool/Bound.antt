-- ===== src/Service/Spool/Bound.antt =====
-- The spool holds no more entries than it may (cmd/agent_smith/postback_spool.go).
use agent_smith_go.Base.{
  ℕ, zero, ◌+◌, ◌-◌, ◌^◌, ◌%◌, ◌≤◌, ◌<◌, ◌≡◌, refl, ap, ◌∙◌, inl, inr, arith, Bool, true, false,
  not, List, [], ◌∷◌, ◌++◌, ℤ, pos, pos_part, ◌-ℤ◌, sub_i64, Bytes, length, take, keep_if, All,
  Bool-cases, Option-cases, suc, eq_bytes, eq_bytes_refl,
}
use agent_smith_go.Service.Spool.Name.{file_name}
use agent_smith_go.Service.Spool.Sorted.{count_sort}
use agent_smith_go.Service.Spool.{
  DirEntry, SpoolEntry, PostbackSpool, Codec, Disk, sort_names, entry_names, list_locked,
  remove_name, is_expired, prune_locked, store_file, commit, enqueue,
}
use agent_smith_go.Service.Spool.Prune.{
  mem_name, without, Removable, mem_name-append, doomed, prune_locked_dir,
}

pub All-map {ℓ κ ρ} :
    {A : Type ℓ} (P : A → Type κ) (Q : A → Type ρ) (xs : List A)
    → ((x : A) → P x → Q x)
    → All P xs
    → All Q xs
All-map P Q [] f h = tt
All-map P Q (x ∷ xs) f h = (f x h.0, All-map P Q xs f h.1)

abbrev pub In : List Bytes → Bytes → Type 0
In names n = mem_name n names ≡ true

pub In-self : (names : List Bytes) → All (In names) names
unfolding mem_name
In-self [] = tt
In-self (n ∷ names) = (
  ground (arith, eq_bytes_refl n),
  All-map (In names) (In (n ∷ names)) names (λ m h. ground arith) (In-self names),
)

In-left : (xs ys : List Bytes) → All (In (xs ++ ys)) xs
In-left xs ys =
    All-map (In xs) (In (xs ++ ys)) xs (λ n h. ground (arith, mem_name-append n xs ys)) (In-self xs)

In-right : (xs ys : List Bytes) → All (In (xs ++ ys)) ys
In-right xs ys =
    All-map (In ys) (In (xs ++ ys)) ys (λ n h. ground (arith, mem_name-append n xs ys)) (In-self ys)

-- A name that passes the test stands among those that the test keeps.
In-keep_if :
    (p : Bytes → Bool) (gone names : List Bytes)
    → All (In gone) (keep_if p names)
    → All (λ n. p n ≡ true → In gone n) names
In-keep_if p gone [] h = tt
In-keep_if p gone (n ∷ names) h = elim (Bool-cases (p n)) [
  | inl e ↦
      let k : In gone n × All (In gone) (keep_if p names) = rw e at h in
      (λ _. k.0, In-keep_if p gone names k.1)
  | inr e ↦
      let k : All (In gone) (keep_if p names) = rw e at h in (λ q. cc, In-keep_if p gone names k)
]

-- What is left of a listing when the expired names and the first survivors are gone.
kept_count :
    (gone old : Bytes → Bool) (k : ℕ) (names : List Bytes)
    → All (λ n. old n ≡ true → gone n ≡ true) names
    → All (λ n. gone n ≡ true) (take k (keep_if (λ n. not (old n)) names))
    → length (keep_if (λ n. not (gone n)) names) ≤ length (keep_if (λ n. not (old n)) names) - k
kept_count gone old k [] h a = omega arith
kept_count gone old zero (n ∷ names) h a = ground (arith, h.0, kept_count gone old zero names h.1)
kept_count gone old (suc k) (n ∷ names) h a =
    ground (arith, h.0, kept_count gone old k names h.1, kept_count gone old (suc k) names h.1)

pub entry_names-without :
    (names : List Bytes) (dir : List DirEntry)
    → entry_names (without names dir) ≡ keep_if (λ n. not (mem_name n names)) (entry_names dir)
unfolding without entry_names
entry_names-without names [] = refl
entry_names-without names (e ∷ dir) = ground (arith, entry_names-without names dir)

-- How many entries the directory holds.
unfoldable pub entry_count : PostbackSpool → ℕ
entry_count s = length (entry_names s.dir)

doomed_count :
    (cutoff : ℤ) (keep : ℕ) (raw : List Bytes)
    → length (keep_if (λ n. not (mem_name n (doomed cutoff keep (sort_names raw)))) raw) ≤ keep
unfolding doomed
doomed_count cutoff keep raw =
    let names = sort_names raw in
    let survivors = keep_if (λ n. not (is_expired cutoff n)) names in
    let expired = keep_if (is_expired cutoff) names in
    let k = length survivors - keep in
    let gone = expired ++ take k survivors in
    let left = In-keep_if (is_expired cutoff) gone names (In-left expired (take k survivors)) in
    omega (
      arith,
      count_sort (λ n. not (mem_name n gone)) raw,
      kept_count (λ n. mem_name n gone) (is_expired cutoff) k names left
          (In-right expired (take k survivors)),
    )

-- If the directory can be read and every removal succeeds, at most `keep` entries survive pruning.
pub entry_count-prune_locked :
    (disk : Disk) (now keep : ℤ) (s : PostbackSpool)
    → Removable disk
    → disk.read_dir_fails ≡ false
    → entry_count (prune_locked disk now keep s) ≤ pos_part keep
unfolding entry_count list_locked
entry_count-prune_locked disk now keep s ok readable =
    rw (prune_locked_dir disk ok now keep s, entry_names-without, list_locked, readable)
      (doomed_count (now -ℤ s.max_age) (pos_part keep) (entry_names s.dir))

entry_count-keep_if :
    (p : DirEntry → Bool) (dir : List DirEntry)
    → length (entry_names (keep_if p dir)) ≤ length (entry_names dir)
unfolding entry_names
entry_count-keep_if p [] = omega arith
entry_count-keep_if p (e ∷ dir) = ground (arith, entry_count-keep_if p dir)

entry_count-store_file :
    (n contents : Bytes) (dir : List DirEntry)
    → length (entry_names (store_file n contents dir)) ≤ suc (length (entry_names dir))
unfolding store_file entry_names remove_name
entry_count-store_file n contents dir =
    ground (arith, entry_count-keep_if (λ e. not (eq_bytes e.name n)) dir)

entry_count-commit :
    (disk : Disk) (contents : Bytes) (created_at : ℤ) (s : PostbackSpool)
    → entry_count (commit disk contents created_at s).0 ≤ suc (entry_count s)
unfolding entry_count commit
entry_count-commit disk contents created_at s =
    ground
      (arith, entry_count-store_file (file_name created_at ((s.seq + 1) % 2 ^ 64)) contents s.dir)

one_less : (limit : ℕ) → suc limit < 2 ^ 63 → sub_i64 (pos (suc limit)) (pos 1) ≡ pos limit
unfolding sub_i64
one_less limit h = ground arith

-- A spool whose limit is a positive int holds at most that many entries behind an enqueue, if the
-- directory can be made and read and every removal succeeds, whatever else fails.
pub enqueue-bounded :
    (codec : Codec) (disk : Disk) (now : ℤ) (entry : SpoolEntry) (s : PostbackSpool) (limit : ℕ)
    → Removable disk
    → disk.read_dir_fails ≡ false
    → disk.mkdir_fails ≡ false
    → s.max_entries ≡ pos (suc limit)
    → suc limit < 2 ^ 63
    → entry_count (enqueue codec disk now entry s).0 ≤ suc limit
unfolding enqueue
enqueue-bounded codec disk now entry s limit ok readable made e small =
    let keep = sub_i64 s.max_entries (pos 1) in
    let k : pos_part keep ≡ limit =
      ap (λ m. pos_part (sub_i64 m (pos 1))) e ∙ ap pos_part (one_less limit small) in
    let b : entry_count (prune_locked disk now keep s) ≤ limit =
      rw k at (entry_count-prune_locked disk now keep s ok readable) in
    elim (Option-cases (codec.encode entry)) [
      | inl n ↦ ground (arith, b)
      | inr (c, n) ↦
          ground
            (arith, b, entry_count-commit disk c entry.created_at (prune_locked disk now keep s))
    ]
