-- ===== src/Service/Spool/Removal.antt =====
-- What a flush of the spool removes (cmd/agent_smith/postback_spool.go).
use agent_smith_go.Base.{
  ◌≡◌, refl, sym, ap, ◌∙◌, inl, inr, arith, Bool, true, false, not, List, [], ◌∷◌, none, ℤ, ◌-ℤ◌,
  Bytes, length, keep_if, All, Option-cases,
}
use agent_smith_go.Service.Spool.Sorted.{count_sort}
use agent_smith_go.Service.Spool.Prune.{
  mem_name, without, Removable, without-nil, without-remove_name,
}
use agent_smith_go.Service.Spool.Bound.{entry_count, entry_names-without, In, In-self}
use agent_smith_go.Service.Spool.{
  DirEntry, SpoolEntry, PostbackSpool, Codec, Disk, sort_names, entry_names, list_locked,
  remove_name, read_file, remove, turn, Fate, unreadable, corrupt, stale, deliverable, fate_of,
  fate, flush_loop, flush,
}

-- The fate of a name, found in the directory as it was, lets the file go.
abbrev pub LetsGo : (SpoolEntry → Bool) → Fate → Type 0
LetsGo deliver unreadable = ⊥
LetsGo deliver corrupt = Unit {0}
LetsGo deliver stale = Unit {0}
LetsGo deliver (deliverable e) = deliver e ≡ true

-- The names of some files that a flush lets go, and the directory without them.
abbrev pub Remains : Codec → Disk → ℤ → (SpoolEntry → Bool) → List DirEntry → List DirEntry → Type 0
Remains codec disk cutoff deliver dir left =
    (gone : List Bytes) × (left ≡ without gone dir)
    × All (λ n. LetsGo deliver (fate codec disk cutoff n dir)) gone

module _ (codec : Codec) (disk : Disk) (cutoff : ℤ) (deliver : SpoolEntry → Bool)
    (ok : Removable disk) (readable : (n : Bytes) → disk.read_fails n ≡ false)
    (resolves : (e : SpoolEntry) → deliver e ≡ true) where
  remove_name-absent :
      (n : Bytes) (dir : List DirEntry) → read_file disk n dir ≡ none → remove_name n dir ≡ dir
  unfolding read_file remove_name
  remove_name-absent n [] h = refl
  remove_name-absent n (e ∷ dir) h = ground (arith, readable n, remove_name-absent n dir)

  turn_removes :
      (n : Bytes) (dir : List DirEntry)
      → let t = turn disk deliver n dir (fate codec disk cutoff n dir) in
        (t.dir ≡ remove_name n dir) × (t.goes_on ≡ true)
  unfolding turn remove fate_of
  turn_removes n dir = elim (Option-cases (read_file disk n dir)) [
    | inl e ↦ rw e (sym (remove_name-absent n dir e), refl)
    | inr (c, e) ↦ elim (Option-cases (codec.decode c)) [
      | inl d ↦ ground (arith, ok n)
      | inr (entry, d) ↦ ground (arith, ok n, resolves entry)
    ]
  ]

  flush_loop_empties :
      (names : List Bytes) (dir : List DirEntry)
      → (flush_loop codec disk cutoff (λ k. false) deliver names dir).1 ≡ without names dir
  unfolding flush_loop
  flush_loop_empties [] dir = sym (without-nil dir)
  flush_loop_empties (n ∷ names) dir =
      let (gone, on) = turn_removes n dir in
      rw on (flush_loop_empties names _ ∙ ap (without names) gone ∙ without-remove_name n names dir)

none_left :
    (names raw : List Bytes)
    → All (In names) raw
    → length (keep_if (λ n. not (mem_name n names)) raw) ≡ 0
none_left names [] h = refl
none_left names (n ∷ raw) h = ground (arith, h.0, none_left names raw h.1)

-- If the directory and its files can be read and removed, the context stays alive and every delivery
-- is resolved, a flush leaves no entry behind.
pub flush_drains :
    (codec : Codec) (disk : Disk) (now : ℤ) (deliver : SpoolEntry → Bool) (s : PostbackSpool)
    → Removable disk
    → ((n : Bytes) → disk.read_fails n ≡ false)
    → disk.read_dir_fails ≡ false
    → ((e : SpoolEntry) → deliver e ≡ true)
    → entry_count (flush codec disk now (λ k. false) deliver s).1 ≡ 0
unfolding flush entry_count list_locked
flush_drains codec disk now deliver s ok readable listed resolves =
    let raw = entry_names s.dir in
    let names = sort_names raw in
    rw
      (
        flush_loop_empties codec disk (now -ℤ s.max_age) deliver ok readable resolves,
        entry_names-without,
        listed,
        ← count_sort (λ n. not (mem_name n names)) raw,
      )
      (none_left names names (In-self names))
