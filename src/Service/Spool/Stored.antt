-- ===== src/Service/Spool/Stored.antt =====
-- What a successful enqueue leaves on disk (cmd/agent_smith/postback_spool.go).
use agent_smith_go.Base.{
  ℕ, ◌+◌, ◌^◌, ◌%◌, ◌≡◌, refl, ap, ◌∙◌, inl, inr, arith, false, List, [], ◌∷◌, none, some, ℤ, pos,
  pos_part, ◌-ℤ◌, sub_i64, Bytes, Option-cases, eq_bytes_refl,
}
use agent_smith_go.Service.Spool.Name.{file_name}
use agent_smith_go.Service.Spool.{
  DirEntry, SpoolEntry, PostbackSpool, Codec, Disk, list_locked, remove_locked, drop_expired, evict,
  prune_locked, store_file, commit, enqueue, read_file,
}
use agent_smith_go.Service.Spool.Prune.{without, Removable, doomed, prune_locked_dir}

read_file-store_file :
    (disk : Disk) (n contents : Bytes) (dir : List DirEntry)
    → disk.read_fails n ≡ false
    → read_file disk n (store_file n contents dir) ≡ some contents
unfolding read_file store_file
read_file-store_file disk n contents dir h = ground (arith, eq_bytes_refl n)

seq-remove_locked :
    (disk : Disk) (n : Bytes) (s : PostbackSpool) → (remove_locked disk n s).seq ≡ s.seq
unfolding remove_locked
seq-remove_locked disk n s = ground arith

seq-drop_expired :
    (disk : Disk) (cutoff : ℤ) (names : List Bytes) (s : PostbackSpool)
    → (drop_expired disk cutoff names s).1.seq ≡ s.seq
unfolding drop_expired
seq-drop_expired disk cutoff [] s = refl
seq-drop_expired disk cutoff (n ∷ names) s = ground (
  arith,
  seq-remove_locked disk n s,
  seq-drop_expired disk cutoff names (remove_locked disk n s),
  seq-drop_expired disk cutoff names s,
)

seq-evict :
    (disk : Disk) (keep : ℕ) (names : List Bytes) (s : PostbackSpool)
    → (evict disk keep names s).seq ≡ s.seq
unfolding evict
seq-evict disk keep [] s = refl
seq-evict disk keep (n ∷ names) s =
    ground (arith, seq-remove_locked disk n s, seq-evict disk keep names (remove_locked disk n s))

seq-prune_locked :
    (disk : Disk) (now keep : ℤ) (s : PostbackSpool) → (prune_locked disk now keep s).seq ≡ s.seq
unfolding prune_locked
seq-prune_locked disk now keep s =
    seq-evict disk (pos_part keep) _ _
    ∙ seq-drop_expired disk (now -ℤ s.max_age) (list_locked disk s.dir) s

-- The directory behind a successful enqueue: the pruned one with the encoded entry under its name.
abbrev pub IsStored : Codec → Disk → ℤ → SpoolEntry → PostbackSpool → PostbackSpool → Type 0
IsStored codec disk now entry s t =
    let n = file_name entry.created_at ((s.seq + 1) % 2 ^ 64) in
    (contents : Bytes) × (codec.encode entry ≡ some contents)
    × (t.dir
        ≡ store_file n contents (
            without
              (doomed (now -ℤ s.max_age) (pos_part (sub_i64 s.max_entries (pos 1)))
                (list_locked disk s.dir))
              s.dir))
    × (disk.read_fails n ≡ false → read_file disk n t.dir ≡ some contents)

commit_stores :
    (disk : Disk) (contents : Bytes) (created_at : ℤ) (s : PostbackSpool)
    → (commit disk contents created_at s).1 ≡ none
    → (commit disk contents created_at s).0.dir
      ≡ store_file (file_name created_at ((s.seq + 1) % 2 ^ 64)) contents s.dir
unfolding commit
commit_stores disk contents created_at s h = ground arith

committed :
    (codec : Codec) (disk : Disk) (now : ℤ) (entry : SpoolEntry) (s : PostbackSpool) (c : Bytes)
    → codec.encode entry ≡ some c
    → (enqueue codec disk now entry s).1 ≡ none
    → (enqueue codec disk now entry s).0.dir
      ≡ store_file
          (file_name entry.created_at ((s.seq + 1) % 2 ^ 64))
          c
          (prune_locked disk now (sub_i64 s.max_entries (pos 1)) s).dir
unfolding enqueue
committed codec disk now entry s c e h =
    let keep = sub_i64 s.max_entries (pos 1) in
    let t = prune_locked disk now keep s in
    ground (arith, commit_stores disk c entry.created_at t, seq-prune_locked disk now keep s)

encoded :
    (codec : Codec) (disk : Disk) (now : ℤ) (entry : SpoolEntry) (s : PostbackSpool)
    → (enqueue codec disk now entry s).1 ≡ none
    → (c : Bytes) × (codec.encode entry ≡ some c)
unfolding enqueue
encoded codec disk now entry s h = elim (Option-cases (codec.encode entry)) [
  | inl e ↦ absurd (ground arith)
  | inr p ↦ p
]

-- If every removal succeeds and an enqueue reports no error, the entry is on disk under a name made
-- of its time and the next sequence number, where it can be read back, beside exactly the entries
-- that pruning to one less than the limit keeps.
pub enqueue-IsStored :
    (codec : Codec) (disk : Disk) (now : ℤ) (entry : SpoolEntry) (s : PostbackSpool)
    → Removable disk
    → (enqueue codec disk now entry s).1 ≡ none
    → IsStored codec disk now entry s (enqueue codec disk now entry s).0
enqueue-IsStored codec disk now entry s ok h =
    let keep = sub_i64 s.max_entries (pos 1) in
    let (c, e) = encoded codec disk now entry s h in
    let name = file_name entry.created_at ((s.seq + 1) % 2 ^ 64) in
    let stored = committed codec disk now entry s c e h in
    let dir = (prune_locked disk now keep s).dir in
    (
      c,
      e,
      stored ∙ ap (store_file name c) (prune_locked_dir disk ok now keep s),
      λ r. ap (read_file disk name) stored ∙ read_file-store_file disk name c dir r,
    )
