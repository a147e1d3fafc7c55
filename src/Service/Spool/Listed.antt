-- ===== src/Service/Spool/Listed.antt =====
-- Which files listLocked finds (cmd/agent_smith/postback_spool.go).
use agent_smith_go.Base.{
  ℕ, ◌≡◌, refl, ◌∙◌, ap, arith, Bool, true, false, ◌||◌, List, [], ◌∷◌, ◌++◌, ℤ, Bytes, Bool-cases,
  inl, inr, any, eq_bytes, eq_bytes_refl,
}
use agent_smith_go.Service.Spool.Name.{
  has_spool_suffix, spool_file_suffix, file_name, padded_nanos, zero_padded, lt_bytes,
}
use agent_smith_go.Service.Spool.{
  DirEntry, Disk, insert_name, sort_names, entry_names, list_locked, store_file,
}

has_spool_suffix-append :
    (s t : Bytes) → has_spool_suffix t ≡ true → has_spool_suffix (s ++ t) ≡ true
unfolding has_spool_suffix
has_spool_suffix-append [] t h = h
has_spool_suffix-append (c ∷ s) t h = ground (arith, has_spool_suffix-append s t h)

pub has_spool_suffix-file_name :
    (nanos : ℤ) (seq : ℕ) → has_spool_suffix (file_name nanos seq) ≡ true
unfolding file_name
has_spool_suffix-file_name nanos seq = has_spool_suffix-append (padded_nanos nanos) _ (
    has_spool_suffix-append (b'-' ∷ []) _ (
      has_spool_suffix-append (zero_padded 6 seq) spool_file_suffix
        (unfold has_spool_suffix in unfold eq_bytes in refl)))

any-insert_name :
    (p : Bytes → Bool) (n : Bytes) (names : List Bytes)
    → any p (insert_name n names) ≡ (p n || any p names)
unfolding insert_name
any-insert_name p n [] = refl
any-insert_name p n (m ∷ names) = elim (Bool-cases (lt_bytes m n)) [
  | inl e ↦ rw e (ground (arith, any-insert_name p n names))
  | inr e ↦ rw e refl
]

any-sort_names : (p : Bytes → Bool) (names : List Bytes) → any p (sort_names names) ≡ any p names
unfolding sort_names
any-sort_names p [] = refl
any-sort_names p (n ∷ names) =
    any-insert_name p n (sort_names names) ∙ ap (λ b. p n || b) (any-sort_names p names)

-- A listing of the directory contains the name.
abbrev pub IsListed : Disk → Bytes → List DirEntry → Type 0
IsListed disk n dir = any (eq_bytes n) (list_locked disk dir) ≡ true

-- A stored file with the suffix of the spool is listed, unless the directory cannot be read.
pub store_file-IsListed :
    (disk : Disk) (n contents : Bytes) (dir : List DirEntry)
    → has_spool_suffix n ≡ true
    → disk.read_dir_fails ≡ false
    → IsListed disk n (store_file n contents dir)
unfolding list_locked store_file entry_names
store_file-IsListed disk n contents dir suffix reads =
    rw (reads, any-sort_names, suffix) (ground (arith, eq_bytes_refl n))
