-- ===== src/Service/Spool.antt =====
-- cmd/agent_smith/postback_spool.go: the bounded, file-backed queue of undelivered results.
pub mod Name
pub mod Sorted
pub mod Prune
pub mod Bound
pub mod Stored
pub mod Listed
pub mod Flush
pub mod Removal
use agent_smith_go.Base.{
  ℕ, zero, suc, ◌+◌, ◌-◌, ◌*◌, ◌%◌, ◌^◌, Bool, true, false, not, ◌&&◌, ◌||◌, Option, none, some,
  List, [], ◌∷◌, ◌++◌, ℤ, pos, pos_part, ◌-ℤ◌, ltb, ltb_ℤ, leb_ℤ, if◌then◌else◌, Bytes, codes,
  length, second, hour, sub_i64, add_i64, eq_bytes, keep_if,
}
use Name.{has_spool_suffix, lt_bytes, spool_file_time, file_name}

-- A file or a directory below the spool directory.
pub record DirEntry : Type 0 where
  pub name : Bytes
  pub is_dir : Bool
  pub contents : Bytes

pub record SpoolEntry : Type 0 where
  pub post_id : Bytes
  pub result : Bytes
  pub created_at : ℤ  -- nanoseconds since the epoch

pub record PostbackSpool : Type 0 where
  pub max_entries : ℤ
  pub max_age : ℤ
  pub seq : ℕ  -- uint64
  pub dropped_total : ℤ  -- int64
  pub dir : List DirEntry

-- encoding/json on an entry.
pub record Codec : Type 0 where
  pub encode : SpoolEntry → Option Bytes
  pub decode : Bytes → Option SpoolEntry

-- What the file system does during one call.
pub record Disk : Type 0 where
  pub mkdir_fails : Bool
  pub read_dir_fails : Bool
  pub read_fails : Bytes → Bool
  pub remove_fails : Bytes → Bool
  pub write_fails : Bool
  pub rename_fails : Bool

abbrev pub default_spool_max_entries : ℤ
default_spool_max_entries = pos 100

abbrev pub default_spool_max_age : ℤ
default_spool_max_age = pos (24 * hour)

unfoldable pub new_postback_spool : List DirEntry → ℤ → ℤ → PostbackSpool
new_postback_spool dir max_entries max_age = record {
  max_entries = if leb_ℤ max_entries (pos 0) then default_spool_max_entries else max_entries;
  max_age = if leb_ℤ max_age (pos 0) then default_spool_max_age else max_age;
  seq = 0;
  dropped_total = pos 0;
  dir = dir;
}

-- sort.Strings
unfoldable pub insert_name : Bytes → List Bytes → List Bytes
insert_name n [] = n ∷ []
insert_name n (m ∷ names) = if lt_bytes m n then m ∷ insert_name n names else n ∷ m ∷ names

unfoldable pub sort_names : List Bytes → List Bytes
sort_names [] = []
sort_names (n ∷ names) = insert_name n (sort_names names)

-- The names of the entries, in the directory's order.
unfoldable pub entry_names : List DirEntry → List Bytes
entry_names [] = []
entry_names (e ∷ dir) =
    if e.is_dir || not (has_spool_suffix e.name) then entry_names dir else e.name ∷ entry_names dir

unfoldable pub list_locked : Disk → List DirEntry → List Bytes
list_locked disk dir = if disk.read_dir_fails then [] else sort_names (entry_names dir)

-- os.Remove, where it does not fail.
unfoldable pub remove_name : Bytes → List DirEntry → List DirEntry
remove_name n dir = keep_if (λ (e : DirEntry). not (eq_bytes e.name n)) dir

unfoldable pub remove_locked : Disk → Bytes → PostbackSpool → PostbackSpool
remove_locked disk n s =
    if disk.remove_fails n
    then s
    else record s { dir = remove_name n s.dir; dropped_total = add_i64 s.dropped_total (pos 1) }

-- ok && ts.Before(cutoff)
abbrev before : ℤ → Option ℤ → Bool
before cutoff none = false
before cutoff (some ts) = ltb_ℤ ts cutoff

abbrev pub is_expired : ℤ → Bytes → Bool
is_expired cutoff n = before cutoff (spool_file_time n)

-- The first loop of pruneLocked: the names that have not expired, and the spool without the others.
unfoldable pub drop_expired : Disk → ℤ → List Bytes → PostbackSpool → List Bytes × PostbackSpool
drop_expired disk cutoff [] s = ([], s)
drop_expired disk cutoff (n ∷ names) s =
    let (rest, t) =
      drop_expired disk cutoff names (if is_expired cutoff n then remove_locked disk n s else s) in
    (if is_expired cutoff n then rest else n ∷ rest, t)

-- The second loop: the oldest go until `keep` names remain.
unfoldable pub evict : Disk → ℕ → List Bytes → PostbackSpool → PostbackSpool
evict disk keep [] s = s
evict disk keep (n ∷ survivors) s =
    let rest = evict disk keep survivors (remove_locked disk n s) in
    if ltb keep (length (n ∷ survivors)) then rest else s

unfoldable pub prune_locked : Disk → ℤ → ℤ → PostbackSpool → PostbackSpool
prune_locked disk now keep s =
    let (survivors, t) = drop_expired disk (now -ℤ s.max_age) (list_locked disk s.dir) s in
    evict disk (pos_part keep) survivors t

pub data EnqueueError : Type 0 where
  create_dir marshal_entry write_entry commit_entry : EnqueueError

-- os.Rename replaces a file of that name.
unfoldable pub store_file : Bytes → Bytes → List DirEntry → List DirEntry
store_file n contents dir =
    record { name = n; is_dir = false; contents = contents } ∷ remove_name n dir

-- From the marshalled entry on. A temporary file that cannot be written or renamed has no spool
-- suffix, so that no later call sees it, and the model keeps none.
unfoldable pub commit : Disk → Bytes → ℤ → PostbackSpool → PostbackSpool × Option EnqueueError
commit disk contents created_at s =
    let t : PostbackSpool = record s { seq = (s.seq + 1) % 2 ^ 64 } in
    if disk.write_fails
    then (t, some write_entry)
    else if disk.rename_fails
    then (t, some commit_entry)
    else (record t { dir = store_file (file_name created_at t.seq) contents t.dir }, none)

unfoldable pub enqueue :
    Codec → Disk → ℤ → SpoolEntry → PostbackSpool → PostbackSpool × Option EnqueueError
enqueue codec disk now entry s =
    if disk.mkdir_fails
    then (s, some create_dir)
    else let t = prune_locked disk now (sub_i64 s.max_entries (pos 1)) s in
      elim (codec.encode entry) [
        | none ↦ (t, some marshal_entry)
        | some contents ↦ commit disk contents entry.created_at t
      ]

-- os.ReadFile
unfoldable pub read_file : Disk → Bytes → List DirEntry → Option Bytes
read_file disk n [] = none
read_file disk n (e ∷ dir) =
    if eq_bytes e.name n
    then if disk.read_fails n then none else some e.contents
    else read_file disk n dir

-- remove, which counts nothing
unfoldable pub remove : Disk → Bytes → List DirEntry → List DirEntry
remove disk n dir = if disk.remove_fails n then dir else remove_name n dir

-- What the loop of flush does with one file.
pub data Fate : Type 0 where
  unreadable corrupt stale : Fate
  deliverable : SpoolEntry → Fate

unfoldable pub fate_of : Codec → ℤ → Option Bytes → Fate
fate_of codec cutoff none = unreadable
fate_of codec cutoff (some contents) = elim (codec.decode contents) [
  | none ↦ corrupt
  | some entry ↦ if ltb_ℤ entry.created_at cutoff then stale else deliverable entry
]

abbrev pub fate : Codec → Disk → ℤ → Bytes → List DirEntry → Fate
fate codec disk cutoff n dir = fate_of codec cutoff (read_file disk n dir)

-- One round of the loop: what is delivered, the directory, and whether the loop goes on.
pub record Turn : Type 0 where
  pub sent : List SpoolEntry
  pub dir : List DirEntry
  pub goes_on : Bool

unfoldable pub turn : Disk → (SpoolEntry → Bool) → Bytes → List DirEntry → Fate → Turn
turn disk deliver n dir unreadable = record { sent = []; dir = dir; goes_on = true }
turn disk deliver n dir corrupt = record { sent = []; dir = remove disk n dir; goes_on = true }
turn disk deliver n dir stale = record { sent = []; dir = remove disk n dir; goes_on = true }
turn disk deliver n dir (deliverable entry) =
    if deliver entry
    then record { sent = entry ∷ []; dir = remove disk n dir; goes_on = true }
    else record { sent = entry ∷ []; dir = dir; goes_on = false }

-- The loop of flush: the entries given to `deliver`, and the directory. `cancelled k` tells whether
-- ctx is done when k names are left, and `deliver` whether the entry is resolved.
unfoldable pub flush_loop :
    Codec
    → Disk
    → ℤ
    → (ℕ → Bool)
    → (SpoolEntry → Bool)
    → List Bytes
    → List DirEntry
    → List SpoolEntry × List DirEntry
flush_loop codec disk cutoff cancelled deliver [] dir = ([], dir)
flush_loop codec disk cutoff cancelled deliver (n ∷ names) dir =
    let t = turn disk deliver n dir (fate codec disk cutoff n dir) in
    let (sent, d) = flush_loop codec disk cutoff cancelled deliver names t.dir in
    if cancelled (length (n ∷ names))
    then ([], dir)
    else if t.goes_on
    then (t.sent ++ sent, d)
    else (t.sent, t.dir)

unfoldable pub flush :
    Codec
    → Disk
    → ℤ
    → (ℕ → Bool)
    → (SpoolEntry → Bool)
    → PostbackSpool
    → List SpoolEntry × PostbackSpool
flush codec disk now cancelled deliver s =
    let (sent, dir) =
      flush_loop codec disk (now -ℤ s.max_age) cancelled deliver (list_locked disk s.dir) s.dir in
    (sent, record s { dir = dir })
