-- ===== src/Interpreter/Sweep.antt =====
-- internal/interpreter/script_sweep.go: the removal of script files that killed runs left behind.
pub mod Conservative
use agent_smith_go.Base.{
  ℕ, suc, ◌+◌, ◌-◌, ◌*◌, Bool, true, false, not, ◌&&◌, ◌||◌, List, [], ◌∷◌, Option, none, some, ℤ,
  pos, ◌-ℤ◌, ltb_ℤ, leb_ℤ, leb, if◌then◌else◌, hour, Bytes, codes, length, take, drop, is_empty,
  has_prefix, has_suffix,
}

abbrev pub script_file_prefix : Bytes
script_file_prefix = codes "exec-"

abbrev pub script_file_suffix : Bytes
script_file_suffix = codes ".ps1"

abbrev pub default_stale_script_age : ℤ
default_stale_script_age = pos (24 * hour)

-- The loop over the runes of the middle; a byte outside ASCII belongs to no digit.
unfoldable pub all_digits : Bytes → Bool
all_digits [] = true
all_digits (c ∷ s) = leb b'0' c && leb c b'9' && all_digits s

unfoldable pub is_script_file : Bytes → Bool
is_script_file name =
    let middle =
      take (length name - length script_file_suffix - length script_file_prefix)
        (drop (length script_file_prefix) name) in
    if not (has_prefix name script_file_prefix) || not (has_suffix name script_file_suffix)
    then false
    else if is_empty middle
    then false
    else all_digits middle

-- What de.Info() reports of a file.
pub record FileInfo : Type 0 where
  pub is_regular : Bool
  pub mod_time : ℤ

-- An entry of the scripts directory; `info` is none where Info fails.
pub record ScriptEntry : Type 0 where
  pub name : Bytes
  pub is_dir : Bool
  pub info : Option FileInfo
  pub remove_fails : Bool

abbrev is_old : ℤ → Option FileInfo → Bool
is_old cutoff none = false
is_old cutoff (some info) = info.is_regular && ltb_ℤ info.mod_time cutoff

-- Whether the loop comes to os.Remove for the entry.
unfoldable pub is_stale : ℤ → ScriptEntry → Bool
is_stale cutoff e = not (e.is_dir || not (is_script_file e.name)) && is_old cutoff e.info

-- The loop: how many files were removed, and the entries that stay.
unfoldable pub sweep_loop : ℤ → List ScriptEntry → ℕ × List ScriptEntry
sweep_loop cutoff [] = (0, [])
sweep_loop cutoff (e ∷ entries) =
    let (removed, kept) = sweep_loop cutoff entries in
    if is_stale cutoff e && not e.remove_fails then (suc removed, kept) else (removed, e ∷ kept)

-- The directory is `none` where it cannot be read.
unfoldable pub sweep_stale_scripts :
    ℤ → ℤ → Option (List ScriptEntry) → ℕ × Option (List ScriptEntry)
sweep_stale_scripts max_age now none = (0, none)
sweep_stale_scripts max_age now (some entries) =
    let age = if leb_ℤ max_age (pos 0) then default_stale_script_age else max_age in
    let (removed, kept) = sweep_loop (now -ℤ age) entries in (removed, some kept)
