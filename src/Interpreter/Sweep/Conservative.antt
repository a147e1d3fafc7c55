-- ===== src/Interpreter/Sweep/Conservative.antt =====
-- Which files a sweep removes (internal/interpreter/script_sweep.go).
use agent_smith_go.Base.{
  ℕ, ◌+◌, ◌-◌, ◌≡◌, ◌≢◌, ◌↔◌, inl, inr, refl, ap, sym, ◌∙◌, arith, Bool, true, false, not, ◌&&◌,
  Bool-cases, Option-cases, List, [], ◌∷◌, ◌++◌, some, ℤ, ◌<ℤ◌, if◌then◌else◌, Bytes, length, take,
  drop, is_empty, has_prefix, has_suffix, eq_bytes, eq_bytes_sound, eq_bytes_refl, keep_if,
  length-append,
}
use agent_smith_go.Interpreter.Sweep.{
  script_file_prefix, script_file_suffix, all_digits, is_script_file, FileInfo, ScriptEntry,
  is_stale, sweep_loop,
}

prefix_split : (s p : Bytes) → has_prefix s p ≡ true → s ≡ p ++ drop (length p) s
unfolding has_prefix
prefix_split s [] h = refl
prefix_split [] (y ∷ p) h = absurd cc
prefix_split (x ∷ s) (y ∷ p) h = ground (arith, prefix_split s p)

suffix_split : (s p : Bytes) → has_suffix s p ≡ true → (t : Bytes) × (s ≡ t ++ p)
unfolding has_suffix
suffix_split [] p h = ([], eq_bytes_sound [] p h)
suffix_split (x ∷ s) p h = elim (Bool-cases (eq_bytes (x ∷ s) p)) [
  | inl e ↦ ([], eq_bytes_sound (x ∷ s) p e)
  | inr e ↦ let (t, q) = suffix_split s p (ground arith) in (x ∷ t, ap (λ (l : Bytes). x ∷ l) q)
]

take-append : (t p : Bytes) → take (length t) (t ++ p) ≡ t
take-append [] p = refl
take-append (x ∷ t) p = ap (λ (l : Bytes). x ∷ l) (take-append t p)

has_suffix-append : (t p : Bytes) → has_suffix (t ++ p) p ≡ true
unfolding has_suffix
has_suffix-append [] [] = refl
has_suffix-append [] (y ∷ p) = ground (arith, eq_bytes_refl (y ∷ p))
has_suffix-append (x ∷ t) p = ground (arith, has_suffix-append t p)

-- A name with the prefix and the suffix has them apart, since no end of one begins the other.
prefix_apart :
    (t : Bytes)
    → has_prefix (t ++ script_file_suffix) script_file_prefix ≡ true
    → (m : Bytes) × (t ≡ script_file_prefix ++ m)
unfolding has_prefix
prefix_apart [] h = absurd cc
prefix_apart (a ∷ []) h = absurd (ground arith)
prefix_apart (a ∷ b ∷ []) h = absurd (ground arith)
prefix_apart (a ∷ b ∷ c ∷ []) h = absurd (ground arith)
prefix_apart (a ∷ b ∷ c ∷ d ∷ []) h = absurd (ground arith)
prefix_apart (a ∷ b ∷ c ∷ d ∷ e ∷ m) h = (m, ground arith)

abbrev pub script_name : Bytes → Bytes
script_name m = script_file_prefix ++ (m ++ script_file_suffix)

middle_lem :
    (m : Bytes)
    → take
        (length (script_name m) - length script_file_suffix - length script_file_prefix)
        (drop (length script_file_prefix) (script_name m))
      ≡ m
middle_lem m =
    let n : length (script_name m) - length script_file_suffix - length script_file_prefix
        ≡ length m =
      omega (arith, length-append m script_file_suffix) in
    ap (λ (k : ℕ). take k (m ++ script_file_suffix)) n ∙ take-append m script_file_suffix

is_script_file-script_name :
    (m : Bytes) → is_script_file (script_name m) ≡ (if is_empty m then false else all_digits m)
unfolding is_script_file has_prefix
is_script_file-script_name m =
    rw (has_suffix-append (script_file_prefix ++ m) script_file_suffix, middle_lem m) refl

-- The names that os.CreateTemp makes of the pattern "exec-*.ps1": digits in place of the star.
abbrev pub IsScriptName : Bytes → Type 0
IsScriptName name = (m : Bytes) × (m ≢ []) × (all_digits m ≡ true) × (name ≡ script_name m)

parts :
    (name : Bytes)
    → is_script_file name ≡ true
    → (has_prefix name script_file_prefix ≡ true) × (has_suffix name script_file_suffix ≡ true)
unfolding is_script_file
parts name h = ground arith

nonempty_digits :
    (m : Bytes)
    → (if is_empty m then false else all_digits m) ≡ true
    → (m ≢ []) × (all_digits m ≡ true)
nonempty_digits [] h = absurd cc
nonempty_digits (x ∷ m) h = (ground arith, h)

accepted :
    (m : Bytes) → m ≢ [] → all_digits m ≡ true → (if is_empty m then false else all_digits m) ≡ true
accepted [] n h = absurd (n refl)
accepted (x ∷ m) n h = h

-- The test accepts exactly the names that the executor's pattern makes: the prefix, one digit or
-- more, and the suffix.
pub is_script_file_iff : (name : Bytes) → (is_script_file name ≡ true) ↔ IsScriptName name
is_script_file_iff name = (
  λ h.
      let (p, s) = parts name h in
      let (t, e) = suffix_split name script_file_suffix s in
      let (m, f) =
        prefix_apart t (ap (λ (n : Bytes). has_prefix n script_file_prefix) (sym e) ∙ p) in
      let named : name ≡ script_name m = e ∙ ap (λ (u : Bytes). u ++ script_file_suffix) f in
      let (a, b) =
        nonempty_digits m
          (sym (is_script_file-script_name m) ∙ ap is_script_file (sym named) ∙ h) in
      (m, a, b, named),
  λ (m, a, b, named). ap is_script_file named ∙ is_script_file-script_name m ∙ accepted m a b,
)

-- A file that the loop may remove: a regular file older than the cutoff with the name of a script.
abbrev pub IsOrphan : ℤ → ScriptEntry → Type 0
IsOrphan cutoff e =
    (e.is_dir ≡ false)
    × IsScriptName e.name
    × (info : FileInfo) × (e.info ≡ some info)
    × (info.is_regular ≡ true)
    × (info.mod_time <ℤ cutoff)

is_stale-IsOrphan : (cutoff : ℤ) (e : ScriptEntry) → is_stale cutoff e ≡ true → IsOrphan cutoff e
unfolding is_stale
is_stale-IsOrphan cutoff e h = elim (Option-cases e.info) [
  | inl n ↦ absurd (ground arith)
  | inr (info, i) ↦ (
    ground arith,
    (is_script_file_iff e.name).0 (ground arith),
    info,
    i,
    ground arith,
    ground arith,
  )
]

abbrev pub stays : ℤ → ScriptEntry → Bool
stays cutoff e = not (is_stale cutoff e && not e.remove_fails)

sweep_loop_lem :
    (cutoff : ℤ) (entries : List ScriptEntry)
    → ((sweep_loop cutoff entries).1 ≡ keep_if (stays cutoff) entries)
      × ((sweep_loop cutoff entries).0 + length (sweep_loop cutoff entries).1 ≡ length entries)
unfolding sweep_loop
sweep_loop_lem cutoff [] = (refl, omega arith)
sweep_loop_lem cutoff (e ∷ entries) = ground (arith, sweep_loop_lem cutoff entries)

-- A sweep removes only orphans, regular files with a script's name that are older than the cutoff,
-- and all of them that can be removed; the other entries stay in their order, and the number it
-- returns is that of the removed files.
pub sweep_loop-removes :
    (cutoff : ℤ) (entries : List ScriptEntry)
    → let (removed, kept) = sweep_loop cutoff entries in
      (kept ≡ keep_if (stays cutoff) entries)
      × (removed + length kept ≡ length entries)
      × ((e : ScriptEntry) → stays cutoff e ≡ false → IsOrphan cutoff e × (e.remove_fails ≡ false))
sweep_loop-removes cutoff entries =
    let (a, b) = sweep_loop_lem cutoff entries in
    (a, b, λ e h. (is_stale-IsOrphan cutoff e (ground arith), ground arith))
