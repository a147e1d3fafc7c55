-- ===== src/Interpreter/Shells/Once.antt =====
-- The diagnostics are computed once, and the byte order mark belongs to PowerShell.
use agent_smith_go.Base.{
  ℕ, ◌+◌, ◌≡◌, ◌⊎◌, refl, true, false, none, some, List, [], ◌∷◌, arith, Bytes, All, codes,
  trim_space,
}
use agent_smith_go.Interpreter.Shells.{
  new_pwsh_executor, new_bash_executor, new_powershell_executor, Family, unix, windows,
  chosen_executor, platform_shell, Cache, diagnostics,
}

-- The calls of an executor, in any order of the workers: their answers and the processes they started.
unfoldable pub diagnostics_run : List (Bytes × Bytes) → Cache → List (Bytes × Bytes) × ℕ
unfolding diagnostics
diagnostics_run [] cache = ([], 0)
diagnostics_run (printed ∷ calls) cache =
    let (answer, cache', started) = diagnostics printed cache in
    let (answers, more) = diagnostics_run calls cache' in (answer ∷ answers, started + more)

cached_run :
    (cached : Bytes × Bytes) (calls : List (Bytes × Bytes))
    → All (λ (answer : Bytes × Bytes). answer ≡ cached) (diagnostics_run calls (some cached)).0
      × ((diagnostics_run calls (some cached)).1 ≡ 0)
unfolding diagnostics_run diagnostics
cached_run cached [] = (tt, refl)
cached_run cached (printed ∷ calls) =
    let (same, idle) = cached_run cached calls in ((refl, same), rw idle (omega arith))

-- However often the diagnostics are asked for, they start two processes, and every answer is the
-- first one, whatever the commands would print later.
pub diagnostics_once :
    (version whoami : Bytes) (calls : List (Bytes × Bytes))
    → All
        (λ (answer : Bytes × Bytes). answer ≡ (trim_space version, whoami))
        (diagnostics_run ((version, whoami) ∷ calls) none).0
      × ((diagnostics_run ((version, whoami) ∷ calls) none).1 ≡ 2)
unfolding diagnostics_run diagnostics
diagnostics_once version whoami calls =
    let (same, idle) = cached_run (trim_space version, whoami) calls in
    ((refl, same), rw idle (omega arith))

-- A script gets a byte order mark exactly where the shell is a PowerShell.
pub chosen_executor-bom :
    (family : Family) (override : Bytes)
    → let executor = chosen_executor family override in
      ((executor.write_utf8_bom ≡ true)
        × ((executor.shell ≡ codes "pwsh") ⊎ (executor.shell ≡ codes "powershell")))
      ⊎ ((executor.write_utf8_bom ≡ false) × (executor.shell ≡ codes "bash"))
unfolding chosen_executor platform_shell new_pwsh_executor new_bash_executor new_powershell_executor
chosen_executor-bom unix override = ground arith
chosen_executor-bom windows override = ground arith
