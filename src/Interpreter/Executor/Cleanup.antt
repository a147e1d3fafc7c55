-- ===== src/Interpreter/Executor/Cleanup.antt =====
-- What is left behind by a command (internal/interpreter/base_executor.go).
use agent_smith_go.Base.{
  Bool, false, none, some, [], ◌∷◌, ◌++◌, ◌≡◌, arith, Bytes, inl, inr, eq_bytes, eq_bytes_refl,
}
use agent_smith_go.Agent.Device.{Device, resolved_command_timeout}
use agent_smith_go.Interpreter.Message.{Message, done, Except-cases}
use agent_smith_go.Interpreter.Executor.{
  Disk, Host, Execution, prepare, answer_of, script_head, write_file, remove_file, run_script,
  cleaned, execute,
}

-- The directory has no file of this name.
abbrev pub IsFresh : Bytes → Disk → Type 0
IsFresh name [] = Unit {0}
IsFresh name ((n, c) ∷ disk) = (eq_bytes n name ≡ false) × IsFresh name disk

remove_file-write_file :
    (name c : Bytes) (disk : Disk)
    → IsFresh name disk
    → remove_file name (write_file name c disk) ≡ disk
unfolding remove_file write_file
remove_file-write_file name c [] h = ground (arith, eq_bytes_refl name)
remove_file-write_file name c ((n, d) ∷ disk) h =
    ground (arith, remove_file-write_file name c disk h.1)

write_file-write_file :
    (name c d : Bytes) (disk : Disk)
    → write_file name c (write_file name d disk) ≡ write_file name c disk
unfolding write_file
write_file-write_file name c d [] = ground (arith, eq_bytes_refl name)
write_file-write_file name c d ((n, e) ∷ disk) = ground (arith, write_file-write_file name c d disk)

run_script-cleaned :
    (host : Host) (bom : Bool) (device : Device) (commands name : Bytes) (disk : Disk)
    → host.remove_fails ≡ false
    → IsFresh name disk
    → (cleaned host name (run_script host bom device commands name (write_file name [] disk))).disk
      ≡ disk
unfolding cleaned run_script
run_script-cleaned host bom device commands name disk ok fresh = ground (
  arith,
  remove_file-write_file name [] disk fresh,
  write_file-write_file name (script_head bom) [] disk,
  write_file-write_file name (script_head bom ++ commands) [] disk,
  remove_file-write_file name (script_head bom) disk fresh,
  remove_file-write_file name (script_head bom ++ commands) disk fresh,
)

-- os.CreateTemp picks a name that the directory does not hold.
abbrev pub CreatesFresh : Host → Disk → Type 0
CreatesFresh host disk = (name : Bytes) → host.create_temp ≡ done name → IsFresh name disk

prepare-created :
    (host : Host) (message : Message) (commands name : Bytes)
    → prepare host message ≡ done (commands, name)
    → (host.create_temp ≡ done name) × (host.mkdir_error ≡ none)
unfolding prepare
prepare-created host message commands name h = ground arith

-- Whatever fails on the way, the scripts directory is left as it was found, provided that the
-- temporary name is new and that the file can be removed.
pub execute-cleans :
    (host : Host) (bom : Bool) (device : Device) (message : Message) (disk : Disk)
    → host.remove_fails ≡ false
    → CreatesFresh host disk
    → (execute host bom device message disk).disk ≡ disk
unfolding execute
execute-cleans host bom device message disk ok fresh = elim (Except-cases (prepare host message)) [
  | inl ((commands, name), e) ↦
      rw (e, execute)
        (run_script-cleaned host bom device commands name disk ok
          (fresh name (prepare-created host message commands name e).0))
  | inr (err, e) ↦ rw (e, execute)
]

-- The script that is run.
abbrev pub IsWhole : Host → Bool → Device → Message → Bytes → Execution → Type 0
IsWhole host bom device message script x =
    (commands : Bytes) × (name : Bytes) × (prepare host message ≡ done (commands, name))
    × (script ≡ script_head bom ++ commands)
    × (host.write_error ≡ none)
    × (host.close_error ≡ none)
    × (x.answer ≡ answer_of host device (host.run script (resolved_command_timeout device)))

run_script_whole :
    (host : Host) (bom : Bool) (device : Device) (commands name script : Bytes) (disk : Disk)
    → (cleaned host name (run_script host bom device commands name disk)).ran ≡ some script
    → (script ≡ script_head bom ++ commands)
      × (host.write_error ≡ none)
      × (host.close_error ≡ none)
      × ((cleaned host name (run_script host bom device commands name disk)).answer
          ≡ answer_of host device (host.run script (resolved_command_timeout device)))
unfolding run_script cleaned
run_script_whole host bom device commands name script disk h = ground arith

-- A command runs only if it was decoded, written and closed without an error; the script is then the
-- byte order mark, for a shell that wants one, and all of the decoded commands, and the answer is
-- made from what it wrote under the configured deadline.
pub execute_runs-IsWhole :
    (host : Host) (bom : Bool) (device : Device) (message : Message) (disk : Disk) (script : Bytes)
    → (execute host bom device message disk).ran ≡ some script
    → IsWhole host bom device message script (execute host bom device message disk)
unfolding execute
execute_runs-IsWhole host bom device message disk script h =
    elim (Except-cases (prepare host message)) [
      | inl ((commands, name), e) ↦
          let w =
            run_script_whole host bom device commands name script (write_file name [] disk)
              (rw (e, execute) at h) in
          (commands, name, e, w.0, w.1, w.2, rw (e, execute) (w.3))
      | inr (err, e) ↦ let q : none ≡ some script = rw (e, execute) at h in cc
    ]
