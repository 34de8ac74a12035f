-- ===== src/Shell/Exec.antt =====
-- `exec` and `script` of src/shell.cpp: a process opened by `eopen`, read to its end, and waited for by
-- `eclose`. The system is an argument: the answers of `pipe`, `fork` and `waitpid`, and what is written.
use ztd.Base.{ℕ, Bool, not, Option, none, some, List, [], ◌∷◌, ◌++◌, if◌then◌else◌}
use ztd.Base.Text.{Bytes, codes}
use ztd.Shell.Pipe.{Descriptors, exits, undefined, forked, eopen}
use ztd.Shell.{Waited, get_lines, collect, eclose, int_exit_status}

-- What the system does with a call of `exec`: the descriptors of the program, the answers of `pipe` and
-- `fork`, and for the arguments of a child what it writes, and the answers of `waitpid` to `eclose`.
pub record System : Type 0 where
  pub descriptors : Descriptors
  pub pipe_given : Option (ℕ × ℕ)
  pub child_pid : Option ℕ
  pub child : List Bytes → Bytes × List Waited

-- How `exec` ends: the program exits where `fork` failed, descriptors without a value are read where
-- `pipe` failed, and `eclose` can wait for ever.
pub data Executed : Type 0 where
  program_exits undefined_behaviour waits_on : Executed
  returned : Bytes → ℕ → Executed

-- Behind `eopen`, where the child wrote `written`.
unfoldable pub read_and_close : Bytes → List Waited → Executed
unfolding collect get_lines eclose
read_and_close written answers = elim (eclose answers) [
  | none ↦ waits_on
  | some stat ↦ returned (collect (get_lines written) []) (int_exit_status stat)
]

-- `exec`.
unfoldable pub exec : System → Bytes → List Bytes → Executed
unfolding eopen read_and_close
exec system bin args =
    elim (eopen system.descriptors system.pipe_given system.child_pid (codes "r") bin args) [
      | exits ↦ program_exits
      | undefined ↦ undefined_behaviour
      | forked c p ↦
          (let (written, answers) = system.child c.argv in read_and_close written answers)
    ]

-- What `script` returns or throws; `stopped` is a call of `exec` that does not return.
pub data Script : Type 0 where
  ran : Bytes → ℕ → Script
  not_written : Bytes → Script
  not_deleted : Bytes → Script
  stopped : Executed → Script

-- `tmpdir + "/ztdscript_" + ...`, by the value of TMPDIR and the random name.
abbrev pub script_path : Option Bytes → Bytes → Bytes
script_path none name = codes "/tmp" ++ (codes "/ztdscript_" ++ name)
script_path (some dir) name = dir ++ (codes "/ztdscript_" ++ name)

-- The end of `script`: the file is removed behind `exec`.
abbrev pub script_ran : Bytes → Bool → Executed → Script
script_ran path removable (returned written stat) =
    if removable
    then ran written stat
    else not_deleted (codes "Failed to delete file '" ++ (path ++ b'\'' ∷ []))
script_ran path removable e = stopped e

-- `script`.
unfoldable pub script :
    Option Bytes → Bytes → (Bytes → Bool) → System → (Bytes → Bool) → List Bytes → Script
unfolding exec
script tmpdir name writable system removable args =
    let path = script_path tmpdir name in
    if not (writable path)
    then not_written (codes "Failed to write to file '" ++ (path ++ b'\'' ∷ []))
    else script_ran path (removable path) (exec system path args)
