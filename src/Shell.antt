-- ===== src/Shell.antt =====
-- The calls of src/shell.cpp that run a command and wait for it. The system is an argument: what a
-- process writes and how it ends, and whether a file can be written and removed.
pub mod Output
pub mod Pipe
pub mod Exec
pub mod Shc
mod Examples
use ztd.Base.{
  ℕ, ◌/◌, ◌%◌, ◌^◌, ◌-◌, Bool, true, false, not, Option, none, some, List, [], ◌∷◌, ◌++◌, ◌==◌,
  if◌then◌else◌,
}
use ztd.Base.Int.{ℤ, pos, negsuc, minus_one}
use ztd.Base.Text.{Bytes, codes}
use ztd.Error.{Result, ok, fault}
use ztd.Socket.{c_string}

-- What a process wrote, and its status.
pub record Ended : Type 0 where
  pub written : Bytes
  pub status : ℕ

-- `WEXITSTATUS`.
abbrev pub exit_status : ℕ → ℕ
exit_status status = status / 256 % 256

abbrev pub in_front : ℕ → List Bytes → List Bytes
in_front c [] = (c ∷ []) ∷ []
in_front c (line ∷ lines) = (c ∷ line) ∷ lines

-- What `getline` reads one by one: the lines, each with its newline, and bytes behind the last newline.
unfoldable pub get_lines : Bytes → List Bytes
get_lines [] = []
get_lines (c ∷ s) =
    let lines = get_lines s in if c == b'\n' then (c ∷ []) ∷ lines else in_front c lines

-- `while (getline(...) > 0) ret += buff;`, where `buff` is appended as a C string.
unfoldable pub collect : List Bytes → Bytes → Bytes
unfolding c_string
collect [] ret = ret
collect (buff ∷ lines) ret = collect lines (ret ++ c_string buff)

-- `shp`: a stream that `popen` could not open is read all the same.
unfoldable pub shp : (Bytes → Option Ended) → Bytes → Result (Bytes × ℕ)
unfolding collect get_lines
shp popen command = elim (popen command) [
  | none ↦ fault
  | some p ↦ ok (collect (get_lines p.written) [], exit_status p.status)
]

-- `sh`.
unfoldable pub sh : (Bytes → Option Ended) → Bytes → Result Bytes
unfolding shp
sh popen command = elim (shp popen command) [ ok r ↦ ok r.0 | _ ↦ fault ]

-- `shr`, by the answer of `system`.
unfoldable pub shr : (Bytes → ℕ) → Bytes → ℕ
shr system command = exit_status (system command)

-- What `waitpid` answers: interrupted by a signal, failed otherwise, or the status.
pub data Waited : Type 0 where
  interrupted failed : Waited
  status : ℕ → Waited

-- `eclose`: it waits again where it was interrupted; `none` is a wait that goes on.
unfoldable pub eclose : List Waited → Option ℤ
eclose [] = none
eclose (interrupted ∷ later) = eclose later
eclose (failed ∷ later) = some minus_one
eclose (status n ∷ later) = some (pos n)

-- `WEXITSTATUS` of an `int`, a negative one by its 32 bits.
abbrev pub int_exit_status : ℤ → ℕ
int_exit_status (pos n) = exit_status n
int_exit_status (negsuc n) = exit_status (2 ^ 32 - 1 - n)

-- The array that `eopen` gives to `execvp`, less its null pointer.
abbrev pub exec_arguments : Bytes → List Bytes → List Bytes
exec_arguments bin args = bin ∷ args
