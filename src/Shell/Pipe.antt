-- ===== src/Shell/Pipe.antt =====
-- `eopen` of src/shell.cpp: the pipe, the fork, and the descriptors of the two processes behind it.
-- The system is an argument: the descriptors that `pipe` gives, and the process that `fork` makes.
-- `popen2` and `pclose2` of include/shell.hpp, and `shc::kill_int`.
pub mod Descriptors
use ztd.Base.{ℕ, Bool, Option, none, some, List, [], ◌∷◌, ◌==◌, if◌then◌else◌, true, false}
use ztd.Base.Int.{ℤ, pos}
use ztd.Base.Text.{Bytes, codes, find_byte}
use ztd.Shell.{Waited, eclose, exec_arguments}

-- What a descriptor is open on: an end of the pipe, or a file that was open before.
pub data File : Type 0 where
  read_end write_end : File
  older : ℕ → File

abbrev pub Descriptors : Type 0
Descriptors = ℕ → Option File

abbrev pub close : Descriptors → ℕ → Descriptors
close t fd = λ x. if x == fd then none else t x

-- `dup2`: it fails where the first descriptor is not open.
unfoldable pub dup2 : Descriptors → ℕ → ℕ → Descriptors
dup2 t old new = elim (t old) [ none ↦ t | some f ↦ λ x. if x == new then some f else t x ]

-- `pipe`, where it gives the descriptors `r` and `w`.
abbrev pub pipe : Descriptors → ℕ → ℕ → Descriptors
pipe t r w = λ x. if x == r then some read_end else if x == w then some write_end else t x

-- `index(type, 'r') != NULL`.
abbrev pub reads : Bytes → Bool
reads type = elim (find_byte b'r' type) [ none ↦ false | some _ ↦ true ]

-- The child in front of `execvp`, and what it is to run. It exits where that fails.
pub record Child : Type 0 where
  pub descriptors : Descriptors
  pub file : Bytes
  pub argv : List Bytes

-- The program behind the call: its descriptors, the descriptor and the mode of the stream, and `*pid`.
pub record Parent : Type 0 where
  pub descriptors : Descriptors
  pub fd : ℕ
  pub mode : Bytes
  pub pid : ℕ

-- How the call ends. Behind a `pipe` that failed the descriptors are read without a value.
pub data Opened : Type 0 where
  exits undefined : Opened
  forked : Child → Parent → Opened

unfoldable pub child_of : Descriptors → Bytes → ℕ → ℕ → Descriptors
unfolding dup2
child_of t type r w = if reads type then dup2 (close t r) w 1 else dup2 (close t w) r 0

abbrev pub parent_of_pipe : Descriptors → Bytes → ℕ → ℕ → Descriptors
parent_of_pipe t type r w = if reads type then close t w else close t r

-- `eopen`, with a `pid` that is not null.
unfoldable pub eopen : Descriptors → Option (ℕ × ℕ) → Option ℕ → Bytes → Bytes → List Bytes → Opened
unfolding child_of
eopen t pipe_given child_pid type bin args = elim child_pid [
  | none ↦ exits
  | some p ↦ elim pipe_given [
    | none ↦ undefined
    | some ends ↦
        let fds = pipe t ends.0 ends.1 in
        forked
          (record {
            descriptors = child_of fds type ends.0 ends.1;
            file = bin;
            argv = exec_arguments bin args;
          })
          (record {
            descriptors = parent_of_pipe fds type ends.0 ends.1;
            fd = if reads type then ends.0 else ends.1;
            mode = if reads type then codes "r" else codes "w";
            pid = p;
          })
  ]
]

-- `popen2`.
unfoldable pub popen2 : Descriptors → Option (ℕ × ℕ) → Option ℕ → Bytes → Bytes → Opened
unfolding eopen
popen2 t pipe_given child_pid command type =
    eopen t pipe_given child_pid type (codes "/bin/sh") (codes "-c" ∷ command ∷ [])

-- `pclose2`.
abbrev pub pclose2 : List Waited → Option ℤ
pclose2 = eclose

-- `shc::kill_int`, by the answer of `kill` to a process and SIGINT.
unfoldable pub kill_int : Bool → ℕ → (ℕ → ℤ) → ℤ
kill_int running pid kill = if running then kill pid else pos 1
