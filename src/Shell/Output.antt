-- ===== src/Shell/Output.antt =====
-- The output that the calls of src/shell.cpp collect.
use ztd.Base.{
  ℕ, zero, suc, Option, some, List, [], ◌∷◌, ◌++◌, ◌≡◌, ◌≢◌, refl, arith, ap, ◌∙◌, append_assoc,
  append-nil,
}
use ztd.Base.Text.{Bytes}
use ztd.Error.{ok}
use ztd.Shell.Exec.{System, returned, read_and_close, exec}
use ztd.Shell.Pipe.{eopen}
use ztd.Shell.{
  Ended, Waited, interrupted, status, eclose, exit_status, in_front, get_lines, collect, shp,
  exec_arguments,
}
use ztd.Socket.{c_string}
use ztd.Socket.Messages.{HasNoNul}

abbrev concat : List Bytes → Bytes
concat [] = []
concat (line ∷ lines) = line ++ concat lines

abbrev AllHaveNoNul : List Bytes → Type 0
AllHaveNoNul [] = Unit
AllHaveNoNul (line ∷ lines) = HasNoNul line × AllHaveNoNul lines

concat-in_front : (c : ℕ) (lines : List Bytes) → concat (in_front c lines) ≡ c ∷ concat lines
concat-in_front c [] = refl
concat-in_front c (line ∷ lines) = refl

concat-get_lines : (text : Bytes) → concat (get_lines text) ≡ text
unfolding get_lines
concat-get_lines [] = refl
concat-get_lines (c ∷ text) =
    ground (arith, concat-in_front c (get_lines text), concat-get_lines text)

in_front-AllHaveNoNul :
    (c : ℕ) (lines : List Bytes) → c ≢ 0 → AllHaveNoNul lines → AllHaveNoNul (in_front c lines)
in_front-AllHaveNoNul c [] n a = ((n, tt), tt)
in_front-AllHaveNoNul c (line ∷ lines) n a = ((n, a.0), a.1)

get_lines-AllHaveNoNul : (text : Bytes) → HasNoNul text → AllHaveNoNul (get_lines text)
unfolding get_lines
get_lines-AllHaveNoNul [] h = tt
get_lines-AllHaveNoNul (c ∷ text) h =
    ground (arith, in_front-AllHaveNoNul c (get_lines text), get_lines-AllHaveNoNul text h.1)

c_string-HasNoNul : (s : Bytes) → HasNoNul s → c_string s ≡ s
unfolding c_string
c_string-HasNoNul [] h = refl
c_string-HasNoNul (c ∷ s) h = ground (arith, c_string-HasNoNul s h.1)

collect-concat :
    (lines : List Bytes) (ret : Bytes)
    → AllHaveNoNul lines
    → collect lines ret ≡ ret ++ concat lines
unfolding collect
collect-concat [] ret a = rw append-nil
collect-concat (line ∷ lines) ret a =
    rw (c_string-HasNoNul line a.0) (collect-concat lines (ret ++ line) a.1 ∙ rw append_assoc)

collect-get_lines : (text : Bytes) → HasNoNul text → collect (get_lines text) [] ≡ text
collect-get_lines text h =
    collect-concat (get_lines text) [] (get_lines-AllHaveNoNul text h) ∙ concat-get_lines text

-- Answers of `waitpid` behind a number of interruptions.
abbrev pub interrupted_times : ℕ → List Waited → List Waited
interrupted_times zero answers = answers
interrupted_times (suc n) answers = interrupted ∷ interrupted_times n answers

eclose-interrupted_times :
    (n : ℕ) (answers : List Waited) → eclose (interrupted_times n answers) ≡ eclose answers
unfolding eclose
eclose-interrupted_times zero answers = refl
eclose-interrupted_times (suc n) answers = eclose-interrupted_times n answers

read_and_close-status :
    (p : Ended) (n : ℕ) (later : List Waited)
    → HasNoNul p.written
    → read_and_close p.written (interrupted_times n (status p.status ∷ later))
      ≡ returned p.written (exit_status p.status)
unfolding read_and_close
read_and_close-status p n later h =
    rw (read_and_close, eclose-interrupted_times n (status p.status ∷ later))
      (ap (λ t. returned t (exit_status p.status)) (collect-get_lines p.written h))

-- Where the process wrote no NUL, `shp` and `exec` give all that it wrote, newlines included, and its
-- exit status: `shp` where `popen` starts the process, `exec` where `pipe` and `fork` succeed and `eclose`
-- gets a status, whether or not `waitpid` is interrupted before.
pub shp-exec :
    (p : Ended) (popen : Bytes → Option Ended) (system : System) (command bin : Bytes)
    (args : List Bytes) (r w pid interruptions : ℕ) (later : List Waited)
    → HasNoNul p.written
    → popen command ≡ some p
    → system.pipe_given ≡ some (r, w)
    → system.child_pid ≡ some pid
    → system.child (exec_arguments bin args)
      ≡ (p.written, interrupted_times interruptions (status p.status ∷ later))
    → (shp popen command ≡ ok (p.written, exit_status p.status))
      × (exec system bin args ≡ returned p.written (exit_status p.status))
unfolding shp exec eopen
shp-exec p popen system command bin args r w pid interruptions later h e a b c = (
  rw (e, shp) (rw (collect-get_lines p.written h)),
  rw (b, eopen, a, c) (read_and_close-status p interruptions later h),
)
