-- ===== src/Shell/Examples.antt =====
-- Commands and runs at which the theorems are applied.
use ztd.Base.{
  ℕ, true, none, if◌then◌else◌, ltb, Option, some, List, [], ◌∷◌, ◌++◌, ◌≡◌, ◌≢◌, ◌⊎◌, refl, arith,
}
use ztd.Base.Text.{Bytes, codes}
use ztd.Error.{ok}
use ztd.Shell.Output.{shp-exec}
use ztd.Shell.Pipe.Descriptors.{AreOlder, Forks, forks, IsPiped, eopen-IsPiped}
use ztd.Shell.Pipe.{Descriptors, older, eopen, popen2, child_of, dup2}
use ztd.Shell.Shc.Order.{to_come, HasSet, Reach-ordered}
use ztd.Shell.Shc.Wakeup.{IsStuck, run_races}
use ztd.Shell.Shc.{Shc, Step, Reach, start, later, waits_start, ended, gone}
use ztd.Shell.Exec.{System, returned, exec}
use ztd.Shell.{Ended, interrupted, status, exit_status, shp}

abbrev two_lines : Ended
two_lines = record { written = codes "a\nb"; status = 768 }

abbrev opens_any : Bytes → Option Ended
opens_any command = some two_lines

-- Descriptors 0, 1 and 2 are open.
abbrev terminal : Descriptors
terminal x = if ltb x 3 then some (older x) else none

-- A child of any arguments writes two lines, and is waited for twice.
abbrev system : System
system = record {
  descriptors = terminal;
  pipe_given = some (3, 4);
  child_pid = some 7;
  child = λ args. (two_lines.written, interrupted ∷ status 768 ∷ []);
}

shp-exec_example :
    (shp opens_any (codes "ls") ≡ ok (codes "a\nb", exit_status 768))
    × (exec system (codes "ls") [] ≡ returned (codes "a\nb") (exit_status 768))
shp-exec_example =
    shp-exec two_lines opens_any system (codes "ls") (codes "ls") [] 3 4 7 1 [] (omega arith) refl
      refl refl refl

abbrev lines : List Bytes
lines = codes "a" ∷ codes "b" ∷ []

pid_set : ◌≢◌ {A = ℕ} 7 0
pid_set = λ e. cc

-- The program gets the first line before the thread pushes the second.
abbrev got_one : (s : Shc) × Reach lines 0 s × (s.got ≡ codes "a" ∷ [])
got_one =
    let begun = later (later start refl (Step.runs refl refl refl)) refl (Step.starts refl) in
    let announced = later begun refl (Step.announces refl) in
    let running = later announced refl (Step.is_started refl refl) in
    let opened = later running refl (Step.opens 7 pid_set refl) in
    let line = later opened refl (Step.reads_line (codes "a") (codes "b" ∷ []) refl) in
    let pushed = later line refl (Step.pushes (codes "a") (codes "b" ∷ []) refl) in
    let read = later pushed refl (Step.fronts (codes "a") [] refl refl refl) in
    (_, later read refl (Step.pops (codes "a") (codes "a") [] refl refl refl), refl)

-- The program calls `get_output` while the thread is in `push`.
abbrev used_twice : (s : Shc) × Reach lines 0 s × (s.raced ≡ true)
used_twice =
    let begun = later (later start refl (Step.runs refl refl refl)) refl (Step.starts refl) in
    let announced = later begun refl (Step.announces refl) in
    let running = later announced refl (Step.is_started refl refl) in
    let opened = later running refl (Step.opens 7 pid_set refl) in
    let line = later opened refl (Step.reads_line (codes "a") (codes "b" ∷ []) refl) in
    (_, later line refl (Step.races refl refl), refl)

Reach-ordered_example :
    (got_one.0.got ++ (got_one.0.output ++ to_come lines got_one.0.worker) ≡ lines)
    × HasSet 0 got_one.0.worker got_one.0.running got_one.0.return_value
    × ((got_one.0.caller ≢ gone) ⊎ (got_one.0.worker ≡ ended))
Reach-ordered_example = Reach-ordered got_one.1

run_races_example :
    ((s : Shc) × Reach lines 0 s
      × (s.worker ≡ ended)
      × (s.caller ≡ waits_start)
      × IsStuck lines 0 s)
    × ((s : Shc) × Reach lines 0 s × (s.dangling ≡ true))
    × ((s : Shc) × Reach lines 0 s × (s.signalled ≡ 0 ∷ []))
run_races_example = run_races lines 0

terminal-AreOlder : AreOlder terminal
terminal-AreOlder x = (ground arith, ground arith)

eopen-IsPiped_example :
    Forks
      (IsPiped terminal (codes "r") 3 4)
      (eopen terminal (some (3, 4)) (some 7) (codes "r") (codes "ls") [])
eopen-IsPiped_example =
    eopen-IsPiped terminal 3 4 7 (codes "r") (codes "ls") [] (omega arith) refl refl
      terminal-AreOlder

-- The shell of `popen2` gets its command as one argument, with its options in front.
popen2_runs :
    Forks
      (λ c p. c.argv ≡ codes "/bin/sh" ∷ codes "-c" ∷ codes "ls -l" ∷ [])
      (popen2 terminal (some (3, 4)) (some 7) (codes "ls -l") (codes "r"))
unfolding popen2 eopen child_of dup2
popen2_runs = forks refl
