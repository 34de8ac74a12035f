-- ===== src/Shell/Shc.antt =====
-- `shc` of include/shell.hpp and src/shell.cpp: a program that calls its members and the thread of
-- `run_process`, as steps between the points where the other one can come in. A process that will
-- write given lines and end with a given status stands for the command. `push` takes two steps, and
-- the queue that the program uses between them is a data race. Reads and writes of the other members
-- are in some order, and a wait ends by a notification only. `wait_pool` of src/wait.cpp, a condition
-- variable without a condition, is the set of those that wait in it.
pub mod Order
pub mod Wakeup
mod Pools
use ztd.Base.{
  ℕ, Bool, true, false, Option, none, some, List, [], ◌∷◌, ◌++◌, ◌≡◌, ◌≢◌, if◌then◌else◌,
}
use ztd.Base.Text.{Bytes}
use ztd.Shell.{exit_status}

-- Where the program stands: in no call; in `run` before its second test, before the wait, and in
-- the wait; in `wait_output` and in `wait_finish` before their test, before the wait, and in the
-- wait; in `get_output` between `front` and `pop`; in `kill_int` behind its test; in the
-- `kill_int` of the destructor before and behind its test; at `join`; behind the destructor; or ended by
-- the assignment to a thread that was not joined, or by `join` where there is no thread.
pub data Caller : Type 0 where
  outside second_test enters_start waits_start : Caller
  tests_output enters_output waits_output : Caller
  tests_finish enters_finish waits_finish : Caller
  popping : Bytes → Caller
  signals tests_last signals_last joins gone terminated : Caller

-- Where the thread stands: not made; at the head of `run_process`; before the first notification;
-- before `popen2`; at the head of its loop, in `push` with its line, and before the notification in the
-- loop, each with the lines to come; and behind the assignments of `return_value`, of `running`, and the two notifications.
pub data Worker : Type 0 where
  unborn starting announcing opening : Worker
  reading : List Bytes → Worker
  pushing : Bytes → List Bytes → Worker
  told : List Bytes → Worker
  returned stopped told_last ended : Worker

-- The members of `shc`, the lines that the program got from `get_output`, the processes that it called
-- `kill` on, whether the thread called a `wait_for_start` that was gone, and whether the program used
-- the queue while the thread was in `push`.
pub record Shc : Type 0 where
  pub running : Bool
  pub output : List Bytes
  pub return_value : Option ℕ
  pub pid : ℕ
  pub got : List Bytes
  pub signalled : List ℕ
  pub caller : Caller
  pub worker : Worker
  pub dangling : Bool
  pub raced : Bool

abbrev pub new_shc : Shc
new_shc = record {
  running = false;
  output = [];
  return_value = none;
  pid = 0;
  got = [];
  signalled = [];
  caller = outside;
  worker = unborn;
  dangling = false;
  raced = false;
}

abbrev pub is_pushing : Worker → Bool
is_pushing (pushing line rest) = true
is_pushing w = false

-- Where the program calls `size`, `front` or `pop` of the queue, or can, by `get_output`.
abbrev pub uses_output : Caller → Bool
uses_output outside = true
uses_output tests_output = true
uses_output (popping ret) = true
uses_output c = false

-- A pool was used that was gone, or the queue by both at a time.
abbrev pub is_undefined : Shc → Bool
is_undefined s = if s.dangling then true else s.raced

-- `notify_all` of the three pools.
abbrev pub wake_start : Caller → Caller
wake_start waits_start = outside
wake_start c = c

abbrev pub wake_output : Caller → Caller
wake_output waits_output = tests_output
wake_output c = c

abbrev pub wake_finish : Caller → Caller
wake_finish waits_finish = tests_finish
wake_finish c = c

-- Whether the caller is in `run`, where `wait_for_start` lives.
abbrev pub in_run : Caller → Bool
in_run second_test = true
in_run enters_start = true
in_run waits_start = true
in_run c = false

abbrev pub or_dangling : Bool → Bool → Bool
or_dangling dangling true = dangling
or_dangling dangling false = true

pub data Step (lines : List Bytes) (status : ℕ) (s : Shc) : Shc → Type 0 where
  -- run
  runs :
      s.caller ≡ outside
      → s.running ≡ false
      → s.worker ≡ unborn
      → Step lines status s (record s { caller = second_test; worker = starting })
  runs_again :
      s.caller ≡ outside
      → s.running ≡ false
      → s.worker ≢ unborn
      → Step lines status s (record s { caller = terminated })
  runs_running :
      s.caller ≡ outside
      → s.running ≡ true
      → Step lines status s (record s { caller = second_test })
  is_started :
      s.caller ≡ second_test
      → s.running ≡ true
      → Step lines status s (record s { caller = outside })
  is_not_started :
      s.caller ≡ second_test
      → s.running ≡ false
      → Step lines status s (record s { caller = enters_start })
  waits_for_start :
      s.caller ≡ enters_start → Step lines status s (record s { caller = waits_start })
  -- wait_output, get_output
  calls_output : s.caller ≡ outside → Step lines status s (record s { caller = tests_output })
  needs_output :
      s.caller ≡ tests_output
      → s.running ≡ true
      → s.output ≡ []
      → is_pushing s.worker ≡ false
      → Step lines status s (record s { caller = enters_output })
  has_output :
      s.caller ≡ tests_output
      → s.output ≢ []
      → is_pushing s.worker ≡ false
      → Step lines status s (record s { caller = outside })
  no_output :
      s.caller ≡ tests_output
      → s.running ≡ false
      → Step lines status s (record s { caller = outside })
  waits_for_output :
      s.caller ≡ enters_output → Step lines status s (record s { caller = waits_output })
  fronts :
      (first : Bytes) (later : List Bytes)
      → s.caller ≡ outside
      → s.output ≡ first ∷ later
      → is_pushing s.worker ≡ false
      → Step lines status s (record s { caller = popping first })
  pops :
      (ret first : Bytes) (later : List Bytes)
      → s.caller ≡ popping ret
      → s.output ≡ first ∷ later
      → is_pushing s.worker ≡ false
      → Step lines status s (record s { caller = outside; output = later; got = s.got ++ ret ∷ [] })
  gets_nothing :
      s.caller ≡ outside → s.output ≡ [] → is_pushing s.worker ≡ false → Step lines status s s
  races :
      uses_output s.caller ≡ true
      → is_pushing s.worker ≡ true
      → Step lines status s (record s { raced = true })
  -- wait_finish
  calls_finish : s.caller ≡ outside → Step lines status s (record s { caller = tests_finish })
  is_running :
      s.caller ≡ tests_finish
      → s.running ≡ true
      → Step lines status s (record s { caller = enters_finish })
  is_finished :
      s.caller ≡ tests_finish
      → s.running ≡ false
      → Step lines status s (record s { caller = outside })
  waits_for_finish :
      s.caller ≡ enters_finish → Step lines status s (record s { caller = waits_finish })
  -- kill_int
  kills :
      s.caller ≡ outside → s.running ≡ true → Step lines status s (record s { caller = signals })
  kills_nothing : s.caller ≡ outside → s.running ≡ false → Step lines status s s
  signals_pid :
      s.caller ≡ signals
      → Step lines status s (record s { caller = outside; signalled = s.signalled ++ s.pid ∷ [] })
  -- ~shc
  destroys_running :
      s.caller ≡ outside → s.running ≡ true → Step lines status s (record s { caller = tests_last })
  destroys :
      s.caller ≡ outside → s.running ≡ false → Step lines status s (record s { caller = joins })
  kills_at_last :
      s.caller ≡ tests_last
      → s.running ≡ true
      → Step lines status s (record s { caller = signals_last })
  kills_nothing_at_last :
      s.caller ≡ tests_last → s.running ≡ false → Step lines status s (record s { caller = joins })
  signals_at_last :
      s.caller ≡ signals_last
      → Step lines status s (record s { caller = joins; signalled = s.signalled ++ s.pid ∷ [] })
  joins_thread :
      s.caller ≡ joins → s.worker ≡ ended → Step lines status s (record s { caller = gone })
  joins_nothing :
      s.caller ≡ joins → s.worker ≡ unborn → Step lines status s (record s { caller = terminated })
  -- run_process
  starts :
      s.worker ≡ starting → Step lines status s (record s { running = true; worker = announcing })
  announces :
      s.worker ≡ announcing
      → Step lines status s (record s {
        caller = wake_start s.caller;
        worker = opening;
        dangling = or_dangling s.dangling (in_run s.caller);
      })
  opens :
      (pid : ℕ)
      → pid ≢ 0
      → s.worker ≡ opening
      → Step lines status s (record s { pid = pid; worker = reading lines })
  reads_line :
      (line : Bytes) (rest : List Bytes)
      → s.worker ≡ reading (line ∷ rest)
      → Step lines status s (record s { worker = pushing line rest })
  pushes :
      (line : Bytes) (rest : List Bytes)
      → s.worker ≡ pushing line rest
      → Step lines status s (record s { output = s.output ++ line ∷ []; worker = told rest })
  tells :
      (rest : List Bytes)
      → s.worker ≡ told rest
      → Step lines status s (record s { caller = wake_output s.caller; worker = reading rest })
  returns :
      s.worker ≡ reading []
      → Step lines status s
          (record s { return_value = some (exit_status status); worker = returned })
  stops : s.worker ≡ returned → Step lines status s (record s { running = false; worker = stopped })
  tells_last :
      s.worker ≡ stopped
      → Step lines status s (record s { caller = wake_output s.caller; worker = told_last })
  tells_finish :
      s.worker ≡ told_last
      → Step lines status s (record s { caller = wake_finish s.caller; worker = ended })

-- The states that a new `shc` reaches. A run ends where its behaviour is undefined.
pub data Reach (lines : List Bytes) (status : ℕ) : Shc → Type 0 where
  start : Reach lines status new_shc
  later :
      {s t : Shc}
      → Reach lines status s
      → is_undefined s ≡ false
      → Step lines status s t
      → Reach lines status t
