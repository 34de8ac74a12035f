-- ===== src/Shell/Shc/Wakeup.antt =====
-- The start of a process by `shc::run` of src/shell.cpp, and the notification that it waits for.
use ztd.Base.{ℕ, true, false, List, [], ◌∷◌, ◌++◌, ◌≡◌, ◌≢◌, refl, ap, arith}
use ztd.Base.Text.{Bytes}
use ztd.Shell.Shc.{
  Shc, is_undefined, Caller, waits_start, uses_output, reading, told, ended, Step, Reach, start,
  later, wake_output, wake_finish,
}

-- No step leads on.
abbrev pub IsStuck : List Bytes → ℕ → Shc → Type 0
IsStuck lines status s = (t : Shc) → ¬ Step lines status s t

unraced : {c : Caller} → c ≡ waits_start → ¬ (uses_output c ≡ true)
unraced {c} e h = ground arith

stuck :
    {lines : List Bytes} {status : ℕ} {s t : Shc}
    → s.caller ≡ waits_start
    → s.worker ≡ ended
    → ¬ Step lines status s t
stuck c w (Step.runs h e f) = cc
stuck c w (Step.runs_again h e f) = cc
stuck c w (Step.runs_running h e) = cc
stuck c w (Step.is_started h e) = cc
stuck c w (Step.is_not_started h e) = cc
stuck c w (Step.waits_for_start h) = cc
stuck c w (Step.calls_output h) = cc
stuck c w (Step.needs_output h e f p) = cc
stuck c w (Step.has_output h e p) = cc
stuck c w (Step.no_output h e) = cc
stuck c w (Step.waits_for_output h) = cc
stuck c w (Step.fronts first rest h e p) = cc
stuck c w (Step.pops ret first rest h e p) = cc
stuck c w (Step.gets_nothing h e p) = cc
stuck c w (Step.races h p) = unraced c h
stuck c w (Step.kills_at_last h e) = cc
stuck c w (Step.kills_nothing_at_last h e) = cc
stuck c w (Step.calls_finish h) = cc
stuck c w (Step.is_running h e) = cc
stuck c w (Step.is_finished h e) = cc
stuck c w (Step.waits_for_finish h) = cc
stuck c w (Step.kills h e) = cc
stuck c w (Step.kills_nothing h e) = cc
stuck c w (Step.signals_pid h) = cc
stuck c w (Step.destroys_running h e) = cc
stuck c w (Step.destroys h e) = cc
stuck c w (Step.signals_at_last h) = cc
stuck c w (Step.joins_thread h e) = cc
stuck c w (Step.joins_nothing h e) = cc
stuck c w (Step.starts h) = cc
stuck c w (Step.opens pid n h) = cc
stuck c w (Step.announces h) = cc
stuck c w (Step.reads_line line rest h) = cc
stuck c w (Step.pushes line rest h) = cc
stuck c w (Step.tells rest h) = cc
stuck c w (Step.returns h) = cc
stuck c w (Step.stops h) = cc
stuck c w (Step.tells_last h) = cc
stuck c w (Step.tells_finish h) = cc

-- The thread goes on to the end of the lines while the program waits.
drained :
    {lines : List Bytes} {status : ℕ} (rest : List Bytes) (s : Shc)
    → Reach lines status s
    → is_undefined s ≡ false
    → s.caller ≡ waits_start
    → s.worker ≡ reading rest
    → (t : Shc) × Reach lines status t
      × (is_undefined t ≡ false)
      × (t.caller ≡ waits_start)
      × (t.worker ≡ reading [])
drained [] s r n c w = (s, r, n, c, w)
drained (line ∷ rest) s r n c w =
    let p = later r n (Step.reads_line line rest w) in
    let t = record s { output = s.output ++ line ∷ []; worker = told rest } in
    drained rest (record t { caller = wake_output t.caller; worker = reading rest })
      (later (later p n (Step.pushes line rest refl)) n (Step.tells rest refl)) n (ap wake_output c)
      refl

ends_waiting :
    {lines : List Bytes} {status : ℕ} (s : Shc)
    → Reach lines status s
    → is_undefined s ≡ false
    → s.caller ≡ waits_start
    → s.worker ≡ reading []
    → (t : Shc) × Reach lines status t × (t.caller ≡ waits_start) × (t.worker ≡ ended)
ends_waiting s r n c w = (
  _,
  later (later (later (later r n (Step.returns w)) n (Step.stops refl)) n (Step.tells_last refl)) n
      (Step.tells_finish refl),
  ap (λ (d : Caller). wake_finish (wake_output d)) c,
  refl,
)

pid_set : ◌≢◌ {A = ℕ} 1 0
pid_set = λ e. cc

-- Whatever the command writes, `run` can wait for ever: where the thread notifies between the second
-- test of `running` and the wait, a state is reached in which the thread has ended, the program waits
-- for its start, and no step leads on. And where the program makes that test after the thread has set
-- `running`, a state is reached in which the thread has notified a `wait_for_start` that was gone. And
-- `kill_int` behind `run` can come before `popen2` has given the process: then it calls `kill` on 0.
pub run_races :
    (lines : List Bytes) (status : ℕ)
    → ((s : Shc) × Reach lines status s
        × (s.worker ≡ ended)
        × (s.caller ≡ waits_start)
        × IsStuck lines status s)
      × ((s : Shc) × Reach lines status s × (s.dangling ≡ true))
      × ((s : Shc) × Reach lines status s × (s.signalled ≡ 0 ∷ []))
run_races lines status =
    let begun = later start refl (Step.runs refl refl refl) in
    let started = later begun refl (Step.starts refl) in
    let returned = later started refl (Step.is_started refl refl) in
    let unseen = later (later begun refl (Step.is_not_started refl refl)) refl (Step.starts refl) in
    let waits = later (later unseen refl (Step.announces refl)) refl (Step.waits_for_start refl) in
    let (s, r, n, c, w) =
      drained lines _ (later waits refl (Step.opens 1 pid_set refl)) refl refl refl in
    let (t, r', c', w') = ends_waiting s r n c w in
    (
      (t, r', w', c', λ u. stuck c' w'),
      (_, later returned refl (Step.announces refl), refl),
      (_, later (later returned refl (Step.kills refl refl)) refl (Step.signals_pid refl), refl),
    )
