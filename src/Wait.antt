-- ===== src/Wait.antt =====
-- `wait_pool` of include/wait.hpp and src/wait.cpp, by the threads that wait in it. Its mutex is held
-- by nobody but a thread on its way into the wait. Wake-ups without a notification are left out.
use ztd.Base.{ℕ, List, [], ◌∷◌, ◌++◌, ◌≡◌}

pub record WaitPool : Type 0 where
  pub waiting : List ℕ

-- `wait`, called by a thread, up to its wake-up.
abbrev pub wait : WaitPool → ℕ → WaitPool
wait pool thread = record { waiting = pool.waiting ++ thread ∷ [] }

-- `notify_all`: nobody waits, and the notification is not kept for a later `wait`.
abbrev pub notify_all : WaitPool → WaitPool
notify_all pool = record { waiting = [] }

-- `notify_one`: any one of the threads, if there is one.
pub data NotifyOne (pool : WaitPool) : WaitPool → Type 0 where
  wakes :
      (before after : List ℕ) (thread : ℕ)
      → pool.waiting ≡ before ++ thread ∷ after
      → NotifyOne pool (record { waiting = before ++ after })
  wakes_nobody : pool.waiting ≡ [] → NotifyOne pool pool
