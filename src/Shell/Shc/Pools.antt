-- ===== src/Shell/Shc/Pools.antt =====
-- The three pools of `shc` of src/shell.cpp, against `wait_pool` of src/wait.cpp.
use ztd.Base.{[], ◌≡◌, refl}
use ztd.Shell.Shc.{
  Caller, waits_start, waits_output, waits_finish, wake_start, wake_output, wake_finish,
}
use ztd.Wait.{WaitPool, wait, notify_all}

abbrev empty : WaitPool
empty = record { waiting = [] }

-- The program is the only thread that waits, with the number 0.
abbrev start_pool : Caller → WaitPool
start_pool waits_start = wait empty 0
start_pool c = empty

abbrev output_pool : Caller → WaitPool
output_pool waits_output = wait empty 0
output_pool c = empty

abbrev finish_pool : Caller → WaitPool
finish_pool waits_finish = wait empty 0
finish_pool c = empty

-- What wakes the program in a step of the thread is `notify_all` of the pool.
start_pool-wake_start : (c : Caller) → start_pool (wake_start c) ≡ notify_all (start_pool c)
start_pool-wake_start waits_start = refl
start_pool-wake_start _ = refl

output_pool-wake_output : (c : Caller) → output_pool (wake_output c) ≡ notify_all (output_pool c)
output_pool-wake_output waits_output = refl
output_pool-wake_output _ = refl

finish_pool-wake_finish : (c : Caller) → finish_pool (wake_finish c) ≡ notify_all (finish_pool c)
finish_pool-wake_finish waits_finish = refl
finish_pool-wake_finish _ = refl
