-- ===== src/Timer.antt =====
-- `timer` of include/time.hpp and src/time.cpp. The answer of `gettimeofday` is an argument, and times
-- are whole microseconds, without the rounding of `double` seconds.
use ztd.Base.{ℕ, ◌+◌, ◌*◌, ◌^◌, Bool, true, false, ◌≡◌, refl, if◌then◌else◌}
use ztd.Base.Int.{ℤ, pos, ◌-ℤ◌}

pub record Timeval : Type 0 where
  pub tv_sec : ℕ
  pub tv_usec : ℕ

pub record Timer : Type 0 where
  pub stopped : Bool
  pub measured : ℤ
  pub started : Timeval
  pub ended : Timeval

-- `timer()`: the two times are not set.
abbrev pub new_timer : Timeval → Timeval → Timer
new_timer a b = record { stopped = true; measured = pos 0; started = a; ended = b }

abbrev pub microseconds : Timeval → ℕ
microseconds t = t.tv_sec * 10 ^ 6 + t.tv_usec

-- `b.tv_sec - a.tv_sec + (b.tv_usec - a.tv_usec) / 1000000.0`.
abbrev pub between : Timeval → Timeval → ℤ
between a b = pos (microseconds b) -ℤ pos (microseconds a)

-- `time`.
unfoldable pub time : Timer → Timeval → ℤ
time t now = if t.stopped then t.measured else between t.started now

-- `start`.
unfoldable pub start : Timer → Timeval → Timer
start t now = record t { measured = pos 0; started = now; stopped = false }

-- `stop`, and what it returns.
unfoldable pub stop : Timer → Timeval → Timer × Bool
stop t now =
    if t.stopped
    then (t, false)
    else (record t { ended = now; stopped = true; measured = between t.started now }, true)

-- `reset`.
unfoldable pub reset : Timer → Timer
reset t = record t { measured = pos 0; stopped = true }

-- A timer started at `a` measures from `a` to any time it is asked at. Stopped at `b` it measures from
-- `a` to `b` whenever it is asked, also where it is stopped again, which returns false. Reset it
-- measures nothing.
pub time-start :
    (t : Timer) (a b c : Timeval)
    → let running = start t a in
      let halted = (stop running b).0 in
      (time running c ≡ between a c)
      × (stop running b ≡ (halted, true))
      × (time halted c ≡ between a b)
      × (stop halted c ≡ (halted, false))
      × (time (reset halted) c ≡ pos 0)
unfolding time start stop reset
time-start t a b c = (refl, refl, refl, refl, refl)
