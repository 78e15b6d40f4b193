-- ===== src/Osal/Timer.antt =====
-- The timers of osal.c measure the time that they are started with.
use e_rob_soem_linux.Base.{ℕ, ◌+◌, ◌*◌, ◌^◌, ◌≤◌, ◌<◌, ◌≡◌, ◌↔◌, arith, true, false}
use e_rob_soem_linux.Osal.{Time, us_of, time_diff, timer_start, timer_is_expired}

-- A timer started at `t` is expired at a reading `now` exactly when the timeout has passed, as long
-- as the stop time fits its uint32 seconds.
pub timer_is_expired_iff :
    (t now : Time) (timeout : ℕ)
    → t.usec < 1000000
    → now.usec < 1000000
    → us_of t + timeout < 2 ^ 32 * 1000000
    → (timer_is_expired now (timer_start t timeout) ≡ true) ↔ (us_of t + timeout ≤ us_of now)
unfolding timer_start timer_is_expired
timer_is_expired_iff t now timeout h k b = ground arith

-- Whether or not the seconds of the stop time wrap, a timer that is not expired shows that less
-- than the timeout has passed.
pub not_expired_lt :
    (t now : Time) (timeout : ℕ)
    → t.usec < 1000000
    → now.usec < 1000000
    → timer_is_expired now (timer_start t timeout) ≡ false
    → us_of now < us_of t + timeout
unfolding timer_start timer_is_expired
not_expired_lt t now timeout h k e = ground arith

-- `osal_time_diff` of two times in order is their difference, with less than a second in `usec`.
time_diff_lem :
    (start end : Time)
    → start.usec < 1000000
    → end.usec < 1000000
    → end.sec < 2 ^ 32
    → us_of start ≤ us_of end
    → (us_of (time_diff start end) + us_of start ≡ us_of end)
      × ((time_diff start end).usec < 1000000)
unfolding time_diff
time_diff_lem start end h k b o = ground arith
