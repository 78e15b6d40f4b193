-- ===== src/Osal.antt =====
-- osal/osal.h and osal/linux/osal.c: times and timers, and what the code takes from the operating
-- system.
pub mod Timer
pub mod Tests
use e_rob_soem_linux.Base.{
  ℕ, ◌+◌, ◌-◌, ◌*◌, ◌/◌, ◌%◌, ◌^◌, ◌≤◌, ◌<◌, ◌≡◌, Bool, true, false, not, ◌&&◌, ◌||◌, if◌then◌else◌,
  ltb, leb, ◌==◌, Bytes,
}
use e_rob_soem_linux.Base.Int.{ℤ}

-- `ec_timet`, whose fields are uint32; also a `struct timeval`, whose seconds are wider.
pub record Time : Type 0 where
  pub sec : ℕ
  pub usec : ℕ

abbrev pub u32 : ℕ → ℕ
u32 n = n % 2 ^ 32

abbrev pub usecs_per_sec : ℕ
usecs_per_sec = 1000000

-- The library's macro `timercmp(a, b, <)`.
abbrev before : Time → Time → Bool
before a b = if a.sec == b.sec then ltb a.usec b.usec else ltb a.sec b.sec

-- The library's macro `timeradd`.
abbrev time_add : Time → Time → Time
time_add a b =
    let usec = a.usec + b.usec in
    if leb usecs_per_sec usec
    then record { sec = a.sec + b.sec + 1; usec = usec - usecs_per_sec }
    else record { sec = a.sec + b.sec; usec = usec }

-- `osal_time_diff`, on uint32 fields.
unfoldable pub time_diff : Time → Time → Time
time_diff start end =
    if ltb end.usec start.usec
    then record {
      sec = u32 (end.sec + 2 ^ 32 + 2 ^ 32 - start.sec - 1);
      usec = u32 (end.usec + 1000000 - start.usec);
    }
    else record {
      sec = u32 (end.sec + 2 ^ 32 - start.sec);
      usec = u32 (end.usec + 2 ^ 32 - start.usec);
    }

-- `osal_timer_start` at a reading of the monotonic clock: the `stop_time` of the timer.
unfoldable pub timer_start : Time → ℕ → Time
timer_start now timeout_usec =
    let timeout : Time = record {
      sec = timeout_usec / usecs_per_sec;
      usec = timeout_usec % usecs_per_sec;
    } in
    let stop = time_add now timeout in record { sec = u32 stop.sec; usec = u32 stop.usec }

-- `osal_timer_is_expired` at a reading of the clock.
unfoldable pub timer_is_expired : Time → Time → Bool
timer_is_expired now stop = not (before now stop)

-- What the code calls of the operating system: the monotonic clock as `osal_getrelativetime` reads
-- it, and `osal_usleep`, `send` and `recv` on the primary or, at `true`, the redundant socket. `recv` gives the
-- count and the bytes. `W` is everything outside the program.
pub record Os (W : Type 0) : Type 0 where
  pub now : W → Time × W
  pub send : W → Bool → Bytes → ℤ × W
  pub recv : W → Bool → ℤ × Bytes × W
  pub sleep : W → ℕ → W

-- The microseconds of a time.
abbrev pub us_of : Time → ℕ
us_of t = t.sec * usecs_per_sec + t.usec

-- What the loops that wait for a timer rely on: `us w` is the time at `w`; the clock reads it, and is
-- strictly increasing from one reading to the next, as the comment of `osal_getrelativetime` has it;
-- sending, receiving and sleeping do not put it back. The readings of CLOCK_MONOTONIC, cut to
-- microseconds, may repeat, and then a loop takes more rounds than the model gives it fuel for.
pub record IsClock {W : Type 0} (os : Os W) (us : W → ℕ) : Type 0 where
  pub reads : (w : W) → us_of (os.now w).0 ≡ us w
  pub usec_small : (w : W) → (os.now w).0.usec < usecs_per_sec
  pub advances : (w : W) → us w < us (os.now w).1
  pub send_keeps : (w : W) (second : Bool) (b : Bytes) → us w ≤ us (os.send w second b).1
  pub recv_keeps : (w : W) (second : Bool) → us w ≤ us (os.recv w second).2
  pub sleep_keeps : (w : W) (usec : ℕ) → us w ≤ us (os.sleep w usec)
