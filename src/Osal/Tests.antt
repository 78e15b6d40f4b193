-- ===== src/Osal/Tests.antt =====
-- A clock that no frame answers, and the timer theorems at concrete times.
use e_rob_soem_linux.Base.{ℕ, ◌+◌, ◌/◌, ◌%◌, ◌≤◌, ◌≡◌, ◌↔◌, refl, arith, true, []}
use e_rob_soem_linux.Base.Int.{pos, negsuc}
use e_rob_soem_linux.Osal.{Time, Os, IsClock, us_of, time_diff, timer_start, timer_is_expired}
use e_rob_soem_linux.Osal.Timer.{timer_is_expired_iff}

-- A network on which nothing is received; the world is the clock's microseconds.
abbrev pub silent : Os ℕ
silent = record {
  now = λ w. (record { sec = w / 1000000; usec = w % 1000000 }, w + 1);
  send = λ w second b. (pos 0, w);
  recv = λ w second. (negsuc 0, [], w);
  sleep = λ w usec. w + usec;
}

pub silent-IsClock : IsClock silent (λ w. w)
silent-IsClock = record {
  reads = λ w. omega arith;
  usec_small = λ w. omega arith;
  advances = λ w. omega arith;
  send_keeps = λ w second b. omega arith;
  recv_keeps = λ w second. omega arith;
  sleep_keeps = λ w usec. omega arith;
}

abbrev early : Time
early = record { sec = 7; usec = 999000 }

abbrev late : Time
late = record { sec = 8; usec = 1000 }

timer_is_expired_iff_example :
    (timer_is_expired late (timer_start early 2000) ≡ true) ↔ (us_of early + 2000 ≤ us_of late)
timer_is_expired_iff_example =
    timer_is_expired_iff early late 2000 (omega arith) (omega arith) (omega arith)

time_diff_runs : time_diff early late ≡ record { sec = 0; usec = 2000 }
unfolding time_diff
time_diff_runs = refl
