-- ===== src/Eeprom/Tests.antt =====
-- EEPROMs that are ready, never answer, or stop answering.
use e_rob_soem_linux.Base.{
  [], ◌∷◌, ◌+◌, ◌≤◌, ltb, if◌then◌else◌, ℕ, ◌≡◌, refl, arith, Bool, true, none, some, replicate,
}
use e_rob_soem_linux.Base.Int.{pos}
use e_rob_soem_linux.Osal.Tests.{silent}
use e_rob_soem_linux.Osal.{timer_start, timer_is_expired}
use e_rob_soem_linux.Link.{Net}
use e_rob_soem_linux.Task.{poll, timer, late_or_sleep, is_late, ◌>>=◌}
use e_rob_soem_linux.Link.Tests.{net}
use e_rob_soem_linux.Eeprom.{Access, wait_not_busy, read_loop}
use e_rob_soem_linux.Eeprom.Answers.{wait_not_busy_unanswered, read_loop_diverges}

-- A slave that is there from the tenth microsecond on: before, its EEPROM is busy and no write is
-- acknowledged.
abbrev ready : Access (Net ℕ)
ready = record {
  read = λ ado size buf timeout n.
      some ((pos 1, (if ltb n.world 10 then 0 ∷ 0x80 ∷ [] else 0 ∷ 0 ∷ [])), n);
  write = λ ado size buf timeout n. some ((if ltb n.world 10 then pos 0 else pos 1), n);
}

abbrev Started : Net ℕ → Type 0
Started n = 10 ≤ n.world

abbrev lost : Access (Net ℕ)
lost = record {
  read = λ ado size buf timeout n. some ((pos 0, buf), n);
  write = λ ado size buf timeout n. some (pos 0, n);
}

-- What comes back after a timeout of one microsecond.
abbrev given_up : (Bool × ℕ) × Net ℕ
given_up = ((true, 0), record net { world = 2 })

wait_runs : wait_not_busy silent lost 1 net ≡ some given_up
unfolding wait_not_busy poll timer late_or_sleep is_late ◌>>=◌ timer_start timer_is_expired
wait_runs = refl

wait_not_busy_unanswered_example : given_up.0 ≡ (true, 0)
wait_not_busy_unanswered_example =
    wait_not_busy_unanswered silent lost 1 net given_up (λ m q e. ground arith) wait_runs

-- A slave that acknowledges writes until the tenth microsecond, and none from then on.
abbrev removed : Access (Net ℕ)
removed = record {
  read = λ ado size buf timeout n. some ((pos 0, buf), n);
  write = λ ado size buf timeout n.
      some ((if ltb n.world 10 then pos 1 else pos 0), record n { world = n.world + 1 });
}

read_loop_diverges_example :
    read_loop silent removed 50 0x40 20000 1 (replicate 8 0) (record net { world = 12 }) ≡ none
read_loop_diverges_example =
    read_loop_diverges silent removed Started 0x40 (λ m q i e. ground arith) 50 20000 1
      (replicate 8 0) (record net { world = 12 }) (omega arith) (omega arith) (omega arith)
