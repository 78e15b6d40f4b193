-- ===== src/ErrorList/Tests.antt =====
-- Runs of the error list, and the theorems at concrete lists.
use e_rob_soem_linux.Base.{◌≡◌, refl, arith, true, List, [], ◌∷◌, none, some, replicate}
use e_rob_soem_linux.ErrorList.{Ering, blank, push_error, pop_error, packet_error_report}
use e_rob_soem_linux.Osal.{Time}
use e_rob_soem_linux.ErrorList.Queue
use e_rob_soem_linux.ErrorList.Queue.{Op, put, get}
use e_rob_soem_linux.ErrorList.Ring.{IsValid, run, run_refines}

abbrev noon : Time
noon = record { sec = 43200; usec = 5 }

-- One unread error, at the last place of the array.
abbrev list : Ering
list = record { head = 0; tail = 64; error = replicate 65 blank; ecaterror = true }

list-IsValid : IsValid list
list-IsValid = ground arith

abbrev ops : List Op
ops = put blank ∷ get ∷ get ∷ get ∷ []

three_errors : run list ops ≡ some blank ∷ some (record blank { signal = true }) ∷ none ∷ []
unfolding run push_error pop_error
three_errors = refl

report_lands : (packet_error_report noon 1 0x1c00 2 5 list).head ≡ 1
unfolding packet_error_report push_error
report_lands = refl

run_refines_example : run list ops ≡ Queue.run (blank ∷ []) ops
run_refines_example = run_refines list ops list-IsValid
