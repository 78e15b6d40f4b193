-- ===== src/Link/Tests.antt =====
-- A concrete frame that is received, and the waiting loops on a network that does not answer.
use e_rob_soem_linux.Base.{
  ℕ, write_at, ◌≡◌, ◌≢◌, ◌⊎◌, refl, arith, false, not, some, [], ◌∷◌, ◌++◌, replicate,
}
use e_rob_soem_linux.Base.Int.{ℤ, pos}
use e_rob_soem_linux.Osal.Tests.{silent, silent-IsClock}
use e_rob_soem_linux.Nic.{tx, Port}
use e_rob_soem_linux.Nic.Tests.{port}
use e_rob_soem_linux.Link.{Net, stack_of, frame_index, take_frame, store_frame, sr_confirm}
use e_rob_soem_linux.Link.Routing.{slot, stat_at, take_frame_routes}
use e_rob_soem_linux.Link.Total.{sr_confirm_total}

-- Index 5 is answered on the primary stack, with a working counter of 1.
abbrev answered : Port
answered =
    let p = port tx in
    let s = p.primary in
    record p {
      txbuflength = replicate 16 30;
      primary = record s {
        tempbuf =
            replicate 6 255
            ++ (1 ∷ 1 ∷ 1 ∷ 1 ∷ 1 ∷ 1 ∷ 0x88 ∷ 0xa4 ∷ [])
            ++ (14 ∷ 0x10 ∷ 12 ∷ 5 ∷ 0 ∷ 0 ∷ 1 ∷ 0 ∷ 2 ∷ 0 ∷ 0 ∷ 0 ∷ 0xab ∷ 0xcd ∷ 1 ∷ 0 ∷ []);
      };
    }

take_frame_routes_example :
    ((j : ℕ)
      → (frame_index answered false ≢ j) ⊎ ((5 ≢ j) × (stat_at answered false j ≢ tx))
      → slot (take_frame answered 5 false).1 false j ≡ slot answered false j)
    × (stack_of (take_frame answered 5 false).1 (not false) ≡ stack_of answered (not false))
take_frame_routes_example = take_frame_routes answered 5 false

working_counter : (take_frame answered 5 false).0 ≡ pos 1
unfolding take_frame store_frame write_at
working_counter = refl

abbrev pub net : Net ℕ
net = record { port = answered; world = 0 }

sr_confirm_total_example : (r : ℤ × Net ℕ) × (sr_confirm silent 101 2001 5 100 net ≡ some r)
sr_confirm_total_example =
    sr_confirm_total silent (λ w. w) silent-IsClock 101 2001 5 100 net (omega arith) (omega arith)
