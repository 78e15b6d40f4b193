-- ===== src/Datagram/Tests.antt =====
-- One and two datagrams in a concrete frame.
use e_rob_soem_linux.Base.{
  ℕ, ◌++◌, subst, write_at, ◌+◌, ◌<◌, ◌≡◌, refl, arith, true, [], ◌∷◌, Bytes, replicate, get16,
  get_or,
}
use e_rob_soem_linux.Datagram.{lrw, frmw, Request, datagram_data, setup_frame, add_frame}
use e_rob_soem_linux.Datagram.Layout.{Holds, setup_frame-Holds, add_frame-Holds}

abbrev frame : Bytes
frame = replicate 64 0

-- Two bytes of process data at logical address 0x10000.
abbrev process_data : Request
process_data = record { command = lrw; adp = 0; ado = 1; size = 2; payload = 0xab ∷ 0xcd ∷ [] }

-- The distributed clock's time of slave 0x1001.
abbrev clock_time : Request
clock_time = record { command = frmw; adp = 0x1001; ado = 0x910; size = 8; payload = replicate 8 7 }

setup_frame-Holds_example :
    Holds (setup_frame 5 process_data frame) 16 5 2 process_data
    × (get16 (setup_frame 5 process_data frame) 14 ≡ 0x1000 + 12 + 2)
    × ((j : ℕ) → j < 14 → get_or (setup_frame 5 process_data frame) j 0 ≡ get_or frame j 0)
setup_frame-Holds_example =
    setup_frame-Holds 5 process_data frame
      (record { adp_word = omega arith; ado_word = omega arith; payload_size = refl }) (omega arith)
      (omega arith)

-- The frame as `ecx_setupdatagram` leaves it.
abbrev first : Bytes
first =
    replicate 14 0
    ++ (0x0e ∷ 0x10 ∷ 12 ∷ 5 ∷ 0 ∷ 0 ∷ 1 ∷ 0 ∷ 2 ∷ 0 ∷ 0 ∷ 0 ∷ 0xab ∷ 0xcd ∷ 0 ∷ 0 ∷ replicate 34 0)

first_runs : setup_frame 5 process_data frame ≡ first
unfolding setup_frame write_at datagram_data
first_runs = refl

first-Holds : Holds first 16 5 2 process_data
first-Holds = subst (λ f. Holds f 16 5 2 process_data) first_runs setup_frame-Holds_example.0

add_frame-Holds_example :
    let out = add_frame 30 5 true clock_time first in
    Holds out 16 5 0x8002 process_data
    × Holds out 30 5 0x8008 clock_time
    × (get16 out 14 ≡ 0x1000 + 12 + 2 + (12 + 8))
    × ((j : ℕ) → j < 14 → get_or out j 0 ≡ get_or first j 0)
add_frame-Holds_example =
    add_frame-Holds 5 true process_data clock_time first
      (record { adp_word = omega arith; ado_word = omega arith; payload_size = refl }) (omega arith)
      (omega arith) first-Holds refl
