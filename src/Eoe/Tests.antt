-- ===== src/Eoe/Tests.antt =====
-- A frame of seventy bytes through a mailbox of sixty.
use e_rob_soem_linux.Base.{
  ℕ, ◌≡◌, arith, List, [], ◌∷◌, ◌≤◌, get_or, some, Bytes, length, replicate, write_at,
}
use e_rob_soem_linux.Base.Int.{pos}
use e_rob_soem_linux.Eoe.{eoe_send, eoe_recv}
use e_rob_soem_linux.Eoe.Hook.{Reading, read_fragment, read_fragment_within}
use e_rob_soem_linux.Eoe.RoundTrip.{loopback, eoe_send-recv}

abbrev frame : Bytes
frame = replicate 70 7

eoe_send-recv_example :
    (ms : List Bytes) × (eoe_send loopback 2 1000 71 60 8 70 frame [] ≡ some ((pos 1, 9), ms))
    × (eoe_recv loopback 2 1000 (length ms) 96 (replicate 96 0) ms
        ≡ some ((pos 1, pos 70, write_at (replicate 96 0) 0 frame), []))
eoe_send-recv_example =
    eoe_send-recv 2 1000 60 8 96 frame (replicate 96 0) (omega arith) (omega arith) (omega arith)
      (omega arith) (omega arith)

-- A fragment with a length that is too large for the buffer of eight bytes.
abbrev large : Bytes
large = 0xff ∷ 0xff ∷ 0 ∷ 0 ∷ 0 ∷ 2 ∷ 0 ∷ 0 ∷ 0x40 ∷ 0 ∷ replicate 40 9

abbrev waiting : Reading
waiting = record {
  fragmentno = 0;
  framesize = 0;
  frameoffset = 0;
  frameno = 0;
  psize = 8;
  p = replicate 12 0;
}

read_fragment_within_example :
    let r = (read_fragment large waiting).1 in
    (r.frameoffset ≤ r.framesize)
    × (length r.p ≡ 12)
    × ((j : ℕ) → 8 ≤ j → get_or r.p j 0 ≡ get_or (replicate 12 0) j 0)
read_fragment_within_example = read_fragment_within large waiting (omega arith)
