-- ===== src/ProcessData/Tests.antt =====
-- A group with two segments, sent from a port without answers.
use e_rob_soem_linux.Base.{
  ℕ, zero, suc, ◌≤◌, ◌<◌, ◌≡◌, refl, ap, ◌∙◌, arith, true, false, List, [], ◌∷◌, ◌++◌, Bytes, inr,
  set, write_at, replicate, length, length-replicate, get_or, if◌then◌else◌, some,
}
use e_rob_soem_linux.Base.Int.{ℤ, pos, negsuc}
use e_rob_soem_linux.Osal.{Os}
use e_rob_soem_linux.Osal.Tests.{silent, silent-IsClock}
use e_rob_soem_linux.Nic.{BufState, Port, empty, rcvd, set_buf_stat}
use e_rob_soem_linux.Nic.Tests.{port}
use e_rob_soem_linux.Link.{Net, wait_in_frame, wait_in_frame_red, wait_both, read_both, in_frame}
use e_rob_soem_linux.Link.Tests.{net}
use e_rob_soem_linux.IndexStack.Fifo.{IsValid, pending}
use e_rob_soem_linux.ProcessData.{Group, Bus, send_processdata, receive_processdata}
use e_rob_soem_linux.ProcessData.Buffers.{IsRecord, HasBuffers}
use e_rob_soem_linux.ProcessData.Partition.{lengths, layout, SendsAll, send_processdata-SendsAll}
use e_rob_soem_linux.ProcessData.Reassembly.{AllArrive, receive_processdata-Arrives}
use e_rob_soem_linux.ProcessData.Receive.{Outside, receive_processdata_lem}

abbrev group : Group
group = record {
  logstartaddr = 0x10000;
  obytes = 6;
  outputs = 0;
  ibytes = 4;
  inputs = 6;
  hasdc = true;
  block_lrw = false;
  nsegments = 2;
  isegment = 0;
  ioffset = 6;
  iosegment = 7 ∷ 3 ∷ [];
}

abbrev bus : ℕ → Bus ℕ
bus pushed = record {
  net = net;
  iomap = replicate 10 0;
  idxstack = record {
    pushed = pushed;
    pulled = 0;
    idx = replicate 16 5;
    data_ptr = replicate 16 6;
    len = replicate 16 4;
    dc_offset = replicate 16 0;
  };
  dc_time = replicate 8 0;
}

bus-IsValid : (pushed : ℕ) → pushed ≤ 16 → IsValid (bus pushed).idxstack
bus-IsValid pushed h = record {
  pushed_in = h;
  order = omega arith;
  idx_places = refl;
  data_ptr_places = refl;
  len_places = refl;
  dc_offset_places = refl;
}

-- A world that is the frames sent on the primary socket.
abbrev recorder : Os (List Bytes)
recorder = record {
  now = λ w. (record { sec = 0; usec = 0 }, w);
  send = λ w second f. (pos 0, if second then w else w ++ (f ∷ []));
  recv = λ w second. (negsuc 0, [], w);
  sleep = λ w usec. w;
}

recorder-IsRecord : IsRecord recorder (λ w. w)
recorder-IsRecord = record { on_primary = λ w f. refl; on_secondary = λ w f. refl }

abbrev ready : Bus (List Bytes)
ready =
    let p = port empty in
    record {
      net = record {
        port = record p { txbuf = replicate 16 (replicate 1518 0); txbuflength = replicate 16 0 };
        world = [];
      };
      iomap = replicate 10 3;
      idxstack = (bus 0).idxstack;
      dc_time = replicate 8 0;
    }

get_or-replicate_in : (n : ℕ) (x : Bytes) (i : ℕ) → i < n → get_or (replicate n x) i [] ≡ x
get_or-replicate_in zero x i h = absurd (omega arith)
get_or-replicate_in (suc n) x zero h = refl
get_or-replicate_in (suc n) x (suc i) h = get_or-replicate_in n x i (omega arith)

ready-HasBuffers : HasBuffers ready.net.port
ready-HasBuffers = record {
  places = refl;
  length_places = refl;
  sizes = λ i h.
      ap length (get_or-replicate_in 16 (replicate 1518 0) i h) ∙ length-replicate {A = ℕ} 1518 0;
}

send_processdata-SendsAll_example :
    let (wkc, b') = send_processdata recorder 0x1001 false group ready in
    (wkc ≡ 1) × SendsAll (λ w. w) 0x1001 0x10000 0 0 true 0 (lengths 2 0 group) ready b'
send_processdata-SendsAll_example =
    send_processdata-SendsAll recorder (λ w. w) recorder-IsRecord 0x1001 (omega arith) group false 1
      ready ready-HasBuffers (bus-IsValid 0 (omega arith)) (omega arith) refl refl refl
      (omega arith, omega arith, (omega arith, omega arith, tt)) refl (omega arith)

two_places : layout 0 (lengths 2 0 group) ≡ (0, 7) ∷ (7, 3) ∷ []
two_places = refl

receive_processdata_lem_example :
    (r : ℤ × Bus ℕ) × (receive_processdata silent 100 (bus 2) ≡ some r)
    × (pending r.1.idxstack ≡ [])
    × (length r.1.iomap ≡ length (bus 2).iomap)
    × (Outside 3 (pending (bus 2).idxstack) → get_or r.1.iomap 3 0 ≡ get_or (bus 2).iomap 3 0)
receive_processdata_lem_example =
    receive_processdata_lem silent (λ w. w) silent-IsClock 100 3 (bus 2)
      (bus-IsValid 2 (omega arith))

-- Two answers of four bytes that have been received, with a working counter of 3.
abbrev frame : Bytes
frame = 16 ∷ 0x10 ∷ 12 ∷ 5 ∷ 0 ∷ 0 ∷ 1 ∷ 0 ∷ 4 ∷ 0 ∷ 0 ∷ 0 ∷ 1 ∷ 2 ∷ 3 ∷ 4 ∷ 3 ∷ 0 ∷ []

abbrev port_with : List BufState → Port
port_with stats =
    let p = port rcvd in
    let s = p.primary in
    record p {
      redundant = false;
      primary = record s { rxbuf = replicate 16 frame; rxbufstat = stats };
    }

abbrev answered : Bus ℕ
answered =
    let b = bus 2 in
    let s = b.idxstack in
    record b {
      net = record { port = port_with (replicate 16 rcvd); world = 0 };
      idxstack = record s { idx = 5 ∷ 6 ∷ replicate 14 0; data_ptr = 2 ∷ 6 ∷ replicate 14 0 };
    }

abbrev left : Net ℕ
left = record { port = port_with (set (set (replicate 16 rcvd) 5 empty) 6 empty); world = 2 }

both_arrive :
    AllArrive silent 100 true 2
      (pending answered.idxstack)
      ((3, frame) ∷ (3, frame) ∷ [])
      answered.net
      left
unfolding wait_in_frame wait_in_frame_red wait_both read_both in_frame set_buf_stat
both_arrive = (
  _,
  record {
    waited = refl;
    frame = refl;
    is_read = inr refl;
    complete = omega arith;
    placed = refl;
    clock = λ c. cc;
  },
  (
    _,
    record {
      waited = refl;
      frame = refl;
      is_read = inr refl;
      complete = omega arith;
      placed = refl;
      clock = λ c. refl;
    },
    refl,
  ),
)

answered-IsValid : IsValid answered.idxstack
answered-IsValid = record {
  pushed_in = omega arith;
  order = omega arith;
  idx_places = refl;
  data_ptr_places = refl;
  len_places = refl;
  dc_offset_places = refl;
}

receive_processdata-Arrives_example :
    (b' : Bus ℕ) × (receive_processdata silent 100 answered ≡ some (pos 6, b'))
    × (b'.iomap ≡ write_at answered.iomap 2 (1 ∷ 2 ∷ 3 ∷ 4 ∷ 1 ∷ 2 ∷ 3 ∷ 4 ∷ []))
    × (b'.dc_time ≡ answered.dc_time)
    × (pending b'.idxstack ≡ [])
    × (b'.net ≡ left)
receive_processdata-Arrives_example =
    receive_processdata-Arrives silent 100 2 ((3, frame) ∷ (3, frame) ∷ []) answered left
      answered-IsValid (omega arith) both_arrive
