-- ===== src/ProcessData/Frames.antt =====
-- The frame that one segment of the process data is sent in.
use e_rob_soem_linux.Base.{
  ℕ, ◌+◌, ◌-◌, ◌*◌, ◌≤◌, ◌<◌, ◌≡◌, ap₂, ◌∙◌, arith, Bool, true, false, if◌then◌else◌, Bytes, get_or,
  take, length, write_at, get_or-take, length-write_at, get_or-write_at_above, length-take, ◌^◌,
}
use e_rob_soem_linux.Datagram.{lrw, frmw, Request, setup_frame, add_frame}
use e_rob_soem_linux.Datagram.Layout.{
  IsWellFormed, Holds, Holds-transfer, setup_frame-Holds, add_frame-Holds, length-setup_frame,
  length-add_frame,
}
use e_rob_soem_linux.Link.{be16, rx_prim}
use e_rob_soem_linux.Primitives.{request}
use e_rob_soem_linux.IndexStack.{Entry}
use e_rob_soem_linux.ProcessData.{reg_dcsystime, lo_word, hi_word}
use e_rob_soem_linux.ProcessData.Buffers.{sent_of}

-- A datagram behind the ethernet header of a buffer, in the frame that is sent of it.
Holds-sent :
    (n at idx d : ℕ) (r : Request) (f : Bytes)
    → 10 ≤ at
    → at + 12 + r.size ≤ n
    → Holds f at idx d r
    → Holds (take n (write_at f 8 (be16 rx_prim))) at idx d r
Holds-sent n at idx d r f h k holds =
    Holds-transfer f out at idx d d r (λ j b. same (at + j) (omega arith) (omega arith))
      (ap₂ (λ a b. a + 256 * b) (same (at + 6) (omega arith) (omega arith))
          (same (at + 6 + 1) (omega arith) (omega arith))
        ∙ holds.dlen)
      (λ j b. same (at + 10 + j) (omega arith) (omega arith)) holds
  where
    out : Bytes
    out = take n (write_at f 8 (be16 rx_prim))

    same : (j : ℕ) → 10 ≤ j → j < n → get_or out j 0 ≡ get_or f j 0
    same j h k =
        get_or-take n (write_at f 8 (be16 rx_prim)) j 0 k
        ∙ get_or-write_at_above f 8 (be16 rx_prim) j 0 h

-- The two datagrams of a segment: LRW at a logical address, and the system time of the slave `dcs`.
abbrev pub process_request : ℕ → Bytes → Entry → Request
process_request log_adr image e = request lrw (lo_word log_adr) (hi_word log_adr) e.len image

abbrev pub clock_request : ℕ → Bytes → Request
clock_request dcs time = request frmw dcs reg_dcsystime 8 time

-- The frame of a segment: one datagram of LRW for the bytes `image` at the logical address
-- `log_adr`, and with `first` a second one that reads the system time of the slave `dcs`. The entry
-- of the stack has their index and size, and where the answer of the second one will stand in the received frame.
pub record Carries (dcs : ℕ) (time : Bytes) (first : Bool) (log_adr : ℕ) (image : Bytes) (e : Entry)
    (f : Bytes) : Type 0 where
  pub process :
      Holds f 16 e.idx (if first then 0x8000 + e.len else e.len) (process_request log_adr image e)
  pub clock : first ≡ true → Holds f (28 + e.len) e.idx 8 (clock_request dcs time)
  pub clock_place : e.dc_offset ≡ (if first then 28 + e.len + 10 - 14 else 0)
  pub size : length f ≡ (if first then 48 + e.len else 28 + e.len)

-- The frame of a segment, as it is sent from the buffer that `ecx_setupdatagram`, and with `first`
-- `ecx_adddatagram`, have filled.
module _ (dcs : ℕ) (time : Bytes) (log_adr : ℕ) (image : Bytes) (e : Entry) (buf : Bytes)
    (full : length buf ≡ 1518) (known : dcs < 65536) (small : log_adr < 2 ^ 32)
    (time_size : length time ≡ 8) (image_size : length image ≡ e.len) where
  abbrev lrw_part : Request
  lrw_part = process_request log_adr image e

  abbrev dc_part : Request
  dc_part = clock_request dcs time

  pub process_request-IsWellFormed : IsWellFormed lrw_part
  process_request-IsWellFormed = record {
    adp_word = omega arith;
    ado_word = omega arith;
    payload_size = image_size;
  }

  pub clock_request-IsWellFormed : IsWellFormed dc_part
  clock_request-IsWellFormed = record {
    adp_word = known;
    ado_word = omega arith;
    payload_size = time_size;
  }

  length-sent_of : (n : ℕ) (f : Bytes) → length f ≡ 1518 → n ≤ 1518 → length (sent_of n f) ≡ n
  length-sent_of n f h k =
      omega (arith, length-take n (write_at f 8 (be16 rx_prim)), length-write_at f 8 (be16 rx_prim))

  abbrev one : Bytes
  one = setup_frame e.idx lrw_part buf

  abbrev two : Bytes
  two = add_frame (28 + e.len) e.idx false dc_part one

  length-one : length one ≡ 1518
  length-one = length-setup_frame e.idx lrw_part buf process_request-IsWellFormed ∙ full

  length-two : length two ≡ 1518
  length-two =
      length-add_frame (28 + e.len) e.idx false dc_part one clock_request-IsWellFormed ∙ length-one

  pub one-Carries :
      e.len ≤ 1490
      → e.dc_offset ≡ 0
      → Carries dcs time false log_adr image e (sent_of (28 + e.len) one)
  one-Carries fits place =
      let (holds, el, hd) =
        setup_frame-Holds e.idx lrw_part buf process_request-IsWellFormed fits
          (omega (arith, full)) in
      record {
        process =
            Holds-sent (28 + e.len) 16 e.idx e.len lrw_part one (omega arith) (omega arith) holds;
        clock = λ c. cc;
        clock_place = place;
        size = length-sent_of (28 + e.len) one length-one (omega arith);
      }

  pub two-Carries :
      e.len ≤ 1470
      → e.dc_offset ≡ 28 + e.len + 10 - 14
      → Carries dcs time true log_adr image e (sent_of (28 + e.len + 12 + 8) two)
  two-Carries fits place =
      let (holds, el, hd) =
        setup_frame-Holds e.idx lrw_part buf process_request-IsWellFormed (omega arith)
          (omega (arith, full)) in
      let (first, second, el', hd') =
        add_frame-Holds e.idx false lrw_part dc_part one clock_request-IsWellFormed (omega arith)
          (omega (arith, length-one)) holds el in
      record {
        process =
            Holds-sent (28 + e.len + 12 + 8) 16 e.idx (0x8000 + e.len) lrw_part two (omega arith)
              (omega arith) first;
        clock = λ c.
            Holds-sent (28 + e.len + 12 + 8) (28 + e.len) e.idx 8 dc_part two (omega arith)
              (omega arith) second;
        clock_place = place;
        size = length-sent_of (28 + e.len + 12 + 8) two length-two (omega arith) ∙ omega arith;
      }
