-- ===== src/Foe/Reading.antt =====
-- `ecx_FOEread` of soem/ethercatfoe.c. `p` is the buffer from its start, and `dataread` how far the pointer
-- has moved on in it.
pub mod Bounds
pub mod Reassembly
use e_rob_soem_linux.Base.{
  ℕ, zero, suc, ◌+◌, ◌%◌, ◌^◌, Bool, true, false, [], Option, none, some, ◌&&◌, if◌then◌else◌, leb,
  ◌==◌, Bytes, read_at, write_at,
}
use e_rob_soem_linux.Base.Int.{ℤ, is_positive}
use e_rob_soem_linux.Task.{Task, pure, ◌>>=◌, ◌>>◌}
use e_rob_soem_linux.Mailbox.Channel.{Channel, ec_timeouttxm, clear_mbx}
use e_rob_soem_linux.Foe.{
  packet_error, foe_error, buf2small, is_foe, opcode, packet_number, packet_size, max_data,
  file_request, foe_packet, progress,
}

-- The variables of the loop, with what comes out through `psize`.
pub record FileRead : Type 0 where
  pub wkc : ℤ
  pub psize : ℕ
  pub prevpacket : ℕ
  pub dataread : ℕ
  pub p : Bytes
  pub out : Bytes

-- A data packet with the next number whose data fit into the buffer.
abbrev pub is_next : ℕ → Bytes → FileRead → Bool
is_next buffersize mbx v =
    is_foe mbx
    && opcode mbx == 3
    && packet_number mbx == (v.prevpacket + 1) % 2 ^ 32
    && leb (v.dataread + packet_size mbx) buffersize

-- What any other mailbox gives in place of a working counter.
abbrev pub refusal : Bytes → ℤ
refusal mbx =
    if is_foe mbx
    then if opcode mbx == 3
      then buf2small
      else (if opcode mbx == 5 then foe_error else packet_error)
    else packet_error

module _ {S : Type 0} (ch : Channel S) (hook : Option (ℕ → ℕ → S → S)) (maxdata : ℕ) where
  -- A packet is stored and acknowledged; `true` goes on.
  unfoldable pub take_packet : Bytes → FileRead → Task S (Bool × FileRead)
  take_packet mbx v = do
    let size = packet_size mbx
    let number = packet_number mbx
    let dataread = v.dataread + size
    cnt ← ch.count
    let out = foe_packet 4 v.out number [] cnt
    wkc ← ch.send out ec_timeouttxm
    progress hook number dataread
    pure (
      size == maxdata && is_positive wkc,
      record {
        wkc = wkc;
        psize = dataread;
        prevpacket = number;
        dataread = dataread;
        p = write_at v.p v.dataread (read_at mbx 12 size);
        out = out;
      },
    )

  -- The body of the loop.
  unfoldable pub read_packet : ℕ → ℕ → FileRead → Task S (Bool × FileRead)
  read_packet timeout buffersize v = do
    (wkc, mbx) ← ch.receive clear_mbx timeout
    if is_positive wkc
        then (if is_next buffersize mbx v
            then take_packet mbx v
            else pure (false, record v { wkc = refusal mbx; psize = v.dataread }))
        else pure (false, record v { wkc = wkc })

  unfoldable pub read_packets : ℕ → ℕ → ℕ → FileRead → Task S FileRead
  read_packets zero timeout buffersize v s = none
  read_packets (suc fuel) timeout buffersize v s = elim (read_packet timeout buffersize v s) [
    | none ↦ none
    | some ((more, v'), s') ↦ elim more [
      | true ↦ read_packets fuel timeout buffersize v' s'
      | false ↦ some (v', s')
    ]
  ]

module _ {S : Type 0} (ch : Channel S) (hook : Option (ℕ → ℕ → S → S)) where
  -- `ecx_FOEread` for a slave with `mbx_l`; the fuel is for the packets.
  unfoldable pub foe_read : ℕ → ℕ → Bytes → ℕ → ℕ → Bytes → ℕ → Task S FileRead
  foe_read fuel mbx_l filename password psize p timeout = do
    ch.receive clear_mbx 0
    cnt ← ch.count
    let out = file_request 1 mbx_l filename password cnt
    wkc ← ch.send out ec_timeouttxm
    let v : FileRead = record {
      wkc = wkc;
      psize = psize;
      prevpacket = 0;
      dataread = 0;
      p = p;
      out = out;
    }
    if is_positive wkc then read_packets ch hook (max_data mbx_l) fuel timeout psize v else pure v
