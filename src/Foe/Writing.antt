-- ===== src/Foe/Writing.antt =====
-- `ecx_FOEwrite` of soem/ethercatfoe.c. `left` is what is left of `psize`, and `hp` how far the pointer has
-- moved on in the file.
pub mod Total
pub mod Rounds
pub mod Delivery
use e_rob_soem_linux.Base.{
  ℕ, zero, suc, ◌+◌, ◌-◌, ◌%◌, ◌^◌, Bool, true, false, [], Option, none, some, ◌&&◌, ◌||◌,
  if◌then◌else◌, ltb, min, ◌==◌, Bytes, get32, read_at,
}
use e_rob_soem_linux.Base.Int.{ℤ, is_positive}
use e_rob_soem_linux.Task.{Task, pure, ◌>>=◌, ◌>>◌}
use e_rob_soem_linux.Mailbox.Channel.{Channel, ec_timeouttxm, clear_mbx}
use e_rob_soem_linux.Foe.{
  packet_error, foe_error, wrong_number, file_notfound, is_foe, opcode, packet_number, max_data,
  file_request, foe_packet, progress,
}

-- The variables of the loop; `segmentdata` is the size of the last packet.
pub record FileWrite : Type 0 where
  pub wkc : ℤ
  pub sendpacket : ℕ
  pub left : ℕ
  pub hp : ℕ
  pub segmentdata : ℕ
  pub dofinalzero : Bool
  pub out : Bytes

-- After BUSY the last packet counts as not sent.
abbrev pub take_back : FileWrite → FileWrite
take_back v = record v {
  left = v.left + v.segmentdata;
  hp = v.hp - v.segmentdata;
  dofinalzero = v.dofinalzero || v.left == 0;
  sendpacket = v.sendpacket - 1;
}

-- What comes of any answer but an acknowledgement.
abbrev pub no_acknowledge : Bytes → FileWrite → FileWrite
no_acknowledge mbx v =
    if is_foe mbx
    then if opcode mbx == 6 then (if ltb 0 v.sendpacket then take_back v else v) else record v {
      wkc =
          if opcode mbx == 5
          then (if get32 mbx 8 == 0x8001 then file_notfound else foe_error)
          else packet_error;
    }
    else record v { wkc = packet_error }

module _ {S : Type 0} (ch : Channel S) (hook : Option (ℕ → ℕ → S → S)) (maxdata : ℕ)
    (p : Bytes) where
  -- A packet of `size` bytes, `d`, is sent; `true` goes on.
  unfoldable pub send_packet : ℕ → Bytes → FileWrite → Task S (Bool × FileWrite)
  send_packet size d v = do
    cnt ← ch.count
    let number = (v.sendpacket + 1) % 2 ^ 32
    let out = foe_packet 3 v.out number d cnt
    wkc ← ch.send out ec_timeouttxm
    pure (
      is_positive wkc,
      record {
        wkc = wkc;
        sendpacket = number;
        left = v.left - size;
        hp = v.hp + size;
        segmentdata = size;
        dofinalzero = v.left - size == 0 && size == maxdata;
        out = out;
      },
    )

  -- An acknowledgement: the next packet, if there is one.
  unfoldable pub take_acknowledge : Bytes → FileWrite → Task S (Bool × FileWrite)
  take_acknowledge mbx v =
      let size = min v.left maxdata in
      if packet_number mbx == v.sendpacket
      then progress hook (packet_number mbx) v.left
        >> (if ltb 0 size || v.dofinalzero
            then send_packet size (read_at p v.hp size) v
            else pure (false, v))
      else pure (false, record v { wkc = wrong_number })

  -- The body of the loop.
  unfoldable pub write_packet : ℕ → FileWrite → Task S (Bool × FileWrite)
  write_packet timeout v = do
    (wkc, mbx) ← ch.receive clear_mbx timeout
    let v' = record v { wkc = wkc }
    if is_positive wkc
        then (if is_foe mbx && opcode mbx == 4
            then take_acknowledge mbx v'
            else pure (false, no_acknowledge mbx v'))
        else pure (false, v')

  unfoldable pub write_packets : ℕ → ℕ → FileWrite → Task S FileWrite
  write_packets zero timeout v s = none
  write_packets (suc fuel) timeout v s = elim (write_packet timeout v s) [
    | none ↦ none
    | some ((more, v'), s') ↦ elim more [
      | true ↦ write_packets fuel timeout v' s'
      | false ↦ some (v', s')
    ]
  ]

module _ {S : Type 0} (ch : Channel S) (hook : Option (ℕ → ℕ → S → S)) where
  -- `ecx_FOEwrite` for a slave with `mbx_l`: the variables at the end, of which C returns `wkc`. The fuel
  -- is for the packets.
  unfoldable pub foe_write : ℕ → ℕ → Bytes → ℕ → ℕ → Bytes → ℕ → Task S FileWrite
  foe_write fuel mbx_l filename password psize p timeout = do
    ch.receive clear_mbx 0
    cnt ← ch.count
    let out = file_request 2 mbx_l filename password cnt
    wkc ← ch.send out ec_timeouttxm
    let v : FileWrite = record {
      wkc = wkc;
      sendpacket = 0;
      left = psize;
      hp = 0;
      segmentdata = 0;
      dofinalzero = true;
      out = out;
    }
    if is_positive wkc then write_packets ch hook (max_data mbx_l) p fuel timeout v else pure v
