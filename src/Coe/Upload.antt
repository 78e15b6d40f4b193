-- ===== src/Coe/Upload.antt =====
-- `ecx_SDOread` of soem/ethercatcoe.c. The buffer `p` takes what is written within it; `psize` is the
-- bit pattern of the `int`, which is not negative at the call. A copy out of the mailbox stops at the
-- mailbox's end.
pub mod Lost
pub mod Reassembly
use e_rob_soem_linux.Base.{
  ℕ, zero, suc, ◌+◌, ◌-◌, ◌*◌, ◌/◌, ◌%◌, ◌^◌, bit_xor, Bool, true, false, not, [], ◌∷◌, ◌++◌,
  Option, none, some, ◌&&◌, ◌||◌, if◌then◌else◌, ltb, leb, ◌==◌, Bytes, get_or, get16, write_at,
  read_at,
}
use e_rob_soem_linux.Base.Int.{ℤ, pos, is_positive}
use e_rob_soem_linux.Task.{Task, pure, ◌>>=◌, ◌>>◌}
use e_rob_soem_linux.Mailbox.Channel.{Channel, ec_timeouttxm, clear_mbx}
use e_rob_soem_linux.Coe.{mbx_length, command, ldata, is_response, sdo_header, refuse}

-- What comes out through `psize` and `p`, with the working counter.
pub record SdoRead : Type 0 where
  pub wkc : ℤ
  pub psize : ℕ
  pub p : Bytes

-- The variables of the loop over the segments; `hp` is an offset into `p`.
pub record Segments : Type 0 where
  pub out : SdoRead
  pub hp : ℕ
  pub toggle : ℕ

abbrev pub upload_request : Bool → ℕ → ℕ → ℕ → Bytes
upload_request ca index subindex cnt =
    sdo_header 10 cnt (if ca then 0x50 else 0x40) index subindex 0 ++ read_at clear_mbx 16 1470

abbrev pub upload_segment_request : ℕ → ℕ → ℕ → ℕ → Bytes
upload_segment_request toggle index subindex cnt =
    sdo_header 10 cnt (0x60 + toggle) index subindex 0 ++ read_at clear_mbx 16 1470

-- A segment that was received.
abbrev pub is_segment : Bytes → Bool
is_segment mbx = is_response mbx && command mbx / 32 % 8 == 0

abbrev pub is_last_segment : Bytes → Bool
is_last_segment mbx = command mbx % 2 == 1

-- `Framedatasize`; the last segment has unused bytes if it has the smallest length.
abbrev pub segment_size : Bytes → ℕ
segment_size mbx =
    let size = (mbx_length mbx + 65536 - 3) % 65536 in
    if is_last_segment mbx && size == 7 then size - command mbx / 2 % 8 else size

-- A segment is copied to where `hp` points to; `true` ends the loop.
unfoldable pub take_segment : Bytes → Segments → Bool × Segments
take_segment mbx s =
    let size = segment_size mbx in
    let r = s.out in
    (
      is_last_segment mbx,
      record s {
        out = record r {
          psize = (r.psize + size) % 2 ^ 32;
          p = write_at r.p s.hp (read_at mbx 9 size);
        };
        hp = if is_last_segment mbx then s.hp else s.hp + size;
      },
    )

module _ {S : Type 0} (ch : Channel S) (index subindex timeout : ℕ) where
  -- The body of `while (NotLast)`.
  unfoldable pub read_segment : Segments → Task S (Bool × Segments)
  read_segment s = do
    cnt ← ch.count
    wkc ← ch.send (upload_segment_request s.toggle index subindex cnt) ec_timeouttxm
    let r = s.out
    let toggle = bit_xor s.toggle 0x10
    if is_positive wkc
        then (do
          (wkc', mbx) ← ch.receive clear_mbx timeout
          let s' : Segments = record { out = record r { wkc = wkc' }; hp = s.hp; toggle = toggle }
          let lost : Segments = record {
            out = record r { wkc = pos 0 };
            hp = s.hp;
            toggle = toggle;
          }
          if is_positive wkc'
              then (if is_segment mbx
                  then pure (take_segment mbx s')
                  else (refuse ch index subindex mbx >> pure (true, lost)))
              else pure (false, s'))
        else pure (false, record { out = record r { wkc = wkc }; hp = s.hp; toggle = toggle })

  unfoldable pub read_segments : ℕ → Segments → Task S SdoRead
  read_segments zero s t = none
  read_segments (suc fuel) s t = elim (read_segment s t) [
    | none ↦ none
    | some ((over, s'), t') ↦ elim over [
      | true ↦ some (s'.out, t')
      | false ↦ read_segments fuel s' t'
    ]
  ]

  -- A normal response: the whole object, or its first part.
  unfoldable pub read_normal : ℕ → Bytes → SdoRead → Task S SdoRead
  read_normal fuel mbx r =
      let sdolen = ldata mbx in
      let negative = leb (2 ^ 31) sdolen in
      let frame = (mbx_length mbx + 65536 - 10) % 65536 in
      let first : Segments = record {
        out = record r { psize = frame; p = write_at r.p 0 (read_at mbx 16 frame) };
        hp = frame;
        toggle = 0;
      } in
      if negative || leb sdolen r.psize
      then if not negative && ltb frame sdolen
        then read_segments fuel first
        else pure (record r { psize = sdolen; p = write_at r.p 0 (read_at mbx 16 sdolen) })
      else (ch.packet_error index subindex 3 >> pure (record r { wkc = pos 0 }))

  -- An expedited response: up to four bytes.
  unfoldable pub read_expedited : Bytes → SdoRead → Task S SdoRead
  read_expedited mbx r =
      let size = 4 - command mbx / 4 % 4 in
      if leb size r.psize
      then pure (record r { psize = size; p = write_at r.p 0 (read_at mbx 12 size) })
      else (ch.packet_error index subindex 3 >> pure (record r { wkc = pos 0 }))

  -- The answer to the upload request.
  unfoldable pub read_response : ℕ → Bytes → SdoRead → Task S SdoRead
  read_response fuel mbx r =
      if is_response mbx && get16 mbx 9 == index
      then (if command mbx / 2 % 2 == 1 then read_expedited mbx r else read_normal fuel mbx r)
      else (refuse ch index subindex mbx >> pure (record r { wkc = pos 0 }))

module _ {S : Type 0} (ch : Channel S) where
  -- `ecx_SDOread`; the fuel is for the segments.
  unfoldable pub sdo_read : ℕ → ℕ → ℕ → Bool → ℕ → Bytes → ℕ → Task S SdoRead
  sdo_read fuel index subindex ca psize p timeout = do
    let sub = if ca && ltb 1 subindex then 1 else subindex
    ch.receive clear_mbx 0
    cnt ← ch.count
    wkc ← ch.send (upload_request ca index sub cnt) ec_timeouttxm
    if is_positive wkc
        then (do
          (wkc', mbx) ← ch.receive clear_mbx timeout
          let r : SdoRead = record { wkc = wkc'; psize = psize; p = p }
          if is_positive wkc' then read_response ch index sub timeout fuel mbx r else pure r)
        else pure (record { wkc = wkc; psize = psize; p = p })
