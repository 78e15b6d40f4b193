-- ===== src/Eoe.antt =====
-- soem/ethercateoe.c: sending an Ethernet frame in fragments (`ecx_EOEsend`), receiving one
-- (`ecx_EOErecv`), and the fragment reader of the hook for received mailboxes
-- (`ecx_EOEreadfragment`). A mailbox shorter than 10 bytes, or a received length below 4, for which C
-- would copy a negative length, counts as one of 10 bytes or as the length 4.
pub mod Fragment
pub mod Hook
pub mod RoundTrip
mod Tests
use e_rob_soem_linux.Base.{
  ℕ, zero, suc, ◌+◌, ◌-◌, ◌*◌, ◌/◌, ◌%◌, Bool, true, false, not, [], ◌∷◌, ◌++◌, Option, none, some,
  ◌&&◌, if◌then◌else◌, ltb, leb, ◌==◌, Bytes, length, get_or, get16, le16, write_at, read_at,
}
use e_rob_soem_linux.Base.Int.{ℤ, pos, negsuc, is_positive}
use e_rob_soem_linux.Task.{Task, pure, ◌>>=◌}
use e_rob_soem_linux.Mailbox.Channel.{Channel, clear_mbx, mbx_header}

-- -EC_ERR_TYPE_EOE_INVALID_RX_DATA and -EC_ERR_TYPE_PACKET_ERROR
abbrev pub invalid_rx_data : ℤ
invalid_rx_data = negsuc 10

abbrev pub packet_error : ℤ
packet_error = negsuc 2

-- The fields of `frameinfo1` and `frameinfo2` of a received mailbox; the frame offset in bytes.
abbrev pub is_eoe : Bytes → Bool
is_eoe mbx = get_or mbx 5 0 % 16 == 2

abbrev pub port_of : Bytes → ℕ
port_of mbx = get16 mbx 6 / 16 % 16

abbrev pub is_last : Bytes → Bool
is_last mbx = get16 mbx 6 / 256 % 2 == 1

abbrev pub has_time : Bytes → Bool
has_time mbx = get16 mbx 6 / 512 % 2 == 1

abbrev pub fragment_no : Bytes → ℕ
fragment_no mbx = get16 mbx 8 % 64

abbrev pub offset_of : Bytes → ℕ
offset_of mbx = get16 mbx 8 / 64 % 64 * 32

abbrev pub frame_no : Bytes → ℕ
frame_no mbx = get16 mbx 8 / 4096 % 16

-- `eoedatasize`
abbrev pub data_size : Bytes → ℕ
data_size mbx = get16 mbx 0 - 4

-- The variables of the loop of `ecx_EOEsend`; `frameno` is the static counter of frames.
pub record Tx : Type 0 where
  pub offset : ℕ
  pub fragmentno : ℕ
  pub frameno : ℕ
  pub out : Bytes

-- A fragment of the frame of `psize` bytes: its number and offset, and its data.
abbrev pub fragment : Bool → ℕ → ℕ → ℕ → ℕ → ℕ → Bytes → ℕ → Bytes
fragment last port psize fragmentno frameno offset d cnt =
    let size = length d in
    let blocks = if ltb 0 fragmentno then offset / 32 else (psize + 31) / 32 in
    mbx_header ((4 + size) % 65536) 2 cnt
    ++ (le16 ((if last then 256 else 0) + port % 16 * 16)
        ++ (le16 (fragmentno % 64 + blocks % 64 * 64 + frameno % 16 * 4096) ++ d))

module _ {S : Type 0} (ch : Channel S) (port timeout : ℕ) where
  -- A fragment is sent; `true` ends the loop.
  unfoldable pub send_fragment : Bool → ℕ → Bytes → Tx → Task S (ℤ × Bool × Tx)
  send_fragment last psize d v = do
    let frameno = if ltb 0 v.fragmentno then v.frameno else (v.frameno + 1) % 256
    cnt ← ch.count
    let out = write_at v.out 0 (fragment last port psize v.fragmentno frameno v.offset d cnt)
    wkc ← ch.send out timeout
    if not last && is_positive wkc
        then pure (
          wkc,
          false,
          record {
            offset = v.offset + length d;
            fragmentno = (v.fragmentno + 1) % 256;
            frameno = frameno;
            out = out;
          },
        )
        else pure (
          wkc,
          true,
          record { offset = v.offset; fragmentno = v.fragmentno; frameno = frameno; out = out },
        )

  -- The loop of `ecx_EOEsend`: a fragment that is not the last one is a multiple of 32 bytes.
  unfoldable pub send_fragments : ℕ → ℕ → ℕ → Bytes → Tx → Task S (ℤ × Tx)
  send_fragments zero maxdata psize p v s = none
  send_fragments (suc fuel) maxdata psize p v s =
      let left = psize - v.offset in
      let size = if ltb maxdata left then maxdata / 32 * 32 else left in
      elim (send_fragment (size == left) psize (read_at p v.offset size) v s) [
        | none ↦ none
        | some ((wkc, over, v'), s') ↦ elim over [
          | true ↦ some ((wkc, v'), s')
          | false ↦ send_fragments fuel maxdata psize p v' s'
        ]
      ]

  -- `ecx_EOEsend` for a slave with `mbx_l`; `frameno` is the static variable `txframeno`, which comes
  -- out with the working counter.
  unfoldable pub eoe_send : ℕ → ℕ → ℕ → ℕ → Bytes → Task S (ℤ × ℕ)
  eoe_send fuel mbx_l frameno psize p = do
    (wkc, v) ←
        send_fragments fuel (mbx_l - 10) psize p
          (record { offset = 0; fragmentno = 0; frameno = frameno; out = clear_mbx })
    pure (wkc, v.frameno)

-- The variables of the loop of `ecx_EOErecv`.
pub record Rx : Type 0 where
  pub fragmentno : ℕ
  pub frameno : ℕ
  pub offset : ℕ
  pub p : Bytes

-- What a received fragment leads to.
pub data Verdict : Type 0 where
  failed : ℤ → Verdict
  finished : ℤ → Rx → Verdict
  going : Rx → Verdict

-- The data of a fragment are stored if they fit; the last one gives the size of the frame.
unfoldable pub store_fragment : ℕ → Bytes → Rx → Verdict
store_fragment buffersize mbx rx =
    let size = data_size mbx in
    let stored : Rx = record rx {
      fragmentno = (rx.fragmentno + 1) % 256;
      offset = rx.offset + size;
      p = write_at rx.p rx.offset (read_at mbx 10 size);
    } in
    let rx' = if leb (rx.offset + size) buffersize then stored else rx in
    let cut = if leb 4 rx'.offset then pos (rx'.offset - 4) else negsuc (3 - rx'.offset) in
    if is_last mbx then finished (if has_time mbx then cut else pos rx'.offset) rx' else going rx'

-- The body of the loop of `ecx_EOErecv`.
unfoldable pub take_fragment : ℕ → ℕ → Bytes → Rx → Verdict
take_fragment port buffersize mbx rx =
    if not (is_eoe mbx)
    then failed packet_error
    else if not (rx.fragmentno == fragment_no mbx) && ltb 0 (fragment_no mbx)
    then failed invalid_rx_data
    else if rx.fragmentno == 0
    then if ltb buffersize (offset_of mbx)
      then failed invalid_rx_data
      else if not (port == port_of mbx)
      then failed invalid_rx_data
      else store_fragment buffersize mbx (record rx { frameno = frame_no mbx })
    else if not (rx.frameno == frame_no mbx)
    then failed invalid_rx_data
    else if not (rx.offset == offset_of mbx)
    then failed invalid_rx_data
    else store_fragment buffersize mbx rx

module _ {S : Type 0} (ch : Channel S) (port timeout : ℕ) where
  -- The loop of `ecx_EOErecv` on what `ecx_mbxreceive` gave.
  unfoldable pub recv_fragments : ℕ → ℕ → ℤ × Bytes → Rx → Task S (ℤ × ℤ × Bytes)
  recv_fragments zero buffersize (wkc, mbx) rx s = none
  recv_fragments (suc fuel) buffersize (wkc, mbx) rx s = elim (is_positive wkc) [
    | false ↦ some ((wkc, pos buffersize, rx.p), s)
    | true ↦ elim (take_fragment port buffersize mbx rx) [
      | failed e ↦ some ((e, pos buffersize, rx.p), s)
      | finished psize rx' ↦ some ((wkc, psize, rx'.p), s)
      | going rx' ↦ elim (ch.receive mbx timeout s) [
        | none ↦ none
        | some (r, s') ↦ recv_fragments fuel buffersize r rx' s'
      ]
    ]
  ]

  -- `ecx_EOErecv`: the working counter, the size and the buffer.
  unfoldable pub eoe_recv : ℕ → ℕ → Bytes → Task S (ℤ × ℤ × Bytes)
  eoe_recv fuel buffersize p = ch.receive clear_mbx timeout >>= λ r.
      recv_fragments fuel buffersize r
        (record { fragmentno = 0; frameno = 0xff; offset = 0; p = p })
