-- ===== src/ProcessData.antt =====
-- The transfer of process data in soem/ethercatmain.c: `ecx_main_send_processdata`, behind
-- `ecx_send_processdata_group` and `ecx_send_overlap_processdata_group`, and
-- `ecx_receive_processdata_group`. A pointer into the process image is an offset in `iomap`.
pub mod Buffers
pub mod Frames
pub mod Segments
pub mod Partition
pub mod Receive
pub mod Reassembly
mod Tests
use e_rob_soem_linux.Base.{
  ℕ, zero, suc, ◌+◌, ◌-◌, ◌*◌, ◌/◌, ◌%◌, ◌^◌, Bool, true, false, not, List, [], ◌∷◌, Option, none,
  some, ◌&&◌, ◌||◌, if◌then◌else◌, ltb, ◌==◌, Bytes, get_or, read_at, write_at, get16,
}
use e_rob_soem_linux.Base.Int.{ℤ, pos, negsuc}
use e_rob_soem_linux.Osal.{Os}
use e_rob_soem_linux.Nic.{empty, get_index, set_buf_stat}
use e_rob_soem_linux.Datagram.{
  Cmd, lrd, lwr, lrw, frmw, cmd_code, setup_datagram, add_datagram, ec_headersize,
}
use e_rob_soem_linux.Link.{Net, out_frame_red, wait_in_frame, ec_noframe}
use e_rob_soem_linux.Primitives.{request, rx_frame, release}
use e_rob_soem_linux.IndexStack.{IndexStack, Entry, entry_at, push_index, pull_index, clear_index}

-- The fields of `ec_groupt` that the transfer uses.
pub record Group : Type 0 where
  pub logstartaddr : ℕ
  pub obytes : ℕ
  pub outputs : ℕ
  pub ibytes : ℕ
  pub inputs : ℕ
  pub hasdc : Bool
  pub block_lrw : Bool
  pub nsegments : ℕ
  pub isegment : ℕ
  pub ioffset : ℕ
  pub iosegment : List ℕ

-- What the transfer changes: the port, the image, the index stack and `DCtime`, which is its eight
-- bytes.
pub record Bus (W : Type 0) : Type 0 where
  pub net : Net W
  pub iomap : Bytes
  pub idxstack : IndexStack
  pub dc_time : Bytes

abbrev pub reg_dcsystime : ℕ
reg_dcsystime = 0x0910

abbrev pub lo_word : ℕ → ℕ
lo_word l = l % 65536

abbrev pub hi_word : ℕ → ℕ
hi_word l = l / 65536

-- The lengths of the segments: what `sublength` becomes at a segment, when `sent` bytes are sent.
abbrev pub segment : Group → ℕ → ℕ
segment g i = get_or g.iosegment i 0 % 65536

-- Inputs alone begin `ioffset` bytes into the segment `isegment`.
abbrev pub input_segment : Group → ℕ → ℕ → ℕ
input_segment g i sent =
    if i == g.isegment then (get_or g.iosegment i 0 + 2 ^ 32 - g.ioffset) % 65536 else segment g i

-- Outputs alone end within a segment.
abbrev pub output_segment : Group → ℕ → ℕ → ℕ
output_segment g i sent =
    if ltb (g.obytes - sent) (segment g i) then (g.obytes - sent) % 65536 else segment g i

module _ {W : Type 0} (os : Os W) (dcs : ℕ) where
  -- One frame: `size` bytes of the image from `at` on, at the logical address `log_adr`; the answer
  -- goes to `to`. With `first` the system time of the slave `dcs` is read in a second datagram.
  unfoldable pub send_segment : Cmd → Bool → ℕ → ℕ → ℕ → ℕ → Bus W → Bus W
  send_segment cmd first log_adr size at to b =
      let (idx, p) = get_index b.net.port in
      let p₁ =
        setup_datagram p idx
          (request cmd (lo_word log_adr) (hi_word log_adr) size (read_at b.iomap at size)) in
      let (dco, p₂) = add_datagram p₁ idx false (request frmw dcs reg_dcsystime 8 b.dc_time) in
      let n : Net W = record { port = if first then p₂ else p₁; world = b.net.world } in
      record b {
        net = (out_frame_red os idx n).1;
        idxstack = push_index idx to size (if first then dco else 0) b.idxstack;
      }

  -- The loop over the segments, from the segment `i` on, of which `more` may follow; `sent` of
  -- `length` bytes are sent.
  unfoldable pub send_loop : Cmd → (ℕ → ℕ → ℕ) → ℕ → ℕ → ℕ → ℕ → ℕ → ℕ → ℕ → Bool → Bus W → Bus W
  send_loop cmd sublength length log_adr at to zero i sent first b =
      send_segment cmd first ((log_adr + sent) % 2 ^ 32) (sublength i sent) (at + sent) (to + sent)
        b
  send_loop cmd sublength length log_adr at to (suc more) i sent first b =
      let size = sublength i sent in
      let b' = send_segment cmd first ((log_adr + sent) % 2 ^ 32) size (at + sent) (to + sent) b in
      elim (sent + size == length) [
        | true ↦ b'
        | false ↦ send_loop cmd sublength length log_adr at to more (i + 1) (sent + size) false b'
      ]

  -- The frames of LRD for the inputs.
  unfoldable pub send_inputs : Group → Bus W → Bus W
  send_inputs g b =
      send_loop lrd (input_segment g) g.ibytes (g.logstartaddr + g.obytes) g.inputs g.inputs
        (g.nsegments - (g.isegment + 1)) g.isegment 0 g.hasdc b

  -- The frames of LWR for the outputs.
  unfoldable pub send_outputs : Group → Bool → Bus W → Bus W
  send_outputs g first b =
      send_loop lwr (output_segment g) g.obytes g.logstartaddr g.outputs g.outputs (g.nsegments - 1)
        0 0 first b

  -- The frames of LRW; with overlapping maps the answers go behind the outputs.
  unfoldable pub send_both : Bool → Group → Bus W → Bus W
  send_both overlap g b =
      let at = if ltb 0 g.obytes then g.outputs else g.inputs in
      let offset = if overlap && ltb 0 g.obytes then g.obytes else 0 in
      let length =
        if overlap
        then (if ltb g.ibytes g.obytes then g.obytes else g.ibytes)
        else g.obytes + g.ibytes in
      send_loop lrw (λ i sent. segment g i) length g.logstartaddr at (at + offset) (g.nsegments - 1)
        0 0 g.hasdc b

  -- `ecx_main_send_processdata`
  unfoldable pub send_processdata : Bool → Group → Bus W → ℕ × Bus W
  send_processdata overlap g b =
      if g.obytes + g.ibytes == 0
      then (0, b)
      else if g.block_lrw
      then (let b₁ = if ltb 0 g.ibytes then send_inputs g b else b in
          let b₂ = send_outputs g (g.hasdc && g.ibytes == 0) b₁ in
          (1, if ltb 0 g.obytes then b₂ else b₁))
      else (1, send_both overlap g b)

-- What a received frame changes in the image, `DCtime`, the working counter and `valid_wkc`.
pub record Received : Type 0 where
  pub iomap : Bytes
  pub dc_time : Bytes
  pub wkc : ℕ
  pub valid : Bool

-- The body of `ecx_receive_processdata_group` for the frame `rx` with the working counter `wkc2`.
unfoldable pub take_inputs : Bytes → ℤ → Entry → Received → Received
take_inputs rx (negsuc k) e r = r
take_inputs rx (pos wkc2) e r =
    let cmd = get_or rx 2 0 in
    let image = write_at r.iomap e.data_ptr (read_at rx ec_headersize e.len) in
    let le_wkc = get16 rx (ec_headersize + e.len) in
    let time = read_at rx e.dc_offset 8 in
    if cmd == cmd_code lrd || cmd == cmd_code lrw
    then if ltb 0 e.dc_offset
      then record { iomap = image; dc_time = time; wkc = le_wkc; valid = true }
      else record r { iomap = image; wkc = r.wkc + wkc2; valid = true }
    else if cmd == cmd_code lwr
    then if ltb 0 e.dc_offset
      then record r { dc_time = time; wkc = le_wkc * 2; valid = true }
      else record r { wkc = r.wkc + wkc2 * 2; valid = true }
    else r

module _ {W : Type 0} (os : Os W) where
  -- `ecx_waitinframe` with enough fuel.
  abbrev pub wait : ℕ → ℕ → Net W → Option (ℤ × Net W)
  wait idx timeout n = wait_in_frame os (suc timeout + 2001) idx timeout n

  -- The loop of `ecx_receive_processdata_group`; the fuel bounds the frames.
  unfoldable pub receive_loop : ℕ → ℕ → ℕ → Bool → Bus W → Option (ℕ × Bool × Bus W)
  receive_loop zero timeout wkc valid b = none
  receive_loop (suc fuel) timeout wkc valid b = elim (pull_index b.idxstack).0 [
    | none ↦ some (wkc, valid, record b { idxstack = (pull_index b.idxstack).1 })
    | some at ↦
        let e = entry_at b.idxstack at in
        elim (wait e.idx timeout b.net) [
          | none ↦ none
          | some (wkc2, n) ↦
              let r =
                take_inputs (rx_frame n e.idx) wkc2 e
                  (record { iomap = b.iomap; dc_time = b.dc_time; wkc = wkc; valid = valid }) in
              receive_loop fuel timeout r.wkc r.valid (record b {
                net = release e.idx n;
                iomap = r.iomap;
                dc_time = r.dc_time;
                idxstack = (pull_index b.idxstack).1;
              })
        ]
  ]

  -- `ecx_receive_processdata_group`, for at most EC_MAXBUF frames.
  unfoldable pub receive_processdata : ℕ → Bus W → Option (ℤ × Bus W)
  receive_processdata timeout b = elim (receive_loop 17 timeout 0 false b) [
    | none ↦ none
    | some (wkc, valid, b') ↦
        some (
          (if valid then pos wkc else ec_noframe),
          record b' { idxstack = clear_index b'.idxstack },
        )
  ]
