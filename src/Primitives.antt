-- ===== src/Primitives.antt =====
-- soem/ethercatbase.c, second part: the blocking primitives. Each takes a fresh index, sets up its
-- datagram, sends it and waits for the answer, and releases the index. The fuel of
-- `ecx_srconfirm` is what `Link.Total.sr_confirm_total` asks for, so `none` never comes out
-- (`Primitives.Access`).
pub mod Access
mod Tests
use e_rob_soem_linux.Base.{
  ℕ, suc, ◌+◌, ◌-◌, ◌*◌, ◌/◌, ◌%◌, Bool, true, false, List, [], ◌∷◌, Option, none, some, ◌&&◌,
  if◌then◌else◌, ◌==◌, Bytes, write_at, read_at, le16, get16, get_or,
}
use e_rob_soem_linux.Base.Int.{ℤ, pos, is_positive}
use e_rob_soem_linux.Osal.{Os}
use e_rob_soem_linux.Nic.{Port, empty, get_index, set_buf_stat}
use e_rob_soem_linux.Datagram.{
  Cmd, aprd, apwr, fprd, fpwr, brd, bwr, lrd, lwr, lrw, armw, frmw, cmd_code, Request,
  setup_datagram, add_datagram, ec_headersize,
}
use e_rob_soem_linux.Link.{Net, sr_confirm}

-- What a primitive gives: the working counter, the caller's buffer, and the port.
abbrev pub Answer : Type 0 → Type 0
Answer W = Option (ℤ × Bytes × Net W)

abbrev pub request : Cmd → ℕ → ℕ → ℕ → Bytes → Request
request c adp ado size payload = record {
  command = c;
  adp = adp;
  ado = ado;
  size = size;
  payload = payload;
}

-- LO_WORD and HI_WORD of a logical address.
abbrev lo_word : ℕ → ℕ
lo_word l = l % 65536

abbrev hi_word : ℕ → ℕ
hi_word l = l / 65536

abbrev ect_reg_dcsystime : ℕ
ect_reg_dcsystime = 0x0910

-- The received frame of an index, without its ethernet header.
abbrev pub rx_frame : {W : Type 0} → Net W → ℕ → Bytes
rx_frame n idx = get_or n.port.primary.rxbuf idx []

abbrev pub release : {W : Type 0} → ℕ → Net W → Net W
release idx n = record n { port = set_buf_stat n.port idx empty }

-- `memcpy(data, &(port->rxbuf[idx][EC_HEADERSIZE]), length)`
abbrev pub fetch : {W : Type 0} → Net W → ℕ → ℕ → Bytes → Bytes
fetch n idx size data' = write_at data' 0 (read_at (rx_frame n idx) ec_headersize size)

module _ {W : Type 0} (os : Os W) where
  -- `ecx_srconfirm` with enough fuel.
  abbrev pub confirm : ℕ → ℕ → Net W → Option (ℤ × Net W)
  confirm idx timeout n = sr_confirm os (suc timeout) 2001 idx timeout n

  -- The body that BRD, APRD, ARMW, FRMW and FPRD share.
  unfoldable pub read_with : Cmd → ℕ → ℕ → ℕ → Bytes → ℕ → Net W → Answer W
  read_with c adp ado size data' timeout n =
      let (idx, p) = get_index n.port in
      let p' = setup_datagram p idx (request c adp ado size data') in
      elim (confirm idx timeout (record n { port = p' })) [
        | none ↦ none
        | some (wkc, n') ↦
            some (wkc, (if is_positive wkc then fetch n' idx size data' else data'), release idx n')
      ]

  -- The body that BWR, APWR and FPWR share; the buffer is only read.
  unfoldable pub write_with : Cmd → ℕ → ℕ → ℕ → Bytes → ℕ → Net W → Answer W
  write_with c adp ado size data' timeout n =
      let (idx, p) = get_index n.port in
      let p' = setup_datagram p idx (request c adp ado size data') in
      elim (confirm idx timeout (record n { port = p' })) [
        | none ↦ none
        | some (wkc, n') ↦ some (wkc, data', release idx n')
      ]

  unfoldable pub bwr_op : ℕ → ℕ → ℕ → Bytes → ℕ → Net W → Answer W
  bwr_op = write_with bwr

  unfoldable pub brd_op : ℕ → ℕ → ℕ → Bytes → ℕ → Net W → Answer W
  brd_op = read_with brd

  unfoldable pub aprd_op : ℕ → ℕ → ℕ → Bytes → ℕ → Net W → Answer W
  aprd_op = read_with aprd

  unfoldable pub armw_op : ℕ → ℕ → ℕ → Bytes → ℕ → Net W → Answer W
  armw_op = read_with armw

  unfoldable pub frmw_op : ℕ → ℕ → ℕ → Bytes → ℕ → Net W → Answer W
  frmw_op = read_with frmw

  unfoldable pub fprd_op : ℕ → ℕ → ℕ → Bytes → ℕ → Net W → Answer W
  fprd_op = read_with fprd

  unfoldable pub apwr_op : ℕ → ℕ → ℕ → Bytes → ℕ → Net W → Answer W
  apwr_op = write_with apwr

  unfoldable pub fpwr_op : ℕ → ℕ → ℕ → Bytes → ℕ → Net W → Answer W
  fpwr_op = write_with fpwr

  -- The word variants: `w = 0` before the read, and its value after it.
  abbrev as_word : Answer W → Option (ℕ × Net W)
  as_word a = elim a [ none ↦ none | some (wkc, d, n) ↦ some (get16 d 0, n) ]

  unfoldable pub aprd_word : ℕ → ℕ → ℕ → Net W → Option (ℕ × Net W)
  aprd_word adp ado timeout n = as_word (aprd_op adp ado 2 (0 ∷ 0 ∷ []) timeout n)

  unfoldable pub fprd_word : ℕ → ℕ → ℕ → Net W → Option (ℕ × Net W)
  fprd_word adp ado timeout n = as_word (fprd_op adp ado 2 (0 ∷ 0 ∷ []) timeout n)

  unfoldable pub apwr_word : ℕ → ℕ → ℕ → ℕ → Net W → Answer W
  apwr_word adp ado w timeout n = apwr_op adp ado 2 (le16 w) timeout n

  unfoldable pub fpwr_word : ℕ → ℕ → ℕ → ℕ → Net W → Answer W
  fpwr_word adp ado w timeout n = fpwr_op adp ado 2 (le16 w) timeout n

  -- The body that LRW and LRD share: the data are taken only from a frame with that command.
  unfoldable pub logical_read : Cmd → ℕ → ℕ → Bytes → ℕ → Net W → Answer W
  logical_read c log_adr size data' timeout n =
      let (idx, p) = get_index n.port in
      let p' = setup_datagram p idx (request c (lo_word log_adr) (hi_word log_adr) size data') in
      elim (confirm idx timeout (record n { port = p' })) [
        | none ↦ none
        | some (wkc, n') ↦
            let mine = is_positive wkc && get_or (rx_frame n' idx) 2 0 == cmd_code c in
            some (wkc, (if mine then fetch n' idx size data' else data'), release idx n')
      ]

  unfoldable pub lrw_op : ℕ → ℕ → Bytes → ℕ → Net W → Answer W
  lrw_op = logical_read lrw

  unfoldable pub lrd_op : ℕ → ℕ → Bytes → ℕ → Net W → Answer W
  lrd_op = logical_read lrd

  unfoldable pub lwr_op : ℕ → ℕ → Bytes → ℕ → Net W → Answer W
  lwr_op log_adr size data' timeout n =
      write_with lwr (lo_word log_adr) (hi_word log_adr) size data' timeout n

  -- `ecx_LRWDC`: LRW with the distributed clock's system time read in a second datagram. A time is
  -- the eight bytes of its `int64`. The counter of the LRW replaces that of the whole frame.
  unfoldable pub lrwdc_op :
      ℕ → ℕ → Bytes → ℕ → Bytes → ℕ → Net W → Option (ℤ × Bytes × Bytes × Net W)
  lrwdc_op log_adr size data' dcrs dc_time timeout n =
      let (idx, p) = get_index n.port in
      let p₁ = setup_datagram p idx (request lrw (lo_word log_adr) (hi_word log_adr) size data') in
      let (dc_offset, p₂) =
        add_datagram p₁ idx false (request frmw dcrs ect_reg_dcsystime 8 dc_time) in
      elim (confirm idx timeout (record n { port = p₂ })) [
        | none ↦ none
        | some (wkc, n') ↦
            let rx = rx_frame n' idx in
            let mine = is_positive wkc && get_or rx 2 0 == cmd_code lrw in
            some (
              (if mine then pos (get16 rx (ec_headersize + size)) else wkc),
              (if mine then fetch n' idx size data' else data'),
              (if mine then read_at rx dc_offset 8 else dc_time),
              release idx n',
            )
      ]
