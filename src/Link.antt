-- ===== src/Link.antt =====
-- oshw/linux/nicdrv.c, second part: sending and receiving frames, the match of a received frame
-- with the index that waits for it, redundant operation, and the loops that wait for an answer.
-- A loop takes fuel for its rounds and gives `none` where that runs out. A read behind the end of a buffer gives 0 in the model.
pub mod Routing
pub mod Total
pub mod Tests
use e_rob_soem_linux.Base.{
  ℕ, zero, suc, ◌+◌, ◌-◌, ◌*◌, ◌/◌, ◌%◌, Bool, true, false, List, [], ◌∷◌, Option, none, some, ◌&&◌,
  ◌||◌, if◌then◌else◌, ltb, ◌==◌, Bytes, write_at, read_at, get16, get_or, set, take,
}
use e_rob_soem_linux.Base.Int.{ℤ, pos, negsuc, is_negative}
use e_rob_soem_linux.Osal.{Time, Os, timer_start, timer_is_expired}
use e_rob_soem_linux.Nic.{
  BufState, empty, tx, rcvd, complete, is_tx, is_rcvd, Stack, Port, bufstat, put_bufstat, max_buf,
}
use e_rob_soem_linux.Datagram.{eth_headersize}

abbrev pub ec_noframe : ℤ
ec_noframe = negsuc 0

abbrev pub ec_otherframe : ℤ
ec_otherframe = negsuc 1

abbrev pub ec_timeoutret : ℕ
ec_timeoutret = 2000

-- `priMAC[1]` and `secMAC[1]`
abbrev pub rx_prim : ℕ
rx_prim = 0x0101

abbrev pub rx_sec : ℕ
rx_sec = 0x0404

abbrev pub be16 : ℕ → Bytes
be16 w = (w / 256 % 256) ∷ (w % 256) ∷ []

abbrev get_be16 : Bytes → ℕ → ℕ
get_be16 buf i = 256 * get_or buf i 0 + get_or buf (i + 1) 0

-- The port and everything outside it.
pub record Net (W : Type 0) : Type 0 where
  pub port : Port
  pub world : W

abbrev pub stack_of : Port → Bool → Stack
stack_of p second = if second then p.secondary else p.primary

abbrev pub put_stack : Port → Bool → Stack → Port
put_stack p second s = if second then record p { secondary = s } else record p { primary = s }

abbrev set_stat : Port → Bool → ℕ → BufState → Port
set_stat p second idx b = put_stack p second (put_bufstat idx b (stack_of p second))

abbrev is_minus_one : ℤ → Bool
is_minus_one (negsuc zero) = true
is_minus_one _ = false

-- `bytesrx > 0`
abbrev got_bytes : ℤ → Bool
got_bytes (pos n) = ltb 0 n
got_bytes (negsuc n) = false

-- The working counter behind the datagrams of a received frame, at the offset that `elength` gives.
abbrev pub wkc_at : Bytes → ℕ → ℤ
wkc_at buf l = pos (get_or buf l 0 + 256 * get_or buf (l + 1) 0)

-- The frame in `tempbuf`, without its ethernet header, becomes the answer to index `i`.
unfoldable pub store_frame : Port → Bool → ℕ → BufState → Port
store_frame p second i b =
    let s = stack_of p second in
    put_stack p second (record s {
      rxbuf = set s.rxbuf i (
          write_at (get_or s.rxbuf i []) 0
            (read_at s.tempbuf eth_headersize (get_or p.txbuflength i 0 - eth_headersize)));
      rxbufstat = set s.rxbufstat i b;
      rxsa = set s.rxsa i (get_be16 s.tempbuf 8);
    })

-- The index in the frame that was just read, and whether it is an EtherCAT frame.
abbrev pub frame_index : Port → Bool → ℕ
frame_index p second = get_or (stack_of p second).tempbuf (eth_headersize + 3) 0

abbrev pub is_ecat : Port → Bool → Bool
is_ecat p second = get_be16 (stack_of p second).tempbuf 12 == 0x88a4

-- `etohs(ecp->elength) & 0x0fff`
abbrev pub frame_length : Port → Bool → ℕ
frame_length p second = get16 (stack_of p second).tempbuf eth_headersize % 4096

-- What `ecx_inframe` does with the frame in `tempbuf`.
unfoldable pub take_frame : Port → ℕ → Bool → ℤ × Port
take_frame p idx second =
    let idxf = frame_index p second in
    let stored = store_frame p second idx complete in
    let rxbuf = get_or (stack_of stored second).rxbuf idx [] in
    if is_ecat p second
    then if idxf == idx
      then (wkc_at rxbuf (frame_length p second), stored)
      else if ltb idxf max_buf && is_tx (bufstat (stack_of p second) idxf)
      then (ec_otherframe, store_frame p second idxf rcvd)
      else (ec_otherframe, p)
    else (ec_otherframe, p)

module _ {W : Type 0} (os : Os W) where
  unfoldable pub out_frame : ℕ → Bool → Net W → ℤ × Net W
  out_frame idx second n =
      let p = set_stat n.port second idx tx in
      let (rval, w) =
        os.send n.world second (take (get_or p.txbuflength idx 0) (get_or p.txbuf idx [])) in
      (
        rval,
        record { port = if is_minus_one rval then set_stat p second idx empty else p; world = w },
      )

  -- The dummy frame that the redundant port sends.
  unfoldable pub out_dummy : ℕ → Net W → Net W
  out_dummy idx n =
      let f = write_at (write_at n.port.txbuf2 (eth_headersize + 3) (idx ∷ [])) 8 (be16 rx_sec) in
      let port = n.port in
      let p = set_stat (record port { txbuf2 = f }) true idx tx in
      let (rval, w) = os.send n.world true (take p.txbuflength2 f) in
      record { port = if is_minus_one rval then set_stat p true idx empty else p; world = w }

  unfoldable pub out_frame_red : ℕ → Net W → ℤ × Net W
  out_frame_red idx n =
      let port = n.port in
      let frame = write_at (get_or port.txbuf idx []) 8 (be16 rx_prim) in
      let (rval, n') =
        out_frame idx false
          (record n { port = record port { txbuf = set port.txbuf idx frame } }) in
      (rval, if port.redundant then out_dummy idx n' else n')

  -- Whether a frame was read, and the port with the frame in `tempbuf`.
  unfoldable pub recv_pkt : Bool → Net W → Bool × Net W
  recv_pkt second n =
      let p = n.port in
      let s = stack_of p second in
      let (bytesrx, bytes, w) = os.recv n.world second in
      (
        got_bytes bytesrx,
        record {
          port =
              put_stack (record p { tempinbufs = bytesrx }) second
                (record s { tempbuf = write_at s.tempbuf 0 bytes });
          world = w;
        },
      )

  unfoldable pub in_frame : ℕ → Bool → Net W → ℤ × Net W
  in_frame idx second n =
      let s = stack_of n.port second in
      let rxbuf = get_or s.rxbuf idx [] in
      let (got, n') = recv_pkt second n in
      let (wkc, p') = take_frame n'.port idx second in
      if ltb idx max_buf && is_rcvd (bufstat s idx)
      then (
        wkc_at rxbuf (get_or rxbuf 0 0 + get_or rxbuf 1 0 % 16 * 256),
        record n { port = set_stat n.port second idx complete },
      )
      else if got
      then (wkc, record n' { port = p' })
      else (ec_noframe, n')

  abbrev pub expired : Time → Net W → Bool × Net W
  expired stop n = let (t, w) = os.now n.world in (timer_is_expired t stop, record n { world = w })

  abbrev pub start : ℕ → Net W → Time × Net W
  start timeout n = let (t, w) = os.now n.world in (timer_start t timeout, record n { world = w })

  -- One round of the first loop of `ecx_waitinframe_red`.
  unfoldable pub read_both : ℕ → ℤ × ℤ × Net W → ℤ × ℤ × Net W
  read_both idx (wkc, wkc2, n) =
      let (wkc', n₁) = if is_negative wkc then in_frame idx false n else (wkc, n) in
      let (wkc2', n₂) =
        if n₁.port.redundant && is_negative wkc2 then in_frame idx true n₁ else (wkc2, n₁) in
      (wkc', wkc2', n₂)

  unfoldable pub wait_both : ℕ → ℕ → Time → ℤ × ℤ × Net W → Option (ℤ × ℤ × Net W)
  wait_both zero idx stop s = none
  wait_both (suc fuel) idx stop s =
      let (wkc, wkc2, n) = read_both idx s in
      elim (is_negative wkc || is_negative wkc2) [
        | false ↦ some (wkc, wkc2, n)
        | true ↦ elim (expired stop n).0 [
          | true ↦ some (wkc, wkc2, (expired stop n).1)
          | false ↦ wait_both fuel idx stop (wkc, wkc2, (expired stop n).1)
        ]
      ]

  -- The second loop, on the redundant port alone.
  unfoldable pub wait_second : ℕ → ℕ → Time → Net W → Option (ℤ × Net W)
  wait_second zero idx stop n = none
  wait_second (suc fuel) idx stop n =
      let (wkc2, n') = in_frame idx true n in
      elim (is_negative wkc2) [
        | false ↦ some (wkc2, n')
        | true ↦ elim (expired stop n').0 [
          | true ↦ some (wkc2, (expired stop n').1)
          | false ↦ wait_second fuel idx stop (expired stop n').1
        ]
      ]

  -- `memcpy` of the redundant receive buffer over the primary one.
  abbrev copy_second : ℕ → Port → Port
  copy_second idx p =
      let s = p.primary in
      let from =
        take (get_or p.txbuflength idx 0 - eth_headersize) (get_or p.secondary.rxbuf idx []) in
      record p {
        primary = record s { rxbuf = set s.rxbuf idx (write_at (get_or s.rxbuf idx []) 0 from) };
      }

  -- `memcpy` of the primary receive buffer into the frame to be sent again.
  abbrev copy_to_tx : ℕ → Port → Port
  copy_to_tx idx p =
      let from =
        take (get_or p.txbuflength idx 0 - eth_headersize) (get_or p.primary.rxbuf idx []) in
      record p { txbuf = set p.txbuf idx (write_at (get_or p.txbuf idx []) eth_headersize from) }

  -- The end of the second loop: with an answer, it is the result.
  abbrev take_second : ℕ → ℤ → ℤ × Net W → ℤ × Net W
  take_second idx wkc (wkc2, n) =
      if is_negative wkc2 then (wkc, n) else (wkc2, record n { port = copy_second idx n.port })

  -- Sending the frame on the redundant port again, and waiting for it.
  unfoldable pub resend : ℕ → ℕ → ℤ → Net W → Option (ℤ × Net W)
  resend fuel idx wkc n =
      let (stop, n₁) = start ec_timeoutret n in
      let (r, n₂) = out_frame idx true n₁ in
      elim (wait_second fuel idx stop n₂) [
        | none ↦ none
        | some res ↦ some (take_second idx wkc res)
      ]

  -- The decision by the source addresses of the two frames, in redundant mode.
  unfoldable pub reroute : ℕ → ℕ → ℤ × ℤ × Net W → Option (ℤ × Net W)
  reroute fuel idx (wkc, wkc2, n) =
      let primrx = if is_negative wkc then 0 else get_or n.port.primary.rxsa idx 0 in
      let secrx = if is_negative wkc2 then 0 else get_or n.port.secondary.rxsa idx 0 in
      let crossed = primrx == rx_sec && secrx == rx_prim in
      let wkc' = if crossed then wkc2 else wkc in
      let n' = if crossed then record n { port = copy_second idx n.port } else n in
      let both_back = primrx == rx_prim && secrx == rx_sec in
      let p = if both_back then copy_to_tx idx n'.port else n'.port in
      elim ((primrx == 0 && secrx == rx_sec) || both_back) [
        | true ↦ resend fuel idx wkc' (record n' { port = p })
        | false ↦ some (wkc', n')
      ]

  -- `ecx_waitinframe_red`; `stop` is the timer's stop time.
  unfoldable pub wait_in_frame_red : ℕ → ℕ → Time → Net W → Option (ℤ × Net W)
  wait_in_frame_red fuel idx stop n =
      let wkc2 = if n.port.redundant then ec_noframe else pos 0 in
      elim (wait_both fuel idx stop (ec_noframe, wkc2, n)) [
        | none ↦ none
        | some (wkc, wkc2', n') ↦ elim n'.port.redundant [
          | true ↦ reroute fuel idx (wkc, wkc2', n')
          | false ↦ some (wkc, n')
        ]
      ]

  -- `ecx_waitinframe`
  unfoldable pub wait_in_frame : ℕ → ℕ → ℕ → Net W → Option (ℤ × Net W)
  wait_in_frame fuel idx timeout n =
      let (stop, n') = start timeout n in wait_in_frame_red fuel idx stop n'

  -- One round of `ecx_srconfirm`: send, and wait for at most `EC_TIMEOUTRET`.
  unfoldable pub send_and_wait : ℕ → ℕ → ℕ → Net W → Option (ℤ × Net W)
  send_and_wait polls idx timeout n =
      let (r, n₁) = out_frame_red idx n in
      let (stop, n₂) = start (if ltb timeout ec_timeoutret then timeout else ec_timeoutret) n₁ in
      wait_in_frame_red polls idx stop n₂

  unfoldable pub retry : ℕ → ℕ → ℕ → ℕ → Time → Net W → Option (ℤ × Net W)
  retry zero polls idx timeout stop n = none
  retry (suc rounds) polls idx timeout stop n = elim (send_and_wait polls idx timeout n) [
    | none ↦ none
    | some (wkc, n') ↦ elim (is_negative wkc) [
      | false ↦ some (wkc, n')
      | true ↦ elim (expired stop n').0 [
        | true ↦ some (wkc, (expired stop n').1)
        | false ↦ retry rounds polls idx timeout stop (expired stop n').1
      ]
    ]
  ]

  -- `ecx_srconfirm`, with fuel for its rounds and for the polls of each wait.
  unfoldable pub sr_confirm : ℕ → ℕ → ℕ → ℕ → Net W → Option (ℤ × Net W)
  sr_confirm rounds polls idx timeout n =
      let (stop, n') = start timeout n in retry rounds polls idx timeout stop n'
