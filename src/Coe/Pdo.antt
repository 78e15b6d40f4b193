-- ===== src/Coe/Pdo.antt =====
-- `ecx_RxPDO` and `ecx_TxPDO` of soem/ethercatcoe.c. A mailbox of less than 8 bytes, for which C would
-- copy a negative length, is taken for one of 8 bytes.
use e_rob_soem_linux.Base.{
  ℕ, ◌+◌, ◌-◌, ◌%◌, ◌++◌, ◌&&◌, if◌then◌else◌, ltb, leb, ◌==◌, Bytes, get_or, le16, write_at,
  read_at, take,
}
use e_rob_soem_linux.Base.Int.{ℤ, pos, is_positive}
use e_rob_soem_linux.Task.{Task, pure, ◌>>=◌, ◌>>◌}
use e_rob_soem_linux.Mailbox.Channel.{Channel, ec_timeouttxm, clear_mbx, mbx_header}
use e_rob_soem_linux.Coe.{mbx_length, service, refuse}
use e_rob_soem_linux.Coe.Upload.{SdoRead}

abbrev pub rx_pdo_request : ℕ → ℕ → Bytes → ℕ → Bytes
rx_pdo_request number size p cnt =
    write_at clear_mbx 0
      (mbx_header ((2 + size) % 65536) 3 cnt ++ (le16 (number % 512 + 0x5000) ++ take size p))

abbrev pub tx_pdo_request : ℕ → ℕ → Bytes
tx_pdo_request number cnt =
    write_at clear_mbx 0 (mbx_header 2 3 cnt ++ le16 (number % 512 + 0x6000))

module _ {S : Type 0} (ch : Channel S) where
  -- `ecx_RxPDO` for a slave with `mbx_l`
  unfoldable pub rx_pdo : ℕ → ℕ → ℕ → Bytes → Task S ℤ
  rx_pdo mbx_l number psize p = do
    let maxdata = mbx_l - 8
    ch.receive clear_mbx 0
    cnt ← ch.count
    ch.send (rx_pdo_request number (if ltb maxdata psize then maxdata else psize) p cnt)
        ec_timeouttxm

  -- The answer to a `ecx_TxPDO`.
  unfoldable pub take_pdo : Bytes → SdoRead → Task S SdoRead
  take_pdo mbx r =
      let size = (mbx_length mbx + 65536 - 2) % 65536 in
      if get_or mbx 5 0 % 16 == 3 && service mbx == 4
      then if leb size r.psize
        then pure (record r { psize = size; p = write_at r.p 0 (read_at mbx 8 size) })
        else (ch.packet_error 0 0 3 >> pure (record r { wkc = pos 0 }))
      else (refuse ch 0 0 mbx >> pure (record r { wkc = pos 0 }))

  -- `ecx_TxPDO`
  unfoldable pub tx_pdo : ℕ → ℕ → Bytes → ℕ → Task S SdoRead
  tx_pdo number psize p timeout = do
    ch.receive clear_mbx 0
    cnt ← ch.count
    wkc ← ch.send (tx_pdo_request number cnt) ec_timeouttxm
    if is_positive wkc
        then (do
          (wkc', mbx) ← ch.receive clear_mbx timeout
          let r : SdoRead = record { wkc = wkc'; psize = psize; p = p }
          if is_positive wkc' then take_pdo mbx r else pure r)
        else pure (record { wkc = wkc; psize = psize; p = p })
