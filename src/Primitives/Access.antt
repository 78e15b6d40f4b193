-- ===== src/Primitives/Access.antt =====
-- The primitives that read or write a register answer, and a failed read leaves the caller's buffer as it was.
use e_rob_soem_linux.Base.{
  ℕ, suc, ◌≡◌, refl, arith, Bool, true, false, some, if◌then◌else◌, Bytes, length, length-write_at,
  read_at, ◌&&◌, ◌==◌, get_or,
}
use e_rob_soem_linux.Base.Int.{ℤ, is_positive}
use e_rob_soem_linux.Osal.{Os, IsClock}
use e_rob_soem_linux.Nic.{get_index}
use e_rob_soem_linux.Datagram.{Cmd, setup_datagram, ec_headersize, cmd_code}
use e_rob_soem_linux.Link.{Net}
use e_rob_soem_linux.Link.Total.{sr_confirm_total}
use e_rob_soem_linux.Primitives.{
  Answer, request, read_with, write_with, logical_read, fetch, rx_frame, release, lo_word, hi_word,
}

-- A read has answered: its buffer has kept its length, and without a positive working counter all
-- its bytes.
abbrev pub Read : {W : Type 0} → Bytes → Answer W → Type 0
Read {W} old a =
    (wkc : ℤ) × (new : Bytes) × (n : Net W) × (a ≡ some (wkc, new, n))
    × (length new ≡ length old)
    × (is_positive wkc ≡ false → new ≡ old)

length-fetch :
    {W : Type 0} (b : Bool) (n : Net W) (idx size : ℕ) (d : Bytes)
    → length (if b then fetch n idx size d else d) ≡ length d
length-fetch true n idx size d = length-write_at d 0 (read_at (rx_frame n idx) ec_headersize size)
length-fetch false n idx size d = refl

module _ {W : Type 0} (os : Os W) (us : W → ℕ) (clock : IsClock os us) where
  -- BRD, APRD, ARMW, FRMW and FPRD answer, whatever the network does, if the clock goes on; the caller's
  -- buffer keeps its length, and keeps its bytes unless the working counter is positive.
  pub read_with_total :
      (c : Cmd) (adp ado size : ℕ) (d : Bytes) (timeout : ℕ) (n : Net W)
      → Read d (read_with os c adp ado size d timeout n)
  unfolding read_with
  read_with_total c adp ado size d timeout n =
      let idx = (get_index n.port).0 in
      let p = setup_datagram (get_index n.port).1 idx (request c adp ado size d) in
      let (r, e) =
        sr_confirm_total os us clock (suc timeout) 2001 idx timeout (record n { port = p })
          (omega arith) (omega arith) in
      let new = if is_positive r.0 then fetch r.1 idx size d else d in
      (
        r.0,
        new,
        release idx r.1,
        rw (e, read_with),
        length-fetch (is_positive r.0) r.1 idx size d,
        λ h. rw h,
      )

  -- So does a logical read, which takes data only from a frame with its own command.
  pub logical_read_total :
      (c : Cmd) (log_adr size : ℕ) (d : Bytes) (timeout : ℕ) (n : Net W)
      → Read d (logical_read os c log_adr size d timeout n)
  unfolding logical_read
  logical_read_total c log_adr size d timeout n =
      let idx = (get_index n.port).0 in
      let req = request c (lo_word log_adr) (hi_word log_adr) size d in
      let p = setup_datagram (get_index n.port).1 idx req in
      let (r, e) =
        sr_confirm_total os us clock (suc timeout) 2001 idx timeout (record n { port = p })
          (omega arith) (omega arith) in
      let mine = is_positive r.0 && get_or (rx_frame r.1 idx) 2 0 == cmd_code c in
      (
        r.0,
        if mine then fetch r.1 idx size d else d,
        release idx r.1,
        rw (e, logical_read),
        length-fetch mine r.1 idx size d,
        λ h. rw h,
      )

  -- Every write primitive answers too, and leaves the caller's buffer as it was.
  pub write_with_total :
      (c : Cmd) (adp ado size : ℕ) (d : Bytes) (timeout : ℕ) (n : Net W)
      → (wkc : ℤ) × (n' : Net W) × (write_with os c adp ado size d timeout n ≡ some (wkc, d, n'))
  unfolding write_with
  write_with_total c adp ado size d timeout n =
      let idx = (get_index n.port).0 in
      let p = setup_datagram (get_index n.port).1 idx (request c adp ado size d) in
      let (r, e) =
        sr_confirm_total os us clock (suc timeout) 2001 idx timeout (record n { port = p })
          (omega arith) (omega arith) in
      (r.0, release idx r.1, rw (e, write_with))
