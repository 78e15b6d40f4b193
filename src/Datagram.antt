-- ===== src/Datagram.antt =====
-- soem/ethercatbase.c, first part: an EtherCAT datagram in an ethernet frame, and a further
-- datagram behind it. Offsets are those of the packed structs `ec_etherheadert` (14 bytes) and
-- `ec_comt` (12 bytes: elength, command, index, ADP, ADO, dlength, irpt) of soem/ethercattype.h.
pub mod Layout
mod Tests
use e_rob_soem_linux.Base.{
  ℕ, zero, suc, ◌+◌, ◌-◌, ◌*◌, ◌/◌, ◌%◌, Bool, true, false, List, [], ◌∷◌, ◌++◌, if◌then◌else◌, ltb,
  Bytes, write_at, le16, get16, replicate, take, get_or, set,
}
use e_rob_soem_linux.Nic.{Port}

-- `ec_cmdtype`
pub data Cmd : Type 0 where
  nop aprd apwr aprw fprd fpwr fprw brd bwr brw lrd lwr lrw armw frmw : Cmd

abbrev pub cmd_code : Cmd → ℕ
cmd_code nop = 0
cmd_code aprd = 1
cmd_code apwr = 2
cmd_code aprw = 3
cmd_code fprd = 4
cmd_code fpwr = 5
cmd_code fprw = 6
cmd_code brd = 7
cmd_code bwr = 8
cmd_code brw = 9
cmd_code lrd = 10
cmd_code lwr = 11
cmd_code lrw = 12
cmd_code armw = 13
cmd_code frmw = 14

abbrev pub eth_headersize : ℕ
eth_headersize = 14

abbrev pub ec_headersize : ℕ
ec_headersize = 12

abbrev pub ec_elengthsize : ℕ
ec_elengthsize = 2

abbrev pub ec_wkcsize : ℕ
ec_wkcsize = 2

abbrev pub ec_ecattype : ℕ
ec_ecattype = 0x1000

-- `w | EC_DATAGRAMFOLLOWS` on 16 bits.
abbrev pub with_follows : ℕ → ℕ
with_follows w = w % 0x8000 + 0x8000

-- What `ecx_writedatagramdata` puts into the datagram: zeros for the commands that only read.
unfoldable pub datagram_data : Cmd → ℕ → Bytes → Bytes
datagram_data nop length_ data' = replicate length_ 0
datagram_data aprd length_ data' = replicate length_ 0
datagram_data fprd length_ data' = replicate length_ 0
datagram_data brd length_ data' = replicate length_ 0
datagram_data lrd length_ data' = replicate length_ 0
datagram_data _ length_ data' = take length_ data'

-- The parameters of a datagram.
pub record Request : Type 0 where
  pub command : Cmd
  pub adp : ℕ
  pub ado : ℕ
  pub size : ℕ
  pub payload : Bytes

-- The stores of both functions for one datagram whose command stands at offset `at`: the header
-- but for `irpt`, the data, and a working counter of zero.
put_datagram : ℕ → ℕ → ℕ → Request → Bytes → Bytes
put_datagram at idx dlength r frame =
    let head = cmd_code r.command ∷ idx ∷ (le16 r.adp ++ le16 r.ado ++ le16 dlength) in
    let f₁ = write_at frame at head in
    let f₂ = write_at f₁ (at + 10) (datagram_data r.command r.size r.payload) in
    write_at f₂ (at + 10 + r.size) (0 ∷ 0 ∷ [])

-- The stores of `ecx_setupdatagram`; the command follows the ethernet header and `elength`.
unfoldable pub setup_frame : ℕ → Request → Bytes → Bytes
unfolding put_datagram
setup_frame idx r frame =
    put_datagram (eth_headersize + ec_elengthsize) idx r.size r
      (write_at frame eth_headersize (le16 (ec_ecattype + ec_headersize + r.size)))

-- `ecx_setupdatagram` on the transmit buffer of its own index, as every caller but
-- `ecx_init_redundant` uses it.
unfoldable pub setup_datagram : Port → ℕ → Request → Port
unfolding setup_frame
setup_datagram p idx r = record p {
  txbuf = set p.txbuf idx (setup_frame idx r (get_or p.txbuf idx []));
  txbuflength = set p.txbuflength idx (eth_headersize + ec_headersize + ec_wkcsize + r.size);
}

-- The stores of `ecx_adddatagram` into a frame of `prev` bytes: `elength` grows, the first header
-- is told that a datagram follows. The new struct begins `ec_elengthsize` before the end of the
-- frame, so that its command, behind the unused `elength`, stands at `prev`.
unfoldable pub add_frame : ℕ → ℕ → Bool → Request → Bytes → Bytes
unfolding put_datagram
add_frame prev idx more r frame =
    let elength = get16 frame eth_headersize + ec_headersize + r.size in
    let f₁ = write_at frame eth_headersize (le16 elength) in
    let f₂ =
      write_at f₁ (eth_headersize + 8) (le16 (with_follows (get16 f₁ (eth_headersize + 8)))) in
    put_datagram prev idx (if more then with_follows r.size else r.size) r f₂

-- `ecx_adddatagram`, with the offset of the new data in the received frame.
unfoldable pub add_datagram : Port → ℕ → Bool → Request → ℕ × Port
unfolding add_frame
add_datagram p idx more r =
    let prev = get_or p.txbuflength idx 0 % 0x10000 in
    (
      prev + ec_headersize - ec_elengthsize - eth_headersize,
      record p {
        txbuf = set p.txbuf idx (add_frame prev idx more r (get_or p.txbuf idx []));
        txbuflength =
            set p.txbuflength idx (prev + ec_headersize - ec_elengthsize + ec_wkcsize + r.size);
      },
    )
