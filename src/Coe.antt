-- ===== src/Coe.antt =====
-- soem/ethercatcoe.c: reading (`ecx_SDOread`) and writing (`ecx_SDOwrite`) an object of a slave, and
-- `ecx_RxPDO` and `ecx_TxPDO`. This file has what they share: the fields of `ec_SDOt`, and what is
-- done about an answer that is not the expected one.
pub mod Upload
pub mod Download
pub mod Pdo
mod Tests
use e_rob_soem_linux.Base.{
  ℕ, ◌+◌, ◌*◌, ◌/◌, ◌%◌, Bool, [], ◌∷◌, ◌++◌, ◌&&◌, if◌then◌else◌, ◌==◌, Bytes, get_or, get16, le16,
}
use e_rob_soem_linux.Task.{Task}
use e_rob_soem_linux.Mailbox.Channel.{Channel, mbx_header}

-- The length of the mailbox, `CANOpen >> 12`, and `Command`.
abbrev pub mbx_length : Bytes → ℕ
mbx_length mbx = get16 mbx 0

abbrev pub service : Bytes → ℕ
service mbx = get16 mbx 6 / 4096

abbrev pub command : Bytes → ℕ
command mbx = get_or mbx 8 0

-- `etohl(aSDOp->ldata[0])`, as an uint32
abbrev pub ldata : Bytes → ℕ
ldata mbx = get16 mbx 12 + 65536 * get16 mbx 14

abbrev pub sdo_abort : ℕ
sdo_abort = 0x80

-- An SDO response in a CoE mailbox.
abbrev pub is_response : Bytes → Bool
is_response mbx = get_or mbx 5 0 % 16 == 3 && service mbx == 3

-- The first 16 bytes of `ec_SDOt`: the length, the counter, the command, index, subindex and
-- `ldata[0]`.
abbrev pub sdo_header : ℕ → ℕ → ℕ → ℕ → ℕ → ℕ → Bytes
sdo_header length cnt cmd index subindex ldata =
    mbx_header length 3 cnt
    ++ (le16 0x2000
        ++ (cmd % 256 ∷ (le16 index ++ (subindex ∷ (le16 ldata ++ le16 (ldata / 65536))))))

module _ {S : Type 0} (ch : Channel S) (index subindex : ℕ) where
  -- An answer that is not the expected one: the slave's abort, or "unexpected frame returned".
  unfoldable pub refuse : Bytes → Task S (Unit {0})
  refuse mbx =
      if command mbx == sdo_abort
      then ch.sdo_error index subindex (ldata mbx)
      else ch.packet_error index subindex 1
