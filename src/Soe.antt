-- ===== src/Soe.antt =====
-- soem/ethercatsoe.c: parameters (IDN) of a servo drive, read by `ecx_SoEread` and written by
-- `ecx_SoEwrite`, and the sizes of its process data from `ecx_readIDNmap`. This file has the mailboxes.
-- The bit fields of `ec_SoEt` lie as on a little-endian machine.
pub mod Reading
pub mod Writing
pub mod Mapping
mod Tests
use e_rob_soem_linux.Base.{
  ℕ, ◌+◌, ◌-◌, ◌*◌, ◌/◌, ◌%◌, Bool, ◌∷◌, ◌++◌, [], if◌then◌else◌, ◌==◌, ◌&&◌, Bytes, get_or, get16,
  le16, write_at,
}
use e_rob_soem_linux.Task.{Task}
use e_rob_soem_linux.Mailbox.Channel.{Channel, clear_mbx, mbx_header}

-- The fields of `ec_SoEt`.
abbrev pub is_soe : Bytes → Bool
is_soe mbx = get_or mbx 5 0 % 16 == 5

abbrev pub opcode : Bytes → ℕ
opcode mbx = get_or mbx 6 0 % 8

abbrev pub incomplete : Bytes → Bool
incomplete mbx = get_or mbx 6 0 / 8 % 2 == 1

abbrev pub error : Bytes → ℕ
error mbx = get_or mbx 6 0 / 16 % 2

abbrev pub drive_no : Bytes → ℕ
drive_no mbx = get_or mbx 6 0 / 32 % 8

abbrev pub element_flags : Bytes → ℕ
element_flags mbx = get_or mbx 7 0

-- A response (2 to a read, 4 to a write) without an error, for the drive and the elements asked for.
abbrev pub is_answer : ℕ → ℕ → ℕ → Bytes → Bool
is_answer op drive flags mbx =
    is_soe mbx
    && opcode mbx == op
    && error mbx == 0
    && drive_no mbx == drive
    && element_flags mbx == flags

-- The header of a mailbox with `size` bytes of data; `word` is the IDN or `fragmentsleft`.
abbrev pub soe_header : ℕ → ℕ → ℕ → ℕ → ℕ → ℕ → Bytes
soe_header size cnt op drive flags word =
    mbx_header ((4 + size) % 65536) 5 cnt
    ++ (((op + drive % 8 * 32) % 256) ∷ (flags % 256) ∷ le16 word)

-- The report of any other mailbox. Its error code is the last word of the mailbox.
unfoldable pub reject : {S : Type 0} → Channel S → ℕ → Bytes → Task S (Unit {0})
reject ch idn mbx =
    if is_soe mbx && opcode mbx == 2 && error mbx == 1
    then ch.soe_error idn (get16 mbx (get16 mbx 0 + 4))
    else ch.packet_error idn 0 1
