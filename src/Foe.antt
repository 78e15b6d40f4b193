-- ===== src/Foe.antt =====
-- soem/ethercatfoe.c: reading (`ecx_FOEread`) and writing (`ecx_FOEwrite`) a file of a slave. This file
-- has the mailboxes; `psize` is never negative. A name of a file is its bytes without the final zero.
pub mod Reading
pub mod Writing
mod Tests
use e_rob_soem_linux.Base.{
  ℕ, ◌+◌, ◌-◌, ◌*◌, ◌/◌, ◌%◌, Bool, [], ◌∷◌, ◌++◌, Option, none, some, if◌then◌else◌, min, ◌==◌,
  Bytes, length, take, get_or, get16, get32, le32, write_at,
}
use e_rob_soem_linux.Base.Int.{ℤ, negsuc}
use e_rob_soem_linux.Task.{Task}
use e_rob_soem_linux.Mailbox.Channel.{clear_mbx, mbx_header}

-- The negative codes that come out in place of a working counter.
abbrev pub packet_error : ℤ
packet_error = negsuc 2

abbrev pub foe_error : ℤ
foe_error = negsuc 4

abbrev pub buf2small : ℤ
buf2small = negsuc 5

abbrev pub wrong_number : ℤ
wrong_number = negsuc 6

abbrev pub file_notfound : ℤ
file_notfound = negsuc 9

-- The fields of `ec_FOEt`.
abbrev pub is_foe : Bytes → Bool
is_foe mbx = get_or mbx 5 0 % 16 == 4

abbrev pub opcode : Bytes → ℕ
opcode mbx = get_or mbx 6 0

abbrev pub packet_number : Bytes → ℕ
packet_number mbx = get32 mbx 8

-- `segmentdata` of a data packet
abbrev pub packet_size : Bytes → ℕ
packet_size mbx = (get16 mbx 0 + 65536 - 6) % 65536

-- `maxdata`, on an uint16
abbrev pub max_data : ℕ → ℕ
max_data mbx_l = (mbx_l + 65536 - 12) % 65536

-- `fnsize`
abbrev pub name_size : ℕ → Bytes → ℕ
name_size mbx_l filename = min (min (length filename % 65536) 512) (max_data mbx_l)

-- A request to read (1) or to write (2) a file.
abbrev pub file_request : ℕ → ℕ → Bytes → ℕ → ℕ → Bytes
file_request op mbx_l filename password cnt =
    let size = name_size mbx_l filename in
    write_at clear_mbx 0
      (mbx_header ((6 + size) % 65536) 4 cnt ++ (op ∷ 0 ∷ (le32 password ++ take size filename)))

-- An acknowledgement (4) and a data packet (3), over what the mailbox held before.
abbrev pub foe_packet : ℕ → Bytes → ℕ → Bytes → ℕ → Bytes
foe_packet op out number d cnt =
    write_at out 0 (mbx_header ((6 + length d) % 65536) 4 cnt ++ (op ∷ 0 ∷ (le32 number ++ d)))

-- `FOEhook`, if there is one: the packet number and the size.
unfoldable pub progress : {S : Type 0} → Option (ℕ → ℕ → S → S) → ℕ → ℕ → Task S (Unit {0})
progress none number size s = some (tt, s)
progress (some hook) number size s = some (tt, hook number size s)
