-- ===== src/Mailbox/Channel.antt =====
-- What the protocols above the mailbox use of it, for one slave: `ecx_mbxsend`, `ecx_mbxreceive`,
-- the counter `mbx_cnt` and the reports of errors. Their states are of any type.
use e_rob_soem_linux.Base.{
  ℕ, ◌+◌, ◌*◌, ◌%◌, ◌≡◌, Bool, true, [], ◌∷◌, ◌++◌, some, Bytes, replicate, le16,
}
use e_rob_soem_linux.Base.Int.{ℤ, is_positive}
use e_rob_soem_linux.Task.{Task}
use e_rob_soem_linux.Task.Yields.{Ends}

abbrev pub ec_timeouttxm : ℕ
ec_timeouttxm = 20000

pub record Channel (S : Type 0) : Type 0 where
  -- `ec_nextmbxcnt` of the slave's counter, which is stored
  pub count : Task S ℕ
  -- a mailbox and a timeout
  pub send : Bytes → ℕ → Task S ℤ
  -- the buffer before, and a timeout
  pub receive : Bytes → ℕ → Task S (ℤ × Bytes)
  -- `ecx_SDOerror`: index, subindex, abort code
  pub sdo_error : ℕ → ℕ → ℕ → Task S (Unit {0})
  -- `ecx_packeterror`: index, subindex, error code
  pub packet_error : ℕ → ℕ → ℕ → Task S (Unit {0})
  -- `ecx_SoEerror`: IDN, error code
  pub soe_error : ℕ → ℕ → Task S (Unit {0})
  -- `ecx_mbxempty` with its timeout
  pub empty : ℕ → Task S Bool

-- `ec_clearmbx`
abbrev pub clear_mbx : Bytes
clear_mbx = replicate 1486 0

-- The header of a mailbox to the slave: its length, the address 0, the priority 0, and the type with
-- the counter.
abbrev pub mbx_header : ℕ → ℕ → ℕ → Bytes
mbx_header length mbxtype cnt = le16 length ++ (0 ∷ 0 ∷ 0 ∷ ((mbxtype + cnt * 16 % 256) % 256) ∷ [])

module _ {S : Type 0} (ch : Channel S) where
  -- The slave takes the request for the next counter, and answers with a mailbox within `timeout`.
  pub record Exchange (timeout : ℕ) (req : ℕ → Bytes) (s : S) (mbx : Bytes) (t : S) : Type 0 where
    pub cnt : ℕ
    pub wkc : ℤ
    pub wkc' : ℤ
    pub counted : S
    pub sent : S
    pub count_lem : ch.count s ≡ some (cnt, counted)
    pub send_lem : ch.send (req cnt) ec_timeouttxm counted ≡ some (wkc, sent)
    pub send_positive : is_positive wkc ≡ true
    pub receive_lem : ch.receive clear_mbx timeout sent ≡ some ((wkc', mbx), t)
    pub receive_positive : is_positive wkc' ≡ true

-- Every operation comes back, whatever the slave does.
pub record Answers {S : Type 0} (ch : Channel S) : Type 0 where
  pub counts : Ends ch.count
  pub sends : (mbx : Bytes) (timeout : ℕ) → Ends (ch.send mbx timeout)
  pub receives : (buf : Bytes) (timeout : ℕ) → Ends (ch.receive buf timeout)
  pub reports_sdo : (index subindex code : ℕ) → Ends (ch.sdo_error index subindex code)
  pub reports_packet : (index subindex code : ℕ) → Ends (ch.packet_error index subindex code)
  pub reports_soe : (idn code : ℕ) → Ends (ch.soe_error idn code)
  pub looks : (timeout : ℕ) → Ends (ch.empty timeout)
