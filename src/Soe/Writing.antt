-- ===== src/Soe/Writing.antt =====
-- `ecx_SoEwrite` of soem/ethercatsoe.c. `psize` is not negative. C subtracts the ten bytes of the headers
-- from `mbx_l` on an int; a mailbox of no more than that is left out of the theorems.
pub mod Total
use e_rob_soem_linux.Base.{
  ℕ, zero, suc, ◌+◌, ◌-◌, ◌/◌, ◌%◌, ◌++◌, Bool, true, false, none, some, not, if◌then◌else◌, ltb,
  Bytes, read_at, write_at,
}
use e_rob_soem_linux.Base.Int.{ℤ, pos, is_positive}
use e_rob_soem_linux.Task.{Task, pure, ◌>>=◌, ◌>>◌}
use e_rob_soem_linux.Mailbox.Channel.{Channel, ec_timeouttxm, clear_mbx}
use e_rob_soem_linux.Soe.{is_answer, soe_header, reject}

-- The variables of the loop: `left` is what is left of `psize`, and `hp` an offset into `p`.
pub record SoeWrite : Type 0 where
  pub wkc : ℤ
  pub left : ℕ
  pub hp : ℕ
  pub out : Bytes

-- A fragment `d` of `left` bytes, over what the mailbox held before.
abbrev pub write_fragment_request : ℕ → ℕ → ℕ → ℕ → Bool → ℕ → Bytes → Bytes → ℕ → Bytes
write_fragment_request drive flags idn maxdata more left out d cnt =
    let size = if more then maxdata else left in
    write_at out 0 (
      soe_header size cnt (if more then 11 else 3) drive flags
        (if more then left / maxdata % 65536 else idn)
      ++ d)

module _ {S : Type 0} (ch : Channel S) (drive flags idn timeout maxdata : ℕ) where
  -- The answer to a fragment; `true` goes on.
  unfoldable pub write_answer : Bool → SoeWrite → Task S (Bool × SoeWrite)
  write_answer more v = do
    (wkc, mbx) ← ch.receive clear_mbx timeout
    if is_positive wkc
        then (if is_answer 4 drive flags mbx
            then pure (false, record v { wkc = wkc })
            else (reject ch idn mbx >> pure (false, record v { wkc = pos 0 })))
        else (ch.packet_error idn 0 4 >> pure (more, record v { wkc = wkc }))

  -- `!NotLast || !ecx_mbxempty(context, slave, timeout)`
  unfoldable pub answer_due : Bool → Task S Bool
  answer_due more = if more then (ch.empty timeout >>= λ empty. pure (not empty)) else pure true

  -- A fragment of `size` bytes, `d`, is sent.
  unfoldable pub send_part : Bool → ℕ → Bytes → SoeWrite → Task S (Bool × SoeWrite)
  send_part more size d v = do
    cnt ← ch.count
    let out = write_fragment_request drive flags idn maxdata more v.left v.out d cnt
    wkc ← ch.send out ec_timeouttxm
    let v' : SoeWrite = record { wkc = wkc; left = v.left - size; hp = v.hp + size; out = out }
    if is_positive wkc
        then (do due ← answer_due more; if due then write_answer more v' else pure (more, v'))
        else pure (more, v')

  -- The body of `while (NotLast)`.
  unfoldable pub write_fragment : Bytes → SoeWrite → Task S (Bool × SoeWrite)
  write_fragment p v =
      let more = ltb maxdata v.left in
      let size = if more then maxdata else v.left in send_part more size (read_at p v.hp size) v

  unfoldable pub write_fragments : ℕ → Bytes → SoeWrite → Task S SoeWrite
  write_fragments zero p v s = none
  write_fragments (suc fuel) p v s = elim (write_fragment p v s) [
    | none ↦ none
    | some ((more, v'), s') ↦ elim more [
      | true ↦ write_fragments fuel p v' s'
      | false ↦ some (v', s')
    ]
  ]

-- `ecx_SoEwrite` for a slave with `mbx_l`: the variables at the end, of which C returns `wkc`. The fuel is
-- for the fragments.
unfoldable pub soe_write :
    {S : Type 0} → Channel S → ℕ → ℕ → ℕ → ℕ → ℕ → ℕ → ℕ → Bytes → Task S SoeWrite
soe_write ch drive flags idn timeout fuel mbx_l psize p =
    ch.receive clear_mbx 0
    >> write_fragments ch drive flags idn timeout (mbx_l - 10) fuel p
        (record { wkc = pos 0; left = psize; hp = 0; out = clear_mbx })
