-- ===== src/Soe/Reading.antt =====
-- `ecx_SoEread` of soem/ethercatsoe.c. `psize` is not negative; of an answer that is shorter than its
-- header, for which C would copy a negative length, no data are taken.
pub mod Reassembly
pub mod Endless
use e_rob_soem_linux.Base.{
  ℕ, zero, suc, ◌+◌, ◌-◌, Bool, true, false, none, some, if◌then◌else◌, leb, Bytes, get16, read_at,
  write_at,
}
use e_rob_soem_linux.Base.Int.{ℤ, pos, is_positive}
use e_rob_soem_linux.Task.{Task, pure, ◌>>=◌, ◌>>◌}
use e_rob_soem_linux.Mailbox.Channel.{Channel, ec_timeouttxm, clear_mbx}
use e_rob_soem_linux.Soe.{is_answer, incomplete, soe_header, reject}

-- The variables of the loop, with what comes out through `psize`; `bp` is an offset into `p`.
pub record SoeRead : Type 0 where
  pub wkc : ℤ
  pub psize : ℕ
  pub totalsize : ℕ
  pub bp : ℕ
  pub p : Bytes

abbrev pub read_request : ℕ → ℕ → ℕ → ℕ → Bytes
read_request drive flags idn cnt = write_at clear_mbx 0 (soe_header 0 cnt 1 drive flags idn)

-- `framedatasize`
abbrev pub fragment_size : Bytes → ℕ
fragment_size mbx = get16 mbx 0 - 4

-- The data of a fragment go to the buffer, as far as they fit.
unfoldable pub copy_fragment : ℕ → ℤ → Bytes → SoeRead → SoeRead
copy_fragment size wkc mbx v =
    let framedatasize = fragment_size mbx in
    let totalsize = v.totalsize + framedatasize in
    if leb totalsize size
    then record v {
      wkc = wkc;
      totalsize = totalsize;
      bp = v.bp + framedatasize;
      p = write_at v.p v.bp (read_at mbx 10 framedatasize);
    }
    else record v {
      wkc = wkc;
      totalsize = size;
      p = write_at v.p v.bp (read_at mbx 10 (framedatasize - (totalsize - size)));
    }

module _ {S : Type 0} (ch : Channel S) (drive flags idn timeout : ℕ) where
  -- The body of `while (NotLast)`; `true` goes on. `size` is the size of the buffer.
  unfoldable pub read_answer : ℕ → SoeRead → Task S (Bool × SoeRead)
  read_answer size v = do
    (wkc, mbx) ← ch.receive clear_mbx timeout
    if is_positive wkc
        then (if is_answer 2 drive flags mbx
            then (do
              let v' = copy_fragment size wkc mbx v
              if incomplete mbx
                  then pure (true, v')
                  else pure (false, record v' { psize = v'.totalsize }))
            else (reject ch idn mbx >> pure (false, record v { wkc = pos 0 })))
        else (ch.packet_error idn 0 4 >> pure (false, record v { wkc = wkc }))

  unfoldable pub read_answers : ℕ → ℕ → SoeRead → Task S SoeRead
  read_answers zero size v s = none
  read_answers (suc fuel) size v s = elim (read_answer size v s) [
    | none ↦ none
    | some ((more, v'), s') ↦ elim more [
      | true ↦ read_answers fuel size v' s'
      | false ↦ some (v', s')
    ]
  ]

  -- `ecx_SoEread`: the fuel is for the fragments.
  unfoldable pub soe_read : ℕ → ℕ → Bytes → Task S SoeRead
  soe_read fuel psize p = do
    ch.receive clear_mbx 0
    cnt ← ch.count
    wkc ← ch.send (read_request drive flags idn cnt) ec_timeouttxm
    let v : SoeRead = record { wkc = wkc; psize = psize; totalsize = 0; bp = 0; p = p }
    if is_positive wkc then read_answers fuel psize v else pure v
