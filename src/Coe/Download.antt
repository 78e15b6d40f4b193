-- ===== src/Coe/Download.antt =====
-- `ecx_SDOwrite` of soem/ethercatcoe.c. `psize` is not negative; a mailbox of less than 16 bytes, for
-- which C would copy a negative length, is taken for one of 16 bytes.
pub mod Delivery
use e_rob_soem_linux.Base.{
  ℕ, zero, suc, ◌+◌, ◌-◌, ◌*◌, ◌/◌, ◌%◌, ◌^◌, bit_xor, Bool, true, false, not, [], ◌∷◌, ◌++◌,
  Option, none, some, ◌&&◌, if◌then◌else◌, ltb, leb, ◌==◌, Bytes, get_or, get16, le16, write_at,
  read_at, take,
}
use e_rob_soem_linux.Base.Int.{ℤ, pos, is_positive}
use e_rob_soem_linux.Task.{Task, pure, ◌>>=◌, ◌>>◌}
use e_rob_soem_linux.Mailbox.Channel.{Channel, ec_timeouttxm, clear_mbx, mbx_header}
use e_rob_soem_linux.Coe.{command, is_response, sdo_header, refuse}

-- The variables of the loop over the segments: `left` is what is left of `psize`, `hp` an offset into
-- `p`, and `out` the mailbox that is sent, whose bytes stay until they are overwritten.
pub record Sending : Type 0 where
  pub wkc : ℤ
  pub left : ℕ
  pub hp : ℕ
  pub toggle : ℕ
  pub out : Bytes

abbrev pub expedited_request : ℕ → ℕ → ℕ → Bytes → ℕ → Bytes
expedited_request index subindex psize p cnt =
    write_at
      (write_at clear_mbx 0 (sdo_header 10 cnt (0x23 + (4 - psize) * 4 % 16) index subindex 0)) 12
      (take psize p)

-- The request that begins a download, with the first `size` bytes of `psize`.
abbrev pub download_request : Bool → ℕ → ℕ → ℕ → ℕ → Bytes → ℕ → Bytes
download_request ca index subindex psize size p cnt = write_at clear_mbx 0 (
    sdo_header ((10 + size) % 65536) cnt (if ca then 0x31 else 0x21) index
      (if ca && ltb 1 subindex then 1 else subindex) psize
    ++ take size p)

-- A segment with the data `d`, on which more follow or not.
abbrev pub download_segment_request : Bool → ℕ → Bytes → ℕ → Bytes → ℕ → Bytes
download_segment_request more toggle out size d cnt =
    let short = not more && ltb size 7 in
    let length = if short then 10 else (size + 3) % 65536 in
    let cmd = if more then 0 else (if short then 1 + (7 - size) * 2 else 1) in
    write_at out 0 (mbx_header length 3 cnt ++ (le16 0x2000 ++ ((cmd + toggle) % 256 ∷ d)))

-- The answer to a request, and that to a segment.
abbrev pub is_acknowledge : ℕ → ℕ → Bytes → Bool
is_acknowledge index subindex mbx =
    is_response mbx && get16 mbx 9 == index && get_or mbx 11 0 == subindex

abbrev pub is_segment_acknowledge : Bytes → Bool
is_segment_acknowledge mbx = is_response mbx && command mbx / 32 % 8 == 1

module _ {S : Type 0} (ch : Channel S) (index subindex timeout : ℕ) where
  -- A segment of `size` bytes, `d`, is sent; `true` ends the loop.
  unfoldable pub send_segment : Bool → ℕ → Bytes → Sending → Task S (Bool × Sending)
  send_segment more size d v = do
    cnt ← ch.count
    let out = download_segment_request more v.toggle v.out size d cnt
    let next : ℤ → Sending = λ wkc. record {
      wkc = wkc;
      left = v.left - size;
      hp = v.hp + size;
      toggle = bit_xor v.toggle 0x10;
      out = out;
    }
    wkc ← ch.send out ec_timeouttxm
    if is_positive wkc
        then (do
          (wkc', mbx) ← ch.receive clear_mbx timeout
          if is_positive wkc'
              then (if is_segment_acknowledge mbx
                  then pure (not more, next wkc')
                  else (refuse ch index subindex mbx >> pure (true, next (pos 0))))
              else pure (not more, next wkc'))
        else pure (not more, next wkc)

  -- The body of `while (NotLast)`.
  unfoldable pub write_segment : ℕ → Bytes → Sending → Task S (Bool × Sending)
  write_segment maxdata p v =
      let more = ltb maxdata v.left in
      let size = if more then maxdata else v.left in send_segment more size (read_at p v.hp size) v

  unfoldable pub write_segments : ℕ → ℕ → Bytes → Sending → Task S ℤ
  write_segments zero maxdata p v t = none
  write_segments (suc fuel) maxdata p v t = elim (write_segment maxdata p v t) [
    | none ↦ none
    | some ((over, v'), t') ↦ elim over [
      | true ↦ some (v'.wkc, t')
      | false ↦ write_segments fuel maxdata p v' t'
    ]
  ]

  -- A request is sent; `good` goes on if the slave acknowledges it.
  unfoldable pub write_request : Bytes → ℕ → (ℤ → Task S ℤ) → Task S ℤ
  write_request out sub good = do
    wkc ← ch.send out ec_timeouttxm
    if is_positive wkc
        then (do
          (wkc', mbx) ← ch.receive clear_mbx timeout
          if is_positive wkc'
              then (if is_acknowledge index sub mbx
                  then good wkc'
                  else (refuse ch index subindex mbx >> pure (pos 0)))
              else pure wkc')
        else pure wkc

  -- The download of `psize` bytes, of which `size` go with the request, and segments if there are more.
  unfoldable pub write_normal : ℕ → ℕ → Bool → Bool → ℕ → ℕ → Bytes → Task S ℤ
  write_normal fuel maxdata segmented ca size psize p = do
    cnt ← ch.count
    let out = download_request ca index subindex psize size p cnt
    let first : ℤ → Sending =
        λ wkc. record { wkc = wkc; left = psize - size; hp = size; toggle = 0; out = out }
    write_request out (if ca && ltb 1 subindex then 1 else subindex)
        (λ wkc. if segmented then write_segments fuel (maxdata + 7) p (first wkc) else pure wkc)

  -- `ecx_SDOwrite` for a slave with `mbx_l`; the fuel is for the segments.
  unfoldable pub sdo_write : ℕ → ℕ → Bool → ℕ → Bytes → Task S ℤ
  sdo_write fuel mbx_l ca psize p =
      let maxdata = mbx_l - 16 in
      let segmented = ltb maxdata psize in
      let size = if segmented then maxdata else psize in
      ch.receive clear_mbx 0
      >> (if leb psize 4 && not ca
          then (ch.count >>= λ cnt.
              write_request (expedited_request index subindex psize p cnt) subindex
                (λ wkc. pure wkc))
          else write_normal fuel maxdata segmented ca size psize p)
