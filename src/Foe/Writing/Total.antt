-- ===== src/Foe/Writing/Total.antt =====
-- `ecx_FOEwrite` against any slave.
use e_rob_soem_linux.Base.{
  ℕ, zero, suc, ◌+◌, ◌-◌, ◌*◌, ◌≤◌, ◌<◌, ◌≡◌, refl, Bool-cases, inl, inr, arith, Bool, true, Option,
  some, ◌&&◌, ◌||◌, if◌then◌else◌, ltb, min, ◌==◌, Bytes,
}
use e_rob_soem_linux.Base.Int.{ℤ, is_positive}
use e_rob_soem_linux.Task.Yields.{Yields, pure-Yields, if-Yields, >>=-Yields}
use e_rob_soem_linux.Mailbox.Channel.{Channel, Answers}
use e_rob_soem_linux.Foe.{is_foe, opcode, packet_number, max_data, file_request}
use e_rob_soem_linux.Foe.Reading.Bounds.{progress-Ends}
use e_rob_soem_linux.Foe.Writing.{
  FileWrite, no_acknowledge, send_packet, take_acknowledge, write_packet, write_packets, foe_write,
}

-- The rounds that can follow.
abbrev rounds : FileWrite → ℕ
rounds v = 2 * v.left + (if v.dofinalzero then 1 else 0)

record Round (psize bound : ℕ) (r : Bool × FileWrite) : Type 0 where
  whole : r.1.hp + r.1.left ≡ psize
  before : r.0 ≡ true → r.1.segmentdata ≤ r.1.hp
  fewer : r.0 ≡ true → rounds r.1 < bound

-- An answer that is no acknowledgement keeps the file together.
no_acknowledge_whole :
    (psize : ℕ) (mbx : Bytes) (v : FileWrite)
    → v.hp + v.left ≡ psize
    → v.segmentdata ≤ v.hp
    → (no_acknowledge mbx v).hp + (no_acknowledge mbx v).left ≡ psize
no_acknowledge_whole psize mbx v whole before = elim (Bool-cases (is_foe mbx)) [
  | inl foe ↦ elim (Bool-cases (opcode mbx == 6)) [
    | inl busy ↦ elim (Bool-cases (ltb 0 v.sendpacket)) [
      | inl back ↦ rw (foe, busy, back) (omega arith)
      | inr start ↦ rw (foe, busy, start) whole
    ]
    | inr other ↦ rw (foe, other) whole
  ]
  | inr other ↦ rw (other) whole
]

fewer_rounds :
    (left maxdata : ℕ) (final : Bool)
    → 0 < maxdata
    → (ltb 0 (min left maxdata) || final) ≡ true
    → 2 * (left - min left maxdata)
        + (if left - min left maxdata == 0 && min left maxdata == maxdata then 1 else 0)
      < 2 * left + (if final then 1 else 0)
fewer_rounds left maxdata final room e = ground arith

module _ {S : Type 0} (ch : Channel S) (answers : Answers ch) (hook : Option (ℕ → ℕ → S → S))
    (psize maxdata : ℕ) (p : Bytes) where
  send_packet-Yields :
      (size : ℕ) (d : Bytes) (v : FileWrite)
      → v.hp + v.left ≡ psize
      → size ≤ v.left
      → 2 * (v.left - size) + (if v.left - size == 0 && size == maxdata then 1 else 0) < rounds v
      → Yields (Round psize (rounds v)) (send_packet ch hook maxdata p size d v)
  unfolding send_packet
  send_packet-Yields size d v whole le fewer = >>=-Yields _ _ answers.counts (λ cnt _.
      >>=-Yields _ _ (answers.sends _ _) (λ wkc _.
        pure-Yields _
          (record { whole = omega arith; before = λ e. omega arith; fewer = λ e. fewer })))

  take_acknowledge-Yields :
      (mbx : Bytes) (v : FileWrite)
      → 0 < maxdata
      → v.hp + v.left ≡ psize
      → Yields (Round psize (rounds v)) (take_acknowledge ch hook maxdata p mbx v)
  unfolding take_acknowledge
  take_acknowledge-Yields mbx v room whole =
      if-Yields (packet_number mbx == v.sendpacket) _ _
        (λ next. >>=-Yields _ _ (progress-Ends hook _ _) (λ _ _.
          if-Yields (ltb 0 (min v.left maxdata) || v.dofinalzero) _ _
            (λ e.
              send_packet-Yields _ _ v whole (omega arith)
                (fewer_rounds v.left maxdata v.dofinalzero room e))
            (λ done.
              pure-Yields _ (record { whole = whole; before = λ e. cc e; fewer = λ e. cc e }))))
        (λ wrong. pure-Yields _ (record { whole = whole; before = λ e. cc e; fewer = λ e. cc e }))

  write_packet-Yields :
      (timeout : ℕ) (v : FileWrite)
      → 0 < maxdata
      → v.hp + v.left ≡ psize
      → v.segmentdata ≤ v.hp
      → Yields (Round psize (rounds v)) (write_packet ch hook maxdata p timeout v)
  unfolding write_packet
  write_packet-Yields timeout v room whole before = >>=-Yields _ _ (answers.receives _ _) (λ got _.
      if-Yields (is_positive got.0) _ _
        (λ yes.
          if-Yields (is_foe got.1 && opcode got.1 == 4) _ _
            (λ ack. take_acknowledge-Yields got.1 (record v { wkc = got.0 }) room whole)
            (λ other. pure-Yields _ (record {
              whole = no_acknowledge_whole psize got.1 (record v { wkc = got.0 }) whole before;
              before = λ e. cc e;
              fewer = λ e. cc e;
            })))
        (λ lost. pure-Yields _ (record { whole = whole; before = λ e. cc e; fewer = λ e. cc e })))

  write_packets-Yields :
      (fuel timeout : ℕ) (v : FileWrite)
      → 0 < maxdata
      → v.hp + v.left ≡ psize
      → v.segmentdata ≤ v.hp
      → rounds v < fuel
      → Yields (λ w. w.hp + w.left ≡ psize) (write_packets ch hook maxdata p fuel timeout v)
  unfolding write_packets
  write_packets-Yields zero timeout v room whole before enough = absurd (omega arith)
  write_packets-Yields (suc fuel) timeout v room whole before enough = record {
    at = λ s.
        let (r, e, round) = (write_packet-Yields timeout v room whole before).at s in
        elim (Bool-cases r.0.0) [
          | inl goes_on ↦
              let (r', e', w) =
                (write_packets-Yields fuel timeout r.0.1 room round.whole (round.before goes_on)
                    (omega (arith, round.fewer goes_on))).at
                  r.1 in
              (r', rw (e, goes_on, write_packets) e', w)
          | inr ends ↦ ((r.0.1, r.1), rw (e, ends, write_packets) refl, round.whole)
        ];
  }

-- `ecx_FOEwrite` comes to an end, whatever the slave sends, and its pointer stays in the file: how far it
-- has moved on and what is left make up the file's size. The channel's operations come to an end, the
-- slave's mailbox is larger than the headers, and two rounds for each byte of the file and two more are
-- enough.
pub foe_write_total :
    {S : Type 0} (ch : Channel S) (answers : Answers ch) (hook : Option (ℕ → ℕ → S → S))
    (fuel mbx_l : ℕ) (filename : Bytes) (password psize : ℕ) (p : Bytes) (timeout : ℕ) (s : S)
    → 12 < mbx_l
    → mbx_l < 65536
    → 2 * psize + 1 < fuel
    → (r : FileWrite × S) × (foe_write ch hook fuel mbx_l filename password psize p timeout s
        ≡ some r)
      × (r.0.hp + r.0.left ≡ psize)
unfolding foe_write
foe_write_total ch answers hook fuel mbx_l filename password psize p timeout s room word enough =
    let first : ℤ → ℕ → FileWrite = λ wkc cnt. record {
      wkc = wkc;
      sendpacket = 0;
      left = psize;
      hp = 0;
      segmentdata = 0;
      dofinalzero = true;
      out = file_request 2 mbx_l filename password cnt;
    } in
    let whole : Yields (λ w. w.hp + w.left ≡ psize)
        (foe_write ch hook fuel mbx_l filename password psize p timeout) =
      >>=-Yields _ _ (answers.receives _ _) (λ old _. >>=-Yields _ _ answers.counts (λ cnt _.
        >>=-Yields _ _ (answers.sends _ _) (λ wkc _.
          if-Yields (is_positive wkc) _ _
            (λ sent.
              write_packets-Yields ch answers hook psize (max_data mbx_l) p fuel timeout
                (first wkc cnt) (omega arith) (omega arith) (omega arith) enough)
            (λ lost. pure-Yields (first wkc cnt) (omega arith))))) in
    whole.at s
