-- ===== src/Soe/Writing/Total.antt =====
-- `ecx_SoEwrite` against any slave.
use e_rob_soem_linux.Base.{
  ℕ, zero, suc, ◌+◌, ◌-◌, ◌≤◌, ◌<◌, ◌≡◌, refl, arith, Bool, true, Bool-cases, inl, inr, some,
  if◌then◌else◌, ltb, ◌==◌, ◌&&◌, Bytes, read_at,
}
use e_rob_soem_linux.Base.Int.{pos, is_positive}
use e_rob_soem_linux.Task.Yields.{Yields, Ends, pure-Yields, if-Yields, >>=-Yields}
use e_rob_soem_linux.Mailbox.Channel.{Channel, Answers, clear_mbx}
use e_rob_soem_linux.Soe.{is_answer, is_soe, opcode, error, reject}
use e_rob_soem_linux.Soe.Writing.{
  SoeWrite, write_answer, answer_due, send_part, write_fragment, write_fragments, soe_write,
}

module _ {S : Type 0} (ch : Channel S) (answers : Answers ch) (drive flags idn timeout : ℕ) where
  pub reject-Ends : (mbx : Bytes) → Ends (reject ch idn mbx)
  unfolding reject
  reject-Ends mbx =
      if-Yields (is_soe mbx && opcode mbx == 2 && error mbx == 1) _ _ (λ e. answers.reports_soe _ _)
        (λ e. answers.reports_packet _ _ _)

  answer_due-Ends :
      (maxdata : ℕ) (goes_on : Bool) → Ends (answer_due ch drive flags idn timeout maxdata goes_on)
  unfolding answer_due
  answer_due-Ends maxdata goes_on =
      if-Yields goes_on _ _
        (λ e. >>=-Yields _ _ (answers.looks timeout) (λ empty _. pure-Yields _ tt))
        (λ e. pure-Yields _ tt)

  module _ (maxdata psize : ℕ) where
    -- The pointer and what is left make up the parameter; the next round follows only a full fragment.
    record Round (goes_on : Bool) (bound : ℕ) (r : Bool × SoeWrite) : Type 0 where
      whole : r.1.hp + r.1.left ≡ psize
      goes_on_lem : r.0 ≡ true → goes_on ≡ true
      left_lem : r.1.left ≡ bound

    write_answer-Yields :
        (goes_on : Bool) (v : SoeWrite)
        → v.hp + v.left ≡ psize
        → Yields (Round goes_on v.left) (write_answer ch drive flags idn timeout maxdata goes_on v)
    unfolding write_answer
    write_answer-Yields goes_on v whole = >>=-Yields _ _ (answers.receives _ _) (λ got _.
        if-Yields (is_positive got.0) _ _
          (λ yes.
            if-Yields (is_answer 4 drive flags got.1) _ _
              (λ e.
                pure-Yields _ (record { whole = whole; goes_on_lem = λ e. cc e; left_lem = refl }))
              (λ e. >>=-Yields _ _ (reject-Ends got.1) (λ _ _.
                pure-Yields _
                  (record { whole = whole; goes_on_lem = λ e. cc e; left_lem = refl }))))
          (λ lost. >>=-Yields _ _ (answers.reports_packet _ _ _) (λ _ _.
            pure-Yields _ (record { whole = whole; goes_on_lem = λ e. e; left_lem = refl }))))

    send_part-Yields :
        (goes_on : Bool) (size : ℕ) (d : Bytes) (v : SoeWrite)
        → v.hp + v.left ≡ psize
        → size ≤ v.left
        → Yields
            (Round goes_on (v.left - size))
            (send_part ch drive flags idn timeout maxdata goes_on size d v)
    unfolding send_part
    send_part-Yields goes_on size d v whole le = >>=-Yields _ _ answers.counts (λ cnt _.
        >>=-Yields _ _ (answers.sends _ _) (λ wkc _.
          if-Yields (is_positive wkc) _ _
            (λ e. >>=-Yields _ _ (answer_due-Ends maxdata goes_on) (λ due _.
              if-Yields due _ _ (λ e. write_answer-Yields goes_on _ (omega arith))
                (λ e.
                  pure-Yields _
                    (record { whole = omega arith; goes_on_lem = λ e. e; left_lem = refl }))))
            (λ e.
              pure-Yields _
                (record { whole = omega arith; goes_on_lem = λ e. e; left_lem = refl }))))

    write_fragments-Yields :
        (fuel : ℕ) (p : Bytes) (v : SoeWrite)
        → 0 < maxdata
        → v.hp + v.left ≡ psize
        → v.left < fuel
        → Yields
            (λ w. w.hp + w.left ≡ psize)
            (write_fragments ch drive flags idn timeout maxdata fuel p v)
    unfolding write_fragments write_fragment
    write_fragments-Yields zero p v room whole enough = absurd (omega arith)
    write_fragments-Yields (suc fuel) p v room whole enough =
        let goes_on = ltb maxdata v.left in
        let size = if goes_on then maxdata else v.left in
        let round = send_part-Yields goes_on size (read_at p v.hp size) v whole (ground arith) in
        record {
          at = λ s.
              let (r, e, next) = round.at s in
              elim (Bool-cases r.0.0) [
                | inl again ↦
                    let fewer : r.0.1.left < fuel =
                      ground (arith, next.goes_on_lem again, next.left_lem) in
                    let (r', e', w) =
                      (write_fragments-Yields fuel p r.0.1 room next.whole fewer).at r.1 in
                    (r', rw (e, again, write_fragments, write_fragment) e', w)
                | inr ends ↦
                    ((r.0.1, r.1), rw (e, ends, write_fragments, write_fragment) refl, next.whole)
              ];
        }

-- `ecx_SoEwrite` comes to an end, whatever the slave answers, and its pointer stays in the parameter: how
-- far it has moved on and what is left make up the size. The channel's operations come to an end, the
-- slave's mailbox is larger than the headers, and a round for each byte and one more are enough.
pub soe_write_total :
    {S : Type 0} (ch : Channel S) (answers : Answers ch)
    (drive flags idn timeout fuel mbx_l psize : ℕ) (p : Bytes) (s : S)
    → 10 < mbx_l
    → psize < fuel
    → (r : SoeWrite × S) × (soe_write ch drive flags idn timeout fuel mbx_l psize p s ≡ some r)
      × (r.0.hp + r.0.left ≡ psize)
unfolding soe_write
soe_write_total ch answers drive flags idn timeout fuel mbx_l psize p s room enough =
    let first : SoeWrite = record { wkc = pos 0; left = psize; hp = 0; out = clear_mbx } in
    let whole : Yields (λ w. w.hp + w.left ≡ psize)
        (soe_write ch drive flags idn timeout fuel mbx_l psize p) =
      >>=-Yields _ _ (answers.receives _ _) (λ old _.
        write_fragments-Yields ch answers drive flags idn timeout (mbx_l - 10) psize fuel p first
          (omega arith) (omega arith) enough) in
    whole.at s
