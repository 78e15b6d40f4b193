-- ===== src/Eeprom/Answers.antt =====
-- What the EEPROM functions make of a slave that does not answer.
use e_rob_soem_linux.Base.{
  ℕ, ap, zero, suc, ◌<◌, ◌≡◌, refl, ◌∙◌, sym, arith, Bool, true, false, [], ◌∷◌, none, some, ◌&&◌,
  ltb, Bytes, Option-cases, inl, inr,
}
use e_rob_soem_linux.Base.Int.{ℤ, pos, is_positive, is_zero}
use e_rob_soem_linux.Osal.{Os}
use e_rob_soem_linux.Link.{Net, ec_timeoutret}
use e_rob_soem_linux.Task.{default_retries}
use e_rob_soem_linux.Task.Ensures.{Ensures, any-Ensures, pure-Ensures, >>=-Ensures, poll-Ensures}
use e_rob_soem_linux.Task.Keeps.{Keeps, pure-Keeps, if-Keeps, >>=-Keeps, attempt-Keeps}
use e_rob_soem_linux.Eeprom.{
  Access, reg_eepstat, reg_eepctl, is_ready, wait_not_busy, read_command, read_round, read_loop,
}

module _ {W : Type 0} (os : Os W) (acc : Access (Net W)) where
  -- If the status is never read, so that its buffer keeps its zeros, `ecx_eeprom_waitnotbusyFP` (and
  -- `AP`) reports a ready EEPROM when it comes back from its timeout.
  pub wait_not_busy_unanswered :
      (timeout : ℕ) (n : Net W) (r : (Bool × ℕ) × Net W)
      → ((m : Net W) (q : (ℤ × Bytes) × Net W)
          → acc.read reg_eepstat 2 (0 ∷ 0 ∷ []) ec_timeoutret m ≡ some q
          → (is_positive q.0.0 ≡ false) × (q.0.1 ≡ 0 ∷ 0 ∷ []))
      → wait_not_busy os acc timeout n ≡ some r
      → r.0 ≡ (true, 0)
  unfolding wait_not_busy
  wait_not_busy_unanswered timeout n r silent e =
      let lost : Ensures (λ (q : ℤ × Bytes). q.1 ≡ 0 ∷ 0 ∷ [])
          (acc.read reg_eepstat 2 (0 ∷ 0 ∷ []) ec_timeoutret) =
        record { at = λ m q h. (silent m q h).1 } in
      let all : Ensures (λ (x : Bool × ℕ). x ≡ (true, 0)) (wait_not_busy os acc timeout) =
        >>=-Ensures _ _ (any-Ensures _) λ stop u.
          >>=-Ensures _ _ (poll-Ensures (suc timeout) is_ready _ _ lost)
            λ q zeros. pure-Ensures _ (rw zeros refl) in
      all.at n r e

  module _ (Silent : Net W → Type 0) (eeproma : ℕ)
      (lost : (m : Net W) (q : ℤ × Net W)
        → Silent m
        → acc.write reg_eepctl 6 (read_command eeproma) ec_timeoutret m ≡ some q
        → (q.0 ≡ pos 0) × Silent q.1) where
    -- A round without an answer leaves the count of NACKs as it is.
    same_count :
        (timeout nackcnt : ℕ) (edat : Bytes)
        → Keeps Silent
            (λ (r : ℕ × Bytes). r.0 ≡ nackcnt)
            (read_round os acc eeproma timeout nackcnt edat)
    unfolding read_round
    same_count timeout nackcnt edat =
        let zero_wkc : Keeps Silent (λ (wkc : ℤ). wkc ≡ pos 0)
            (acc.write reg_eepctl 6 (read_command eeproma) ec_timeoutret) =
          record { at = lost } in
        >>=-Keeps Silent _ _ (attempt-Keeps Silent default_retries is_positive _ zero_wkc) λ wkc z.
          if-Keeps Silent (is_zero wkc) _ _ (λ t. pure-Keeps Silent _ refl)
            λ f. absurd (cc (sym f ∙ ap is_zero z))

    -- A slave that has counted a NACK against the master and then stops answering keeps the loop of
    -- `ecx_readeepromFP` (and `AP`) going: it runs out of any fuel. `Silent` are states in which a write
    -- of the command register that comes back has a working counter of 0 and leads to such a state again;
    -- one or two NACKs are counted, and the loop goes on in one of these states.
    pub read_loop_diverges :
        (fuel timeout nackcnt : ℕ) (edat : Bytes) (n : Net W)
        → 0 < nackcnt
        → nackcnt < 3
        → Silent n
        → read_loop os acc fuel eeproma timeout nackcnt edat n ≡ none
    unfolding read_loop
    read_loop_diverges zero timeout nackcnt edat n h k now = refl
    read_loop_diverges (suc fuel) timeout nackcnt edat n h k now =
        elim (Option-cases (read_round os acc eeproma timeout nackcnt edat n)) [
          | inl stop ↦ rw (stop, read_loop) refl
          | inr (r, go) ↦
              let (same, later) = (same_count timeout nackcnt edat).at n r now go in
              let again : (ltb 0 r.0.0 && ltb r.0.0 3) ≡ true = ground arith in
              let rest =
                read_loop_diverges fuel timeout r.0.0 r.0.1 r.1 (omega arith) (omega arith) later in
              rw (go, again, read_loop) rest
        ]
