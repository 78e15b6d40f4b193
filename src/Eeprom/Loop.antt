-- ===== src/Eeprom/Loop.antt =====
-- The EEPROM loops come to an end with a slave that answers.
use e_rob_soem_linux.Base.{ℕ, ◌+◌, ◌≡◌, arith, Bool, false, [], ◌∷◌, some, Bytes, get16}
use e_rob_soem_linux.Base.Int.{is_zero}
use e_rob_soem_linux.Osal.{Os, IsClock}
use e_rob_soem_linux.Link.{Net, ec_timeoutret}
use e_rob_soem_linux.Task.{sleep, ec_localdelay}
use e_rob_soem_linux.Task.Timed.{
  IsTimed, net_time, timed_rules, poll-IsTimed, timer->>=-IsTimed, late_or_sleep-EndsBy,
  read_fp-IsTimed, write_fp-IsTimed, >>=-IsTimed, pure-IsTimed, if-IsTimed, sleep-IsTimed,
}
use e_rob_soem_linux.Task.Keeps.{Keeps}
use e_rob_soem_linux.Eeprom.{
  Access, via_fp, wait_not_busy_fp, reg_eepstat, reg_eepctl, reg_eepdat, is_busy, is_nack, is_ready,
  wait_not_busy, fetch_data, read_command, read_round,
}

module _ {W : Type 0} (os : Os W) (us : W → ℕ) (clock : IsClock os us) where
  abbrev time : Net W → ℕ
  time = net_time os us clock

  -- Reading and writing come to an end.
  pub record IsTimedAccess (acc : Access (Net W)) : Type 0 where
    pub read :
        (ado size : ℕ) (buf : Bytes) (timeout from : ℕ)
        → IsTimed time from (acc.read ado size buf timeout)
    pub write :
        (ado size : ℕ) (buf : Bytes) (timeout from : ℕ)
        → IsTimed time from (acc.write ado size buf timeout)

  module _ (acc : Access (Net W)) (timed : IsTimedAccess acc) where
    pub wait_not_busy-IsTimed :
        (timeout from : ℕ) → IsTimed time from (wait_not_busy os acc timeout)
    unfolding wait_not_busy
    wait_not_busy-IsTimed timeout from = timer->>=-IsTimed os us clock timeout _ λ stop t fr ends.
        >>=-IsTimed _ _
          (poll-IsTimed timeout is_ready _ _ (timed.read reg_eepstat 2 (0 ∷ 0 ∷ []) ec_timeoutret t)
            (late_or_sleep-EndsBy os us clock ec_localdelay stop (t + timeout) ends))
          (λ r. pure-IsTimed _)

    pub fetch_data-IsTimed :
        (estat : ℕ) (edat : Bytes) (from : ℕ) → IsTimed time from (fetch_data os acc estat edat)
    unfolding fetch_data
    fetch_data-IsTimed estat edat from =
        let read = λ (size : ℕ) (buf : Bytes). timed.read reg_eepdat size buf ec_timeoutret from in
        search (timed_rules, read)

    pub read_round-IsTimed :
        (eeproma timeout nackcnt : ℕ) (edat : Bytes) (from : ℕ)
        → IsTimed time from (read_round os acc eeproma timeout nackcnt edat)
    unfolding read_round
    read_round-IsTimed eeproma timeout nackcnt edat from =
        let write = timed.write reg_eepctl 6 (read_command eeproma) ec_timeoutret from in
        let nap = λ (usec : ℕ). sleep-IsTimed os us clock {from = from} usec in
        let wait = λ (u : ℕ). wait_not_busy-IsTimed u from in
        let fetch = λ (estat : ℕ) (edat : Bytes). fetch_data-IsTimed estat edat from in
        >>=-IsTimed _ _ (search (timed_rules, write)) λ wkc.
          if-IsTimed (is_zero wkc) _ _ (search timed_rules) (
            >>=-IsTimed _ _ (search nap) λ u. >>=-IsTimed _ _ (search wait) λ r.
              if-IsTimed r.0 _ _
                (if-IsTimed (is_nack r.1) _ _ (search (timed_rules, nap))
                  (>>=-IsTimed _ _ (search fetch) (λ new. search timed_rules)))
                (search timed_rules))

  -- `I` are states in which the slave answers, and stays so: no write has a working counter of 0, the
  -- EEPROM is not busy when the status is read, and neither a step of the master nor the time that goes by
  -- leads out of them.
  pub record Responds (acc : Access (Net W)) (I : Net W → Type 0) : Type 0 where
    pub wrote :
        (ado size : ℕ) (buf : Bytes) (timeout : ℕ)
        → Keeps I (λ wkc. is_zero wkc ≡ false) (acc.write ado size buf timeout)
    pub idle :
        (timeout : ℕ)
        → Keeps I (λ r. is_busy (get16 r.1 0) ≡ false) (acc.read reg_eepstat 2 (0 ∷ 0 ∷ []) timeout)
    pub fetched :
        (ado size : ℕ) (buf : Bytes) (timeout : ℕ)
        → Keeps I (λ r. Unit {0}) (acc.read ado size buf timeout)
    pub reads_clock : (n : Net W) → I n → I (record n { world = (os.now n.world).1 })
    pub sleeps : (usec : ℕ) (n : Net W) → I n → I (record n { world = os.sleep n.world usec })

  module _ (acc : Access (Net W)) (I : Net W → Type 0) (live : Responds acc I) where
    abbrev Any : {A : Type 0} → A → Type 0
    Any a = Unit {0}

  pub via_fp-IsTimed : (configadr : ℕ) → IsTimedAccess (via_fp os configadr)
  via_fp-IsTimed configadr = record {
    read = λ ado size buf timeout from. read_fp-IsTimed os us clock configadr ado size buf timeout;
    write =
        λ ado size buf timeout from. write_fp-IsTimed os us clock configadr ado size buf timeout;
  }

  -- `ecx_eeprom_waitnotbusyFP` returns if the clock goes on, whatever the slave answers.
  pub wait_not_busy_fp_total :
      (configadr timeout : ℕ) (n : Net W)
      → (r : (Bool × ℕ) × Net W) × (wait_not_busy_fp os configadr timeout n ≡ some r)
  unfolding wait_not_busy_fp
  wait_not_busy_fp_total configadr timeout n =
      let (r, e, t) =
        (wait_not_busy-IsTimed (via_fp os configadr) (via_fp-IsTimed configadr) timeout 0).at n
          (omega arith) in
      (r, e)
