-- ===== src/Eeprom.antt =====
-- The access to a slave's EEPROM in soem/ethercatmain.c, from `ecx_eeprom_waitnotbusyAP` to
-- `ecx_readeeprom2`, on a little-endian host. The functions for auto-increment and for configured
-- addresses have the same bodies over `Access`. A value of 64 or 32 bits is its bytes in memory;
-- `none` comes out where the fuel of the loop over NACKs runs out.
pub mod Loop
pub mod Answers
pub mod Tests
use e_rob_soem_linux.Base.{
  ℕ, zero, suc, ◌+◌, ◌*◌, ◌/◌, ◌%◌, Bool, true, false, not, List, [], ◌∷◌, ◌++◌, Option, none, some,
  ◌&&◌, ◌||◌, if◌then◌else◌, ltb, leb, ◌==◌, Bytes, replicate, le16, get16,
}
use e_rob_soem_linux.Base.Int.{ℤ, pos, is_positive, is_zero}
use e_rob_soem_linux.Osal.{Time, Os}
use e_rob_soem_linux.Link.{Net, ec_timeoutret}
use e_rob_soem_linux.Task.{
  Task, pure, ◌>>=◌, ◌>>◌, poll, attempt, default_retries, ec_localdelay, timeoutret3, timer, sleep,
  late_or_sleep, read_fp, write_fp, read_ap, write_ap,
}

-- Reading and writing the registers of one slave: the offset, the size, the buffer, the timeout.
pub record Access (S : Type 0) : Type 0 where
  pub read : ℕ → ℕ → Bytes → ℕ → Task S (ℤ × Bytes)
  pub write : ℕ → ℕ → Bytes → ℕ → Task S ℤ

abbrev pub via_ap : {W : Type 0} → Os W → ℕ → Access (Net W)
via_ap os aiadr = record { read = read_ap os aiadr; write = write_ap os aiadr }

abbrev pub via_fp : {W : Type 0} → Os W → ℕ → Access (Net W)
via_fp os configadr = record { read = read_fp os configadr; write = write_fp os configadr }

abbrev pub reg_eepctl : ℕ
reg_eepctl = 0x0502

abbrev pub reg_eepstat : ℕ
reg_eepstat = 0x0502

abbrev pub reg_eepdat : ℕ
reg_eepdat = 0x0508

-- The bits EC_ESTAT_BUSY, EC_ESTAT_EMASK, EC_ESTAT_NACK and EC_ESTAT_R64 of a status.
abbrev pub is_busy : ℕ → Bool
is_busy estat = estat / 0x8000 % 2 == 1

abbrev pub has_error : ℕ → Bool
has_error estat = not (estat / 0x0800 % 16 == 0)

abbrev pub is_nack : ℕ → Bool
is_nack estat = estat / 0x2000 % 2 == 1

abbrev pub is_r64 : ℕ → Bool
is_r64 estat = estat / 0x0040 % 2 == 1

-- `ec_eepromt` with the commands EC_ECMD_READ and EC_ECMD_WRITE.
abbrev pub read_command : ℕ → Bytes
read_command eeproma = le16 0x0100 ++ (le16 eeproma ++ le16 0)

abbrev pub write_command : ℕ → Bytes
write_command eeproma = le16 0x0201 ++ (le16 eeproma ++ le16 0)

-- EC_TIMEOUTEEP
abbrev pub ec_timeouteep : ℕ
ec_timeouteep = 20000

-- The test with which the loop of `ecx_eeprom_waitnotbusyFP` ends before its timeout.
abbrev pub is_ready : ℤ × Bytes → Bool
is_ready (wkc, estat) = is_positive wkc && not (is_busy (get16 estat 0))

module _ {W : Type 0} (os : Os W) (acc : Access (Net W)) where
  -- `ecx_eeprom_waitnotbusyAP` and `ecx_eeprom_waitnotbusyFP`: the result and `estat`.
  unfoldable pub wait_not_busy : ℕ → Task (Net W) (Bool × ℕ)
  wait_not_busy timeout = do
    stop ← timer os timeout
    (wkc, estat) ←
        poll (suc timeout) is_ready (acc.read reg_eepstat 2 (0 ∷ 0 ∷ []) ec_timeoutret)
          (late_or_sleep os ec_localdelay stop)
    pure (not (is_busy (get16 estat 0)), get16 estat 0)

  -- `if (estat & EC_ESTAT_EMASK)`: the error bits are cleared.
  unfoldable pub clear_errors : ℕ → Task (Net W) (Unit {0})
  clear_errors estat =
      if has_error estat then (acc.write reg_eepctl 2 (le16 0) timeoutret3 >> pure tt) else pure tt

  -- The data of a read that was accepted, 64 or 32 bits, in the value `edat64`.
  unfoldable pub fetch_data : ℕ → Bytes → Task (Net W) Bytes
  fetch_data estat edat =
      if is_r64 estat
      then (attempt default_retries (λ r. is_positive r.0)
            (acc.read reg_eepdat 8 edat ec_timeoutret)
          >>= λ r. pure r.1)
      else (attempt default_retries (λ r. is_positive r.0)
            (acc.read reg_eepdat 4 (replicate 4 0) ec_timeoutret)
          >>= λ r. pure (r.1 ++ replicate 4 0))

  -- One round of the loop of `ecx_readeepromFP`: the new `nackcnt` and `edat64`.
  unfoldable pub read_round : ℕ → ℕ → ℕ → Bytes → Task (Net W) (ℕ × Bytes)
  read_round eeproma timeout nackcnt edat = do
    wkc ←
        attempt default_retries is_positive
          (acc.write reg_eepctl 6 (read_command eeproma) ec_timeoutret)
    if is_zero wkc then pure (nackcnt, edat) else do
      sleep os ec_localdelay
      (ready, estat) ← wait_not_busy timeout
      if ready
          then if is_nack estat
            then (sleep os (5 * ec_localdelay) >> pure (nackcnt + 1, edat))
            else (fetch_data estat edat >>= λ new. pure (0, new))
          else pure (nackcnt, edat)

  -- `while ((nackcnt > 0) && (nackcnt < 3))`
  unfoldable pub read_loop : ℕ → ℕ → ℕ → ℕ → Bytes → Task (Net W) Bytes
  read_loop zero eeproma timeout nackcnt edat n = none
  read_loop (suc fuel) eeproma timeout nackcnt edat n =
      elim (read_round eeproma timeout nackcnt edat n) [
        | none ↦ none
        | some (r, n') ↦ elim (ltb 0 r.0 && ltb r.0 3) [
          | true ↦ read_loop fuel eeproma timeout r.0 r.1 n'
          | false ↦ some (r.1, n')
        ]
      ]

  -- `ecx_readeepromAP` and `ecx_readeepromFP`
  unfoldable pub read_eeprom : ℕ → ℕ → ℕ → Task (Net W) Bytes
  read_eeprom fuel eeproma timeout = do
    (ready, estat) ← wait_not_busy timeout
    if ready
        then (clear_errors estat >> read_loop fuel eeproma timeout 0 (replicate 8 0))
        else pure (replicate 8 0)

  -- One round of the loop of `ecx_writeeepromFP`: the new `nackcnt` and `rval`.
  unfoldable pub write_round : ℕ → ℕ → ℕ → ℕ → ℕ → Task (Net W) (ℕ × ℕ)
  write_round eeproma value timeout nackcnt rval = do
    attempt default_retries is_positive (acc.write reg_eepdat 2 (le16 value) ec_timeoutret)
    wkc ←
        attempt default_retries is_positive
          (acc.write reg_eepctl 6 (write_command eeproma) ec_timeoutret)
    if is_zero wkc then pure (nackcnt, rval) else do
      sleep os (2 * ec_localdelay)
      (ready, estat) ← wait_not_busy timeout
      if ready
          then if is_nack estat
            then (sleep os (5 * ec_localdelay) >> pure (nackcnt + 1, rval))
            else pure (0, 1)
          else pure (nackcnt, rval)

  unfoldable pub write_loop : ℕ → ℕ → ℕ → ℕ → ℕ → ℕ → Task (Net W) ℕ
  write_loop zero eeproma value timeout nackcnt rval n = none
  write_loop (suc fuel) eeproma value timeout nackcnt rval n =
      elim (write_round eeproma value timeout nackcnt rval n) [
        | none ↦ none
        | some (r, n') ↦ elim (ltb 0 r.0 && ltb r.0 3) [
          | true ↦ write_loop fuel eeproma value timeout r.0 r.1 n'
          | false ↦ some (r.1, n')
        ]
      ]

  -- `ecx_writeeepromAP` and `ecx_writeeepromFP`
  unfoldable pub write_eeprom : ℕ → ℕ → ℕ → ℕ → Task (Net W) ℕ
  write_eeprom fuel eeproma value timeout = do
    (ready, estat) ← wait_not_busy timeout
    if ready then (clear_errors estat >> write_loop fuel eeproma value timeout 0 0) else pure 0

  -- `ecx_readeeprom1`, after `ecx_eeprom2master`.
  unfoldable pub request_eeprom : ℕ → Task (Net W) (Unit {0})
  request_eeprom eeproma = do
    (ready, estat) ← wait_not_busy ec_timeouteep
    if not ready then pure tt else do
      clear_errors estat
      attempt default_retries is_positive
          (acc.write reg_eepctl 6 (read_command eeproma) ec_timeoutret)
      pure tt

  -- `ecx_readeeprom2`: a value of 32 bits.
  unfoldable pub fetch_eeprom : ℕ → Task (Net W) Bytes
  fetch_eeprom timeout = do
    (ready, estat) ← wait_not_busy timeout
    if ready
        then (attempt default_retries (λ r. is_positive r.0)
              (acc.read reg_eepdat 4 (replicate 4 0) ec_timeoutret)
            >>= λ r. pure r.1)
        else pure (replicate 4 0)

module _ {W : Type 0} (os : Os W) where
  -- `ecx_eeprom_waitnotbusyAP`
  unfoldable pub wait_not_busy_ap : ℕ → ℕ → Task (Net W) (Bool × ℕ)
  wait_not_busy_ap aiadr timeout = wait_not_busy os (via_ap os aiadr) timeout

  -- `ecx_readeepromAP`
  unfoldable pub read_eeprom_ap : ℕ → ℕ → ℕ → ℕ → Task (Net W) Bytes
  read_eeprom_ap fuel aiadr eeproma timeout = read_eeprom os (via_ap os aiadr) fuel eeproma timeout

  -- `ecx_writeeepromAP`
  unfoldable pub write_eeprom_ap : ℕ → ℕ → ℕ → ℕ → ℕ → Task (Net W) ℕ
  write_eeprom_ap fuel aiadr eeproma value timeout =
      write_eeprom os (via_ap os aiadr) fuel eeproma value timeout

  -- `ecx_eeprom_waitnotbusyFP`
  unfoldable pub wait_not_busy_fp : ℕ → ℕ → Task (Net W) (Bool × ℕ)
  wait_not_busy_fp configadr timeout = wait_not_busy os (via_fp os configadr) timeout

  -- `ecx_readeepromFP`
  unfoldable pub read_eeprom_fp : ℕ → ℕ → ℕ → ℕ → Task (Net W) Bytes
  read_eeprom_fp fuel configadr eeproma timeout =
      read_eeprom os (via_fp os configadr) fuel eeproma timeout

  -- `ecx_writeeepromFP`
  unfoldable pub write_eeprom_fp : ℕ → ℕ → ℕ → ℕ → ℕ → Task (Net W) ℕ
  write_eeprom_fp fuel configadr eeproma value timeout =
      write_eeprom os (via_fp os configadr) fuel eeproma value timeout
