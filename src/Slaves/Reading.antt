-- ===== src/Slaves/Reading.antt =====
-- Reading and changing the states of the slaves always ends, and what it leaves.
use e_rob_soem_linux.Base.{
  ℕ, zero, suc, ◌+◌, ◌%◌, ◌-◌, ◌≤◌, ◌<◌, ◌≡◌, refl, ◌∙◌, sym, arith, false, List, [], ◌∷◌, some,
  if◌then◌else◌, ltb, Bytes, Bool-cases, inl, inr, replicate, get16, length, ap, get_or-set_self,
  ◌&&◌,
}
use e_rob_soem_linux.Base.Int.{ℤ, pos, is_positive, is_negative}
use e_rob_soem_linux.Osal.{Os, IsClock}
use e_rob_soem_linux.Nic.{get_index}
use e_rob_soem_linux.Datagram.{ec_headersize, setup_datagram, fprd, brd, fpwr}
use e_rob_soem_linux.Link.{Net, ec_timeoutret}
use e_rob_soem_linux.Link.Total.{sr_confirm_total}
use e_rob_soem_linux.Primitives.{request, release, rx_frame, brd_op, fpwr_op}
use e_rob_soem_linux.Primitives.Access.{read_with_total, write_with_total}
use e_rob_soem_linux.Slaves.{
  Slave, Context, slave_at, no_slave, put_slave, reg_alstat, reg_eepcfg, timeoutret3, add_statuses,
  fprd_multi, head_or, eepcfg_once, set_eep_pdi, is_common, at_least, tail_of, no_error,
  broadcast_master, chunk_end, copy_statuses, addresses, store_statuses, read_each, settle,
  after_broadcast, read_state, write_eepcfg, eeprom_to_master, default_retries,
}

store_statuses-slavecount :
    {W : Type 0} (i : ℕ) (sl : List Bytes) (lowest : ℕ) (c : Context W)
    → (store_statuses i sl lowest c).1.slavecount ≡ c.slavecount
unfolding store_statuses
store_statuses-slavecount i [] lowest c = refl
store_statuses-slavecount i (sl ∷ sls) lowest c = store_statuses-slavecount (i + 1) sls _ _

module _ {W : Type 0} (os : Os W) (us : W → ℕ) (clock : IsClock os us) where
  fprd_multi_total :
      (first : ℕ) (others : List ℕ) (sl : List Bytes) (timeout : ℕ) (n : Net W)
      → (r : ℤ × List Bytes × Net W) × (fprd_multi os first others sl timeout n ≡ some r)
  unfolding fprd_multi
  fprd_multi_total first others sl timeout n =
      let idx = (get_index n.port).0 in
      let p₁ = setup_datagram (get_index n.port).1 idx (request fprd first reg_alstat 6 []) in
      let p₂ = (add_statuses idx others p₁).1 in
      let (r, e) =
        sr_confirm_total os us clock (suc timeout) 2001 idx timeout (record n { port = p₂ })
          (omega arith) (omega arith) in
      let at = ec_headersize ∷ (add_statuses idx others p₁).0 in
      (
        (
          r.0,
          (if is_negative r.0 then sl else copy_statuses (rx_frame r.1 idx) at sl),
          release idx r.1,
        ),
        rw (e, fprd_multi) refl,
      )

  read_each_total :
      (fuel stale fslave lowest : ℕ) (c : Context W)
      → c.slavecount < 65536
      → fslave ≤ c.slavecount + 1
      → c.slavecount + 1 < fslave + fuel
      → (r : ℕ × Context W) × (read_each os fuel stale fslave lowest c ≡ some r)
  unfolding read_each
  read_each_total zero stale fslave lowest c w h k = absurd (omega arith)
  read_each_total (suc fuel) stale fslave lowest c w h k =
      let l = chunk_end fslave (c.slavecount % 65536) in
      let slca = addresses (l + 1 - fslave) fslave c in
      let zeros : List Bytes = replicate (l + 1 - fslave) (replicate 6 0) in
      let (r, e) = fprd_multi_total (head_or stale slca) (tail_of slca) zeros timeoutret3 c.net in
      let c₁ : Context W = record c { net = r.2 } in
      let st = store_statuses fslave r.1 lowest c₁ in
      let same = store_statuses-slavecount fslave r.1 lowest c₁ in
      elim (Bool-cases (ltb l c.slavecount)) [
        | inr done ↦ (
          (st.0, put_slave 0 (record (slave_at st.1 0) { state = st.0 }) st.1),
          rw (e, done, read_each) refl,
        )
        | inl going ↦
            let full : l ≡ fslave + 63 = ground arith in
            let (q, e') =
              read_each_total fuel stale (l + 1) st.0 st.1 (omega (arith, same))
                (ground (arith, same)) (omega (arith, same)) in
            (q, rw (e, going, read_each) e')
      ]

  after_broadcast_total :
      (fuel stale rval : ℕ) (wkc : ℤ) (c : Context W)
      → c.slavecount < 65536
      → c.slavecount < fuel
      → (r : ℕ × Context W) × (after_broadcast os fuel stale wkc rval c ≡ some r)
  unfolding after_broadcast
  after_broadcast_total fuel stale rval wkc c w h =
      let m = broadcast_master rval (slave_at c 0) in
      let c₁ = put_slave 0 m c in
      elim (Bool-cases (no_error rval && is_common (rval % 16) && at_least c.slavecount wkc)) [
        | inl shortcut ↦
            ((rval % 16, settle c.slavecount 1 (rval % 16) c₁), rw (shortcut, after_broadcast) refl)
        | inr each ↦
            let (r, e) =
              read_each_total fuel stale 1 0xff (put_slave 0 (record m { alstatuscode = 0 }) c₁) w
                (omega arith) (omega arith) in
            (r, rw (each, after_broadcast) e)
      ]

  -- `ecx_readstate` returns, whatever the slaves answer, if the clock goes on: one round of its loop
  -- more than there are slaves is enough fuel, as each round reads at least one. There are less than
  -- 65535 slaves, so that its uint16 counters do not wrap around.
  pub read_state_total :
      (fuel stale : ℕ) (c : Context W)
      → c.slavecount < 65535
      → c.slavecount < fuel
      → (r : ℕ × Context W) × (read_state os fuel stale c ≡ some r)
  unfolding read_state brd_op
  read_state_total fuel stale c w h =
      let (wkc, rval, net, e, size, keep) =
        read_with_total os us clock brd 0 reg_alstat 2 (0 ∷ 0 ∷ []) ec_timeoutret c.net in
      let (r, e') =
        after_broadcast_total fuel stale (get16 rval 0) wkc (record c { net = net }) (omega arith)
          h in
      (r, rw (e, read_state, brd_op) e')

  eepcfg_once_total :
      (configadr eepctl : ℕ) (n : Net W)
      → (r : ℤ × Net W) × (eepcfg_once os configadr eepctl n ≡ some r)
  unfolding fpwr_op
  eepcfg_once_total configadr eepctl n =
      let (wkc, n', e) =
        write_with_total os us clock fpwr configadr reg_eepcfg 1 (eepctl ∷ []) ec_timeoutret n in
      ((wkc, n'), rw (e, eepcfg_once, fpwr_op) refl)

  write_eepcfg_total :
      (retries configadr eepctl : ℕ) (n : Net W)
      → (r : ℤ × Net W) × (write_eepcfg os retries configadr eepctl n ≡ some r)
  unfolding write_eepcfg
  write_eepcfg_total zero configadr eepctl n = eepcfg_once_total configadr eepctl n
  write_eepcfg_total (suc retries) configadr eepctl n =
      let (r, e) = eepcfg_once_total configadr eepctl n in
      elim (Bool-cases (is_positive r.0)) [
        | inl done ↦ (r, rw (e, done, write_eepcfg) refl)
        | inr failed ↦
            let (q, e') = write_eepcfg_total retries configadr eepctl r.1 in
            (q, rw (e, failed, write_eepcfg) e')
      ]

  -- `ecx_eeprom2master` returns, and the master has the control of the slave's EEPROM afterwards;
  -- if it had it before, nothing is sent and nothing changes.
  pub eeprom_to_master_total :
      (slave : ℕ) (c : Context W)
      → slave < length c.slavelist
      → (r : ℤ × Context W) × (eeprom_to_master os slave c ≡ some r)
        × ((slave_at r.1 slave).eep_pdi ≡ false)
        × ((slave_at c slave).eep_pdi ≡ false → r.1 ≡ c)
  unfolding eeprom_to_master
  eeprom_to_master_total slave c h = elim (Bool-cases (slave_at c slave).eep_pdi) [
    | inr mine ↦ ((pos 1, c), rw (mine, eeprom_to_master) refl, mine, λ e. refl)
    | inl pdi ↦
        let adr = (slave_at c slave).configadr in
        let (r₁, e₁) = write_eepcfg_total default_retries adr 2 c.net in
        let (r₂, e₂) = write_eepcfg_total default_retries adr 0 r₁.1 in
        (
          (r₂.0, set_eep_pdi os slave false r₂.1 c),
          rw (pdi, e₁, e₂, eeprom_to_master) refl,
          ap (λ (x : Slave). x.eep_pdi) (get_or-set_self c.slavelist slave _ no_slave h),
          λ e. cc (sym pdi ∙ e),
        )
  ]
