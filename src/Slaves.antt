-- ===== src/Slaves.antt =====
-- The list of slaves in soem/ethercatmain.h and the functions of soem/ethercatmain.c on the slaves'
-- states: `ecx_FPRD_multi`, `ecx_readstate`, `ecx_writestate` and `ecx_statecheck`; also the control
-- of the EEPROM, `ecx_eeprom2master` and `ecx_eeprom2pdi`. `none` comes out where the fuel of a
-- loop runs out.
pub mod Reading
mod Tests
use e_rob_soem_linux.Base.{
  ℕ, zero, suc, ◌+◌, ◌-◌, ◌*◌, ◌/◌, ◌%◌, bit_or, Bool, true, false, not, List, [], ◌∷◌, Option,
  none, some, ◌&&◌, ◌||◌, if◌then◌else◌, ltb, leb, ◌==◌, min, Bytes, get_or, set, replicate,
  write_at, read_at, le16, get16,
}
use e_rob_soem_linux.Base.Int.{ℤ, pos, negsuc, is_positive, is_negative}
use e_rob_soem_linux.Osal.{Time, Os, timer_start, timer_is_expired}
use e_rob_soem_linux.Nic.{Port, get_index}
use e_rob_soem_linux.Datagram.{fprd, setup_datagram, add_datagram, ec_headersize}
use e_rob_soem_linux.Link.{Net, ec_timeoutret}
use e_rob_soem_linux.Primitives.{
  Answer, request, rx_frame, release, confirm, bwr_op, brd_op, fprd_op, fpwr_op, fpwr_word,
}

-- The fields of `ec_slavet` that these functions use.
pub record Slave : Type 0 where
  pub state : ℕ
  pub alstatuscode : ℕ
  pub configadr : ℕ
  pub eep_pdi : Bool
  pub mbx_l : ℕ
  pub mbx_wo : ℕ
  pub mbx_rl : ℕ
  pub mbx_ro : ℕ

abbrev pub no_slave : Slave
no_slave = record {
  state = 0;
  alstatuscode = 0;
  configadr = 0;
  eep_pdi = false;
  mbx_l = 0;
  mbx_wo = 0;
  mbx_rl = 0;
  mbx_ro = 0;
}

-- The port, `slavecount` and `slavelist` of `ecx_contextt`; place 0 of the list is the master.
pub record Context (W : Type 0) : Type 0 where
  pub net : Net W
  pub slavecount : ℕ
  pub slavelist : List Slave

abbrev pub slave_at : {W : Type 0} → Context W → ℕ → Slave
slave_at c i = get_or c.slavelist i no_slave

abbrev pub put_slave : {W : Type 0} → ℕ → Slave → Context W → Context W
put_slave i s c = record c { slavelist = set c.slavelist i s }

abbrev pub reg_alctl : ℕ
reg_alctl = 0x0120

abbrev pub reg_alstat : ℕ
reg_alstat = 0x0130

abbrev pub reg_eepcfg : ℕ
reg_eepcfg = 0x0500

-- EC_DEFAULTRETRIES
abbrev pub default_retries : ℕ
default_retries = 3

-- EC_TIMEOUTRET3
abbrev pub timeoutret3 : ℕ
timeoutret3 = 3 * ec_timeoutret

-- `wkc >= count`
abbrev pub at_least : ℕ → ℤ → Bool
at_least count (pos k) = leb count k
at_least count (negsuc k) = false

-- The datagrams behind the first of `ecx_FPRD_multi`, and where their data will be received.
unfoldable pub add_statuses : ℕ → List ℕ → Port → List ℕ × Port
add_statuses idx [] p = ([], p)
add_statuses idx (adr ∷ []) p =
    let (at, p') = add_datagram p idx false (request fprd adr reg_alstat 6 []) in (at ∷ [], p')
add_statuses idx (adr ∷ next ∷ adrs) p =
    let (at, p₁) = add_datagram p idx true (request fprd adr reg_alstat 6 []) in
    let (ats, p₂) = add_statuses idx (next ∷ adrs) p₁ in (at ∷ ats, p₂)

-- The statuses at these places of the received frame, one for each of `slstatlst`.
unfoldable pub copy_statuses : Bytes → List ℕ → List Bytes → List Bytes
copy_statuses rx [] slstatlst = slstatlst
copy_statuses rx (at ∷ ats) [] = []
copy_statuses rx (at ∷ ats) (old ∷ olds) =
    write_at old 0 (read_at rx at 6) ∷ copy_statuses rx ats olds

-- The slaves `i` to `i + n - 1` in the state `state`, without an error. The C counter is a uint16, which
-- would wrap around with 65535 slaves; here and in `addresses` it does not.
unfoldable pub settle : {W : Type 0} → ℕ → ℕ → ℕ → Context W → Context W
settle zero i state c = c
settle (suc n) i state c =
    settle n (i + 1) state
      (put_slave i (record (slave_at c i) { alstatuscode = 0; state = state }) c)

-- The configured addresses of the slaves `i` to `i + n - 1`.
unfoldable pub addresses : {W : Type 0} → ℕ → ℕ → Context W → List ℕ
addresses zero i c = []
addresses (suc n) i c = (slave_at c i).configadr ∷ addresses n (i + 1) c

-- The statuses of the slaves from `i` on, and the lowest state.
unfoldable pub store_statuses : {W : Type 0} → ℕ → List Bytes → ℕ → Context W → ℕ × Context W
store_statuses i [] lowest c = (lowest, c)
store_statuses i (sl ∷ sls) lowest c =
    let rval = get16 sl 0 in
    let code = get16 sl 4 in
    let c₁ = put_slave i (record (slave_at c i) { alstatuscode = code; state = rval }) c in
    let all = bit_or (slave_at c₁ 0).alstatuscode code in
    let c₂ = put_slave 0 (record (slave_at c₁ 0) { alstatuscode = all }) c₁ in
    store_statuses (i + 1) sls (min (rval % 16) lowest) c₂

-- A state that all slaves can be in at once: EC_STATE_INIT, PRE_OP, SAFE_OP or OPERATIONAL.
abbrev pub is_common : ℕ → Bool
is_common s = s == 1 || s == 2 || s == 4 || s == 8

-- `(rval & EC_STATE_ERROR) == 0`
abbrev pub no_error : ℕ → Bool
no_error rval = rval / 16 % 2 == 0

-- What the broadcast of `ecx_readstate` changes in the master's entry.
abbrev pub broadcast_master : ℕ → Slave → Slave
broadcast_master rval m =
    let m₁ = if no_error rval then record m { alstatuscode = 0 } else m in
    if is_common (rval % 16) then record m₁ { state = rval % 16 } else m₁

-- The last slave that is read together with `fslave`: MAX_FPRD_MULTI slaves at most.
abbrev pub chunk_end : ℕ → ℕ → ℕ
chunk_end fslave lslave = if leb (fslave + 64) lslave then fslave + 63 else lslave

-- The head of an array, which holds `stale` where nothing is put in, and the rest of it.
abbrev pub head_or : ℕ → List ℕ → ℕ
head_or stale [] = stale
head_or stale (a ∷ rest) = a

abbrev pub tail_of : List ℕ → List ℕ
tail_of [] = []
tail_of (a ∷ rest) = rest

module _ {W : Type 0} (os : Os W) where
  -- `ecx_FPRD_multi` for `slstatlst` of `n` statuses; `configlst` is its first address, which is
  -- read even for `n = 0`, and the others.
  unfoldable pub fprd_multi : ℕ → List ℕ → List Bytes → ℕ → Net W → Option (ℤ × List Bytes × Net W)
  fprd_multi first others slstatlst timeout n =
      let (idx, p) = get_index n.port in
      let p₁ = setup_datagram p idx (request fprd first reg_alstat 6 []) in
      let (ats, p₂) = add_statuses idx others p₁ in
      elim (confirm os idx timeout (record n { port = p₂ })) [
        | none ↦ none
        | some (wkc, n') ↦
            let got = copy_statuses (rx_frame n' idx) (ec_headersize ∷ ats) slstatlst in
            some (wkc, (if is_negative wkc then slstatlst else got), release idx n')
      ]

  -- The loop of `ecx_readstate` that reads up to 64 slaves at a time, from `fslave` on.
  unfoldable pub read_each : ℕ → ℕ → ℕ → ℕ → Context W → Option (ℕ × Context W)
  read_each zero stale fslave lowest c = none
  read_each (suc fuel) stale fslave lowest c =
      let lslave = chunk_end fslave (c.slavecount % 65536) in
      let n = lslave + 1 - fslave in
      let slca = addresses n fslave c in
      elim (fprd_multi (head_or stale slca) (tail_of slca) (replicate n (replicate 6 0)) timeoutret3
        c.net) [
          | none ↦ none
          | some (wkc, sl, net) ↦
              let (lowest', c') = store_statuses fslave sl lowest (record c { net = net }) in
              elim (ltb lslave c.slavecount) [
                | true ↦ read_each fuel stale (lslave + 1) lowest' c'
                | false ↦
                    some (lowest', put_slave 0 (record (slave_at c' 0) { state = lowest' }) c')
              ]
        ]

  -- `ecx_readstate` behind its broadcast, which gave `wkc` and `rval`.
  unfoldable pub after_broadcast : ℕ → ℕ → ℤ → ℕ → Context W → Option (ℕ × Context W)
  after_broadcast fuel stale wkc rval c =
      let bitwise = rval % 16 in
      let m = broadcast_master rval (slave_at c 0) in
      let c₁ = put_slave 0 m c in
      elim (no_error rval && is_common bitwise && at_least c.slavecount wkc) [
        | true ↦ some (bitwise, settle c.slavecount 1 bitwise c₁)
        | false ↦ read_each fuel stale 1 0xff (put_slave 0 (record m { alstatuscode = 0 }) c₁)
      ]

  -- `ecx_readstate`; `stale` is what the uninitialised `slca` holds, which is sent when there is no
  -- slave.
  unfoldable pub read_state : ℕ → ℕ → Context W → Option (ℕ × Context W)
  read_state fuel stale c = elim (brd_op os 0 reg_alstat 2 (0 ∷ 0 ∷ []) ec_timeoutret c.net) [
    | none ↦ none
    | some (wkc, rval, net) ↦ after_broadcast fuel stale wkc (get16 rval 0) (record c { net = net })
  ]

  -- `ecx_writestate`
  unfoldable pub write_state : ℕ → Context W → Answer W
  write_state slave c =
      if slave == 0
      then bwr_op os 0 reg_alctl 2 (le16 (slave_at c slave).state) timeoutret3 c.net
      else fpwr_word os (slave_at c slave).configadr reg_alctl (slave_at c slave).state timeoutret3
          c.net

  -- One reading of `ecx_statecheck`: the status word.
  unfoldable pub read_one : ℕ → Context W → Option (ℕ × Context W)
  read_one slave c = elim (slave == 0) [
    | true ↦ elim (brd_op os 0 reg_alstat 2 (0 ∷ 0 ∷ []) ec_timeoutret c.net) [
      | none ↦ none
      | some (wkc, rval, net) ↦ some (get16 rval 0, record c { net = net })
    ]
    | false ↦
        elim (fprd_op os (slave_at c slave).configadr reg_alstat 6 (replicate 6 0) ec_timeoutret
          c.net) [
            | none ↦ none
            | some (wkc, sl, net) ↦ some (
              get16 sl 0,
              put_slave slave (record (slave_at c slave) { alstatuscode = get16 sl 4 })
                  (record c { net = net }),
            )
          ]
  ]

  -- The loop of `ecx_statecheck`.
  unfoldable pub check_loop : ℕ → ℕ → ℕ → Time → Context W → Option (ℕ × Context W)
  check_loop zero slave reqstate stop c = none
  check_loop (suc fuel) slave reqstate stop c = elim (read_one slave c) [
    | none ↦ none
    | some (rval, c₁) ↦ elim (rval % 16 == reqstate) [
      | true ↦ some (rval, c₁)
      | false ↦
          let slept = os.sleep c₁.net.world 1000 in
          let (now, w) = os.now slept in
          let net : Net W = record { port = c₁.net.port; world = w } in
          let c₂ = record c₁ { net = net } in
          elim (timer_is_expired now stop) [
            | true ↦ some (rval, c₂)
            | false ↦ check_loop fuel slave reqstate stop c₂
          ]
    ]
  ]

  -- `ecx_statecheck`
  unfoldable pub state_check : ℕ → ℕ → ℕ → ℕ → Context W → Option (ℕ × Context W)
  state_check fuel slave reqstate timeout c = elim (ltb c.slavecount slave) [
    | true ↦ some (0, c)
    | false ↦
        let (now, w) = os.now c.net.world in
        let net : Net W = record { port = c.net.port; world = w } in
        elim (check_loop fuel slave reqstate (timer_start now timeout) (record c { net = net })) [
          | none ↦ none
          | some (rval, c') ↦
              some (rval % 16, put_slave slave (record (slave_at c' slave) { state = rval }) c')
        ]
  ]

  abbrev pub eepcfg_once : ℕ → ℕ → Net W → Option (ℤ × Net W)
  eepcfg_once configadr eepctl n =
      elim (fpwr_op os configadr reg_eepcfg 1 (eepctl ∷ []) ec_timeoutret n) [
        | none ↦ none
        | some (wkc, buf, n') ↦ some (wkc, n')
      ]

  -- The loops of `ecx_eeprom2master` and `ecx_eeprom2pdi`: a write of EEPCFG with as many further
  -- attempts as `cnt` leaves.
  unfoldable pub write_eepcfg : ℕ → ℕ → ℕ → Net W → Option (ℤ × Net W)
  write_eepcfg zero configadr eepctl n = eepcfg_once configadr eepctl n
  write_eepcfg (suc retries) configadr eepctl n = elim (eepcfg_once configadr eepctl n) [
    | none ↦ none
    | some (wkc, n') ↦ elim (is_positive wkc) [
      | true ↦ some (wkc, n')
      | false ↦ write_eepcfg retries configadr eepctl n'
    ]
  ]

  abbrev pub set_eep_pdi : ℕ → Bool → Net W → Context W → Context W
  set_eep_pdi slave b net c =
      put_slave slave (record (slave_at c slave) { eep_pdi = b }) (record c { net = net })

  -- `ecx_eeprom2master`
  unfoldable pub eeprom_to_master : ℕ → Context W → Option (ℤ × Context W)
  eeprom_to_master slave c = elim (slave_at c slave).eep_pdi [
    | false ↦ some (pos 1, c)
    | true ↦ elim (write_eepcfg default_retries (slave_at c slave).configadr 2 c.net) [
      | none ↦ none
      | some (wkc, n₁) ↦ elim (write_eepcfg default_retries (slave_at c slave).configadr 0 n₁) [
        | none ↦ none
        | some (wkc', n₂) ↦ some (wkc', set_eep_pdi slave false n₂ c)
      ]
    ]
  ]

  -- `ecx_eeprom2pdi`
  unfoldable pub eeprom_to_pdi : ℕ → Context W → Option (ℤ × Context W)
  eeprom_to_pdi slave c = elim (slave_at c slave).eep_pdi [
    | true ↦ some (pos 1, c)
    | false ↦ elim (write_eepcfg default_retries (slave_at c slave).configadr 1 c.net) [
      | none ↦ none
      | some (wkc, n₁) ↦ some (wkc, set_eep_pdi slave true n₁ c)
    ]
  ]
