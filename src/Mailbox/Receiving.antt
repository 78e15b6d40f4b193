-- ===== src/Mailbox/Receiving.antt =====
-- `ecx_mbxreceive` of soem/ethercatmain.c. Its buffers `mbx` and `SMstat` are part of the state, as
-- they outlive a round of its loops.
use e_rob_soem_linux.Base.{
  ℕ, suc, ◌/◌, ◌%◌, bit_xor, Bool, [], ◌∷◌, Option, none, some, ◌&&◌, if◌then◌else◌, ltb, leb, ◌==◌,
  Bytes, get_or, le16, get16,
}
use e_rob_soem_linux.Base.Int.{ℤ, pos, negsuc, is_positive}
use e_rob_soem_linux.Osal.{Time, Os}
use e_rob_soem_linux.ErrorList.{Ering, mbx_error_report, mbx_emergency_report}
use e_rob_soem_linux.Link.{Net, ec_timeoutret}
use e_rob_soem_linux.Slaves.{Slave}
use e_rob_soem_linux.Task.{
  Task, pure, gets, modify, ◌>>=◌, ◌>>◌, poll, timer, is_late, sleep, read_fp, write_fp,
  ec_localdelay,
}

abbrev pub ec_maxmbx : ℕ
ec_maxmbx = 1486

abbrev pub ec_timeout : ℤ
ec_timeout = negsuc 4

abbrev pub reg_sm1stat : ℕ
reg_sm1stat = 0x080d

abbrev pub reg_sm1contr : ℕ
reg_sm1contr = 0x080f

pub record Station (W : Type 0) : Type 0 where
  pub net : Net W
  pub elist : Ering
  pub mbx : Bytes
  pub smstat : ℕ

-- What the code calls besides: the wall clock `osal_current_time`, and the hook for Ethernet frames,
-- which says whether it has handled the mailbox.
pub record Hooks (W : Type 0) : Type 0 where
  pub wall : W → Time
  pub eoe : Option (ℕ → Bytes → W → Bool × W)

-- The fields of `ec_mbxheadert`, `ec_mbxerrort`, `ec_emcyt` and `ec_EOEt` in a mailbox.
abbrev pub mbx_type : Bytes → ℕ
mbx_type mbx = get_or mbx 5 0 % 16

abbrev pub is_emergency : Bytes → Bool
is_emergency mbx = get16 mbx 6 / 4096 == 1

abbrev pub is_fragment : Bytes → Bool
is_fragment mbx = get16 mbx 6 % 16 == 0

-- `(SMstat & 0x08) != 0`: the mailbox can be read.
abbrev pub is_available : ℤ × ℕ → Bool
is_available (wkc, smstat) = is_positive wkc && smstat / 8 % 2 == 1

abbrev pub on_net : {W A : Type 0} → Task (Net W) A → Task (Station W) A
on_net m s = elim (m s.net) [ none ↦ none | some (a, n) ↦ some (a, record s { net = n }) ]

module _ {W : Type 0} (os : Os W) (hooks : Hooks W) (slave : ℕ) (s : Slave) where
  -- A reading of SM1STAT into `SMstat`, which holds `old` before, and the pause while the mailbox is empty.
  unfoldable pub read_status : ℕ → ℕ → Task (Station W) (ℤ × ℕ)
  read_status timeout old = do
    (wkc, buf) ← on_net (read_fp os s.configadr reg_sm1stat 2 (le16 old) ec_timeoutret)
    modify (λ m. record m { smstat = get16 buf 0 })
    on_net (
        if get16 buf 0 / 8 % 2 == 0 && ltb ec_localdelay timeout
        then sleep os ec_localdelay
        else pure tt)
    pure (wkc, get16 buf 0)

  -- The mailbox was lost: the repeat request is toggled, and its answer awaited.
  unfoldable pub request_repeat : ℕ → Time → Task (Station W) (Unit {0})
  request_repeat timeout stop = do
    modify (λ m. record m { smstat = bit_xor m.smstat 0x0200 })
    stat ← gets (λ m. m.smstat)
    on_net (write_fp os s.configadr reg_sm1stat 2 (le16 stat) ec_timeoutret)
    poll (suc timeout) (λ r. is_positive r.0 && get_or r.1 0 0 / 2 % 2 == stat / 512 % 2)
        (on_net (read_fp os s.configadr reg_sm1contr 1 (0 ∷ []) ec_timeoutret))
        (on_net (is_late os stop))
    poll (suc timeout) is_available (gets (λ m. m.smstat) >>= read_status timeout)
        (on_net (is_late os stop))
    pure tt

  -- A mailbox that was read with a positive working counter: it is handled here, or left to the
  -- caller.
  unfoldable pub sort_mailbox : ℤ → Bytes → Task (Station W) (ℤ × Bytes)
  sort_mailbox wkc mbx m =
      let w = m.net.world in
      let failed = mbx_error_report (hooks.wall w) slave (get16 mbx 8) m.elist in
      let alarmed =
        mbx_emergency_report (hooks.wall w) slave (get16 mbx 8) (get_or mbx 10 0) (get_or mbx 11 0)
          (get16 mbx 12) (get16 mbx 14) m.elist in
      if mbx_type mbx == 0
      then some ((pos 0, mbx), record m { elist = failed })
      else if mbx_type mbx == 3
      then if is_emergency mbx
        then some ((pos 0, mbx), record m { elist = alarmed })
        else some ((wkc, mbx), m)
      else if mbx_type mbx == 2 && is_fragment mbx
      then elim hooks.eoe [
        | none ↦ some ((wkc, mbx), m)
        | some hook ↦
            let (handled, w') = hook slave mbx w in
            let net : Net W = record { port = m.net.port; world = w' } in
            some (((if handled then pos 0 else wkc), mbx), record m { net = net })
      ]
      else some ((wkc, mbx), m)

  -- A round of the loop that reads the mailbox.
  unfoldable pub read_mailbox : ℕ → Time → Task (Station W) (ℤ × Bytes)
  read_mailbox timeout stop = do
    old ← gets (λ m. m.mbx)
    (wkc, mbx) ← on_net (read_fp os s.configadr s.mbx_ro s.mbx_rl old ec_timeoutret)
    modify (λ m. record m { mbx = mbx })
    if is_positive wkc
        then sort_mailbox wkc mbx
        else (request_repeat timeout stop >> pure (wkc, mbx))

  -- `ecx_mbxreceive`: the working counter and the mailbox.
  unfoldable pub mbx_receive : ℕ → Task (Station W) (ℤ × Bytes)
  mbx_receive timeout = do
    stop ← λ m. on_net (timer os timeout) m
    first ← poll (suc timeout) is_available (read_status timeout 0) (on_net (is_late os stop))
    mbx ← gets (λ m. m.mbx)
    if is_available first
        then poll (suc timeout) (λ r. is_positive r.0) (read_mailbox timeout stop)
            (on_net (is_late os stop))
        else pure ((if is_positive first.0 then ec_timeout else first.0), mbx)

  -- `ecx_mbxreceive` with its test of the mailbox length.
  unfoldable pub receive_mailbox : ℕ → Task (Station W) (ℤ × Bytes)
  receive_mailbox timeout = gets (λ m. m.mbx) >>= λ mbx.
      if ltb 0 s.mbx_rl && leb s.mbx_rl ec_maxmbx then mbx_receive timeout else pure (pos 0, mbx)
