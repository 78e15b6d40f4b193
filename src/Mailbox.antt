-- ===== src/Mailbox.antt =====
-- The mailbox counter and the sending half of the mailbox in soem/ethercatmain.c:
-- `ec_nextmbxcnt`, `ecx_mbxempty` and `ecx_mbxsend`. `none` comes out where the fuel of the polling
-- loop runs out.
pub mod Channel
pub mod Counter
pub mod Post
pub mod Prepared
pub mod Receiving
mod Sorted
pub mod Returns
mod Tests
use e_rob_soem_linux.Base.{
  ℕ, zero, suc, ◌+◌, ◌*◌, ◌/◌, ◌%◌, Bool, true, false, not, [], ◌∷◌, Option, none, some, ◌&&◌, ◌||◌,
  if◌then◌else◌, ltb, leb, ◌==◌, Bytes, get_or,
}
use e_rob_soem_linux.Base.Int.{ℤ, pos, is_positive}
use e_rob_soem_linux.Osal.{Time, Os, timer_start, timer_is_expired}
use e_rob_soem_linux.Link.{Net, ec_timeoutret}
use e_rob_soem_linux.Primitives.{fprd_op, fpwr_op}
use e_rob_soem_linux.Slaves.{Slave, Context, slave_at, timeoutret3}

-- `ec_nextmbxcnt`, on a uint8.
unfoldable pub next_mbxcnt : ℕ → ℕ
next_mbxcnt cnt = if ltb 7 ((cnt + 1) % 256) then 1 else (cnt + 1) % 256

abbrev pub reg_sm0stat : ℕ
reg_sm0stat = 0x0805

abbrev pub ec_localdelay : ℕ
ec_localdelay = 200

abbrev pub ec_maxmbx : ℕ
ec_maxmbx = 1486

-- `(SMstat & 0x08) != 0`: the mailbox is still full.
abbrev pub is_full : ℕ → Bool
is_full smstat = smstat / 8 % 2 == 1

module _ {W : Type 0} (os : Os W) where
  -- The loop of `ecx_mbxempty`; its result is whether the mailbox was read as empty.
  unfoldable pub empty_loop : ℕ → ℕ → ℕ → Time → Net W → Option (Bool × Net W)
  empty_loop zero configadr timeout stop n = none
  empty_loop (suc fuel) configadr timeout stop n =
      elim (fprd_op os configadr reg_sm0stat 1 (0 ∷ []) ec_timeoutret n) [
        | none ↦ none
        | some (wkc, buf, n₁) ↦
            let full = is_full (get_or buf 0 0) in
            let w =
              if full && ltb ec_localdelay timeout
              then os.sleep n₁.world ec_localdelay
              else n₁.world in
            elim (is_positive wkc && not full) [
              | true ↦ some (true, record n₁ { world = w })
              | false ↦
                  let (now, w') = os.now w in
                  elim (timer_is_expired now stop) [
                    | true ↦ some (false, record n₁ { world = w' })
                    | false ↦ empty_loop fuel configadr timeout stop (record n₁ { world = w' })
                  ]
            ]
      ]

  -- `ecx_mbxempty`
  unfoldable pub mbx_empty : ℕ → ℕ → ℕ → Context W → Option (Bool × Net W)
  mbx_empty fuel slave timeout c =
      let (now, w) = os.now c.net.world in
      let net : Net W = record { port = c.net.port; world = w } in
      empty_loop fuel (slave_at c slave).configadr timeout (timer_start now timeout) net

  -- `ecx_mbxsend`
  unfoldable pub mbx_send : ℕ → ℕ → Bytes → ℕ → Context W → Option (ℤ × Net W)
  mbx_send fuel slave mbx timeout c =
      let s = slave_at c slave in
      elim (ltb 0 s.mbx_l && leb s.mbx_l ec_maxmbx) [
        | false ↦ some (pos 0, c.net)
        | true ↦ elim (mbx_empty fuel slave timeout c) [
          | none ↦ none
          | some (is_free, n) ↦ elim is_free [
            | false ↦ some (pos 0, n)
            | true ↦ elim (fpwr_op os s.configadr s.mbx_wo s.mbx_l mbx timeoutret3 n) [
              | none ↦ none
              | some (wkc, buf, n') ↦ some (wkc, n')
            ]
          ]
        ]
      ]
