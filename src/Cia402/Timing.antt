-- ===== src/Cia402/Timing.antt =====
-- When cia402_state_machine sends the commands of the start-up sequence: the counter `step` makes
-- each of the three waiting states last for 500 calls.
use e_rob_soem_linux.Base.{
  ap, ◌∙◌, ℕ, zero, suc, ◌+◌, ◌≤◌, ◌≡◌, refl, arith, true, Option, none, some,
}
use e_rob_soem_linux.Cia402.{
  State, sw_on_disabled, ready_to_switch_on, switched_on, operation_enabled, cw_shutdown_cmd,
  cw_switch_on_cmd, cw_enable_op_cmd, Motor, dispatch, decode_state, state_machine,
}
use e_rob_soem_linux.Cia402.Machine.{cycle}

-- The command of a state that waits.
abbrev pub command : State → Option ℕ
command sw_on_disabled = some cw_shutdown_cmd
command ready_to_switch_on = some cw_switch_on_cmd
command switched_on = some cw_enable_op_cmd
command _ = none

-- `n` cycles in which the drive reports the same status word.
pub hold : ℕ → ℕ → Motor → Motor
hold zero w m = m
hold (suc n) w m = hold n w (cycle w m)

dispatch_early :
    (s : State) (c : ℕ) (m : Motor)
    → command s ≡ some c
    → suc m.step ≤ 500
    → ((dispatch s m).step ≡ m.step + 1) × ((dispatch s m).rxpdo.controlword ≡ m.rxpdo.controlword)
unfolding dispatch
dispatch_early sw_on_disabled c m e h = ground arith
dispatch_early _ c m e h = ground arith

dispatch_due :
    (s : State) (c : ℕ) (m : Motor)
    → command s ≡ some c
    → 500 ≤ m.step
    → ((dispatch s m).step ≡ 1) × ((dispatch s m).rxpdo.controlword ≡ c)
unfolding dispatch
dispatch_due sw_on_disabled c m e h = ground arith
dispatch_due _ c m e h = ground arith

module _ (w c : ℕ) (waits : command (decode_state w) ≡ some c) where
  cycle_early :
      (m : Motor)
      → suc m.step ≤ 500
      → ((cycle w m).step ≡ m.step + 1) × ((cycle w m).rxpdo.controlword ≡ m.rxpdo.controlword)
  unfolding cycle state_machine
  cycle_early m h = dispatch_early (decode_state w) c _ waits h

  cycle_due :
      (m : Motor) → 500 ≤ m.step → ((cycle w m).step ≡ 1) × ((cycle w m).rxpdo.controlword ≡ c)
  unfolding cycle state_machine
  cycle_due m h = dispatch_due (decode_state w) c _ waits h

  -- While fewer than 500 calls are counted, a waiting state leaves the control word as it was.
  pub hold_quiet :
      (n : ℕ) (m : Motor)
      → m.step + n ≤ 500
      → ((hold n w m).step ≡ m.step + n) × ((hold n w m).rxpdo.controlword ≡ m.rxpdo.controlword)
  unfolding hold
  hold_quiet zero m h = (omega arith, refl)
  hold_quiet (suc n) m h =
      let first = cycle_early m (omega arith) in
      ground (arith, first, hold_quiet n (cycle w m) (omega (arith, first)))

  -- The call that finds 500 calls counted sends the command, and starts the count again.
  pub hold_sends :
      (n : ℕ) (m : Motor)
      → m.step + n ≡ 500
      → ((hold (suc n) w m).step ≡ 1) × ((hold (suc n) w m).rxpdo.controlword ≡ c)
  unfolding hold
  hold_sends zero m h = cycle_due m (omega arith)
  hold_sends (suc n) m h =
      let first = cycle_early m (omega arith) in hold_sends n (cycle w m) (omega (arith, first))

cycle_operation :
    (w : ℕ) (m : Motor)
    → decode_state w ≡ operation_enabled
    → ((cycle w m).op_enabled ≡ true) × ((cycle w m).rxpdo.controlword ≡ cw_enable_op_cmd)
unfolding cycle state_machine dispatch
cycle_operation w m e = rw e (refl, refl)

-- The start-up sequence of a drive that answers each command at once. From a motor whose counter
-- is 0, the drive reports `sw_on_disabled`, and the call 501 sends the shutdown command; then it
-- reports `ready_to_switch_on`, and 500 calls later goes the switch-on command; then
-- `switched_on`, and 500 calls later the enable command; one more call, with
-- `operation_enabled` reported, sets the flag and keeps the enable command. No command goes out
-- one call earlier: until then the control word is that of the phase before.
pub start_up :
    (w₁ w₂ w₃ w₄ : ℕ) (m : Motor)
    → decode_state w₁ ≡ sw_on_disabled
    → decode_state w₂ ≡ ready_to_switch_on
    → decode_state w₃ ≡ switched_on
    → decode_state w₄ ≡ operation_enabled
    → m.step ≡ 0
    → let disabled = hold 501 w₁ m in
      let ready = hold 500 w₂ disabled in
      let on = hold 500 w₃ ready in
      let running = cycle w₄ on in
      ((hold 500 w₁ m).rxpdo.controlword ≡ m.rxpdo.controlword)
      × (disabled.rxpdo.controlword ≡ cw_shutdown_cmd)
      × ((hold 499 w₂ disabled).rxpdo.controlword ≡ cw_shutdown_cmd)
      × (ready.rxpdo.controlword ≡ cw_switch_on_cmd)
      × ((hold 499 w₃ ready).rxpdo.controlword ≡ cw_switch_on_cmd)
      × (on.rxpdo.controlword ≡ cw_enable_op_cmd)
      × (running.rxpdo.controlword ≡ cw_enable_op_cmd)
      × (running.op_enabled ≡ true)
start_up w₁ w₂ w₃ w₄ m d₁ d₂ d₃ d₄ z =
    let a = hold_sends w₁ cw_shutdown_cmd (ap command d₁) 500 m (omega arith) in
    let b = hold_sends w₂ cw_switch_on_cmd (ap command d₂) 499 (hold 501 w₁ m) (omega (arith, a)) in
    let r = hold 500 w₂ (hold 501 w₁ m) in
    let e = hold_sends w₃ cw_enable_op_cmd (ap command d₃) 499 r (omega (arith, b)) in
    let f = cycle_operation w₄ (hold 500 w₃ r) d₄ in
    (
      (hold_quiet w₁ cw_shutdown_cmd (ap command d₁) 500 m (omega arith)).1,
      a.1,
      (hold_quiet w₂ cw_switch_on_cmd (ap command d₂) 499 (hold 501 w₁ m) (omega (arith, a))).1
          ∙ a.1,
      b.1,
      (hold_quiet w₃ cw_enable_op_cmd (ap command d₃) 499 r (omega (arith, b))).1 ∙ b.1,
      e.1,
      f.1,
      f.0,
    )
