-- ===== src/Cia402/Tests.antt =====
-- Runs of the drive state machine, and the theorems at concrete motors.
use e_rob_soem_linux.Base.{ℕ, ◌≡◌, refl, ◌↔◌, bit_and, true, false, List, [], ◌∷◌}
use e_rob_soem_linux.Base.Int.{pos}
use e_rob_soem_linux.Cia402.{
  Motor, not_ready_to_switch_on, sw_on_disabled, operation_enabled, fault, unknown, sw_state_mask,
  decode_state, init_motor, lost_motor, state_machine, cw_shutdown_cmd, cw_switch_on_cmd,
  cw_enable_op_cmd, control_word,
}
use e_rob_soem_linux.Cia402.Decode.{code, decode_state_iff}
use e_rob_soem_linux.Cia402.Machine.{
  faulted_after, state_machine_flags, IsValid, cycle, cycles, cycles_safe,
}
use e_rob_soem_linux.Cia402.Timing.{hold, start_up}

-- A motor whose drive reports the status word 0x1237, which decodes to `operation_enabled`.
abbrev motor : Motor
motor = record {
  state = unknown;
  rxpdo = record {
    controlword = 0x1f;
    target_velocity = pos 9;
    mode_of_operation = 9;
    padding = 0;
  };
  txpdo = record {
    statusword = 0x1237;
    actual_position = pos 0;
    actual_velocity = pos 0;
    actual_torque = pos 0;
  };
  step = 0;
  faulted = true;
  op_enabled = false;
  ec_connected = true;
}

decode_runs : decode_state 0x1237 ≡ operation_enabled
unfolding decode_state
decode_runs = refl

safe_words : (control_word not_ready_to_switch_on ≡ 0) × (control_word fault ≡ 0x80)
unfolding control_word
safe_words = (refl, refl)

decode_state_iff_example :
    (decode_state 0x0250 ≡ sw_on_disabled) ↔ (bit_and 0x0250 sw_state_mask ≡ code sw_on_disabled)
decode_state_iff_example = decode_state_iff 0x0250 sw_on_disabled (λ e. cc)

state_machine_flags_example :
    let s = decode_state motor.txpdo.statusword in
    ((state_machine motor).state ≡ s)
    × (((state_machine motor).op_enabled ≡ true) ↔ (s ≡ operation_enabled))
    × ((state_machine motor).faulted ≡ faulted_after s true)
    × ((state_machine motor).ec_connected ≡ true)
state_machine_flags_example = state_machine_flags motor

abbrev words : List ℕ
words = 0x0250 ∷ 0x0231 ∷ 0x0237 ∷ 0x0218 ∷ []

cycles_safe_example :
    IsValid (cycles words (init_motor motor 9)) × IsValid (cycles words (lost_motor motor))
cycles_safe_example = cycles_safe words motor 9

start_up_example :
    let disabled = hold 501 0x0250 motor in
    let ready = hold 500 0x0231 disabled in
    let on = hold 500 0x0233 ready in
    let running = cycle 0x0237 on in
    ((hold 500 0x0250 motor).rxpdo.controlword ≡ 0x1f)
    × (disabled.rxpdo.controlword ≡ cw_shutdown_cmd)
    × ((hold 499 0x0231 disabled).rxpdo.controlword ≡ cw_shutdown_cmd)
    × (ready.rxpdo.controlword ≡ cw_switch_on_cmd)
    × ((hold 499 0x0233 ready).rxpdo.controlword ≡ cw_switch_on_cmd)
    × (on.rxpdo.controlword ≡ cw_enable_op_cmd)
    × (running.rxpdo.controlword ≡ cw_enable_op_cmd)
    × (running.op_enabled ≡ true)
unfolding decode_state
start_up_example = start_up 0x0250 0x0231 0x0233 0x0237 motor refl refl refl refl refl
