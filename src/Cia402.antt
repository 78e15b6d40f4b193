-- ===== src/Cia402.antt =====
-- cia402/cia402.h and cia402/cia402.cpp: the drive state that a status word encodes, the control
-- word for a state, and the state machine that is called once in each communication cycle.
pub mod Decode
pub mod Machine
pub mod Timing
mod Tests
use e_rob_soem_linux.Base.{
  ℕ, ◌+◌, ◌%◌, ◌^◌, bit_and, Bool, true, false, ltb, leb, ◌==◌, if◌then◌else◌,
}
use e_rob_soem_linux.Base.Int.{ℤ, pos}

-- `CIA402_STATE`
pub data State : Type 0 where
  not_ready_to_switch_on sw_on_disabled ready_to_switch_on switched_on : State
  operation_enabled quick_stop_active fault_reaction_active fault unknown : State

abbrev pub sw_state_mask : ℕ
sw_state_mask = 0x6f

abbrev pub cw_fault_reset_cmd : ℕ
cw_fault_reset_cmd = 0x80

abbrev pub cw_quick_stop_cmd : ℕ
cw_quick_stop_cmd = 0x02

abbrev pub cw_shutdown_cmd : ℕ
cw_shutdown_cmd = 0x06

abbrev pub cw_switch_on_cmd : ℕ
cw_switch_on_cmd = 0x07

abbrev pub cw_enable_op_cmd : ℕ
cw_enable_op_cmd = 0x0f

-- The `switch` of `cia402_decode_state` on the masked status word.
state_of_code : ℕ → State
state_of_code w =
    if w == 0x00
    then not_ready_to_switch_on
    else if w == 0x40
    then sw_on_disabled
    else if w == 0x21
    then ready_to_switch_on
    else if w == 0x23
    then switched_on
    else if w == 0x27
    then operation_enabled
    else if w == 0x07
    then quick_stop_active
    else if w == 0x0f
    then fault_reaction_active
    else if w == 0x08
    then fault
    else unknown

unfoldable pub decode_state : ℕ → State
unfolding state_of_code
decode_state status_word = state_of_code (bit_and status_word sw_state_mask)

unfoldable pub control_word : State → ℕ
control_word not_ready_to_switch_on = 0x0000
control_word sw_on_disabled = cw_shutdown_cmd
control_word ready_to_switch_on = cw_switch_on_cmd
control_word switched_on = cw_enable_op_cmd
control_word operation_enabled = cw_enable_op_cmd
control_word quick_stop_active = cw_quick_stop_cmd
control_word fault_reaction_active = cw_quick_stop_cmd
control_word fault = cw_fault_reset_cmd
control_word unknown = 0x0000

-- `rxpdo_t`, what is sent to the drive; `target_velocity` is an int32.
pub record RxPdo : Type 0 where
  pub controlword : ℕ
  pub target_velocity : ℤ
  pub mode_of_operation : ℕ
  pub padding : ℕ

-- `txpdo_t`, what the drive reports.
pub record TxPdo : Type 0 where
  pub statusword : ℕ
  pub actual_position : ℤ
  pub actual_velocity : ℤ
  pub actual_torque : ℤ

-- `cia402_motor_t`
pub record Motor : Type 0 where
  pub state : State
  pub rxpdo : RxPdo
  pub txpdo : TxPdo
  pub step : ℕ
  pub faulted : Bool
  pub op_enabled : Bool
  pub ec_connected : Bool

abbrev set_controlword : Motor → ℕ → RxPdo
set_controlword m w = let r = m.rxpdo in record r { controlword = w }

-- `mode_of_operation` is assigned to a `uint8_t`.
unfoldable pub init_motor : Motor → ℕ → Motor
init_motor m mode = record m {
  rxpdo = record {
    controlword = cw_fault_reset_cmd;
    target_velocity = pos 0;
    mode_of_operation = mode % 256;
    padding = 0;
  };
  state = not_ready_to_switch_on;
  faulted = false;
  op_enabled = false;
  ec_connected = true;
  step = 0;
}

unfoldable pub lost_motor : Motor → Motor
lost_motor m = record m {
  rxpdo = record {
    controlword = 0;
    target_velocity = pos 0;
    mode_of_operation = m.rxpdo.mode_of_operation;
    padding = 0;
  };
  state = not_ready_to_switch_on;
  faulted = true;
  op_enabled = false;
  ec_connected = false;
  step = 0;
}

-- The three waiting states: the command goes out at every 500th call.
abbrev wait_then : ℕ → Motor → Motor
wait_then cmd m =
    let m' = record m { faulted = false; op_enabled = false } in
    if leb 500 m.step then record m' { rxpdo = set_controlword m cmd; step = 0 } else m'

-- `if (motor->step < 2000) motor->step++;`
abbrev advance : Motor → Motor
advance m = record m { step = if ltb m.step 2000 then m.step + 1 else m.step }

-- The chain of tests on `motor->state`, with the two early returns.
dispatch : State → Motor → Motor
dispatch unknown m = record m { rxpdo = set_controlword m 0; op_enabled = false; step = 0 }
dispatch quick_stop_active m = record m {
  rxpdo = set_controlword m cw_quick_stop_cmd;
  op_enabled = false;
  step = 0;
}
dispatch fault_reaction_active m = record m {
  rxpdo = set_controlword m cw_quick_stop_cmd;
  op_enabled = false;
  step = 0;
}
dispatch not_ready_to_switch_on m = advance (record m {
  faulted = true;
  op_enabled = false;
  rxpdo = set_controlword m cw_fault_reset_cmd;
  step = 0;
})
dispatch fault m = advance (record m {
  faulted = true;
  op_enabled = false;
  rxpdo = set_controlword m cw_fault_reset_cmd;
  step = 0;
})
dispatch sw_on_disabled m = advance (wait_then cw_shutdown_cmd m)
dispatch ready_to_switch_on m = advance (wait_then cw_switch_on_cmd m)
dispatch switched_on m = advance (wait_then cw_enable_op_cmd m)
dispatch operation_enabled m =
    advance
      (record m { faulted = false; op_enabled = true; rxpdo = set_controlword m cw_enable_op_cmd })

unfoldable pub state_machine : Motor → Motor
unfolding dispatch
state_machine m = let s = decode_state m.txpdo.statusword in dispatch s (record m { state = s })
