-- ===== src/Cia402/Machine.antt =====
-- What cia402_state_machine does over a sequence of communication cycles.
use e_rob_soem_linux.Base.{ℕ, ◌≤◌, ◌≡◌, ◌↔◌, ◌⊎◌, refl, arith, Bool, true, false, List, [], ◌∷◌}
use e_rob_soem_linux.Cia402.{
  State, not_ready_to_switch_on, operation_enabled, quick_stop_active, fault_reaction_active, fault,
  unknown, cw_fault_reset_cmd, cw_quick_stop_cmd, cw_shutdown_cmd, cw_switch_on_cmd,
  cw_enable_op_cmd, Motor, dispatch, decode_state, init_motor, lost_motor, state_machine,
}

-- One communication cycle: the drive's status word arrives, and the state machine is called.
unfoldable pub cycle : ℕ → Motor → Motor
cycle w m = let t = m.txpdo in state_machine (record m { txpdo = record t { statusword = w } })

-- The cycles with these status words, in order.
unfoldable pub cycles : List ℕ → Motor → Motor
unfolding cycle
cycles [] m = m
cycles (w ∷ ws) m = cycles ws (cycle w m)

-- What the flag `faulted` becomes: three of the states leave it as it was.
abbrev pub faulted_after : State → Bool → Bool
faulted_after not_ready_to_switch_on old = true
faulted_after fault old = true
faulted_after quick_stop_active old = old
faulted_after fault_reaction_active old = old
faulted_after unknown old = old
faulted_after _ old = false

dispatch_flags :
    (s : State) (m : Motor)
    → m.state ≡ s
    → ((dispatch s m).state ≡ s)
      × (((dispatch s m).op_enabled ≡ true) ↔ (s ≡ operation_enabled))
      × ((dispatch s m).faulted ≡ faulted_after s m.faulted)
      × ((dispatch s m).ec_connected ≡ m.ec_connected)
unfolding dispatch
dispatch_flags unknown m e = ground arith
dispatch_flags _ m e = ground arith

-- After a call the state is the decoded one; `operation_enabled` is set exactly in that state;
-- `faulted` is set in the fault and not-ready states, cleared in the four states of the start-up
-- sequence and kept in the others; `ec_connected` is not touched.
pub state_machine_flags :
    (m : Motor)
    → let s = decode_state m.txpdo.statusword in
      ((state_machine m).state ≡ s)
      × (((state_machine m).op_enabled ≡ true) ↔ (s ≡ operation_enabled))
      × ((state_machine m).faulted ≡ faulted_after s m.faulted)
      × ((state_machine m).ec_connected ≡ m.ec_connected)
unfolding state_machine
state_machine_flags m =
    let s = decode_state m.txpdo.statusword in dispatch_flags s (record m { state = s }) refl

-- The six control words that the program ever sends.
pub record IsValid (m : Motor) : Type 0 where
  pub step_bounded : m.step ≤ 2000
  pub one_flag : m.op_enabled ≡ true → m.faulted ≡ false
  pub enabled_command : m.op_enabled ≡ true → m.rxpdo.controlword ≡ cw_enable_op_cmd
  pub known_command :
      (m.rxpdo.controlword ≡ 0)
      ⊎ (m.rxpdo.controlword ≡ cw_quick_stop_cmd)
      ⊎ (m.rxpdo.controlword ≡ cw_shutdown_cmd)
      ⊎ (m.rxpdo.controlword ≡ cw_switch_on_cmd)
      ⊎ (m.rxpdo.controlword ≡ cw_enable_op_cmd)
      ⊎ (m.rxpdo.controlword ≡ cw_fault_reset_cmd)

init_motor-IsValid : (m : Motor) (mode : ℕ) → IsValid (init_motor m mode)
unfolding init_motor
init_motor-IsValid m mode = ground arith

lost_motor-IsValid : (m : Motor) → IsValid (lost_motor m)
unfolding lost_motor
lost_motor-IsValid m = ground arith

dispatch-IsValid : (s : State) (m : Motor) → IsValid m → IsValid (dispatch s m)
unfolding dispatch
dispatch-IsValid unknown m v = ground arith
dispatch-IsValid _ m v = ground arith

cycle-IsValid : (w : ℕ) (m : Motor) → IsValid m → IsValid (cycle w m)
unfolding cycle state_machine
cycle-IsValid w m v = dispatch-IsValid (decode_state w) _ (record {
  step_bounded = v.step_bounded;
  one_flag = v.one_flag;
  enabled_command = v.enabled_command;
  known_command = v.known_command;
})

cycles-IsValid : (ws : List ℕ) (m : Motor) → IsValid m → IsValid (cycles ws m)
unfolding cycles
cycles-IsValid [] m v = v
cycles-IsValid (w ∷ ws) m v = cycles-IsValid ws (cycle w m) (cycle-IsValid w m v)

-- From a motor just initialised, or put into its safe mode after lost communication, every
-- sequence of status words keeps the step counter at most 2000, never has both `faulted` and
-- `operation_enabled`, sends the enable command whenever `operation_enabled` is set, and sends no
-- control word but the six known ones.
pub cycles_safe :
    (ws : List ℕ) (m : Motor) (mode : ℕ)
    → IsValid (cycles ws (init_motor m mode)) × IsValid (cycles ws (lost_motor m))
cycles_safe ws m mode = (
  cycles-IsValid ws (init_motor m mode) (init_motor-IsValid m mode),
  cycles-IsValid ws (lost_motor m) (lost_motor-IsValid m),
)
