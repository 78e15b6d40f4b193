-- ===== src/Cia402/Decode.antt =====
-- Which status words cia402_decode_state takes for which drive state.
use e_rob_soem_linux.Base.{ℕ, bit_and, ◌≡◌, ◌≢◌, ◌↔◌, refl, arith}
use e_rob_soem_linux.Cia402.{
  State, not_ready_to_switch_on, sw_on_disabled, ready_to_switch_on, switched_on, operation_enabled,
  quick_stop_active, fault_reaction_active, fault, unknown, sw_state_mask, state_of_code,
  decode_state,
}

-- The values of the enumerators of `CIA402_STATE`.
abbrev pub code : State → ℕ
code not_ready_to_switch_on = 0x00
code sw_on_disabled = 0x40
code ready_to_switch_on = 0x21
code switched_on = 0x23
code operation_enabled = 0x27
code quick_stop_active = 0x07
code fault_reaction_active = 0x0f
code fault = 0x08
code unknown = 0xffff

code_of_state : (w : ℕ) (s : State) → s ≢ unknown → state_of_code w ≡ s → w ≡ code s
unfolding state_of_code
code_of_state w s h e = ground arith

state_of_code-code : (s : State) → state_of_code (code s) ≡ s
unfolding state_of_code
state_of_code-code unknown = refl
state_of_code-code fault = refl
state_of_code-code fault_reaction_active = refl
state_of_code-code _ = refl

-- A status word decodes to a state other than `unknown` exactly when its masked bits are the
-- value that the enumeration gives to that state.
pub decode_state_iff :
    (w : ℕ) (s : State) → s ≢ unknown → (decode_state w ≡ s) ↔ (bit_and w sw_state_mask ≡ code s)
unfolding decode_state
decode_state_iff w s h =
    (code_of_state (bit_and w sw_state_mask) s h, λ e. rw e (state_of_code-code s))
