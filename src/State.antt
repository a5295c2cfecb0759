-- ===== src/State.antt =====
-- The state of the redirector: the file-scope variables of library/src/main/jni/sercd.c, the static
-- locals of `EscWriteChar` and `EscRedirectChar`, the two buffers that the main function passes by
-- pointer, and the port behind its handle; and the interface of the port's operations.
pub mod Steps
use serial_port.Prelude.{ℕ, Bool, false, List, Option, none, some, ◌==◌, if◌then◌else◌}
use serial_port.Buffer.{Buffer, add_to_buffer}

pub data IacState : Type 0 where
  iac_normal iac_received iac_com_receiving : IacState

-- One entry of `tnstate`. The one-bit fields are only set to 0 or 1 and tested.
pub record TnState : Type 0 where
  pub sent_will : Bool
  pub sent_do : Bool
  pub sent_wont : Bool
  pub sent_dont : Bool
  pub is_will : Bool
  pub is_do : Bool

abbrev pub tn_reset : TnState
tn_reset = record {
  sent_will = false;
  sent_do = false;
  sent_wont = false;
  sent_dont = false;
  is_will = false;
  is_do = false;
}

-- What the command handlers ask of the serial port: the functions that sercd.c declares and unix.c
-- defines.
pub record Port : Type 1 where
  pub Handle : Type 0
  pub get_port_speed : Handle → ℕ
  pub get_port_data_size : Handle → ℕ
  pub get_port_parity : Handle → ℕ
  pub get_port_stop_size : Handle → ℕ
  pub get_port_flow_control : Handle → ℕ → ℕ
  pub get_modem_state : Handle → ℕ → ℕ
  pub set_port_speed : ℕ → Handle → Handle
  pub set_port_data_size : ℕ → Handle → Handle
  pub set_port_parity : ℕ → Handle → Handle
  pub set_port_stop_size : ℕ → Handle → Handle
  pub set_port_flow_control : ℕ → Handle → Handle
  pub set_break : Bool → Handle → Handle
  pub set_flush : ℕ → Handle → Handle
  pub open_port : Handle → Option Handle
  pub close_port : Handle → Handle

-- What the build and the command line fix: `sizeof(unsigned long)` of the target, the text that
-- `snprintf` leaves in `SigStr` before it is cut to the array, and Cisco compatibility.
pub record Config : Type 0 where
  pub sizeof_ulong : ℕ
  pub signature : List ℕ
  pub cisco_ios_compatible : Bool

-- `char LogStr[TmpStrLen]`, and the size of `IACCommand`
abbrev pub tmp_str_len : ℕ
tmp_str_len = 255

pub record State (P : Type 0) : Type 0 where
  pub to_net : Buffer
  pub to_dev : Buffer
  pub iac_escape : IacState
  pub iac_sig_escape : IacState
  pub iac_command : List ℕ
  pub iac_pos : ℕ
  pub modem_state_mask : ℕ
  pub line_state_mask : ℕ
  pub modem_state : ℕ
  pub break_signaled : Bool
  pub input_flow : Bool
  pub port_control_enable : Bool
  pub tnstate : ℕ → TnState
  pub write_last : ℕ  -- `Last` of `EscWriteChar`
  pub redirect_last : ℕ  -- `Last` of `EscRedirectChar`
  pub port : P

-- `tnstate[option]` is assigned.
abbrev pub update : (ℕ → TnState) → ℕ → TnState → ℕ → TnState
update tn option t o = if o == option then t else tn o

module _ {P : Type 0} where
  unfoldable pub add_net : ℕ → State P → Option (State P)
  add_net c s = elim (add_to_buffer c s.to_net) [
    | none ↦ none
    | some b ↦ some (record s { to_net = b })
  ]

  unfoldable pub add_dev : ℕ → State P → Option (State P)
  add_dev c s = elim (add_to_buffer c s.to_dev) [
    | none ↦ none
    | some b ↦ some (record s { to_dev = b })
  ]

  abbrev pub set_tnstate : ℕ → TnState → State P → State P
  set_tnstate option t s = record s { tnstate = update s.tnstate option t }

  unfoldable pub init_telnet_state_machine : State P → State P
  init_telnet_state_machine s = record s { tnstate = λ o. tn_reset }
