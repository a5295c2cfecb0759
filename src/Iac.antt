-- ===== src/Iac.antt =====
-- `HandleIACCommand` of library/src/main/jni/sercd.c: the negotiation of Telnet options, and the way
-- into the COM port control commands.
pub mod Room
pub mod Negotiates
pub mod Negotiation
pub mod Agreement
use serial_port.Prelude.{
  ℕ, Bool, true, false, ◌||◌, Option, some, List, ◌==◌, if◌then◌else◌, get_or, ◌>>◌,
}
use serial_port.Telnet.{
  tnsb, tnwill, tnwont, tndo, tndont, tn_transmit_binary, tn_echo, tn_suppress_go_ahead,
  tncom_port_option,
}
use serial_port.State.{State, TnState, Port, Config, set_tnstate}
use serial_port.Send.{max_of, send_telnet_option, send_telnet_option_bytes}
use serial_port.Cpc.{handle_cpc_command, handle_cpc_command_bytes}

abbrev pub handle_iac_command_bytes : ℕ → ℕ
handle_iac_command_bytes sizeof_ulong =
    max_of (handle_cpc_command_bytes sizeof_ulong) send_telnet_option_bytes

-- The options that the `switch` statements of WILL and DO name beside the COM port option.
abbrev pub is_plain_option : ℕ → Bool
is_plain_option o = o == tn_transmit_binary || (o == tn_echo || o == tn_suppress_go_ahead)

abbrev pub set_is_do : Bool → TnState → TnState
set_is_do b t = record t { is_do = b }

abbrev pub set_is_will : Bool → TnState → TnState
set_is_will b t = record t { is_will = b }

-- What the client was sent about an option is settled by its answer.
abbrev pub settle_do : TnState → TnState
settle_do t = record t { sent_do = false; sent_dont = false }

abbrev pub settle_will : TnState → TnState
settle_will t = record t { sent_will = false; sent_wont = false }

module _ {P : Type 0} where
  abbrev pub modify_tnstate : (TnState → TnState) → ℕ → State P → Option (State P)
  modify_tnstate f option s = some (set_tnstate option (f (s.tnstate option)) s)

  abbrev pub enable_port_control : State P → Option (State P)
  enable_port_control s = some (record s { port_control_enable = true })

  -- `if (!tnstate[o].sent_do) SendTelnetOption(SockB, TNDO, o); tnstate[o].is_do = 1;`
  unfoldable pub accept_will : ℕ → State P → Option (State P)
  accept_will option = do
    λ s. if (s.tnstate option).sent_do then some s else send_telnet_option tndo option s
    modify_tnstate (set_is_do true) option

  unfoldable pub refuse_will : ℕ → State P → Option (State P)
  refuse_will option = do send_telnet_option tndont option; modify_tnstate (set_is_do false) option

  unfoldable pub handle_will : ℕ → State P → Option (State P)
  unfolding accept_will refuse_will
  handle_will option = do
    λ s.
        if option == tncom_port_option
        then (enable_port_control >> accept_will option) s
        else if is_plain_option option
        then accept_will option s
        else refuse_will option s
    modify_tnstate settle_do option

  unfoldable pub accept_do : ℕ → State P → Option (State P)
  accept_do option = do
    λ s. if (s.tnstate option).sent_will then some s else send_telnet_option tnwill option s
    modify_tnstate (set_is_will true) option

  unfoldable pub refuse_do : ℕ → State P → Option (State P)
  refuse_do option = do send_telnet_option tnwont option; modify_tnstate (set_is_will false) option

  unfoldable pub handle_do : ℕ → State P → Option (State P)
  unfolding accept_do refuse_do
  handle_do option = do
    λ s.
        if option == tncom_port_option
        then (enable_port_control >> accept_do option) s
        else if is_plain_option option
        then accept_do option s
        else refuse_do option s
    modify_tnstate settle_will option

  unfoldable pub handle_dont : ℕ → State P → Option (State P)
  handle_dont option = do
    λ s.
        if (s.tnstate option).is_will
        then (send_telnet_option tnwont option >> modify_tnstate (set_is_will false) option) s
        else some s
    modify_tnstate settle_will option

  unfoldable pub handle_wont : ℕ → State P → Option (State P)
  handle_wont option = do
    λ s.
        if (s.tnstate option).is_do
        then (send_telnet_option tndont option >> modify_tnstate (set_is_do false) option) s
        else some s
    modify_tnstate settle_do option

module _ (cfg : Config) (p : Port) where
  open p use {Handle}

  unfoldable pub handle_suboption : List ℕ → ℕ → State Handle → Option (State Handle)
  handle_suboption command csize s =
      if (s.tnstate (get_or command 2 0)).is_will || (s.tnstate (get_or command 2 0)).is_do
      then (if get_or command 2 0 == tncom_port_option
          then handle_cpc_command cfg p command csize s
          else some s)
      else some s

  unfoldable pub handle_iac_command : List ℕ → ℕ → State Handle → Option (State Handle)
  unfolding handle_suboption
  handle_iac_command command csize s =
      if get_or command 1 0 == tnsb
      then handle_suboption command csize s
      else if get_or command 1 0 == tnwill
      then handle_will (get_or command 2 0) s
      else if get_or command 1 0 == tndo
      then handle_do (get_or command 2 0) s
      else if get_or command 1 0 == tndont
      then handle_dont (get_or command 2 0) s
      else if get_or command 1 0 == tnwont
      then handle_wont (get_or command 2 0) s
      else some s
