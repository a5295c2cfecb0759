-- ===== src/Cpc.antt =====
-- `HandleCPCCommand` of library/src/main/jni/sercd.c: the COM port control commands of RFC 2217. Each
-- case of its `switch` is a function. Log lines are left out, but for the copy of a received
-- signature, which may read outside of its array.
pub mod Room
pub mod Requests
pub mod Answer
use serial_port.Prelude.{
  ℕ, zero, suc, ◌+◌, ◌*◌, ◌^◌, Bool, true, false, ◌&&◌, ◌||◌, Option, none, some, List, [], ◌∷◌,
  ◌==◌, leb, if◌then◌else◌, get_or, take, drop, bit_and, ◌>>◌,
}
use serial_port.Telnet.{
  tncas_signature, tncas_set_baudrate, tncas_set_datasize, tncas_set_parity, tncas_set_stopsize,
  tncas_set_control, tncas_flowcontrol_suspend, tncas_flowcontrol_resume, tncas_set_linestate_mask,
  tncas_set_modemstate_mask, tncas_purge_data, tnasc_set_datasize, tnasc_set_parity,
  tnasc_set_stopsize, tnasc_set_control, tnasc_set_linestate_mask, tnasc_set_modemstate_mask,
  tnasc_purge_data, tncom_cmd_flow_req, tncom_cmd_break_req, tncom_cmd_break_on,
  tncom_cmd_break_off, tncom_cmd_dtr_req, tncom_cmd_rts_req, tncom_cmd_inflow_req,
  tncom_cmd_inflow_hardware,
}
use serial_port.State.{State, Port, Config}
use serial_port.Send.{
  max_of, send_signature, send_baud_rate, send_cpc_byte_command, send_signature_bytes,
  send_baud_rate_bytes, send_cpc_byte_command_bytes,
}

-- The bytes that `HandleCPCCommand` may add to the client's buffer, as the source declares it.
abbrev pub handle_cpc_command_bytes : ℕ → ℕ
handle_cpc_command_bytes sizeof_ulong =
    max_of send_signature_bytes
      (max_of (send_baud_rate_bytes sizeof_ulong) send_cpc_byte_command_bytes)

abbrev pub has_nul : List ℕ → Bool
has_nul [] = false
has_nul (c ∷ cs) = c == 0 || has_nul cs

-- `ntohl(*((unsigned long int *) &Command[4]))` on a little-endian target: the value is cut to its
-- four low bytes, whatever the size of `unsigned long`.
abbrev pub network_long : List ℕ → ℕ
network_long command =
    get_or command 4 0 * 2 ^ 24
    + get_or command 5 0 * 2 ^ 16
    + get_or command 6 0 * 2 ^ 8
    + get_or command 7 0

-- The four requests that only ask for a state of the port.
abbrev pub is_flow_request : ℕ → Bool
is_flow_request v =
    v == tncom_cmd_flow_req
    || (v == tncom_cmd_dtr_req || (v == tncom_cmd_rts_req || v == tncom_cmd_inflow_req))

module _ {P : Type 0} where
  abbrev pub with_port : (P → P) → State P → Option (State P)
  with_port f s = some (record s { port = f s.port })

  -- The three settings of one byte: zero asks, anything else sets, and both are answered by the
  -- setting that the port then has.
  unfoldable pub handle_setting : (ℕ → P → P) → (P → ℕ) → ℕ → ℕ → State P → Option (State P)
  handle_setting set_it get_it reply v = do
    λ s. if v == 0 then some s else with_port (set_it v) s
    λ s. send_cpc_byte_command reply (get_it s.port) s

  unfoldable pub handle_linestate_mask : ℕ → State P → Option (State P)
  handle_linestate_mask v = do
    λ s. some (record s { line_state_mask = bit_and v 16 })
    send_cpc_byte_command tnasc_set_linestate_mask (bit_and v 16)

  unfoldable pub handle_modemstate_mask : ℕ → State P → Option (State P)
  handle_modemstate_mask v = do
    λ s. some (record s { modem_state_mask = v })
    send_cpc_byte_command tnasc_set_modemstate_mask v

  abbrev pub set_input_flow : Bool → State P → Option (State P)
  set_input_flow on s = some (record s { input_flow = on })

module _ (cfg : Config) (p : Port) where
  open p use {Handle}

  -- Reading `SigStr` back needs a NUL in what `strncpy` copied: the 254 bytes asked for go past the
  -- end of `Command`, whose last 251 bytes are looked at here. This is for a `CSize` from 6 to 261, at
  -- which the copy stays inside of `SigStr`; the parser passes none below 6 and none above 255.
  unfoldable pub handle_signature : List ℕ → ℕ → State Handle → Option (State Handle)
  handle_signature command csize s =
      if csize == 6
      then send_signature (take 254 cfg.signature) s
      else if has_nul (drop 4 command)
      then some s
      else none

  unfoldable pub handle_set_baudrate : List ℕ → State Handle → Option (State Handle)
  handle_set_baudrate command = do
    λ s.
        if network_long command == 0
        then some s
        else with_port (p.set_port_speed (network_long command)) s
    λ s. send_baud_rate cfg.sizeof_ulong (p.get_port_speed s.port) s

  unfoldable pub set_break_state : Bool → ℕ → State Handle → Option (State Handle)
  set_break_state on reply = do
    with_port (p.set_break on)
    λ s. some (record s { break_signaled = on })
    send_cpc_byte_command tnasc_set_control reply

  -- `FlowControl` after `SetPortFlowControl`
  abbrev pub flow_confirmation : ℕ → Handle → ℕ
  flow_confirmation v port =
      if cfg.cisco_ios_compatible && (leb tncom_cmd_inflow_req v && leb v tncom_cmd_inflow_hardware)
      then 0
      else p.get_port_flow_control port tncom_cmd_flow_req

  unfoldable pub set_flow_control : ℕ → State Handle → Option (State Handle)
  set_flow_control v = do
    with_port (p.set_port_flow_control v)
    λ s. send_cpc_byte_command tnasc_set_control (flow_confirmation v s.port) s

  unfoldable pub handle_set_control : ℕ → State Handle → Option (State Handle)
  handle_set_control v s =
      if is_flow_request v
      then send_cpc_byte_command tnasc_set_control (p.get_port_flow_control s.port v) s
      else if v == tncom_cmd_break_req
      then (if s.break_signaled
          then send_cpc_byte_command tnasc_set_control tncom_cmd_break_on s
          else send_cpc_byte_command tnasc_set_control tncom_cmd_break_off s)
      else if v == tncom_cmd_break_on
      then set_break_state true tncom_cmd_break_on s
      else if v == tncom_cmd_break_off
      then set_break_state false tncom_cmd_break_off s
      else set_flow_control v s

  unfoldable pub handle_purge_data : ℕ → State Handle → Option (State Handle)
  handle_purge_data v = do with_port (p.set_flush v); send_cpc_byte_command tnasc_purge_data v

  unfoldable pub handle_cpc_command : List ℕ → ℕ → State Handle → Option (State Handle)
  handle_cpc_command command csize s =
      if get_or command 3 0 == tncas_signature
      then handle_signature command csize s
      else if get_or command 3 0 == tncas_set_baudrate
      then handle_set_baudrate command s
      else if get_or command 3 0 == tncas_set_datasize
      then handle_setting p.set_port_data_size p.get_port_data_size tnasc_set_datasize
          (get_or command 4 0) s
      else if get_or command 3 0 == tncas_set_parity
      then handle_setting p.set_port_parity p.get_port_parity tnasc_set_parity (get_or command 4 0)
          s
      else if get_or command 3 0 == tncas_set_stopsize
      then handle_setting p.set_port_stop_size p.get_port_stop_size tnasc_set_stopsize
          (get_or command 4 0) s
      else if get_or command 3 0 == tncas_set_control
      then handle_set_control (get_or command 4 0) s
      else if get_or command 3 0 == tncas_set_linestate_mask
      then handle_linestate_mask (get_or command 4 0) s
      else if get_or command 3 0 == tncas_set_modemstate_mask
      then handle_modemstate_mask (get_or command 4 0) s
      else if get_or command 3 0 == tncas_purge_data
      then handle_purge_data (get_or command 4 0) s
      else if get_or command 3 0 == tncas_flowcontrol_suspend
      then set_input_flow false s
      else if get_or command 3 0 == tncas_flowcontrol_resume
      then set_input_flow true s
      else some s
