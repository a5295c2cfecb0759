-- ===== src/Redirect.antt =====
-- `EscRedirectChar` of library/src/main/jni/sercd.c: one byte from the client goes to the device, or
-- into the command that is being collected in `IACCommand`. `none` is a fault: a failed `assert`, or
-- a store outside of the array.
pub mod Size
pub mod Room
pub mod Command
pub mod Stream
pub mod Escaped
pub mod Opening
pub mod Overlong
pub mod Request
use serial_port.Prelude.{
  ℕ, ◌+◌, not, ◌&&◌, ◌||◌, Option, none, some, ◌==◌, ltb, if◌then◌else◌, get_or, set, ◌>>◌,
}
use serial_port.Telnet.{
  tniac, tnsb, tn_transmit_binary, tncas_signature, tncas_set_baudrate, tncas_flowcontrol_suspend,
  tncas_flowcontrol_resume,
}
use serial_port.State.{
  State, Port, Config, IacState, iac_normal, iac_received, iac_com_receiving, add_dev, tmp_str_len,
}
use serial_port.Iac.{handle_iac_command, handle_iac_command_bytes}

abbrev pub esc_redirect_char_bytes_sock_b : ℕ → ℕ
esc_redirect_char_bytes_sock_b = handle_iac_command_bytes

abbrev pub esc_redirect_char_bytes_dev_b : ℕ
esc_redirect_char_bytes_dev_b = 1

module _ {P : Type 0} where
  -- `IACCommand[IACPos] = C; IACPos++;`
  unfoldable pub collect : ℕ → State P → Option (State P)
  collect c s =
      if ltb s.iac_pos tmp_str_len
      then some (record s { iac_command = set s.iac_command s.iac_pos c; iac_pos = s.iac_pos + 1 })
      else none

  -- The same under `if (IACPos < sizeof(IACCommand))`.
  unfoldable pub collect_if_room : ℕ → State P → Option (State P)
  unfolding collect
  collect_if_room c s = if ltb s.iac_pos tmp_str_len then collect c s else some s

  abbrev pub set_escape : IacState → State P → Option (State P)
  set_escape e s = some (record s { iac_escape = e })

  abbrev pub set_sig_escape : IacState → State P → Option (State P)
  set_sig_escape e s = some (record s { iac_sig_escape = e })

  abbrev pub set_redirect_last : ℕ → State P → Option (State P)
  set_redirect_last c s = some (record s { redirect_last = c })

  unfoldable pub redirect_normal : ℕ → State P → Option (State P)
  redirect_normal c s =
      if c == tniac
      then set_escape iac_received s
      else if not (s.tnstate tn_transmit_binary).is_do && (c == 0 && s.redirect_last == 13)
      then some s
      else add_dev c s

  unfoldable pub start_command : ℕ → State P → Option (State P)
  start_command c s = some (record s {
    iac_command = set (set s.iac_command 0 tniac) 1 c;
    iac_pos = 2;
    iac_escape = iac_com_receiving;
    iac_sig_escape = iac_normal;
  })

  unfoldable pub redirect_received : ℕ → State P → Option (State P)
  unfolding start_command
  redirect_received c s =
      if c == tniac then (add_dev c >> set_escape iac_normal) s else start_command c s

module _ (cfg : Config) (p : Port) where
  open p use {Handle}

  -- `HandleIACCommand(SockB, PortFd, IACCommand, IACPos); IACEscape = IACNormal;`
  unfoldable pub run_command : State Handle → Option (State Handle)
  run_command = do λ s. handle_iac_command cfg p s.iac_command s.iac_pos s; set_escape iac_normal

  -- A command of a fixed size is run when its last byte is there.
  unfoldable pub collect_up_to : ℕ → ℕ → State Handle → Option (State Handle)
  unfolding run_command collect
  collect_up_to size c = do collect c; λ s. if s.iac_pos == size then run_command s else some s

  unfoldable pub signature_byte : IacState → ℕ → State Handle → Option (State Handle)
  unfolding run_command collect_if_room
  signature_byte iac_normal c s =
      if c == tniac then set_sig_escape iac_received s else collect_if_room c s
  signature_byte iac_com_receiving c s = set_sig_escape iac_normal s
  signature_byte iac_received c s =
      if c == tniac
      then (collect_if_room c >> set_sig_escape iac_normal) s
      else (collect_if_room tniac >> (collect_if_room c >> run_command)) s

  unfoldable pub redirect_command : ℕ → State Handle → Option (State Handle)
  unfolding collect_up_to signature_byte collect
  redirect_command c s =
      if get_or s.iac_command 1 0 == tnsb
      then (if ltb s.iac_pos 4
          then collect c s
          else if get_or s.iac_command 3 0 == tncas_signature
          then signature_byte s.iac_sig_escape c s
          else if get_or s.iac_command 3 0 == tncas_set_baudrate
          then collect_up_to 10 c s
          else if get_or s.iac_command 3 0 == tncas_flowcontrol_suspend
              || get_or s.iac_command 3 0 == tncas_flowcontrol_resume
          then collect_up_to 6 c s
          else collect_up_to 7 c s)
      else collect_up_to 3 c s

  unfoldable pub redirect_by : IacState → ℕ → State Handle → Option (State Handle)
  unfolding redirect_normal redirect_received redirect_command
  redirect_by iac_normal = redirect_normal
  redirect_by iac_received = redirect_received
  redirect_by iac_com_receiving = redirect_command

  unfoldable pub esc_redirect_char : ℕ → State Handle → Option (State Handle)
  unfolding redirect_by
  esc_redirect_char c = do λ s. redirect_by s.iac_escape c s; set_redirect_last c
