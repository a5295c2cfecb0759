-- ===== src/Send.antt =====
-- The functions of library/src/main/jni/sercd.c that write to the client: escaping, Telnet options,
-- and the COM port control replies.
pub mod Room
pub mod Wire
use serial_port.Prelude.{
  ℕ, zero, suc, ◌+◌, ◌-◌, ◌*◌, ◌/◌, ◌%◌, ◌^◌, true, not, ◌&&◌, Option, none, some, List, ◌∷◌, ◌==◌,
  leb, ltb, if◌then◌else◌, length, replicate, ◌>>◌, for_each,
}
use serial_port.Telnet.{
  tnse, tnsb, tnwill, tndo, tniac, tn_transmit_binary, tn_echo, tn_suppress_go_ahead,
  tncom_port_option, tnasc_signature, tnasc_set_baudrate,
}
use serial_port.State.{State, add_net, set_tnstate}

-- How much each function may add to the client's buffer, as the source declares it.
abbrev pub esc_write_char_bytes : ℕ
esc_write_char_bytes = 2

abbrev pub send_signature_bytes : ℕ
send_signature_bytes = 6 + 2 * 255

abbrev pub send_telnet_option_bytes : ℕ
send_telnet_option_bytes = 3

abbrev pub send_telnet_initial_options_bytes : ℕ
send_telnet_initial_options_bytes = send_telnet_option_bytes * 3

abbrev pub send_baud_rate_bytes : ℕ → ℕ
send_baud_rate_bytes sizeof_ulong = 6 + 2 * sizeof_ulong

abbrev pub send_cpc_byte_command_bytes : ℕ
send_cpc_byte_command_bytes = 8

-- The macro `MAX`.
abbrev pub max_of : ℕ → ℕ → ℕ
max_of x y = if ltb y x then x else y

-- The bytes of `NBR = htonl(BR)` in memory on a little-endian target: the four of the number in
-- network order, then zeros up to the size of `unsigned long`.
abbrev pub network_bytes : ℕ → ℕ → List ℕ
network_bytes sizeof_ulong br =
    (br / 2 ^ 24 % 256)
    ∷ (br / 2 ^ 16 % 256)
    ∷ (br / 2 ^ 8 % 256)
    ∷ (br % 256)
    ∷ replicate (sizeof_ulong - 4) 0

module _ {P : Type 0} where
  -- What goes before the byte: an IAC is doubled, and outside of binary mode a carriage return that
  -- no line feed follows is padded with a NUL.
  unfoldable pub esc_write_prefix : ℕ → State P → Option (State P)
  esc_write_prefix c s =
      if c == tniac
      then add_net c s
      else if not (c == 10) && (not (s.tnstate tn_transmit_binary).is_will && s.write_last == 13)
      then add_net 0 s
      else some s

  unfoldable pub esc_write_char : ℕ → State P → Option (State P)
  unfolding esc_write_prefix
  esc_write_char c = do esc_write_prefix c; add_net c; λ s. some (record s { write_last = c })

  unfoldable pub send_str : List ℕ → State P → Option (State P)
  unfolding for_each
  send_str str = for_each esc_write_char str

  unfoldable pub send_signature : List ℕ → State P → Option (State P)
  send_signature sig s =
      if leb (length sig) 255
      then (do
        add_net tniac
        add_net tnsb
        add_net tncom_port_option
        add_net tnasc_signature
        send_str sig
        add_net tniac
        add_net tnse)
          s
      else none

  unfoldable pub send_telnet_option : ℕ → ℕ → State P → Option (State P)
  send_telnet_option command option = do add_net tniac; add_net command; add_net option

  abbrev pub mark_sent_will : ℕ → State P → Option (State P)
  mark_sent_will option s =
      some (set_tnstate option (record (s.tnstate option) { sent_will = true }) s)

  abbrev pub mark_sent_do : ℕ → State P → Option (State P)
  mark_sent_do option s = some (set_tnstate option (record (s.tnstate option) { sent_do = true }) s)

  unfoldable pub send_telnet_initial_options : State P → Option (State P)
  send_telnet_initial_options = do
    send_telnet_option tnwill tn_transmit_binary
    mark_sent_will tn_transmit_binary
    send_telnet_option tndo tn_transmit_binary
    mark_sent_do tn_transmit_binary
    send_telnet_option tnwill tn_echo
    mark_sent_will tn_echo
    send_telnet_option tnwill tn_suppress_go_ahead
    mark_sent_will tn_suppress_go_ahead
    send_telnet_option tndo tn_suppress_go_ahead
    mark_sent_do tn_suppress_go_ahead
    send_telnet_option tndo tncom_port_option
    mark_sent_do tncom_port_option

  unfoldable pub send_baud_rate : ℕ → ℕ → State P → Option (State P)
  unfolding for_each
  send_baud_rate sizeof_ulong br = do
    add_net tniac
    add_net tnsb
    add_net tncom_port_option
    add_net tnasc_set_baudrate
    for_each esc_write_char (network_bytes sizeof_ulong br)
    add_net tniac
    add_net tnse

  unfoldable pub send_cpc_byte_command : ℕ → ℕ → State P → Option (State P)
  send_cpc_byte_command command parm = do
    add_net tniac
    add_net tnsb
    add_net tncom_port_option
    add_net command
    esc_write_char parm
    add_net tniac
    add_net tnse
