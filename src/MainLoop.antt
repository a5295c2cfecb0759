-- ===== src/MainLoop.antt =====
-- The main loop of library/src/main/jni/sercd.c in the Android build: which descriptors are waited
-- for, what is done for each event that `SercdSelect` returns, in the order of the source, and the
-- states that the Java side is told of. The results of the system calls are given by a `Poll`.
pub mod Post
pub mod Connection
pub mod Sound
pub mod Traffic
pub mod Safety
pub mod Notice
pub mod Drain
pub mod Tunnel
pub mod Delivery
pub mod Faults
pub mod Overrun
use serial_port.LoopState.{
  Events, IoBytes, Main, Poll, ReadResult, Step, Turn, again, any_event, change_state, connected,
  continue, crash, disconnected, exit, fault, io_result_error, iobytes, min_of, modmask_nodelta, on,
  popped, readbuf_size, received, sercd_select, state_port_opened, state_ready, with_state, ◌>>>◌,
}
use serial_port.Prelude.{
  ℕ, ◌/◌, Bool, true, not, ◌&&◌, ◌||◌, Option, none, some, List, ◌==◌, if◌then◌else◌, bit_and,
  for_each,
}
use serial_port.Telnet.{tnasc_notify_modemstate}
use serial_port.Buffer.{
  init_buffer, buffer_room_left, buffer_has_room_for, is_buffer_empty, get_buffer_string,
  buffer_pop_bytes,
}
use serial_port.State.{State, Port, Config, init_telnet_state_machine}
use serial_port.Send.{
  esc_write_char, esc_write_char_bytes, send_telnet_initial_options, send_cpc_byte_command,
  send_cpc_byte_command_bytes,
}
use serial_port.Redirect.{
  esc_redirect_char, esc_redirect_char_bytes_sock_b, esc_redirect_char_bytes_dev_b,
}

module _ {P : Type 0} where
  -- What the pointers given to `SercdSelect` ask for.
  unfoldable pub requested : Config → Main P → Events
  requested cfg m = record {
    device_in =
        m.device_fd && (buffer_has_room_for m.st.to_net esc_write_char_bytes && m.st.input_flow);
    device_out = m.device_fd && not (is_buffer_empty m.st.to_dev);
    modem_state =
        m.device_fd
        && (m.st.port_control_enable
            && (m.st.input_flow && buffer_has_room_for m.st.to_net send_cpc_byte_command_bytes));
    socket_out = m.out_socket_fd && not (is_buffer_empty m.st.to_net);
    socket_in =
        m.device_fd
        && (buffer_has_room_for m.st.to_dev esc_redirect_char_bytes_dev_b
            && (m.in_socket_fd
                && buffer_has_room_for m.st.to_net
                    (esc_redirect_char_bytes_sock_b cfg.sizeof_ulong)));
    socket_connect = m.l_socket_fd;
  }

module _ (cfg : Config) (p : Port) where
  open p use {Handle}

  unfoldable pub drop_connection : Main Handle → Main Handle
  drop_connection m =
      disconnected (
        if m.device_fd
        then record m { st = record (m.st) { port = p.close_port m.st.port } }
        else m)

  unfoldable pub lose_client : Main Handle → Step Handle
  unfolding drop_connection
  lose_client m = continue (drop_connection (change_state state_ready m))

  -- The bytes that were read go through `body`, one by one.
  abbrev pub deliver :
      (ℕ → State Handle → Option (State Handle)) → Main Handle → Option (List ℕ) → Step Handle
  deliver body m none = fault
  deliver body m (some bs) = with_state m (for_each body bs m.st)

  -- `trybytes` of the read from the device, and what the call returns.
  abbrev pub dev_read : Poll → Main Handle → ReadResult
  dev_read poll m =
      poll.read_dev (min_of readbuf_size (buffer_room_left m.st.to_net / esc_write_char_bytes))

  abbrev pub dev_written : Poll → Main Handle → IoBytes
  dev_written poll m = poll.write_dev (get_buffer_string m.st.to_dev)

  abbrev pub net_written : Poll → Main Handle → IoBytes
  net_written poll m = poll.write_net (get_buffer_string m.st.to_net)

  unfoldable pub serial_input : Poll → Events → Main Handle → Step Handle
  unfolding lose_client for_each io_result_error
  serial_input poll ev m =
      if not ev.device_in
      then on m
      else if not m.device_fd
      then fault
      else if io_result_error (iobytes (dev_read poll m))
      then lose_client m
      else deliver esc_write_char m (received cfg (dev_read poll m))

  unfoldable pub serial_output : Poll → Events → Main Handle → Step Handle
  unfolding lose_client io_result_error
  serial_output poll ev m =
      if not ev.device_out
      then on m
      else if not m.device_fd
      then fault
      else if io_result_error (dev_written poll m)
      then lose_client m
      else on (record m {
        st = record (m.st) { to_dev = buffer_pop_bytes m.st.to_dev (popped (dev_written poll m)) };
      })

  unfoldable pub network_output : Poll → Events → Main Handle → Step Handle
  unfolding lose_client io_result_error
  network_output poll ev m =
      if not ev.socket_out
      then on m
      else if not m.out_socket_fd
      then fault
      else if io_result_error (net_written poll m)
      then lose_client m
      else on (record m {
        st = record (m.st) { to_net = buffer_pop_bytes m.st.to_net (popped (net_written poll m)) };
      })

  -- How much is read from the client: what both buffers have room for in the worst case.
  abbrev pub network_trybytes : State Handle → ℕ
  network_trybytes s =
      min_of
        (min_of readbuf_size
          (buffer_room_left s.to_net / esc_redirect_char_bytes_sock_b cfg.sizeof_ulong))
        (buffer_room_left s.to_dev / esc_redirect_char_bytes_dev_b)

  abbrev pub net_read : Poll → Main Handle → ReadResult
  net_read poll m = poll.read_net (network_trybytes m.st)

  unfoldable pub network_input : Poll → Events → Main Handle → Step Handle
  unfolding lose_client for_each io_result_error
  network_input poll ev m =
      if not ev.socket_in
      then on m
      else if not (m.in_socket_fd && m.device_fd)
      then fault
      else if io_result_error (iobytes (net_read poll m))
      then lose_client m
      else deliver (esc_redirect_char cfg p) m (received cfg (net_read poll m))

  abbrev pub greeted : State Handle → Option (State Handle)
  greeted s =
      send_telnet_initial_options
        (init_telnet_state_machine (record s { to_net = init_buffer s.to_net }))

  unfoldable pub accept_connection : Poll → Events → Main Handle → Step Handle
  accept_connection poll ev m =
      if not ev.socket_connect
      then on m
      else if poll.accept_fails
      then on m
      else if m.in_socket_fd && m.out_socket_fd
      then on m
      else with_state (connected m) (greeted m.st)

  unfoldable pub open_device : Main Handle → Step Handle
  open_device m =
      if m.in_socket_fd && (m.out_socket_fd && not m.device_fd)
      then elim (p.open_port m.st.port) [
        | none ↦ continue (disconnected (change_state state_ready m))
        | some h ↦ on (record (change_state state_port_opened m) {
          device_fd = true;
          st = record (m.st) { port = h; to_dev = init_buffer m.st.to_dev };
        })
      ]
      else on m

  abbrev pub masked_lines : ℕ → State Handle → ℕ
  masked_lines lines s = bit_and (bit_and lines s.modem_state_mask) modmask_nodelta

  abbrev pub new_modem_state : Main Handle → ℕ
  new_modem_state m = p.get_modem_state m.st.port m.st.modem_state

  unfoldable pub notify_modem_state : Events → Main Handle → Step Handle
  notify_modem_state ev m =
      if not ev.modem_state
      then on m
      else if not m.device_fd
      then fault
      else if masked_lines (new_modem_state m) m.st == masked_lines m.st.modem_state m.st
      then on m
      else with_state m (
          send_cpc_byte_command tnasc_notify_modemstate
            (bit_and (new_modem_state m) m.st.modem_state_mask)
            (record (m.st) { modem_state = new_modem_state m }))

  -- What is done when `SercdSelect` returns a number above zero.
  unfoldable pub handle_events : Poll → Events → Main Handle → Step Handle
  handle_events poll ev =
      serial_input poll ev
      >>> (serial_output poll ev
          >>> (network_output poll ev
              >>> (network_input poll ev
                  >>> (accept_connection poll ev >>> (open_device >>> notify_modem_state ev)))))

  abbrev pub end_of_turn : Step Handle → Turn Handle
  end_of_turn (on m) = again m
  end_of_turn (continue m) = again m
  end_of_turn fault = crash

  abbrev pub nothing_to_do : Events → Bool
  nothing_to_do asked = not (
      asked.device_in
      || (asked.device_out || (asked.socket_out || (asked.socket_in || asked.socket_connect))))

  unfoldable pub turn : Poll → Main Handle → Turn Handle
  unfolding handle_events
  turn poll m =
      if nothing_to_do (requested cfg m)
      then exit 0 m
      else if poll.select_failed
      then exit 1 m
      else if any_event (sercd_select (requested cfg m) poll.ready)
      then end_of_turn (handle_events poll (sercd_select (requested cfg m) poll.ready) m)
      else again m
