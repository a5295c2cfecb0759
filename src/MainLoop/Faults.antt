-- ===== src/MainLoop/Faults.antt =====
-- Where the main loop does not do what it means to.
use serial_port.Prelude.{
  ◌+◌, ◌-◌, ◌%◌, ◌^◌, ◌<◌, ◌≡◌, refl, ap, ◌∙◌, true, false, ◌&&◌, none, [], ◌∷◌, ◌==◌, arith,
  get_or, ◌>>◌,
}
use serial_port.Buffer.{
  buffer_length, buffer_room_left, buffer_pop_bytes, add_to_buffer, buffer_size,
}
use serial_port.Buffer.Chunks.{pop_minus_one}
use serial_port.Buffer.Validity.{IsValid}
use serial_port.Buffer.Refine.{add_to_buffer_full, contents}
use serial_port.State.{Port, Config, add_net}
use serial_port.Send.{send_cpc_byte_command}
use serial_port.Telnet.{tniac}
use serial_port.MainLoop.Sound.{Sound, greeted-kept}
use serial_port.LoopState.{
  Poll, Events, Main, on, fault, read_bytes, would_block, io_result_error, connected,
}
use serial_port.MainLoop.{
  net_read, dev_written, network_trybytes, masked_lines, new_modem_state, lose_client,
  network_input, serial_output, notify_modem_state, accept_connection,
}

module _ (cfg : Config) (p : Port) where
  open p use {Handle}

  -- The client is dropped with no error and no end of its stream. On a 64-bit target, when there is
  -- input from the client and the buffer to the client has room for less than 516 bytes, as a full
  -- read from the device just before can leave it, `ReadFromNet` is called with a count of zero;
  -- `read` returns 0 for that, and this is taken for the end of the stream.
  pub network_input-drops_client :
      (poll : Poll) (ev : Events) (m : Main Handle)
      → cfg.sizeof_ulong ≡ 8
      → poll.read_net 0 ≡ read_bytes []
      → ev.socket_in ≡ true
      → (m.in_socket_fd && m.device_fd) ≡ true
      → buffer_room_left m.st.to_net < 516
      → network_input cfg p poll ev m ≡ lose_client cfg p m
  unfolding network_input io_result_error
  network_input-drops_client poll ev m wide zero_read is set full = rw (is, set, at_end) refl
    where
      asked_nothing : network_trybytes cfg p m.st ≡ 0
      asked_nothing = ground (arith, wide)

      at_end : net_read cfg p poll m ≡ read_bytes []
      at_end = ap poll.read_net asked_nothing ∙ zero_read

  -- A write to the device that would block puts a byte back: from a valid buffer that is not full, the
  -- count -1 moves the read position back by one, no error is seen, and the buffer holds the cell in
  -- front of its contents, a byte that was sent or is no data, once more.
  pub blocked_write_puts_back :
      (poll : Poll) (ev : Events) (m : Main Handle)
      → IsValid m.st.to_dev
      → buffer_length m.st.to_dev < 2047
      → dev_written cfg p poll m ≡ would_block
      → ev.device_out ≡ true
      → m.device_fd ≡ true
      → (n : Main Handle) × (serial_output cfg p poll ev m ≡ on n)
        × (contents n.st.to_dev
            ≡ get_or m.st.to_dev.cells ((m.st.to_dev.rd_pos + 2047) % buffer_size) 0
              ∷ contents m.st.to_dev)
  unfolding serial_output io_result_error
  blocked_write_puts_back poll ev m v room blocked is set = (
    record m { st = record (m.st) { to_dev = buffer_pop_bytes m.st.to_dev (2 ^ 32 - 1) } },
    rw (is, set, blocked) refl,
    pop_minus_one m.st.to_dev v room,
  )

  -- A modem notification that finds the client's buffer full fails the `assert` of `AddToBuffer`: in
  -- the round in which the serial input has just filled it, for instance.
  pub notify_modem_state-faults :
      (ev : Events) (m : Main Handle)
      → IsValid m.st.to_net
      → buffer_length m.st.to_net ≡ 2047
      → ev.modem_state ≡ true
      → m.device_fd ≡ true
      → (masked_lines cfg p (new_modem_state cfg p m) m.st
          == masked_lines cfg p m.st.modem_state m.st)
        ≡ false
      → notify_modem_state cfg p ev m ≡ fault
  unfolding notify_modem_state send_cpc_byte_command add_net
  notify_modem_state-faults ev m v full is set changed =
      rw (is, set, changed) (rw (no_room, ◌>>◌) refl)
    where
      no_room : add_to_buffer tniac m.st.to_net ≡ none
      no_room = add_to_buffer_full tniac v (omega arith)

  -- The command parser outlives its client: when a client is accepted and greeted, what was being
  -- collected of the last client's command is kept, and the first bytes of the new client go on with
  -- it.
  pub accept_connection-keeps_command :
      (poll : Poll) (ev : Events) (m : Main Handle)
      → Sound m.st
      → ev.socket_connect ≡ true
      → poll.accept_fails ≡ false
      → (m.in_socket_fd && m.out_socket_fd) ≡ false
      → (n : Main Handle) × (accept_connection cfg p poll ev m ≡ on n)
        × (n.st.iac_escape ≡ m.st.iac_escape)
        × (n.st.iac_command ≡ m.st.iac_command)
        × (n.st.iac_pos ≡ m.st.iac_pos)
  unfolding accept_connection
  accept_connection-keeps_command poll ev m v is ok free =
      let (t, e, k) = greeted-kept cfg p m.st v in
      (
        record (connected m) { st = t },
        rw (is, ok, free) (rw e refl),
        ap (λ f. f.3) k,
        ap (λ f. f.1) k,
        ap (λ f. f.2) k,
      )
