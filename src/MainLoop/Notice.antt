-- ===== src/MainLoop/Notice.antt =====
-- Rounds of the main loop of library/src/main/jni/sercd.c in which the modem state is polled and nothing is
-- read.
use serial_port.Prelude.{
  ℕ, bit_and, ◌≤◌, ◌≡◌, ◌≢◌, ◌⊎◌, refl, true, false, not, ◌&&◌, Option, none, some, List, ◌∷◌,
  arith, length, ◌==◌,
}
use serial_port.Telnet.{tnasc_notify_modemstate}
use serial_port.Buffer.{buffer_length, buffer_has_room_for, init_buffer, buffer_pop_bytes}
use serial_port.Buffer.Validity.{room-add-length, init_buffer-IsValid, buffer_pop_bytes-IsValid}
use serial_port.Buffer.Chunks.{buffer_length-pop_written}
use serial_port.State.{State, Port, Config}
use serial_port.Send.Room.{send_cpc_byte_command-Sends}
use serial_port.LoopState.{
  state_ready, state_port_opened, Poll, Events, Main, Step, on, continue, again, exit, would_block,
  count, failed, IoBytes, popped, sercd_select, io_result_error, connected, disconnected,
}
use serial_port.MainLoop.{
  requested, dev_written, net_written, serial_input, serial_output, network_output, network_input,
  accept_connection, open_device, notify_modem_state, new_modem_state, masked_lines, handle_events,
  turn,
}
use serial_port.MainLoop.Post.{goes_on, continues, Post->>>, Post-if, Post-ran, Post-transfer}
use serial_port.MainLoop.Sound.{Sound, IsSound, Safe, kept-Sound, greeted_size}
use serial_port.MainLoop.Traffic.{lose_client-Safe}
use serial_port.MainLoop.Safety.{turn_by}

-- What `write` promises of a socket that was reported ready: it does not block, and takes no more than it
-- was given.
pub record WritesFit (poll : Poll) : Type 0 where
  pub unblocked : (bs : List ℕ) → poll.write_net bs ≢ would_block
  pub net : (bs : List ℕ) (n : ℕ) → poll.write_net bs ≡ count n → n ≤ length bs

module _ {P : Type 0} where
  -- There is room for a notification, and the descriptors of the events are set.
  record Roomy (ev : Events) (m : Main P) : Type 0 where
    sound : Sound m.st
    room : ev.modem_state ≡ true → buffer_length m.st.to_net ≤ 2039
    writes_dev : ev.device_out ≡ true → m.device_fd ≡ true
    writes_net : ev.socket_out ≡ true → m.out_socket_fd ≡ true
    notices : ev.modem_state ≡ true → m.device_fd ≡ true

module _ (cfg : Config) (p : Port) (wide : cfg.sizeof_ulong ≡ 8) where
  open p use {Handle}

  moved :
      {ev : Events} {m : Main Handle} (s : State Handle)
      → Roomy ev m
      → Sound s
      → (ev.modem_state ≡ true → buffer_length s.to_net ≤ 2039)
      → Roomy ev (record m { st = s })
  moved s v w le = record {
    sound = w;
    room = le;
    writes_dev = v.writes_dev;
    writes_net = v.writes_net;
    notices = v.notices;
  }

  module _ (poll : Poll) (fit : WritesFit poll) (ev : Events) where
    nothing_read :
        ev.device_in ≡ false
        → (m : Main Handle) → Roomy ev m
        → Safe (Roomy ev) (serial_input cfg p poll ev m)
    unfolding serial_input
    nothing_read e m v = Post-if (not ev.device_in) (λ _. goes_on v) (λ h. absurd (ground arith))

    nothing_received :
        ev.socket_in ≡ false
        → (m : Main Handle) → Roomy ev m
        → Safe (Roomy ev) (network_input cfg p poll ev m)
    unfolding network_input
    nothing_received e m v =
        Post-if (not ev.socket_in) (λ _. goes_on v) (λ h. absurd (ground arith))

    serial_output-Roomy :
        (m : Main Handle) → Roomy ev m → Safe (Roomy ev) (serial_output cfg p poll ev m)
    unfolding serial_output
    serial_output-Roomy m v =
        Post-transfer m ev.device_out m.device_fd (io_result_error (dev_written cfg p poll m)) v
          (λ is unset. cc (v.writes_dev is)) (lose_client-Safe cfg p wide m v.sound)
          (λ _ ok. goes_on (
            moved _ v
              (record {
                buffers = record {
                  net = v.sound.buffers.net;
                  dev = buffer_pop_bytes-IsValid _ v.sound.buffers.dev;
                };
                command = record {
                  stored = v.sound.command.stored;
                  progress = v.sound.command.progress;
                };
              })
              v.room))

    shorter :
        (m : Main Handle) (r : IoBytes)
        → Roomy ev m
        → net_written cfg p poll m ≡ r
        → io_result_error r ≡ false
        → ev.modem_state ≡ true
        → buffer_length (buffer_pop_bytes m.st.to_net (popped r)) ≤ 2039
    unfolding io_result_error
    shorter m failed v e ok due = cc
    shorter m would_block v e ok due = absurd (fit.unblocked _ e)
    shorter m (count n) v e ok due = omega (
      arith,
      v.room due,
      buffer_length-pop_written m.st.to_net n v.sound.buffers.net (fit.net _ n e),
    )

    network_output-Roomy :
        (m : Main Handle) → Roomy ev m → Safe (Roomy ev) (network_output cfg p poll ev m)
    unfolding network_output
    network_output-Roomy m v =
        Post-transfer m ev.socket_out m.out_socket_fd (io_result_error (net_written cfg p poll m)) v
          (λ is unset. cc (v.writes_net is)) (lose_client-Safe cfg p wide m v.sound)
          (λ _ ok. goes_on (
            moved _ v
              (record {
                buffers = record {
                  net = buffer_pop_bytes-IsValid _ v.sound.buffers.net;
                  dev = v.sound.buffers.dev;
                };
                command = record {
                  stored = v.sound.command.stored;
                  progress = v.sound.command.progress;
                };
              })
              (shorter m (net_written cfg p poll m) v refl ok)))

    accept_connection-Roomy :
        (m : Main Handle) → Roomy ev m → Safe (Roomy ev) (accept_connection cfg p poll ev m)
    unfolding accept_connection
    accept_connection-Roomy m v =
        Post-if (not ev.socket_connect) (λ _. goes_on v)
          (λ _.
            Post-if poll.accept_fails (λ _. goes_on v)
              (λ _.
                Post-if (m.in_socket_fd && m.out_socket_fd) (λ _. goes_on v)
                  (λ _.
                    let (t, e, w, le) = greeted_size cfg p m.st v.sound in
                    Post-ran (connected m) e (record {
                      sound = w;
                      room = λ _. omega (arith, le);
                      writes_dev = v.writes_dev;
                      writes_net = λ _. refl;
                      notices = v.notices;
                    }))))

    open_device-Roomy : (m : Main Handle) → Roomy ev m → Safe (Roomy ev) (open_device cfg p m)
    unfolding open_device
    open_device-Roomy m v =
        Post-if (m.in_socket_fd && (m.out_socket_fd && not m.device_fd))
          (λ _. opened (p.open_port m.st.port)) (λ _. goes_on v)
      where
        opened :
            (o : Option Handle)
            → Safe (Roomy ev) (elim o as (λ _. Step Handle) [
              | none ↦ continue (disconnected (record m { notified = state_ready ∷ m.notified }))
              | some h ↦ on (record m {
                notified = state_port_opened ∷ m.notified;
                device_fd = true;
                st = record (m.st) { port = h; to_dev = init_buffer m.st.to_dev };
              })
            ])
        opened none = continues v.sound
        opened (some h) = goes_on (record {
          sound = record {
            buffers = record {
              net = v.sound.buffers.net;
              dev = init_buffer-IsValid v.sound.buffers.dev;
            };
            command = record {
              stored = v.sound.command.stored;
              progress = v.sound.command.progress;
            };
          };
          room = v.room;
          writes_dev = λ _. refl;
          writes_net = v.writes_net;
          notices = λ _. refl;
        })

    notify_modem_state-Roomy :
        (m : Main Handle) → Roomy ev m → Safe IsSound (notify_modem_state cfg p ev m)
    unfolding notify_modem_state
    notify_modem_state-Roomy m v =
        Post-transfer m ev.modem_state m.device_fd
          (masked_lines cfg p (new_modem_state cfg p m) m.st
            == masked_lines cfg p m.st.modem_state m.st)
          v.sound (λ is unset. cc (v.notices is)) (goes_on v.sound)
          (λ due _.
            let (t, e, k) =
              (send_cpc_byte_command-Sends tnasc_notify_modemstate
                  (bit_and (new_modem_state cfg p m) m.st.modem_state_mask)).run
                (record (m.st) { modem_state = new_modem_state cfg p m })
                (record { net = v.sound.buffers.net; dev = v.sound.buffers.dev })
                (omega (arith, v.room due)) in
            Post-ran m e (
              kept-Sound
                (record {
                  buffers = record { net = v.sound.buffers.net; dev = v.sound.buffers.dev };
                  command = record {
                    stored = v.sound.command.stored;
                    progress = v.sound.command.progress;
                  };
                })
                k))

    handle_events-Roomy :
        ev.device_in ≡ false
        → ev.socket_in ≡ false
        → (m : Main Handle) → Roomy ev m
        → Safe IsSound (handle_events cfg p poll ev m)
    unfolding handle_events
    handle_events-Roomy no_input no_data = Post->>> (nothing_read no_input) (
        Post->>> serial_output-Roomy (
          Post->>> network_output-Roomy (
            Post->>> (nothing_received no_data) (
              Post->>> accept_connection-Roomy
                (Post->>> open_device-Roomy notify_modem_state-Roomy)))))

  -- What is asked for is there.
  asked_Roomy :
      (ready : Events) (m : Main Handle)
      → Sound m.st
      → Roomy (sercd_select (requested cfg m) ready) m
  unfolding requested buffer_has_room_for
  asked_Roomy ready m v = record {
    sound = v;
    room = λ due. ground (arith, room-add-length v.buffers.net);
    writes_dev = ground arith;
    writes_net = ground arith;
    notices = ground arith;
  }

  -- On a 64-bit target, a round of the main loop in which neither the device nor the client has
  -- anything to read ends in a next round or in one of the two exits, never in a fault, also where the
  -- modem state is polled and the client notified of it, if `write` to the client neither blocks nor
  -- takes more bytes than it was given, from any state whose buffers and command under collection are
  -- valid; and they are valid again.
  pub turn-WritesFit :
      (poll : Poll) (m : Main Handle)
      → WritesFit poll
      → poll.ready.device_in ≡ false
      → poll.ready.socket_in ≡ false
      → Sound m.st
      → (n : Main Handle) × ((turn cfg p poll m ≡ again n)
          ⊎ ((turn cfg p poll m ≡ exit 0 n) ⊎ (turn cfg p poll m ≡ exit 1 n)))
        × Sound n.st
  unfolding turn
  turn-WritesFit poll m fit no_input no_data v =
      turn_by cfg p wide _ _ _
        (handle_events cfg p poll (sercd_select (requested cfg m) poll.ready) m) m v
        (handle_events-Roomy poll fit (sercd_select (requested cfg m) poll.ready) (ground arith)
          (ground arith) m (asked_Roomy poll.ready m v))
