-- ===== src/Startup/Begun.antt =====
-- The main loop of library/src/main/jni/sercd.c before its first client: the two buffers are locals of the
-- main function and hold anything.
use serial_port.Prelude.{
  ◌≡◌, ◌⊎◌, inl, inr, refl, sym, ap, subst, ◌∙◌, Bool, true, false, not, ◌&&◌, Option, none, some,
  ◌∷◌, arith, length, if◌then◌else◌,
}
use serial_port.Buffer.{Buffer, init_buffer, buffer_length}
use serial_port.Buffer.Validity.{IsValid}
use serial_port.State.{State, Port, Config, tn_reset, init_telnet_state_machine, iac_com_receiving}
use serial_port.State.Steps.{BuffersValid, frame}
use serial_port.Send.Room.{send_telnet_initial_options-Sends}
use serial_port.Redirect.Size.{CommandValid, Stored, InProgress}
use serial_port.LoopState.{
  state_ready, state_port_opened, Poll, Events, Main, Step, on, continue, fault, again, exit,
  sercd_select, connected, disconnected,
}
use serial_port.MainLoop.{
  requested, greeted, serial_input, serial_output, network_output, network_input, accept_connection,
  open_device, notify_modem_state, handle_events, end_of_turn, turn,
}
use serial_port.MainLoop.Post.{Post, goes_on, continues, faults, Post->>>, Post-if, Post-ran}
use serial_port.MainLoop.Sound.{Sound}
use serial_port.Startup.First.{send_telnet_initial_options-Ignores}

-- The buffers have their size, the command under collection is valid, and what is connected has been
-- initialized.
pub record Booting {P : Type 0} (m : Main P) : Type 0 where
  pub net_storage : length m.st.to_net.cells ≡ 2048
  pub dev_storage : length m.st.to_dev.cells ≡ 2048
  pub command : CommandValid m.st
  pub no_device : m.device_fd ≡ false
  pub sockets : m.in_socket_fd ≡ m.out_socket_fd
  pub net : m.out_socket_fd ≡ true → IsValid m.st.to_net

-- Between two rounds: no client is connected, and the buffers may hold anything, or all is valid.
pub data Begun {P : Type 0} (m : Main P) : Type 0 where
  unconnected : Booting m → m.out_socket_fd ≡ false → Begun m
  served : Sound m.st → Begun m

init_buffer-fresh : (b : Buffer) → length b.cells ≡ 2048 → IsValid (init_buffer b)
unfolding init_buffer
init_buffer-fresh b h = record { storage = h; rd_in = omega arith; wr_in = omega arith }

init_buffer-length : (b : Buffer) → buffer_length (init_buffer b) ≡ 0
unfolding init_buffer buffer_length
init_buffer-length b = refl

module _ (cfg : Config) (p : Port) where
  open p use {Handle}

  -- The greeting of a client, with anything in the device's buffer.
  greeted_first :
      (m : Main Handle)
      → Booting m
      → (t : State Handle) × (greeted cfg p m.st ≡ some t)
        × IsValid t.to_net
        × (frame t ≡ frame m.st)
  unfolding init_telnet_state_machine
  greeted_first m v =
      let s : State Handle = record (m.st) {
        to_net = init_buffer m.st.to_net;
        tnstate = λ o. tn_reset;
      } in
      let valid : BuffersValid (record s { to_dev = init_buffer m.st.to_dev }) = record {
        net = init_buffer-fresh _ v.net_storage;
        dev = init_buffer-fresh _ v.dev_storage;
      } in
      let (t, e, k) =
        send_telnet_initial_options-Sends.run (record s { to_dev = init_buffer m.st.to_dev }) valid
          (omega (arith, init_buffer-length m.st.to_net)) in
      (
        record t { to_dev = m.st.to_dev },
        send_telnet_initial_options-Ignores.same m.st.to_dev
            (record s { to_dev = init_buffer m.st.to_dev }) e,
        k.valid.net,
        ap (λ f. (m.st.to_dev, f.1, f.2, f.3, f.4, f.5)) k.kept,
      )

  module _ (poll : Poll) (ev : Events) where
    accept_connection-Booting :
        (m : Main Handle) → Booting m → Post Booting Begun ⊥ (accept_connection cfg p poll ev m)
    unfolding accept_connection
    accept_connection-Booting m v =
        Post-if (not ev.socket_connect) (λ _. goes_on v)
          (λ _.
            Post-if poll.accept_fails (λ _. goes_on v)
              (λ _.
                Post-if (m.in_socket_fd && m.out_socket_fd) (λ _. goes_on v)
                  (λ _.
                    let (t, e, net, k) = greeted_first m v in
                    Post-ran (connected m) e (record {
                      net_storage = net.storage;
                      dev_storage = ap (λ f. length f.0.cells) k ∙ v.dev_storage;
                      command = record {
                        stored = subst (λ f. Stored f.1) (sym k) v.command.stored;
                        progress =
                            subst (λ f. f.3 ≡ iac_com_receiving → InProgress f.1 f.2) (sym k)
                              v.command.progress;
                      };
                      no_device = v.no_device;
                      sockets = refl;
                      net = λ _. net;
                    }))))

  open_device-Begun : (m : Main Handle) → Booting m → Post Begun Begun ⊥ (open_device cfg p m)
  unfolding open_device
  open_device-Begun m v =
      Post-if (m.in_socket_fd && (m.out_socket_fd && not m.device_fd))
        (λ b. opened b (p.open_port m.st.port))
        (λ b. goes_on (unconnected v (ground (arith, v.sockets, v.no_device))))
    where
      opened :
          (m.in_socket_fd && (m.out_socket_fd && not m.device_fd)) ≡ true
          → (o : Option Handle)
          → Post Begun Begun ⊥ (elim o as (λ _. Step Handle) [
            | none ↦ continue (disconnected (record m { notified = state_ready ∷ m.notified }))
            | some h ↦ on (record m {
              notified = state_port_opened ∷ m.notified;
              device_fd = true;
              st = record (m.st) { port = h; to_dev = init_buffer m.st.to_dev };
            })
          ])
      opened b none = continues (
          unconnected
            (record {
              net_storage = v.net_storage;
              dev_storage = v.dev_storage;
              command = v.command;
              no_device = refl;
              sockets = refl;
              net = λ e. cc;
            })
            refl)
      opened b (some h) = goes_on (
          served (record {
            buffers = record {
              net = v.net (ground arith);
              dev = init_buffer-fresh _ v.dev_storage;
            };
            command = record { stored = v.command.stored; progress = v.command.progress };
          }))

  module _ (poll : Poll) (ev : Events) (no_input : ev.device_in ≡ false)
      (no_output : ev.device_out ≡ false) (no_reply : ev.socket_out ≡ false)
      (no_data : ev.socket_in ≡ false) (no_poll : ev.modem_state ≡ false) where
    handle_events-Begun :
        (m : Main Handle) → Booting m → Post Begun Begun ⊥ (handle_events cfg p poll ev m)
    unfolding handle_events serial_input serial_output network_output network_input
        notify_modem_state
    handle_events-Begun =
        Post->>> {f = serial_input cfg p poll ev} (λ m v. rw no_input (goes_on v))
          (Post->>> {f = serial_output cfg p poll ev} (λ m v. rw no_output (goes_on v))
            (Post->>> {f = network_output cfg p poll ev} (λ m v. rw no_reply (goes_on v))
              (Post->>> {f = network_input cfg p poll ev} (λ m v. rw no_data (goes_on v))
                (Post->>> (accept_connection-Booting poll ev) (
                  Post->>> {g = notify_modem_state cfg p ev} open_device-Begun
                    (λ m v. rw no_poll (goes_on v)))))))

  turn_by :
      (quit failed some_event : Bool) (x : Step Handle) (m : Main Handle)
      → Begun m
      → Post Begun Begun ⊥ x
      → let t =
          if quit
          then exit 0 m
          else if failed
          then exit 1 m
          else if some_event
          then end_of_turn cfg p x
          else again m in
        (n : Main Handle) × ((t ≡ again n) ⊎ ((t ≡ exit 0 n) ⊎ (t ≡ exit 1 n))) × Begun n
  turn_by true failed some_event x m v h = (m, inr (inl refl), v)
  turn_by false true some_event x m v h = (m, inr (inr refl), v)
  turn_by false false false x m v h = (m, inl refl, v)
  turn_by false false true (on n) m v (goes_on w) = (n, inl refl, w)
  turn_by false false true (continue n) m v (continues w) = (n, inl refl, w)
  turn_by false false true fault m v (faults e) = absurd e

  -- A round before the first client, whatever the system calls return.
  pub turn-unconnected :
      (poll : Poll) (m : Main Handle)
      → Booting m
      → m.out_socket_fd ≡ false
      → (n : Main Handle) × ((turn cfg p poll m ≡ again n)
          ⊎ ((turn cfg p poll m ≡ exit 0 n) ⊎ (turn cfg p poll m ≡ exit 1 n)))
        × Begun n
  unfolding turn requested
  turn-unconnected poll m v free =
      turn_by _ _ _ (handle_events cfg p poll (sercd_select (requested cfg m) poll.ready) m) m
        (unconnected v free)
        (handle_events-Begun poll (sercd_select (requested cfg m) poll.ready)
          (ground (arith, v.no_device)) (ground (arith, v.no_device)) (ground (arith, free))
          (ground (arith, v.no_device)) (ground (arith, v.no_device)) m v)
