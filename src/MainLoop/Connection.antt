-- ===== src/MainLoop/Connection.antt =====
-- The connection states of the loop: which descriptors are open together, and what the Java side was
-- told last.
use serial_port.Prelude.{
  ℕ, Bool, true, false, not, ◌&&◌, ◌≡◌, refl, sym, ap, subst, ◌∙◌, Option, none, some, List, ◌∷◌,
  ◌==◌, if◌then◌else◌, arith,
}
use serial_port.Buffer.{init_buffer}
use serial_port.State.{State, Port, Config}
use serial_port.Send.{esc_write_char}
use serial_port.Redirect.{esc_redirect_char}
use serial_port.LoopState.{
  ProxyState, state_ready, state_connected, state_port_opened, Poll, Events, Main, Step, on,
  continue, fault, again, exit, crash, received, sercd_select, io_result_error, iobytes, connected,
  disconnected,
}
use serial_port.MainLoop.{
  requested, dev_read, dev_written, net_written, net_read, greeted, masked_lines, new_modem_state,
  lose_client, drop_connection, deliver, serial_input, serial_output, network_output, network_input,
  accept_connection, open_device, notify_modem_state, handle_events, turn, end_of_turn,
}
use serial_port.MainLoop.Post.{
  Post, goes_on, continues, faults, Post->>>, Post-if, Post-with_state, Post-transfer,
}

-- Either there is no client and the port is closed, or there is one and the port is open; and the
-- last state told says which.
pub record Synced {P : Type 0} (m : Main P) : Type 0 where
  pub sockets : m.in_socket_fd ≡ m.out_socket_fd
  pub device : m.device_fd ≡ m.in_socket_fd
  pub rest : List ProxyState
  pub told : m.notified ≡ (if m.device_fd then state_port_opened else state_ready) ∷ rest

-- Within a round, a client may have no open port yet, and then it was told of the connection.
pub record Connecting {P : Type 0} (m : Main P) : Type 0 where
  pub sockets : m.in_socket_fd ≡ m.out_socket_fd
  pub device : m.device_fd ≡ true → m.in_socket_fd ≡ true
  pub rest : List ProxyState
  pub told :
      m.notified
      ≡ (if m.device_fd
          then state_port_opened
          else if m.in_socket_fd
          then state_connected
          else state_ready)
        ∷ rest

pub again_injective : {P : Type 0} {m n : Main P} → again m ≡ again n → m ≡ n
again_injective {m} e = ap (λ t. elim t [ again k ↦ k | exit c k ↦ m | crash ↦ m ]) e

module _ (cfg : Config) (p : Port) where
  open p use {Handle}

  abbrev Kept : Step Handle → Type 0
  Kept = Post Synced Synced (Unit {0})

  lose_client-Synced : (m : Main Handle) → Kept (lose_client cfg p m)
  unfolding lose_client drop_connection
  lose_client-Synced m =
      continues (record { sockets = refl; device = refl; rest = m.notified; told = ground arith })

  same : {m : Main Handle} (s : State Handle) → Synced m → Synced (record m { st = s })
  same s v = record { sockets = v.sockets; device = v.device; rest = v.rest; told = v.told }

  deliver-Synced :
      (body : ℕ → State Handle → Option (State Handle)) (m : Main Handle) (o : Option (List ℕ))
      → Synced m
      → Kept (deliver cfg p body m o)
  deliver-Synced body m none v = faults tt
  deliver-Synced body m (some bs) v = Post-with_state m _ (λ s _. same s v) (λ _. tt)

  module _ (poll : Poll) (ev : Events) (m : Main Handle) (v : Synced m) where
    serial_input-Synced : Kept (serial_input cfg p poll ev m)
    unfolding serial_input
    serial_input-Synced =
        Post-transfer m ev.device_in m.device_fd (io_result_error (iobytes (dev_read cfg p poll m)))
          v (λ _ _. tt) (lose_client-Synced m)
          (λ _ _. deliver-Synced esc_write_char m (received cfg (dev_read cfg p poll m)) v)

    serial_output-Synced : Kept (serial_output cfg p poll ev m)
    unfolding serial_output
    serial_output-Synced =
        Post-transfer m ev.device_out m.device_fd (io_result_error (dev_written cfg p poll m)) v
          (λ _ _. tt) (lose_client-Synced m) (λ _ _. goes_on (same _ v))

    network_output-Synced : Kept (network_output cfg p poll ev m)
    unfolding network_output
    network_output-Synced =
        Post-transfer m ev.socket_out m.out_socket_fd (io_result_error (net_written cfg p poll m)) v
          (λ _ _. tt) (lose_client-Synced m) (λ _ _. goes_on (same _ v))

    network_input-Synced : Kept (network_input cfg p poll ev m)
    unfolding network_input
    network_input-Synced =
        Post-transfer m ev.socket_in (m.in_socket_fd && m.device_fd)
          (io_result_error (iobytes (net_read cfg p poll m))) v (λ _ _. tt) (lose_client-Synced m)
          (λ _ _.
            deliver-Synced (esc_redirect_char cfg p) m (received cfg (net_read cfg p poll m)) v)

    Synced-Connecting : Connecting m
    Synced-Connecting = record {
      sockets = v.sockets;
      device = λ e. sym v.device ∙ e;
      rest = v.rest;
      told = ground (arith, v.told, v.device);
    }

    accept_connection-Connecting :
        Post Connecting Synced (Unit {0}) (accept_connection cfg p poll ev m)
    unfolding accept_connection
    accept_connection-Connecting =
        Post-if (not ev.socket_connect) (λ _. goes_on Synced-Connecting)
          (λ _.
            Post-if poll.accept_fails (λ _. goes_on Synced-Connecting)
              (λ _.
                Post-if (m.in_socket_fd && m.out_socket_fd) (λ _. goes_on Synced-Connecting)
                  (λ free.
                    Post-with_state (connected m) (greeted cfg p m.st)
                      (λ s _. record {
                        sockets = refl;
                        device = λ _. refl;
                        rest = m.notified;
                        told = ground (arith, v.device, v.sockets);
                      })
                      (λ _. tt))))

  open_device-Synced : (m : Main Handle) → Connecting m → Kept (open_device cfg p m)
  unfolding open_device
  open_device-Synced m v =
      Post-if (m.in_socket_fd && (m.out_socket_fd && not m.device_fd))
        (λ b. opened b (p.open_port m.st.port))
        (λ b. goes_on (record {
          sockets = v.sockets;
          device = ground (arith, v.sockets, v.device);
          rest = v.rest;
          told = ground (arith, v.told, v.sockets, v.device);
        }))
    where
      opened :
          (m.in_socket_fd && (m.out_socket_fd && not m.device_fd)) ≡ true
          → (o : Option Handle)
          → Kept (elim o as (λ _. Step Handle) [
            | none ↦ continue (disconnected (record m { notified = state_ready ∷ m.notified }))
            | some h ↦ on (record m {
              notified = state_port_opened ∷ m.notified;
              device_fd = true;
              st = record (m.st) { port = h; to_dev = init_buffer m.st.to_dev };
            })
          ])
      opened b none =
          continues (record { sockets = refl; device = refl; rest = m.notified; told = refl })
      opened b (some h) =
          goes_on
            (record { sockets = v.sockets; device = ground arith; rest = m.notified; told = refl })

  notify_modem_state-Synced :
      (ev : Events) (m : Main Handle) → Synced m → Kept (notify_modem_state cfg p ev m)
  unfolding notify_modem_state
  notify_modem_state-Synced ev m v =
      Post-transfer m ev.modem_state m.device_fd
        (masked_lines cfg p (new_modem_state cfg p m) m.st
          == masked_lines cfg p m.st.modem_state m.st)
        v (λ _ _. tt) (goes_on v) (λ _ _. Post-with_state m _ (λ s _. same s v) (λ _. tt))

  handle_events-Synced :
      (poll : Poll) (ev : Events) (m : Main Handle)
      → Synced m
      → Kept (handle_events cfg p poll ev m)
  unfolding handle_events
  handle_events-Synced poll ev m v =
      Post->>> (serial_input-Synced poll ev)
        (Post->>> (serial_output-Synced poll ev) (
          Post->>> (network_output-Synced poll ev) (
            Post->>> (network_input-Synced poll ev) (
              Post->>> (accept_connection-Connecting poll ev)
                (Post->>> open_device-Synced (notify_modem_state-Synced ev))))))
        m v

  end_of_turn-Synced :
      (x : Step Handle) {n : Main Handle} → Kept x → end_of_turn cfg p x ≡ again n → Synced n
  end_of_turn-Synced (on m) (goes_on v) e = subst Synced (again_injective e) v
  end_of_turn-Synced (continue m) (continues v) e = subst Synced (again_injective e) v
  end_of_turn-Synced fault h e = cc

  turn_by :
      (quit failed some_event : Bool) (x : Step Handle) (m : Main Handle) {n : Main Handle}
      → Synced m
      → Kept x
      → (if quit
          then exit 0 m
          else if failed
          then exit 1 m
          else if some_event
          then end_of_turn cfg p x
          else again m)
        ≡ again n
      → Synced n
  turn_by true failed some_event x m v h e = cc
  turn_by false true some_event x m v h e = cc
  turn_by false false true x m v h e = end_of_turn-Synced x h e
  turn_by false false false x m v h e = subst Synced (again_injective e) v

  -- Between two rounds of the main loop, whatever the system calls return: if it is so before a
  -- round, then after any round that ends with neither a fault nor an exit the two sockets and the
  -- serial device are either all set or all unset, and the last state that the Java side was told is
  -- PORT_OPENED in the first case and READY in the second.
  pub turn-Synced :
      (poll : Poll) (m : Main Handle) {n : Main Handle}
      → Synced m
      → turn cfg p poll m ≡ again n
      → Synced n
  unfolding turn
  turn-Synced poll m v e =
      turn_by _ _ _ (handle_events cfg p poll (sercd_select (requested cfg m) poll.ready) m) m v
        (handle_events-Synced poll _ m v) e
