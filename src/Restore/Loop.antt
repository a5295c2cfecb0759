-- ===== src/Restore/Loop.antt =====
-- The port of the main loop of library/src/main/jni/sercd.c, closed and open, round by round; and the
-- settings of a serial device of unix.c while no client has it.
use serial_port.Prelude.{
  ℕ, ◌≡◌, refl, subst, Bool, true, false, ◌&&◌, not, Option, none, some, List, ◌∷◌, ◌==◌,
  if◌then◌else◌, arith,
}
use serial_port.Buffer.{init_buffer}
use serial_port.State.{State, Port, Config, init_telnet_state_machine}
use serial_port.Send.{esc_write_char}
use serial_port.Redirect.{esc_redirect_char}
use serial_port.LoopState.{
  Poll, Events, Main, Step, on, continue, fault, again, exit, state_ready, state_port_opened,
  io_result_error, iobytes, connected, disconnected, sercd_select,
}
use serial_port.MainLoop.{
  lose_client, drop_connection, deliver, dev_read, dev_written, net_written, net_read, serial_input,
  serial_output, network_output, network_input, greeted, accept_connection, open_device,
  masked_lines, new_modem_state, notify_modem_state, handle_events, end_of_turn, requested, turn,
}
use serial_port.MainLoop.Post.{
  Post, goes_on, continues, faults, Post->>>, Post-if, Post-with_state, Post-guarded,
}
use serial_port.MainLoop.Connection.{again_injective}
use serial_port.Restore.{Stable, Keeps, Keeps-for_each}
use serial_port.Restore.Commands.{
  esc_write_char-Keeps, send_cpc_byte_command-Keeps, send_telnet_initial_options-Keeps,
}
use serial_port.Restore.Bytes.{esc_redirect_char-Keeps}

-- What `OpenPort` and `ClosePort` promise of a port, and no request breaks.
pub record Lifecycle (p : Port) (Closed Open : p.Handle → Type 0) : Type 0 where
  pub stable : Stable p Open
  pub opens : (h : p.Handle) {h' : p.Handle} → Closed h → p.open_port h ≡ some h' → Open h'
  pub closes : (h : p.Handle) → Open h → Closed (p.close_port h)

module _ {p : Port} {Closed Open : p.Handle → Type 0} (life : Lifecycle p Closed Open)
    (cfg : Config) where
  open p use {Handle}

  abbrev pub Tied : Bool → Handle → Type 0
  Tied true h = Open h
  Tied false h = Closed h

  abbrev pub IsTied : Main Handle → Type 0
  IsTied m = Tied m.device_fd m.st.port

  abbrev Kept : Step Handle → Type 0
  Kept = Post IsTied IsTied (Unit {0})

  lose_client-Kept : (m : Main Handle) → IsTied m → Kept (lose_client cfg p m)
  unfolding lose_client drop_connection
  lose_client-Kept m v = continues (by_device m.device_fd v)
    where
      by_device :
          (b : Bool)
          → Tied b m.st.port
          → Closed
              (if b
                then record m {
                  st = record (m.st) { port = p.close_port m.st.port };
                  notified = state_ready ∷ m.notified;
                }
                else record m { notified = state_ready ∷ m.notified }).st.port
      by_device true v = life.closes m.st.port v
      by_device false v = v

  deliver-Kept :
      (body : ℕ → State Handle → Option (State Handle)) (m : Main Handle) (o : Option (List ℕ))
      → ((c : ℕ) → Keeps (Tied m.device_fd) (body c))
      → IsTied m
      → Kept (deliver cfg p body m o)
  deliver-Kept body m none h v = faults tt
  deliver-Kept body m (some bs) h v =
      Post-with_state m _ (λ s e. (Keeps-for_each h bs).keeps m.st e v) (λ _. tt)

  module _ (poll : Poll) (ev : Events) (m : Main Handle) (v : IsTied m) where
    serial_input-Kept : Kept (serial_input cfg p poll ev m)
    unfolding serial_input
    serial_input-Kept =
        Post-guarded m ev.device_in m.device_fd (io_result_error (iobytes (dev_read cfg p poll m)))
          v tt (λ _. lose_client-Kept m v)
          (λ _. deliver-Kept esc_write_char m _ esc_write_char-Keeps v)

    serial_output-Kept : Kept (serial_output cfg p poll ev m)
    unfolding serial_output
    serial_output-Kept =
        Post-guarded m ev.device_out m.device_fd (io_result_error (dev_written cfg p poll m)) v tt
          (λ _. lose_client-Kept m v) (λ _. goes_on v)

    network_output-Kept : Kept (network_output cfg p poll ev m)
    unfolding network_output
    network_output-Kept =
        Post-guarded m ev.socket_out m.out_socket_fd (io_result_error (net_written cfg p poll m)) v
          tt (λ _. lose_client-Kept m v) (λ _. goes_on v)

    network_input-Kept : Kept (network_input cfg p poll ev m)
    unfolding network_input
    network_input-Kept =
        Post-guarded m ev.socket_in (m.in_socket_fd && m.device_fd)
          (io_result_error (iobytes (net_read cfg p poll m))) v tt (λ _. lose_client-Kept m v)
          (λ set.
            deliver-Kept (esc_redirect_char cfg p) m _ (commands m.device_fd (ground (arith, set)))
              v)
      where
        commands : (b : Bool) → b ≡ true → (c : ℕ) → Keeps (Tied b) (esc_redirect_char cfg p c)
        commands true set c = esc_redirect_char-Keeps life.stable cfg c
        commands false set c = cc

    accept_connection-Kept : Kept (accept_connection cfg p poll ev m)
    unfolding accept_connection init_telnet_state_machine
    accept_connection-Kept =
        Post-if (not ev.socket_connect) (λ _. goes_on v)
          (λ _.
            Post-if poll.accept_fails (λ _. goes_on v)
              (λ _.
                Post-if (m.in_socket_fd && m.out_socket_fd) (λ _. goes_on v)
                  (λ _.
                    Post-with_state (connected m) (greeted cfg p m.st)
                      (λ s e.
                        (send_telnet_initial_options-Keeps {I = Tied m.device_fd}).keeps _ e v)
                      (λ _. tt))))

    open_device-Kept : Kept (open_device cfg p m)
    unfolding open_device
    open_device-Kept =
        Post-if (m.in_socket_fd && (m.out_socket_fd && not m.device_fd))
          (λ b. opened (closed m.device_fd v (ground (arith, b))) (p.open_port m.st.port) refl)
          (λ _. goes_on v)
      where
        closed : (b : Bool) → Tied b m.st.port → b ≡ false → Closed m.st.port
        closed true v e = cc
        closed false v e = v

        opened :
            Closed m.st.port
            → (o : Option Handle) → p.open_port m.st.port ≡ o
            → Kept (elim o as (λ _. Step Handle) [
              | none ↦ continue (disconnected (record m { notified = state_ready ∷ m.notified }))
              | some h ↦ on (record m {
                notified = state_port_opened ∷ m.notified;
                device_fd = true;
                st = record (m.st) { port = h; to_dev = init_buffer m.st.to_dev };
              })
            ])
        opened c none e = continues c
        opened c (some h) e = goes_on (life.opens m.st.port c e)

    notify_modem_state-Kept : Kept (notify_modem_state cfg p ev m)
    unfolding notify_modem_state
    notify_modem_state-Kept =
        Post-guarded m ev.modem_state m.device_fd
          (masked_lines cfg p (new_modem_state cfg p m) m.st
            == masked_lines cfg p m.st.modem_state m.st)
          v tt (λ _. goes_on v)
          (λ _.
            Post-with_state m _
              (λ s e. (send_cpc_byte_command-Keeps {I = Tied m.device_fd} _ _).keeps _ e v)
              (λ _. tt))

  handle_events-Kept :
      (poll : Poll) (ev : Events) (m : Main Handle)
      → IsTied m
      → Kept (handle_events cfg p poll ev m)
  unfolding handle_events
  handle_events-Kept poll ev = Post->>> (serial_input-Kept poll ev) (
      Post->>> (serial_output-Kept poll ev) (
        Post->>> (network_output-Kept poll ev) (
          Post->>> (network_input-Kept poll ev) (
            Post->>> (accept_connection-Kept poll ev)
              (Post->>> (open_device-Kept poll ev) (notify_modem_state-Kept poll ev))))))

  end_of_turn-Kept :
      (x : Step Handle) {n : Main Handle} → Kept x → end_of_turn cfg p x ≡ again n → IsTied n
  end_of_turn-Kept (on m) (goes_on v) e = subst IsTied (again_injective e) v
  end_of_turn-Kept (continue m) (continues v) e = subst IsTied (again_injective e) v
  end_of_turn-Kept fault h e = cc

  turn_by :
      (quit failed some_event : Bool) (x : Step Handle) (m : Main Handle) {n : Main Handle}
      → IsTied m
      → Kept x
      → (if quit
          then exit 0 m
          else if failed
          then exit 1 m
          else if some_event
          then end_of_turn cfg p x
          else again m)
        ≡ again n
      → IsTied n
  turn_by true failed some_event x m v h e = cc
  turn_by false true some_event x m v h e = cc
  turn_by false false true x m v h e = end_of_turn-Kept x h e
  turn_by false false false x m v h e = subst IsTied (again_injective e) v

  pub turn-Tied :
      (poll : Poll) (m : Main Handle) {n : Main Handle}
      → IsTied m
      → turn cfg p poll m ≡ again n
      → IsTied n
  unfolding turn
  turn-Tied poll m v e =
      turn_by _ _ _ (handle_events cfg p poll (sercd_select (requested cfg m) poll.ready) m) m v
        (handle_events-Kept poll _ m v) e
