-- ===== src/MainLoop/Traffic.antt =====
-- Faults of the four parts of a round of the main loop of library/src/main/jni/sercd.c that move
-- bytes. The source is read for a 64-bit target.
use serial_port.Prelude.{
  ℕ, ◌+◌, ◌*◌, ◌≤◌, ◌<◌, ◌≡◌, refl, sym, ap, subst, Bool, true, false, ◌&&◌, some, List, [], ◌∷◌,
  if◌then◌else◌, arith, length, for_each,
}
use serial_port.Buffer.{buffer_length, buffer_room_left}
use serial_port.Buffer.Validity.{room-add-length, buffer_pop_bytes-IsValid}
use serial_port.State.{State, Port, Config}
use serial_port.State.Steps.{BuffersValid, Sends-for_each}
use serial_port.Send.{esc_write_char}
use serial_port.Send.Room.{esc_write_char-Sends}
use serial_port.Iac.{handle_iac_command_bytes}
use serial_port.Redirect.{esc_redirect_char}
use serial_port.Redirect.Size.{CommandValid, gauge, gauge_of}
use serial_port.Redirect.Command.{esc_redirect_char-ok}
use serial_port.LoopState.{
  state_ready, Poll, Events, Main, ReadResult, read_failed, read_would_block, read_bytes, popped,
  iobytes, received, io_result_error, disconnected,
}
use serial_port.MainLoop.{
  dev_read, dev_written, net_written, net_read, network_trybytes, lose_client, drop_connection,
  deliver, serial_input, serial_output, network_output, network_input,
}
use serial_port.MainLoop.Post.{goes_on, continues, Post-ran, Post-transfer}
use serial_port.MainLoop.Sound.{Sound, Safe, Able, IsSound, kept-Sound, ReadsFit}

module _ (cfg : Config) (p : Port) (wide : cfg.sizeof_ulong ≡ 8) where
  open p use {Handle}

  room_of_command : handle_iac_command_bytes cfg.sizeof_ulong ≡ 516
  room_of_command = ap handle_iac_command_bytes wide

  redirect_all :
      (bs : List ℕ) (s : State Handle)
      → BuffersValid s
      → CommandValid s
      → gauge s + length bs < 253
      → buffer_length s.to_net + 516 * length bs ≤ 2047
      → buffer_length s.to_dev + length bs ≤ 2047
      → (t : State Handle) × (for_each (esc_redirect_char cfg p) bs s ≡ some t) × Sound t
  unfolding for_each
  redirect_all [] s b v g n d = (s, refl, record { buffers = b; command = v })
  redirect_all (c ∷ bs) s b v g n d =
      let r =
        esc_redirect_char-ok cfg p (omega arith) c s b v (ground arith)
          (omega (arith, room_of_command)) (omega arith) in
      let (t, e, h) =
        redirect_all bs r.to r.does.buffers r.does.command (omega (arith, r.does.gauge_within))
          (omega (arith, r.does.net_within, room_of_command)) (omega (arith, r.does.dev_within)) in
      (t, rw (r.runs, for_each) e, h)

  -- What is read from the client fits both buffers in the worst case, and is three bytes at most.
  trybytes_fits :
      (s : State Handle) (n : ℕ)
      → BuffersValid s
      → n ≤ network_trybytes cfg p s
      → (516 * n ≤ buffer_room_left s.to_net) × (n ≤ buffer_room_left s.to_dev) × (n ≤ 3)
  trybytes_fits s n b le = ground (arith, wide, room-add-length b.net)

  blocked : received cfg read_would_block ≡ some []
  blocked = rw wide refl

  pub lose_client-Safe :
      {Q : Main Handle → Type 0} (m : Main Handle) → Sound m.st → Safe Q (lose_client cfg p m)
  unfolding lose_client drop_connection
  lose_client-Safe m v = continues (closed m.device_fd)
    where
      closed :
          (b : Bool)
          → IsSound (
              disconnected (
                if b
                then record m {
                  st = record (m.st) { port = p.close_port m.st.port };
                  notified = state_ready ∷ m.notified;
                }
                else record m { notified = state_ready ∷ m.notified }))
      closed true = record {
        buffers = record { net = v.buffers.net; dev = v.buffers.dev };
        command = record { stored = v.command.stored; progress = v.command.progress };
      }
      closed false = v

  -- The state changes, the descriptors do not.
  moved :
      {ev : Events} {m : Main Handle} (s : State Handle)
      → Able ev m
      → Sound s
      → gauge s ≡ gauge m.st
      → Able ev (record m { st = s })
  moved s v w g = record {
    sound = w;
    short = omega (arith, v.short, g);
    reads_dev = v.reads_dev;
    writes_dev = v.writes_dev;
    writes_net = v.writes_net;
    reads_net = v.reads_net;
  }

  module _ (poll : Poll) (fit : ReadsFit poll) (ev : Events) (m : Main Handle) (v : Able ev m) where
    escaped :
        (bs : List ℕ)
        → 2 * length bs ≤ buffer_room_left m.st.to_net
        → Safe (Able ev) (deliver cfg p esc_write_char m (some bs))
    escaped bs le =
        let (t, e, k) =
          (Sends-for_each 2 esc_write_char bs esc_write_char-Sends).run m.st v.sound.buffers
            (omega (arith, room-add-length v.sound.buffers.net)) in
        Post-ran m e (moved t v (kept-Sound v.sound k) (ap (λ f. gauge_of f.3 f.2) k.kept))

    input_received :
        (r : ReadResult)
        → io_result_error (iobytes r) ≡ false
        → ((bs : List ℕ) → r ≡ read_bytes bs → 2 * length bs ≤ buffer_room_left m.st.to_net)
        → Safe (Able ev) (deliver cfg p esc_write_char m (received cfg r))
    unfolding io_result_error
    input_received read_failed ok le = cc
    input_received read_would_block ok le =
        subst (λ o. Safe (Able ev) (deliver cfg p esc_write_char m o)) (sym blocked)
          (escaped [] (omega arith))
    input_received (read_bytes bs) ok le = escaped bs (le bs refl)

    pub serial_input-Safe : Safe (Able ev) (serial_input cfg p poll ev m)
    unfolding serial_input
    serial_input-Safe =
        Post-transfer m ev.device_in m.device_fd (io_result_error (iobytes (dev_read cfg p poll m)))
          v (λ is unset. cc (v.reads_dev is)) (lose_client-Safe m v.sound)
          (λ _ ok.
            input_received (dev_read cfg p poll m) ok (λ bs e. ground (arith, fit.dev _ bs e)))

    pub serial_output-Safe : Safe (Able ev) (serial_output cfg p poll ev m)
    unfolding serial_output
    serial_output-Safe =
        Post-transfer m ev.device_out m.device_fd (io_result_error (dev_written cfg p poll m)) v
          (λ is unset. cc (v.writes_dev is)) (lose_client-Safe m v.sound)
          (λ _ ok. goes_on (
            moved _ v
              (record {
                buffers = record {
                  net = v.sound.buffers.net;
                  dev =
                      buffer_pop_bytes-IsValid (popped (dev_written cfg p poll m))
                        v.sound.buffers.dev;
                };
                command = record {
                  stored = v.sound.command.stored;
                  progress = v.sound.command.progress;
                };
              })
              refl))

    pub network_output-Safe : Safe (Able ev) (network_output cfg p poll ev m)
    unfolding network_output
    network_output-Safe =
        Post-transfer m ev.socket_out m.out_socket_fd (io_result_error (net_written cfg p poll m)) v
          (λ is unset. cc (v.writes_net is)) (lose_client-Safe m v.sound)
          (λ _ ok. goes_on (
            moved _ v
              (record {
                buffers = record {
                  net =
                      buffer_pop_bytes-IsValid (popped (net_written cfg p poll m))
                        v.sound.buffers.net;
                  dev = v.sound.buffers.dev;
                };
                command = record {
                  stored = v.sound.command.stored;
                  progress = v.sound.command.progress;
                };
              })
              refl))

    redirected :
        (bs : List ℕ)
        → length bs ≤ network_trybytes cfg p m.st
        → Safe IsSound (deliver cfg p (esc_redirect_char cfg p) m (some bs))
    redirected bs le =
        let (t, e, w) =
          redirect_all bs m.st v.sound.buffers v.sound.command (omega (arith, v.short, fits))
            (omega (arith, fits, room-add-length v.sound.buffers.net))
            (omega (arith, fits, room-add-length v.sound.buffers.dev)) in
        Post-ran m e w
      where
        fits :
            (516 * length bs ≤ buffer_room_left m.st.to_net)
            × (length bs ≤ buffer_room_left m.st.to_dev)
            × (length bs ≤ 3)
        fits = trybytes_fits m.st (length bs) v.sound.buffers le

    network_received :
        (r : ReadResult)
        → io_result_error (iobytes r) ≡ false
        → ((bs : List ℕ) → r ≡ read_bytes bs → length bs ≤ network_trybytes cfg p m.st)
        → Safe IsSound (deliver cfg p (esc_redirect_char cfg p) m (received cfg r))
    unfolding io_result_error
    network_received read_failed ok le = cc
    network_received read_would_block ok le =
        subst (λ o. Safe IsSound (deliver cfg p (esc_redirect_char cfg p) m o)) (sym blocked)
          (redirected [] (omega arith))
    network_received (read_bytes bs) ok le = redirected bs (le bs refl)

    pub network_input-Safe : Safe IsSound (network_input cfg p poll ev m)
    unfolding network_input
    network_input-Safe =
        Post-transfer m ev.socket_in (m.in_socket_fd && m.device_fd)
          (io_result_error (iobytes (net_read cfg p poll m))) v.sound
          (λ is unset. cc (v.reads_net is)) (lose_client-Safe m v.sound)
          (λ _ ok. network_received (net_read cfg p poll m) ok (λ bs e. fit.net _ bs e))
