-- ===== src/MainLoop/Safety.antt =====
-- Faults of a round of the main loop of library/src/main/jni/sercd.c: failed `assert`s, accesses
-- outside of an array, and null pointers. The source is read for a 64-bit target.
use serial_port.Prelude.{
  ◌<◌, ◌≡◌, refl, Bool, true, false, not, ◌&&◌, ◌⊎◌, inl, inr, Option, none, some, ◌∷◌,
  if◌then◌else◌, arith,
}
use serial_port.Buffer.{init_buffer}
use serial_port.Buffer.Validity.{init_buffer-IsValid}
use serial_port.State.{State, Port, Config}
use serial_port.Redirect.Size.{gauge}
use serial_port.LoopState.{
  state_ready, state_port_opened, Poll, Events, Main, Step, on, continue, fault, again, exit,
  sercd_select, connected, disconnected,
}
use serial_port.MainLoop.{
  requested, greeted, accept_connection, open_device, notify_modem_state, handle_events, turn,
  end_of_turn,
}
use serial_port.MainLoop.Post.{goes_on, continues, faults, Post->>>, Post-if, Post-ran}
use serial_port.MainLoop.Sound.{Sound, Safe, Able, IsSound, ReadsFit, greeted_lem}
use serial_port.MainLoop.Traffic.{
  serial_input-Safe, serial_output-Safe, network_output-Safe, network_input-Safe,
}

module _ (cfg : Config) (p : Port) (wide : cfg.sizeof_ulong ≡ 8) where
  open p use {Handle}

  greeted-Sound :
      (s : State Handle) → Sound s → (t : State Handle) × (greeted cfg p s ≡ some t) × Sound t
  greeted-Sound s v = let (t, e, w, k) = greeted_lem cfg p s v in (t, e, w)

  accept_connection-Safe :
      (poll : Poll) (ev : Events) (m : Main Handle)
      → Sound m.st
      → Safe IsSound (accept_connection cfg p poll ev m)
  unfolding accept_connection
  accept_connection-Safe poll ev m v =
      Post-if (not ev.socket_connect) (λ _. goes_on v)
        (λ _.
          Post-if poll.accept_fails (λ _. goes_on v)
            (λ _.
              Post-if (m.in_socket_fd && m.out_socket_fd) (λ _. goes_on v)
                (λ _. let (t, e, w) = greeted-Sound m.st v in Post-ran (connected m) e w)))

  pub open_device-Safe : (m : Main Handle) → Sound m.st → Safe IsSound (open_device cfg p m)
  unfolding open_device
  open_device-Safe m v =
      Post-if (m.in_socket_fd && (m.out_socket_fd && not m.device_fd))
        (λ _. opened (p.open_port m.st.port)) (λ _. goes_on v)
    where
      opened :
          (o : Option Handle)
          → Safe IsSound (elim o as (λ _. Step Handle) [
            | none ↦ continue (disconnected (record m { notified = state_ready ∷ m.notified }))
            | some h ↦ on (record m {
              notified = state_port_opened ∷ m.notified;
              device_fd = true;
              st = record (m.st) { port = h; to_dev = init_buffer m.st.to_dev };
            })
          ])
      opened none = continues v
      opened (some h) = goes_on (record {
        buffers = record { net = v.buffers.net; dev = init_buffer-IsValid v.buffers.dev };
        command = record { stored = v.command.stored; progress = v.command.progress };
      })

  module _ (poll : Poll) (fit : ReadsFit poll) (ev : Events) (quiet : ev.modem_state ≡ false) where
    no_notice : (m : Main Handle) → Sound m.st → Safe IsSound (notify_modem_state cfg p ev m)
    unfolding notify_modem_state
    no_notice m v = rw quiet (goes_on v)

    handle_events-Safe :
        (m : Main Handle) → Able ev m → Safe IsSound (handle_events cfg p poll ev m)
    unfolding handle_events
    handle_events-Safe = Post->>> (serial_input-Safe cfg p wide poll fit ev) (
        Post->>> (serial_output-Safe cfg p wide poll fit ev) (
          Post->>> (network_output-Safe cfg p wide poll fit ev) (
            Post->>> (network_input-Safe cfg p wide poll fit ev)
              (Post->>> (accept_connection-Safe poll ev) (Post->>> open_device-Safe no_notice)))))

  -- What is asked for is there.
  asked_Able :
      (ready : Events) (m : Main Handle)
      → Sound m.st
      → gauge m.st < 250
      → Able (sercd_select (requested cfg m) ready) m
  unfolding requested
  asked_Able ready m v g = record {
    sound = v;
    short = g;
    reads_dev = ground arith;
    writes_dev = ground arith;
    writes_net = ground arith;
    reads_net = ground arith;
  }

  pub turn_by :
      (quit failed some_event : Bool) (x : Step Handle) (m : Main Handle)
      → Sound m.st
      → Safe IsSound x
      → let t =
          if quit
          then exit 0 m
          else if failed
          then exit 1 m
          else if some_event
          then end_of_turn cfg p x
          else again m in
        (n : Main Handle) × ((t ≡ again n) ⊎ ((t ≡ exit 0 n) ⊎ (t ≡ exit 1 n))) × Sound n.st
  turn_by true failed some_event x m v h = (m, inr (inl refl), v)
  turn_by false true some_event x m v h = (m, inr (inr refl), v)
  turn_by false false false x m v h = (m, inl refl, v)
  turn_by false false true (on n) m v (goes_on w) = (n, inl refl, w)
  turn_by false false true (continue n) m v (continues w) = (n, inl refl, w)
  turn_by false false true fault m v (faults e) = absurd e

  -- On a 64-bit target, a round of the main loop in which `SercdSelect` reports no modem event ends in
  -- a next round or in one of the two exits, never in a fault, for any results of the system calls
  -- in which `read` returns no more bytes than it was asked for, from any state whose buffers and
  -- command under collection are valid, the command being short of 250 bytes; and they are valid
  -- again.
  pub turn-Safe :
      (poll : Poll) (m : Main Handle)
      → ReadsFit poll
      → poll.ready.modem_state ≡ false
      → Sound m.st
      → gauge m.st < 250
      → (n : Main Handle) × ((turn cfg p poll m ≡ again n)
          ⊎ ((turn cfg p poll m ≡ exit 0 n) ⊎ (turn cfg p poll m ≡ exit 1 n)))
        × Sound n.st
  unfolding turn
  turn-Safe poll m fit quiet v g =
      turn_by _ _ _ (handle_events cfg p poll (sercd_select (requested cfg m) poll.ready) m) m v (
        handle_events-Safe poll fit (sercd_select (requested cfg m) poll.ready) (ground arith) m
          (asked_Able poll.ready m v g))
