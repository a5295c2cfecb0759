-- ===== src/MainLoop/Overrun.antt =====
-- A round of the main loop of library/src/main/jni/sercd.c in which the serial input leaves no room for the
-- notification of the modem state that comes after it.
use serial_port.Prelude.{
  subst, bit_and, ℕ, ◌+◌, ◌≤◌, ◌≡◌, refl, ap, ◌∙◌, Bool, true, false, not, ◌&&◌, Option, none, some,
  List, [], ◌∷◌, arith, length, for_each, ◌>>◌, ◌==◌, if◌then◌else◌,
}
use serial_port.Telnet.{tniac, tn_transmit_binary}
use serial_port.Buffer.{Buffer, buffer_length, buffer_has_room_for, add_to_buffer}
use serial_port.Buffer.Validity.{room-add-length}
use serial_port.State.{State, Port, Config, add_net}
use serial_port.State.Steps.{BuffersValid, registers}
use serial_port.Send.{esc_write_prefix, esc_write_char}
use serial_port.Send.Wire.{escape_all, is_binary, for_each-Emits}
use serial_port.LoopState.{
  Poll, Events, Main, Step, on, crash, fault, again, exit, read_bytes, sercd_select, any_event,
  ◌>>>◌,
}
use serial_port.MainLoop.{
  requested, dev_read, serial_input, serial_output, network_output, network_input,
  accept_connection, open_device, masked_lines, new_modem_state, notify_modem_state, handle_events,
  end_of_turn, turn,
}
use serial_port.MainLoop.Tunnel.{reads}
use serial_port.MainLoop.Faults.{notify_modem_state-faults}

module _ {P : Type 0} where
  data Keeps (n : ℕ) : Option (State P) → Type 0 where
    faulty : Keeps n none
    remains : {t : State P} → t.modem_state ≡ n → Keeps n (some t)

  kept_by : {n : ℕ} {t : State P} → Keeps n (some t) → t.modem_state ≡ n
  kept_by (remains e) = e

  add_net-Keeps : {n : ℕ} (c : ℕ) (s : State P) → s.modem_state ≡ n → Keeps n (add_net c s)
  unfolding add_net
  add_net-Keeps {n} c s e = added (add_to_buffer c s.to_net)
    where
      added :
          (o : Option Buffer)
          → Keeps n (elim o as (λ _. Option (State P)) [
            | none ↦ none
            | some b ↦ some (record s { to_net = b })
          ])
      added none = faulty
      added (some b) = remains e

  Keeps-then :
      {n : ℕ} {o : Option (State P)} (g : State P → Option (State P))
      → Keeps n o
      → ((t : State P) → t.modem_state ≡ n → Keeps n (g t))
      → Keeps n (elim o as (λ _. Option (State P)) [ none ↦ none | some t ↦ g t ])
  Keeps-then g faulty k = faulty
  Keeps-then g (remains {t} e) k = k t e

  prefix-Keeps : {n : ℕ} (c : ℕ) (s : State P) → s.modem_state ≡ n → Keeps n (esc_write_prefix c s)
  unfolding esc_write_prefix
  prefix-Keeps {n} c s e =
      either (c == tniac)
        (not (c == 10) && (not (s.tnstate tn_transmit_binary).is_will && s.write_last == 13))
    where
      either : (a b : Bool) → Keeps n (if a then add_net c s else if b then add_net 0 s else some s)
      either true b = add_net-Keeps c s e
      either false true = add_net-Keeps 0 s e
      either false false = remains e

  esc_write_char-Keeps :
      {n : ℕ} (c : ℕ) (s : State P) → s.modem_state ≡ n → Keeps n (esc_write_char c s)
  unfolding esc_write_char
  esc_write_char-Keeps c s e =
      Keeps-then (add_net c >> (λ t. some (record t { write_last = c }))) (prefix-Keeps c s e)
        (λ t k.
          Keeps-then (λ u. some (record u { write_last = c })) (add_net-Keeps c t k)
            (λ u l. remains l))

  for_each-Keeps :
      {n : ℕ} (cs : List ℕ) (s : State P)
      → s.modem_state ≡ n
      → Keeps n (for_each esc_write_char cs s)
  unfolding for_each
  for_each-Keeps [] s e = remains e
  for_each-Keeps (c ∷ cs) s e =
      Keeps-then (for_each esc_write_char cs) (esc_write_char-Keeps c s e) (for_each-Keeps cs)

-- The device has data and the modem state is due.
abbrev pub device_and_modem : Events
device_and_modem = record {
  device_in = true;
  device_out = false;
  socket_out = false;
  socket_in = false;
  socket_connect = false;
  modem_state = true;
}

module _ (cfg : Config) (p : Port) where
  open p use {Handle}

  all_reported :
      (m : Main Handle)
      → BuffersValid m.st
      → m.device_fd ≡ true
      → m.st.input_flow ≡ true
      → m.st.port_control_enable ≡ true
      → buffer_length m.st.to_net ≤ 2039
      → ((requested cfg m).device_in ≡ true) × ((requested cfg m).modem_state ≡ true)
  unfolding requested buffer_has_room_for
  all_reported m v set flow control room = (
    ground (arith, set, flow, room, room-add-length v.net),
    ground (arith, set, flow, control, room, room-add-length v.net),
  )

  reported :
      (di out net_out net_in accepts lines : Bool)
      → di ≡ true
      → lines ≡ true
      → record {
        device_in = di && true;
        device_out = out && false;
        socket_out = net_out && false;
        socket_in = net_in && false;
        socket_connect = accepts && false;
        modem_state = lines && true;
      }
        ≡ device_and_modem
  reported di out net_out net_in accepts lines is due =
      let z : (b : Bool) → (b && false) ≡ false = λ b. ground arith in
      let y : (b : Bool) → b ≡ true → (b && true) ≡ true = λ b h. ground (arith, h) in
      λ i. record {
        device_in = y di is i;
        device_out = z out i;
        socket_out = z net_out i;
        socket_in = z net_in i;
        socket_connect = z accepts i;
        modem_state = y lines due i;
      }

  only_these :
      (asked ready : Events)
      → asked.device_in ≡ true
      → asked.modem_state ≡ true
      → ready ≡ device_and_modem
      → sercd_select asked ready ≡ device_and_modem
  only_these asked ready input modem is =
      ap (sercd_select asked) is
      ∙ reported asked.device_in asked.device_out asked.socket_out asked.socket_in
          asked.socket_connect asked.modem_state input modem

  crash_by :
      (quit failed_select some_event : Bool) (x : Step Handle) (m : Main Handle)
      → quit ≡ false
      → failed_select ≡ false
      → some_event ≡ true
      → x ≡ fault
      → (if quit
          then exit 0 m
          else if failed_select
          then exit 1 m
          else if some_event
          then end_of_turn cfg p x
          else again m)
        ≡ crash
  crash_by quit failed_select some_event x m q f s e = rw (q, f, s, e) refl

  same_lines :
      (m n : Main Handle)
      → registers n.st ≡ registers m.st
      → n.st.modem_state ≡ m.st.modem_state
      → (masked_lines cfg p (new_modem_state cfg p m) m.st
          == masked_lines cfg p m.st.modem_state m.st)
        ≡ false
      → (masked_lines cfg p (new_modem_state cfg p n) n.st
          == masked_lines cfg p n.st.modem_state n.st)
        ≡ false
  same_lines m n r e h =
      (λ i.
        bit_and (bit_and (p.get_modem_state (r i).port (e i)) (r i).modem_state_mask) 240
        == bit_and (bit_and (e i) (r i).modem_state_mask) 240)
      ∙ h

  calm : Poll → Main Handle → Step Handle
  calm poll =
      serial_output cfg p poll device_and_modem
      >>> (network_output cfg p poll device_and_modem
          >>> (network_input cfg p poll device_and_modem
              >>> (accept_connection cfg p poll device_and_modem
                  >>> (open_device cfg p >>> notify_modem_state cfg p device_and_modem))))

  -- A device that is open is not opened again, and nothing else is due between the input and the
  -- notification.
  after_on :
      (f g : Main Handle → Step Handle) (m : Main Handle) {n : Main Handle}
      → f m ≡ on n
      → (f >>> g) m ≡ g n
  after_on f g m e = rw (e, ◌>>>◌) refl

  calm_lem :
      (poll : Poll) (m : Main Handle)
      → m.device_fd ≡ true
      → calm poll m ≡ notify_modem_state cfg p device_and_modem m
  unfolding calm serial_output network_output network_input accept_connection open_device
  calm_lem poll m set =
      after_on (open_device cfg p) (notify_modem_state cfg p device_and_modem) m
        (still_open m.in_socket_fd m.out_socket_fd)
    where
      still_open :
          (a b : Bool)
          → open_device cfg p (record m { in_socket_fd = a; out_socket_fd = b })
            ≡ on (record m { in_socket_fd = a; out_socket_fd = b })
      still_open true true = rw set refl
      still_open true false = refl
      still_open false b = refl

  -- A round of the main loop faults in which the serial input fills the client's buffer and the modem
  -- lines have changed. The device is open, `SercdSelect` was asked for the device and for the modem
  -- state, of which both are due and nothing else is, since there was room for a notification; the
  -- read returns bytes whose escaped form takes all the room that is left, and the notification that
  -- follows in the same round fails the `assert` of `AddToBuffer`.
  pub turn-overrun :
      (poll : Poll) (m : Main Handle) (b : ℕ) (bs : List ℕ)
      → BuffersValid m.st
      → poll.select_failed ≡ false
      → poll.ready ≡ device_and_modem
      → m.device_fd ≡ true
      → m.st.input_flow ≡ true
      → m.st.port_control_enable ≡ true
      → buffer_length m.st.to_net ≤ 2039
      → dev_read cfg p poll m ≡ read_bytes (b ∷ bs)
      → buffer_length m.st.to_net + length (escape_all (is_binary m.st) m.st.write_last (b ∷ bs))
        ≡ 2047
      → (masked_lines cfg p (new_modem_state cfg p m) m.st
          == masked_lines cfg p m.st.modem_state m.st)
        ≡ false
      → turn cfg p poll m ≡ crash
  unfolding turn handle_events calm
  turn-overrun poll m b bs v selects ready set flow control room e fills changed =
      let (input, modem) = all_reported m v set flow control room in
      let (s, h, a) = (for_each-Emits (b ∷ bs)).run m.st v (omega (arith, fills)) in
      let lines : s.modem_state ≡ m.st.modem_state =
        kept_by (subst (Keeps m.st.modem_state) h (for_each-Keeps (b ∷ bs) m.st refl)) in
      let n : Main Handle = record m { st = s } in
      let still = same_lines m n a.registers_kept lines changed in
      let crashes : handle_events cfg p poll device_and_modem m ≡ fault =
        after_on (serial_input cfg p poll device_and_modem) (calm poll) m
          (reads cfg p poll device_and_modem m b bs refl set e h)
        ∙ (calm_lem poll n set
            ∙ notify_modem_state-faults cfg p device_and_modem n a.valid.net (a.longer ∙ fills) refl
                set still) in
      let sees = only_these (requested cfg m) poll.ready input modem ready in
      crash_by _ _ _ _ m (ground (arith, input)) selects (ap any_event sees)
        (ap (λ ev. handle_events cfg p poll ev m) sees ∙ crashes)
