-- ===== src/MainLoop/Delivery.antt =====
-- Data through the main loop of library/src/main/jni/sercd.c, from the client to the device and from the
-- device to the client: what one round reads, and what the next ones write.
use serial_port.Prelude.{
  ℕ, ◌+◌, ◌*◌, ◌≤◌, ◌≡◌, refl, ap, ◌∙◌, Bool, true, some, List, [], ◌∷◌, ◌++◌, arith, length,
  length-append, for_each,
}
use serial_port.Buffer.{buffer_length, buffer_room_left, is_buffer_empty}
use serial_port.Buffer.Validity.{IsValid, room-add-length}
use serial_port.Buffer.Refine.{contents}
use serial_port.State.{State, Port, Config, iac_normal}
use serial_port.State.Steps.{BuffersValid}
use serial_port.Send.Wire.{escape, escape_all, last_of, is_binary, for_each-Emits}
use serial_port.MainLoop.Tunnel.{reads, length-escape_all}
use serial_port.Redirect.{esc_redirect_char}
use serial_port.Redirect.Stream.{receives_binary, redirect-escape_all}
use serial_port.LoopState.{Poll, Events, Main, Step, on, read_bytes, io_result_error}
use serial_port.MainLoop.{net_read, network_trybytes, network_input, dev_read, serial_input}
use serial_port.MainLoop.Sound.{ReadsFit}
use serial_port.MainLoop.Drain.{Accepting, Outlet, drained, drained-contents, to_device, to_client}

length-escape_least : (binary : Bool) (last c : ℕ) → 1 ≤ length (escape binary last c)
length-escape_least binary last c = ground arith

length-escape_all_least :
    (binary : Bool) (last : ℕ) (cs : List ℕ) → length cs ≤ length (escape_all binary last cs)
unfolding escape_all
length-escape_all_least binary last [] = omega arith
length-escape_all_least binary last (c ∷ cs) = omega (
  arith,
  length-append (escape binary last c) (escape_all binary c cs),
  length-escape_least binary last c,
  length-escape_all_least binary c cs,
)

-- What one round reads is written by an output: what waited for it before, and then these bytes.
pub record Delivered {P : Type 0} (outlet : Outlet P) (polls : ℕ → Poll) (rounds : ℕ)
    (read_step : Step P) (m n : Main P) (cs : List ℕ) : Type 0 where
  pub after_output : Main P
  pub read : read_step ≡ on n
  pub written :
      drained outlet polls rounds n ≡ some (contents (outlet.waiting m) ++ cs, after_output)
  pub nothing_left : is_buffer_empty (outlet.waiting after_output) ≡ true

passed_on :
    {P : Type 0} (outlet : Outlet P) (polls : ℕ → Poll) (rounds : ℕ) (read_step : Step P)
    (m n : Main P) (cs : List ℕ)
    → ((i : ℕ) → Accepting (outlet.write (polls i)))
    → read_step ≡ on n
    → outlet.is_open n ≡ true
    → IsValid (outlet.waiting n)
    → contents (outlet.waiting n) ≡ contents (outlet.waiting m) ++ cs
    → buffer_length (outlet.waiting n) ≤ rounds
    → Delivered outlet polls rounds read_step m n cs
passed_on outlet polls rounds read_step m n cs takes e set v appended le =
    let (o, h, empty) = drained-contents outlet polls takes rounds n v set le in
    record {
      after_output = o;
      read = e;
      written = h ∙ ap (λ k. some (k, o)) appended;
      nothing_left = empty;
    }

module _ (cfg : Config) (p : Port) where
  open p use {Handle}

  -- What the client's side sends for the data: escaped, with the redirector's view.
  abbrev pub sent_for : List ℕ → State Handle → List ℕ
  sent_for cs s = escape_all (receives_binary s) s.redirect_last cs

  goes_in :
      (poll : Poll) (ev : Events) (m : Main Handle) (bs : List ℕ) {t : State Handle}
      → 1 ≤ length bs
      → ev.socket_in ≡ true
      → m.in_socket_fd ≡ true
      → m.device_fd ≡ true
      → net_read cfg p poll m ≡ read_bytes bs
      → for_each (esc_redirect_char cfg p) bs m.st ≡ some t
      → network_input cfg p poll ev m ≡ on (record m { st = t })
  unfolding network_input io_result_error
  goes_in poll ev m [] some_bytes asked in_set dev_set e h = absurd (omega arith)
  goes_in poll ev m (b ∷ bs) some_bytes asked in_set dev_set e h =
      rw (asked, in_set, dev_set, e, h) refl

  -- Data of a client get to the device: if a round reads the bytes that `EscWriteChar` makes of some
  -- data, with the redirector's view of binary mode and of the last byte, and no more bytes than it asked for, outside of any
  -- command and with valid buffers, then it does not fault; and if afterwards the device takes at least one byte
  -- of what it is offered in every round of serial output, then in as many rounds as bytes are
  -- waiting it is written what waited before and then exactly the data, and the buffer is empty.
  -- After the read the redirector is outside of any command, with the last data byte as its last one,
  -- the options as they were and valid buffers, so that the next data may follow.
  pub network_input-drained :
      (poll : Poll) (ev : Events) (polls : ℕ → Poll) (rounds : ℕ) (m : Main Handle) (b : ℕ)
      (bs : List ℕ)
      → ReadsFit poll
      → ((i : ℕ) → Accepting ((polls i).write_dev))
      → BuffersValid m.st
      → m.st.iac_escape ≡ iac_normal
      → ev.socket_in ≡ true
      → m.in_socket_fd ≡ true
      → m.device_fd ≡ true
      → net_read cfg p poll m ≡ read_bytes (sent_for (b ∷ bs) m.st)
      → buffer_length m.st.to_dev + length (b ∷ bs) ≤ rounds
      → (n : Main Handle) × Delivered
          (to_device cfg p)
          polls
          rounds
          (network_input cfg p poll ev m)
          m
          n
          (b ∷ bs)
        × (n.st.iac_escape ≡ iac_normal)
        × (n.st.redirect_last ≡ last_of m.st.redirect_last (b ∷ bs))
        × (n.st.tnstate ≡ m.st.tnstate)
        × BuffersValid n.st
  network_input-drained poll ev polls rounds m b bs fit takes v outside asked in_set dev_set e le =
      let wire = sent_for (b ∷ bs) m.st in
      let longer = length-escape_all_least (receives_binary m.st) m.st.redirect_last (b ∷ bs) in
      let few : length wire ≤ buffer_room_left m.st.to_dev =
        ground (arith, fit.net (network_trybytes cfg p m.st) wire e) in
      let (t, h, d) =
        redirect-escape_all cfg p (b ∷ bs) m.st v outside
          (omega (arith, longer, few, room-add-length v.dev)) in
      (
        record m { st = t },
        passed_on (to_device cfg p) polls rounds (network_input cfg p poll ev m) m
            (record m { st = t }) (b ∷ bs) takes
            (goes_in poll ev m wire (omega (arith, longer)) asked in_set dev_set e h) dev_set
            d.valid.dev d.appended (omega (arith, d.longer, le)),
        d.outside,
        d.last_is,
        d.options_kept,
        d.valid,
      )

  -- What the device sends gets to the client: if a round reads some bytes from the device, and no more than
  -- it asked for, with valid buffers, then it does not fault; and if afterwards the client's socket takes
  -- at least one byte of what it is offered in every round of network output, then in as many rounds as
  -- bytes are waiting it is written what waited before and then exactly the bytes that were read,
  -- escaped, and the buffer is empty.
  pub serial_input-drained :
      (poll : Poll) (ev : Events) (polls : ℕ → Poll) (rounds : ℕ) (m : Main Handle) (b : ℕ)
      (bs : List ℕ)
      → ReadsFit poll
      → ((i : ℕ) → Accepting ((polls i).write_net))
      → BuffersValid m.st
      → ev.device_in ≡ true
      → m.device_fd ≡ true
      → m.out_socket_fd ≡ true
      → dev_read cfg p poll m ≡ read_bytes (b ∷ bs)
      → let wire = escape_all (is_binary m.st) m.st.write_last (b ∷ bs) in
        buffer_length m.st.to_net + length wire ≤ rounds
        → (n : Main Handle) × Delivered
            (to_client cfg p)
            polls
            rounds
            (serial_input cfg p poll ev m)
            m
            n
            wire
          × (n.st.write_last ≡ last_of m.st.write_last (b ∷ bs))
          × (n.st.to_dev ≡ m.st.to_dev)
          × (n.st.tnstate ≡ m.st.tnstate)
          × BuffersValid n.st
  serial_input-drained poll ev polls rounds m b bs fit takes v asked dev_set out_set e le =
      let wire = escape_all (is_binary m.st) m.st.write_last (b ∷ bs) in
      let few : 2 * length (b ∷ bs) ≤ buffer_room_left m.st.to_net =
        ground (arith, fit.dev _ (b ∷ bs) e) in
      let (t, h, a) = (for_each-Emits (b ∷ bs)).run m.st v (
        omega (
          arith,
          few,
          length-escape_all (is_binary m.st) m.st.write_last (b ∷ bs),
          room-add-length v.net,
        )) in
      (
        record m { st = t },
        passed_on (to_client cfg p) polls rounds (serial_input cfg p poll ev m) m
            (record m { st = t }) wire takes (reads cfg p poll ev m b bs asked dev_set e h) out_set
            a.valid.net a.appended (omega (arith, a.longer, le)),
        a.last_is,
        a.dev_kept,
        a.options_kept,
        a.valid,
      )
