-- ===== src/MainLoop/Tunnel.antt =====
-- The serial input of one redirector of library/src/main/jni/sercd.c, and another one that reads what it
-- sends: a tunnel from serial device to serial device.
use serial_port.Prelude.{
  ℕ, ◌+◌, ◌*◌, ◌≤◌, ◌≡◌, refl, sym, ap, ◌∙◌, Bool, true, some, List, [], ◌∷◌, ◌++◌, arith, length,
  length-append, for_each,
}
use serial_port.Telnet.{tn_transmit_binary}
use serial_port.Buffer.{buffer_length, buffer_room_left}
use serial_port.Buffer.Validity.{room-add-length}
use serial_port.Buffer.Refine.{contents}
use serial_port.State.{State, Port, Config, iac_normal}
use serial_port.State.Steps.{BuffersValid}
use serial_port.Send.{esc_write_char}
use serial_port.Send.Wire.{escape, escape_all, last_of, is_binary, for_each-Emits}
use serial_port.Redirect.{esc_redirect_char}
use serial_port.Redirect.Stream.{receives_binary, redirect-escape_all}
use serial_port.LoopState.{Poll, Events, Main, on, read_bytes, io_result_error}
use serial_port.MainLoop.{dev_read, serial_input}
use serial_port.MainLoop.Sound.{ReadsFit}

-- A sender and a receiver that have the same view of binary mode and of the last byte, with valid
-- buffers, the receiver outside of any command.
pub record Paired {P Q : Type 0} (s : State P) (t : State Q) : Type 0 where
  pub sender : BuffersValid s
  pub receiver : BuffersValid t
  pub outside : t.iac_escape ≡ iac_normal
  pub binary : receives_binary t ≡ is_binary s
  pub last : t.redirect_last ≡ s.write_last

length-escape : (binary : Bool) (last c : ℕ) → length (escape binary last c) ≤ 2
length-escape binary last c = ground arith

pub length-escape_all :
    (binary : Bool) (last : ℕ) (cs : List ℕ) → length (escape_all binary last cs) ≤ 2 * length cs
unfolding escape_all
length-escape_all binary last [] = omega arith
length-escape_all binary last (c ∷ cs) = omega (
  arith,
  length-append (escape binary last c) (escape_all binary c cs),
  length-escape binary last c,
  length-escape_all binary c cs,
)

module _ (cfg : Config) (p : Port) where
  -- A round's serial input where a read returns something.
  pub reads :
      (poll : Poll) (ev : Events) (m : Main p.Handle) (b : ℕ) (bs : List ℕ) {s : State p.Handle}
      → ev.device_in ≡ true
      → m.device_fd ≡ true
      → dev_read cfg p poll m ≡ read_bytes (b ∷ bs)
      → for_each esc_write_char (b ∷ bs) m.st ≡ some s
      → serial_input cfg p poll ev m ≡ on (record m { st = s })
  unfolding serial_input io_result_error
  reads poll ev m b bs asked set e h = rw (asked, set, e, h) refl

module _ (cfg : Config) (p : Port) (peer_cfg : Config) (peer : Port) where
  -- What the serial device of one redirector sends comes out of the serial device of another one: if a
  -- read from the device returns some bytes, no more than asked for, and the other redirector has the
  -- same view of binary mode and of the last byte, is outside of any command and has room for the
  -- bytes, then the serial input does not fault and adds bytes to the client's buffer that
  -- `EscRedirectChar` of the other redirector turns into exactly the bytes that were read, at the end
  -- of its device's buffer; and the two have the same view again.
  pub serial_input-redirect :
      (poll : Poll) (ev : Events) (m : Main p.Handle) (s : State peer.Handle) (b : ℕ) (bs : List ℕ)
      → ReadsFit poll
      → ev.device_in ≡ true
      → m.device_fd ≡ true
      → dev_read cfg p poll m ≡ read_bytes (b ∷ bs)
      → Paired m.st s
      → buffer_length s.to_dev + length (b ∷ bs) ≤ 2047
      → (n : Main p.Handle) × (t : State peer.Handle) × (wire : List ℕ) × (serial_input cfg p poll
            ev m
          ≡ on n)
        × (contents n.st.to_net ≡ contents m.st.to_net ++ wire)
        × (for_each (esc_redirect_char peer_cfg peer) wire s ≡ some t)
        × (contents t.to_dev ≡ contents s.to_dev ++ (b ∷ bs))
        × Paired n.st t
  serial_input-redirect poll ev m s b bs fit asked set e v room =
      let out = escape_all (is_binary m.st) m.st.write_last (b ∷ bs) in
      let few : 2 * length (b ∷ bs) ≤ buffer_room_left m.st.to_net =
        ground (arith, fit.dev _ (b ∷ bs) e) in
      let (s', h, a) = (for_each-Emits (b ∷ bs)).run m.st v.sender (
        omega (
          arith,
          few,
          length-escape_all (is_binary m.st) m.st.write_last (b ∷ bs),
          room-add-length v.sender.net,
        )) in
      let (t, h', d) = redirect-escape_all peer_cfg peer (b ∷ bs) s v.receiver v.outside room in
      (
        record m { st = s' },
        t,
        out,
        reads cfg p poll ev m b bs asked set e h,
        a.appended,
        ap (λ k. for_each (esc_redirect_char peer_cfg peer) k s)
              (λ i. escape_all (sym v.binary i) (sym v.last i) (b ∷ bs))
            ∙ h',
        d.appended,
        record {
          sender = a.valid;
          receiver = d.valid;
          outside = d.outside;
          binary =
              ap (λ k. (k tn_transmit_binary).is_do) d.options_kept
              ∙ v.binary
              ∙ ap (λ k. (k tn_transmit_binary).is_will) (sym a.options_kept);
          last = d.last_is ∙ ap (λ l. last_of l (b ∷ bs)) v.last ∙ sym a.last_is;
        },
      )
