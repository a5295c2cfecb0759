-- ===== src/Settings/Law.antt =====
-- What the client is told of the port's settings after it has asked for some.
use serial_port.Prelude.{
  ℕ, ◌<◌, ◌≡◌, refl, Bool, true, false, arith, bit_and, if◌then◌else◌, ◌==◌, ◌&&◌, leb, not, ◌+◌,
  ◌∙◌,
}
use serial_port.Settings.{
  Settings, Lines, get_port_data_size, get_port_parity, get_port_stop_size, get_port_flow_control,
  set_port_data_size, set_port_parity, set_port_flow_control, get_modem_state, when, line_bits,
}
use serial_port.Telnet.{tncom_cmd_flow_req, tncom_cmd_inflow_req}

-- A data size that was set is told back if it is 5, 6, 7 or 8, and 8 otherwise; the other settings are
-- told as before.
pub get_port_data_size-set_port_data_size :
    (n : ℕ) (l : Lines) (which : ℕ) (t : Settings)
    → let u = set_port_data_size n t in
      (get_port_data_size u ≡ (if leb 5 n && leb n 8 then n else 8))
      × (get_port_parity u ≡ get_port_parity t)
      × (get_port_stop_size u ≡ get_port_stop_size t)
      × (get_port_flow_control l which u ≡ get_port_flow_control l which t)
unfolding set_port_data_size get_port_data_size get_port_parity get_port_stop_size
    get_port_flow_control
get_port_data_size-set_port_data_size n l which t = (ground arith, refl, refl, refl)

-- A parity that was set is told back if it is NONE, ODD or EVEN, and NONE otherwise; the other
-- settings are told as before.
pub get_port_parity-set_port_parity :
    (v : ℕ) (l : Lines) (which : ℕ) (t : Settings)
    → let u = set_port_parity v t in
      (get_port_parity u ≡ (if leb 1 v && leb v 3 then v else 1))
      × (get_port_data_size u ≡ get_port_data_size t)
      × (get_port_stop_size u ≡ get_port_stop_size t)
      × (get_port_flow_control l which u ≡ get_port_flow_control l which t)
unfolding set_port_parity get_port_data_size get_port_parity get_port_stop_size
    get_port_flow_control
get_port_parity-set_port_parity v l which t =
    (ground arith, ground arith, ground arith, ground arith)

-- A flow control that was set for both directions, NONE, XON/XOFF or HARDWARE, is told back for both:
-- the inbound answer is 13 above the outbound one.
pub get_port_flow_control-set_port_flow_control :
    (how : ℕ) (l : Lines) (t : Settings)
    → (leb 1 how && leb how 3) ≡ true
    → let u = set_port_flow_control how t in
      (get_port_flow_control l tncom_cmd_flow_req u ≡ how)
      × (get_port_flow_control l tncom_cmd_inflow_req u ≡ how + 13)
unfolding set_port_flow_control get_port_flow_control
get_port_flow_control-set_port_flow_control how l t h = (ground arith, ground arith)

every : (Bool → Bool) → Bool
every p = p true && p false

every_sound : (p : Bool → Bool) → every p ≡ true → (b : Bool) → p b ≡ true
unfolding every
every_sound p e true = ground arith
every_sound p e false = ground arith

-- A byte from its bits, those of the lines and those of their changes.
abbrev byte : Lines → Bool → Bool → Bool → Bool → ℕ
byte l e f g h = line_bits l + when e 8 + when f 4 + when g 2 + when h 1

-- The bits of the lines come back from the byte, one by one and together.
abbrev reads_lines : Lines → Bool → Bool → Bool → Bool → Bool
reads_lines l e f g h =
    (bit_and (byte l e f g h) 128 == when l.car 128)
    && ((bit_and (byte l e f g h) 64 == when l.rng 64)
        && ((bit_and (byte l e f g h) 32 == when l.dsr 32)
            && ((bit_and (byte l e f g h) 16 == when l.cts 16)
                && (bit_and (byte l e f g h) 240 == line_bits l))))

abbrev lines_of : Bool → Bool → Bool → Bool → Lines
lines_of a b c d = record { car = a; rng = b; dsr = c; cts = d }

reads_lines_table :
    every (λ a. every (λ b. every (λ c. every (λ d.
      every (λ e. every (λ f. every (λ g. every (λ h. reads_lines (lines_of a b c d) e f g h))))))))
    ≡ true
unfolding every
reads_lines_table = refl

reads_lines_lem : (l : Lines) (e f g h : Bool) → reads_lines l e f g h ≡ true
reads_lines_lem l e f g h =
    every_sound _
      (every_sound _
        (every_sound _
          (every_sound _
            (every_sound _
              (every_sound _ (every_sound _ (every_sound _ reads_lines_table l.car) l.rng) l.dsr)
              l.cts)
            e)
          f)
        g)
      h

-- Whether the line's bit differs from that of the state before.
abbrev toggled : Bool → ℕ → ℕ → Bool
toggled line bit old = not (when line bit == bit_and old bit)

get_modem_state-byte :
    (l : Lines) (old : ℕ)
    → get_modem_state l old
      ≡ byte l
          (toggled l.car 128 old)
          (toggled l.rng 64 old)
          (toggled l.dsr 32 old)
          (toggled l.cts 16 old)
unfolding get_modem_state
get_modem_state-byte l old =
    let e = toggled l.car 128 old in
    let f = toggled l.rng 64 old in
    let g = toggled l.dsr 32 old in
    ground (
      arith,
      reads_lines_lem l false false false false,
      reads_lines_lem l e false false false,
      reads_lines_lem l e f false false,
      reads_lines_lem l e f g false,
    )

-- The lines as the protocol tells them: carrier detect, ring indicator, DSR and CTS from bit 7 down to
-- bit 4.
abbrev pub told : Lines → ℕ
told l =
    (if l.car then 128 else 0)
    + (if l.rng then 64 else 0)
    + (if l.dsr then 32 else 0)
    + (if l.cts then 16 else 0)

abbrev differ : Bool → Bool → Bool
differ true b = not b
differ false b = b

-- The lines that changed, from bit 3 down to bit 0 in the same order.
abbrev pub moved : Lines → Lines → ℕ
moved l0 l =
    (if differ l0.car l.car then 8 else 0)
    + (if differ l0.rng l.rng then 4 else 0)
    + (if differ l0.dsr l.dsr then 2 else 0)
    + (if differ l0.cts l.cts then 1 else 0)

toggled_lem :
    (a b : Bool) (bit n : ℕ)
    → (bit == 0) ≡ false
    → (n == when a bit) ≡ true
    → not (when b bit == n) ≡ differ a b
toggled_lem true true bit n pos h = ground (arith, h)
toggled_lem true false bit n pos h = ground (arith, h, pos)
toggled_lem false true bit n pos h = ground (arith, h, pos)
toggled_lem false false bit n pos h = ground (arith, h)

and_true : (a b : Bool) → (a && b) ≡ true → (a ≡ true) × (b ≡ true)
and_true true b h = (refl, h)
and_true false b h = cc

moved_bits :
    (l0 l : Lines) (e f g h : Bool)
    → byte l
        (toggled l.car 128 (byte l0 e f g h))
        (toggled l.rng 64 (byte l0 e f g h))
        (toggled l.dsr 32 (byte l0 e f g h))
        (toggled l.cts 16 (byte l0 e f g h))
      ≡ told l + moved l0 l
moved_bits l0 l e f g h =
    let (h128, r1) = and_true _ _ (reads_lines_lem l0 e f g h) in
    let (h64, r2) = and_true _ _ r1 in
    let (h32, r3) = and_true _ _ r2 in
    let (h16, r4) = and_true _ _ r3 in
    let a = toggled_lem l0.car l.car 128 _ refl h128 in
    let b = toggled_lem l0.rng l.rng 64 _ refl h64 in
    let c = toggled_lem l0.dsr l.dsr 32 _ refl h32 in
    let d = toggled_lem l0.cts l.cts 16 _ refl h16 in
    (λ i. byte l (a i) (b i) (c i) (d i)) ∙ omega arith

-- `GetModemState` reports the modem lines in the four high bits of a byte, whatever state it is given.
-- Given the byte of an earlier call, whatever that call was given, it reports in the four low bits
-- exactly the lines that changed since.
pub get_modem_state-told :
    (l0 l : Lines) (old : ℕ)
    → (bit_and (get_modem_state l old) 240 ≡ told l)
      × (get_modem_state l old < 256)
      × (get_modem_state l (get_modem_state l0 old) ≡ told l + moved l0 l)
get_modem_state-told l0 l old =
    let e = toggled l.car 128 old in
    let f = toggled l.rng 64 old in
    let g = toggled l.dsr 32 old in
    let h = toggled l.cts 16 old in
    (
      ground (arith, get_modem_state-byte l old, reads_lines_lem l e f g h),
      ground (arith, get_modem_state-byte l old),
      get_modem_state-byte l (get_modem_state l0 old)
          ∙ (rw (get_modem_state-byte l0 old) (
              moved_bits l0 l (toggled l0.car 128 old) (toggled l0.rng 64 old)
                (toggled l0.dsr 32 old) (toggled l0.cts 16 old))),
    )
