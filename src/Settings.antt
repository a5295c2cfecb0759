-- ===== src/Settings.antt =====
-- The serial port's settings in library/src/main/jni/unix.c: the flag words of `struct termios` and
-- the modem lines, what the client asks of them, and what it is told. A flag is a field: the bits of
-- the system's constants are distinct, and `CSIZE` covers its four values. Log lines are left out.
pub mod Law
pub mod Opening
mod Tests
use serial_port.Prelude.{
  ℕ, ◌+◌, Option, none, some, Bool, true, false, not, ◌==◌, if◌then◌else◌, bit_and,
}
use serial_port.Speed.{Speed, termios_to_tncom_speed, speed_of_rate}
use serial_port.State.{Port}
use serial_port.Telnet.{
  tncom_noparity, tncom_oddparity, tncom_evenparity, tncom_onestopbit, tncom_twostopbits,
  tncom_cmd_flow_none, tncom_cmd_flow_xonxoff, tncom_cmd_flow_hardware, tncom_cmd_dtr_req,
  tncom_cmd_dtr_on, tncom_cmd_dtr_off, tncom_cmd_rts_req, tncom_cmd_rts_on, tncom_cmd_rts_off,
  tncom_purge_rx, tncom_purge_tx, tncom_purge_both, tncom_cmd_inflow_req, tncom_cmd_inflow_none,
  tncom_cmd_inflow_xonxoff, tncom_cmd_inflow_hardware,
}

pub data CharSize : Type 0 where
  cs5 cs6 cs7 cs8 : CharSize

-- `struct termios`: what `tcgetattr` gives and `tcsetattr` takes.
pub record Settings : Type 0 where
  pub speed : Speed
  pub csize : CharSize
  pub parenb : Bool
  pub parodd : Bool
  pub cstopb : Bool
  pub crtscts : Bool
  pub ixon : Bool
  pub ixoff : Bool
  pub hupcl : Bool
  pub clocal : Bool
  pub ignbrk : Bool
  pub brkint : Bool

-- The modem lines that TIOCMSET sets, and that no `struct termios` holds.
pub record Outputs : Type 0 where
  pub dtr : Bool
  pub rts : Bool

-- The modem lines that the other side drives.
pub record Lines : Type 0 where
  pub car : Bool
  pub rng : Bool
  pub dsr : Bool
  pub cts : Bool

unfoldable pub get_port_speed : Settings → ℕ
get_port_speed t = termios_to_tncom_speed t.speed

abbrev pub termios_to_tncom_data_size : CharSize → ℕ
termios_to_tncom_data_size cs5 = 5
termios_to_tncom_data_size cs6 = 6
termios_to_tncom_data_size cs7 = 7
termios_to_tncom_data_size cs8 = 8

unfoldable pub get_port_data_size : Settings → ℕ
get_port_data_size t = termios_to_tncom_data_size t.csize

abbrev pub termios_to_tncom_parity : Settings → ℕ
termios_to_tncom_parity t =
    if not t.parenb then tncom_noparity else if t.parodd then tncom_oddparity else tncom_evenparity

abbrev pub termios_to_tncom_stop_size : Settings → ℕ
termios_to_tncom_stop_size t = if not t.cstopb then tncom_onestopbit else tncom_twostopbits

unfoldable pub get_port_parity : Settings → ℕ
get_port_parity t = termios_to_tncom_parity t

unfoldable pub get_port_stop_size : Settings → ℕ
get_port_stop_size t = termios_to_tncom_stop_size t

abbrev pub termios_to_tncom_out_flow : Settings → ℕ
termios_to_tncom_out_flow t =
    if t.ixon
    then tncom_cmd_flow_xonxoff
    else if t.crtscts
    then tncom_cmd_flow_hardware
    else tncom_cmd_flow_none

abbrev pub termios_to_tncom_in_flow : Settings → ℕ
termios_to_tncom_in_flow t =
    if t.ixoff
    then tncom_cmd_inflow_xonxoff
    else if t.crtscts
    then tncom_cmd_inflow_hardware
    else tncom_cmd_inflow_none

-- DTR and RTS are answered by the input lines DSR and CTS.
unfoldable pub get_port_flow_control : Lines → ℕ → Settings → ℕ
get_port_flow_control l which t =
    if which == tncom_cmd_dtr_req
    then (if l.dsr then tncom_cmd_dtr_on else tncom_cmd_dtr_off)
    else if which == tncom_cmd_rts_req
    then (if l.cts then tncom_cmd_rts_on else tncom_cmd_rts_off)
    else if which == tncom_cmd_inflow_req
    then termios_to_tncom_in_flow t
    else termios_to_tncom_out_flow t

unfoldable pub set_port_speed : ℕ → Settings → Settings
set_port_speed rate t = record t { speed = speed_of_rate rate }

abbrev pub data_size_flag : ℕ → CharSize
data_size_flag n = if n == 5 then cs5 else if n == 6 then cs6 else if n == 7 then cs7 else cs8

unfoldable pub set_port_data_size : ℕ → Settings → Settings
set_port_data_size n t = record t { csize = data_size_flag n }

unfoldable pub set_port_parity : ℕ → Settings → Settings
set_port_parity v t =
    if v == tncom_noparity
    then record t { parenb = false }
    else if v == tncom_oddparity
    then record t { parenb = true; parodd = true }
    else if v == tncom_evenparity
    then record t { parenb = true; parodd = false }
    else record t { parenb = false }

unfoldable pub set_port_stop_size : ℕ → Settings → Settings
set_port_stop_size v t =
    if v == tncom_onestopbit
    then record t { cstopb = false }
    else if v == tncom_twostopbits
    then record t { cstopb = true }
    else record t { cstopb = false }

-- What `SetPortFlowControl` makes of the flags.
unfoldable pub set_port_flow_control : ℕ → Settings → Settings
set_port_flow_control how t =
    if how == tncom_cmd_flow_none
    then record t { ixon = false; ixoff = false; crtscts = false }
    else if how == tncom_cmd_flow_xonxoff
    then record t { ixon = true; ixoff = true; crtscts = false }
    else if how == tncom_cmd_flow_hardware
    then record t { ixon = false; ixoff = false; crtscts = true }
    else t

-- What `SetPortFlowControl` makes of the modem lines.
unfoldable pub set_modem_lines : ℕ → Outputs → Outputs
set_modem_lines how o =
    if how == tncom_cmd_dtr_on
    then record o { dtr = true }
    else if how == tncom_cmd_dtr_off
    then record o { dtr = false }
    else if how == tncom_cmd_rts_on
    then record o { rts = true }
    else if how == tncom_cmd_rts_off
    then record o { rts = false }
    else o

-- A line's bit of the modem state.
abbrev pub when : Bool → ℕ → ℕ
when b bit = if b then bit else 0

-- Whether a line's bit differs from that of the state before.
abbrev pub changed : ℕ → ℕ → ℕ → Bool
changed bit new old = not (bit_and new bit == bit_and old bit)

abbrev pub line_bits : Lines → ℕ
line_bits l = when l.car 128 + when l.rng 64 + when l.dsr 32 + when l.cts 16

-- `MState` is summed up as it goes: each test reads what is there so far.
unfoldable pub get_modem_state : Lines → ℕ → ℕ
get_modem_state l old =
    let m = line_bits l in
    let m1 = m + when (changed 128 m old) 8 in
    let m2 = m1 + when (changed 64 m1 old) 4 in
    let m3 = m2 + when (changed 32 m2 old) 2 in m3 + when (changed 16 m3 old) 1

-- A serial port: its settings, the lines that are set, the others as they are when they are asked for, and what
-- `InitialPortSettings` points to.
pub record Device : Type 0 where
  pub settings : Settings
  pub outputs : Outputs
  pub lines : Lines
  pub initial_port_settings : Option Settings

pub data FlushQueue : Type 0 where
  tciflush tcoflush tcioflush : FlushQueue

-- The system's calls on the port: what `cfmakeraw` makes of the settings, whether `open` fails, whether
-- `tcsetattr` fails on given settings, and what a break and a flush do.
pub record SystemCalls : Type 0 where
  pub cfmakeraw : Settings → Settings
  pub open_fails : Device → Bool
  pub tcsetattr_fails : Settings → Device → Bool
  pub tcsendbreak : Device → Device
  pub tcflush : FlushQueue → Device → Device

module _ (calls : SystemCalls) where
  -- `tcsetattr`, of which the source never looks at the result.
  abbrev pub write_settings : Settings → Device → Device
  write_settings t d = if calls.tcsetattr_fails t d then d else record d { settings = t }

  -- `tcgetattr`, a change, and `tcsetattr`.
  abbrev pub with_settings : (Settings → Settings) → Device → Device
  with_settings f d = write_settings (f d.settings) d

  -- `SetPortFlowControl`: the flags and the modem lines.
  unfoldable pub change_flow_control : ℕ → Device → Device
  change_flow_control how d =
      let u = with_settings (set_port_flow_control how) d in
      record u { outputs = set_modem_lines how d.outputs }

  unfoldable pub open_port : Device → Option Device
  open_port d =
      if calls.open_fails d
      then none
      else some (
          write_settings
            (record (calls.cfmakeraw d.settings) {
              hupcl = true;
              clocal = true;
              ignbrk = false;
              brkint = true;
            })
            (record d { initial_port_settings = some d.settings }))

  unfoldable pub close_port : Device → Device
  close_port d = elim d.initial_port_settings [ none ↦ d | some t ↦ write_settings t d ]

  unfoldable pub set_break : Bool → Device → Device
  set_break on d = if on then calls.tcsendbreak d else d

  unfoldable pub set_flush : ℕ → Device → Device
  set_flush selector d =
      if selector == tncom_purge_rx
      then calls.tcflush tciflush d
      else if selector == tncom_purge_tx
      then calls.tcflush tcoflush d
      else if selector == tncom_purge_both
      then calls.tcflush tcioflush d
      else d

  -- The port that unix.c makes of the system's.
  abbrev pub unix_port : Port
  unix_port = record {
    Handle = Device;
    get_port_speed = λ d. get_port_speed d.settings;
    get_port_data_size = λ d. get_port_data_size d.settings;
    get_port_parity = λ d. get_port_parity d.settings;
    get_port_stop_size = λ d. get_port_stop_size d.settings;
    get_port_flow_control = λ d which. get_port_flow_control d.lines which d.settings;
    get_modem_state = λ d old. get_modem_state d.lines old;
    set_port_speed = λ rate. with_settings (set_port_speed rate);
    set_port_data_size = λ n. with_settings (set_port_data_size n);
    set_port_parity = λ v. with_settings (set_port_parity v);
    set_port_stop_size = λ v. with_settings (set_port_stop_size v);
    set_port_flow_control = change_flow_control;
    set_break = set_break;
    set_flush = set_flush;
    open_port = open_port;
    close_port = close_port;
  }
