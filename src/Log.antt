-- ===== src/Log.antt =====
-- Logging in library/src/main/jni: `LogMsg` and `UnixLogPortSettings` of unix.c and `LogPortSettings` of
-- sercd.c, in the Android build. A log line is what its format is given.
pub mod Law
use Prim.Native.String.{String}
use serial_port.Prelude.{ℕ, ◌&&◌, ◌==◌, leb, if◌then◌else◌}
use serial_port.Telnet.{
  tncom_noparity, tncom_oddparity, tncom_evenparity, tncom_markparity, tncom_spaceparity,
  tncom_onestopbit, tncom_twostopbits, tncom_one5stopbits, tncom_cmd_flow_none,
  tncom_cmd_flow_xonxoff, tncom_cmd_flow_hardware, tncom_cmd_flow_dcd, tncom_cmd_flow_dsr,
  tncom_cmd_inflow_none, tncom_cmd_inflow_xonxoff, tncom_cmd_inflow_hardware, tncom_cmd_inflow_dtr,
}
use serial_port.Settings.{
  Settings, get_port_speed, get_port_data_size, get_port_parity, get_port_stop_size,
  termios_to_tncom_out_flow, termios_to_tncom_in_flow,
}

-- "Port settings:%lu-%u-%c-%s outflow:%s inflow:%s"
pub record PortLine : Type 0 where
  pub speed : ℕ
  pub datasize : ℕ
  pub parchar : ℕ
  pub stopbits : String
  pub outflow : String
  pub inflow : String

abbrev pub parity_char : ℕ → ℕ
parity_char parity =
    if parity == tncom_oddparity
    then b'O'
    else if parity == tncom_evenparity
    then b'E'
    else if parity == tncom_markparity
    then b'M'
    else if parity == tncom_spaceparity
    then b'S'
    else if parity == tncom_noparity
    then b'N'
    else b'I'

abbrev pub stopbits_text : ℕ → String
stopbits_text stopsize =
    if stopsize == tncom_onestopbit
    then "1"
    else if stopsize == tncom_one5stopbits
    then "1.5"
    else if stopsize == tncom_twostopbits
    then "2"
    else ""

-- `switch (outflow)`, which assigns `inflowtype`
abbrev pub inflowtype : ℕ → String
inflowtype outflow =
    if outflow == tncom_cmd_flow_none
    then "none"
    else if outflow == tncom_cmd_flow_xonxoff
    then "XON/XOFF"
    else if outflow == tncom_cmd_flow_hardware
    then "RTS/CTS"
    else if outflow == tncom_cmd_flow_dcd
    then "DCD flow control"
    else if outflow == tncom_cmd_flow_dsr
    then "DSR"
    else "unknown"

-- `switch (inflow)`, which assigns `outflowtype`
abbrev pub outflowtype : ℕ → String
outflowtype inflow =
    if inflow == tncom_cmd_inflow_none
    then "none"
    else if inflow == tncom_cmd_inflow_xonxoff
    then "XON/XOFF"
    else if inflow == tncom_cmd_inflow_hardware
    then "RTS/CTS"
    else if inflow == tncom_cmd_inflow_dtr
    then "DTR"
    else "unknown"

unfoldable pub log_port_settings : ℕ → ℕ → ℕ → ℕ → ℕ → ℕ → PortLine
log_port_settings speed datasize parity stopsize outflow inflow = record {
  speed = speed;
  datasize = datasize;
  parchar = parity_char parity;
  stopbits = stopbits_text stopsize;
  outflow = outflowtype inflow;
  inflow = inflowtype outflow;
}

unfoldable pub unix_log_port_settings : Settings → PortLine
unfolding log_port_settings get_port_speed get_port_data_size get_port_parity get_port_stop_size
unix_log_port_settings t =
    log_port_settings (get_port_speed t) (get_port_data_size t) (get_port_parity t)
      (get_port_stop_size t) (termios_to_tncom_out_flow t) (termios_to_tncom_in_flow t)

-- The priorities of Android's log that are used; `prio` may also be read before it is set.
pub data Prio : Type 0 where
  fatal error warn info debug unset : Prio

-- The `switch (LogLevel)`; the levels of syslog(3) are 0 to 7, from LOG_EMERG to LOG_DEBUG.
abbrev pub prio_of : ℕ → Prio
prio_of level =
    if level == 0
    then fatal
    else if leb 1 level && leb level 3
    then error
    else if level == 4
    then warn
    else if leb 5 level && leb level 6
    then info
    else if level == 7
    then debug
    else unset

pub data LogCall : Type 0 where
  dropped : LogCall
  written : Prio → LogCall

unfoldable pub log_msg : ℕ → ℕ → LogCall
log_msg max_log_level level = if leb level max_log_level then written (prio_of level) else dropped
