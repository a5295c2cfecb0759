-- ===== src/Settings/Opening.antt =====
-- Opening and closing the serial port in library/src/main/jni/unix.c.
use serial_port.Prelude.{ℕ, true, false, List, [], ◌∷◌}
use serial_port.Settings.{
  Settings, Device, SystemCalls, with_settings, change_flow_control, set_port_speed,
  set_port_data_size, set_port_parity, set_port_stop_size,
}

-- A request that changes the port's settings.
pub data Change : Type 0 where
  speed data_size parity stop_size flow_control : ℕ → Change

module _ (calls : SystemCalls) where
  abbrev pub changed_by : Change → Device → Device
  changed_by (speed n) = with_settings calls (set_port_speed n)
  changed_by (data_size n) = with_settings calls (set_port_data_size n)
  changed_by (parity n) = with_settings calls (set_port_parity n)
  changed_by (stop_size n) = with_settings calls (set_port_stop_size n)
  changed_by (flow_control n) = change_flow_control calls n

  unfoldable pub changed_by_all : List Change → Device → Device
  changed_by_all [] d = d
  changed_by_all (c ∷ cs) d = changed_by_all cs (changed_by c d)

  abbrev raw : Settings → Settings
  raw t = record (calls.cfmakeraw t) { hupcl = true; clocal = true; ignbrk = false; brkint = true }
