-- ===== src/Settings/Tests.antt =====
-- The port of library/src/main/jni/unix.c at concrete settings.
use serial_port.Prelude.{◌≡◌, true, false, ◌<◌, ◌+◌, if◌then◌else◌, bit_and}
use serial_port.Speed.{termios_to_tncom_speed, speed_of_rate}
use serial_port.Speed.Law.{is_one_of, rates, termios_to_tncom_speed-speed_of_rate}
use serial_port.Settings.{Lines, get_modem_state}
use serial_port.Settings.Law.{told, moved, get_modem_state-told}

abbrev before : Lines
before = record { car = true; rng = true; dsr = false; cts = false }

abbrev lines : Lines
lines = record { car = true; rng = false; dsr = true; cts = false }

get_modem_state-told_example :
    (bit_and (get_modem_state lines 16) 240 ≡ told lines)
    × (get_modem_state lines 16 < 256)
    × (get_modem_state lines (get_modem_state before 16) ≡ told lines + moved before lines)
get_modem_state-told_example = get_modem_state-told before lines 16

termios_to_tncom_speed-speed_of_rate_example :
    termios_to_tncom_speed (speed_of_rate 250000)
    ≡ (if is_one_of rates 250000 then 250000 else 9600)
termios_to_tncom_speed-speed_of_rate_example = termios_to_tncom_speed-speed_of_rate 250000
