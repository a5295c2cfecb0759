-- ===== src/Speed.antt =====
-- The speeds of a serial port in library/src/main/jni/unix.c and serial.c: the system's `speed_t` constants, and the
-- rates in bits per second that the protocol speaks of.
pub mod Law
use serial_port.Prelude.{ℕ, Option, none, some, if◌then◌else◌, ◌==◌}

-- `speed_t`: the constants that the code names, and any other value.
pub data Speed : Type 0 where
  b50 b75 b110 b134 b150 b200 b300 b600 b1200 b1800 b2400 b4800 b9600 b19200 b38400 b57600 b115200
        b230400 b460800 :
      Speed
  b0 b500000 b576000 b921600 b1000000 b1152000 b1500000 b2000000 b2500000 b3000000 b3500000
        b4000000 :
      Speed
  other_speed : ℕ → Speed

unfoldable pub termios_to_tncom_speed : Speed → ℕ
termios_to_tncom_speed b50 = 50
termios_to_tncom_speed b75 = 75
termios_to_tncom_speed b110 = 110
termios_to_tncom_speed b134 = 134
termios_to_tncom_speed b150 = 150
termios_to_tncom_speed b200 = 200
termios_to_tncom_speed b300 = 300
termios_to_tncom_speed b600 = 600
termios_to_tncom_speed b1200 = 1200
termios_to_tncom_speed b1800 = 1800
termios_to_tncom_speed b2400 = 2400
termios_to_tncom_speed b4800 = 4800
termios_to_tncom_speed b9600 = 9600
termios_to_tncom_speed b19200 = 19200
termios_to_tncom_speed b38400 = 38400
termios_to_tncom_speed b57600 = 57600
termios_to_tncom_speed b115200 = 115200
termios_to_tncom_speed b230400 = 230400
termios_to_tncom_speed b460800 = 460800
termios_to_tncom_speed _ = 0

-- The `switch` of `SetPortSpeed`.
unfoldable pub speed_of_rate : ℕ → Speed
speed_of_rate rate =
    if rate == 50
    then b50
    else if rate == 75
    then b75
    else if rate == 110
    then b110
    else if rate == 134
    then b134
    else if rate == 150
    then b150
    else if rate == 200
    then b200
    else if rate == 300
    then b300
    else if rate == 600
    then b600
    else if rate == 1200
    then b1200
    else if rate == 1800
    then b1800
    else if rate == 2400
    then b2400
    else if rate == 4800
    then b4800
    else if rate == 9600
    then b9600
    else if rate == 19200
    then b19200
    else if rate == 38400
    then b38400
    else if rate == 57600
    then b57600
    else if rate == 115200
    then b115200
    else if rate == 230400
    then b230400
    else if rate == 460800
    then b460800
    else b9600

-- `getBaudrate`; the rate is a `jint`, and -1 for a rate without a constant is `none`.
unfoldable pub get_baudrate : ℕ → Option Speed
get_baudrate baudrate =
    if baudrate == 0
    then some b0
    else if baudrate == 50
    then some b50
    else if baudrate == 75
    then some b75
    else if baudrate == 110
    then some b110
    else if baudrate == 134
    then some b134
    else if baudrate == 150
    then some b150
    else if baudrate == 200
    then some b200
    else if baudrate == 300
    then some b300
    else if baudrate == 600
    then some b600
    else if baudrate == 1200
    then some b1200
    else if baudrate == 1800
    then some b1800
    else if baudrate == 2400
    then some b2400
    else if baudrate == 4800
    then some b4800
    else if baudrate == 9600
    then some b9600
    else if baudrate == 19200
    then some b19200
    else if baudrate == 38400
    then some b38400
    else if baudrate == 57600
    then some b57600
    else if baudrate == 115200
    then some b115200
    else if baudrate == 230400
    then some b230400
    else if baudrate == 460800
    then some b460800
    else if baudrate == 500000
    then some b500000
    else if baudrate == 576000
    then some b576000
    else if baudrate == 921600
    then some b921600
    else if baudrate == 1000000
    then some b1000000
    else if baudrate == 1152000
    then some b1152000
    else if baudrate == 1500000
    then some b1500000
    else if baudrate == 2000000
    then some b2000000
    else if baudrate == 2500000
    then some b2500000
    else if baudrate == 3000000
    then some b3000000
    else if baudrate == 3500000
    then some b3500000
    else if baudrate == 4000000
    then some b4000000
    else none
