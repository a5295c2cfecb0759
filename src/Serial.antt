-- ===== src/Serial.antt =====
-- `SerialPort.open` and `SerialPort.close` of library/src/main/jni/serial.c: a serial device is opened, set to
-- raw mode at a rate, and closed. The Java object that is made of a descriptor is in Java. What the
-- system calls return is given, and so is what `cfmakeraw` does to the flags of `struct termios`.
pub mod Law
use serial_port.Prelude.{ℕ, Bool, Option, none, some, List, [], ◌∷◌, ◌==◌, if◌then◌else◌}
use serial_port.Speed.{Speed, get_baudrate}

-- The part of `struct termios` that the code sets.
pub record Termios : Type 0 where
  pub ispeed : Speed
  pub ospeed : Speed
  pub flags : ℕ

-- The descriptors that are open, and the settings of the device.
pub record World : Type 0 where
  pub descriptors : List ℕ
  pub device : Termios

-- The results of `open`, `tcgetattr` and `tcsetattr`.
pub record Calls : Type 0 where
  pub open_result : Option ℕ
  pub tcgetattr_fails : Bool
  pub tcsetattr_fails : Bool

abbrev pub close_descriptor : ℕ → List ℕ → List ℕ
close_descriptor fd [] = []
close_descriptor fd (x ∷ xs) = if x == fd then xs else x ∷ close_descriptor fd xs

unfoldable pub serial_close : ℕ → World → World
serial_close fd w = record w { descriptors = close_descriptor fd w.descriptors }

module _ (cfmakeraw : ℕ → ℕ) where
  abbrev pub raw_at : Speed → Termios → Termios
  raw_at speed t = record t { flags = cfmakeraw t.flags; ispeed = speed; ospeed = speed }

  unfoldable pub configure : Calls → ℕ → Speed → World → Option ℕ × World
  unfolding serial_close
  configure calls fd speed w =
      if calls.tcgetattr_fails
      then (none, serial_close fd w)
      else if calls.tcsetattr_fails
      then (none, serial_close fd w)
      else (some fd, record w { device = raw_at speed w.device })

  unfoldable pub serial_open : Calls → ℕ → World → Option ℕ × World
  unfolding configure
  serial_open calls baudrate w = elim (get_baudrate baudrate) [
    | none ↦ (none, w)
    | some speed ↦ elim calls.open_result [
      | none ↦ (none, w)
      | some fd ↦ configure calls fd speed (record w { descriptors = fd ∷ w.descriptors })
    ]
  ]
