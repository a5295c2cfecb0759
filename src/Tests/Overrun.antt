-- ===== src/Tests/Overrun.antt =====
-- A full read from the device in front of a notification, in a round of library/src/main/jni/sercd.c.
use serial_port.Prelude.{ℕ, ◌≡◌, refl, ◌∷◌, arith, length, length-replicate, replicate}
use serial_port.Buffer.{Buffer, buffer_length, buffer_room_left}
use serial_port.Buffer.Validity
use serial_port.State.Steps.{BuffersValid}
use serial_port.Send.Wire.{escape_all, is_binary}
use serial_port.LoopState.{Poll, Main, crash, read_bytes}
use serial_port.MainLoop.{dev_read, turn}
use serial_port.MainLoop.Overrun.{device_and_modem, turn-overrun}
use serial_port.Tests.{cfg, toy_port, start, serving, knock, empty-IsValid}

-- 1023 bytes wait for the client.
abbrev half : Buffer
half = record { cells = replicate 2048 7; rd_pos = 0; wr_pos = 1023 }

half-IsValid : Validity.IsValid half
half-IsValid = record {
  storage = length-replicate {A = ℕ} 2048 7;
  rd_in = omega arith;
  wr_in = omega arith;
}

abbrev loaded : Main ℕ
loaded = record serving { st = record start { to_net = half } }

loaded-BuffersValid : BuffersValid loaded.st
loaded-BuffersValid = record { net = half-IsValid; dev = empty-IsValid }

-- The device has any number of bytes 255.
abbrev floods : Poll
floods = record knock { ready = device_and_modem; read_dev = λ n. read_bytes (replicate n 255) }

half-length : buffer_length half ≡ 1023
unfolding buffer_length
half-length = refl

floods_read : dev_read cfg toy_port floods loaded ≡ read_bytes (255 ∷ replicate 511 255)
unfolding buffer_room_left buffer_length
floods_read = refl

floods_wire :
    length (escape_all (is_binary start) start.write_last (255 ∷ replicate 511 255)) ≡ 1024
unfolding escape_all
floods_wire = refl

turn-overrun_example : turn cfg toy_port floods loaded ≡ crash
turn-overrun_example =
    turn-overrun cfg toy_port floods loaded 255 (replicate 511 255) loaded-BuffersValid refl refl
      refl refl refl (omega (arith, half-length)) floods_read
      (omega (arith, half-length, floods_wire)) refl
