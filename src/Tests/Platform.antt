-- ===== src/Tests/Platform.antt =====
-- The lock file, the log, the clock and the serial device of library/src/main/jni at concrete values.
use serial_port.Prelude.{
  ℕ, ◌≡◌, refl, Bool, true, false, ◌&&◌, leb, none, some, [], ◌∷◌, ◌==◌, arith, replicate,
  if◌then◌else◌,
}
use serial_port.Speed.{Speed, b9600, get_baudrate, termios_to_tncom_speed, speed_of_rate}
use serial_port.Speed.Law.{
  is_one_of, rates, unspoken, constant, get_baudrate-termios_to_tncom_speed,
}
use serial_port.Serial.{Termios, World, Calls}
use serial_port.Serial.Law.{Outcome, serial_open_lem}
use serial_port.Lock.{lock_ok, Format, Store, creating, done, hdb_lock_file, hdb_unlock_file}
use serial_port.Lock.Alone.{contents_of, hdb_lock_file-locking, hdb_unlock_file-locking}
use serial_port.Lock.Race.{Two, two_run, two_run-exclusive}
use serial_port.Lock.Stale.{unlucky, two_run-stale}
use serial_port.Settings.{Settings, cs8, Device, Lines, SystemCalls, set_port_flow_control}
use serial_port.Settings.Opening.{speed}
use serial_port.Log.{unix_log_port_settings}
use serial_port.Log.Law.{flow_text, unix_log_port_settings-swapped}

-- The number in front of ten zeros.
abbrev toy_format : Format
toy_format = record {
  print_pid = λ pid. pid ∷ replicate 10 0;
  atoi = λ bs. elim bs [ [] ↦ 0 | b ∷ rest ↦ b ];
  length-print_pid = λ pid. refl;
  atoi-print_pid = λ pid. refl;
}

-- The process 9 is gone.
abbrev living : ℕ → Bool
living pid = if pid == 9 then false else true

abbrev unlocked : Store
unlocked = record { entry = none; bytes = λ i. []; next = 0 }

abbrev stale : Store
stale = record { entry = some 0; bytes = λ i. toy_format.print_pid 9; next = 1 }

hdb_lock_file-locking_example :
    (t : Store) × (hdb_lock_file toy_format living 7 stale ≡ (done lock_ok, t))
    × (contents_of t ≡ some (toy_format.print_pid 7))
hdb_lock_file-locking_example = hdb_lock_file-locking toy_format living 7 stale

hdb_unlock_file-locking_example : contents_of (hdb_unlock_file toy_format living 7 stale) ≡ none
hdb_unlock_file-locking_example = hdb_unlock_file-locking toy_format living 7 stale

both : Store → Two
both st = record { first = creating; second = creating; store = st }

two_run-exclusive_example : ¬ (
    ((two_run toy_format living 7 8 unlucky (both unlocked)).first ≡ done lock_ok)
    × ((two_run toy_format living 7 8 unlucky (both unlocked)).second ≡ done lock_ok))
unfolding both
two_run-exclusive_example =
    two_run-exclusive toy_format living 7 8 (λ e. omega (arith, e)) (λ e. omega (arith, e))
      (λ e. omega (arith, e)) refl refl unlucky (both unlocked) refl refl refl

two_run-stale_example :
    ((two_run toy_format living 7 8 unlucky (both stale)).first ≡ done lock_ok)
    × ((two_run toy_format living 7 8 unlucky (both stale)).second ≡ done lock_ok)
unfolding both
two_run-stale_example =
    two_run-stale toy_format living 7 8 9 0 stale refl refl refl (λ e. omega (arith, e))
      (λ e. omega (arith, e))

get_baudrate-termios_to_tncom_speed_example :
    (is_one_of rates 115200 ≡ true
      → (get_baudrate 115200 ≡ some (speed_of_rate 115200))
        × (termios_to_tncom_speed (speed_of_rate 115200) ≡ 115200))
    × (is_one_of rates 115200 ≡ false → get_baudrate 115200 ≡ constant unspoken 115200)
    × ((s : Speed) → constant unspoken 115200 ≡ some s → termios_to_tncom_speed s ≡ 0)
get_baudrate-termios_to_tncom_speed_example = get_baudrate-termios_to_tncom_speed 115200

abbrev cooked : Termios
cooked = record { ispeed = b9600; ospeed = b9600; flags = 5 }

abbrev pub one_open : World
one_open = record { descriptors = 3 ∷ []; device = cooked }

abbrev pub no_failures : Calls
no_failures = record { open_result = some 4; tcgetattr_fails = false; tcsetattr_fails = false }

serial_open_lem_example : Outcome (λ flags. 0) no_failures 500000 one_open
serial_open_lem_example = serial_open_lem (λ flags. 0) no_failures 500000 one_open

abbrev eight_none : Settings
eight_none = record {
  speed = b9600;
  csize = cs8;
  parenb = false;
  parodd = false;
  cstopb = false;
  crtscts = false;
  ixon = true;
  ixoff = false;
  hupcl = false;
  clocal = false;
  ignbrk = true;
  brkint = false;
}

abbrev quiet_lines : Lines
quiet_lines = record { car = false; rng = false; dsr = false; cts = false }

abbrev pub device : Device
device = record {
  settings = eight_none;
  outputs = record { dtr = true; rts = true };
  lines = quiet_lines;
  initial_port_settings = none;
}

abbrev pub willing : SystemCalls
willing = record {
  cfmakeraw = λ t. record t { ixon = false };
  open_fails = λ d. false;
  tcsetattr_fails = λ t d. false;
  tcsendbreak = λ d. d;
  tcflush = λ queue d. d;
}

unix_log_port_settings-swapped_example :
    ((unix_log_port_settings eight_none).outflow ≡ flow_text false false)
    × ((unix_log_port_settings eight_none).inflow ≡ flow_text true false)
    × ((how : ℕ)
        → (leb 1 how && leb how 3) ≡ true
        → (unix_log_port_settings (set_port_flow_control how eight_none)).outflow
          ≡ (unix_log_port_settings (set_port_flow_control how eight_none)).inflow)
unix_log_port_settings-swapped_example = unix_log_port_settings-swapped eight_none
