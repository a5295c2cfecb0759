-- ===== src/Speed/Law.antt =====
-- Rates against the system's constants: there and back.
use serial_port.Prelude.{
  true, none, some, Option, ℕ, ◌≡◌, ◌≢◌, refl, arith, List, [], ◌∷◌, Bool, false, ◌||◌, ◌==◌,
  if◌then◌else◌,
}
use serial_port.Speed.{
  Speed, other_speed, termios_to_tncom_speed, speed_of_rate, get_baudrate, b0, b50, b75, b110, b134,
  b150, b200, b300, b600, b1200, b1800, b2400, b4800, b9600, b19200, b38400, b57600, b115200,
  b230400, b460800, b500000, b576000, b921600, b1000000, b1152000, b1500000, b2000000, b2500000,
  b3000000, b3500000, b4000000,
}

abbrev pub is_one_of : List ℕ → ℕ → Bool
is_one_of [] n = false
is_one_of (r ∷ rs) n = (n == r) || is_one_of rs n

-- The rates that the protocol and the system share.
abbrev pub rates : List ℕ
rates =
    50 ∷ 75 ∷ 110 ∷ 134 ∷ 150 ∷ 200 ∷ 300 ∷ 600 ∷ 1200 ∷ 1800 ∷ 2400 ∷ 4800 ∷ 9600 ∷ 19200 ∷ 38400
    ∷ 57600 ∷ 115200 ∷ 230400 ∷ 460800 ∷ []

-- The rate that is told after `SetPortSpeed` is the one asked for if it is one of the nineteen that the
-- system has a constant for, and 9600 otherwise.
pub termios_to_tncom_speed-speed_of_rate :
    (rate : ℕ)
    → termios_to_tncom_speed (speed_of_rate rate) ≡ (if is_one_of rates rate then rate else 9600)
unfolding speed_of_rate termios_to_tncom_speed
termios_to_tncom_speed-speed_of_rate rate = ground arith

-- The constant of a port that is set to one of the nineteen speeds comes back from the rate that is
-- told of it; any other speed is told as 0 and comes back as 9600.
pub speed_of_rate-termios_to_tncom_speed :
    (s : Speed)
    → (termios_to_tncom_speed s ≢ 0 → speed_of_rate (termios_to_tncom_speed s) ≡ s)
      × (termios_to_tncom_speed s ≡ 0 → speed_of_rate (termios_to_tncom_speed s) ≡ b9600)
unfolding speed_of_rate termios_to_tncom_speed
speed_of_rate-termios_to_tncom_speed b50 = (λ h. refl, λ h. ground arith)
speed_of_rate-termios_to_tncom_speed b75 = (λ h. refl, λ h. ground arith)
speed_of_rate-termios_to_tncom_speed b110 = (λ h. refl, λ h. ground arith)
speed_of_rate-termios_to_tncom_speed b134 = (λ h. refl, λ h. ground arith)
speed_of_rate-termios_to_tncom_speed b150 = (λ h. refl, λ h. ground arith)
speed_of_rate-termios_to_tncom_speed b200 = (λ h. refl, λ h. ground arith)
speed_of_rate-termios_to_tncom_speed b300 = (λ h. refl, λ h. ground arith)
speed_of_rate-termios_to_tncom_speed b600 = (λ h. refl, λ h. ground arith)
speed_of_rate-termios_to_tncom_speed b1200 = (λ h. refl, λ h. ground arith)
speed_of_rate-termios_to_tncom_speed b1800 = (λ h. refl, λ h. ground arith)
speed_of_rate-termios_to_tncom_speed b2400 = (λ h. refl, λ h. ground arith)
speed_of_rate-termios_to_tncom_speed b4800 = (λ h. refl, λ h. ground arith)
speed_of_rate-termios_to_tncom_speed b9600 = (λ h. refl, λ h. ground arith)
speed_of_rate-termios_to_tncom_speed b19200 = (λ h. refl, λ h. ground arith)
speed_of_rate-termios_to_tncom_speed b38400 = (λ h. refl, λ h. ground arith)
speed_of_rate-termios_to_tncom_speed b57600 = (λ h. refl, λ h. ground arith)
speed_of_rate-termios_to_tncom_speed b115200 = (λ h. refl, λ h. ground arith)
speed_of_rate-termios_to_tncom_speed b230400 = (λ h. refl, λ h. ground arith)
speed_of_rate-termios_to_tncom_speed b460800 = (λ h. refl, λ h. ground arith)
speed_of_rate-termios_to_tncom_speed b0 = (λ h. absurd (h refl), λ h. refl)
speed_of_rate-termios_to_tncom_speed b500000 = (λ h. absurd (h refl), λ h. refl)
speed_of_rate-termios_to_tncom_speed b576000 = (λ h. absurd (h refl), λ h. refl)
speed_of_rate-termios_to_tncom_speed b921600 = (λ h. absurd (h refl), λ h. refl)
speed_of_rate-termios_to_tncom_speed b1000000 = (λ h. absurd (h refl), λ h. refl)
speed_of_rate-termios_to_tncom_speed b1152000 = (λ h. absurd (h refl), λ h. refl)
speed_of_rate-termios_to_tncom_speed b1500000 = (λ h. absurd (h refl), λ h. refl)
speed_of_rate-termios_to_tncom_speed b2000000 = (λ h. absurd (h refl), λ h. refl)
speed_of_rate-termios_to_tncom_speed b2500000 = (λ h. absurd (h refl), λ h. refl)
speed_of_rate-termios_to_tncom_speed b3000000 = (λ h. absurd (h refl), λ h. refl)
speed_of_rate-termios_to_tncom_speed b3500000 = (λ h. absurd (h refl), λ h. refl)
speed_of_rate-termios_to_tncom_speed b4000000 = (λ h. absurd (h refl), λ h. refl)
speed_of_rate-termios_to_tncom_speed (other_speed n) = (λ h. absurd (h refl), λ h. refl)

-- The other rates that the system has a constant for, with the constants.
abbrev pub unspoken : List (ℕ × Speed)
unspoken =
    (0, b0)
    ∷ (500000, b500000)
    ∷ (576000, b576000)
    ∷ (921600, b921600)
    ∷ (1000000, b1000000)
    ∷ (1152000, b1152000)
    ∷ (1500000, b1500000)
    ∷ (2000000, b2000000)
    ∷ (2500000, b2500000)
    ∷ (3000000, b3000000)
    ∷ (3500000, b3500000)
    ∷ (4000000, b4000000)
    ∷ []

abbrev pub constant : List (ℕ × Speed) → ℕ → Option Speed
constant [] rate = none
constant ((r, s) ∷ rest) rate = if rate == r then some s else constant rest rate

-- `getBaudrate` knows the nineteen rates of `SetPortSpeed`, gives each the constant that `SetPortSpeed`
-- gives it, and that constant is told to a client as the rate. Beyond those it knows the twelve of a
-- list of its own, and no other; the constants of these are told as 0.
pub get_baudrate-termios_to_tncom_speed :
    (rate : ℕ)
    → (is_one_of rates rate ≡ true
        → (get_baudrate rate ≡ some (speed_of_rate rate))
          × (termios_to_tncom_speed (speed_of_rate rate) ≡ rate))
      × (is_one_of rates rate ≡ false → get_baudrate rate ≡ constant unspoken rate)
      × ((s : Speed) → constant unspoken rate ≡ some s → termios_to_tncom_speed s ≡ 0)
unfolding get_baudrate termios_to_tncom_speed speed_of_rate
get_baudrate-termios_to_tncom_speed rate =
    (λ h. (ground arith, ground arith), λ h. ground arith, λ s h. ground arith)
