-- ===== src/Select/Law.antt =====
-- The intervals that `SercdSelect` of library/src/main/jni/unix.c keeps.
use serial_port.Prelude.{ℕ, ◌+◌, ◌*◌, ◌/◌, ◌%◌, ◌<◌, ◌≡◌, refl, arith}
use serial_port.Select.{pos, TimeVal, select_timeout}

abbrev pub at : ℕ → ℕ → TimeVal
at sec usec = record { tv_sec = pos sec; tv_usec = pos usec }

-- `select` waits for the poll interval: the time that it is given is normalized, and as many
-- microseconds as the interval is milliseconds times a thousand.
pub select_timeout_lem :
    (poll_interval : ℕ)
    → (sec : ℕ) × (usec : ℕ) × (select_timeout poll_interval ≡ at sec usec)
      × (usec < 1000000)
      × (sec * 1000000 + usec ≡ poll_interval * 1000)
unfolding select_timeout
select_timeout_lem poll_interval =
    (poll_interval / 1000, poll_interval % 1000 * 1000, refl, omega arith, omega arith)
