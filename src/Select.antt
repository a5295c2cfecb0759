-- ===== src/Select.antt =====
-- The clock of `SercdSelect` in library/src/main/jni/unix.c: how long `select` waits, and when the modem state
-- is due to be polled. Times are `struct timeval`s, whose fields are signed.
pub mod Law
pub mod Descriptors
pub mod Asked
pub mod Reports
use serial_port.Prelude.{
  ℕ, suc, ◌+◌, ◌-◌, ◌*◌, ◌/◌, ◌%◌, Bool, true, false, ◌&&◌, ◌||◌, ◌==◌, ltb, leb, if◌then◌else◌,
}

-- An integer, below zero from `negsuc 0`, which is -1.
pub data ℤ : Type 0 where
  pos : ℕ → ℤ
  negsuc : ℕ → ℤ

-- `x -= n`
abbrev pub less : ℤ → ℕ → ℤ
less (pos m) n = if leb n m then pos (m - n) else negsuc (n - m - 1)
less (negsuc m) n = negsuc (m + n)

abbrev pub int_lt : ℤ → ℤ → Bool
int_lt (pos m) (pos n) = ltb m n
int_lt (pos m) (negsuc n) = false
int_lt (negsuc m) (pos n) = true
int_lt (negsuc m) (negsuc n) = ltb n m

abbrev pub int_eq : ℤ → ℤ → Bool
int_eq (pos m) (pos n) = m == n
int_eq (pos m) (negsuc n) = false
int_eq (negsuc m) (pos n) = false
int_eq (negsuc m) (negsuc n) = m == n

pub record TimeVal : Type 0 where
  pub tv_sec : ℤ
  pub tv_usec : ℤ

-- `timercmp(a, b, <)`
abbrev pub timer_lt : TimeVal → TimeVal → Bool
timer_lt a b = int_lt a.tv_sec b.tv_sec || (int_eq a.tv_sec b.tv_sec && int_lt a.tv_usec b.tv_usec)

abbrev pub timer_clear : TimeVal
timer_clear = record { tv_sec = pos 0; tv_usec = pos 0 }

-- `BTimeout`
unfoldable pub select_timeout : ℕ → TimeVal
select_timeout poll_interval = record {
  tv_sec = pos (poll_interval / 1000);
  tv_usec = pos (poll_interval % 1000 * 1000);
}

-- `LastPoll` and two readings of the clock: whether the modem state is due, and `LastPoll` afterwards.
unfoldable pub modem_due : ℕ → TimeVal → TimeVal → TimeVal → Bool × TimeVal
modem_due poll_interval last_poll now after =
    let last = if timer_lt now last_poll then timer_clear else last_poll in
    if timer_lt last (record {
      tv_sec = less now.tv_sec (poll_interval / 1000);
      tv_usec = less now.tv_usec (poll_interval % 1000);
    })
    then (true, after)
    else (false, last)
