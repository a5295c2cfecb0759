-- ===== src/Serial/Law.antt =====
-- What is open and how the device is set after library/src/main/jni/serial.c.
use serial_port.Prelude.{
  ℕ, ap, ◌∙◌, ◌≡◌, refl, Bool, true, false, Option, none, some, ◌∷◌, ◌⊎◌, inl, inr, arith,
}
use serial_port.Speed.{Speed, get_baudrate}
use serial_port.Serial.{World, Calls, serial_close, raw_at, configure, serial_open}

module _ (cfmakeraw : ℕ → ℕ) where
  abbrev pub Outcome : Calls → ℕ → World → Type 0
  Outcome calls baudrate w =
      ((serial_open cfmakeraw calls baudrate w ≡ (none, w))
        × ((get_baudrate baudrate ≡ none)
            ⊎ ((calls.open_result ≡ none)
                ⊎ ((calls.tcgetattr_fails ≡ true) ⊎ (calls.tcsetattr_fails ≡ true)))))
      ⊎ ((fd : ℕ) × (speed : Speed) × (calls.open_result ≡ some fd)
          × (get_baudrate baudrate ≡ some speed)
          × (calls.tcgetattr_fails ≡ false)
          × (calls.tcsetattr_fails ≡ false)
          × (serial_open cfmakeraw calls baudrate w ≡ (
            some fd,
            record w {
              descriptors = fd ∷ w.descriptors;
              device = record { ispeed = speed; ospeed = speed; flags = cfmakeraw w.device.flags };
            },
          ))
          × ((serial_close fd (serial_open cfmakeraw calls baudrate w).1).descriptors
              ≡ w.descriptors))

  -- `SerialPort.open` either returns no descriptor and leaves the open descriptors and the device's
  -- settings as they were, or it returns the descriptor that the system gave it, which is then the only
  -- one more that is open, with the device in raw mode at the constant of the rate in both
  -- directions; and `SerialPort.close` of that descriptor leaves the open descriptors as they were. It
  -- returns a descriptor exactly if the rate has a constant and none of the three system calls fails.
  pub serial_open_lem : (calls : Calls) (baudrate : ℕ) (w : World) → Outcome calls baudrate w
  unfolding serial_open serial_close
  serial_open_lem calls baudrate w =
      by_results (get_baudrate baudrate) calls.open_result calls.tcgetattr_fails
        calls.tcsetattr_fails refl refl refl refl
    where
      opened : ℕ → World
      opened fd = record w { descriptors = fd ∷ w.descriptors }

      runs :
          {s : Speed} {fd : ℕ}
          → get_baudrate baudrate ≡ some s
          → calls.open_result ≡ some fd
          → serial_open cfmakeraw calls baudrate w ≡ configure cfmakeraw calls fd s (opened fd)
      runs es er = rw (serial_open, es, er) refl

      closed : (fd : ℕ) → serial_close fd (opened fd) ≡ w
      closed fd = ap (λ ds. record w { descriptors = ds }) (ground arith)

      by_results :
          (s : Option Speed) (r : Option ℕ) (g t : Bool)
          → get_baudrate baudrate ≡ s
          → calls.open_result ≡ r
          → calls.tcgetattr_fails ≡ g
          → calls.tcsetattr_fails ≡ t
          → Outcome calls baudrate w
      by_results none r g t es er eg et = inl (rw (serial_open, es) refl, inl es)
      by_results (some s) none g t es er eg et = inl (rw (serial_open, es, er) refl, inr (inl er))
      by_results (some s) (some fd) true t es er eg et =
          inl
            (runs es er ∙ rw (configure, eg) (ap (λ x. (none, x)) (closed fd)), inr (inr (inl eg)))
      by_results (some s) (some fd) false true es er eg et = inl (
        runs es er ∙ rw (configure, eg, et) (ap (λ x. (none, x)) (closed fd)),
        inr (inr (inr et)),
      )
      by_results (some s) (some fd) false false es er eg et =
          let e : serial_open cfmakeraw calls baudrate w
              ≡ (some fd, record (opened fd) { device = raw_at cfmakeraw s w.device }) =
            runs es er ∙ rw (configure, eg, et) refl in
          inr
            (fd, s, er, es, eg, et, e, ap (λ x. (serial_close fd x.1).descriptors) e ∙ ground arith)
