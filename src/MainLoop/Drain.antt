-- ===== src/MainLoop/Drain.antt =====
-- The output of the main loop of library/src/main/jni/sercd.c over several rounds, to the serial device and to
-- the client.
use serial_port.Prelude.{
  ℕ, zero, suc, ◌≤◌, ◌≡◌, refl, sym, ap, subst, ◌∙◌, Bool, true, false, Option, none, some, List,
  [], ◌++◌, inl, inr, ◌≢◌, arith, length, take, if◌then◌else◌, Bool-cases,
}
use serial_port.Buffer.{Buffer, buffer_length, is_buffer_empty, get_buffer_string, buffer_pop_bytes}
use serial_port.Buffer.Validity.{IsValid, buffer_pop_bytes-IsValid}
use serial_port.Buffer.Refine.{contents, is_buffer_empty_iff}
use serial_port.Buffer.Chunks.{pop_written, buffer_length-pop_written}
use serial_port.State.{Port, Config}
use serial_port.LoopState.{
  Poll, Events, Main, Step, IoBytes, on, continue, fault, count, popped, io_result_error,
}
use serial_port.MainLoop.{dev_written, serial_output, net_written, network_output}

-- A device or a socket that takes at least one byte of what it is offered, and no more than that.
pub record Accepting (write : List ℕ → IoBytes) : Type 0 where
  pub accepts : (bs : List ℕ) → bs ≢ [] → (n : ℕ) × (write bs ≡ count (suc n)) × (suc n ≤ length bs)

-- An output of the loop: what is waiting for it, whether it is open, and a round of it, which removes
-- from what is waiting as many bytes as were written.
pub record Outlet (P : Type 0) : Type 0 where
  pub waiting : Main P → Buffer
  pub is_open : Main P → Bool
  pub write : Poll → List ℕ → IoBytes
  pub output : Poll → Main P → Step P
  pub wrote : ℕ → Main P → Main P
  pub pops : (n : ℕ) (m : Main P) → waiting (wrote n m) ≡ buffer_pop_bytes (waiting m) n
  pub stays_open : (n : ℕ) (m : Main P) → is_open (wrote n m) ≡ is_open m
  pub goes_out :
      (poll : Poll) (m : Main P) (n : ℕ)
      → is_open m ≡ true
      → write poll (get_buffer_string (waiting m)) ≡ count (suc n)
      → output poll m ≡ on (wrote (suc n) m)

module _ {P : Type 0} (outlet : Outlet P) where
  open outlet use {waiting, is_open, write, output, wrote}

  -- The output of at most `rounds` rounds, while there is something to write: the bytes that were
  -- taken, one write after another, and the state at the end; `none` where a round does not go on or
  -- bytes are left.
  pub drained : (ℕ → Poll) → ℕ → Main P → Option (List ℕ × Main P)
  drained polls zero m = if is_buffer_empty (waiting m) then some ([], m) else none
  drained polls (suc rounds) m = elim (is_buffer_empty (waiting m)) [
    | true ↦ some ([], m)
    | false ↦ elim (output (polls rounds) m) [
      | on n ↦ elim (drained polls rounds n) [
        | none ↦ none
        | some (bs, o) ↦ some (
          take (popped (write (polls rounds) (get_buffer_string (waiting m))))
                (get_buffer_string (waiting m))
              ++ bs,
          o,
        )
      ]
      | continue n ↦ none
      | fault ↦ none
    ]
  ]

  ended :
      (polls : ℕ → Poll) (rounds : ℕ) (m : Main P)
      → is_buffer_empty (waiting m) ≡ true
      → drained polls rounds m ≡ some (contents (waiting m), m)
  unfolding drained
  ended polls zero m e =
      rw e (ap (λ bs. some (bs, m)) (sym ((is_buffer_empty_iff (waiting m)).0 e)))
  ended polls (suc rounds) m e =
      rw (e, drained) (ap (λ bs. some (bs, m)) (sym ((is_buffer_empty_iff (waiting m)).0 e)))

  one_round :
      (polls : ℕ → Poll) (rounds n : ℕ) (m : Main P) {bs : List ℕ} {o : Main P}
      → is_buffer_empty (waiting m) ≡ false
      → is_open m ≡ true
      → write (polls rounds) (get_buffer_string (waiting m)) ≡ count (suc n)
      → drained polls rounds (wrote (suc n) m) ≡ some (bs, o)
      → drained polls (suc rounds) m ≡ some (take (suc n) (get_buffer_string (waiting m)) ++ bs, o)
  unfolding drained
  one_round polls rounds n m left set e d =
      rw (left, drained, outlet.goes_out (polls rounds) m n set e, drained, d, e) refl

  something :
      (m : Main P)
      → IsValid (waiting m)
      → is_buffer_empty (waiting m) ≡ false
      → get_buffer_string (waiting m) ≢ []
  something m v left e =
      absurd
        (cc ((is_buffer_empty_iff (waiting m)).1 ((pop_written (waiting m) 0 v (omega arith)).1 e)))

  -- The output makes progress: if it is open, its buffer is valid, and in every round at least one byte
  -- of what is offered is taken, then after as many rounds as the buffer holds bytes all of them have
  -- been written, in order and each once, and the buffer is empty.
  pub drained-contents :
      (polls : ℕ → Poll)
      → ((i : ℕ) → Accepting (write (polls i)))
      → (rounds : ℕ) (m : Main P) → IsValid (waiting m)
      → is_open m ≡ true
      → buffer_length (waiting m) ≤ rounds
      → (o : Main P) × (drained polls rounds m ≡ some (contents (waiting m), o))
        × (is_buffer_empty (waiting o) ≡ true)
  unfolding is_buffer_empty
  drained-contents polls a zero m v set le =
      let e : is_buffer_empty (waiting m) ≡ true = ground arith in (m, ended polls zero m e, e)
  drained-contents polls a (suc rounds) m v set le =
      elim (Bool-cases (is_buffer_empty (waiting m))) [
        | inl e ↦ (m, ended polls (suc rounds) m e, e)
        | inr left ↦
            let b = waiting m in
            let (n, e, fits) = (a rounds).accepts (get_buffer_string b) (something m v left) in
            let pops = outlet.pops (suc n) m in
            let (o, d, done) =
              drained-contents polls a rounds (wrote (suc n) m)
                (subst IsValid (sym pops) (buffer_pop_bytes-IsValid (suc n) v))
                (outlet.stays_open (suc n) m ∙ set)
                (omega
                  (arith, buffer_length-pop_written b (suc n) v fits, ap buffer_length pops)) in
            (
              o,
              one_round polls rounds n m left set e d
                  ∙ ap (λ k. some (take (suc n) (get_buffer_string b) ++ contents k, o)) pops
                  ∙ ap (λ bs. some (bs, o)) (pop_written b (suc n) v fits).0,
              done,
            )
      ]

-- The event that lets one of the two outputs be written.
abbrev asked : Bool → Bool → Events
asked device_out socket_out = record {
  device_in = false;
  device_out = device_out;
  socket_out = socket_out;
  socket_in = false;
  socket_connect = false;
  modem_state = false;
}

module _ (cfg : Config) (p : Port) where
  open p use {Handle}

  pub dev_goes_out :
      (poll : Poll) (m : Main Handle) (n : ℕ)
      → m.device_fd ≡ true
      → dev_written cfg p poll m ≡ count (suc n)
      → serial_output cfg p poll (asked true false) m
        ≡ on (record m { st = record (m.st) { to_dev = buffer_pop_bytes m.st.to_dev (suc n) } })
  unfolding serial_output io_result_error
  dev_goes_out poll m n set e = rw (set, e) refl

  pub net_goes_out :
      (poll : Poll) (m : Main Handle) (n : ℕ)
      → m.out_socket_fd ≡ true
      → net_written cfg p poll m ≡ count (suc n)
      → network_output cfg p poll (asked false true) m
        ≡ on (record m { st = record (m.st) { to_net = buffer_pop_bytes m.st.to_net (suc n) } })
  unfolding network_output io_result_error
  net_goes_out poll m n set e = rw (set, e) refl

  -- The serial output.
  abbrev pub to_device : Outlet Handle
  to_device = record {
    waiting = λ m. m.st.to_dev;
    is_open = λ m. m.device_fd;
    write = λ poll. poll.write_dev;
    output = λ poll m. serial_output cfg p poll (asked true false) m;
    wrote = λ n m. record m { st = record (m.st) { to_dev = buffer_pop_bytes m.st.to_dev n } };
    pops = λ n m. refl;
    stays_open = λ n m. refl;
    goes_out = dev_goes_out;
  }

  -- The network output.
  abbrev pub to_client : Outlet Handle
  to_client = record {
    waiting = λ m. m.st.to_net;
    is_open = λ m. m.out_socket_fd;
    write = λ poll. poll.write_net;
    output = λ poll m. network_output cfg p poll (asked false true) m;
    wrote = λ n m. record m { st = record (m.st) { to_net = buffer_pop_bytes m.st.to_net n } };
    pops = λ n m. refl;
    stays_open = λ n m. refl;
    goes_out = net_goes_out;
  }
