-- ===== src/State/Steps.antt =====
-- What a program may add to the client's buffer. `Sends n f`: from a state with valid buffers and
-- room for `n` more bytes, `f` runs without a fault, adds at most `n` bytes to the client's buffer,
-- keeps the buffers valid, and leaves the device's buffer and the command parser as they are.
use serial_port.Prelude.{
  ℕ, ◌+◌, ◌*◌, ◌≤◌, ◌≡◌, refl, sym, subst, fun_ext, ◌∙◌, Bool, true, false, Option, some, List, [],
  ◌∷◌, arith, if◌then◌else◌, length, ◌>>◌, for_each,
}
use serial_port.Buffer.{Buffer, buffer_length, add_to_buffer}
use serial_port.Buffer.Validity.{IsValid}
use serial_port.Buffer.Refine.{add_to_buffer-Added}
use serial_port.State.{State, IacState, add_net, add_dev}

-- What the COM port control commands read and write beside the buffers.
pub record Registers (P : Type 0) : Type 0 where
  pub port : P
  pub modem_state_mask : ℕ
  pub line_state_mask : ℕ
  pub break_signaled : Bool
  pub input_flow : Bool

module _ {P : Type 0} where
  abbrev pub registers : State P → Registers P
  registers s = record {
    port = s.port;
    modem_state_mask = s.modem_state_mask;
    line_state_mask = s.line_state_mask;
    break_signaled = s.break_signaled;
    input_flow = s.input_flow;
  }

  abbrev pub with_registers : Registers P → State P → State P
  with_registers r s = record s {
    port = r.port;
    modem_state_mask = r.modem_state_mask;
    line_state_mask = r.line_state_mask;
    break_signaled = r.break_signaled;
    input_flow = r.input_flow;
  }

  pub record BuffersValid (s : State P) : Type 0 where
    pub net : IsValid s.to_net
    pub dev : IsValid s.to_dev

  -- What no command handler writes: the device's buffer and the state of `EscRedirectChar`.
  abbrev pub frame : State P → Buffer × List ℕ × ℕ × IacState × IacState × ℕ
  frame s = (s.to_dev, s.iac_command, s.iac_pos, s.iac_escape, s.iac_sig_escape, s.redirect_last)

  pub record Grown (n : ℕ) (s t : State P) : Type 0 where
    pub valid : BuffersValid t
    pub within : buffer_length t.to_net ≤ buffer_length s.to_net + n
    pub kept : frame t ≡ frame s

  pub record Sends (n : ℕ) (f : State P → Option (State P)) : Type 0 where
    pub run :
        (s : State P)
        → BuffersValid s
        → buffer_length s.to_net + n ≤ 2047
        → (t : State P) × (f s ≡ some t) × Grown n s t

  pub add_net-Sends : (c : ℕ) → Sends 1 (add_net c)
  unfolding add_net
  add_net-Sends c = record {
    run = λ s v room.
        let (b, e, a) = add_to_buffer-Added c v.net (omega arith) in
        (
          record s { to_net = b },
          rw (e, add_net) refl,
          record {
            valid = record { net = a.valid; dev = v.dev };
            within = omega (arith, a.one_more);
            kept = refl;
          },
        );
  }

  pub add_dev_lem :
      (c : ℕ) (s : State P) {b : Buffer}
      → add_to_buffer c s.to_dev ≡ some b
      → add_dev c s ≡ some (record s { to_dev = b })
  unfolding add_dev
  add_dev_lem c s e = rw (e, add_dev)

  -- A program that changes no buffer.
  pub Sends-quiet :
      (g : State P → State P)
      → ((s : State P) → ((g s).to_net ≡ s.to_net) × (frame (g s) ≡ frame s))
      → Sends 0 (λ s. some (g s))
  Sends-quiet g keep = record {
    run = λ s v room. (
      g s,
      refl,
      record {
        valid = record {
          net = subst IsValid (sym (keep s).0) v.net;
          dev = subst (λ f. IsValid f.0) (sym (keep s).1) v.dev;
        };
        within = rw ((keep s).0) (omega arith);
        kept = (keep s).1;
      },
    );
  }

  pub Sends->> :
      {m n : ℕ} {f g : State P → Option (State P)} → Sends m f → Sends n g → Sends (m + n) (f >> g)
  Sends->> {m} {n} {f} {g} hf hg = record {
    run = λ s v room.
        let (t, e, a) = hf.run s v (omega arith) in
        let (u, e', a') = hg.run t a.valid (omega (arith, a.within)) in
        (
          u,
          rw (e, ◌>>◌) e',
          record {
            valid = a'.valid;
            within = omega (arith, a.within, a'.within);
            kept = a'.kept ∙ a.kept;
          },
        );
  }

  pub Sends-le : {m n : ℕ} {f : State P → Option (State P)} → Sends m f → m ≤ n → Sends n f
  Sends-le h le = record {
    run = λ s v room.
        let (t, e, a) = h.run s v (omega arith) in
        (t, e, record { valid = a.valid; within = omega (arith, a.within); kept = a.kept });
  }

  -- A branch on the state.
  pub Sends-if :
      {n : ℕ} {f g : State P → Option (State P)} (b : State P → Bool)
      → Sends n f
      → Sends n g
      → Sends n (λ s. if b s then f s else g s)
  Sends-if {n} {f} {g} b hf hg = record { run = λ s. go (b s) s }
    where
      go :
          (c : Bool) (s : State P)
          → BuffersValid s
          → buffer_length s.to_net + n ≤ 2047
          → (t : State P) × ((if c then f s else g s) ≡ some t) × Grown n s t
      go true = hf.run
      go false = hg.run

  -- A program that is given a value of the state.
  pub Sends-at :
      {n : ℕ} {A : Type 0} {f : A → State P → Option (State P)} (get : State P → A)
      → ((a : A) → Sends n (f a))
      → Sends n (λ s. f (get s) s)
  Sends-at get h = record { run = λ s. (h (get s)).run s }

  pub Sends-ext :
      {n : ℕ} {f g : State P → Option (State P)}
      → ((s : State P) → f s ≡ g s)
      → Sends n f
      → Sends n g
  Sends-ext {n} same h = subst (λ k. Sends n k) (fun_ext same) h

  pub Sends-for_each :
      {A : Type 0} (n : ℕ) (body : A → State P → Option (State P)) (xs : List A)
      → ((x : A) → Sends n (body x))
      → Sends (n * length xs) (for_each body xs)
  unfolding for_each
  Sends-for_each n body [] h = Sends-le (Sends-quiet (λ s. s) (λ s. (refl, refl))) (omega arith)
  Sends-for_each n body (x ∷ xs) h =
      Sends-le (Sends->> (h x) (Sends-for_each n body xs h)) (grind arith)
