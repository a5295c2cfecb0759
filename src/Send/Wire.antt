-- ===== src/Send/Wire.antt =====
-- The bytes that the functions of the sending side of library/src/main/jni/sercd.c put into the
-- client's buffer.
use serial_port.Prelude.{
  ℕ, ◌+◌, ◌≤◌, ◌≡◌, refl, sym, ap, subst, ◌∙◌, Bool, true, false, not, ◌&&◌, Option, some, List, [],
  ◌∷◌, ◌++◌, append-nil, append_assoc, arith, length, length-append, ◌==◌, if◌then◌else◌, for_each,
  ◌>>◌, >>-some, leb, fun_ext, skip,
}
use serial_port.Telnet.{
  tnse, tnsb, tniac, tn_transmit_binary, tncom_port_option, tnasc_set_baudrate, tnasc_signature,
}
use serial_port.Buffer.{buffer_length}
use serial_port.Buffer.Validity.{IsValid}
use serial_port.Buffer.Refine.{contents, add_to_buffer-Added}
use serial_port.State.{State, add_net}
use serial_port.State.Steps.{BuffersValid, registers}
use serial_port.Send.{
  esc_write_prefix, esc_write_char, network_bytes, send_baud_rate, send_cpc_byte_command,
  send_telnet_option, send_str, send_signature,
}

-- How a data byte goes over the wire after the byte `last`: an IAC is doubled; outside of binary mode
-- a byte that follows a carriage return and is no line feed is preceded by a NUL.
abbrev pub escape : Bool → ℕ → ℕ → List ℕ
escape binary last c =
    if c == tniac
    then tniac ∷ c ∷ []
    else if not (c == 10) && (not binary && last == 13)
    then 0 ∷ c ∷ []
    else c ∷ []

unfoldable pub escape_all : Bool → ℕ → List ℕ → List ℕ
escape_all binary last [] = []
escape_all binary last (c ∷ cs) = escape binary last c ++ escape_all binary c cs

abbrev pub last_of : ℕ → List ℕ → ℕ
last_of last [] = last
last_of last (c ∷ cs) = last_of c cs

module _ {P : Type 0} where
  abbrev pub is_binary : State P → Bool
  is_binary s = (s.tnstate tn_transmit_binary).is_will

  pub record Emitted (bytes : List ℕ) (last : ℕ) (s t : State P) : Type 0 where
    pub valid : BuffersValid t
    pub appended : contents t.to_net ≡ contents s.to_net ++ bytes
    pub longer : buffer_length t.to_net ≡ buffer_length s.to_net + length bytes
    pub options_kept : t.tnstate ≡ s.tnstate
    pub last_is : t.write_last ≡ last
    pub registers_kept : registers t ≡ registers s
    pub dev_kept : t.to_dev ≡ s.to_dev

  -- `f` puts `out binary last` into the client's buffer, if there is room, and leaves `next last` as the
  -- last byte.
  pub record Emits (out : Bool → ℕ → List ℕ) (next : ℕ → ℕ) (f : State P → Option (State P))
      : Type 0 where
    pub run :
        (s : State P)
        → BuffersValid s
        → buffer_length s.to_net + length (out (is_binary s) s.write_last) ≤ 2047
        → (t : State P) × (f s ≡ some t)
          × Emitted (out (is_binary s) s.write_last) (next s.write_last) s t

  pub add_net-Emits : (c : ℕ) → Emits (λ b l. c ∷ []) (λ l. l) (add_net c)
  unfolding add_net
  add_net-Emits c = record {
    run = λ s v room.
        let (b, e, a) = add_to_buffer-Added c v.net (omega arith) in
        (
          record s { to_net = b },
          rw (e, add_net) refl,
          record {
            valid = record { net = a.valid; dev = v.dev };
            appended = a.at_end;
            longer = a.one_more;
            options_kept = refl;
            last_is = refl;
            registers_kept = refl;
            dev_kept = refl;
          },
        );
  }

  two_outputs :
      {xs ys : List ℕ} {l k : ℕ} {s t u : State P}
      → Emitted xs l s t
      → Emitted ys k t u
      → Emitted (xs ++ ys) k s u
  two_outputs {xs} {ys} {s = s} a b = record {
    valid = b.valid;
    appended = b.appended ∙ ap (λ zs. zs ++ ys) a.appended ∙ append_assoc (contents s.to_net) xs ys;
    longer = omega (arith, b.longer, a.longer, length-append xs ys);
    options_kept = b.options_kept ∙ a.options_kept;
    last_is = b.last_is;
    registers_kept = b.registers_kept ∙ a.registers_kept;
    dev_kept = b.dev_kept ∙ a.dev_kept;
  }

  pub Emits->> :
      {o o' : Bool → ℕ → List ℕ} {n n' : ℕ → ℕ} {f g : State P → Option (State P)}
      → Emits o n f
      → Emits o' n' g
      → Emits (λ b l. o b l ++ o' b (n l)) (λ l. n' (n l)) (f >> g)
  Emits->> {o} {o'} {n} {n'} {f} {g} hf hg = record {
    run = λ s v room.
        let (t, e, a) = hf.run s v (omega (arith, length-append (first s) (second s))) in
        let (u, e', a') =
          hg.run t a.valid
            (omega (arith, a.longer, length-append (first s) (second s), ap length (seen s t a))) in
        (
          u,
          >>-some f g s e ∙ e',
          two_outputs a (
              subst {A = List ℕ × ℕ} (λ x. Emitted x.0 x.1 t u)
                (λ i. (seen s t a i, n' (a.last_is i))) a'),
        );
  }
    where
      first : State P → List ℕ
      first s = o (is_binary s) s.write_last

      second : State P → List ℕ
      second s = o' (is_binary s) (n s.write_last)

      seen :
          (s t : State P)
          → Emitted (first s) (n s.write_last) s t
          → o' (is_binary t) t.write_last ≡ second s
      seen s t a = λ i. o' ((a.options_kept i) tn_transmit_binary).is_will (a.last_is i)

  Emits-if :
      {o o' : Bool → ℕ → List ℕ} {n : ℕ → ℕ} {f g : State P → Option (State P)}
      (b : Bool → ℕ → Bool)
      → Emits o n f
      → Emits o' n g
      → Emits
          (λ x l. if b x l then o x l else o' x l)
          n
          (λ s. if b (is_binary s) s.write_last then f s else g s)
  Emits-if {o} {o'} {n} {f} {g} b hf hg = record { run = λ s. go (b (is_binary s) s.write_last) s }
    where
      out : Bool → State P → List ℕ
      out x s = if x then o (is_binary s) s.write_last else o' (is_binary s) s.write_last

      go :
          (x : Bool) (s : State P)
          → BuffersValid s
          → buffer_length s.to_net + length (out x s) ≤ 2047
          → (t : State P) × ((if x then f s else g s) ≡ some t)
            × Emitted (out x s) (n s.write_last) s t
      go true = hf.run
      go false = hg.run

  Emits-eq :
      {o o' : Bool → ℕ → List ℕ} {n : ℕ → ℕ} {f : State P → Option (State P)}
      → ((b : Bool) (l : ℕ) → o b l ≡ o' b l)
      → Emits o n f
      → Emits o' n f
  Emits-eq {n = n} {f = f} same h = subst (λ k. Emits k n f) (λ i b l. same b l i) h

  Emits-ext :
      {o : Bool → ℕ → List ℕ} {n : ℕ → ℕ} {f g : State P → Option (State P)}
      → ((s : State P) → g s ≡ f s)
      → Emits o n f
      → Emits o n g
  Emits-ext {o} {n} same h = subst (λ k. Emits o n k) (sym (fun_ext same)) h

  quiet-Emits :
      (g : State P → State P) (n : ℕ → ℕ)
      → ((s : State P)
          → ((g s).to_net ≡ s.to_net)
            × ((g s).to_dev ≡ s.to_dev)
            × ((g s).tnstate ≡ s.tnstate)
            × ((g s).write_last ≡ n s.write_last)
            × (registers (g s) ≡ registers s))
      → Emits (λ b l. []) n (λ s. some (g s))
  quiet-Emits g n keep = record {
    run = λ s v room. (
      g s,
      refl,
      record {
        valid = record {
          net = subst IsValid (sym (keep s).0) v.net;
          dev = subst IsValid (sym (keep s).1) v.dev;
        };
        appended = ap contents (keep s).0 ∙ sym (append-nil (contents s.to_net));
        longer = ap buffer_length (keep s).0 ∙ omega arith;
        options_kept = (keep s).2;
        last_is = (keep s).3;
        registers_kept = (keep s).4;
        dev_kept = (keep s).1;
      },
    );
  }

  pub skip-Emits : Emits (λ b l. []) (λ l. l) skip
  skip-Emits = quiet-Emits (λ s. s) (λ l. l) (λ s. (refl, refl, refl, refl, refl))

  -- `EscWriteChar` writes the byte as `escape` has it.
  pub esc_write_char-Emits : (c : ℕ) → Emits (λ b l. escape b l c) (λ l. c) (esc_write_char c)
  unfolding esc_write_char esc_write_prefix
  esc_write_char-Emits c =
      Emits-eq (λ b l. ground arith)
        (Emits->>
          (Emits-if (λ b l. c == tniac) (add_net-Emits c)
            (Emits-if (λ b l. not (c == 10) && (not b && l == 13)) (add_net-Emits 0)
              (quiet-Emits (λ s. s) (λ l. l) (λ s. (refl, refl, refl, refl, refl)))))
          (Emits->> (add_net-Emits c) (
            quiet-Emits (λ s. record s { write_last = c }) (λ l. c)
              (λ s. (refl, refl, refl, refl, refl)))))

  pub for_each-Emits :
      (cs : List ℕ)
      → Emits (λ b l. escape_all b l cs) (λ l. last_of l cs) (for_each esc_write_char cs)
  unfolding for_each escape_all
  for_each-Emits [] = quiet-Emits (λ s. s) (λ l. l) (λ s. (refl, refl, refl, refl, refl))
  for_each-Emits (c ∷ cs) = Emits->> (esc_write_char-Emits c) (for_each-Emits cs)

  pub send_str-Emits :
      (cs : List ℕ) → Emits (λ b l. escape_all b l cs) (λ l. last_of l cs) (send_str cs)
  unfolding send_str
  send_str-Emits cs = for_each-Emits cs

  -- The frame of a COM port reply around what `f` writes.
  framed-Emits :
      {o : Bool → ℕ → List ℕ} {n : ℕ → ℕ} {f : State P → Option (State P)} (a b c d y z : ℕ)
      → Emits o n f
      → Emits
          (λ x l. a ∷ b ∷ c ∷ d ∷ o x l ++ (y ∷ z ∷ []))
          n
          (do add_net a; add_net b; add_net c; add_net d; f; add_net y; add_net z)
  framed-Emits a b c d y z h = Emits->> (add_net-Emits a) (
      Emits->> (add_net-Emits b) (
        Emits->> (add_net-Emits c)
          (Emits->> (add_net-Emits d) (Emits->> h (Emits->> (add_net-Emits y) (add_net-Emits z))))))

  pub send_telnet_option-Emits :
      (command option : ℕ)
      → Emits (λ b l. tniac ∷ command ∷ option ∷ []) (λ l. l) (send_telnet_option command option)
  unfolding send_telnet_option
  send_telnet_option-Emits command option =
      Emits->> (add_net-Emits tniac) (Emits->> (add_net-Emits command) (add_net-Emits option))

  -- `SendCPCByteCommand` with valid buffers and room for it puts exactly one suboption into the
  -- client's buffer: IAC SB COM-PORT-OPTION, the command, the parameter with its IAC doubled and the
  -- padding that a carriage return sent before it asks for outside of binary mode, and IAC SE. It
  -- leaves the parameter as the last byte, keeps the options and the buffers valid, and does not
  -- fault.
  pub send_cpc_byte_command-Emits :
      (command parm : ℕ)
      → Emits
          (λ b l.
            tniac ∷ tnsb ∷ tncom_port_option ∷ command ∷ escape b l parm ++ (tniac ∷ tnse ∷ []))
          (λ l. parm)
          (send_cpc_byte_command command parm)
  unfolding send_cpc_byte_command
  send_cpc_byte_command-Emits command parm =
      framed-Emits tniac tnsb tncom_port_option command tniac tnse (esc_write_char-Emits parm)

  -- `SendBaudRate` with valid buffers and room for it puts exactly one suboption into the client's
  -- buffer: IAC SB COM-PORT-OPTION SET-BAUDRATE, the four bytes of the rate in network order and then
  -- a zero for each further byte of an `unsigned long`, escaped one by one as data, and IAC SE. It
  -- keeps the options and the buffers valid, and does not fault.
  pub send_baud_rate-Emits :
      (sizeof_ulong br : ℕ)
      → Emits
          (λ b l.
            tniac
              ∷ tnsb
              ∷ tncom_port_option
              ∷ tnasc_set_baudrate
              ∷ escape_all b l (network_bytes sizeof_ulong br)
            ++ (tniac ∷ tnse ∷ []))
          (λ l. last_of l (network_bytes sizeof_ulong br))
          (send_baud_rate sizeof_ulong br)
  unfolding send_baud_rate
  send_baud_rate-Emits sizeof_ulong br =
      framed-Emits tniac tnsb tncom_port_option tnasc_set_baudrate tniac tnse
        (for_each-Emits (network_bytes sizeof_ulong br))

  -- `SendSignature` of at most 255 bytes, in the same way.
  pub send_signature-Emits :
      (sig : List ℕ)
      → length sig ≤ 255
      → Emits
          (λ b l.
            tniac ∷ tnsb ∷ tncom_port_option ∷ tnasc_signature ∷ escape_all b l sig
            ++ (tniac ∷ tnse ∷ []))
          (λ l. last_of l sig)
          (send_signature sig)
  unfolding send_signature
  send_signature-Emits sig le =
      Emits-ext (λ s. rw (fits))
        (framed-Emits tniac tnsb tncom_port_option tnasc_signature tniac tnse (send_str-Emits sig))
    where
      fits : leb (length sig) 255 ≡ true
      fits = ground arith
