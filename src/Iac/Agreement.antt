-- ===== src/Iac/Agreement.antt =====
-- Whole negotiations over library/src/main/jni/sercd.c: the greeting of a client and its answers, and a
-- message that comes again and again.
use serial_port.Prelude.{
  ℕ, zero, suc, ◌+◌, ◌≤◌, ◌≡◌, ◌≢◌, refl, ap, ap₂, ◌∙◌, true, false, ◌||◌, Option, some, List, [],
  ◌∷◌, ◌++◌, arith, length, replicate, ◌==◌, for_each, ◌>>◌,
}
use serial_port.Telnet.{
  tnsb, tnwill, tndo, tn_transmit_binary, tn_echo, tn_suppress_go_ahead, tncom_port_option,
}
use serial_port.Buffer.{buffer_length}
use serial_port.Buffer.Refine.{contents}
use serial_port.State.{State, Port, Config, update, tn_reset, init_telnet_state_machine}
use serial_port.State.Steps.{BuffersValid}
use serial_port.Send.{send_telnet_option, send_telnet_initial_options}
use serial_port.Iac.{handle_iac_command}
use serial_port.Iac.Negotiates.{
  Table, All, Negotiates, option-Negotiates, quiet-Negotiates, Negotiates->>, Negotiates-same,
  Negotiates-for_each, answers, table_after,
}
use serial_port.Iac.Negotiation.{
  is_supported, message, answer, settled, handle_iac_command-Negotiates,
}

-- The messages of the greeting, and the client's answers that agree to each of them.
abbrev pub greeting : List ℕ
greeting =
    message tnwill tn_transmit_binary
    ++ (message tndo tn_transmit_binary
        ++ (message tnwill tn_echo
            ++ (message tnwill tn_suppress_go_ahead
                ++ (message tndo tn_suppress_go_ahead ++ message tndo tncom_port_option))))

abbrev pub agreements : List (ℕ × ℕ)
agreements =
    (tndo, tn_transmit_binary)
    ∷ (tnwill, tn_transmit_binary)
    ∷ (tndo, tn_echo)
    ∷ (tndo, tn_suppress_go_ahead)
    ∷ (tnwill, tn_suppress_go_ahead)
    ∷ (tnwill, tncom_port_option)
    ∷ []

-- All that was offered is on, and nothing is outstanding.
abbrev pub agreed : Table
agreed o = record tn_reset {
  is_will = o == tn_transmit_binary || (o == tn_echo || o == tn_suppress_go_ahead);
  is_do = o == tn_transmit_binary || (o == tn_suppress_go_ahead || o == tncom_port_option);
}

abbrev marked_will : ℕ → Table → Table
marked_will o tn = update tn o (record (tn o) { sent_will = true })

abbrev marked_do : ℕ → Table → Table
marked_do o tn = update tn o (record (tn o) { sent_do = true })

abbrev reply_of : ℕ × ℕ → Table → List ℕ
reply_of (verb, o) tn = answer verb o (tn o)

abbrev next_of : ℕ × ℕ → Table → Table
next_of (verb, o) tn = update tn o (settled verb o (tn o))

do_ne : tndo ≢ tnsb
do_ne = λ e. omega (arith, e)

will_ne : tnwill ≢ tnsb
will_ne = λ e. omega (arith, e)

abbrev pub repeated : ℕ → List ℕ → List ℕ
repeated zero xs = []
repeated (suc n) xs = xs ++ repeated n xs

again_answered :
    (n o : ℕ) (tn : Table)
    → is_supported o ≡ true
    → (tn o).sent_do ≡ false
    → answers reply_of next_of (replicate n (tnwill, o)) tn ≡ repeated n (message tndo o)
unfolding answers
again_answered zero o tn on e = refl
again_answered (suc n) o tn on e =
    ap₂ ◌++◌ first (again_answered n o (next_of (tnwill, o) tn) on (ground arith))
  where
    first : reply_of (tnwill, o) tn ≡ message tndo o
    first = rw (on, e) refl

module _ {P : Type 0} where
  offer-Negotiates :
      (verb o : ℕ) (mark : State P → State P) (next : Table → Table)
      → ((s : State P)
          → ((mark s).to_net ≡ s.to_net)
            × ((mark s).to_dev ≡ s.to_dev)
            × ((mark s).tnstate ≡ next s.tnstate))
      → {out : Table → List ℕ} {last : Table → Table} {f : State P → Option (State P)}
      → Negotiates out last f
      → Negotiates
          (λ tn. message verb o ++ out (next tn))
          (λ tn. last (next tn))
          (do send_telnet_option verb o; λ s. some (mark s); f)
  offer-Negotiates verb o mark next keep h =
      Negotiates->> (option-Negotiates verb o) (Negotiates->> (quiet-Negotiates mark next keep) h)

  send_telnet_initial_options-Negotiates :
      Negotiates {P = P}
        (λ tn. greeting)
        (λ tn.
          marked_do 44
            (marked_do 3 (marked_will 3 (marked_will 1 (marked_do 0 (marked_will 0 tn))))))
        send_telnet_initial_options
  unfolding send_telnet_initial_options
  send_telnet_initial_options-Negotiates =
      offer-Negotiates _ _ _ (marked_will 0) (λ s. (refl, refl, refl))
        (offer-Negotiates _ _ _ (marked_do 0) (λ s. (refl, refl, refl))
          (offer-Negotiates _ _ _ (marked_will 1) (λ s. (refl, refl, refl))
            (offer-Negotiates _ _ _ (marked_will 3) (λ s. (refl, refl, refl))
              (offer-Negotiates _ _ _ (marked_do 3) (λ s. (refl, refl, refl))
                (Negotiates->> (option-Negotiates _ _)
                  (quiet-Negotiates _ (marked_do 44) (λ s. (refl, refl, refl))))))))

module _ (cfg : Config) (p : Port) where
  open p use {Handle}

  -- A complete message of three bytes from the client.
  abbrev pub receive : ℕ × ℕ → State Handle → Option (State Handle)
  receive (verb, o) = handle_iac_command cfg p (message verb o) 3

  receive-Negotiates : (m : ℕ × ℕ) → m.0 ≢ tnsb → Negotiates (reply_of m) (next_of m) (receive m)
  receive-Negotiates (verb, o) ne = handle_iac_command-Negotiates cfg p (message verb o) 3 ne

  -- The negotiation with a client that agrees to everything ends: when the option table is reset, the
  -- greeting is sent and the client's six agreements are handled, with valid buffers and room for the
  -- greeting, the eighteen bytes of the greeting are all that is ever sent, every option that was
  -- offered is on, none is outstanding, and nothing faults.
  pub greeting-agreed :
      Negotiates {P = Handle}
        (λ tn. greeting)
        (λ tn. agreed)
        (do
          λ s. some (init_telnet_state_machine s)
          send_telnet_initial_options
          for_each receive agreements)
  unfolding for_each init_telnet_state_machine answers table_after
  greeting-agreed =
      Negotiates-same (λ tn. refl) (λ tn i. ground arith)
        (Negotiates->> (quiet-Negotiates _ (λ tn o. tn_reset) (λ s. (refl, refl, refl))) (
          Negotiates->> send_telnet_initial_options-Negotiates (
            Negotiates-for_each reply_of next_of (receive) receive-Negotiates agreements
              (do_ne, (will_ne, (do_ne, (do_ne, (will_ne, (will_ne, tt)))))))))

  All-replicate : (n o : ℕ) → All (λ (m : ℕ × ℕ). m.0 ≢ tnsb) (replicate n (tnwill, o))
  All-replicate zero o = tt
  All-replicate (suc n) o = (will_ne, All-replicate n o)

  -- A request for an option that is on already is answered each time: when a client says WILL of a
  -- supported option `n` times, and no DO of it is outstanding, `n` times DO is put into its buffer,
  -- if there is room.
  pub receive-repeated :
      (n o : ℕ) (s : State Handle)
      → is_supported o ≡ true
      → (s.tnstate o).sent_do ≡ false
      → BuffersValid s
      → buffer_length s.to_net + length (repeated n (message tndo o)) ≤ 2047
      → (t : State Handle) × (for_each receive (replicate n (tnwill, o)) s ≡ some t)
        × (contents t.to_net ≡ contents s.to_net ++ repeated n (message tndo o))
  receive-repeated n o s on idle v room =
      let same = again_answered n o s.tnstate on idle in
      let (t, e, a) =
        (Negotiates-for_each reply_of next_of receive receive-Negotiates (replicate n (tnwill, o))
            (All-replicate n o)).run
          s v (omega (arith, ap length same)) in
      (t, e, a.appended ∙ ap (λ bs. contents s.to_net ++ bs) same)
