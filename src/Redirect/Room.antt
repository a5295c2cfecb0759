-- ===== src/Redirect/Room.antt =====
-- What one byte from the client may come to: the predicates on the outcome of `EscRedirectChar` of
-- library/src/main/jni/sercd.c, and the bytes outside of a command.
use serial_port.Prelude.{
  ℕ, ◌+◌, ◌≤◌, ◌<◌, ◌≡◌, ◌≢◌, refl, sym, subst, ◌∙◌, Bool, true, false, Option, some, arith, ◌==◌,
  if◌then◌else◌, >>-some,
}
use serial_port.Telnet.{tniac}
use serial_port.Buffer.{buffer_length}
use serial_port.Buffer.Refine.{add_to_buffer-Added}
use serial_port.State.{State, IacState, iac_normal, iac_received, iac_com_receiving, add_dev}
use serial_port.Buffer.Validity.{IsValid}
use serial_port.State.Steps.{BuffersValid, add_dev_lem}
use serial_port.Redirect.{set_escape, redirect_normal, start_command, redirect_received}
use serial_port.Redirect.Size.{gauge, gauge_of, Stored, CommandValid, Stored-set}

module _ {P : Type 0} where
  -- What a step may do, with `n` bytes for the client and a command of at most `g` bytes left.
  pub record Redirected (n g : ℕ) (s t : State P) : Type 0 where
    pub buffers : BuffersValid t
    pub command : CommandValid t
    pub net_within : buffer_length t.to_net ≤ buffer_length s.to_net + n
    pub dev_within : buffer_length t.to_dev ≤ buffer_length s.to_dev + 1
    pub gauge_within : gauge t ≤ g

  pub record Reaches (n g : ℕ) (s : State P) (o : Option (State P)) : Type 0 where
    pub to : State P
    pub runs : o ≡ some to
    pub does : Redirected n g s to

  -- A step that touches no buffer.
  pub quiet :
      {n g : ℕ} {s : State P} (t : State P)
      → BuffersValid s
      → t.to_net ≡ s.to_net
      → t.to_dev ≡ s.to_dev
      → CommandValid t
      → gauge t ≤ g
      → Reaches n g s (some t)
  quiet t b e f c short = record {
    to = t;
    runs = refl;
    does = record {
      buffers = record { net = subst IsValid (sym e) b.net; dev = subst IsValid (sym f) b.dev };
      command = c;
      net_within = rw e (omega arith);
      dev_within = rw f (omega arith);
      gauge_within = short;
    };
  }

  pub Reaches-if :
      {n g : ℕ} {s : State P} {x y : Option (State P)} (b : Bool)
      → (b ≡ true → Reaches n g s x)
      → (b ≡ false → Reaches n g s y)
      → Reaches n g s (if b then x else y)
  Reaches-if true h k = h refl
  Reaches-if false h k = k refl

  pub Reaches-eq :
      {n g : ℕ} {s : State P} {x y : Option (State P)} → x ≡ y → Reaches n g s y → Reaches n g s x
  Reaches-eq e r = record { to = r.to; runs = e ∙ r.runs; does = r.does }

  -- A byte is passed on to the device, and the escape state is set outside of a command.
  pass_on :
      (n g c : ℕ) (s : State P) (next : IacState)
      → BuffersValid s
      → Stored s.iac_command
      → next ≢ iac_com_receiving
      → gauge_of next s.iac_pos ≤ g
      → buffer_length s.to_dev < 2047
      → (t : State P) × (add_dev c s ≡ some t)
        × Redirected n g s (record t { iac_escape = next })
        × (t.iac_escape ≡ s.iac_escape)
  pass_on n g c s next b v ne small room =
      let (d, e, a) = add_to_buffer-Added c b.dev room in
      (
        record s { to_dev = d },
        add_dev_lem c s e,
        record {
          buffers = record { net = b.net; dev = a.valid };
          command = record { stored = v; progress = λ is. absurd (ne is) };
          net_within = omega arith;
          dev_within = omega (arith, a.one_more);
          gauge_within = small;
        },
        refl,
      )

  pub redirect_normal-ok :
      (n g c : ℕ) (s : State P)
      → BuffersValid s
      → CommandValid s
      → s.iac_escape ≡ iac_normal
      → 2 ≤ g
      → buffer_length s.to_dev < 2047
      → Reaches n g s (redirect_normal c s)
  unfolding redirect_normal
  redirect_normal-ok n g c s b v e two room =
      Reaches-if (c == tniac)
        (λ _.
          quiet (record s { iac_escape = iac_received }) b refl refl
            (record { stored = v.stored; progress = λ is. absurd (cc) }) (omega arith))
        (λ _.
          Reaches-if _ (λ _. quiet s b refl refl v (ground arith))
            (λ _. same (pass_on n g c s iac_normal b v.stored (λ is. cc) (omega arith) room)))
    where
      same :
          (t : State P) × (add_dev c s ≡ some t)
            × Redirected n g s (record t { iac_escape = iac_normal })
            × (t.iac_escape ≡ s.iac_escape)
          → Reaches n g s (add_dev c s)
      same r = record {
        to = r.0;
        runs = r.1;
        does = subst (Redirected n g s) (sym (λ i. record (r.0) { iac_escape = (r.3 ∙ e) i })) r.2;
      }

  pub redirect_received-ok :
      (n g c : ℕ) (s : State P)
      → BuffersValid s
      → CommandValid s
      → 2 ≤ g
      → buffer_length s.to_dev < 2047
      → Reaches n g s (redirect_received c s)
  unfolding redirect_received start_command
  redirect_received-ok n g c s b v two room =
      Reaches-if (c == tniac)
        (λ _.
          let (t, e, d, k) = pass_on n g c s iac_normal b v.stored (λ is. cc) (omega arith) room in
          record {
            to = record t { iac_escape = iac_normal };
            runs = >>-some (add_dev c) (set_escape iac_normal) s e;
            does = d;
          })
        (λ _.
          quiet _ b refl refl
            (record {
              stored = Stored-set 1 c (omega arith) (Stored-set 0 tniac (omega arith) v.stored);
              progress = λ _. record { begun = omega arith; below = ground arith };
            })
            (omega arith))
