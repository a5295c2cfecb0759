-- ===== src/Restore.antt =====
-- What the redirector of library/src/main/jni/sercd.c keeps of its serial port, whatever it is sent: programs
-- over the state that preserve a predicate of the port's handle.
pub mod Commands
pub mod Bytes
pub mod Loop
pub mod Device
use serial_port.Prelude.{
  ℕ, ◌≡◌, refl, sym, ap, subst, Bool, true, false, Option, none, some, List, [], ◌∷◌, if◌then◌else◌,
  ◌>>◌, for_each, skip,
}
use serial_port.Buffer.{Buffer, add_to_buffer}
use serial_port.State.{State, Port, add_net, add_dev}

-- A predicate of the handle that no request to a port breaks.
pub record Stable (p : Port) (I : p.Handle → Type 0) : Type 0 where
  pub speed : (n : ℕ) (h : p.Handle) → I h → I (p.set_port_speed n h)
  pub data_size : (n : ℕ) (h : p.Handle) → I h → I (p.set_port_data_size n h)
  pub parity : (n : ℕ) (h : p.Handle) → I h → I (p.set_port_parity n h)
  pub stop_size : (n : ℕ) (h : p.Handle) → I h → I (p.set_port_stop_size n h)
  pub flow_control : (n : ℕ) (h : p.Handle) → I h → I (p.set_port_flow_control n h)
  pub break : (on : Bool) (h : p.Handle) → I h → I (p.set_break on h)
  pub flush : (n : ℕ) (h : p.Handle) → I h → I (p.set_flush n h)

module _ {P : Type 0} (I : P → Type 0) where
  -- Where the program does not fault, the predicate holds afterwards if it held before.
  pub record Keeps (f : State P → Option (State P)) : Type 0 where
    pub keeps : (s : State P) {t : State P} → f s ≡ some t → I s.port → I t.port

  moved : (s : State P) {t : State P} → some s ≡ some t → I s.port → I t.port
  moved s e v = subst (λ (u : State P). I u.port) (ap (λ x. elim x [ none ↦ s | some u ↦ u ]) e) v

  stored :
      (put : State P → Buffer → State P)
      → ((s : State P) (b : Buffer) → (put s b).port ≡ s.port)
      → (s : State P) (o : Option Buffer) {t : State P}
      → (elim o as (λ _. Option (State P)) [ none ↦ none | some b ↦ some (put s b) ]) ≡ some t
      → I s.port
      → I t.port
  stored put same s none e v = cc
  stored put same s (some b) e v = moved (put s b) e (subst I (sym (same s b)) v)

module _ {P : Type 0} {I : P → Type 0} where
  -- A change of the state that keeps the predicate.
  pub Keeps-change :
      (g : State P → State P)
      → ((s : State P) → I s.port → I (g s).port)
      → Keeps I (λ s. some (g s))
  Keeps-change g h = record { keeps = λ s {t} e v. moved I (g s) e (h s v) }

  pub Keeps-quiet :
      (g : State P → State P) → ((s : State P) → (g s).port ≡ s.port) → Keeps I (λ s. some (g s))
  Keeps-quiet g same = Keeps-change g (λ s v. subst I (sym (same s)) v)

  pub Keeps-none : Keeps I (λ s. none)
  Keeps-none = record { keeps = λ s {t} e v. cc }

  pub Keeps->> : {f g : State P → Option (State P)} → Keeps I f → Keeps I g → Keeps I (f >> g)
  Keeps->> {f} {g} hf hg = record { keeps = λ s {t} e v. by_first s (f s) refl e v }
    where
      by_first :
          (s : State P) (o : Option (State P)) {t : State P}
          → f s ≡ o
          → (elim o as (λ _. Option (State P)) [ none ↦ none | some u ↦ g u ]) ≡ some t
          → I s.port
          → I t.port
      by_first s none h e v = cc
      by_first s (some u) h e v = hg.keeps u e (hf.keeps s h v)

  pub Keeps-if :
      {f g : State P → Option (State P)} (b : State P → Bool)
      → Keeps I f
      → Keeps I g
      → Keeps I (λ s. if b s then f s else g s)
  Keeps-if {f} {g} b hf hg = record { keeps = λ s {t} e v. by_test (b s) s e v }
    where
      by_test :
          (x : Bool) (s : State P) {t : State P}
          → (if x then f s else g s) ≡ some t
          → I s.port
          → I t.port
      by_test true s e v = hf.keeps s e v
      by_test false s e v = hg.keeps s e v

  -- A program that is given a value of the state it starts in.
  pub Keeps-at :
      {A : Type 0} {f : A → State P → Option (State P)} (get : State P → A)
      → ((a : A) → Keeps I (f a))
      → Keeps I (λ s. f (get s) s)
  Keeps-at get h = record { keeps = λ s {t} e v. (h (get s)).keeps s e v }

  pub Keeps-for_each :
      {A : Type 0} {body : A → State P → Option (State P)}
      → ((a : A) → Keeps I (body a))
      → (xs : List A) → Keeps I (for_each body xs)
  unfolding for_each
  Keeps-for_each h [] = Keeps-quiet (λ s. s) (λ s. refl)
  Keeps-for_each h (x ∷ xs) = Keeps->> (h x) (Keeps-for_each h xs)

  pub skip-Keeps : Keeps I skip
  skip-Keeps = Keeps-quiet (λ s. s) (λ s. refl)

  pub add_net-Keeps : (c : ℕ) → Keeps I (add_net c)
  unfolding add_net
  add_net-Keeps c = record {
    keeps = λ s {t} e v.
        stored I (λ u b. record u { to_net = b }) (λ u b. refl) s (add_to_buffer c s.to_net) e v;
  }

  pub add_dev-Keeps : (c : ℕ) → Keeps I (add_dev c)
  unfolding add_dev
  add_dev-Keeps c = record {
    keeps = λ s {t} e v.
        stored I (λ u b. record u { to_dev = b }) (λ u b. refl) s (add_to_buffer c s.to_dev) e v;
  }
