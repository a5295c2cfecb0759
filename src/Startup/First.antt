-- ===== src/Startup/First.antt =====
-- The main loop of library/src/main/jni/sercd.c before its first client: the two buffers are locals of the
-- main function and hold anything.
use serial_port.Prelude.{ℕ, ◌≡◌, refl, ap, ◌∙◌, Option, none, some, ◌>>◌, >>-some}
use serial_port.Telnet.{tniac}
use serial_port.Buffer.{Buffer, add_to_buffer}
use serial_port.State.{State, add_net}
use serial_port.Send.{send_telnet_option, send_telnet_initial_options}

module _ {P : Type 0} where
  -- Another buffer to the device.
  abbrev pub swap : Buffer → State P → State P
  swap b s = record s { to_dev = b }

  -- A program that neither reads nor writes the device's buffer.
  pub record Ignores (f : State P → Option (State P)) : Type 0 where
    pub same :
        (b : Buffer) (s : State P) {t : State P} → f s ≡ some t → f (swap b s) ≡ some (swap b t)

  add_net-Ignores : (c : ℕ) → Ignores (add_net c)
  unfolding add_net
  add_net-Ignores c = record { same = λ b s {t} e. by_room b s (add_to_buffer c s.to_net) e }
    where
      by_room :
          (b : Buffer) (s : State P) (o : Option Buffer) {t : State P}
          → (elim o as (λ _. Option (State P)) [
            | none ↦ none
            | some b' ↦ some (record s { to_net = b' })
          ])
            ≡ some t
          → (elim o as (λ _. Option (State P)) [
            | none ↦ none
            | some b' ↦ some (record s { to_dev = b; to_net = b' })
          ])
            ≡ some (swap b t)
      by_room b s none e = cc
      by_room b s (some b') e = ap (λ x. elim x [ none ↦ none | some u ↦ some (swap b u) ]) e

  Ignores->> : {f g : State P → Option (State P)} → Ignores f → Ignores g → Ignores (f >> g)
  Ignores->> {f} {g} hf hg = record { same = λ b s {t} e. by_first b s (f s) refl e }
    where
      by_first :
          (b : Buffer) (s : State P) (o : Option (State P)) {t : State P}
          → f s ≡ o
          → (elim o as (λ _. Option (State P)) [ none ↦ none | some u ↦ g u ]) ≡ some t
          → (f >> g) (swap b s) ≡ some (swap b t)
      by_first b s none h e = cc
      by_first b s (some u) h e = >>-some f g (swap b s) (hf.same b s h) ∙ hg.same b u e

  quiet-Ignores :
      (g : State P → State P)
      → ((b : Buffer) (s : State P) → g (swap b s) ≡ swap b (g s))
      → Ignores (λ s. some (g s))
  quiet-Ignores g keep = record {
    same = λ b s {t} e.
        ap (λ x. some x) (keep b s) ∙ ap (λ x. elim x [ none ↦ none | some u ↦ some (swap b u) ]) e;
  }

  option-Ignores : (command option : ℕ) → Ignores (send_telnet_option command option)
  unfolding send_telnet_option
  option-Ignores command option =
      Ignores->> (add_net-Ignores tniac)
        (Ignores->> (add_net-Ignores command) (add_net-Ignores option))

  pub send_telnet_initial_options-Ignores : Ignores send_telnet_initial_options
  unfolding send_telnet_initial_options
  send_telnet_initial_options-Ignores = Ignores->> (option-Ignores _ _) (
      Ignores->> (quiet-Ignores _ (λ b s. refl)) (
        Ignores->> (option-Ignores _ _) (
          Ignores->> (quiet-Ignores _ (λ b s. refl)) (
            Ignores->> (option-Ignores _ _) (
              Ignores->> (quiet-Ignores _ (λ b s. refl)) (
                Ignores->> (option-Ignores _ _) (
                  Ignores->> (quiet-Ignores _ (λ b s. refl)) (
                    Ignores->> (option-Ignores _ _) (
                      Ignores->> (quiet-Ignores _ (λ b s. refl))
                        (Ignores->> (option-Ignores _ _) (quiet-Ignores _ (λ b s. refl))))))))))))
