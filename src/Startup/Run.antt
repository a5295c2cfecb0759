-- ===== src/Startup/Run.antt =====
-- The states of the main loop of library/src/main/jni/sercd.c that are reached from its start, round by round.
use serial_port.Prelude.{
  ℕ, length, ◌<◌, ◌≡◌, ◌⊎◌, inl, inr, refl, sym, subst, ◌∙◌, Bool, true, false, [], ◌∷◌, ap,
  length-replicate, if◌then◌else◌,
}
use serial_port.Buffer.{Buffer}
use serial_port.State.{State, Port, Config}
use serial_port.Redirect.Size.{gauge}
use serial_port.LoopState.{state_ready, Poll, Main, Turn, again, exit}
use serial_port.MainLoop.{turn}
use serial_port.MainLoop.Connection.{again_injective, Synced, turn-Synced}
use serial_port.MainLoop.Sound.{Sound, ReadsFit}
use serial_port.MainLoop.Safety.{turn-Safe}
use serial_port.MainLoop.Notice.{WritesFit, turn-WritesFit}
use serial_port.Startup.Begun.{Begun, unconnected, served, turn-unconnected}
use serial_port.Startup.{Setup, failed, listening, initial_state, start_up}

-- What the system calls of a round may return for the round not to fault: the modem state is not polled and
-- the command under collection is short of 250 bytes, or nothing is read.
pub data Benign {P : Type 0} (poll : Poll) (m : Main P) : Type 0 where
  unpolled : ReadsFit poll → poll.ready.modem_state ≡ false → gauge m.st < 250 → Benign poll m
  unread :
      WritesFit poll → poll.ready.device_in ≡ false → poll.ready.socket_in ≡ false → Benign poll m

listening_injective : {P : Type 0} {m n : Main P} → listening m ≡ listening n → m ≡ n
listening_injective {m} e = ap (λ x. elim x [ listening k ↦ k | failed b ↦ m ]) e

again_ne_exit : {P : Type 0} {m n : Main P} {c : ℕ} → again m ≡ exit c n → ⊥
again_ne_exit e = cc

-- The state in which the loop begins.
abbrev pub first_round : {P : Type 0} → State P → Main P
first_round s = record {
  st = s;
  device_fd = false;
  in_socket_fd = false;
  out_socket_fd = false;
  l_socket_fd = true;
  notified = state_ready ∷ [];
}

module _ (cfg : Config) (p : Port) where
  open p use {Handle}

  -- The rounds from `m` on.
  pub data Run (m : Main Handle) : Main Handle → Type 0 where
    here : Run m m
    round : {n o : Main Handle} (poll : Poll) → Run m n → turn cfg p poll n ≡ again o → Run m o

  -- The same where each round is benign.
  pub data BenignRun (m : Main Handle) : Main Handle → Type 0 where
    here : BenignRun m m
    round :
        {n o : Main Handle} (poll : Poll)
        → BenignRun m n
        → Benign poll n
        → turn cfg p poll n ≡ again o
        → BenignRun m o

  pub started_lem :
      (setup : Setup) (s : State Handle) {m : Main Handle}
      → start_up setup s ≡ listening m
      → first_round s ≡ m
  unfolding start_up
  started_lem setup s {m} = by_calls setup.socket_fails setup.bind_fails setup.listen_fails
    where
      by_calls :
          (a b c : Bool)
          → (if a
              then failed false
              else if b
              then failed true
              else if c
              then failed true
              else listening (first_round s))
            ≡ listening m
          → first_round s ≡ m
      by_calls true b c e = cc
      by_calls false true c e = cc
      by_calls false false true e = cc
      by_calls false false false e = listening_injective e

  Run-Synced : {m n : Main Handle} → Synced m → Run m n → Synced n
  Run-Synced v here = v
  Run-Synced v (round poll r e) = turn-Synced cfg p poll _ (Run-Synced v r) e

  -- Whatever the system calls return, in every state that the main loop reaches from its start the two
  -- sockets and the serial device are either all set or all unset, and the last state that the Java
  -- side was told is PORT_OPENED in the first case and READY in the second.
  pub start_up-Synced :
      (setup : Setup) (s : State Handle) {m n : Main Handle}
      → start_up setup s ≡ listening m
      → Run m n
      → Synced n
  start_up-Synced setup s e r =
      Run-Synced
        (subst Synced (started_lem setup s e)
          (record { sockets = refl; device = refl; rest = []; told = refl }))
        r

module _ (cfg : Config) (p : Port) (wide : cfg.sizeof_ulong ≡ 8) where
  open p use {Handle}

  -- What a round may come to.
  abbrev Ends : Poll → Main Handle → (Main Handle → Type 0) → Type 0
  Ends poll m Q =
      (n : Main Handle) × ((turn cfg p poll m ≡ again n)
        ⊎ ((turn cfg p poll m ≡ exit 0 n) ⊎ (turn cfg p poll m ≡ exit 1 n)))
      × Q n

  still_served : (poll : Poll) (m : Main Handle) → Ends poll m (λ n. Sound n.st) → Ends poll m Begun
  still_served poll m (n, e, v) = (n, e, served v)

  turn-Benign : (poll : Poll) (m : Main Handle) → Benign poll m → Begun m → Ends poll m Begun
  turn-Benign poll m b (unconnected v free) = turn-unconnected cfg p poll m v free
  turn-Benign poll m (unpolled fit quiet short) (served v) =
      still_served poll m (turn-Safe cfg p wide poll m fit quiet v short)
  turn-Benign poll m (unread fit no_input no_data) (served v) =
      still_served poll m (turn-WritesFit cfg p wide poll m fit no_input no_data v)

  again-Begun :
      {t : Turn Handle} {o : Main Handle}
      → t ≡ again o
      → (n : Main Handle) × ((t ≡ again n) ⊎ ((t ≡ exit 0 n) ⊎ (t ≡ exit 1 n))) × Begun n
      → Begun o
  again-Begun e (n, inl e', v) = subst Begun (again_injective (sym e' ∙ e)) v
  again-Begun e (n, inr (inl e'), v) = absurd (again_ne_exit (sym e ∙ e'))
  again-Begun e (n, inr (inr e'), v) = absurd (again_ne_exit (sym e ∙ e'))

  BenignRun-Begun : {m n : Main Handle} → Begun m → BenignRun cfg p m n → Begun n
  BenignRun-Begun v here = v
  BenignRun-Begun v (round poll r b e) = again-Begun e (turn-Benign poll _ b (BenignRun-Begun v r))

  initial_state-Begun :
      (to_net to_dev : Buffer) (port : Handle)
      → length to_net.cells ≡ 2048
      → length to_dev.cells ≡ 2048
      → Begun (first_round (initial_state to_net to_dev port))
  unfolding initial_state
  initial_state-Begun to_net to_dev port net dev =
      unconnected
        (record {
          net_storage = net;
          dev_storage = dev;
          command = record {
            stored = record { full = length-replicate {A = ℕ} 255 0; nul = refl };
            progress = λ e. cc;
          };
          no_device = refl;
          sockets = refl;
          net = λ e. cc;
        })
        refl

  -- On a 64-bit target, no benign run of the main loop from its start faults, however long, and whatever
  -- the two buffers, of 2048 bytes each, hold at first: after any number of benign rounds the next
  -- benign round ends in a next round or in one of the two exits, and after it the command under
  -- collection is valid, and so are the buffers unless no client is connected. A round is benign if the
  -- modem state is not polled in it, `read` returns no more bytes than it was asked for and the command
  -- under collection is short of 250 bytes, or if nothing is read in it and `write` to the client
  -- neither blocks nor takes more bytes than it was given.
  pub start_up-Benign :
      (setup : Setup) (to_net to_dev : Buffer) (port : Handle) {m n : Main Handle}
      → length to_net.cells ≡ 2048
      → length to_dev.cells ≡ 2048
      → start_up setup (initial_state to_net to_dev port) ≡ listening m
      → BenignRun cfg p m n
      → (poll : Poll) → Benign poll n
      → (o : Main Handle) × ((turn cfg p poll n ≡ again o)
          ⊎ ((turn cfg p poll n ≡ exit 0 o) ⊎ (turn cfg p poll n ≡ exit 1 o)))
        × Begun o
  start_up-Benign setup to_net to_dev port {m} {n} net dev e r poll b = turn-Benign poll n b (
      BenignRun-Begun
        (subst Begun (started_lem cfg p setup (initial_state to_net to_dev port) e)
          (initial_state-Begun to_net to_dev port net dev))
        r)
