-- ===== src/MainLoop/Sound.antt =====
-- Valid states of the main loop of library/src/main/jni/sercd.c, what a part of a round relies on,
-- and the greeting of a new client.
use serial_port.Prelude.{ℕ, ◌≤◌, ◌<◌, ◌≡◌, refl, sym, subst, true, ◌&&◌, some, List, arith, length}
use serial_port.Buffer.{Buffer, buffer_length, init_buffer}
use serial_port.Buffer.Validity.{init_buffer-IsValid}
use serial_port.State.{State, Port, Config, iac_com_receiving, tn_reset, init_telnet_state_machine}
use serial_port.State.Steps.{BuffersValid, Grown, frame}
use serial_port.Send.Room.{send_telnet_initial_options-Sends}
use serial_port.Redirect.Size.{CommandValid, Stored, InProgress, gauge}
use serial_port.LoopState.{Poll, Events, Main, Step, read_bytes}
use serial_port.MainLoop.{greeted}
use serial_port.MainLoop.Post.{Post}

module _ {P : Type 0} where
  -- The buffers and the command under collection are valid.
  pub record Sound (s : State P) : Type 0 where
    pub buffers : BuffersValid s
    pub command : CommandValid s

  -- What the parts of the loop up to the network input rely on: the command under collection has less
  -- than 250 bytes, and the descriptors of the events are set.
  pub record Able (ev : Events) (m : Main P) : Type 0 where
    pub sound : Sound m.st
    pub short : gauge m.st < 250
    pub reads_dev : ev.device_in ≡ true → m.device_fd ≡ true
    pub writes_dev : ev.device_out ≡ true → m.device_fd ≡ true
    pub writes_net : ev.socket_out ≡ true → m.out_socket_fd ≡ true
    pub reads_net : ev.socket_in ≡ true → (m.in_socket_fd && m.device_fd) ≡ true

  abbrev pub IsSound : Main P → Type 0
  IsSound m = Sound m.st

  -- What only writes to the client leaves the command under collection as it is.
  pub kept-Sound : {n : ℕ} {s t : State P} → Sound s → Grown n s t → Sound t
  kept-Sound v k = record {
    buffers = k.valid;
    command = record {
      stored = subst (λ f. Stored f.1) (sym k.kept) v.command.stored;
      progress =
          subst (λ f. f.3 ≡ iac_com_receiving → InProgress f.1 f.2) (sym k.kept) v.command.progress;
    };
  }

module _ {P : Type 0} where
  abbrev pub Safe : (Main P → Type 0) → Step P → Type 0
  Safe Q = Post Q IsSound ⊥

-- What `read` promises: no more bytes than asked for.
pub record ReadsFit (poll : Poll) : Type 0 where
  pub dev : (n : ℕ) (bs : List ℕ) → poll.read_dev n ≡ read_bytes bs → length bs ≤ n
  pub net : (n : ℕ) (bs : List ℕ) → poll.read_net n ≡ read_bytes bs → length bs ≤ n

module _ (cfg : Config) (p : Port) where
  open p use {Handle}

  init_net :
      (s : State Handle)
      → Sound s
      → Sound (record s { to_net = init_buffer s.to_net; tnstate = λ o. tn_reset })
  init_net s v = record {
    buffers = record { net = init_buffer-IsValid v.buffers.net; dev = v.buffers.dev };
    command = record { stored = v.command.stored; progress = v.command.progress };
  }

  init_buffer-length : (b : Buffer) → buffer_length (init_buffer b) ≡ 0
  unfolding init_buffer buffer_length
  init_buffer-length b = refl

  pub greeted_lem :
      (s : State Handle)
      → Sound s
      → (t : State Handle) × (greeted cfg p s ≡ some t) × Sound t × (frame t ≡ frame s)
  unfolding init_telnet_state_machine
  greeted_lem s v =
      let w = init_net s v in
      let (t, e, k) =
        send_telnet_initial_options-Sends.run
          (record s { to_net = init_buffer s.to_net; tnstate = λ o. tn_reset }) w.buffers
          (omega (arith, init_buffer-length s.to_net)) in
      (t, e, kept-Sound w k, k.kept)

  pub greeted_size :
      (s : State Handle)
      → Sound s
      → (t : State Handle) × (greeted cfg p s ≡ some t) × Sound t × (buffer_length t.to_net ≤ 18)
  unfolding init_telnet_state_machine
  greeted_size s v =
      let w = init_net s v in
      let (t, e, k) =
        send_telnet_initial_options-Sends.run
          (record s { to_net = init_buffer s.to_net; tnstate = λ o. tn_reset }) w.buffers
          (omega (arith, init_buffer-length s.to_net)) in
      (t, e, kept-Sound w k, omega (arith, k.within, init_buffer-length s.to_net))

  -- The greeting of a client does not touch the command parser.
  pub greeted-kept :
      (s : State Handle)
      → Sound s
      → (t : State Handle) × (greeted cfg p s ≡ some t) × (frame t ≡ frame s)
  greeted-kept s v = let (t, e, w, k) = greeted_lem s v in (t, e, k)
