-- ===== src/Tests/Rounds.antt =====
-- Whole rounds of the main loop of library/src/main/jni/sercd.c, from its start to its end.
use serial_port.Prelude.{
  replicate, length-replicate, length-take, take, subst, ◌++◌, for_each, ℕ, suc, ◌≤◌, ◌≡◌, ◌≢◌, ◌⊎◌,
  refl, true, false, some, List, [], ◌∷◌, arith, length,
}
use serial_port.Buffer.{Buffer, init_buffer, add_to_buffer, buffer_length}
use serial_port.Buffer.Refine.{contents}
use serial_port.State.{add_net, init_telnet_state_machine}
use serial_port.Send.{send_telnet_initial_options, send_telnet_option}
use serial_port.Redirect.{esc_redirect_char}
use serial_port.MainLoop.Tunnel.{Paired, serial_input-redirect}
use serial_port.MainLoop.Sound.{ReadsFit}
use serial_port.State.{State}
use serial_port.Buffer.{buffer_room_left}
use serial_port.LoopState.{
  read_bytes, ReadResult, read_failed, read_would_block, on, Poll, Main, again, exit, crash, count,
}
use serial_port.MainLoop.{
  dev_read, net_read, turn, requested, serial_input, serial_output, network_output, network_input,
  accept_connection, open_device, notify_modem_state,
}
use serial_port.MainLoop.Connection.{Synced}
use serial_port.MainLoop.Sound.{Sound}
use serial_port.MainLoop.Notice.{WritesFit, turn-WritesFit}
use serial_port.MainLoop.Drain.{Accepting, to_device, to_client}
use serial_port.MainLoop.Delivery.{sent_for, Delivered, network_input-drained, serial_input-drained}
use serial_port.Send.Wire.{escape_all, is_binary}
use serial_port.State.{iac_normal}
use serial_port.State.Steps.{BuffersValid}
use serial_port.Redirect.Size.{gauge}
use serial_port.Startup.Begun.{Begun}
use serial_port.Startup.{Setup, listening, initial_state, start_up}
use serial_port.Startup.Run.{unpolled, here, round, start_up-Synced, start_up-Benign}
use serial_port.Tests.{
  buffers, room_for_a_byte, cfg, toy_port, start, no_events, knock, idle, serving, reads_nothing,
  start-Sound,
}

-- A device that takes one byte at a time.
abbrev slow : Poll
slow = record knock { write_dev = λ bs. count 1 }

slow-Accepting : Accepting slow.write_dev
slow-Accepting = record { accepts = one_byte }
  where
    one_byte :
        (bs : List ℕ)
        → bs ≢ []
        → (n : ℕ) × (slow.write_dev bs ≡ count (suc n)) × (suc n ≤ length bs)
    one_byte [] ne = absurd (ne refl)
    one_byte (b ∷ bs) ne = (0, refl, omega arith)

-- The client sends an escaped 255.
abbrev sent : List ℕ
sent = 255 ∷ 255 ∷ []

abbrev talks : Poll
talks = record knock { read_net = λ n. read_bytes (take n sent) }

reads_at_most :
    (xs : List ℕ) (n : ℕ) (bs : List ℕ) → read_bytes (take n xs) ≡ read_bytes bs → length bs ≤ n
reads_at_most xs n bs e =
    subst {A = ReadResult}
      (λ r. elim r [ read_failed ↦ 0 | read_would_block ↦ 0 | read_bytes cs ↦ length cs ] ≤ n) e
      (omega (arith, length-take n xs))

talks-ReadsFit : ReadsFit talks
talks-ReadsFit = record { dev = λ n bs e. ground arith; net = reads_at_most sent }

talks-sent :
    net_read cfg toy_port talks serving ≡ read_bytes (sent_for cfg toy_port (255 ∷ []) start)
unfolding buffer_room_left buffer_length escape_all
talks-sent = refl

network_input-drained_example :
    (n : Main ℕ) × Delivered
      (to_device cfg toy_port)
      (λ i. slow)
      1
      (network_input cfg toy_port talks (record no_events { socket_in = true }) serving)
      serving
      n
      (255 ∷ [])
    × (n.st.iac_escape ≡ iac_normal)
    × (n.st.redirect_last ≡ 255)
    × (n.st.tnstate ≡ start.tnstate)
    × BuffersValid n.st
network_input-drained_example =
    network_input-drained cfg toy_port talks (record no_events { socket_in = true }) (λ i. slow) 1
      serving 255 [] talks-ReadsFit (λ i. slow-Accepting) buffers refl refl refl refl talks-sent
      (omega (arith, room_for_a_byte))

-- The modem state is due while the device is served.
abbrev due : Poll
due = record knock { ready = record no_events { modem_state = true }; write_net = λ bs. count 0 }

due-WritesFit : WritesFit due
due-WritesFit = record { unblocked = λ bs e. cc; net = λ bs n e. ground arith }

turn-WritesFit_example :
    (n : Main ℕ) × ((turn cfg toy_port due serving ≡ again n)
      ⊎ ((turn cfg toy_port due serving ≡ exit 0 n) ⊎ (turn cfg toy_port due serving ≡ exit 1 n)))
    × Sound n.st
turn-WritesFit_example =
    turn-WritesFit cfg toy_port refl due serving due-WritesFit refl refl start-Sound

abbrev pub no_failure : Setup
no_failure = record { socket_fails = false; bind_fails = false; listen_fails = false }

-- What the stack may have held.
abbrev pub garbage : Buffer
garbage = record { cells = replicate 2048 170; rd_pos = 123456; wr_pos = 4294967295 }

garbage-storage : length garbage.cells ≡ 2048
garbage-storage = length-replicate {A = ℕ} 2048 170

abbrev waiting : Main ℕ
waiting = record idle { st = (initial_state garbage garbage 9600) }

pub starts : start_up no_failure (initial_state garbage garbage 9600) ≡ listening waiting
unfolding start_up
starts = refl

-- The state after the client has been accepted and the device has been opened.
abbrev pub after_knock : Main ℕ
after_knock = elim (turn cfg toy_port knock waiting) [
  | again n ↦ n
  | exit c n ↦ n
  | crash ↦ waiting
]

pub knocked : turn cfg toy_port knock waiting ≡ again after_knock
unfolding turn initial_state requested serial_input serial_output network_output network_input
    accept_connection send_telnet_initial_options send_telnet_option add_net add_to_buffer
    buffer_length init_telnet_state_machine init_buffer open_device notify_modem_state
knocked = refl

waiting_size : gauge waiting.st ≡ 1
unfolding initial_state
waiting_size = refl

after_knock_size : gauge after_knock.st ≡ 1
unfolding turn initial_state requested serial_input serial_output network_output network_input
    accept_connection send_telnet_initial_options send_telnet_option add_net add_to_buffer
    buffer_length init_telnet_state_machine init_buffer open_device notify_modem_state
after_knock_size = refl

start_up-Synced_example : Synced after_knock
start_up-Synced_example =
    start_up-Synced cfg toy_port no_failure (initial_state garbage garbage 9600) starts
      (round knock here knocked)

start_up-Benign_example :
    (o : Main ℕ) × ((turn cfg toy_port knock after_knock ≡ again o)
      ⊎ ((turn cfg toy_port knock after_knock ≡ exit 0 o)
          ⊎ (turn cfg toy_port knock after_knock ≡ exit 1 o)))
    × Begun o
start_up-Benign_example =
    start_up-Benign cfg toy_port refl no_failure garbage garbage 9600 garbage-storage
      garbage-storage starts
      (round knock here (unpolled reads_nothing refl (omega (arith, waiting_size))) knocked) knock
      (unpolled reads_nothing refl (omega (arith, after_knock_size)))

abbrev line_end : List ℕ
line_end = 13 ∷ 255 ∷ []

-- The device sends a carriage return and an IAC.
abbrev sends : Poll
sends = record knock { read_dev = λ n. read_bytes (take n line_end) }

sends-ReadsFit : ReadsFit sends
sends-ReadsFit = record { dev = reads_at_most line_end; net = λ n bs e. ground arith }

sends-line_end : dev_read cfg toy_port sends serving ≡ read_bytes line_end
unfolding buffer_room_left buffer_length
sends-line_end = refl

-- A client that takes one byte at a time.
abbrev slow_client : Poll
slow_client = record knock { write_net = λ bs. count 1 }

wire_length : length (escape_all (is_binary start) start.write_last line_end) ≡ 3
unfolding escape_all
wire_length = refl

serial_input-drained_example :
    (n : Main ℕ) × Delivered
      (to_client cfg toy_port)
      (λ i. slow_client)
      3
      (serial_input cfg toy_port sends (record no_events { device_in = true }) serving)
      serving
      n
      (escape_all (is_binary start) start.write_last line_end)
    × (n.st.write_last ≡ 255)
    × (n.st.to_dev ≡ start.to_dev)
    × (n.st.tnstate ≡ start.tnstate)
    × BuffersValid n.st
serial_input-drained_example =
    serial_input-drained cfg toy_port sends (record no_events { device_in = true })
      (λ i. slow_client) 3 serving 13 (255 ∷ []) sends-ReadsFit (λ i. slow-Accepting) buffers refl
      refl refl sends-line_end (omega (arith, room_for_a_byte, wire_length))

paired : Paired start start
paired = record { sender = buffers; receiver = buffers; outside = refl; binary = refl; last = refl }

serial_input-redirect_example :
    (n : Main ℕ) × (t : State ℕ) × (wire : List ℕ) × (serial_input cfg toy_port sends
        (record no_events { device_in = true })
        serving
      ≡ on n)
    × (contents n.st.to_net ≡ contents start.to_net ++ wire)
    × (for_each (esc_redirect_char cfg toy_port) wire start ≡ some t)
    × (contents t.to_dev ≡ contents start.to_dev ++ line_end)
    × Paired n.st t
serial_input-redirect_example =
    serial_input-redirect cfg toy_port cfg toy_port sends (record no_events { device_in = true })
      serving start 13 (255 ∷ []) sends-ReadsFit refl refl sends-line_end paired
      (omega (arith, room_for_a_byte))
