-- ===== src/Tests.antt =====
-- A redirector on a small port, at concrete states: runs of the code of library/src/main/jni/sercd.c,
-- and the theorems at inputs that meet their hypotheses.
mod Rounds
mod Negotiation
mod Platform
mod Escaped
mod Answers
mod Restored
mod Selected
mod Overrun
use serial_port.Prelude.{
  ℕ, ◌+◌, ◌≡◌, ◌⊎◌, refl, true, false, some, List, [], ◌∷◌, arith, get_or, replicate,
  length-replicate, for_each,
}
use serial_port.Buffer.{
  Buffer, buffer_length, buffer_room_left, buffer_has_room_for, is_buffer_empty, add_to_buffer,
  get_from_buffer,
}
use serial_port.Buffer.Validity
use serial_port.Buffer.Refine.{
  contents, map_contents, enqueue, add_to_buffer_refines, get_from_buffer_refines,
}
use serial_port.State.{State, Port, Config, iac_normal, iac_received, tn_reset}
use serial_port.State.Steps.{BuffersValid, Sends}
use serial_port.Iac.{handle_iac_command, handle_iac_command_bytes}
use serial_port.Iac.Room.{handle_iac_command-Sends}
use serial_port.Send.Wire.{escape_all, last_of}
use serial_port.Redirect.{esc_redirect_char}
use serial_port.Redirect.Size.{CommandValid, Stored, gauge}
use serial_port.Redirect.Room.{Reaches}
use serial_port.Redirect.Command.{esc_redirect_char-ok}
use serial_port.Redirect.Stream.{redirect-escape_all, Passed}
use serial_port.LoopState.{
  Poll, Events, Main, on, again, exit, state_ready, state_port_opened, read_bytes, would_block,
  count,
}
use serial_port.MainLoop.{
  requested, serial_input, turn, lose_client, network_input, serial_output, accept_connection,
}
use serial_port.MainLoop.Connection.{Synced, turn-Synced}
use serial_port.MainLoop.Sound.{Sound, ReadsFit}
use serial_port.MainLoop.Safety.{turn-Safe}
use serial_port.MainLoop.Faults.{
  network_input-drops_client, blocked_write_puts_back, accept_connection-keeps_command,
}

abbrev pub cfg : Config
cfg = record { sizeof_ulong = 8; signature = 115 ∷ 49 ∷ []; cisco_ios_compatible = false }

-- A port that is its speed, with all modem lines up.
abbrev pub toy_port : Port
toy_port = record {
  Handle = ℕ;
  get_port_speed = λ h. h;
  get_port_data_size = λ h. 8;
  get_port_parity = λ h. 1;
  get_port_stop_size = λ h. 1;
  get_port_flow_control = λ h which. 1;
  get_modem_state = λ h old. 240;
  set_port_speed = λ v h. v;
  set_port_data_size = λ v h. h;
  set_port_parity = λ v h. h;
  set_port_stop_size = λ v h. h;
  set_port_flow_control = λ v h. h;
  set_break = λ b h. h;
  set_flush = λ v h. h;
  open_port = λ h. some h;
  close_port = λ h. h;
}

abbrev pub empty : Buffer
empty = record { cells = replicate 2048 0; rd_pos = 0; wr_pos = 0 }

abbrev full : Buffer
full = record { cells = replicate 2048 7; rd_pos = 0; wr_pos = 2047 }

abbrev pub start : State ℕ
start = record {
  to_net = empty;
  to_dev = empty;
  iac_escape = iac_normal;
  iac_sig_escape = iac_normal;
  iac_command = replicate 255 0;
  iac_pos = 0;
  modem_state_mask = 255;
  line_state_mask = 0;
  modem_state = 0;
  break_signaled = false;
  input_flow = true;
  port_control_enable = true;
  tnstate = λ o. tn_reset;
  write_last = 0;
  redirect_last = 0;
  port = 9600;
}

pub empty-IsValid : Validity.IsValid empty
empty-IsValid = record {
  storage = length-replicate {A = ℕ} 2048 0;
  rd_in = omega arith;
  wr_in = omega arith;
}

full-IsValid : Validity.IsValid full
full-IsValid = record {
  storage = length-replicate {A = ℕ} 2048 7;
  rd_in = omega arith;
  wr_in = omega arith;
}

pub buffers : BuffersValid start
buffers = record { net = empty-IsValid; dev = empty-IsValid }

stored : Stored start.iac_command
stored = record { full = length-replicate {A = ℕ} 255 0; nul = refl }

command : CommandValid start
command = record { stored = stored; progress = λ e. cc }

add_to_buffer_refines_example : map_contents (add_to_buffer 5 full) ≡ enqueue 2047 5 (contents full)
add_to_buffer_refines_example = add_to_buffer_refines 5 full full-IsValid

abbrev three : Buffer
three = record empty { wr_pos = 3 }

three-IsValid : Validity.IsValid three
three-IsValid = record {
  storage = length-replicate {A = ℕ} 2048 0;
  rd_in = omega arith;
  wr_in = omega arith;
}

get_from_buffer_refines_example :
    ((get_from_buffer three).0 ≡ 0) × (contents (get_from_buffer three).1 ≡ 0 ∷ 0 ∷ [])
get_from_buffer_refines_example =
    get_from_buffer_refines three 0 (0 ∷ 0 ∷ []) three-IsValid (unfold buffer_length in refl)

handle_iac_command-Sends_example :
    Sends (handle_iac_command_bytes 8) (handle_iac_command cfg toy_port (replicate 255 0) 3)
handle_iac_command-Sends_example =
    handle_iac_command-Sends cfg toy_port (replicate 255 0) 3 (omega arith) refl

pub room_for_a_byte : buffer_length empty ≡ 0
unfolding buffer_length
room_for_a_byte = refl

esc_redirect_char-ok_example :
    Reaches
      (handle_iac_command_bytes 8)
      (gauge start + 1)
      start
      (esc_redirect_char cfg toy_port 65 start)
esc_redirect_char-ok_example =
    esc_redirect_char-ok cfg toy_port (omega arith) 65 start buffers command (λ e. cc)
      (omega (arith, room_for_a_byte)) (omega (arith, room_for_a_byte))

abbrev data_bytes : List ℕ
data_bytes = 65 ∷ 13 ∷ 255 ∷ 13 ∷ 0 ∷ []

redirect-escape_all_example :
    (t : State ℕ) × (for_each (esc_redirect_char cfg toy_port) (escape_all false 0 data_bytes) start
      ≡ some t)
    × Passed data_bytes (last_of 0 data_bytes) start t
redirect-escape_all_example =
    redirect-escape_all cfg toy_port data_bytes start buffers refl (omega (arith, room_for_a_byte))

abbrev pub no_events : Events
no_events = record {
  device_in = false;
  device_out = false;
  socket_out = false;
  socket_in = false;
  socket_connect = false;
  modem_state = false;
}

-- A client is waiting to be accepted.
abbrev pub knock : Poll
knock = record {
  select_failed = false;
  ready = record no_events { socket_connect = true };
  read_dev = λ n. read_bytes [];
  write_dev = λ bs. would_block;
  write_net = λ bs. count 1;
  read_net = λ n. read_bytes [];
  accept_fails = false;
}

abbrev pub idle : Main ℕ
idle = record {
  st = start;
  device_fd = false;
  in_socket_fd = false;
  out_socket_fd = false;
  l_socket_fd = true;
  notified = state_ready ∷ [];
}

abbrev pub serving : Main ℕ
serving = record idle { device_fd = true; in_socket_fd = true; out_socket_fd = true }

pub reads_nothing : ReadsFit knock
reads_nothing = record { dev = λ n bs e. ground arith; net = λ n bs e. ground arith }

pub start-Sound : Sound start
start-Sound = record { buffers = buffers; command = command }

turn-Safe_example :
    (n : Main ℕ) × ((turn cfg toy_port knock idle ≡ again n)
      ⊎ ((turn cfg toy_port knock idle ≡ exit 0 n) ⊎ (turn cfg toy_port knock idle ≡ exit 1 n)))
    × Sound n.st
turn-Safe_example =
    turn-Safe cfg toy_port refl knock idle reads_nothing refl start-Sound (omega arith)

-- The device hangs up: its descriptor is readable and a read returns nothing.
abbrev hangup : Poll
hangup = record knock { ready = record no_events { device_in = true } }

abbrev opened : Main ℕ
opened = record serving { notified = state_port_opened ∷ [] }

abbrev hung_up : Main ℕ
hung_up = record idle { notified = state_ready ∷ state_port_opened ∷ [] }

hangup_ends : turn cfg toy_port hangup opened ≡ again hung_up
unfolding turn requested serial_input buffer_has_room_for buffer_room_left buffer_length
    is_buffer_empty
hangup_ends = refl

opened-Synced : Synced opened
opened-Synced = record { sockets = refl; device = refl; rest = []; told = refl }

turn-Synced_example : Synced hung_up
turn-Synced_example = turn-Synced cfg toy_port hangup opened opened-Synced hangup_ends

abbrev congested : Main ℕ
congested = record serving { st = record start { to_net = full } }

no_room : buffer_room_left full ≡ 0
unfolding buffer_room_left buffer_length
no_room = refl

network_input-drops_client_example :
    network_input cfg toy_port knock (record no_events { socket_in = true }) congested
    ≡ lose_client cfg toy_port congested
network_input-drops_client_example =
    network_input-drops_client cfg toy_port knock (record no_events { socket_in = true }) congested
      refl refl refl refl (omega (arith, no_room))

blocked_write_puts_back_example :
    (n : Main ℕ) × (serial_output cfg toy_port knock
        (record no_events { device_out = true })
        serving
      ≡ on n)
    × (contents n.st.to_dev ≡ get_or empty.cells 2047 0 ∷ contents empty)
blocked_write_puts_back_example =
    blocked_write_puts_back cfg toy_port knock (record no_events { device_out = true }) serving
      empty-IsValid (omega (arith, room_for_a_byte)) refl refl refl

full-length : buffer_length full ≡ 2047
unfolding buffer_length
full-length = refl

abbrev halfway : Main ℕ
halfway = record idle { st = record start { iac_escape = iac_received } }

halfway-Sound : Sound halfway.st
halfway-Sound = record {
  buffers = record { net = empty-IsValid; dev = empty-IsValid };
  command = record { stored = stored; progress = λ e. cc };
}

accept_connection-keeps_command_example :
    (n : Main ℕ) × (accept_connection cfg toy_port knock
        (record no_events { socket_connect = true })
        halfway
      ≡ on n)
    × (n.st.iac_escape ≡ iac_received)
    × (n.st.iac_command ≡ replicate 255 0)
    × (n.st.iac_pos ≡ 0)
accept_connection-keeps_command_example =
    accept_connection-keeps_command cfg toy_port knock (record no_events { socket_connect = true })
      halfway halfway-Sound refl refl refl
