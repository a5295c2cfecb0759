-- ===== src/Startup.antt =====
-- The main function of library/src/main/jni/sercd.c around its loop, in the Android build: the variables
-- as they are at first, the listening socket, and the method by which the Java side stops it. The
-- address, the port and the name of the device are given to system calls and are left out.
pub mod First
pub mod Begun
pub mod Run
use serial_port.Prelude.{Bool, true, false, Option, none, some, [], replicate, if◌then◌else◌, not}
use serial_port.Buffer.{Buffer}
use serial_port.State.{State, Port, iac_normal, tn_reset, tmp_str_len}
use serial_port.LoopState.{Main, state_ready, change_state}

-- Which of the system calls in front of the loop fail.
pub record Setup : Type 0 where
  pub socket_fails : Bool
  pub bind_fails : Bool
  pub listen_fails : Bool

-- Either the function returns `Error`, and `lsocket` is open or not, or the loop begins.
pub data Start (P : Type 0) : Type 0 where
  failed : Bool → Start P
  listening : Main P → Start P

module _ {P : Type 0} where
  -- The file-scope variables and static locals; the two buffers are locals of the main function, and
  -- hold what the stack held.
  unfoldable pub initial_state : Buffer → Buffer → P → State P
  initial_state to_net to_dev port = record {
    to_net = to_net;
    to_dev = to_dev;
    iac_escape = iac_normal;
    iac_sig_escape = iac_normal;
    iac_command = replicate tmp_str_len 0;
    iac_pos = 0;
    modem_state_mask = 255;
    line_state_mask = 0;
    modem_state = 0;
    break_signaled = false;
    input_flow = true;
    port_control_enable = true;
    tnstate = λ o. tn_reset;
    write_last = 0;
    redirect_last = 0;
    port = port;
  }

  -- The main function sets no pointer to a descriptor but that of the listening socket; the others are
  -- unset here, as they are in the first call in a process.
  unfoldable pub start_up : Setup → State P → Start P
  start_up setup s =
      if setup.socket_fails
      then failed false
      else if setup.bind_fails
      then failed true
      else if setup.listen_fails
      then failed true
      else listening (
          change_state state_ready (record {
            st = s;
            device_fd = false;
            in_socket_fd = false;
            out_socket_fd = false;
            l_socket_fd = true;
            notified = [];
          }))

module _ (p : Port) where
  open p use {Handle}

  -- `SercdService.exit`: what is open is closed, and the pointers stay set. A listening socket that is not
  -- there is a null pointer that is followed.
  unfoldable pub service_exit : Main Handle → Option (Main Handle)
  service_exit m =
      if not m.l_socket_fd
      then none
      else if m.device_fd
      then some (record m { st = record (m.st) { port = p.close_port m.st.port } })
      else some m
