-- ===== src/Tests/Restored.antt =====
-- The serial device of library/src/main/jni/unix.c after a client has come.
use serial_port.Prelude.{◌≡◌, refl, false, some}
use serial_port.State.{State}
use serial_port.LoopState.{Main, again, exit, crash}
use serial_port.MainLoop.{
  turn, requested, serial_input, serial_output, network_output, network_input, accept_connection,
  open_device, notify_modem_state,
}
use serial_port.Buffer.{init_buffer, add_to_buffer, buffer_length}
use serial_port.State.{init_telnet_state_machine, add_net}
use serial_port.Send.{send_telnet_initial_options, send_telnet_option}
use serial_port.Settings.{Device, open_port, unix_port}
use serial_port.Startup.{listening, initial_state, start_up, service_exit}
use serial_port.Startup.Run.{here, round}
use serial_port.Restore.Device.{LeavesMemory, start_up-settings}
use serial_port.Tests.{cfg, knock, idle, empty}
use serial_port.Tests.Platform.{device, willing}
use serial_port.Tests.Rounds.{no_failure}

abbrev fresh : State Device
fresh = initial_state empty empty device

abbrev waiting_device : Main Device
waiting_device = record {
  st = fresh;
  device_fd = idle.device_fd;
  in_socket_fd = idle.in_socket_fd;
  out_socket_fd = idle.out_socket_fd;
  l_socket_fd = idle.l_socket_fd;
  notified = idle.notified;
}

starts_device : start_up no_failure fresh ≡ listening waiting_device
unfolding start_up
starts_device = refl

abbrev served : Main Device
served = elim (turn cfg (unix_port willing) knock waiting_device) [
  | again n ↦ n
  | exit c n ↦ n
  | crash ↦ waiting_device
]

served_lem : turn cfg (unix_port willing) knock waiting_device ≡ again served
unfolding turn initial_state requested serial_input serial_output network_output network_input
    accept_connection send_telnet_initial_options send_telnet_option add_net add_to_buffer
    buffer_length init_telnet_state_machine init_buffer open_device notify_modem_state open_port
served_lem = refl

willing-LeavesMemory : LeavesMemory willing
willing-LeavesMemory = record { break = λ d. refl; flush = λ queue d. refl }

start_up-settings_example :
    (served.device_fd ≡ false → served.st.port.settings ≡ device.settings)
    × ((k : Main Device)
        → service_exit (unix_port willing) served ≡ some k
        → k.st.port.settings ≡ device.settings)
unfolding initial_state
start_up-settings_example =
    start_up-settings cfg willing willing-LeavesMemory no_failure fresh (λ d. refl) starts_device
      (round knock here served_lem)
