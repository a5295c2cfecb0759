-- ===== src/Tests/Negotiation.antt =====
-- Negotiations of library/src/main/jni/sercd.c at concrete options.
use serial_port.Prelude.{ℕ, ◌≡◌, refl, ◌++◌, some, arith, for_each, ◌>>◌, replicate}
use serial_port.Telnet.{tndo, tnwill, tn_echo, tn_transmit_binary}
use serial_port.Buffer.Refine.{contents}
use serial_port.State.{State, update, init_telnet_state_machine}
use serial_port.Send.{send_telnet_initial_options}
use serial_port.Iac.{handle_iac_command}
use serial_port.Iac.Negotiates.{Negotiates}
use serial_port.Iac.Negotiation.{message, answer, settled, handle_iac_command-Negotiates}
use serial_port.Iac.Agreement.{
  greeting, agreements, agreed, receive, repeated, greeting-agreed, receive-repeated,
}
use serial_port.Tests.{cfg, toy_port, start, buffers, room_for_a_byte}

handle_iac_command-Negotiates_example :
    Negotiates
      (λ tn. answer tndo tn_echo (tn tn_echo))
      (λ tn. update tn tn_echo (settled tndo tn_echo (tn tn_echo)))
      (handle_iac_command cfg toy_port (message tndo tn_echo) 3)
handle_iac_command-Negotiates_example =
    handle_iac_command-Negotiates cfg toy_port (message tndo tn_echo) 3 (λ e. omega (arith, e))

greeting-agreed_example :
    Negotiates {P = ℕ}
      (λ tn. greeting)
      (λ tn. agreed)
      (do
        λ s. some (init_telnet_state_machine s)
        send_telnet_initial_options
        for_each (receive cfg toy_port) agreements)
greeting-agreed_example = greeting-agreed cfg toy_port

receive-repeated_example :
    (t : State ℕ) × (for_each
        (receive cfg toy_port)
        (replicate 2 (tnwill, tn_transmit_binary))
        start
      ≡ some t)
    × (contents t.to_net ≡ contents start.to_net ++ repeated 2 (message tndo tn_transmit_binary))
receive-repeated_example =
    receive-repeated cfg toy_port 2 tn_transmit_binary start refl refl buffers
      (omega (arith, room_for_a_byte))
