-- ===== src/Send/Room.antt =====
-- The room that the functions of library/src/main/jni/sercd.c that write to the client need in its
-- buffer.
use serial_port.Prelude.{
  ℕ, ◌+◌, ◌≤◌, ◌≡◌, refl, true, not, ◌&&◌, ◌-◌, Option, leb, ◌>>◌, List, ◌==◌, arith, length,
  length-replicate, skip,
}
use serial_port.Telnet.{
  tnse, tnsb, tniac, tn_transmit_binary, tncom_port_option, tnasc_signature, tnasc_set_baudrate,
}
use serial_port.State.{State, add_net}
use serial_port.State.Steps.{
  Sends, add_net-Sends, Sends-quiet, Sends->>, Sends-le, Sends-if, Sends-ext, Sends-for_each,
}
use serial_port.Send.{
  esc_write_char_bytes, esc_write_prefix, esc_write_char, send_str, send_signature,
  send_telnet_option, mark_sent_will, mark_sent_do, send_telnet_initial_options, send_baud_rate,
  network_bytes, send_cpc_byte_command, send_signature_bytes, send_baud_rate_bytes,
  send_cpc_byte_command_bytes, send_telnet_option_bytes,
}

module _ {P : Type 0} where
  pub skip-Sends : Sends {P = P} 0 skip
  skip-Sends = Sends-quiet (λ s. s) (λ s. (refl, refl))

  pub esc_write_char-Sends : (c : ℕ) → Sends {P = P} esc_write_char_bytes (esc_write_char c)
  unfolding esc_write_char esc_write_prefix
  esc_write_char-Sends c =
      Sends->>
        (Sends-if (λ s. c == tniac) (add_net-Sends c)
          (Sends-if
            (λ s.
              not (c == 10) && (not (s.tnstate tn_transmit_binary).is_will && s.write_last == 13))
            (add_net-Sends 0) (Sends-le skip-Sends (omega arith))))
        (Sends->> (add_net-Sends c)
          (Sends-quiet (λ s. record s { write_last = c }) (λ s. (refl, refl))))

  -- The four bytes that open a COM port subnegotiation, and the two that close it.
  framed-Sends :
      {n : ℕ} (a b c d : ℕ) {f : State P → Option (State P)} (y z : ℕ)
      → Sends n f
      → Sends (6 + n) (do add_net a; add_net b; add_net c; add_net d; f; add_net y; add_net z)
  framed-Sends a b c d y z h =
      Sends-le
        (Sends->> (add_net-Sends a) (
          Sends->> (add_net-Sends b) (
            Sends->> (add_net-Sends c) (
              Sends->> (add_net-Sends d)
                (Sends->> h (Sends->> (add_net-Sends y) (add_net-Sends z)))))))
        (omega arith)

  -- `SendSignature`, for a text that meets its `assert`.
  pub send_signature-Sends :
      (sig : List ℕ) → length sig ≤ 255 → Sends {P = P} send_signature_bytes (send_signature sig)
  unfolding send_signature send_str
  send_signature-Sends sig le =
      Sends-le
        (Sends-ext (λ s. rw (short) refl)
          (framed-Sends tniac tnsb tncom_port_option tnasc_signature tniac tnse
            (Sends-for_each 2 esc_write_char sig esc_write_char-Sends)))
        (omega arith)
    where
      short : leb (length sig) 255 ≡ true
      short = ground arith

  pub send_telnet_option-Sends :
      (command option : ℕ)
      → Sends {P = P} send_telnet_option_bytes (send_telnet_option command option)
  unfolding send_telnet_option
  send_telnet_option-Sends command option =
      Sends->> (add_net-Sends tniac) (Sends->> (add_net-Sends command) (add_net-Sends option))

  pub send_baud_rate-Sends :
      (sizeof_ulong br : ℕ)
      → 4 ≤ sizeof_ulong
      → Sends {P = P} (send_baud_rate_bytes sizeof_ulong) (send_baud_rate sizeof_ulong br)
  unfolding send_baud_rate
  send_baud_rate-Sends sizeof_ulong br le =
      Sends-le
        (framed-Sends tniac tnsb tncom_port_option tnasc_set_baudrate tniac tnse
          (Sends-for_each 2 esc_write_char (network_bytes sizeof_ulong br) esc_write_char-Sends))
        (omega (arith, length-replicate {A = ℕ} (sizeof_ulong - 4) 0))

  pub send_cpc_byte_command-Sends :
      (command parm : ℕ)
      → Sends {P = P} send_cpc_byte_command_bytes (send_cpc_byte_command command parm)
  unfolding send_cpc_byte_command
  send_cpc_byte_command-Sends command parm =
      framed-Sends tniac tnsb tncom_port_option command tniac tnse (esc_write_char-Sends parm)

  marks-Sends :
      (option : ℕ) → Sends {P = P} 0 (mark_sent_will option) × Sends {P = P} 0 (mark_sent_do option)
  marks-Sends option = (Sends-quiet _ (λ s. (refl, refl)), Sends-quiet _ (λ s. (refl, refl)))

  marked-Sends :
      {n : ℕ} (command option : ℕ) {f g : State P → Option (State P)}
      → Sends 0 f
      → Sends n g
      → Sends (3 + (0 + n)) (do send_telnet_option command option; f; g)
  marked-Sends command option hf hg =
      Sends->> (send_telnet_option-Sends command option) (Sends->> hf hg)

  -- The six options of the greeting.
  pub send_telnet_initial_options-Sends : Sends {P = P} 18 send_telnet_initial_options
  unfolding send_telnet_initial_options
  send_telnet_initial_options-Sends = marked-Sends _ _ (marks-Sends 0).0 (
      marked-Sends _ _ (marks-Sends 0).1 (
        marked-Sends _ _ (marks-Sends 1).0 (
          marked-Sends _ _ (marks-Sends 3).0 (
            marked-Sends _ _ (marks-Sends 3).1
              (Sends->> (send_telnet_option-Sends _ _) (marks-Sends 44).1)))))
