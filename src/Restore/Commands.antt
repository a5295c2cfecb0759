-- ===== src/Restore/Commands.antt =====
-- The sending side and the command handlers of library/src/main/jni/sercd.c keep what the requests to the
-- port keep.
use serial_port.Prelude.{
  ℕ, ◌≡◌, refl, Bool, true, false, ◌&&◌, ◌||◌, not, Option, some, List, leb, length, drop, ◌==◌,
  if◌then◌else◌, get_or, bit_and, ◌>>◌,
}
use serial_port.Telnet.{
  tniac, tnsb, tnse, tnwill, tndo, tndont, tnwont, tncom_port_option, tn_transmit_binary,
  tncas_signature, tncas_set_baudrate, tncas_set_datasize, tncas_set_parity, tncas_set_stopsize,
  tncas_set_control, tncas_flowcontrol_suspend, tncas_flowcontrol_resume, tncas_set_linestate_mask,
  tncas_set_modemstate_mask, tncas_purge_data, tncom_cmd_break_req, tncom_cmd_break_on,
  tncom_cmd_break_off,
}
use serial_port.State.{State, TnState, Port, Config}
use serial_port.Send.{
  esc_write_prefix, esc_write_char, network_bytes, send_str, send_signature, send_telnet_option,
  send_telnet_initial_options, send_baud_rate, send_cpc_byte_command,
}
use serial_port.Cpc.{
  has_nul, network_long, is_flow_request, flow_confirmation, with_port, handle_signature,
  handle_set_baudrate, handle_setting, set_break_state, set_flow_control, handle_set_control,
  handle_linestate_mask, handle_modemstate_mask, handle_purge_data, set_input_flow,
  handle_cpc_command,
}
use serial_port.Iac.{
  is_plain_option, handle_will, handle_do, handle_dont, handle_wont, handle_iac_command,
  handle_suboption, modify_tnstate, enable_port_control, accept_will, refuse_will, accept_do,
  refuse_do, set_is_do, set_is_will, settle_do, settle_will,
}
use serial_port.Restore.{
  Stable, Keeps, Keeps-change, Keeps-quiet, Keeps-none, Keeps->>, Keeps-if, Keeps-at,
  Keeps-for_each, skip-Keeps, add_net-Keeps,
}

module _ {P : Type 0} {I : P → Type 0} where
  pub esc_write_char-Keeps : (c : ℕ) → Keeps I (esc_write_char c)
  unfolding esc_write_char esc_write_prefix
  esc_write_char-Keeps c =
      Keeps->>
        (Keeps-if (λ s. c == tniac) (add_net-Keeps c)
          (Keeps-if
            (λ s.
              not (c == 10) && (not (s.tnstate tn_transmit_binary).is_will && s.write_last == 13))
            (add_net-Keeps 0) skip-Keeps))
        (Keeps->> (add_net-Keeps c) (Keeps-quiet (λ s. record s { write_last = c }) (λ s. refl)))

  framed-Keeps :
      {f : State P → Option (State P)} (a b c d y z : ℕ)
      → Keeps I f
      → Keeps I (do
        serial_port.State.add_net a
        serial_port.State.add_net b
        serial_port.State.add_net c
        serial_port.State.add_net d
        f
        serial_port.State.add_net y
        serial_port.State.add_net z)
  framed-Keeps a b c d y z h = Keeps->> (add_net-Keeps a) (
      Keeps->> (add_net-Keeps b) (
        Keeps->> (add_net-Keeps c)
          (Keeps->> (add_net-Keeps d) (Keeps->> h (Keeps->> (add_net-Keeps y) (add_net-Keeps z))))))

  pub send_cpc_byte_command-Keeps :
      (command parm : ℕ) → Keeps I (send_cpc_byte_command command parm)
  unfolding send_cpc_byte_command
  send_cpc_byte_command-Keeps command parm =
      framed-Keeps tniac tnsb tncom_port_option command tniac tnse (esc_write_char-Keeps parm)

  send_baud_rate-Keeps : (size br : ℕ) → Keeps I (send_baud_rate size br)
  unfolding send_baud_rate
  send_baud_rate-Keeps size br =
      framed-Keeps _ _ _ _ _ _ (Keeps-for_each esc_write_char-Keeps (network_bytes size br))

  send_signature-Keeps : (sig : List ℕ) → Keeps I (send_signature sig)
  unfolding send_signature send_str
  send_signature-Keeps sig =
      Keeps-if (λ s. leb (length sig) 255)
        (framed-Keeps _ _ _ _ _ _ (Keeps-for_each esc_write_char-Keeps sig)) Keeps-none

  option-Keeps : (command option : ℕ) → Keeps I (send_telnet_option command option)
  unfolding send_telnet_option
  option-Keeps command option =
      Keeps->> (add_net-Keeps tniac) (Keeps->> (add_net-Keeps command) (add_net-Keeps option))

  offer-Keeps :
      (command option : ℕ) (mark : State P → State P) {f : State P → Option (State P)}
      → ((s : State P) → (mark s).port ≡ s.port)
      → Keeps I f
      → Keeps I (do send_telnet_option command option; λ s. some (mark s); f)
  offer-Keeps command option mark same h =
      Keeps->> (option-Keeps command option) (Keeps->> (Keeps-quiet mark same) h)

  pub send_telnet_initial_options-Keeps : Keeps I send_telnet_initial_options
  unfolding send_telnet_initial_options
  send_telnet_initial_options-Keeps =
      offer-Keeps _ _ _ (λ s. refl)
        (offer-Keeps _ _ _ (λ s. refl)
          (offer-Keeps _ _ _ (λ s. refl)
            (offer-Keeps _ _ _ (λ s. refl)
              (offer-Keeps _ _ _ (λ s. refl)
                (Keeps->> (option-Keeps _ _) (Keeps-quiet _ (λ s. refl)))))))

  -- The negotiation does not touch the port.
  modify-Keeps : (f : TnState → TnState) (option : ℕ) → Keeps I (modify_tnstate f option)
  modify-Keeps f option = Keeps-quiet _ (λ s. refl)

  accept-Keeps :
      (sent : TnState → Bool) (reply option : ℕ) (set_it : TnState → TnState)
      → Keeps I (do
        λ s. if sent (s.tnstate option) then some s else send_telnet_option reply option s
        modify_tnstate set_it option)
  accept-Keeps sent reply option set_it =
      Keeps->> (Keeps-if (λ s. sent (s.tnstate option)) skip-Keeps (option-Keeps reply option))
        (modify-Keeps set_it option)

  refuse-Keeps :
      (reply option : ℕ) (set_it : TnState → TnState)
      → Keeps I (do send_telnet_option reply option; modify_tnstate set_it option)
  refuse-Keeps reply option set_it =
      Keeps->> (option-Keeps reply option) (modify-Keeps set_it option)

  enable-Keeps : Keeps I enable_port_control
  enable-Keeps = Keeps-quiet _ (λ s. refl)

  accept_will-Keeps : (option : ℕ) → Keeps I (accept_will option)
  unfolding accept_will
  accept_will-Keeps option = accept-Keeps (λ t. t.sent_do) tndo option (set_is_do true)

  refuse_will-Keeps : (option : ℕ) → Keeps I (refuse_will option)
  unfolding refuse_will
  refuse_will-Keeps option = refuse-Keeps tndont option (set_is_do false)

  accept_do-Keeps : (option : ℕ) → Keeps I (accept_do option)
  unfolding accept_do
  accept_do-Keeps option = accept-Keeps (λ t. t.sent_will) tnwill option (set_is_will true)

  refuse_do-Keeps : (option : ℕ) → Keeps I (refuse_do option)
  unfolding refuse_do
  refuse_do-Keeps option = refuse-Keeps tnwont option (set_is_will false)

  handle_will-Keeps : (option : ℕ) → Keeps I (handle_will option)
  unfolding handle_will
  handle_will-Keeps option =
      Keeps->>
        (Keeps-if (λ s. option == tncom_port_option)
          (Keeps->> enable-Keeps (accept_will-Keeps option))
          (Keeps-if (λ s. is_plain_option option) (accept_will-Keeps option)
            (refuse_will-Keeps option)))
        (modify-Keeps settle_do option)

  handle_do-Keeps : (option : ℕ) → Keeps I (handle_do option)
  unfolding handle_do
  handle_do-Keeps option =
      Keeps->>
        (Keeps-if (λ s. option == tncom_port_option)
          (Keeps->> enable-Keeps (accept_do-Keeps option))
          (Keeps-if (λ s. is_plain_option option) (accept_do-Keeps option)
            (refuse_do-Keeps option)))
        (modify-Keeps settle_will option)

  handle_dont-Keeps : (option : ℕ) → Keeps I (handle_dont option)
  unfolding handle_dont
  handle_dont-Keeps option =
      Keeps->>
        (Keeps-if (λ s. (s.tnstate option).is_will) (refuse-Keeps tnwont option (set_is_will false))
          skip-Keeps)
        (modify-Keeps settle_will option)

  handle_wont-Keeps : (option : ℕ) → Keeps I (handle_wont option)
  unfolding handle_wont
  handle_wont-Keeps option =
      Keeps->>
        (Keeps-if (λ s. (s.tnstate option).is_do) (refuse-Keeps tndont option (set_is_do false))
          skip-Keeps)
        (modify-Keeps settle_do option)

module _ {p : Port} {I : p.Handle → Type 0} (stable : Stable p I) (cfg : Config) where
  open p use {Handle}

  with_port-Keeps : (f : Handle → Handle) → ((h : Handle) → I h → I (f h)) → Keeps I (with_port f)
  with_port-Keeps f h = Keeps-change (λ s. record s { port = f s.port }) (λ s v. h s.port v)

  cpc-Keeps :
      (command : ℕ) (get : State Handle → ℕ)
      → Keeps I (λ s. send_cpc_byte_command command (get s) s)
  cpc-Keeps command get = Keeps-at get (send_cpc_byte_command-Keeps command)

  handle_setting-Keeps :
      (set_it : ℕ → Handle → Handle) (get_it : Handle → ℕ) (code v : ℕ)
      → ((n : ℕ) (h : Handle) → I h → I (set_it n h))
      → Keeps I (handle_setting set_it get_it code v)
  unfolding handle_setting
  handle_setting-Keeps set_it get_it code v h =
      Keeps->> (Keeps-if (λ s. v == 0) skip-Keeps (with_port-Keeps (set_it v) (h v)))
        (cpc-Keeps code (λ s. get_it s.port))

  handle_set_baudrate-Keeps : (command : List ℕ) → Keeps I (handle_set_baudrate cfg p command)
  unfolding handle_set_baudrate
  handle_set_baudrate-Keeps command =
      Keeps->>
        (Keeps-if (λ s. network_long command == 0) skip-Keeps
          (with_port-Keeps _ (stable.speed (network_long command))))
        (Keeps-at (λ s. p.get_port_speed s.port) (send_baud_rate-Keeps cfg.sizeof_ulong))

  handle_signature-Keeps :
      (command : List ℕ) (csize : ℕ) → Keeps I (handle_signature cfg p command csize)
  unfolding handle_signature
  handle_signature-Keeps command csize =
      Keeps-if (λ s. csize == 6) (send_signature-Keeps _)
        (Keeps-if (λ s. has_nul (drop 4 command)) skip-Keeps Keeps-none)

  set_break_state-Keeps : (on : Bool) (code : ℕ) → Keeps I (set_break_state cfg p on code)
  unfolding set_break_state
  set_break_state-Keeps on code = Keeps->> (with_port-Keeps _ (stable.break on)) (
      Keeps->> (Keeps-quiet (λ s. record s { break_signaled = on }) (λ s. refl))
        (send_cpc_byte_command-Keeps _ code))

  set_flow_control-Keeps : (v : ℕ) → Keeps I (set_flow_control cfg p v)
  unfolding set_flow_control
  set_flow_control-Keeps v =
      Keeps->> (with_port-Keeps _ (stable.flow_control v))
        (cpc-Keeps _ (λ s. flow_confirmation cfg p v s.port))

  handle_set_control-Keeps : (v : ℕ) → Keeps I (handle_set_control cfg p v)
  unfolding handle_set_control
  handle_set_control-Keeps v =
      Keeps-if (λ s. is_flow_request v) (cpc-Keeps _ (λ s. p.get_port_flow_control s.port v))
        (Keeps-if (λ s. v == tncom_cmd_break_req)
          (Keeps-if (λ s. s.break_signaled) (send_cpc_byte_command-Keeps _ _)
            (send_cpc_byte_command-Keeps _ _))
          (Keeps-if (λ s. v == tncom_cmd_break_on) (set_break_state-Keeps _ _)
            (Keeps-if (λ s. v == tncom_cmd_break_off) (set_break_state-Keeps _ _)
              (set_flow_control-Keeps v))))

  masks-Keeps : (v : ℕ) → Keeps I (handle_linestate_mask v) × Keeps I (handle_modemstate_mask v)
  unfolding handle_linestate_mask handle_modemstate_mask
  masks-Keeps v = (
    Keeps->> (Keeps-quiet (λ s. record s { line_state_mask = bit_and v 16 }) (λ s. refl))
        (send_cpc_byte_command-Keeps _ _),
    Keeps->> (Keeps-quiet (λ s. record s { modem_state_mask = v }) (λ s. refl))
        (send_cpc_byte_command-Keeps _ _),
  )

  handle_purge_data-Keeps : (v : ℕ) → Keeps I (handle_purge_data cfg p v)
  unfolding handle_purge_data
  handle_purge_data-Keeps v =
      Keeps->> (with_port-Keeps _ (stable.flush v)) (send_cpc_byte_command-Keeps _ v)

  set_input_flow-Keeps : (on : Bool) → Keeps I (set_input_flow on)
  set_input_flow-Keeps on = Keeps-quiet (λ s. record s { input_flow = on }) (λ s. refl)

  handle_cpc_command-Keeps :
      (command : List ℕ) (csize : ℕ) → Keeps I (handle_cpc_command cfg p command csize)
  unfolding handle_cpc_command
  handle_cpc_command-Keeps command csize =
      Keeps-if (λ s. op == tncas_signature) (handle_signature-Keeps command csize)
        (Keeps-if (λ s. op == tncas_set_baudrate) (handle_set_baudrate-Keeps command)
          (Keeps-if (λ s. op == tncas_set_datasize) (handle_setting-Keeps _ _ _ v stable.data_size)
            (Keeps-if (λ s. op == tncas_set_parity) (handle_setting-Keeps _ _ _ v stable.parity)
              (Keeps-if (λ s. op == tncas_set_stopsize)
                (handle_setting-Keeps _ _ _ v stable.stop_size)
                (Keeps-if (λ s. op == tncas_set_control) (handle_set_control-Keeps v)
                  (Keeps-if (λ s. op == tncas_set_linestate_mask) (masks-Keeps v).0
                    (Keeps-if (λ s. op == tncas_set_modemstate_mask) (masks-Keeps v).1
                      (Keeps-if (λ s. op == tncas_purge_data) (handle_purge_data-Keeps v)
                        (Keeps-if (λ s. op == tncas_flowcontrol_suspend)
                          (set_input_flow-Keeps false)
                          (Keeps-if (λ s. op == tncas_flowcontrol_resume)
                            (set_input_flow-Keeps true) skip-Keeps))))))))))
    where
      op : ℕ
      op = get_or command 3 0

      v : ℕ
      v = get_or command 4 0

  pub handle_iac_command-Keeps :
      (command : List ℕ) (csize : ℕ) → Keeps I (handle_iac_command cfg p command csize)
  unfolding handle_iac_command handle_suboption
  handle_iac_command-Keeps command csize =
      Keeps-if (λ s. verb == tnsb)
        (Keeps-if
          (λ s. (s.tnstate (get_or command 2 0)).is_will || (s.tnstate (get_or command 2 0)).is_do)
          (Keeps-if (λ s. option == tncom_port_option) (handle_cpc_command-Keeps command csize)
            skip-Keeps)
          skip-Keeps)
        (Keeps-if (λ s. verb == tnwill) (handle_will-Keeps option)
          (Keeps-if (λ s. verb == tndo) (handle_do-Keeps option)
            (Keeps-if (λ s. verb == tndont) (handle_dont-Keeps option)
              (Keeps-if (λ s. verb == tnwont) (handle_wont-Keeps option) skip-Keeps))))
    where
      verb : ℕ
      verb = get_or command 1 0

      option : ℕ
      option = get_or command 2 0
