-- ===== src/Cpc/Room.antt =====
-- The room that the COM port control commands of library/src/main/jni/sercd.c need in the client's
-- buffer, against `HandleCPCCommand_bytes`.
use serial_port.Prelude.{
  ℕ, ◌≤◌, ◌≡◌, refl, Bool, true, Option, List, arith, take, drop, ◌==◌, get_or, length-take,
  bit_and,
}
use serial_port.Telnet.{
  tncas_signature, tncas_set_baudrate, tncas_set_datasize, tncas_set_parity, tncas_set_stopsize,
  tncas_set_control, tncas_flowcontrol_suspend, tncas_flowcontrol_resume, tncas_set_linestate_mask,
  tncas_set_modemstate_mask, tncas_purge_data, tncom_cmd_break_req, tncom_cmd_break_on,
  tncom_cmd_break_off,
}
use serial_port.State.{State, Port, Config}
use serial_port.State.Steps.{Sends, Sends-quiet, Sends->>, Sends-le, Sends-if, Sends-at, Sends-ext}
use serial_port.Send.{
  max_of, send_signature_bytes, send_cpc_byte_command, send_baud_rate_bytes,
  send_cpc_byte_command_bytes,
}
use serial_port.Send.Room.{
  skip-Sends, send_signature-Sends, send_baud_rate-Sends, send_cpc_byte_command-Sends,
}
use serial_port.Cpc.{
  handle_cpc_command_bytes, has_nul, flow_confirmation, network_long, is_flow_request, with_port,
  handle_signature, handle_set_baudrate, handle_setting, set_break_state, set_flow_control,
  handle_set_control, handle_linestate_mask, handle_modemstate_mask, handle_purge_data,
  set_input_flow, handle_cpc_command,
}

pub max_of_left : (x y : ℕ) → x ≤ max_of x y
max_of_left x y = ground arith

pub max_of_right : (x y : ℕ) → y ≤ max_of x y
max_of_right x y = ground arith

module _ {P : Type 0} where
  with_port-Sends : (f : P → P) → Sends 0 (with_port f)
  with_port-Sends f = Sends-quiet (λ s. record s { port = f s.port }) (λ s. (refl, refl))

  cpc-Sends :
      (command : ℕ) (get : State P → ℕ)
      → Sends send_cpc_byte_command_bytes (λ s. send_cpc_byte_command command (get s) s)
  cpc-Sends command get = Sends-at get (send_cpc_byte_command-Sends command)

  handle_setting-Sends :
      (set_it : ℕ → P → P) (get_it : P → ℕ) (reply v : ℕ)
      → Sends send_cpc_byte_command_bytes (handle_setting set_it get_it reply v)
  unfolding handle_setting
  handle_setting-Sends set_it get_it reply v =
      Sends->> (Sends-if (λ s. v == 0) skip-Sends (with_port-Sends (set_it v)))
        (cpc-Sends reply (λ s. get_it s.port))

  masks-Sends :
      (v : ℕ)
      → Sends {P = P} send_cpc_byte_command_bytes (handle_linestate_mask v)
        × Sends {P = P} send_cpc_byte_command_bytes (handle_modemstate_mask v)
  unfolding handle_linestate_mask handle_modemstate_mask
  masks-Sends v = (
    Sends->> (Sends-quiet (λ s. record s { line_state_mask = bit_and v 16 }) (λ s. (refl, refl)))
        (send_cpc_byte_command-Sends _ _),
    Sends->> (Sends-quiet (λ s. record s { modem_state_mask = v }) (λ s. (refl, refl)))
        (send_cpc_byte_command-Sends _ _),
  )

  set_input_flow-Sends : (on : Bool) → Sends {P = P} 0 (set_input_flow on)
  set_input_flow-Sends on = Sends-quiet (λ s. record s { input_flow = on }) (λ s. (refl, refl))

module _ (cfg : Config) (p : Port) where
  open p use {Handle}

  handle_set_baudrate-Sends :
      (command : List ℕ)
      → 4 ≤ cfg.sizeof_ulong
      → Sends (send_baud_rate_bytes cfg.sizeof_ulong) (handle_set_baudrate cfg p command)
  unfolding handle_set_baudrate
  handle_set_baudrate-Sends command le =
      Sends-le
        (Sends->>
          (Sends-if (λ s. network_long command == 0) skip-Sends
            (with_port-Sends (p.set_port_speed (network_long command))))
          (Sends-at (λ s. p.get_port_speed s.port)
            (λ br. send_baud_rate-Sends cfg.sizeof_ulong br le)))
        (omega arith)

  handle_signature-Sends :
      (command : List ℕ) (csize : ℕ)
      → has_nul (drop 4 command) ≡ true
      → Sends send_signature_bytes (handle_signature cfg p command csize)
  unfolding handle_signature
  handle_signature-Sends command csize nul =
      Sends-if (λ s. csize == 6)
        (send_signature-Sends (take 254 cfg.signature)
          (omega (arith, length-take 254 cfg.signature)))
        (Sends-ext (λ s. rw nul) (Sends-le skip-Sends (omega arith)))

  set_break_state-Sends :
      (on : Bool) (reply : ℕ) → Sends send_cpc_byte_command_bytes (set_break_state cfg p on reply)
  unfolding set_break_state
  set_break_state-Sends on reply = Sends->> (with_port-Sends (p.set_break on)) (
      Sends->> (Sends-quiet (λ s. record s { break_signaled = on }) (λ s. (refl, refl)))
        (send_cpc_byte_command-Sends _ reply))

  set_flow_control-Sends : (v : ℕ) → Sends send_cpc_byte_command_bytes (set_flow_control cfg p v)
  unfolding set_flow_control
  set_flow_control-Sends v =
      Sends->> (with_port-Sends (p.set_port_flow_control v))
        (cpc-Sends _ (λ s. flow_confirmation cfg p v s.port))

  handle_set_control-Sends :
      (v : ℕ) → Sends send_cpc_byte_command_bytes (handle_set_control cfg p v)
  unfolding handle_set_control
  handle_set_control-Sends v =
      Sends-if (λ s. is_flow_request v) (cpc-Sends _ (λ s. p.get_port_flow_control s.port v))
        (Sends-if (λ s. v == tncom_cmd_break_req)
          (Sends-if (λ s. s.break_signaled) (send_cpc_byte_command-Sends _ _)
            (send_cpc_byte_command-Sends _ _))
          (Sends-if (λ s. v == tncom_cmd_break_on) (set_break_state-Sends _ _)
            (Sends-if (λ s. v == tncom_cmd_break_off) (set_break_state-Sends _ _)
              (set_flow_control-Sends v))))

  handle_purge_data-Sends : (v : ℕ) → Sends send_cpc_byte_command_bytes (handle_purge_data cfg p v)
  unfolding handle_purge_data
  handle_purge_data-Sends v =
      Sends->> (with_port-Sends (p.set_flush v)) (send_cpc_byte_command-Sends _ v)

  -- `HandleCPCCommand` passes every `assert` in the room of `HandleCPCCommand_bytes`, if a received
  -- signature has a NUL to stop at.
  pub handle_cpc_command-Sends :
      (command : List ℕ) (csize : ℕ)
      → 4 ≤ cfg.sizeof_ulong
      → has_nul (drop 4 command) ≡ true
      → Sends (handle_cpc_command_bytes cfg.sizeof_ulong) (handle_cpc_command cfg p command csize)
  unfolding handle_cpc_command
  handle_cpc_command-Sends command csize le nul =
      Sends-if (λ s. op == tncas_signature)
        (Sends-le (handle_signature-Sends command csize nul) sig)
        (Sends-if (λ s. op == tncas_set_baudrate)
          (Sends-le (handle_set_baudrate-Sends command le) baud)
          (Sends-if (λ s. op == tncas_set_datasize) (small (handle_setting-Sends _ _ _ v))
            (Sends-if (λ s. op == tncas_set_parity) (small (handle_setting-Sends _ _ _ v))
              (Sends-if (λ s. op == tncas_set_stopsize) (small (handle_setting-Sends _ _ _ v))
                (Sends-if (λ s. op == tncas_set_control) (small (handle_set_control-Sends v))
                  (Sends-if (λ s. op == tncas_set_linestate_mask) (small (masks-Sends v).0)
                    (Sends-if (λ s. op == tncas_set_modemstate_mask) (small (masks-Sends v).1)
                      (Sends-if (λ s. op == tncas_purge_data) (small (handle_purge_data-Sends v))
                        (Sends-if (λ s. op == tncas_flowcontrol_suspend)
                          (quiet (set_input_flow-Sends _))
                          (Sends-if (λ s. op == tncas_flowcontrol_resume)
                            (quiet (set_input_flow-Sends _)) (quiet skip-Sends)))))))))))
    where
      op : ℕ
      op = get_or command 3 0

      v : ℕ
      v = get_or command 4 0

      top : ℕ
      top = handle_cpc_command_bytes cfg.sizeof_ulong

      sig : send_signature_bytes ≤ top
      sig = omega (arith, max_of_left)

      baud : send_baud_rate_bytes cfg.sizeof_ulong ≤ top
      baud = omega (arith, max_of_left, max_of_right)

      small :
          {f : State Handle → Option (State Handle)}
          → Sends send_cpc_byte_command_bytes f
          → Sends top f
      small h = Sends-le h (omega (arith, max_of_left, max_of_right))

      quiet : {f : State Handle → Option (State Handle)} → Sends 0 f → Sends top f
      quiet h = Sends-le h (omega arith)
