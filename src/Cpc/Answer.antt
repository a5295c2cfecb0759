-- ===== src/Cpc/Answer.antt =====
-- `HandleCPCCommand` of library/src/main/jni/sercd.c against the requests of RFC 2217.
use serial_port.Prelude.{
  ℕ, ◌+◌, ◌≤◌, ◌≡◌, refl, ◌∙◌, Bool, true, false, Option, some, List, ◌++◌, arith, length,
  length-take, drop, ◌==◌, if◌then◌else◌, get_or, skip, Bool-cases, inl, inr, [], ◌∷◌, ap, subst,
  replicate, ◌-◌, ◌/◌, ◌%◌, ◌^◌,
}
use serial_port.Telnet.{
  tncas_signature, tncas_set_baudrate, tncas_set_datasize, tncas_set_parity, tncas_set_stopsize,
  tncas_set_control, tncas_flowcontrol_suspend, tncas_flowcontrol_resume, tncas_set_linestate_mask,
  tncas_set_modemstate_mask, tncas_purge_data,
}
use serial_port.Buffer.{buffer_length}
use serial_port.Buffer.Refine.{contents}
use serial_port.State.{State, Port, Config}
use serial_port.State.Steps.{BuffersValid, Registers, registers, with_registers}
use serial_port.Send.{network_bytes, send_signature, send_baud_rate, send_cpc_byte_command}
use serial_port.Send.Wire.{
  escape_all, last_of, Emits, is_binary, send_signature-Emits, send_baud_rate-Emits,
  send_cpc_byte_command-Emits, skip-Emits,
}
use serial_port.Cpc.{
  has_nul, network_long, handle_signature, handle_set_baudrate, handle_setting, set_break_state,
  set_flow_control, handle_set_control, handle_linestate_mask, handle_modemstate_mask,
  handle_purge_data, handle_cpc_command,
}
use serial_port.Cpc.Requests.{
  Request, ask_signature, tell_signature, suspend, resume, unknown, set_baudrate, set_datasize,
  set_parity, set_stopsize, set_control, set_linestate_mask, set_modemstate_mask, purge_data,
  number_of, rate_bytes, suboption, request, Reply, silence, signature, baud_rate, value,
  reply_bytes, reply_last, Fits, after, reply,
}

module _ (cfg : Config) (p : Port) where
  open p use {Handle}

  abbrev send : Reply → State Handle → Option (State Handle)
  send silence = skip
  send (signature sig) = send_signature sig
  send (baud_rate br) = send_baud_rate cfg.sizeof_ulong br
  send (value code v) = send_cpc_byte_command code v

  abbrev respond : Request → State Handle → Option (State Handle)
  respond q s = let r = after cfg p q (registers s) in send (reply cfg p q r) (with_registers r s)

  either :
      {x y : Option (State Handle)} (b : Bool) (q k : Request) (s : State Handle)
      → (b ≡ true → x ≡ respond q s)
      → y ≡ respond k s
      → (if b then x else y) ≡ respond (if b then q else k) s
  either true q k s h h' = h refl
  either false q k s h h' = h'

  module _ (v : ℕ) (s : State Handle) where
    setting_lem :
        (set_it : ℕ → Handle → Handle) (get_it : Handle → ℕ) (code : ℕ)
        → handle_setting set_it get_it code v s ≡ (
            let r : Registers Handle =
              if v == 0 then registers s else record (registers s) { port = set_it v s.port } in
            send_cpc_byte_command code (get_it r.port) (with_registers r s))
    unfolding handle_setting
    setting_lem set_it get_it code = elim (Bool-cases (v == 0)) [
      | inl ask ↦ rw ask refl
      | inr change ↦ rw change refl
    ]

    long_lem :
        (command : List ℕ)
        → network_long command
          ≡ number_of
              (get_or command 4 0
                ∷ get_or command 5 0
                ∷ get_or command 6 0
                ∷ get_or command 7 0
                ∷ [])
              0
    long_lem command = omega arith

    rate_lem :
        (command : List ℕ)
        → handle_set_baudrate cfg p command s ≡ respond (set_baudrate (network_long command)) s
    unfolding handle_set_baudrate
    rate_lem command = elim (Bool-cases (network_long command == 0)) [
      | inl ask ↦ rw ask refl
      | inr change ↦ rw change refl
    ]

    baudrate_lem :
        (command : List ℕ)
        → handle_set_baudrate cfg p command s
          ≡ respond
              (set_baudrate (
                number_of
                  (get_or command 4 0
                    ∷ get_or command 5 0
                    ∷ get_or command 6 0
                    ∷ get_or command 7 0
                    ∷ [])
                  0))
              s
    baudrate_lem command =
        rate_lem command ∙ ap (λ n. respond (set_baudrate n) s) (long_lem command)

    control_lem : handle_set_control cfg p v s ≡ respond (set_control v) s
    unfolding handle_set_control set_break_state set_flow_control
    control_lem = ground arith

  -- Every command but a signature without a NUL.
  handle-respond :
      (command : List ℕ) (csize : ℕ) (s : State Handle)
      → (request command csize ≡ tell_signature → has_nul (drop 4 command) ≡ true)
      → handle_cpc_command cfg p command csize s ≡ respond (request command csize) s
  unfolding handle_cpc_command handle_linestate_mask handle_modemstate_mask handle_purge_data
      handle_signature
  handle-respond command csize s nul =
      either (op == tncas_signature) _ _ s (signature_case (csize == 6) refl) (
        either (op == tncas_set_baudrate) _ _ s (λ _. (baudrate_lem v s command))
          (either (op == tncas_set_datasize) _ _ s (λ _. (setting_lem v s _ _ _))
            (either (op == tncas_set_parity) _ _ s (λ _. (setting_lem v s _ _ _))
              (either (op == tncas_set_stopsize) _ _ s (λ _. (setting_lem v s _ _ _))
                (either (op == tncas_set_control) _ _ s (λ _. (control_lem v s))
                  (either (op == tncas_set_linestate_mask) _ _ s (λ _. refl)
                    (either (op == tncas_set_modemstate_mask) _ _ s (λ _. refl)
                      (either (op == tncas_purge_data) _ _ s (λ _. refl)
                        (either (op == tncas_flowcontrol_suspend) _ _ s (λ _. refl)
                          (either (op == tncas_flowcontrol_resume) _ _ s (λ _. refl) refl))))))))))
    where
      op : ℕ
      op = get_or command 3 0

      v : ℕ
      v = get_or command 4 0

      signature_case :
          (own : Bool)
          → (csize == 6) ≡ own
          → (op == tncas_signature) ≡ true
          → handle_signature cfg p command csize s
            ≡ respond (if csize == 6 then ask_signature else tell_signature) s
      signature_case true e h = rw e refl
      signature_case false e h = rw (e, nul (rw (h, e) refl)) refl

  rate_bytes_lem : (size br : ℕ) → network_bytes size br ≡ rate_bytes size br
  rate_bytes_lem size br =
      let high : (br / 2 ^ 24 % 256) ≡ (br / 256 / 256 / 256 % 256) = omega arith in
      let second : (br / 2 ^ 16 % 256) ≡ (br / 256 / 256 % 256) = omega arith in
      let third : (br / 2 ^ 8 % 256) ≡ (br / 256 % 256) = omega arith in
      λ i. high i ∷ second i ∷ third i ∷ (br % 256) ∷ replicate (size - 4) 0

  send-Emits :
      (y : Reply)
      → Fits y
      → Emits (reply_bytes cfg.sizeof_ulong y) (reply_last cfg.sizeof_ulong y) (send y)
  send-Emits silence fit = skip-Emits
  send-Emits (signature sig) fit = send_signature-Emits sig fit
  send-Emits (baud_rate br) fit =
      subst
        (λ bs.
          Emits {P = Handle} (λ b l. suboption 101 (escape_all b l bs)) (λ l. last_of l bs)
            (send_baud_rate cfg.sizeof_ulong br))
        (rate_bytes_lem cfg.sizeof_ulong br) (send_baud_rate-Emits cfg.sizeof_ulong br)
  send-Emits (value code v) fit = send_cpc_byte_command-Emits code v

  reply-Fits : (q : Request) (r : Registers Handle) → Fits (reply cfg p q r)
  reply-Fits ask_signature r = omega (arith, length-take 254 cfg.signature)
  reply-Fits tell_signature r = tt
  reply-Fits suspend r = tt
  reply-Fits resume r = tt
  reply-Fits unknown r = tt
  reply-Fits (set_baudrate n) r = tt
  reply-Fits (set_datasize n) r = tt
  reply-Fits (set_parity n) r = tt
  reply-Fits (set_stopsize n) r = tt
  reply-Fits (set_control n) r = tt
  reply-Fits (set_linestate_mask n) r = tt
  reply-Fits (set_modemstate_mask n) r = tt
  reply-Fits (purge_data n) r = tt

  -- `HandleCPCCommand` does what the request asks for: on any command but a signature without a NUL,
  -- of 6 to 261 bytes, so that the copy of a signature stays inside of `SigStr`, with valid buffers
  -- and room for the answer, it does not fault, changes the port, the two masks, the break state and
  -- the input flow as `after` says, puts exactly the bytes of the answer that `reply` gives for the
  -- changed state into the client's buffer, and leaves the device's buffer and the options as they are
  -- and the buffers valid.
  pub handle_cpc_command-reply :
      (command : List ℕ) (csize : ℕ) (s : State Handle)
      → 6 ≤ csize
      → csize ≤ 261
      → (request command csize ≡ tell_signature → has_nul (drop 4 command) ≡ true)
      → BuffersValid s
      → let r = after cfg p (request command csize) (registers s) in
        let bytes =
          reply_bytes cfg.sizeof_ulong
            (reply cfg p (request command csize) r)
            (is_binary s)
            s.write_last in
        buffer_length s.to_net + length bytes ≤ 2047
        → (t : State Handle) × (handle_cpc_command cfg p command csize s ≡ some t)
          × (registers t ≡ r)
          × (contents t.to_net ≡ contents s.to_net ++ bytes)
          × (t.to_dev ≡ s.to_dev)
          × (t.tnstate ≡ s.tnstate)
          × BuffersValid t
  handle_cpc_command-reply command csize s _ _ nul v room =
      let q = request command csize in
      let r = after cfg p q (registers s) in
      let (t, e, a) =
        (send-Emits (reply cfg p q r) (reply-Fits q r)).run (with_registers r s)
          (record { net = v.net; dev = v.dev }) room in
      (
        t,
        handle-respond command csize s nul ∙ e,
        a.registers_kept,
        a.appended,
        a.dev_kept,
        a.options_kept,
        a.valid,
      )
