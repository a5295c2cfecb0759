-- ===== src/Iac/Room.antt =====
-- The room that a Telnet command needs in the client's buffer, against `HandleIACCommand_bytes` of
-- library/src/main/jni/sercd.c.
use serial_port.Prelude.{
  ℕ, ◌≤◌, ◌≡◌, refl, ◌||◌, true, false, Option, some, List, arith, drop, ◌==◌, if◌then◌else◌,
  get_or, ◌>>◌,
}
use serial_port.Telnet.{tnsb, tnwill, tnwont, tndo, tndont, tncom_port_option}
use serial_port.State.{State, TnState, Port, Config, set_tnstate}
use serial_port.State.Steps.{Sends, Sends-quiet, Sends->>, Sends-le, Sends-if}
use serial_port.Send.{send_telnet_option_bytes}
use serial_port.Send.Room.{skip-Sends, send_telnet_option-Sends}
use serial_port.Cpc.{has_nul, handle_cpc_command_bytes}
use serial_port.Cpc.Room.{handle_cpc_command-Sends, max_of_left, max_of_right}
use serial_port.Iac.{
  handle_iac_command_bytes, is_plain_option, set_is_do, set_is_will, settle_do, settle_will,
  modify_tnstate, enable_port_control, accept_will, refuse_will, handle_will, accept_do, refuse_do,
  handle_do, handle_dont, handle_wont, handle_suboption, handle_iac_command,
}

module _ {P : Type 0} where
  modify_tnstate-Sends :
      (f : TnState → TnState) (option : ℕ) → Sends {P = P} 0 (modify_tnstate f option)
  modify_tnstate-Sends f option =
      Sends-quiet (λ s. set_tnstate option (f (s.tnstate option)) s) (λ s. (refl, refl))

  enable_port_control-Sends : Sends {P = P} 0 enable_port_control
  enable_port_control-Sends =
      Sends-quiet (λ s. record s { port_control_enable = true }) (λ s. (refl, refl))

  -- An option that is answered at most once, then a change of its entry.
  answered-Sends :
      {f : State P → Option (State P)} (g : TnState → TnState) (option : ℕ)
      → Sends send_telnet_option_bytes f
      → Sends send_telnet_option_bytes (f >> modify_tnstate g option)
  answered-Sends g option h = Sends->> h (modify_tnstate-Sends g option)

  will-Sends :
      (option : ℕ)
      → Sends {P = P} send_telnet_option_bytes (accept_will option)
        × Sends {P = P} send_telnet_option_bytes (refuse_will option)
  unfolding accept_will refuse_will
  will-Sends option = (
    answered-Sends (set_is_do true) option (
        Sends-if (λ s. (s.tnstate option).sent_do) (Sends-le skip-Sends (omega arith))
          (send_telnet_option-Sends _ option)),
    answered-Sends (set_is_do false) option (send_telnet_option-Sends _ option),
  )

  do-Sends :
      (option : ℕ)
      → Sends {P = P} send_telnet_option_bytes (accept_do option)
        × Sends {P = P} send_telnet_option_bytes (refuse_do option)
  unfolding accept_do refuse_do
  do-Sends option = (
    answered-Sends (set_is_will true) option (
        Sends-if (λ s. (s.tnstate option).sent_will) (Sends-le skip-Sends (omega arith))
          (send_telnet_option-Sends _ option)),
    answered-Sends (set_is_will false) option (send_telnet_option-Sends _ option),
  )

  -- The three ways of WILL and DO.
  chosen-Sends :
      (option : ℕ) {f g : State P → Option (State P)}
      → Sends send_telnet_option_bytes f
      → Sends send_telnet_option_bytes g
      → Sends send_telnet_option_bytes (λ s.
        if option == tncom_port_option
        then (enable_port_control >> f) s
        else if is_plain_option option
        then f s
        else g s)
  chosen-Sends option hf hg =
      Sends-if (λ s. option == tncom_port_option)
        (Sends-le (Sends->> enable_port_control-Sends hf) (omega arith))
        (Sends-if (λ s. is_plain_option option) hf hg)

  handle_will-Sends : (option : ℕ) → Sends {P = P} send_telnet_option_bytes (handle_will option)
  unfolding handle_will
  handle_will-Sends option =
      answered-Sends settle_do option
        (chosen-Sends option (will-Sends option).0 (will-Sends option).1)

  handle_do-Sends : (option : ℕ) → Sends {P = P} send_telnet_option_bytes (handle_do option)
  unfolding handle_do
  handle_do-Sends option =
      answered-Sends settle_will option
        (chosen-Sends option (do-Sends option).0 (do-Sends option).1)

  handle_dont-Sends : (option : ℕ) → Sends {P = P} send_telnet_option_bytes (handle_dont option)
  unfolding handle_dont
  handle_dont-Sends option = answered-Sends settle_will option (
      Sends-if (λ s. (s.tnstate option).is_will)
        (answered-Sends (set_is_will false) option (send_telnet_option-Sends _ option))
        (Sends-le skip-Sends (omega arith)))

  handle_wont-Sends : (option : ℕ) → Sends {P = P} send_telnet_option_bytes (handle_wont option)
  unfolding handle_wont
  handle_wont-Sends option = answered-Sends settle_do option (
      Sends-if (λ s. (s.tnstate option).is_do)
        (answered-Sends (set_is_do false) option (send_telnet_option-Sends _ option))
        (Sends-le skip-Sends (omega arith)))

module _ (cfg : Config) (p : Port) where
  open p use {Handle}

  -- `HandleIACCommand` run on any command whose part from index 4 holds a NUL, with room for
  -- `HandleIACCommand_bytes` bytes in the client's buffer, passes every `assert`, adds no more bytes
  -- than that, and leaves the device's buffer and the command parser as they are.
  pub handle_iac_command-Sends :
      (command : List ℕ) (csize : ℕ)
      → 4 ≤ cfg.sizeof_ulong
      → has_nul (drop 4 command) ≡ true
      → Sends (handle_iac_command_bytes cfg.sizeof_ulong) (handle_iac_command cfg p command csize)
  unfolding handle_iac_command handle_suboption
  handle_iac_command-Sends command csize le nul =
      Sends-if (λ s. verb == tnsb)
        (Sends-if (λ s. (s.tnstate option).is_will || (s.tnstate option).is_do)
          (Sends-if (λ s. option == tncom_port_option)
            (Sends-le (handle_cpc_command-Sends cfg p command csize le nul) (max_of_left _ _))
            quiet)
          quiet)
        (Sends-if (λ s. verb == tnwill) (small (handle_will-Sends option))
          (Sends-if (λ s. verb == tndo) (small (handle_do-Sends option))
            (Sends-if (λ s. verb == tndont) (small (handle_dont-Sends option))
              (Sends-if (λ s. verb == tnwont) (small (handle_wont-Sends option)) quiet))))
    where
      verb : ℕ
      verb = get_or command 1 0

      option : ℕ
      option = get_or command 2 0

      top : ℕ
      top = handle_iac_command_bytes cfg.sizeof_ulong

      small :
          {f : State Handle → Option (State Handle)}
          → Sends send_telnet_option_bytes f
          → Sends top f
      small h =
          Sends-le h
            (max_of_right (handle_cpc_command_bytes cfg.sizeof_ulong) send_telnet_option_bytes)

      quiet : Sends {P = Handle} top (λ s. some s)
      quiet = Sends-le skip-Sends (omega arith)
