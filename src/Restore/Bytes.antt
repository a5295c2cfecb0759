-- ===== src/Restore/Bytes.antt =====
-- `EscRedirectChar` of library/src/main/jni/sercd.c keeps what the requests to the port keep.
use serial_port.Prelude.{ℕ, refl, ◌&&◌, ◌||◌, not, List, ◌==◌, ltb, get_or}
use serial_port.Telnet.{
  tniac, tnsb, tn_transmit_binary, tncas_signature, tncas_set_baudrate, tncas_flowcontrol_suspend,
  tncas_flowcontrol_resume,
}
use serial_port.State.{
  Port, Config, IacState, iac_normal, iac_received, iac_com_receiving, tmp_str_len,
}
use serial_port.Redirect.{
  collect, collect_if_room, set_escape, set_sig_escape, redirect_normal, start_command,
  redirect_received, run_command, collect_up_to, signature_byte, redirect_command, redirect_by,
  esc_redirect_char,
}
use serial_port.Restore.{
  Stable, Keeps, Keeps-quiet, Keeps-none, Keeps->>, Keeps-if, Keeps-at, skip-Keeps, add_dev-Keeps,
}
use serial_port.Restore.Commands.{handle_iac_command-Keeps}

module _ {P : Type 0} {I : P → Type 0} where
  collect-Keeps : (c : ℕ) → Keeps I (collect c)
  unfolding collect
  collect-Keeps c = Keeps-if (λ s. ltb s.iac_pos tmp_str_len) (Keeps-quiet _ (λ s. refl)) Keeps-none

  collect_if_room-Keeps : (c : ℕ) → Keeps I (collect_if_room c)
  unfolding collect_if_room
  collect_if_room-Keeps c = Keeps-if (λ s. ltb s.iac_pos tmp_str_len) (collect-Keeps c) skip-Keeps

  set_escape-Keeps : (e : IacState) → Keeps I (set_escape e)
  set_escape-Keeps e = Keeps-quiet _ (λ s. refl)

  set_sig_escape-Keeps : (e : IacState) → Keeps I (set_sig_escape e)
  set_sig_escape-Keeps e = Keeps-quiet _ (λ s. refl)

  redirect_normal-Keeps : (c : ℕ) → Keeps I (redirect_normal c)
  unfolding redirect_normal
  redirect_normal-Keeps c =
      Keeps-if (λ s. c == tniac) (set_escape-Keeps iac_received)
        (Keeps-if
          (λ s. not (s.tnstate tn_transmit_binary).is_do && (c == 0 && s.redirect_last == 13))
          skip-Keeps (add_dev-Keeps c))

  redirect_received-Keeps : (c : ℕ) → Keeps I (redirect_received c)
  unfolding redirect_received start_command
  redirect_received-Keeps c =
      Keeps-if (λ s. c == tniac) (Keeps->> (add_dev-Keeps c) (set_escape-Keeps iac_normal))
        (Keeps-quiet _ (λ s. refl))

module _ {p : Port} {I : p.Handle → Type 0} (stable : Stable p I) (cfg : Config) where
  run_command-Keeps : Keeps I (run_command cfg p)
  unfolding run_command
  run_command-Keeps =
      Keeps->>
        (Keeps-at (λ s. (s.iac_command, s.iac_pos))
          (λ (c : List ℕ × ℕ). handle_iac_command-Keeps stable cfg c.0 c.1))
        (set_escape-Keeps iac_normal)

  collect_up_to-Keeps : (size c : ℕ) → Keeps I (collect_up_to cfg p size c)
  unfolding collect_up_to
  collect_up_to-Keeps size c =
      Keeps->> (collect-Keeps c) (Keeps-if (λ s. s.iac_pos == size) run_command-Keeps skip-Keeps)

  signature_byte-Keeps : (e : IacState) (c : ℕ) → Keeps I (signature_byte cfg p e c)
  unfolding signature_byte
  signature_byte-Keeps iac_normal c =
      Keeps-if (λ s. c == tniac) (set_sig_escape-Keeps iac_received) (collect_if_room-Keeps c)
  signature_byte-Keeps iac_com_receiving c = set_sig_escape-Keeps iac_normal
  signature_byte-Keeps iac_received c =
      Keeps-if (λ s. c == tniac)
        (Keeps->> (collect_if_room-Keeps c) (set_sig_escape-Keeps iac_normal))
        (Keeps->> (collect_if_room-Keeps tniac)
          (Keeps->> (collect_if_room-Keeps c) run_command-Keeps))

  redirect_command-Keeps : (c : ℕ) → Keeps I (redirect_command cfg p c)
  unfolding redirect_command
  redirect_command-Keeps c =
      Keeps-if (λ s. get_or s.iac_command 1 0 == tnsb)
        (Keeps-if (λ s. ltb s.iac_pos 4) (collect-Keeps c)
          (Keeps-if (λ s. get_or s.iac_command 3 0 == tncas_signature)
            (Keeps-at (λ s. s.iac_sig_escape) (λ e. signature_byte-Keeps e c))
            (Keeps-if (λ s. get_or s.iac_command 3 0 == tncas_set_baudrate)
              (collect_up_to-Keeps 10 c)
              (Keeps-if
                (λ s.
                  get_or s.iac_command 3 0 == tncas_flowcontrol_suspend
                  || get_or s.iac_command 3 0 == tncas_flowcontrol_resume)
                (collect_up_to-Keeps 6 c) (collect_up_to-Keeps 7 c)))))
        (collect_up_to-Keeps 3 c)

  redirect_by-Keeps : (e : IacState) (c : ℕ) → Keeps I (redirect_by cfg p e c)
  unfolding redirect_by
  redirect_by-Keeps iac_normal c = redirect_normal-Keeps c
  redirect_by-Keeps iac_received c = redirect_received-Keeps c
  redirect_by-Keeps iac_com_receiving c = redirect_command-Keeps c

  pub esc_redirect_char-Keeps : (c : ℕ) → Keeps I (esc_redirect_char cfg p c)
  unfolding esc_redirect_char
  esc_redirect_char-Keeps c =
      Keeps->> (Keeps-at (λ s. s.iac_escape) (λ e. redirect_by-Keeps e c))
        (Keeps-quiet _ (λ s. refl))
