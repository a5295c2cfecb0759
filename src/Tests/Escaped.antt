-- ===== src/Tests/Escaped.antt =====
-- A parameter 255 of SET-CONTROL, as library/src/main/jni/sercd.c receives it.
use serial_port.Prelude.{
  ℕ, ◌≡◌, refl, some, [], ◌∷◌, ◌++◌, arith, replicate, length-replicate, for_each,
}
use serial_port.Telnet.{tniac, tnse, tnsb, tncom_port_option, tncas_set_control}
use serial_port.Buffer.Refine.{contents}
use serial_port.State.{State, iac_normal, iac_com_receiving}
use serial_port.Redirect.{esc_redirect_char}
use serial_port.Redirect.Escaped.{OneByte, esc_redirect_char-tnse}
use serial_port.Tests.{cfg, toy_port, start, empty-IsValid, room_for_a_byte}

abbrev begun : State ℕ
begun = record start {
  iac_escape = iac_com_receiving;
  iac_command = tniac ∷ tnsb ∷ tncom_port_option ∷ tncas_set_control ∷ replicate 251 0;
  iac_pos = 4;
}

begun-OneByte : OneByte 4 begun
begun-OneByte = record {
  valid = record { net = empty-IsValid; dev = empty-IsValid };
  stored = record { full = omega (arith, length-replicate {A = ℕ} 251 0); nul = refl };
  inside = refl;
  at_pos = refl;
  suboption = refl;
  no_signature = λ e. omega (arith, e);
  no_rate = λ e. omega (arith, e);
  no_suspend = λ e. omega (arith, e);
  no_resume = λ e. omega (arith, e);
}

esc_redirect_char-tnse_example :
    (t : State ℕ) × (for_each
        (esc_redirect_char cfg toy_port)
        (tniac ∷ tniac ∷ tniac ∷ tnse ∷ [])
        begun
      ≡ some t)
    × (contents t.to_dev ≡ contents begun.to_dev ++ (tnse ∷ []))
    × (t.iac_escape ≡ iac_normal)
esc_redirect_char-tnse_example =
    esc_redirect_char-tnse cfg toy_port (omega arith) begun begun-OneByte
      (omega (arith, room_for_a_byte)) (omega (arith, room_for_a_byte))
