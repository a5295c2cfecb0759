-- ===== src/Tests/Answers.antt =====
-- What library/src/main/jni/sercd.c answers to COM port control commands, and a signature that it
-- cannot hold.
use serial_port.Prelude.{
  ℕ, zero, suc, ◌≡◌, refl, true, some, none, List, [], ◌∷◌, ◌++◌, arith, replicate,
  length-replicate, for_each,
}
use serial_port.Telnet.{
  tniac, tnse, tnsb, tncom_port_option, tncas_set_modemstate_mask, tncas_signature,
}
use serial_port.Buffer.Refine.{contents}
use serial_port.State.{State, tn_reset, iac_normal}
use serial_port.State.Steps.{BuffersValid, Registers, registers}
use serial_port.Send.Wire.{is_binary}
use serial_port.Cpc.{handle_cpc_command}
use serial_port.Cpc.Requests.{request, after, reply, reply_bytes}
use serial_port.Cpc.Answer.{handle_cpc_command-reply}
use serial_port.Redirect.{esc_redirect_char}
use serial_port.Redirect.Overlong.{for_each-esc_redirect_char}
use serial_port.Redirect.Opening.{opening}
use serial_port.Redirect.Size.{Stored}
use serial_port.Redirect.Request.{TakesByte, message, asks, esc_redirect_char-reply}
use serial_port.Redirect.Overlong.Collected.{Text}
use serial_port.Tests.{cfg, toy_port, start, buffers, room_for_a_byte}

abbrev wants_carrier : List ℕ
wants_carrier =
    tniac ∷ tnsb ∷ tncom_port_option ∷ tncas_set_modemstate_mask ∷ 128 ∷ tniac ∷ tnse ∷ []

handle_cpc_command-reply_example :
    (t : State ℕ) × (handle_cpc_command cfg toy_port wants_carrier 7 start ≡ some t)
    × (registers t ≡ after cfg toy_port (request wants_carrier 7) (registers start))
    × (contents t.to_net
        ≡ contents start.to_net
          ++ reply_bytes 8
              (reply cfg toy_port
                (request wants_carrier 7)
                (after cfg toy_port (request wants_carrier 7) (registers start)))
              (is_binary start)
              0)
    × (t.to_dev ≡ start.to_dev)
    × (t.tnstate ≡ start.tnstate)
    × BuffersValid t
handle_cpc_command-reply_example =
    handle_cpc_command-reply cfg toy_port wants_carrier 7 start (omega arith) (omega arith)
      (λ e. cc) buffers (omega (arith, room_for_a_byte))

-- The COM port option is in effect.
abbrev negotiated : State ℕ
negotiated = record start { tnstate = λ o. record tn_reset { is_will = true } }

negotiated-Stored : Stored negotiated.iac_command
negotiated-Stored = record { full = length-replicate {A = ℕ} 255 0; nul = refl }

modemstate_mask-TakesByte : TakesByte tncas_set_modemstate_mask
modemstate_mask-TakesByte = record {
  no_signature = λ e. omega (arith, e);
  no_rate = λ e. omega (arith, e);
  no_suspend = λ e. omega (arith, e);
  no_resume = λ e. omega (arith, e);
}

abbrev as_asked : Registers ℕ
as_asked = after cfg toy_port (asks tncas_set_modemstate_mask 128) (registers negotiated)

esc_redirect_char-reply_example :
    (t : State ℕ) × (for_each
        (esc_redirect_char cfg toy_port)
        (message tncas_set_modemstate_mask 128)
        negotiated
      ≡ some t)
    × (registers t ≡ as_asked)
    × (contents t.to_net
        ≡ contents start.to_net
          ++ reply_bytes 8
              (reply cfg toy_port (asks tncas_set_modemstate_mask 128) as_asked)
              (is_binary start)
              0)
    × (t.to_dev ≡ start.to_dev)
    × (t.tnstate ≡ negotiated.tnstate)
    × (t.iac_escape ≡ iac_normal)
    × BuffersValid t
esc_redirect_char-reply_example =
    esc_redirect_char-reply cfg toy_port tncas_set_modemstate_mask 128 negotiated
      modemstate_mask-TakesByte (record { net = buffers.net; dev = buffers.dev }) negotiated-Stored
      refl refl (omega (arith, room_for_a_byte))

replicate-Text : (n : ℕ) → Text (replicate n 120)
replicate-Text zero = tt
replicate-Text (suc n) = (λ e. omega (arith, e), λ e. omega (arith, e), replicate-Text n)

for_each-esc_redirect_char_example :
    for_each
      (esc_redirect_char cfg toy_port)
      (opening tncas_signature ++ (replicate 249 120 ++ (tniac ∷ tnse ∷ [])))
      negotiated
    ≡ none
for_each-esc_redirect_char_example =
    for_each-esc_redirect_char cfg toy_port (replicate 249 120) negotiated (replicate-Text 249)
      (omega (arith, length-replicate {A = ℕ} 249 120)) (length-replicate {A = ℕ} 255 0) refl refl
