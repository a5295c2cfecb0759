-- ===== src/Iac/Negotiation.antt =====
-- `HandleIACCommand` of library/src/main/jni/sercd.c against an option table: what is answered to each
-- message of a negotiation, and what becomes of the option.
use serial_port.Prelude.{
  ℕ, ◌≢◌, refl, Bool, true, false, ◌||◌, Option, some, List, [], ◌∷◌, ◌++◌, arith, ◌==◌,
  if◌then◌else◌, get_or, ◌>>◌,
}
use serial_port.Telnet.{tniac, tnsb, tnwill, tnwont, tndo, tndont, tncom_port_option}
use serial_port.State.{State, TnState, Port, Config, update}
use serial_port.Send.{send_telnet_option}
use serial_port.Iac.{
  is_plain_option, handle_will, handle_do, handle_dont, handle_wont, handle_iac_command,
  modify_tnstate, enable_port_control, set_is_do, set_is_will, settle_do, settle_will,
}
use serial_port.Iac.Negotiates.{
  Negotiates, option-Negotiates, quiet-Negotiates, modify-Negotiates, Negotiates->>, Negotiates-if,
  Negotiates-same, Negotiates-ext,
}

-- The options that the server takes part in, by their numbers: binary transmission, ECHO,
-- SUPPRESS-GO-AHEAD and COM-PORT-OPTION.
abbrev pub is_supported : ℕ → Bool
is_supported o = o == 0 || (o == 1 || (o == 3 || o == 44))

abbrev pub message : ℕ → ℕ → List ℕ
message verb o = tniac ∷ verb ∷ o ∷ []

-- The answer to a message about an option in the state `t`.
abbrev pub answer : ℕ → ℕ → TnState → List ℕ
answer verb o t =
    if verb == tnwill
    then (if is_supported o then (if t.sent_do then [] else message tndo o) else message tndont o)
    else if verb == tndo
    then (if is_supported o
        then (if t.sent_will then [] else message tnwill o)
        else message tnwont o)
    else if verb == tndont
    then (if t.is_will then message tnwont o else [])
    else if verb == tnwont
    then (if t.is_do then message tndont o else [])
    else []

-- The option's state afterwards: on one side it is as the message says, if it is supported, and
-- nothing is outstanding.
abbrev pub settled : ℕ → ℕ → TnState → TnState
settled verb o t =
    if verb == tnwill
    then record t { is_do = is_supported o; sent_do = false; sent_dont = false }
    else if verb == tndo
    then record t { is_will = is_supported o; sent_will = false; sent_wont = false }
    else if verb == tndont
    then record t { is_will = false; sent_will = false; sent_wont = false }
    else if verb == tnwont
    then record t { is_do = false; sent_do = false; sent_dont = false }
    else t

module _ {P : Type 0} where
  accept-Negotiates :
      (sent : TnState → Bool) (reply o : ℕ) (set_it : TnState → TnState)
      → Negotiates {P = P}
          (λ tn. (if sent (tn o) then [] else message reply o) ++ [])
          (λ tn. update tn o (set_it (tn o)))
          ((λ s. if sent (s.tnstate o) then some s else send_telnet_option reply o s)
            >> modify_tnstate set_it o)
  accept-Negotiates sent reply o set_it =
      Negotiates-same (λ tn. refl) (λ tn i. ground arith)
        (Negotiates->>
          (Negotiates-if (λ tn. sent (tn o)) (quiet-Negotiates (λ s. s) _ (λ s. (refl, refl, refl)))
            (option-Negotiates reply o))
          (modify-Negotiates set_it o))

  refuse-Negotiates :
      (reply o : ℕ) (set_it : TnState → TnState)
      → Negotiates {P = P}
          (λ tn. message reply o)
          (λ tn. update tn o (set_it (tn o)))
          (send_telnet_option reply o >> modify_tnstate set_it o)
  refuse-Negotiates reply o set_it =
      Negotiates->> (option-Negotiates reply o) (modify-Negotiates set_it o)

  -- A request for an option: accepted if it is supported, and refused if not.
  request-Negotiates :
      (sent : TnState → Bool) (accepted refused o : ℕ) (set_it : Bool → TnState → TnState)
      (settle : TnState → TnState) {accept refuse : State P → Option (State P)}
      → Negotiates
          (λ tn. (if sent (tn o) then [] else message accepted o) ++ [])
          (λ tn. update tn o (set_it true (tn o)))
          accept
      → Negotiates (λ tn. message refused o) (λ tn. update tn o (set_it false (tn o))) refuse
      → Negotiates
          (λ tn.
            if is_supported o
            then (if sent (tn o) then [] else message accepted o)
            else message refused o)
          (λ tn. update tn o (settle (set_it (is_supported o) (tn o))))
          ((λ s.
              if o == tncom_port_option
              then (enable_port_control >> accept) s
              else if is_plain_option o
              then accept s
              else refuse s)
            >> modify_tnstate settle o)
  request-Negotiates sent accepted refused o set_it settle ha hr =
      Negotiates-same (λ tn. ground arith) (λ tn i. ground arith)
        (Negotiates->>
          (Negotiates-if (λ tn. o == tncom_port_option)
            (Negotiates->> (quiet-Negotiates _ (λ tn. tn) (λ s. (refl, refl, refl))) ha)
            (Negotiates-if (λ tn. is_plain_option o) ha hr))
          (modify-Negotiates settle o))

  handle_will-Negotiates :
      (o : ℕ)
      → Negotiates {P = P}
          (λ tn.
            if is_supported o
            then (if (tn o).sent_do then [] else message tndo o)
            else message tndont o)
          (λ tn. update tn o (settle_do (set_is_do (is_supported o) (tn o))))
          (handle_will o)
  unfolding handle_will
  handle_will-Negotiates o =
      request-Negotiates (λ t. t.sent_do) tndo tndont o set_is_do settle_do
        (accept-Negotiates (λ t. t.sent_do) tndo o (set_is_do true))
        (refuse-Negotiates tndont o (set_is_do false))

  handle_do-Negotiates :
      (o : ℕ)
      → Negotiates {P = P}
          (λ tn.
            if is_supported o
            then (if (tn o).sent_will then [] else message tnwill o)
            else message tnwont o)
          (λ tn. update tn o (settle_will (set_is_will (is_supported o) (tn o))))
          (handle_do o)
  unfolding handle_do
  handle_do-Negotiates o =
      request-Negotiates (λ t. t.sent_will) tnwill tnwont o set_is_will settle_will
        (accept-Negotiates (λ t. t.sent_will) tnwill o (set_is_will true))
        (refuse-Negotiates tnwont o (set_is_will false))

  -- A refusal of an option, answered where the option was on.
  rejection-Negotiates :
      (is_on : TnState → Bool) (reply o : ℕ) (turn_off settle : TnState → TnState)
      → Negotiates {P = P}
          (λ tn. if is_on (tn o) then message reply o else [])
          (λ tn. update tn o (settle (if is_on (tn o) then turn_off (tn o) else tn o)))
          ((λ s.
              if is_on (s.tnstate o)
              then (send_telnet_option reply o >> modify_tnstate turn_off o) s
              else some s)
            >> modify_tnstate settle o)
  rejection-Negotiates is_on reply o turn_off settle =
      Negotiates-same (λ tn. ground arith) (λ tn i. ground arith)
        (Negotiates->>
          (Negotiates-if (λ tn. is_on (tn o)) (refuse-Negotiates reply o turn_off)
            (quiet-Negotiates (λ s. s) (λ tn. tn) (λ s. (refl, refl, refl))))
          (modify-Negotiates settle o))

  handle_dont-Negotiates :
      (o : ℕ)
      → Negotiates {P = P}
          (λ tn. if (tn o).is_will then message tnwont o else [])
          (λ tn. update tn o (settle_will (set_is_will false (tn o))))
          (handle_dont o)
  unfolding handle_dont
  handle_dont-Negotiates o =
      Negotiates-same (λ tn. refl) (λ tn i. ground arith)
        (rejection-Negotiates (λ t. t.is_will) tnwont o (set_is_will false) settle_will)

  handle_wont-Negotiates :
      (o : ℕ)
      → Negotiates {P = P}
          (λ tn. if (tn o).is_do then message tndont o else [])
          (λ tn. update tn o (settle_do (set_is_do false (tn o))))
          (handle_wont o)
  unfolding handle_wont
  handle_wont-Negotiates o =
      Negotiates-same (λ tn. refl) (λ tn i. ground arith)
        (rejection-Negotiates (λ t. t.is_do) tndont o (set_is_do false) settle_do)

module _ (cfg : Config) (p : Port) where
  open p use {Handle}

  -- `HandleIACCommand` on any command but a suboption, with valid buffers and room for the answer, is the
  -- negotiation that `answer` and `settled` describe: it puts exactly the answer to the message into the
  -- client's buffer, changes the state of the message's option accordingly, keeps those of the other
  -- options and the buffers valid, and does not fault.
  pub handle_iac_command-Negotiates :
      (command : List ℕ) (csize : ℕ)
      → get_or command 1 0 ≢ tnsb
      → Negotiates
          (λ tn. answer (get_or command 1 0) (get_or command 2 0) (tn (get_or command 2 0)))
          (λ tn.
            update tn
              (get_or command 2 0)
              (settled (get_or command 1 0) (get_or command 2 0) (tn (get_or command 2 0))))
          (handle_iac_command cfg p command csize)
  unfolding handle_iac_command
  handle_iac_command-Negotiates command csize no_suboption =
      Negotiates-ext (λ s. ground arith)
        (Negotiates-same (λ tn. ground arith) (λ tn i. ground arith)
          (Negotiates-if (λ tn. verb == tnwill) (handle_will-Negotiates o)
            (Negotiates-if (λ tn. verb == tndo) (handle_do-Negotiates o)
              (Negotiates-if (λ tn. verb == tndont) (handle_dont-Negotiates o)
                (Negotiates-if (λ tn. verb == tnwont) (handle_wont-Negotiates o)
                  (quiet-Negotiates (λ s. s) (λ tn. tn) (λ s. (refl, refl, refl))))))))
    where
      verb : ℕ
      verb = get_or command 1 0

      o : ℕ
      o = get_or command 2 0
