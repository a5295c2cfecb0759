-- ===== src/Redirect/Overlong.antt =====
-- A client's signature that fills `IACCommand` of library/src/main/jni/sercd.c.
pub mod Collected
pub mod Fault
use serial_port.Prelude.{
  ℕ, zero, suc, ◌+◌, ◌≤◌, min, ◌≡◌, ◌≢◌, refl, ap, ◌∙◌, false, true, ◌||◌, none, some, List, [],
  ◌∷◌, ◌++◌, arith, length, get_or, ◌==◌, ltb, for_each, ◌>>◌, >>-some, >>-none,
}
use serial_port.Telnet.{tniac, tnsb, tnse, tncom_port_option, tncas_signature}
use serial_port.State.{State, TnState, IacState, Port, Config, iac_normal, iac_received}
use serial_port.Redirect.{
  collect_if_room, run_command, signature_byte, redirect_command, redirect_by, set_redirect_last,
  esc_redirect_char,
}
use serial_port.Redirect.Overlong.Collected.{Collecting, Text, taken, taken_lem, taken-Collecting}
use serial_port.Redirect.Opening.{opening, opened, opened-Opened, opening_lem, next}
use serial_port.Redirect.Overlong.Fault.{run-fault}

module _ (cfg : Config) (p : Port) where
  open p use {Handle}

  -- A byte after the first four is one of the signature's.
  by_signature :
      {tn : ℕ → TnState} {sig : IacState} (c : ℕ) (s : State Handle)
      → Collecting tn sig s
      → redirect_by cfg p s.iac_escape c s ≡ signature_byte cfg p sig c s
  unfolding redirect_by redirect_command
  by_signature {sig = sig} c s v =
      ap (λ e. redirect_by cfg p e c s) v.inside
      ∙ rw (sb, ge, cas) (ap (λ e. signature_byte cfg p e c s) v.plain)
    where
      sb : (get_or s.iac_command 1 0 == tnsb) ≡ true
      sb = ground (arith, v.suboption)

      ge : ltb s.iac_pos 4 ≡ false
      ge = ground (arith, v.begun)

      cas : (get_or s.iac_command 3 0 == tncas_signature) ≡ true
      cas = ground (arith, v.command)

  plain_byte :
      (c : ℕ) (s : State Handle)
      → c ≢ tniac
      → signature_byte cfg p iac_normal c s ≡ some (taken c s)
  unfolding signature_byte
  plain_byte c s ne = rw other (taken_lem c s)
    where
      other : (c == tniac) ≡ false
      other = ground arith

  text_byte :
      {tn : ℕ → TnState} (c : ℕ) (s : State Handle)
      → c ≢ tniac
      → Collecting tn iac_normal s
      → esc_redirect_char cfg p c s ≡ some (record (taken c s) { redirect_last = c })
  unfolding esc_redirect_char
  text_byte c s ne v =
      >>-some (λ u. redirect_by cfg p u.iac_escape c u) (set_redirect_last c) s
        (by_signature c s v ∙ plain_byte c s ne)

  any_last :
      {tn : ℕ → TnState} {sig : IacState} (c : ℕ) (s : State Handle)
      → Collecting tn sig s
      → Collecting tn sig (record s { redirect_last = c })
  any_last c s v = record {
    full = v.full;
    inside = v.inside;
    plain = v.plain;
    begun = v.begun;
    bounded = v.bounded;
    suboption = v.suboption;
    option = v.option;
    command = v.command;
    filled = v.filled;
    options = v.options;
  }

  text_lem :
      {tn : ℕ → TnState} (cs rest : List ℕ) (s : State Handle)
      → Text cs
      → Collecting tn iac_normal s
      → (t : State Handle) × (for_each (esc_redirect_char cfg p) (cs ++ rest) s
          ≡ for_each (esc_redirect_char cfg p) rest t)
        × Collecting tn iac_normal t
        × (t.iac_pos ≡ min 255 (s.iac_pos + length cs))
  unfolding for_each
  text_lem [] rest s text v = (s, refl, v, omega (arith, v.bounded))
  text_lem (c ∷ cs) rest s (nz, ne, text) v =
      let (w, e) = taken-Collecting c s nz v in
      let u : State Handle = record (taken c s) { redirect_last = c } in
      let (t, e', w', e'') = text_lem cs rest u text (any_last c (taken c s) w) in
      (t, rw (text_byte c s ne v, for_each) e', w', omega (arith, e, e''))

  -- IAC in the signature.
  iac_byte :
      {tn : ℕ → TnState} (s : State Handle)
      → Collecting tn iac_normal s
      → esc_redirect_char cfg p tniac s
        ≡ some (record s { iac_sig_escape = iac_received; redirect_last = tniac })
  unfolding esc_redirect_char signature_byte
  iac_byte s v =
      >>-some (λ u. redirect_by cfg p u.iac_escape tniac u) (set_redirect_last tniac) s
        (by_signature tniac s v)

  -- SE after it.
  se_byte :
      {tn : ℕ → TnState} (s : State Handle)
      → Collecting tn iac_received s
      → 253 ≤ s.iac_pos
      → ((tn tncom_port_option).is_will || (tn tncom_port_option).is_do) ≡ true
      → esc_redirect_char cfg p tnse s ≡ none
  unfolding esc_redirect_char signature_byte
  se_byte s v long on =
      let (w1, e1) = taken-Collecting tniac s (λ e. omega (arith, e)) v in
      let (w2, e2) = taken-Collecting tnse (taken tniac s) (λ e. omega (arith, e)) w1 in
      >>-none (λ u. redirect_by cfg p u.iac_escape tnse u) (set_redirect_last tnse) s
        (by_signature tnse s v
          ∙ >>-some (collect_if_room tniac) (collect_if_room tnse >> run_command cfg p) s
              (taken_lem tniac s)
          ∙ >>-some (collect_if_room tnse) (run_command cfg p) (taken tniac s)
              (taken_lem tnse (taken tniac s))
          ∙ run-fault cfg p (taken tnse (taken tniac s)) w2 (omega (arith, e1, e2, long)) on)

  last_none :
      (s : State Handle)
      → esc_redirect_char cfg p tnse s ≡ none
      → for_each (esc_redirect_char cfg p) (tnse ∷ []) s ≡ none
  unfolding for_each
  last_none s e = rw (e, for_each) refl

  escaped :
      {tn : ℕ → TnState} (s : State Handle)
      → Collecting tn iac_normal s
      → Collecting tn iac_received
          (record s { iac_sig_escape = iac_received; redirect_last = tniac })
  escaped s v = record {
    full = v.full;
    inside = v.inside;
    plain = refl;
    begun = v.begun;
    bounded = v.bounded;
    suboption = v.suboption;
    option = v.option;
    command = v.command;
    filled = v.filled;
    options = v.options;
  }

  opened-Collecting :
      (s : State Handle)
      → length s.iac_command ≡ 255
      → Collecting s.tnstate iac_normal (opened tncas_signature s)
  opened-Collecting s full =
      let o = opened-Opened tncas_signature s full in
      record {
        full = o.full;
        inside = refl;
        plain = refl;
        begun = omega arith;
        bounded = omega arith;
        suboption = o.suboption;
        option = o.option;
        command = o.command;
        filled = λ i le lt. absurd (omega (arith, le, lt));
        options = refl;
      }

  -- A client's signature of at least 249 bytes, none of them NUL or IAC, that arrives outside of any
  -- command while the COM port option is in effect is a fault: the bytes fill `IACCommand` up to its
  -- end, and the copy of the text reads past it.
  pub for_each-esc_redirect_char :
      (cs : List ℕ) (s : State Handle)
      → Text cs
      → 249 ≤ length cs
      → length s.iac_command ≡ 255
      → s.iac_escape ≡ iac_normal
      → ((s.tnstate tncom_port_option).is_will || (s.tnstate tncom_port_option).is_do) ≡ true
      → for_each
          (esc_redirect_char cfg p)
          (opening tncas_signature ++ (cs ++ (tniac ∷ tnse ∷ [])))
          s
        ≡ none
  for_each-esc_redirect_char cs s text long full outside on =
      let t = opened tncas_signature s in
      let w = opened-Collecting s full in
      let (u, e2, w', at) = text_lem cs (tniac ∷ tnse ∷ []) t text w in
      let big : 253 ≤ u.iac_pos = omega (arith, at, long) in
      opening_lem cfg p tncas_signature (cs ++ (tniac ∷ tnse ∷ [])) s full outside
      ∙ e2
      ∙ next cfg p tniac (tnse ∷ []) u (iac_byte u w')
      ∙ last_none (record u { iac_sig_escape = iac_received; redirect_last = tniac })
          (se_byte (record u { iac_sig_escape = iac_received; redirect_last = tniac })
            (escaped u w') big on)
