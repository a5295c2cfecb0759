-- ===== src/Redirect/Opening.antt =====
-- The first four bytes of a COM port control command, in `EscRedirectChar` of library/src/main/jni/sercd.c.
use serial_port.Prelude.{
  ℕ, ◌<◌, ◌≡◌, refl, ap, ◌∙◌, true, some, List, [], ◌∷◌, ◌++◌, arith, length, get_or, set, ◌==◌,
  ltb, for_each, >>-some, length-set, get_or-set_self, get_or-set_ne,
}
use serial_port.Telnet.{tniac, tnsb, tncom_port_option}
use serial_port.State.{State, Port, Config, iac_normal, iac_received, iac_com_receiving}
use serial_port.Redirect.{
  redirect_command, redirect_received, redirect_normal, start_command, redirect_by,
  set_redirect_last, esc_redirect_char,
}
use serial_port.Redirect.Size.{collected, collect_defined}

-- IAC, SB, and the first two of its bytes.
abbrev pub opening : ℕ → List ℕ
opening op = tniac ∷ tnsb ∷ tncom_port_option ∷ op ∷ []

-- What the array holds then.
pub record Opened (op : ℕ) (bytes : List ℕ) : Type 0 where
  pub full : length bytes ≡ 255
  pub suboption : get_or bytes 1 0 ≡ tnsb
  pub option : get_or bytes 2 0 ≡ tncom_port_option
  pub command : get_or bytes 3 0 ≡ op

module _ {P : Type 0} where
  -- The state after them.
  abbrev pub opened : ℕ → State P → State P
  opened op s = record s {
    iac_command = set (set (set (set s.iac_command 0 tniac) 1 tnsb) 2 tncom_port_option) 3 op;
    iac_pos = 4;
    iac_escape = iac_com_receiving;
    iac_sig_escape = iac_normal;
    redirect_last = op;
  }

  pub opened-Opened :
      (op : ℕ) (s : State P) → length s.iac_command ≡ 255 → Opened op (opened op s).iac_command
  opened-Opened op s full =
      let one = set s.iac_command 0 tniac in
      let two = set one 1 tnsb in
      let three = set two 2 tncom_port_option in
      let size1 = length-set s.iac_command 0 tniac ∙ full in
      let size2 = length-set one 1 tnsb ∙ size1 in
      let size3 = length-set two 2 tncom_port_option ∙ size2 in
      record {
        full = length-set three 3 op ∙ size3;
        suboption =
            get_or-set_ne three 3 1 op 0 (λ e. omega (arith, e))
            ∙ get_or-set_ne two 2 1 tncom_port_option 0 (λ e. omega (arith, e))
            ∙ get_or-set_self one 1 tnsb 0 (omega (arith, size1));
        option =
            get_or-set_ne three 3 2 op 0 (λ e. omega (arith, e))
            ∙ get_or-set_self two 2 tncom_port_option 0 (omega (arith, size2));
        command = get_or-set_self three 3 op 0 (omega (arith, size3));
      }

module _ (cfg : Config) (p : Port) where
  open p use {Handle}

  -- A byte before the signature.
  char_step :
      (c : ℕ) (s : State Handle) {t : State Handle}
      → redirect_by cfg p s.iac_escape c s ≡ some t
      → esc_redirect_char cfg p c s ≡ some (record t { redirect_last = c })
  unfolding esc_redirect_char
  char_step c s e = >>-some (λ u. redirect_by cfg p u.iac_escape c u) (set_redirect_last c) s e

  -- One of the two bytes after IAC and SB.
  header_byte :
      (c : ℕ) (s : State Handle)
      → s.iac_escape ≡ iac_com_receiving
      → get_or s.iac_command 1 0 ≡ tnsb
      → s.iac_pos < 4
      → esc_redirect_char cfg p c s ≡ some (record (collected c s) { redirect_last = c })
  unfolding redirect_by redirect_command
  header_byte c s inside sub few =
      char_step c s {t = collected c s}
        (ap (λ e. redirect_by cfg p e c s) inside ∙ rw (sb, lt) (collect_defined c s (omega arith)))
    where
      sb : (get_or s.iac_command 1 0 == tnsb) ≡ true
      sb = ground arith

      lt : ltb s.iac_pos 4 ≡ true
      lt = ground arith

  iac_first :
      (s : State Handle)
      → s.iac_escape ≡ iac_normal
      → esc_redirect_char cfg p tniac s
        ≡ some (record s { iac_escape = iac_received; redirect_last = tniac })
  unfolding redirect_by redirect_normal
  iac_first s outside = char_step tniac s (ap (λ e. redirect_by cfg p e tniac s) outside)

  sb_second :
      (s : State Handle)
      → s.iac_escape ≡ iac_received
      → esc_redirect_char cfg p tnsb s
        ≡ some (record s {
          iac_command = set (set s.iac_command 0 tniac) 1 tnsb;
          iac_pos = 2;
          iac_escape = iac_com_receiving;
          iac_sig_escape = iac_normal;
          redirect_last = tnsb;
        })
  unfolding redirect_by redirect_received start_command
  sb_second s begun = char_step tnsb s (ap (λ e. redirect_by cfg p e tnsb s) begun)

  pub next :
      {t : State Handle} (c : ℕ) (rest : List ℕ) (s : State Handle)
      → esc_redirect_char cfg p c s ≡ some t
      → for_each (esc_redirect_char cfg p) (c ∷ rest) s ≡ for_each (esc_redirect_char cfg p) rest t
  unfolding for_each
  next c rest s e = rw (e, for_each) refl

  pub opening_lem :
      (op : ℕ) (rest : List ℕ) (s : State Handle)
      → length s.iac_command ≡ 255
      → s.iac_escape ≡ iac_normal
      → for_each (esc_redirect_char cfg p) (opening op ++ rest) s
        ≡ for_each (esc_redirect_char cfg p) rest (opened op s)
  opening_lem op rest s full outside =
      let a : State Handle = record s { iac_escape = iac_received; redirect_last = tniac } in
      let b : State Handle = record s {
        iac_command = set (set s.iac_command 0 tniac) 1 tnsb;
        iac_pos = 2;
        iac_escape = iac_com_receiving;
        iac_sig_escape = iac_normal;
        redirect_last = tnsb;
      } in
      let c : State Handle = record (collected tncom_port_option b) {
        redirect_last = tncom_port_option;
      } in
      let two = set (set s.iac_command 0 tniac) 1 tnsb in
      let one = length-set s.iac_command 0 tniac ∙ full in
      let sub = get_or-set_self (set s.iac_command 0 tniac) 1 tnsb 0 (omega (arith, one)) in
      let sub' = get_or-set_ne two 2 1 tncom_port_option 0 (λ e. omega (arith, e)) ∙ sub in
      next tniac (tnsb ∷ tncom_port_option ∷ op ∷ rest) s (iac_first s outside)
      ∙ next tnsb (tncom_port_option ∷ op ∷ rest) a (sb_second a refl)
      ∙ next tncom_port_option (op ∷ rest) b
          (header_byte tncom_port_option b refl sub (omega arith))
      ∙ next op rest c (header_byte op c refl sub' (omega arith))
