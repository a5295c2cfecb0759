-- ===== src/Redirect/Escaped.antt =====
-- A command of a fixed size with an escaped parameter, in `EscRedirectChar` of
-- library/src/main/jni/sercd.c.
use serial_port.Prelude.{
  ℕ, ◌+◌, ◌≤◌, ◌<◌, ◌≡◌, ◌≢◌, refl, sym, ap, ◌∙◌, false, true, ◌||◌, some, [], ◌∷◌, ◌++◌, arith,
  get_or, ◌==◌, ltb, if◌then◌else◌, for_each, >>-some,
}
use serial_port.Telnet.{
  tniac, tnsb, tnse, tncas_signature, tncas_set_baudrate, tncas_flowcontrol_suspend,
  tncas_flowcontrol_resume,
}
use serial_port.Buffer.{buffer_length}
use serial_port.Buffer.Refine.{contents}
use serial_port.State.{State, Port, Config, iac_normal, iac_com_receiving}
use serial_port.State.Steps.{BuffersValid}
use serial_port.Iac.{handle_iac_command, handle_iac_command_bytes}
use serial_port.Iac.Room.{handle_iac_command-Sends}
use serial_port.Redirect.{
  collect, run_command, collect_up_to, redirect_command, redirect_by, set_escape, esc_redirect_char,
}
use serial_port.Redirect.Size.{
  Stored, Stored-has_nul, Stored-set, kind-set, collected, collect_defined,
}
use serial_port.Redirect.Stream.{char_by, as_it_is}

-- `IAC SB x command` has been collected of a suboption whose command has a parameter of one byte.
pub record OneByte {P : Type 0} (pos : ℕ) (s : State P) : Type 0 where
  pub valid : BuffersValid s
  pub stored : Stored s.iac_command
  pub inside : s.iac_escape ≡ iac_com_receiving
  pub at_pos : s.iac_pos ≡ pos
  pub suboption : get_or s.iac_command 1 0 ≡ tnsb
  pub no_signature : get_or s.iac_command 3 0 ≢ tncas_signature
  pub no_rate : get_or s.iac_command 3 0 ≢ tncas_set_baudrate
  pub no_suspend : get_or s.iac_command 3 0 ≢ tncas_flowcontrol_suspend
  pub no_resume : get_or s.iac_command 3 0 ≢ tncas_flowcontrol_resume

module _ (cfg : Config) (p : Port) where
  open p use {Handle}

  -- The byte is collected, and the command run if that was the seventh.
  pub by_collect :
      (c pos : ℕ) (s : State Handle)
      → OneByte pos s
      → 4 ≤ pos
      → redirect_by cfg p iac_com_receiving c s ≡ collect_up_to cfg p 7 c s
  unfolding redirect_by redirect_command
  by_collect c pos s v le = rw (sb, ge, ns, nr, nf) refl
    where
      sb : (get_or s.iac_command 1 0 == tnsb) ≡ true
      sb = ground (arith, v.suboption)

      ge : ltb s.iac_pos 4 ≡ false
      ge = ground (arith, v.at_pos)

      ns : (get_or s.iac_command 3 0 == tncas_signature) ≡ false
      ns = ground (arith, v.no_signature)

      nr : (get_or s.iac_command 3 0 == tncas_set_baudrate) ≡ false
      nr = ground (arith, v.no_rate)

      nf :
          (get_or s.iac_command 3 0 == tncas_flowcontrol_suspend
            || get_or s.iac_command 3 0 == tncas_flowcontrol_resume)
          ≡ false
      nf = ground (arith, v.no_suspend, v.no_resume)

  pub stored_byte :
      (c pos : ℕ) (s : State Handle)
      → OneByte pos s
      → 4 ≤ pos
      → pos < 6
      → esc_redirect_char cfg p c s ≡ some (record (collected c s) { redirect_last = c })
  unfolding collect_up_to
  stored_byte c pos s v le lt = char_by cfg p c s v.inside (
      by_collect c pos s v le
      ∙ >>-some (collect c) (λ t. if t.iac_pos == 7 then run_command cfg p t else some t) s
          (collect_defined c s (omega (arith, v.at_pos)))
      ∙ goes_on (collected c s) (λ e. omega (arith, e, v.at_pos)))
    where
      goes_on :
          (u : State Handle)
          → u.iac_pos ≢ 7
          → (if u.iac_pos == 7 then run_command cfg p u else some u) ≡ some u
      goes_on u ne = ground arith

  pub stored_byte-OneByte :
      (c pos : ℕ) (s : State Handle)
      → OneByte pos s
      → 4 ≤ pos
      → pos < 6
      → OneByte (pos + 1) (record (collected c s) { redirect_last = c })
  stored_byte-OneByte c pos s v le lt =
      let kind = kind-set s.iac_command s.iac_pos c (omega (arith, v.at_pos)) in
      let same = kind.1 (omega (arith, v.at_pos)) in
      record {
        valid = record { net = v.valid.net; dev = v.valid.dev };
        stored = Stored-set s.iac_pos c (omega (arith, v.at_pos)) v.stored;
        inside = v.inside;
        at_pos = omega (arith, v.at_pos);
        suboption = kind.0 ∙ v.suboption;
        no_signature = λ e. v.no_signature (sym same ∙ e);
        no_rate = λ e. v.no_rate (sym same ∙ e);
        no_suspend = λ e. v.no_suspend (sym same ∙ e);
        no_resume = λ e. v.no_resume (sym same ∙ e);
      }

module _ (cfg : Config) (p : Port) (wide : 4 ≤ cfg.sizeof_ulong) where
  open p use {Handle}

  -- The seventh byte.
  last_byte :
      (c : ℕ) (s : State Handle)
      → OneByte 6 s
      → buffer_length s.to_net + handle_iac_command_bytes cfg.sizeof_ulong ≤ 2047
      → (t : State Handle) × (esc_redirect_char cfg p c s ≡ some t)
        × BuffersValid t
        × (t.to_dev ≡ s.to_dev)
        × (t.iac_escape ≡ iac_normal)
        × (t.redirect_last ≡ c)
  unfolding collect_up_to run_command
  last_byte c s v room =
      let u : State Handle = collected c s in
      let (t, e, k) =
        (handle_iac_command-Sends cfg p u.iac_command u.iac_pos wide
            (Stored-has_nul (Stored-set s.iac_pos c (omega (arith, v.at_pos)) v.stored))).run
          u (record { net = v.valid.net; dev = v.valid.dev }) room in
      (
        record t { iac_escape = iac_normal; redirect_last = c },
        char_by cfg p c s v.inside (
            by_collect cfg p c 6 s v (omega arith)
            ∙ >>-some (collect c) (λ t. if t.iac_pos == 7 then run_command cfg p t else some t) s
                (collect_defined c s (omega (arith, v.at_pos)))
            ∙ completes u (omega (arith, v.at_pos))
            ∙ >>-some (λ u. handle_iac_command cfg p u.iac_command u.iac_pos u)
                (set_escape iac_normal) u e),
        record { net = k.valid.net; dev = k.valid.dev },
        ap (λ f. f.0) k.kept,
        refl,
        refl,
      )
    where
      completes :
          (u : State Handle)
          → u.iac_pos ≡ 7
          → (if u.iac_pos == 7 then run_command cfg p u else some u) ≡ run_command cfg p u
      completes u e = rw e refl

  -- An escaped 255 in a command with a parameter of one byte is not undone: after `IAC SB x command`, where
  -- the command is none of SIGNATURE, SET-BAUDRATE, FLOWCONTROL-SUSPEND and FLOWCONTROL-RESUME, the rest
  -- of the suboption that RFC 2217 asks for the parameter 255, which is IAC IAC IAC SE, runs the command
  -- at its third byte and passes its last byte to the device as data. This is with valid buffers and a
  -- valid command, and room for the answer and for the byte.
  pub esc_redirect_char-tnse :
      (s : State Handle)
      → OneByte 4 s
      → buffer_length s.to_net + handle_iac_command_bytes cfg.sizeof_ulong ≤ 2047
      → buffer_length s.to_dev < 2047
      → (t : State Handle) × (for_each
            (esc_redirect_char cfg p)
            (tniac ∷ tniac ∷ tniac ∷ tnse ∷ [])
            s
          ≡ some t)
        × (contents t.to_dev ≡ contents s.to_dev ++ (tnse ∷ []))
        × (t.iac_escape ≡ iac_normal)
  unfolding for_each
  esc_redirect_char-tnse s v room dev_room =
      let s1 : State Handle = record (collected tniac s) { redirect_last = tniac } in
      let v1 = stored_byte-OneByte cfg p tniac 4 s v (omega arith) (omega arith) in
      let s2 : State Handle = record (collected tniac s1) { redirect_last = tniac } in
      let v2 = stored_byte-OneByte cfg p tniac 5 s1 v1 (omega arith) (omega arith) in
      let (s3, e, v3, dev, outside, last) = last_byte tniac s2 v2 room in
      let (t, e', d) =
        as_it_is cfg p s3 v3 outside (omega (arith, dev_room, ap buffer_length dev)) tnse
          (λ k. omega (arith, k)) (ground arith) in
      (
        t,
        rw (stored_byte cfg p tniac 4 s v (omega arith) (omega arith), for_each)
            (rw (stored_byte cfg p tniac 5 s1 v1 (omega arith) (omega arith), for_each)
              (rw (e, for_each) (rw (e', for_each) refl))),
        d.appended ∙ ap (λ b. contents b ++ (tnse ∷ [])) dev,
        d.outside,
      )
