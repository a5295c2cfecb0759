-- ===== src/Redirect/Request.antt =====
-- A client's request with a parameter of one byte, from its bytes to its answer: `EscRedirectChar`,
-- `HandleIACCommand` and `HandleCPCCommand` of library/src/main/jni/sercd.c.
use serial_port.Prelude.{
  ℕ, ◌+◌, ◌≤◌, ◌≡◌, subst, Option, drop, ◌≢◌, refl, sym, ap, ◌∙◌, true, false, ◌||◌, some, List, [],
  ◌∷◌, ◌++◌, arith, length, get_or, set, ◌==◌, if◌then◌else◌, for_each, >>-some, get_or-set_self,
  get_or-set_ne,
}
use serial_port.Telnet.{
  tniac, tnsb, tnse, tncom_port_option, tncas_signature, tncas_set_baudrate,
  tncas_flowcontrol_suspend, tncas_flowcontrol_resume,
}
use serial_port.Buffer.{buffer_length}
use serial_port.Buffer.Refine.{contents}
use serial_port.State.{State, Port, Config, iac_normal}
use serial_port.State.Steps.{BuffersValid, registers}
use serial_port.Send.Wire.{is_binary}
use serial_port.Cpc.{has_nul, handle_cpc_command}
use serial_port.Cpc.Requests.{Request, request, after, reply, reply_bytes}
use serial_port.Cpc.Answer.{handle_cpc_command-reply}
use serial_port.Iac.{handle_suboption, handle_iac_command}
use serial_port.Redirect.{collect, run_command, collect_up_to, set_escape, esc_redirect_char}
use serial_port.Redirect.Size.{Stored, Stored-has_nul, Stored-set, collected, collect_defined}
use serial_port.Redirect.Stream.{char_by}
use serial_port.Redirect.Escaped.{OneByte, by_collect, stored_byte, stored_byte-OneByte}
use serial_port.Redirect.Opening.{opening, opened, opened-Opened, opening_lem, next}

-- The commands whose suboption has seven bytes.
pub record TakesByte (op : ℕ) : Type 0 where
  pub no_signature : op ≢ tncas_signature
  pub no_rate : op ≢ tncas_set_baudrate
  pub no_suspend : op ≢ tncas_flowcontrol_suspend
  pub no_resume : op ≢ tncas_flowcontrol_resume

abbrev pub message : ℕ → ℕ → List ℕ
message op v = opening op ++ (v ∷ tniac ∷ tnse ∷ [])

abbrev pub asks : ℕ → ℕ → Request
asks op v = request (message op v) 7

-- What is in `IACCommand` counts by its fourth and fifth byte.
asks_lem :
    (op v : ℕ) (bytes : List ℕ)
    → TakesByte op
    → get_or bytes 3 0 ≡ op
    → get_or bytes 4 0 ≡ v
    → request bytes 7 ≡ asks op v
asks_lem op v bytes t e e' = rw (e, e', other) refl
  where
    other : (op == tncas_set_baudrate) ≡ false
    other = ground (arith, t.no_rate)

-- The bytes that decide on the command when all seven are there.
abbrev Decided : ℕ → ℕ → List ℕ → Type 0
Decided op v bytes =
    (get_or bytes 1 0 ≡ tnsb)
    × (get_or bytes 2 0 ≡ tncom_port_option)
    × (get_or bytes 3 0 ≡ op)
    × (get_or bytes 4 0 ≡ v)

module _ {P : Type 0} where
  -- The state in front of the seventh byte.
  abbrev pub before_last : ℕ → ℕ → State P → State P
  before_last op v s =
      let s1 : State P = record (collected v (opened op s)) { redirect_last = v } in
      record (collected tniac s1) { redirect_last = tniac }

  opened-OneByte :
      (op : ℕ) (s : State P)
      → BuffersValid s
      → Stored s.iac_command
      → TakesByte op
      → OneByte 4 (opened op s)
  opened-OneByte op s v stored t =
      let o = opened-Opened op s stored.full in
      record {
        valid = record { net = v.net; dev = v.dev };
        stored = Stored-set 3 op (omega arith) (
            Stored-set 2 tncom_port_option (omega arith)
              (Stored-set 1 tnsb (omega arith) (Stored-set 0 tniac (omega arith) stored)));
        inside = refl;
        at_pos = refl;
        suboption = o.suboption;
        no_signature = λ e. t.no_signature (sym o.command ∙ e);
        no_rate = λ e. t.no_rate (sym o.command ∙ e);
        no_suspend = λ e. t.no_suspend (sym o.command ∙ e);
        no_resume = λ e. t.no_resume (sym o.command ∙ e);
      }

  decided :
      (op v : ℕ) (s : State P)
      → length s.iac_command ≡ 255
      → Decided op v (collected tnse (before_last op v s)).iac_command
  decided op v s full =
      let o = opened-Opened op s full in
      let start = (opened op s).iac_command in
      let with_v = set start 4 v in
      let with_iac = set with_v 5 tniac in
      let kept = λ (i : ℕ) (ne4 : i ≢ 4) (ne5 : i ≢ 5) (ne6 : i ≢ 6).
        get_or-set_ne with_iac 6 i tnse 0 (λ e. ne6 (sym e))
        ∙ get_or-set_ne with_v 5 i tniac 0 (λ e. ne5 (sym e))
        ∙ get_or-set_ne start 4 i v 0 (λ e. ne4 (sym e)) in
      (
        kept 1 (λ e. omega (arith, e)) (λ e. omega (arith, e)) (λ e. omega (arith, e))
            ∙ o.suboption,
        kept 2 (λ e. omega (arith, e)) (λ e. omega (arith, e)) (λ e. omega (arith, e)) ∙ o.option,
        kept 3 (λ e. omega (arith, e)) (λ e. omega (arith, e)) (λ e. omega (arith, e)) ∙ o.command,
        get_or-set_ne with_iac 6 4 tnse 0 (λ e. omega (arith, e))
            ∙ get_or-set_ne with_v 5 4 tniac 0 (λ e. omega (arith, e))
            ∙ get_or-set_self start 4 v 0 (omega (arith, o.full)),
      )

module _ (cfg : Config) (p : Port) where
  open p use {Handle}

  -- The two bytes in front of the last one.
  stored_two :
      (op v : ℕ) (s : State Handle)
      → OneByte 4 (opened op s)
      → (for_each (esc_redirect_char cfg p) (v ∷ tniac ∷ tnse ∷ []) (opened op s)
          ≡ for_each (esc_redirect_char cfg p) (tnse ∷ []) (before_last op v s))
        × OneByte 6 (before_last op v s)
  stored_two op v s w =
      let s1 : State Handle = record (collected v (opened op s)) { redirect_last = v } in
      let w1 : OneByte 5 s1 =
        stored_byte-OneByte cfg p v 4 (opened op s) w (omega arith) (omega arith) in
      (
        next cfg p v (tniac ∷ tnse ∷ []) (opened op s)
              (stored_byte cfg p v 4 (opened op s) w (omega arith) (omega arith))
            ∙ next cfg p tniac (tnse ∷ []) s1
                (stored_byte cfg p tniac 5 s1 w1 (omega arith) (omega arith)),
        stored_byte-OneByte cfg p tniac 5 s1 w1 (omega arith) (omega arith),
      )

  -- The command that has been collected is handled.
  handled :
      (bytes : List ℕ) (s : State Handle) {op v : ℕ}
      → Decided op v bytes
      → ((s.tnstate tncom_port_option).is_will || (s.tnstate tncom_port_option).is_do) ≡ true
      → handle_iac_command cfg p bytes 7 s ≡ handle_cpc_command cfg p bytes 7 s
  unfolding handle_iac_command handle_suboption
  handled bytes s (sub, opt, op_is, v_is) on = rw (sb, active, port) refl
    where
      sb : (get_or bytes 1 0 == tnsb) ≡ true
      sb = ground (arith, sub)

      active :
          ((s.tnstate (get_or bytes 2 0)).is_will || (s.tnstate (get_or bytes 2 0)).is_do) ≡ true
      active = ap (λ k. (s.tnstate k).is_will || (s.tnstate k).is_do) opt ∙ on

      port : (get_or bytes 2 0 == tncom_port_option) ≡ true
      port = ground (arith, opt)

  -- The seventh byte.
  last_byte :
      (s : State Handle) {t : State Handle}
      → OneByte 6 s
      → handle_iac_command cfg p (collected tnse s).iac_command 7 (collected tnse s) ≡ some t
      → esc_redirect_char cfg p tnse s
        ≡ some (record t { iac_escape = iac_normal; redirect_last = tnse })
  unfolding collect_up_to run_command
  last_byte s w e =
      let u : State Handle = collected tnse s in
      char_by cfg p tnse s w.inside (
        by_collect cfg p tnse 6 s w (omega arith)
        ∙ >>-some (collect tnse) (λ t. if t.iac_pos == 7 then run_command cfg p t else some t) s
            (collect_defined tnse s (omega (arith, w.at_pos)))
        ∙ completes u (omega (arith, w.at_pos))
        ∙ >>-some (λ u. handle_iac_command cfg p u.iac_command u.iac_pos u) (set_escape iac_normal)
            u (ap (λ k. handle_iac_command cfg p u.iac_command k u) (omega (arith, w.at_pos)) ∙ e))
    where
      completes :
          (u : State Handle)
          → u.iac_pos ≡ 7
          → (if u.iac_pos == 7 then run_command cfg p u else some u) ≡ run_command cfg p u
      completes u e = rw e refl

  last_of_all :
      (s : State Handle) {t : State Handle}
      → esc_redirect_char cfg p tnse s ≡ some t
      → for_each (esc_redirect_char cfg p) (tnse ∷ []) s ≡ some t
  unfolding for_each
  last_of_all s e = rw (e, for_each) refl

  -- What a request does to a state, and `x` is what comes of it.
  abbrev Answers : Request → State Handle → Option (State Handle) → Type 0
  Answers q s x =
      let r = after cfg p q (registers s) in
      let bytes = reply_bytes cfg.sizeof_ulong (reply cfg p q r) (is_binary s) s.write_last in
      buffer_length s.to_net + length bytes ≤ 2047
      → (t : State Handle) × (x ≡ some t)
        × (registers t ≡ r)
        × (contents t.to_net ≡ contents s.to_net ++ bytes)
        × (t.to_dev ≡ s.to_dev)
        × (t.tnstate ≡ s.tnstate)
        × BuffersValid t

  answers :
      (q : Request) (bytes : List ℕ) (s : State Handle)
      → request bytes 7 ≡ q
      → has_nul (drop 4 bytes) ≡ true
      → BuffersValid s
      → Answers q s (handle_cpc_command cfg p bytes 7 s)
  answers q bytes s e nul v =
      subst (λ k. Answers k s (handle_cpc_command cfg p bytes 7 s)) e
        (handle_cpc_command-reply cfg p bytes 7 s (omega arith) (omega arith) (λ k. nul) v)

  -- A request with a parameter of one byte does what it asks for: when the seven bytes of a suboption with
  -- any command but SIGNATURE, SET-BAUDRATE, FLOWCONTROL-SUSPEND and FLOWCONTROL-RESUME, and with any
  -- byte as parameter that is not escaped, arrive outside of any command while the COM port option is in
  -- effect, with valid buffers, the command's array as every command leaves it and room for the
  -- answer, no fault occurs; port, masks, break state and input flow become what `after` says, exactly
  -- the answer's bytes are put into the client's buffer and none into the device's, the options stay as
  -- they were, the buffers valid, and the parser is outside of any command again.
  pub esc_redirect_char-reply :
      (op v : ℕ) (s : State Handle)
      → TakesByte op
      → BuffersValid s
      → Stored s.iac_command
      → s.iac_escape ≡ iac_normal
      → ((s.tnstate tncom_port_option).is_will || (s.tnstate tncom_port_option).is_do) ≡ true
      → let r = after cfg p (asks op v) (registers s) in
        let bytes =
          reply_bytes cfg.sizeof_ulong (reply cfg p (asks op v) r) (is_binary s) s.write_last in
        buffer_length s.to_net + length bytes ≤ 2047
        → (t : State Handle) × (for_each (esc_redirect_char cfg p) (message op v) s ≡ some t)
          × (registers t ≡ r)
          × (contents t.to_net ≡ contents s.to_net ++ bytes)
          × (t.to_dev ≡ s.to_dev)
          × (t.tnstate ≡ s.tnstate)
          × (t.iac_escape ≡ iac_normal)
          × BuffersValid t
  esc_redirect_char-reply op v s takes valid stored outside on room =
      let u : State Handle = collected tnse (before_last op v s) in
      let bytes = u.iac_command in
      let d = decided op v s stored.full in
      let same : request bytes 7 ≡ asks op v = asks_lem op v bytes takes d.2 d.3 in
      let (e, w) = stored_two op v s (opened-OneByte op s valid stored takes) in
      let (t, h, regs, out, dev, opts, ok) =
        answers (asks op v) bytes u same (Stored-has_nul (Stored-set 6 tnse (omega arith) w.stored))
          (record { net = valid.net; dev = valid.dev }) room in
      (
        record t { iac_escape = iac_normal; redirect_last = tnse },
        opening_lem cfg p op (v ∷ tniac ∷ tnse ∷ []) s stored.full outside
            ∙ e
            ∙ last_of_all (before_last op v s)
                (last_byte (before_last op v s) w (handled bytes u (d.0, d.1, d.2, d.3) on ∙ h)),
        regs,
        out,
        dev,
        opts,
        refl,
        record { net = ok.net; dev = ok.dev },
      )
