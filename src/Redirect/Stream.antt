-- ===== src/Redirect/Stream.antt =====
-- The data path of `EscRedirectChar` of library/src/main/jni/sercd.c, from bytes escaped by a peer to
-- the device.
use serial_port.Prelude.{
  ℕ, ◌+◌, ◌≤◌, ◌<◌, ◌≡◌, ◌≢◌, refl, sym, ap, subst, ◌∙◌, Bool, true, false, not, ◌&&◌, some, List,
  [], ◌∷◌, ◌++◌, append-nil, append_assoc, arith, length, ◌==◌, ==-cases, Bool-cases, ◌⊎◌, inl, inr,
  for_each, ◌>>◌, >>-some,
}
use serial_port.Telnet.{tniac, tn_transmit_binary}
use serial_port.Buffer.{buffer_length}
use serial_port.Buffer.Refine.{contents, add_to_buffer-Added}
use serial_port.State.{State, Port, Config, IacState, iac_normal, iac_received, add_dev}
use serial_port.State.Steps.{BuffersValid, add_dev_lem}
use serial_port.Send.Wire.{escape, escape_all, last_of}
use serial_port.Redirect.{
  redirect_normal, redirect_received, redirect_by, esc_redirect_char, set_redirect_last, set_escape,
}

module _ {P : Type 0} where
  abbrev pub receives_binary : State P → Bool
  receives_binary s = (s.tnstate tn_transmit_binary).is_do

  -- The data that went to the device between two states outside of any command.
  pub record Passed (bytes : List ℕ) (last : ℕ) (s t : State P) : Type 0 where
    pub valid : BuffersValid t
    pub appended : contents t.to_dev ≡ contents s.to_dev ++ bytes
    pub longer : buffer_length t.to_dev ≡ buffer_length s.to_dev + length bytes
    pub outside : t.iac_escape ≡ iac_normal
    pub options_kept : t.tnstate ≡ s.tnstate
    pub last_is : t.redirect_last ≡ last

module _ (cfg : Config) (p : Port) where
  open p use {Handle}

  -- One byte by the handler of the escape state.
  pub char_by :
      (c : ℕ) (s : State Handle) {e : IacState} {t : State Handle}
      → s.iac_escape ≡ e
      → redirect_by cfg p e c s ≡ some t
      → esc_redirect_char cfg p c s ≡ some (record t { redirect_last = c })
  unfolding esc_redirect_char
  char_by c s e h =
      >>-some (λ u. redirect_by cfg p u.iac_escape c u) (set_redirect_last c) s
        (ap (λ k. redirect_by cfg p k c s) e ∙ h)

  abbrev pub swallowed : ℕ → State Handle → Bool
  swallowed c s = not (receives_binary s) && (c == 0 && s.redirect_last == 13)

  plain :
      (c : ℕ) (s : State Handle)
      → c ≢ tniac
      → swallowed c s ≡ false
      → redirect_by cfg p iac_normal c s ≡ add_dev c s
  unfolding redirect_by redirect_normal
  plain c s ne keep = ground arith

  pad : (s : State Handle) → swallowed 0 s ≡ true → redirect_by cfg p iac_normal 0 s ≡ some s
  unfolding redirect_by redirect_normal
  pad s skip = rw skip

  iac_first :
      (s : State Handle)
      → redirect_by cfg p iac_normal tniac s ≡ some (record s { iac_escape = iac_received })
  unfolding redirect_by redirect_normal
  iac_first s = refl

  iac_second :
      (s : State Handle)
      → redirect_by cfg p iac_received tniac s ≡ (add_dev tniac >> set_escape iac_normal) s
  unfolding redirect_by redirect_received
  iac_second s = refl

  module _ (s : State Handle) (v : BuffersValid s) (o : s.iac_escape ≡ iac_normal)
      (room : buffer_length s.to_dev < 2047) where
    -- A byte that stands for itself.
    pub as_it_is :
        (c : ℕ)
        → c ≢ tniac
        → swallowed c s ≡ false
        → (t : State Handle) × (esc_redirect_char cfg p c s ≡ some t) × Passed (c ∷ []) c s t
    as_it_is c ne keep =
        let (b, e, a) = add_to_buffer-Added c v.dev room in
        (
          record s { to_dev = b; redirect_last = c },
          char_by c s o (plain c s ne keep ∙ add_dev_lem c s e),
          record {
            valid = record { net = v.net; dev = a.valid };
            appended = a.at_end;
            longer = a.one_more;
            outside = o;
            options_kept = refl;
            last_is = refl;
          },
        )

    doubled :
        (u t : State Handle) × (esc_redirect_char cfg p tniac s ≡ some u)
        × (esc_redirect_char cfg p tniac u ≡ some t)
        × Passed (tniac ∷ []) tniac s t
    doubled =
        let (b, e, a) = add_to_buffer-Added tniac v.dev room in
        let u : State Handle = record s { iac_escape = iac_received; redirect_last = tniac } in
        (
          u,
          record u { to_dev = b; iac_escape = iac_normal },
          char_by tniac s o (iac_first s),
          char_by tniac u refl (
              iac_second u
              ∙ >>-some (add_dev tniac) (set_escape iac_normal) u (add_dev_lem tniac u e)),
          record {
            valid = record { net = v.net; dev = a.valid };
            appended = a.at_end;
            longer = a.one_more;
            outside = refl;
            options_kept = refl;
            last_is = refl;
          },
        )

  -- The feeding of one data byte, in front of any other input.
  abbrev Fed : ℕ → List ℕ → State Handle → Type 0
  Fed c rest s =
      (t : State Handle) × (for_each (esc_redirect_char cfg p)
          (escape (receives_binary s) s.redirect_last c ++ rest) s
        ≡ for_each (esc_redirect_char cfg p) rest t)
      × Passed (c ∷ []) c s t

  feed :
      (c : ℕ) (rest : List ℕ) (s : State Handle)
      → BuffersValid s
      → s.iac_escape ≡ iac_normal
      → buffer_length s.to_dev < 2047
      → Fed c rest s
  unfolding for_each
  feed c rest s v o room = elim (==-cases c tniac) [
    | inl is ↦
        let (u, t, e, e', d) = doubled s v o room in
        (
          t,
          rw (is) (rw (e, for_each) (rw (e', for_each) refl)),
          subst (λ k. Passed (k ∷ []) k s t) (sym is) d,
        )
    | inr (ne, test) ↦ unmarked ne test (Bool-cases padded)
  ]
    where
      padded : Bool
      padded = not (c == 10) && (not (receives_binary s) && s.redirect_last == 13)

      unmarked :
          c ≢ tniac → (c == tniac) ≡ false → (padded ≡ true) ⊎ (padded ≡ false) → Fed c rest s
      unmarked ne test (inl yes_pad) =
          let u : State Handle = record s { redirect_last = 0 } in
          let (t, e, d) =
            as_it_is u (record { net = v.net; dev = v.dev }) o room c ne (ground arith) in
          (
            t,
            rw (test, yes_pad)
                (rw (char_by 0 s o (pad s (ground arith)), for_each) (rw (e, for_each) refl)),
            record {
              valid = d.valid;
              appended = d.appended;
              longer = d.longer;
              outside = d.outside;
              options_kept = d.options_kept;
              last_is = d.last_is;
            },
          )
      unmarked ne test (inr no_pad) =
          let (t, e, d) = as_it_is s v o room c ne (ground arith) in
          (t, rw (test, no_pad) (rw (e, for_each) refl), d)

  -- What a peer's `EscWriteChar` makes of any data, with the same view of binary mode and of the last
  -- byte, is passed to the device by `EscRedirectChar` as that data: outside of a command, with valid
  -- buffers and room for the data, no fault occurs, the data are appended to the device's buffer, and
  -- the parser is outside of a command again with the last data byte as its last byte.
  pub redirect-escape_all :
      (cs : List ℕ) (s : State Handle)
      → BuffersValid s
      → s.iac_escape ≡ iac_normal
      → buffer_length s.to_dev + length cs ≤ 2047
      → (t : State Handle) × (for_each
            (esc_redirect_char cfg p)
            (escape_all (receives_binary s) s.redirect_last cs)
            s
          ≡ some t)
        × Passed cs (last_of s.redirect_last cs) s t
  unfolding escape_all for_each
  redirect-escape_all [] s v o room = (
    s,
    refl,
    record {
      valid = v;
      appended = sym (append-nil (contents s.to_dev));
      longer = omega arith;
      outside = o;
      options_kept = refl;
      last_is = refl;
    },
  )
  redirect-escape_all (c ∷ cs) s v o room =
      let rest = escape_all (receives_binary s) c cs in
      let (t, e, d) = feed c rest s v o (omega arith) in
      let (u, e', d') = redirect-escape_all cs t d.valid d.outside (omega (arith, d.longer)) in
      (
        u,
        e
            ∙ ap (λ k. for_each (esc_redirect_char cfg p) k t)
                (λ i.
                  escape_all ((sym d.options_kept i) tn_transmit_binary).is_do (sym d.last_is i) cs)
            ∙ e',
        record {
          valid = d'.valid;
          appended =
              d'.appended
              ∙ ap (λ k. k ++ cs) d.appended
              ∙ append_assoc (contents s.to_dev) (c ∷ []) cs;
          longer = omega (arith, d'.longer, d.longer);
          outside = d'.outside;
          options_kept = d'.options_kept ∙ d.options_kept;
          last_is = d'.last_is ∙ ap (λ l. last_of l cs) d.last_is;
        },
      )
