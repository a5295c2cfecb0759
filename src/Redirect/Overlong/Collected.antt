-- ===== src/Redirect/Overlong/Collected.antt =====
-- What `EscRedirectChar` of library/src/main/jni/sercd.c holds while a signature is being collected.
use serial_port.Prelude.{
  ℕ, zero, suc, ◌+◌, ◌≤◌, ◌<◌, min, ◌≡◌, ◌≢◌, refl, sym, ap, ◌∙◌, false, some, List, [], ◌∷◌, arith,
  length, drop, get_or, set, ltb, if◌then◌else◌, length-set, get_or-set_self, get_or-set_ne, inl,
  inr, Bool-cases, ==-cases,
}
use serial_port.Telnet.{tniac, tnsb, tncom_port_option, tncas_signature}
use serial_port.State.{State, TnState, IacState, iac_com_receiving}
use serial_port.Cpc.{has_nul}
use serial_port.Redirect.{collect_if_room}
use serial_port.Redirect.Size.{collected}

pub get_or-drop : (n i : ℕ) (xs : List ℕ) → get_or (drop n xs) i 0 ≡ get_or xs (n + i) 0
get_or-drop zero i xs = ap (λ k. get_or xs k 0) (omega arith)
get_or-drop (suc n) i [] = refl
get_or-drop (suc n) i (x ∷ xs) =
    get_or-drop n i xs
    ∙ ap (λ k. get_or (x ∷ xs) k 0) (let e : suc (n + i) ≡ suc n + i = omega arith in e)

pub lt-drop : (n i : ℕ) (xs : List ℕ) → i < length (drop n xs) → n + i < length xs
lt-drop zero i xs lt = omega arith
lt-drop (suc n) i [] lt = absurd (omega arith)
lt-drop (suc n) i (x ∷ xs) lt = omega (arith, lt-drop n i xs lt)

pub no_nul : (xs : List ℕ) → ((i : ℕ) → i < length xs → get_or xs i 0 ≢ 0) → has_nul xs ≡ false
no_nul [] h = refl
no_nul (x ∷ xs) h =
    let rest = no_nul xs (λ i lt. h (suc i) (omega arith)) in
    ground (arith, rest, h 0 (omega arith))

-- The bytes of a signature: neither NUL nor IAC.
abbrev pub Text : List ℕ → Type 0
Text [] = Unit {0}
Text (c ∷ cs) = (c ≢ 0) × (c ≢ tniac) × Text cs

-- A signature is being collected, and every byte so far is other than NUL.
pub record Collecting {P : Type 0} (tn : ℕ → TnState) (sig : IacState) (s : State P) : Type 0 where
  pub full : length s.iac_command ≡ 255
  pub inside : s.iac_escape ≡ iac_com_receiving
  pub plain : s.iac_sig_escape ≡ sig
  pub begun : 4 ≤ s.iac_pos
  pub bounded : s.iac_pos ≤ 255
  pub suboption : get_or s.iac_command 1 0 ≡ tnsb
  pub option : get_or s.iac_command 2 0 ≡ tncom_port_option
  pub command : get_or s.iac_command 3 0 ≡ tncas_signature
  pub filled : (i : ℕ) → 4 ≤ i → i < s.iac_pos → get_or s.iac_command i 0 ≢ 0
  pub options : s.tnstate ≡ tn

module _ {P : Type 0} where
  -- What is left when a byte is collected if there is room.
  abbrev pub taken : ℕ → State P → State P
  taken c s = if ltb s.iac_pos 255 then collected c s else s

  pub taken_lem : (c : ℕ) (s : State P) → collect_if_room c s ≡ some (taken c s)
  unfolding collect_if_room
  taken_lem c s = elim (Bool-cases (ltb s.iac_pos 255)) [
    | inl lt ↦ rw lt refl
    | inr full ↦ rw full refl
  ]

  collected-Collecting :
      {tn : ℕ → TnState} {sig : IacState} (c : ℕ) (s : State P)
      → c ≢ 0
      → s.iac_pos < 255
      → Collecting tn sig s
      → Collecting tn sig (collected c s)
  collected-Collecting c s nz lt v = record {
    full = length-set s.iac_command s.iac_pos c ∙ v.full;
    inside = v.inside;
    plain = v.plain;
    begun = omega (arith, v.begun);
    bounded = omega arith;
    suboption = get_or-set_ne s.iac_command s.iac_pos 1 c 0 (omega (arith, v.begun)) ∙ v.suboption;
    option = get_or-set_ne s.iac_command s.iac_pos 2 c 0 (omega (arith, v.begun)) ∙ v.option;
    command = get_or-set_ne s.iac_command s.iac_pos 3 c 0 (omega (arith, v.begun)) ∙ v.command;
    filled = λ i le lt'. elim (==-cases i s.iac_pos) [
      | inl here ↦ λ e. nz (
          sym (get_or-set_self s.iac_command s.iac_pos c 0 (omega (arith, v.full)))
          ∙ ap (λ k. get_or (set s.iac_command s.iac_pos c) k 0) (sym here)
          ∙ e)
      | inr (ne, test) ↦ λ e.
          v.filled i le (omega arith)
            (sym (get_or-set_ne s.iac_command s.iac_pos i c 0 (λ k. ne (sym k))) ∙ e)
    ];
    options = v.options;
  }

  pub taken-Collecting :
      {tn : ℕ → TnState} {sig : IacState} (c : ℕ) (s : State P)
      → c ≢ 0
      → Collecting tn sig s
      → Collecting tn sig (taken c s) × ((taken c s).iac_pos ≡ min 255 (s.iac_pos + 1))
  taken-Collecting {tn} c s nz v = elim (Bool-cases (ltb s.iac_pos 255)) [
    | inl lt ↦ rw lt ((collected-Collecting c s nz (ground arith) v, ground arith))
    | inr full ↦ rw full ((v, ground (arith, v.bounded)))
  ]
