-- ===== src/Redirect/Size.antt =====
-- The command that is being collected in `IACCommand` of library/src/main/jni/sercd.c: its array and
-- how far its collection is.
use serial_port.Prelude.{
  ℕ, zero, suc, ◌+◌, ◌≤◌, ◌<◌, ◌≡◌, ◌≢◌, ◌∙◌, true, ◌||◌, some, List, [], ◌∷◌, arith, length, drop,
  get_or, set, ◌==◌, ltb, if◌then◌else◌, length-set, get_or-set_ne,
}
use serial_port.Telnet.{
  tnsb, tncas_signature, tncas_set_baudrate, tncas_flowcontrol_suspend, tncas_flowcontrol_resume,
}
use serial_port.State.{State, IacState, iac_normal, iac_received, iac_com_receiving, tmp_str_len}
use serial_port.Cpc.{has_nul}
use serial_port.Redirect.{collect}

-- The position that a command under collection stays below.
abbrev pub bound : List ℕ → ℕ → ℕ
bound command pos =
    if get_or command 1 0 == tnsb
    then (if ltb pos 4
        then 4
        else if get_or command 3 0 == tncas_signature
        then 256
        else if get_or command 3 0 == tncas_set_baudrate
        then 10
        else if get_or command 3 0 == tncas_flowcontrol_suspend
            || get_or command 3 0 == tncas_flowcontrol_resume
        then 6
        else 7)
    else 3

-- The array has its size, and its last cell has not been written.
pub record Stored (command : List ℕ) : Type 0 where
  pub full : length command ≡ tmp_str_len
  pub nul : get_or command 254 0 ≡ 0

pub record InProgress (command : List ℕ) (pos : ℕ) : Type 0 where
  pub begun : 2 ≤ pos
  pub below : pos < bound command pos

-- The size of the command under collection, and 1 where there is none.
abbrev pub gauge_of : IacState → ℕ → ℕ
gauge_of iac_com_receiving pos = pos
gauge_of iac_normal pos = 1
gauge_of iac_received pos = 1

abbrev pub gauge : {P : Type 0} → State P → ℕ
gauge s = gauge_of s.iac_escape s.iac_pos

module _ {P : Type 0} where
  pub record CommandValid (s : State P) : Type 0 where
    pub stored : Stored s.iac_command
    pub progress : s.iac_escape ≡ iac_com_receiving → InProgress s.iac_command s.iac_pos

-- A command whose last cell is zero has a NUL from index 4 on.
has_nul-drop :
    (n i : ℕ) (xs : List ℕ) → n ≤ i → i < length xs → get_or xs i 0 ≡ 0 → has_nul (drop n xs) ≡ true
has_nul-drop n i [] le lt e = absurd (omega arith)
has_nul-drop (suc n) zero (x ∷ xs) le lt e = absurd (omega arith)
has_nul-drop (suc n) (suc i) (x ∷ xs) le lt e = has_nul-drop n i xs (omega arith) (omega arith) e
has_nul-drop zero zero (x ∷ xs) le lt e = rw e
has_nul-drop zero (suc i) (x ∷ xs) le lt e =
    ground (arith, has_nul-drop zero i xs (omega arith) (omega arith) e)

pub Stored-has_nul : {command : List ℕ} → Stored command → has_nul (drop 4 command) ≡ true
Stored-has_nul {command} h = has_nul-drop 4 254 command (omega arith) (omega (arith, h.full)) h.nul

pub Stored-set :
    {command : List ℕ} (pos c : ℕ) → pos < 254 → Stored command → Stored (set command pos c)
Stored-set {command} pos c lt h = record {
  full = length-set command pos c ∙ h.full;
  nul = get_or-set_ne command pos 254 c 0 (omega arith) ∙ h.nul;
}

-- The cells that decide the kind of a command are not written again once they are there.
pub kind-set :
    (command : List ℕ) (pos c : ℕ)
    → 2 ≤ pos
    → (get_or (set command pos c) 1 0 ≡ get_or command 1 0)
      × (pos ≢ 3 → get_or (set command pos c) 3 0 ≡ get_or command 3 0)
kind-set command pos c le =
    (get_or-set_ne command pos 1 c 0 (omega arith), λ ne. get_or-set_ne command pos 3 c 0 ne)

module _ {P : Type 0} where
  abbrev pub collected : ℕ → State P → State P
  collected c s = record s { iac_command = set s.iac_command s.iac_pos c; iac_pos = s.iac_pos + 1 }

  pub collect_defined : (c : ℕ) (s : State P) → s.iac_pos < 255 → collect c s ≡ some (collected c s)
  unfolding collect
  collect_defined c s lt = ground arith
