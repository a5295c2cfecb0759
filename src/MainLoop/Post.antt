-- ===== src/MainLoop/Post.antt =====
-- What holds after a part of the loop's body: `Q` where the next part follows, `R` after `continue`,
-- `F` where it faults.
use serial_port.Prelude.{
  Bool, true, false, not, Option, none, some, if◌then◌else◌, ◌≡◌, refl, sym, subst,
}
use serial_port.State.{State}
use serial_port.LoopState.{Main, Step, on, continue, fault, ◌>>>◌, with_state}

module _ {P : Type 0} where
  pub data Post (Q R : Main P → Type 0) (F : Type 0) : Step P → Type 0 where
    goes_on : {m : Main P} → Q m → Post Q R F (on m)
    continues : {m : Main P} → R m → Post Q R F (continue m)
    faults : F → Post Q R F fault

  pub Post->>> :
      {O Q Q' R : Main P → Type 0} {F : Type 0} {f g : Main P → Step P}
      → ((m : Main P) → O m → Post Q R F (f m))
      → ((n : Main P) → Q n → Post Q' R F (g n))
      → (m : Main P) → O m
      → Post Q' R F ((f >>> g) m)
  Post->>> {O} {Q} {Q'} {R} {F} {f} {g} h k m v = go (f m) (h m v)
    where
      go :
          (x : Step P)
          → Post Q R F x
          → Post Q' R F
              (elim x as (λ _. Step P) [ on n ↦ g n | continue n ↦ continue n | fault ↦ fault ])
      go (on n) (goes_on q) = k n q
      go (continue n) (continues r) = continues r
      go fault (faults e) = faults e

  pub Post-if :
      {Q R : Main P → Type 0} {F : Type 0} {x y : Step P} (b : Bool)
      → (b ≡ true → Post Q R F x)
      → (b ≡ false → Post Q R F y)
      → Post Q R F (if b then x else y)
  Post-if true h k = h refl
  Post-if false h k = k refl

  pub Post-with_state :
      {Q R : Main P → Type 0} {F : Type 0} (m : Main P) (o : Option (State P))
      → ((s : State P) → o ≡ some s → Q (record m { st = s }))
      → (o ≡ none → F)
      → Post Q R F (with_state m o)
  Post-with_state m none h k = faults (k refl)
  Post-with_state m (some s) h k = goes_on (h s refl)

  pub Post-ran :
      {Q R : Main P → Type 0} {F : Type 0} (m : Main P) {o : Option (State P)} {s : State P}
      → o ≡ some s
      → Q (record m { st = s })
      → Post Q R F (with_state m o)
  Post-ran {Q} {R} {F} m e q = subst (λ x. Post Q R F (with_state m x)) (sym e) (goes_on q)

  -- The tests in front of each transfer: the event, the descriptor, the result of the call.
  pub Post-transfer :
      {Q R : Main P → Type 0} {F : Type 0} (m : Main P) {x y : Step P}
      (event descriptor error : Bool)
      → Q m
      → (event ≡ true → descriptor ≡ false → F)
      → Post Q R F x
      → (event ≡ true → error ≡ false → Post Q R F y)
      → Post Q R F
          (if not event then on m else if not descriptor then fault else if error then x else y)
  Post-transfer m false descriptor error q f h k = goes_on q
  Post-transfer m true false error q f h k = faults (f refl refl)
  Post-transfer m true true true q f h k = h
  Post-transfer m true true false q f h k = k refl refl

  -- The same, with the descriptor set where the call is made.
  pub Post-guarded :
      {Q R : Main P → Type 0} {F : Type 0} (m : Main P) {x y : Step P}
      (event descriptor error : Bool)
      → Q m
      → F
      → (descriptor ≡ true → Post Q R F x)
      → (descriptor ≡ true → Post Q R F y)
      → Post Q R F
          (if not event then on m else if not descriptor then fault else if error then x else y)
  Post-guarded m false descriptor error q f h k = goes_on q
  Post-guarded m true false error q f h k = faults f
  Post-guarded m true true true q f h k = h refl
  Post-guarded m true true false q f h k = k refl
