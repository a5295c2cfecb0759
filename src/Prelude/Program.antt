-- ===== src/Prelude/Program.antt =====
-- Programs over a state. `none` is a fault: a failed `assert`, or an access outside of an array.
use mathlib.Core.Path.{◌≡◌}
use mathlib.Core.List.{List, [], ◌∷◌}
use mathlib.Core.Option.{Option, none, some}

abbrev pub Program : Type 0 → Type 0
Program S = S → Option S

module _ {S : Type 0} where
  abbrev pub skip : S → Option S
  skip s = some s

  -- One call after another, for `do` blocks.
  infixl 5 ◌>>◌
  abbrev pub ◌>>◌ : (S → Option S) → (S → Option S) → S → Option S
  ◌>>◌ f g s = elim (f s) [ none ↦ none | some t ↦ g t ]

  -- `for (i = 0; i < n; i++) body(xs[i]);`
  unfoldable pub for_each : {A : Type 0} → (A → S → Option S) → List A → S → Option S
  for_each body [] s = some s
  for_each body (x ∷ xs) s = elim (body x s) [ none ↦ none | some t ↦ for_each body xs t ]

  pub >>-some : (f g : S → Option S) (s : S) {t : S} → f s ≡ some t → (f >> g) s ≡ g t
  >>-some f g s e = rw (e, ◌>>◌)

  pub >>-none : (f g : S → Option S) (s : S) → f s ≡ none → (f >> g) s ≡ none
  >>-none f g s e = rw (e, ◌>>◌)
