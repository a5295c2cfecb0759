-- ===== src/Buffer/Window.antt =====
-- The bytes of a ring of 2048 cells from an index on, going round at the end.
use serial_port.Prelude.{
  ℕ, zero, suc, ◌+◌, ◌-◌, ◌%◌, ◌≤◌, ◌<◌, ◌≡◌, refl, ap, ap₂, ◌∙◌, List, [], ◌∷◌, ◌++◌, arith,
  length, get_or, set, take, drop, get_or-set_ne,
}
use serial_port.Buffer.{buffer_size}

abbrev pub window : List ℕ → ℕ → ℕ → List ℕ
window cells h zero = []
window cells h (suc n) = get_or cells h 0 ∷ window cells ((h + 1) % buffer_size) n

pub length-window : (cells : List ℕ) (h n : ℕ) → length (window cells h n) ≡ n
length-window cells h zero = refl
length-window cells h (suc n) = ap suc (length-window cells ((h + 1) % buffer_size) n)

pub window-add :
    (cells : List ℕ) (h m n : ℕ)
    → h < buffer_size
    → window cells h (m + n) ≡ window cells h m ++ window cells ((h + m) % buffer_size) n
window-add cells h zero n lt = ap₂ (window cells) (omega arith) (omega arith)
window-add cells h (suc m) n lt =
    ap (window cells h) {y = suc (m + n)} (omega arith)
    ∙ ap (λ r. get_or cells h 0 ∷ r)
        (window-add cells ((h + 1) % buffer_size) m n (omega arith)
          ∙ ap (λ k. window cells ((h + 1) % buffer_size) m ++ window cells k n)
              {y = (h + suc m) % buffer_size} (omega arith))

-- A write outside of a window leaves it as it is.
pub window-set :
    (cells : List ℕ) (h n i v : ℕ)
    → h < buffer_size
    → i < buffer_size
    → n ≤ (i + buffer_size - h) % buffer_size
    → window (set cells i v) h n ≡ window cells h n
window-set cells h zero i v hh hi le = refl
window-set cells h (suc n) i v hh hi le =
    ap₂ ◌∷◌ (get_or-set_ne cells i h v 0 (omega arith))
      (window-set cells ((h + 1) % buffer_size) n i v (omega arith) hi (omega arith))

drop-cons :
    (cells : List ℕ) (h : ℕ)
    → h < length cells
    → drop h cells ≡ get_or cells h 0 ∷ drop (h + 1) cells
drop-cons [] h lt = absurd (omega arith)
drop-cons (x ∷ cells) zero lt = refl
drop-cons (x ∷ cells) (suc h) lt =
    drop-cons cells h (omega arith)
    ∙ ap (λ k. get_or cells h 0 ∷ drop k (x ∷ cells)) {x = suc (h + 1)} (omega arith)

-- A window that does not go round is a slice of the array.
pub window-eq-slice :
    (cells : List ℕ) (h n : ℕ)
    → length cells ≡ buffer_size
    → h + n ≤ buffer_size
    → window cells h n ≡ take n (drop h cells)
window-eq-slice cells h zero e le = refl
window-eq-slice cells h (suc zero) e le = rw (drop-cons cells h (omega arith)) refl
window-eq-slice cells h (suc (suc n)) e le = rw (drop-cons cells h (omega arith)) (
    ap (λ r. get_or cells h 0 ∷ r)
      (ap (λ k. window cells k (suc n)) (omega arith)
        ∙ window-eq-slice cells (h + 1) (suc n) e (omega arith)))
