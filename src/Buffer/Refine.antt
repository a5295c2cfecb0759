-- ===== src/Buffer/Refine.antt =====
-- The buffer of library/src/main/jni/sercd.c as a bounded queue: what it holds, and its operations on
-- that.
use serial_port.Prelude.{
  ℕ, zero, suc, ◌+◌, ◌-◌, ◌%◌, ◌↔◌, ◌⊎◌, inl, inr, ◌≤◌, ◌<◌, ◌≡◌, ap, ap₂, ◌∙◌, List, [], ◌∷◌, ◌++◌,
  true, Option, none, some, arith, length, ltb, if◌then◌else◌, get_or, set, get_or-set_self,
}
use serial_port.Buffer.{
  Buffer, buffer_length, is_buffer_empty, buffer_size, add_to_buffer, get_from_buffer,
}
use serial_port.Buffer.Validity.{
  IsValid, buffer_length_exact, buffer_length-lt, room-add-length, add_to_buffer-IsValid,
}
use serial_port.Buffer.Window.{window, length-window, window-add, window-set}

abbrev pub contents : Buffer → List ℕ
contents b = window b.cells b.rd_pos (buffer_length b)

pub length-contents : (b : Buffer) → length (contents b) ≡ buffer_length b
length-contents b = length-window b.cells b.rd_pos (buffer_length b)

-- What `AddToBuffer` has done.
pub record Added (c : ℕ) (b b' : Buffer) : Type 0 where
  pub valid : IsValid b'
  pub one_more : buffer_length b' ≡ buffer_length b + 1
  pub at_end : contents b' ≡ contents b ++ (c ∷ [])

abbrev written : ℕ → Buffer → Buffer
written c b = record b { cells = set b.cells b.wr_pos c; wr_pos = (b.wr_pos + 1) % buffer_size }

module _ (c : ℕ) {b : Buffer} (v : IsValid b) (room : buffer_length b < 2047) where
  add_to_buffer_defined : add_to_buffer c b ≡ some (written c b)
  unfolding add_to_buffer
  add_to_buffer_defined = ground (arith, room-add-length v)

  length-written : buffer_length (written c b) ≡ buffer_length b + 1
  unfolding buffer_length
  length-written = omega arith

  contents-written : contents (written c b) ≡ contents b ++ (c ∷ [])
  contents-written =
      ap (window (written c b).cells b.rd_pos) length-written
      ∙ window-add (written c b).cells b.rd_pos (buffer_length b) 1 v.rd_in
      ∙ ap₂ ◌++◌
          (window-set b.cells b.rd_pos (buffer_length b) b.wr_pos c v.rd_in v.wr_in
            (omega (arith, buffer_length_exact v, buffer_length-lt v)))
          (ap (λ x. x ∷ [])
            (ap (λ k. get_or (written c b).cells k 0) (buffer_length_exact v)
              ∙ get_or-set_self b.cells b.wr_pos c 0 (omega arith)))

  -- With room left, `AddToBuffer` passes its `assert` and puts the byte at the end of what the buffer
  -- holds.
  pub add_to_buffer-Added : (b' : Buffer) × (add_to_buffer c b ≡ some b') × Added c b b'
  add_to_buffer-Added = (
    written c b,
    add_to_buffer_defined,
    record {
      valid = add_to_buffer-IsValid c v add_to_buffer_defined;
      one_more = length-written;
      at_end = contents-written;
    },
  )

pub add_to_buffer_full :
    (c : ℕ) {b : Buffer} → IsValid b → 2047 ≤ buffer_length b → add_to_buffer c b ≡ none
unfolding add_to_buffer
add_to_buffer_full c v full = ground (arith, room-add-length v)

-- A bounded first-in first-out queue.
abbrev pub enqueue : ℕ → ℕ → List ℕ → Option (List ℕ)
enqueue capacity c q = if ltb (length q) capacity then some (q ++ (c ∷ [])) else none

abbrev pub map_contents : Option Buffer → Option (List ℕ)
map_contents none = none
map_contents (some b) = some (contents b)

lt_or_ge : (n m : ℕ) → (n < m) ⊎ (m ≤ n)
lt_or_ge n m = grind arith

-- On a valid buffer `AddToBuffer` is the insertion into a queue of at most 2047 bytes: it appends
-- the byte to what the buffer holds, and fails its `assert` exactly when 2047 bytes are there.
pub add_to_buffer_refines :
    (c : ℕ) (b : Buffer)
    → IsValid b
    → map_contents (add_to_buffer c b) ≡ enqueue 2047 c (contents b)
add_to_buffer_refines c b v = elim (lt_or_ge (buffer_length b) 2047) [
  | inl room ↦
      let (b', e, a) = add_to_buffer-Added c v room in
      rw e (rw a.at_end (ground (arith, length-contents b)))
  | inr full ↦ rw (add_to_buffer_full c v full) (ground (arith, length-contents b))
]

window-zero : (cells : List ℕ) (h : ℕ) {n : ℕ} → n ≡ 0 → window cells h n ≡ []
window-zero cells h e = ap (window cells h) e

-- `IsBufferEmpty` holds of a buffer exactly when it holds no byte.
pub is_buffer_empty_iff : (b : Buffer) → (is_buffer_empty b ≡ true) ↔ (contents b ≡ [])
unfolding is_buffer_empty
is_buffer_empty_iff b = (
  λ e. window-zero b.cells b.rd_pos (ground arith),
  λ e. ground (arith, length-contents b, ap length e),
)

window-eq-cons :
    (cells : List ℕ) (h n x : ℕ) (q : List ℕ)
    → window cells h n ≡ x ∷ q
    → (get_or cells h 0 ≡ x) × (window cells ((h + 1) % buffer_size) (n - 1) ≡ q)
window-eq-cons cells h zero x q e = cc
window-eq-cons cells h (suc n) x q e =
    (cc, ap (window cells ((h + 1) % buffer_size)) (omega arith) ∙ tail_eq)
  where
    tail_eq : window cells ((h + 1) % buffer_size) n ≡ q
    tail_eq = cc

shorter :
    (b : Buffer) (x : ℕ) (q : List ℕ)
    → IsValid b
    → contents b ≡ x ∷ q
    → buffer_length (get_from_buffer b).1 ≡ buffer_length b - 1
unfolding buffer_length get_from_buffer
shorter b x q v e = omega (arith, length-contents b, ap length e)

-- `GetFromBuffer` on a valid buffer that is not empty returns the oldest byte and leaves the others.
pub get_from_buffer_refines :
    (b : Buffer) (x : ℕ) (q : List ℕ)
    → IsValid b
    → contents b ≡ x ∷ q
    → ((get_from_buffer b).0 ≡ x) × (contents (get_from_buffer b).1 ≡ q)
unfolding get_from_buffer
get_from_buffer_refines b x q v e =
    let (front, rest) = window-eq-cons b.cells b.rd_pos (buffer_length b) x q e in
    (front, ap₂ (window b.cells) (omega arith) (shorter b x q v e) ∙ rest)
