-- ===== src/Buffer/Chunks.antt =====
-- Draining a buffer by contiguous slices: what `GetBufferString` names and `BufferPopBytes` removes.
use serial_port.Prelude.{
  length-append, length-take, ℕ, zero, suc, ◌+◌, ◌-◌, ◌%◌, ◌^◌, ◌≤◌, ◌<◌, ◌≡◌, refl, sym, get_or,
  ap, ap₂, ◌∙◌, List, [], ◌∷◌, ◌++◌, arith, length, take,
}
use serial_port.Buffer.{
  Buffer, buffer_length, buffer_size, string_length, get_buffer_string, buffer_pop_bytes,
}
use serial_port.Buffer.Validity.{IsValid}
use serial_port.Buffer.Window.{window, length-window, window-add, window-eq-slice}
use serial_port.Buffer.Refine.{length-contents, contents}

string_length-le :
    {b : Buffer}
    → IsValid b
    → (string_length b ≤ buffer_length b) × (b.rd_pos + string_length b ≤ buffer_size)
unfolding string_length buffer_length
string_length-le v = ground arith

string_length_pos : {b : Buffer} → IsValid b → 0 < buffer_length b → 0 < string_length b
unfolding string_length buffer_length
string_length_pos v h = ground arith

buffer_length-pop :
    {b : Buffer} (n : ℕ)
    → IsValid b
    → n ≤ buffer_length b
    → buffer_length (buffer_pop_bytes b n) + n ≡ buffer_length b
unfolding buffer_length buffer_pop_bytes
buffer_length-pop n v le = omega arith

get_buffer_string-window :
    (b : Buffer) → IsValid b → get_buffer_string b ≡ window b.cells b.rd_pos (string_length b)
unfolding get_buffer_string
get_buffer_string-window b v =
    sym (window-eq-slice b.cells b.rd_pos (string_length b) v.storage (string_length-le v).1)

take-window : (cells : List ℕ) (h m n : ℕ) → m ≤ n → take m (window cells h n) ≡ window cells h m
take-window cells h zero n le = refl
take-window cells h (suc m) zero le = absurd (omega arith)
take-window cells h (suc m) (suc n) le =
    ap (λ r. get_or cells h 0 ∷ r) (take-window cells ((h + 1) % buffer_size) m n (omega arith))

twice :
    (b : Buffer)
    → IsValid b
    → let b' = buffer_pop_bytes b (string_length b) in
      buffer_length (buffer_pop_bytes b' (string_length b')) ≡ 0
unfolding buffer_pop_bytes string_length buffer_length
twice b v = ground arith

-- A partial write takes exactly the bytes that it was given from the front: when `n` bytes of the
-- string that `GetBufferString` names are written and popped, those `n` bytes followed by what the
-- buffer still holds are what it held before. The string is not empty unless the buffer is.
pub pop_written :
    (b : Buffer) (n : ℕ)
    → IsValid b
    → n ≤ length (get_buffer_string b)
    → (take n (get_buffer_string b) ++ contents (buffer_pop_bytes b n) ≡ contents b)
      × (get_buffer_string b ≡ [] → contents b ≡ [])
unfolding buffer_pop_bytes
pop_written b n v le = (
  ap₂ ◌++◌ front (ap₂ (window b.cells) (omega arith) refl)
      ∙ sym (window-add b.cells b.rd_pos n (buffer_length (buffer_pop_bytes b n)) v.rd_in)
      ∙ ap (window b.cells b.rd_pos) (omega (arith, buffer_length-pop n v n_le)),
  λ e. ap (window b.cells b.rd_pos) {y = 0} (nothing e),
)
  where
    as_window : get_buffer_string b ≡ window b.cells b.rd_pos (string_length b)
    as_window = get_buffer_string-window b v

    n_le_string : n ≤ string_length b
    n_le_string =
        omega (arith, ap length as_window, length-window b.cells b.rd_pos (string_length b))

    n_le : n ≤ buffer_length b
    n_le = omega (arith, string_length-le v, n_le_string)

    front : take n (get_buffer_string b) ≡ window b.cells b.rd_pos n
    front = rw as_window (take-window b.cells b.rd_pos n (string_length b) n_le_string)

    nothing : get_buffer_string b ≡ [] → buffer_length b ≡ 0
    nothing e = grind (
      arith,
      ap length e,
      ap length as_window,
      length-window b.cells b.rd_pos (string_length b),
      string_length_pos v,
    )

-- What a partial write leaves.
pub buffer_length-pop_written :
    (b : Buffer) (n : ℕ)
    → IsValid b
    → n ≤ length (get_buffer_string b)
    → buffer_length (buffer_pop_bytes b n) + n ≡ buffer_length b
buffer_length-pop_written b n v le = omega (
  arith,
  ap length (pop_written b n v le).0,
  length-append (take n (get_buffer_string b)) (contents (buffer_pop_bytes b n)),
  length-take n (get_buffer_string b),
  length-contents b,
  length-contents (buffer_pop_bytes b n),
)

-- Two rounds of popping the whole string that `GetBufferString` names empty any valid buffer, also one
-- whose bytes go round the end of the storage.
pub pop_all_twice :
    (b : Buffer)
    → IsValid b
    → let b' = buffer_pop_bytes b (string_length b) in
      contents (buffer_pop_bytes b' (string_length b')) ≡ []
pop_all_twice b v = ap (window _ _) {y = 0} (twice b v)

one_more :
    (b : Buffer)
    → IsValid b
    → buffer_length b < 2047
    → buffer_length (buffer_pop_bytes b (2 ^ 32 - 1)) ≡ suc (buffer_length b)
unfolding buffer_pop_bytes buffer_length
one_more b v room = omega arith

-- `BufferPopBytes` with -1 as an `unsigned int`: unless the buffer is full, it holds the cell in front
-- of its contents once more.
pub pop_minus_one :
    (b : Buffer)
    → IsValid b
    → buffer_length b < 2047
    → contents (buffer_pop_bytes b (2 ^ 32 - 1))
      ≡ get_or b.cells ((b.rd_pos + 2047) % buffer_size) 0 ∷ contents b
unfolding buffer_pop_bytes
pop_minus_one b v room =
    ap₂ (window b.cells) (omega arith) (one_more b v room)
    ∙ ap
        (λ k.
          get_or b.cells ((b.rd_pos + 2047) % buffer_size) 0 ∷ window b.cells k (buffer_length b))
        (omega arith)
