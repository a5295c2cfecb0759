-- ===== src/Buffer/Validity.antt =====
-- The representation invariant of a buffer, and what its length and room are in plain arithmetic.
use serial_port.Prelude.{ℕ, ◌+◌, ◌%◌, ◌<◌, ◌≡◌, some, arith, length, length-set}
use serial_port.Buffer.{
  Buffer, buffer_length, buffer_room_left, buffer_size, init_buffer, add_to_buffer, get_from_buffer,
  buffer_pop_bytes,
}

pub record IsValid (b : Buffer) : Type 0 where
  pub storage : length b.cells ≡ buffer_size
  pub rd_in : b.rd_pos < buffer_size
  pub wr_in : b.wr_pos < buffer_size

module _ {b : Buffer} (v : IsValid b) where
  pub buffer_length_exact : (b.rd_pos + buffer_length b) % buffer_size ≡ b.wr_pos
  unfolding buffer_length
  buffer_length_exact = omega arith

  pub buffer_length-lt : buffer_length b < buffer_size
  unfolding buffer_length
  buffer_length-lt = omega arith

  pub room-add-length : buffer_room_left b + buffer_length b ≡ 2047
  unfolding buffer_room_left
  room-add-length = omega (arith, buffer_length-lt)

pub init_buffer-IsValid : {b : Buffer} → IsValid b → IsValid (init_buffer b)
unfolding init_buffer
init_buffer-IsValid v = omega arith

pub add_to_buffer-IsValid :
    {b b' : Buffer} (c : ℕ) → IsValid b → add_to_buffer c b ≡ some b' → IsValid b'
unfolding add_to_buffer
add_to_buffer-IsValid {b} c v e = ground (arith, length-set b.cells b.wr_pos c)

pub get_from_buffer-IsValid : {b : Buffer} → IsValid b → IsValid (get_from_buffer b).1
unfolding get_from_buffer
get_from_buffer-IsValid v = omega arith

pub buffer_pop_bytes-IsValid : {b : Buffer} (n : ℕ) → IsValid b → IsValid (buffer_pop_bytes b n)
unfolding buffer_pop_bytes
buffer_pop_bytes-IsValid n v = omega arith
