-- ===== src/Buffer.antt =====
-- `BufferType` of library/src/main/jni/sercd.c: the byte ring that stands between the serial device
-- and the network, and its operations. A function that updates `*B` returns the new buffer; `none`
-- is a failed `assert`. The arithmetic is that of a 32-bit `unsigned int`.
pub mod Validity
pub mod Window
pub mod Refine
pub mod Chunks
use serial_port.Prelude.{
  ℕ, ◌+◌, ◌-◌, ◌%◌, ◌^◌, Bool, Option, none, some, List, leb, ◌==◌, if◌then◌else◌, get_or, set,
  take, drop,
}

abbrev pub buffer_size : ℕ
buffer_size = 2048

pub record Buffer : Type 0 where
  pub cells : List ℕ
  pub rd_pos : ℕ
  pub wr_pos : ℕ

abbrev pub add32 : ℕ → ℕ → ℕ
add32 a b = (a + b) % 2 ^ 32

abbrev pub sub32 : ℕ → ℕ → ℕ
sub32 a b = (a + 2 ^ 32 - b) % 2 ^ 32

unfoldable pub init_buffer : Buffer → Buffer
init_buffer b = record b { rd_pos = 0; wr_pos = 0 }

unfoldable pub buffer_length : Buffer → ℕ
buffer_length b = add32 (sub32 b.wr_pos b.rd_pos) buffer_size % buffer_size

unfoldable pub buffer_room_left : Buffer → ℕ
buffer_room_left b = sub32 (buffer_size - 1) (buffer_length b)

unfoldable pub buffer_has_room_for : Buffer → ℕ → Bool
buffer_has_room_for b x = leb x (buffer_room_left b)

unfoldable pub is_buffer_empty : Buffer → Bool
is_buffer_empty b = buffer_length b == 0

unfoldable pub add_to_buffer : ℕ → Buffer → Option Buffer
unfolding buffer_has_room_for buffer_room_left
add_to_buffer c b =
    if buffer_has_room_for b 1
    then some (record b { cells = set b.cells b.wr_pos c; wr_pos = add32 b.wr_pos 1 % buffer_size })
    else none

unfoldable pub get_from_buffer : Buffer → ℕ × Buffer
get_from_buffer b =
    (get_or b.cells b.rd_pos 0, record b { rd_pos = add32 b.rd_pos 1 % buffer_size })

-- the `*len` of `GetBufferString`
unfoldable pub string_length : Buffer → ℕ
string_length b =
    if leb b.rd_pos b.wr_pos then sub32 b.wr_pos b.rd_pos else sub32 buffer_size b.rd_pos

-- The bytes that the returned pointer and `*len` name.
unfoldable pub get_buffer_string : Buffer → List ℕ
get_buffer_string b = take (string_length b) (drop b.rd_pos b.cells)

unfoldable pub buffer_pop_bytes : Buffer → ℕ → Buffer
buffer_pop_bytes b len = record b { rd_pos = add32 b.rd_pos len % buffer_size }
