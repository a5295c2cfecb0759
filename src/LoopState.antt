-- ===== src/LoopState.antt =====
-- What the main loop of library/src/main/jni/sercd.c works on: the states that the Java side is told of,
-- the results of the system calls of a round, and the variables of the main function.
use serial_port.Prelude.{
  ℕ, zero, suc, ◌-◌, ◌^◌, Bool, true, false, ◌&&◌, ◌||◌, Option, none, some, List, [], ◌∷◌, ◌==◌,
  ltb, if◌then◌else◌, length,
}
use serial_port.State.{State, Config}

-- `ProxyState` of library/src/main/jni/android.h
pub data ProxyState : Type 0 where
  state_ready state_connected state_port_opened state_stopped state_crashed : ProxyState

-- The `ssize_t` of a system call: -1 with an `errno` other than EWOULDBLOCK, -1 with EWOULDBLOCK, or
-- a count.
pub data IoBytes : Type 0 where
  failed : IoBytes
  would_block : IoBytes
  count : ℕ → IoBytes

pub data ReadResult : Type 0 where
  read_failed : ReadResult
  read_would_block : ReadResult
  read_bytes : List ℕ → ReadResult

abbrev pub iobytes : ReadResult → IoBytes
iobytes read_failed = failed
iobytes read_would_block = would_block
iobytes (read_bytes bs) = count (length bs)

unfoldable pub io_result_error : IoBytes → Bool
io_result_error failed = true
io_result_error would_block = false
io_result_error (count zero) = true
io_result_error (count (suc n)) = false

-- One value for each bit of `selret`: what is asked of `SercdSelect`, what is ready, what it returns.
pub record Events : Type 0 where
  pub device_in : Bool
  pub device_out : Bool
  pub socket_out : Bool
  pub socket_in : Bool
  pub socket_connect : Bool
  pub modem_state : Bool

-- The outside world during one round of the loop.
pub record Poll : Type 0 where
  pub select_failed : Bool
  pub ready : Events
  pub read_dev : ℕ → ReadResult
  pub write_dev : List ℕ → IoBytes
  pub write_net : List ℕ → IoBytes
  pub read_net : ℕ → ReadResult
  pub accept_fails : Bool

-- The variables of `main` beside those of `State`: which of the pointers `DeviceFd`, `InSocketFd`,
-- `OutSocketFd` and `LSocketFd` are set, and the calls of `changeState`, the last one first.
pub record Main (P : Type 0) : Type 0 where
  pub st : State P
  pub device_fd : Bool
  pub in_socket_fd : Bool
  pub out_socket_fd : Bool
  pub l_socket_fd : Bool
  pub notified : List ProxyState

-- What a part of the loop's body comes to: the next part, `continue`, or a fault.
pub data Step (P : Type 0) : Type 0 where
  on : Main P → Step P
  continue : Main P → Step P
  fault : Step P

-- One round of `while (True)`.
pub data Turn (P : Type 0) : Type 0 where
  again : Main P → Turn P
  exit : ℕ → Main P → Turn P
  crash : Turn P

abbrev pub readbuf_size : ℕ
readbuf_size = 512

-- The macro `MIN`.
abbrev pub min_of : ℕ → ℕ → ℕ
min_of x y = if ltb y x then y else x

-- `SercdSelect` reports what was asked for and is ready.
abbrev pub sercd_select : Events → Events → Events
sercd_select asked ready = record {
  device_in = asked.device_in && ready.device_in;
  device_out = asked.device_out && ready.device_out;
  socket_out = asked.socket_out && ready.socket_out;
  socket_in = asked.socket_in && ready.socket_in;
  socket_connect = asked.socket_connect && ready.socket_connect;
  modem_state = asked.modem_state && ready.modem_state;
}

abbrev pub any_event : Events → Bool
any_event ev =
    ev.device_in
    || (ev.device_out || (ev.socket_out || (ev.socket_in || (ev.socket_connect || ev.modem_state))))

-- The bytes that `for (i = 0; i < iobytes; i++)` goes over. `i` is unsigned: where `ssize_t` is no
-- wider, -1 counts as 2^32 - 1 and the loop leaves `readbuf`.
abbrev pub received : Config → ReadResult → Option (List ℕ)
received cfg read_failed = none
received cfg read_would_block = if cfg.sizeof_ulong == 4 then none else some []
received cfg (read_bytes bs) = some bs

-- `iobytes` as the `unsigned int` that `BufferPopBytes` takes.
abbrev pub popped : IoBytes → ℕ
popped failed = 2 ^ 32 - 1
popped would_block = 2 ^ 32 - 1
popped (count n) = n

abbrev pub modmask_nodelta : ℕ
modmask_nodelta = 240

module _ {P : Type 0} where
  infixl 5 ◌>>>◌
  abbrev pub ◌>>>◌ : (Main P → Step P) → (Main P → Step P) → Main P → Step P
  ◌>>>◌ f g m = elim (f m) [ on m' ↦ g m' | continue m' ↦ continue m' | fault ↦ fault ]

  abbrev pub change_state : ProxyState → Main P → Main P
  change_state new m = record m { notified = new ∷ m.notified }

  -- The state that a program over `State` leaves, or its fault.
  abbrev pub with_state : Main P → Option (State P) → Step P
  with_state m none = fault
  with_state m (some s) = on (record m { st = s })

  abbrev pub disconnected : Main P → Main P
  disconnected m = record m { device_fd = false; in_socket_fd = false; out_socket_fd = false }

  abbrev pub connected : Main P → Main P
  connected m = record (change_state state_connected m) {
    in_socket_fd = true;
    out_socket_fd = true;
  }
