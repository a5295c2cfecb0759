-- ===== src/Select/Descriptors.antt =====
-- `SercdSelect` of library/src/main/jni/unix.c over sets of descriptors: what it asks `select` for, and the bits
-- of its result. A descriptor is a number; a pointer to one is `none` where it is null. `select` and
-- the two readings of the clock are given.
use serial_port.Prelude.{
  ℕ, ◌+◌, Bool, true, false, not, ◌||◌, Option, none, some, List, [], ◌∷◌, ◌==◌, ltb, if◌then◌else◌,
  bit_and, ◌>>◌,
}
use Prim.Native.Nat.{bit_or}
use serial_port.Select.{TimeVal, select_timeout, modem_due}
use serial_port.Send.{max_of}
use serial_port.LoopState.{Events}

abbrev pub sercd_ev_devicein : ℕ
sercd_ev_devicein = 1

abbrev pub sercd_ev_deviceout : ℕ
sercd_ev_deviceout = 2

abbrev pub sercd_ev_socketout : ℕ
sercd_ev_socketout = 4

abbrev pub sercd_ev_socketin : ℕ
sercd_ev_socketin = 8

abbrev pub sercd_ev_socketconnect : ℕ
sercd_ev_socketconnect = 16

abbrev pub sercd_ev_modemstate : ℕ
sercd_ev_modemstate = 32

-- The system's bound on the descriptors of a set, and its call of `select`: the number of descriptors,
-- the two sets and the timeout, to the two sets that are left.
pub record SelectCalls : Type 0 where
  pub fd_setsize : ℕ
  pub select : ℕ → List ℕ → List ℕ → TimeVal → Option (List ℕ × List ℕ)

-- The pointers that `SercdSelect` is given.
pub record Pointers : Type 0 where
  pub device_in : Option ℕ
  pub device_out : Option ℕ
  pub modem_state : Option ℕ
  pub socket_out : Option ℕ
  pub socket_in : Option ℕ
  pub socket_connect : Option ℕ

-- `InFdSet`, `OutFdSet`, and `highest_fd + 1`.
pub record FdSets : Type 0 where
  pub in_fd_set : List ℕ
  pub out_fd_set : List ℕ
  pub nfds : ℕ

-- `FD_ISSET`
abbrev pub fd_isset : ℕ → List ℕ → Bool
fd_isset fd [] = false
fd_isset fd (x ∷ xs) = fd == x || fd_isset fd xs

-- `P && FD_ISSET(*P, &set)`
abbrev pub reported : Option ℕ → List ℕ → Bool
reported none fds = false
reported (some fd) fds = fd_isset fd fds

abbrev pub is_set : Option ℕ → Bool
is_set none = false
is_set (some fd) = true

-- `if (b) ret |= bit;`
abbrev pub or_if : Bool → ℕ → ℕ → ℕ
or_if b bit ret = if b then bit_or ret bit else ret

unfoldable pub socket_bits : Pointers → List ℕ → List ℕ → ℕ
socket_bits p ins outs =
    let ret = or_if (reported p.device_in ins) sercd_ev_devicein 0 in
    let ret1 = or_if (reported p.device_out outs) sercd_ev_deviceout ret in
    let ret2 = or_if (reported p.socket_out outs) sercd_ev_socketout ret1 in
    let ret3 = or_if (reported p.socket_in ins) sercd_ev_socketin ret2 in
    or_if (reported p.socket_connect ins) sercd_ev_socketconnect ret3

-- A fault, -1, or the events with `LastPoll` as it is then.
pub data Selected : Type 0 where
  selected_fault : Selected
  selected_failed : Selected
  selected_events : ℕ → TimeVal → Selected

-- The two readings of the clock.
pub record Clock : Type 0 where
  pub now : TimeVal
  pub after : TimeVal

unfoldable pub with_modem_state : ℕ → Clock → TimeVal → Pointers → ℕ → Selected
unfolding modem_due
with_modem_state poll_interval clock last_poll p ret =
    if is_set p.modem_state
    then (let (due, last) = modem_due poll_interval last_poll clock.now clock.after in
        selected_events (or_if due sercd_ev_modemstate ret) last)
    else selected_events ret last_poll

module _ (sys : SelectCalls) where
  -- The descriptor of a pointer that is set goes into a set. One beyond the set's size is a store outside
  -- of it.
  abbrev pub ask_in : Option ℕ → FdSets → Option FdSets
  ask_in none s = some s
  ask_in (some fd) s =
      if ltb fd sys.fd_setsize
      then some (record s { in_fd_set = fd ∷ s.in_fd_set; nfds = max_of s.nfds (fd + 1) })
      else none

  abbrev pub ask_out : Option ℕ → FdSets → Option FdSets
  ask_out none s = some s
  ask_out (some fd) s =
      if ltb fd sys.fd_setsize
      then some (record s { out_fd_set = fd ∷ s.out_fd_set; nfds = max_of s.nfds (fd + 1) })
      else none

  unfoldable pub ask : Pointers → Option FdSets
  ask p =
      (ask_in p.device_in
          >> (ask_out p.device_out
              >> (ask_out p.socket_out >> (ask_in p.socket_in >> ask_in p.socket_connect))))
        (record { in_fd_set = []; out_fd_set = []; nfds = 0 })

  unfoldable pub select_events : ℕ → Clock → TimeVal → Pointers → Selected
  unfolding ask socket_bits with_modem_state
  select_events poll_interval clock last_poll p = elim (ask p) [
    | none ↦ selected_fault
    | some s ↦ elim (sys.select s.nfds s.in_fd_set s.out_fd_set (select_timeout poll_interval)) [
      | none ↦ selected_failed
      | some (ins, outs) ↦ with_modem_state poll_interval clock last_poll p (socket_bits p ins outs)
    ]
  ]

-- `selret & bit`, of the main function.
abbrev pub has_event : ℕ → ℕ → Bool
has_event ret bit = not (bit_and ret bit == 0)

abbrev pub events_of : ℕ → Events
events_of ret = record {
  device_in = has_event ret sercd_ev_devicein;
  device_out = has_event ret sercd_ev_deviceout;
  socket_out = has_event ret sercd_ev_socketout;
  socket_in = has_event ret sercd_ev_socketin;
  socket_connect = has_event ret sercd_ev_socketconnect;
  modem_state = has_event ret sercd_ev_modemstate;
}

-- The descriptors that the main function has.
pub record Descriptors : Type 0 where
  pub device : ℕ
  pub in_socket : ℕ
  pub out_socket : ℕ
  pub l_socket : ℕ

-- `if (b) P = Fd;` after `P = NULL;`
abbrev pub pointer : Bool → ℕ → Option ℕ
pointer b fd = if b then some fd else none

unfoldable pub pointers_of : Events → Descriptors → Pointers
pointers_of asked fds = record {
  device_in = pointer asked.device_in fds.device;
  device_out = pointer asked.device_out fds.device;
  modem_state = pointer asked.modem_state fds.device;
  socket_out = pointer asked.socket_out fds.out_socket;
  socket_in = pointer asked.socket_in fds.in_socket;
  socket_connect = pointer asked.socket_connect fds.l_socket;
}
