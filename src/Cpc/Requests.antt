-- ===== src/Cpc/Requests.antt =====
-- The requests of RFC 2217 that `HandleCPCCommand` of library/src/main/jni/sercd.c takes: what each of them
-- changes, and what it is answered.
use serial_port.Prelude.{
  zero, suc, ◌-◌, ◌/◌, ◌%◌, replicate, ℕ, ◌+◌, ◌*◌, ◌≤◌, ◌&&◌, Bool, true, false, ◌||◌, List, [],
  ◌∷◌, ◌++◌, length, take, ◌==◌, if◌then◌else◌, get_or, bit_and,
}
use serial_port.State.{Port, Config}
use serial_port.State.Steps.{Registers}
use serial_port.Send.Wire.{escape, escape_all, last_of}

-- The commands of a client, which are 0 to 5 and 8 to 12 by their numbers in RFC 2217. An unknown one is without effect.
pub data Request : Type 0 where
  ask_signature tell_signature suspend resume unknown : Request
  set_baudrate set_datasize set_parity set_stopsize set_control : ℕ → Request
  set_linestate_mask set_modemstate_mask purge_data : ℕ → Request

-- The number that bytes are in network order, the first one being the highest, after `high`.
abbrev pub number_of : List ℕ → ℕ → ℕ
number_of [] high = high
number_of (b ∷ bs) high = number_of bs (high * 256 + b)

-- The last `k` digits of a number to the base 256, the highest one first, in front of `rest`.
abbrev pub digits : ℕ → ℕ → List ℕ → List ℕ
digits zero n rest = rest
digits (suc k) n rest = digits k (n / 256) (n % 256 ∷ rest)

-- A rate in an answer: four bytes in network order, and then zeros where `unsigned long` is longer.
abbrev pub rate_bytes : ℕ → ℕ → List ℕ
rate_bytes sizeof_ulong rate = digits 4 rate (replicate (sizeof_ulong - 4) 0)

-- The values of SET-CONTROL that ask for the flow control, for DTR, for RTS and for the inbound flow
-- control, by their numbers in RFC 2217.
abbrev pub asks_port : ℕ → Bool
asks_port n = n == 0 || (n == 7 || (n == 10 || n == 13))

-- Those that set an inbound flow control of its own: NONE, XON/XOFF and HARDWARE.
abbrev pub sets_inbound : ℕ → Bool
sets_inbound n = n == 14 || (n == 15 || n == 16)

abbrev pub request : List ℕ → ℕ → Request
request command csize =
    let op = get_or command 3 0 in
    let v = get_or command 4 0 in
    if op == 0
    then (if csize == 6 then ask_signature else tell_signature)
    else if op == 1
    then set_baudrate (
        number_of
          (get_or command 4 0 ∷ get_or command 5 0 ∷ get_or command 6 0 ∷ get_or command 7 0 ∷ [])
          0)
    else if op == 2
    then set_datasize v
    else if op == 3
    then set_parity v
    else if op == 4
    then set_stopsize v
    else if op == 5
    then set_control v
    else if op == 10
    then set_linestate_mask v
    else if op == 11
    then set_modemstate_mask v
    else if op == 12
    then purge_data v
    else if op == 8
    then suspend
    else if op == 9
    then resume
    else unknown

pub data Reply : Type 0 where
  silence : Reply
  signature : List ℕ → Reply
  baud_rate : ℕ → Reply
  value : ℕ → ℕ → Reply

-- The bytes of an answer: a suboption, with its values escaped as data.
abbrev pub suboption : ℕ → List ℕ → List ℕ
suboption code bs = 255 ∷ 250 ∷ 44 ∷ code ∷ bs ++ (255 ∷ 240 ∷ [])

abbrev pub reply_bytes : ℕ → Reply → Bool → ℕ → List ℕ
reply_bytes sizeof_ulong silence b l = []
reply_bytes sizeof_ulong (signature sig) b l = suboption 100 (escape_all b l sig)
reply_bytes sizeof_ulong (baud_rate br) b l =
    suboption 101 (escape_all b l (rate_bytes sizeof_ulong br))
reply_bytes sizeof_ulong (value code v) b l = suboption code (escape b l v)

abbrev pub reply_last : ℕ → Reply → ℕ → ℕ
reply_last sizeof_ulong silence l = l
reply_last sizeof_ulong (signature sig) l = last_of l sig
reply_last sizeof_ulong (baud_rate br) l = last_of l (rate_bytes sizeof_ulong br)
reply_last sizeof_ulong (value code v) l = v

abbrev pub Fits : Reply → Type 0
Fits silence = Unit {0}
Fits (signature sig) = length sig ≤ 255
Fits (baud_rate br) = Unit {0}
Fits (value code v) = Unit {0}

module _ (cfg : Config) (p : Port) where
  open p use {Handle}

  -- What a request changes.
  abbrev pub after : Request → Registers Handle → Registers Handle
  after ask_signature r = r
  after tell_signature r = r
  after suspend r = record r { input_flow = false }
  after resume r = record r { input_flow = true }
  after unknown r = r
  after (set_baudrate n) r = if n == 0 then r else record r { port = p.set_port_speed n r.port }
  after (set_datasize n) r = if n == 0 then r else record r { port = p.set_port_data_size n r.port }
  after (set_parity n) r = if n == 0 then r else record r { port = p.set_port_parity n r.port }
  after (set_stopsize n) r = if n == 0 then r else record r { port = p.set_port_stop_size n r.port }
  after (set_control n) r =
      if asks_port n || n == 4
      then r
      else if n == 5
      then record r { port = p.set_break true r.port; break_signaled = true }
      else if n == 6
      then record r { port = p.set_break false r.port; break_signaled = false }
      else record r { port = p.set_port_flow_control n r.port }
  after (set_linestate_mask n) r = record r { line_state_mask = bit_and n 16 }
  after (set_modemstate_mask n) r = record r { modem_state_mask = n }
  after (purge_data n) r = record r { port = p.set_flush n r.port }

  -- What it is answered, when `r` is what it left. The code of an answer is that of the request
  -- plus one hundred; 4, 5 and 6 of SET-CONTROL ask for a break's state, begin one and end one.
  abbrev pub reply : Request → Registers Handle → Reply
  reply ask_signature r = signature (take 254 cfg.signature)
  reply tell_signature r = silence
  reply suspend r = silence
  reply resume r = silence
  reply unknown r = silence
  reply (set_baudrate n) r = baud_rate (p.get_port_speed r.port)
  reply (set_datasize n) r = value 102 (p.get_port_data_size r.port)
  reply (set_parity n) r = value 103 (p.get_port_parity r.port)
  reply (set_stopsize n) r = value 104 (p.get_port_stop_size r.port)
  reply (set_control n) r = value 105 (
      if asks_port n
      then p.get_port_flow_control r.port n
      else if n == 4
      then (if r.break_signaled then 5 else 6)
      else if n == 5 || n == 6
      then n
      else if cfg.cisco_ios_compatible && sets_inbound n
      then 0
      else p.get_port_flow_control r.port 0)
  reply (set_linestate_mask n) r = value 110 r.line_state_mask
  reply (set_modemstate_mask n) r = value 111 r.modem_state_mask
  reply (purge_data n) r = value 112 n
