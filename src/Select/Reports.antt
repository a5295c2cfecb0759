-- ===== src/Select/Reports.antt =====
-- What `SercdSelect` of library/src/main/jni/unix.c reports of the descriptors that it is asked for.
use serial_port.Prelude.{
  ℕ, ◌<◌, ◌≡◌, refl, ◌∙◌, Bool, true, false, ◌&&◌, some, List, [], arith, ltb, if◌then◌else◌, ◌>>◌,
}
use serial_port.Select.{TimeVal, select_timeout, modem_due}
use serial_port.LoopState.{Events, sercd_select, any_event}
use serial_port.Select.Asked.{Reads, Writes, Grows-Reads, Grows-Writes, ask_in_lem, ask_out_lem}
use serial_port.Select.Descriptors.{
  Pointers, FdSets, SelectCalls, Clock, Descriptors, fd_isset, reported, ask, or_if, pointer,
  pointers_of, socket_bits, with_modem_state, selected_events, select_events, events_of,
}

-- `select` does not fail, and leaves in its sets the descriptors below the number it is given that are
-- ready.
pub record Reports (sys : SelectCalls) (readable writable : ℕ → Bool) : Type 0 where
  pub left :
      (nfds : ℕ) (ins outs : List ℕ) (timeout : TimeVal)
      → (ins' : List ℕ) × (outs' : List ℕ) × (sys.select nfds ins outs timeout ≡ some (ins', outs'))
        × ((fd : ℕ) → fd_isset fd ins' ≡ (fd_isset fd ins && (ltb fd nfds && readable fd)))
        × ((fd : ℕ) → fd_isset fd outs' ≡ (fd_isset fd outs && (ltb fd nfds && writable fd)))

pub record Fit (sys : SelectCalls) (fds : Descriptors) : Type 0 where
  pub device_fits : fds.device < sys.fd_setsize
  pub in_socket_fits : fds.in_socket < sys.fd_setsize
  pub out_socket_fits : fds.out_socket < sys.fd_setsize
  pub l_socket_fits : fds.l_socket < sys.fd_setsize

bits_lem :
    (a b c d e f : Bool)
    → events_of (or_if f 32 (or_if e 16 (or_if d 8 (or_if c 4 (or_if b 2 (or_if a 1 0))))))
      ≡ record {
        device_in = a;
        device_out = b;
        socket_out = c;
        socket_in = d;
        socket_connect = e;
        modem_state = f;
      }
bits_lem a b c d e f = ground arith

any_bits_lem :
    (a b c d e f : Bool)
    → ltb 0 (or_if f 32 (or_if e 16 (or_if d 8 (or_if c 4 (or_if b 2 (or_if a 1 0))))))
      ≡ any_event (record {
        device_in = a;
        device_out = b;
        socket_out = c;
        socket_in = d;
        socket_connect = e;
        modem_state = f;
      })
any_bits_lem a b c d e f = ground arith

reported_lem :
    (ready : ℕ → Bool) (b : Bool) (fd nfds : ℕ) (asked left : List ℕ)
    → (b ≡ true → (fd_isset fd asked ≡ true) × (fd < nfds))
    → fd_isset fd left ≡ (fd_isset fd asked && (ltb fd nfds && ready fd))
    → reported (pointer b fd) left ≡ (b && ready fd)
reported_lem ready false fd nfds asked left r e = refl
reported_lem ready true fd nfds asked left r e = let (i, lt) = r refl in e ∙ ground (arith, i, lt)

modem_state_lem :
    (b : Bool) (poll_interval : ℕ) (clock : Clock) (last_poll : TimeVal) (p : Pointers) (fd ret : ℕ)
    → p.modem_state ≡ pointer b fd
    → with_modem_state poll_interval clock last_poll p ret
      ≡ selected_events
          (or_if (b && (modem_due poll_interval last_poll clock.now clock.after).0) 32 ret)
          (if b then (modem_due poll_interval last_poll clock.now clock.after).1 else last_poll)
unfolding with_modem_state
modem_state_lem false poll_interval clock last_poll p fd ret e = rw e refl
modem_state_lem true poll_interval clock last_poll p fd ret e = rw e refl

-- The descriptors that are ready, and whether the modem state is due.
abbrev pub ready : (ℕ → Bool) → (ℕ → Bool) → Bool → Descriptors → Events
ready readable writable due fds = record {
  device_in = readable fds.device;
  device_out = writable fds.device;
  socket_out = writable fds.out_socket;
  socket_in = readable fds.in_socket;
  socket_connect = readable fds.l_socket;
  modem_state = due;
}

module _ {sys : SelectCalls} {readable writable : ℕ → Bool}
    (reports : Reports sys readable writable) (poll_interval : ℕ) (clock : Clock)
    (last_poll : TimeVal) (asked : Events) (fds : Descriptors) (fit : Fit sys fds) where
  abbrev due : Bool × TimeVal
  due = modem_due poll_interval last_poll clock.now clock.after

  asked_lem :
      (s : FdSets) × (ask sys (pointers_of asked fds) ≡ some s)
      × Reads asked.device_in fds.device s
      × Writes asked.device_out fds.device s
      × Writes asked.socket_out fds.out_socket s
      × Reads asked.socket_in fds.in_socket s
      × Reads asked.socket_connect fds.l_socket s
  unfolding ask pointers_of
  asked_lem =
      let s : FdSets = record { in_fd_set = []; out_fd_set = []; nfds = 0 } in
      let (s1, e1, g1, r1) = ask_in_lem sys asked.device_in fds.device s fit.device_fits in
      let (s2, e2, g2, r2) = ask_out_lem sys asked.device_out fds.device s1 fit.device_fits in
      let (s3, e3, g3, r3) =
        ask_out_lem sys asked.socket_out fds.out_socket s2 fit.out_socket_fits in
      let (s4, e4, g4, r4) = ask_in_lem sys asked.socket_in fds.in_socket s3 fit.in_socket_fits in
      let (s5, e5, g5, r5) =
        ask_in_lem sys asked.socket_connect fds.l_socket s4 fit.l_socket_fits in
      (
        s5,
        rw (◌>>◌, e1, e2, e3, e4) e5,
        Grows-Reads asked.device_in fds.device g5 (
            Grows-Reads asked.device_in fds.device g4 (
              Grows-Reads asked.device_in fds.device g3
                (Grows-Reads asked.device_in fds.device g2 r1))),
        Grows-Writes asked.device_out fds.device g5 (
            Grows-Writes asked.device_out fds.device g4
              (Grows-Writes asked.device_out fds.device g3 r2)),
        Grows-Writes asked.socket_out fds.out_socket g5
            (Grows-Writes asked.socket_out fds.out_socket g4 r3),
        Grows-Reads asked.socket_in fds.in_socket g5 r4,
        r5,
      )

  bits_of :
      (ins outs : List ℕ)
      → reported (pointer asked.device_in fds.device) ins ≡ (asked.device_in && readable fds.device)
      → reported (pointer asked.device_out fds.device) outs
        ≡ (asked.device_out && writable fds.device)
      → reported (pointer asked.socket_out fds.out_socket) outs
        ≡ (asked.socket_out && writable fds.out_socket)
      → reported (pointer asked.socket_in fds.in_socket) ins
        ≡ (asked.socket_in && readable fds.in_socket)
      → reported (pointer asked.socket_connect fds.l_socket) ins
        ≡ (asked.socket_connect && readable fds.l_socket)
      → socket_bits (pointers_of asked fds) ins outs
        ≡ or_if (asked.socket_connect && readable fds.l_socket) 16 (
            or_if (asked.socket_in && readable fds.in_socket) 8 (
              or_if (asked.socket_out && writable fds.out_socket) 4 (
                or_if
                  (asked.device_out && writable fds.device)
                  2
                  (or_if (asked.device_in && readable fds.device) 1 0))))
  unfolding socket_bits pointers_of
  bits_of ins outs a b c d e = rw (a, b, c, d, e) refl

  select_events_lem :
      (s : FdSets) (ins outs : List ℕ) (bits : ℕ)
      → ask sys (pointers_of asked fds) ≡ some s
      → sys.select s.nfds s.in_fd_set s.out_fd_set (select_timeout poll_interval) ≡ some (ins, outs)
      → socket_bits (pointers_of asked fds) ins outs ≡ bits
      → select_events sys poll_interval clock last_poll (pointers_of asked fds)
        ≡ with_modem_state poll_interval clock last_poll (pointers_of asked fds) bits
  unfolding select_events
  select_events_lem s ins outs bits e e' e'' = rw (select_events, e, e', e'') refl

  modem : (pointers_of asked fds).modem_state ≡ pointer asked.modem_state fds.device
  unfolding pointers_of
  modem = refl

  -- Where the descriptors are below `FD_SETSIZE`, and `select` does not fail and leaves in its sets the
  -- descriptors below the number it is given that are ready, `SercdSelect` with the pointers of the main
  -- function returns bits that the main function reads as `sercd_select` of what is asked for and of
  -- what is ready, the modem state being ready when it is due; the result is above zero exactly if
  -- there is an event, and `LastPoll` changes only where the modem state is asked for.
  pub select_events-sercd_select :
      (ret : ℕ) × (select_events sys poll_interval clock last_poll (pointers_of asked fds)
        ≡ selected_events ret (if asked.modem_state then due.1 else last_poll))
      × (events_of ret ≡ sercd_select asked (ready readable writable due.0 fds))
      × (ltb 0 ret ≡ any_event (sercd_select asked (ready readable writable due.0 fds)))
  select_events-sercd_select =
      let (s, e, din, dout, sout, sin, con) = asked_lem in
      let (ins, outs, e', i, o) =
        reports.left s.nfds s.in_fd_set s.out_fd_set (select_timeout poll_interval) in
      let p = pointers_of asked fds in
      let bits = or_if (asked.socket_connect && readable fds.l_socket) 16 (
        or_if (asked.socket_in && readable fds.in_socket) 8 (
          or_if (asked.socket_out && writable fds.out_socket) 4 (
            or_if (asked.device_out && writable fds.device) 2
              (or_if (asked.device_in && readable fds.device) 1 0)))) in
      let e'' : socket_bits p ins outs ≡ bits =
        bits_of ins outs
          (reported_lem readable asked.device_in fds.device s.nfds s.in_fd_set ins din
            (i fds.device))
          (reported_lem writable asked.device_out fds.device s.nfds s.out_fd_set outs dout
            (o fds.device))
          (reported_lem writable asked.socket_out fds.out_socket s.nfds s.out_fd_set outs sout
            (o fds.out_socket))
          (reported_lem readable asked.socket_in fds.in_socket s.nfds s.in_fd_set ins sin
            (i fds.in_socket))
          (reported_lem readable asked.socket_connect fds.l_socket s.nfds s.in_fd_set ins con
            (i fds.l_socket)) in
      (
        or_if (asked.modem_state && due.0) 32 bits,
        select_events_lem s ins outs bits e e' e''
            ∙ modem_state_lem asked.modem_state poll_interval clock last_poll p fds.device bits
                modem,
        bits_lem (asked.device_in && readable fds.device) (asked.device_out && writable fds.device)
            (asked.socket_out && writable fds.out_socket)
            (asked.socket_in && readable fds.in_socket)
            (asked.socket_connect && readable fds.l_socket) (asked.modem_state && due.0),
        any_bits_lem (asked.device_in && readable fds.device)
            (asked.device_out && writable fds.device) (asked.socket_out && writable fds.out_socket)
            (asked.socket_in && readable fds.in_socket)
            (asked.socket_connect && readable fds.l_socket) (asked.modem_state && due.0),
      )
