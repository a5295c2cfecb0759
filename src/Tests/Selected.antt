-- ===== src/Tests/Selected.antt =====
-- `SercdSelect` of library/src/main/jni/unix.c over a `select` that keeps what is ready.
use serial_port.Prelude.{
  ℕ, ◌≡◌, refl, ap, Bool, true, ◌&&◌, some, List, [], ◌∷◌, arith, ◌==◌, ltb, ==-cases, Bool-cases,
  inl, inr, if◌then◌else◌,
}
use serial_port.Select.{timer_clear, modem_due}
use serial_port.Select.Law.{at}
use serial_port.Select.Descriptors.{
  SelectCalls, Clock, Descriptors, fd_isset, pointers_of, selected_events, select_events, events_of,
}
use serial_port.Select.Reports.{Reports, Fit, ready, select_events-sercd_select}
use serial_port.LoopState.{Events, sercd_select, any_event}

abbrev keep : (ℕ → Bool) → List ℕ → List ℕ
keep q [] = []
keep q (x ∷ xs) = if q x then x ∷ keep q xs else keep q xs

fd_isset-keep :
    (q : ℕ → Bool) (fd : ℕ) (xs : List ℕ) → fd_isset fd (keep q xs) ≡ (fd_isset fd xs && q fd)
fd_isset-keep q fd [] = refl
fd_isset-keep q fd (x ∷ xs) =
    let rest = fd_isset-keep q fd xs in
    elim (==-cases fd x) [
      | inl here ↦ elim (Bool-cases (q fd)) [
        | inl kept ↦ ground (arith, here, kept, rest, ap q here)
        | inr gone ↦ ground (arith, here, gone, rest, ap q here)
      ]
      | inr (ne, test) ↦ elim (Bool-cases (q x)) [
        | inl kept ↦ rw (kept, test) rest
        | inr gone ↦ rw (gone, test) rest
      ]
    ]

-- The device is 5.
abbrev talking : ℕ → Bool
talking fd = fd == 5

abbrev toy_calls : SelectCalls
toy_calls = record {
  fd_setsize = 1024;
  select = λ nfds ins outs timeout.
      some
        (keep (λ fd. ltb fd nfds && talking fd) ins, keep (λ fd. ltb fd nfds && talking fd) outs);
}

toy_calls-Reports : Reports toy_calls talking talking
toy_calls-Reports = record {
  left = λ nfds ins outs timeout. (
    keep (λ fd. ltb fd nfds && talking fd) ins,
    keep (λ fd. ltb fd nfds && talking fd) outs,
    refl,
    λ fd. fd_isset-keep (λ k. ltb k nfds && talking k) fd ins,
    λ fd. fd_isset-keep (λ k. ltb k nfds && talking k) fd outs,
  );
}

abbrev numbers : Descriptors
numbers = record { device = 5; in_socket = 4; out_socket = 4; l_socket = 3 }

abbrev everything : Events
everything = record {
  device_in = true;
  device_out = true;
  socket_out = true;
  socket_in = true;
  socket_connect = true;
  modem_state = true;
}

abbrev toy_clock : Clock
toy_clock = record { now = at 10 0; after = at 10 1 }

numbers-Fit : Fit toy_calls numbers
numbers-Fit = record {
  device_fits = omega arith;
  in_socket_fits = omega arith;
  out_socket_fits = omega arith;
  l_socket_fits = omega arith;
}

select_events-sercd_select_example :
    (ret : ℕ) × (select_events toy_calls 100 toy_clock timer_clear (pointers_of everything numbers)
      ≡ selected_events ret (modem_due 100 timer_clear (at 10 0) (at 10 1)).1)
    × (events_of ret
        ≡ sercd_select everything
            (ready talking talking (modem_due 100 timer_clear (at 10 0) (at 10 1)).0 numbers))
    × (ltb 0 ret
        ≡ any_event (
            sercd_select everything
              (ready talking talking (modem_due 100 timer_clear (at 10 0) (at 10 1)).0 numbers)))
select_events-sercd_select_example =
    select_events-sercd_select toy_calls-Reports 100 toy_clock timer_clear everything numbers
      numbers-Fit
