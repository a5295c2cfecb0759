-- ===== src/Restore/Device.antt =====
-- The settings of a serial device of library/src/main/jni/unix.c under the main loop of
-- library/src/main/jni/sercd.c: whatever the clients do, they are given back.
use serial_port.Prelude.{
  ◌≡◌, refl, ap, ◌∙◌, subst, Option, Bool-cases, inl, inr, Bool, true, false, not, none, some,
  if◌then◌else◌, arith,
}
use serial_port.State.{State, Config}
use serial_port.LoopState.{Main}
use serial_port.Settings.{
  Settings, Device, SystemCalls, FlushQueue, unix_port, write_settings, change_flow_control,
  set_port_speed, set_port_data_size, set_port_parity, set_port_stop_size, set_port_flow_control,
  open_port, close_port, set_break, set_flush,
}
use serial_port.Startup.{Setup, listening, start_up, service_exit}
use serial_port.Startup.Run.{Run, here, round, started_lem}
use serial_port.Restore.{Stable}
use serial_port.Restore.Loop.{Lifecycle, IsTied, Tied, turn-Tied}

-- The system's calls for a break and a flush do not write to the program's memory.
pub record LeavesMemory (calls : SystemCalls) : Type 0 where
  pub break : (d : Device) → (calls.tcsendbreak d).initial_port_settings ≡ d.initial_port_settings
  pub flush :
      (queue : FlushQueue) (d : Device)
      → (calls.tcflush queue d).initial_port_settings ≡ d.initial_port_settings

abbrev IsClosed : Settings → Device → Type 0
IsClosed t d = d.settings ≡ t

abbrev IsOpen : Settings → Device → Type 0
IsOpen t d = d.initial_port_settings ≡ some t

-- The device takes the settings.
abbrev pub Takes : SystemCalls → Settings → Type 0
Takes calls t = (d : Device) → calls.tcsetattr_fails t d ≡ false

module _ (calls : SystemCalls) (memory : LeavesMemory calls) (t : Settings)
    (takes : Takes calls t) where
  written : (u : Settings) (h : Device) → IsOpen t h → IsOpen t (write_settings calls u h)
  written u h v = elim (Bool-cases (calls.tcsetattr_fails u h)) [
    | inl fails ↦ rw fails v
    | inr ok ↦ rw ok v
  ]

  unix_port-Stable : Stable (unix_port calls) (IsOpen t)
  unfolding set_break set_flush change_flow_control
  unix_port-Stable = record {
    speed = λ n h v. written (set_port_speed n h.settings) h v;
    data_size = λ n h v. written (set_port_data_size n h.settings) h v;
    parity = λ n h v. written (set_port_parity n h.settings) h v;
    stop_size = λ n h v. written (set_port_stop_size n h.settings) h v;
    flow_control = λ n h v. written (set_port_flow_control n h.settings) h v;
    break = λ on h v. ground (arith, memory.break h, v);
    flush = λ n h v. ground (
      arith,
      memory.flush FlushQueue.tciflush h,
      memory.flush FlushQueue.tcoflush h,
      memory.flush FlushQueue.tcioflush h,
      v,
    );
  }

  taken : {h : Device} → calls.tcsetattr_fails t h ≡ false → (write_settings calls t h).settings ≡ t
  taken ok = rw ok refl

  restores : (h : Device) → IsOpen t h → IsClosed t (close_port calls h)
  unfolding close_port
  restores h v =
      let closed : Option Settings → Device =
        λ o. elim o [ none ↦ h | some u ↦ write_settings calls u h ] in
      ap (λ o. (closed o).settings) v ∙ taken (takes h)

  remembers : (h : Device) {h' : Device} → IsClosed t h → open_port calls h ≡ some h' → IsOpen t h'
  unfolding open_port
  remembers h v e = ground (arith, v, e)

  unix_port-Lifecycle : Lifecycle (unix_port calls) (IsClosed t) (IsOpen t)
  unix_port-Lifecycle = record { stable = unix_port-Stable; opens = remembers; closes = restores }

  module _ (cfg : Config) where
    Run-Tied :
        {m n : Main Device}
        → IsTied unix_port-Lifecycle cfg m
        → Run cfg (unix_port calls) m n
        → IsTied unix_port-Lifecycle cfg n
    Run-Tied v here = v
    Run-Tied v (round poll r e) = turn-Tied unix_port-Lifecycle cfg poll _ (Run-Tied v r) e

module _ (cfg : Config) (calls : SystemCalls) (memory : LeavesMemory calls) where
  -- Whatever the clients ask for, and whether `tcsetattr` takes it or not, in every state that the main
  -- loop reaches from its start over the port of unix.c, the `struct termios` of the serial device is
  -- the one that it had at the start whenever the device is not open; and it is so after
  -- `SercdService.exit`, open or not. `tcsetattr` is taken not to fail on the one it had at the start, and
  -- the calls for a break and a flush not to write to the program's memory. The lines DTR and RTS are
  -- no part of it.
  pub start_up-settings :
      (setup : Setup) (s : State Device) {m n : Main Device}
      → Takes calls s.port.settings
      → start_up setup s ≡ listening m
      → Run cfg (unix_port calls) m n
      → (n.device_fd ≡ false → n.st.port.settings ≡ s.port.settings)
        × ((k : Main Device)
            → service_exit (unix_port calls) n ≡ some k
            → k.st.port.settings ≡ s.port.settings)
  unfolding service_exit
  start_up-settings setup s {m} {n} takes e r =
      let v : Tied life cfg n.device_fd n.st.port =
        Run-Tied calls memory t takes cfg
          (subst (λ k. IsTied life cfg k) (started_lem cfg (unix_port calls) setup s e) refl) r in
      (closed n.device_fd v, λ k h. exited n.device_fd n.l_socket_fd v k h)
    where
      t : Settings
      t = s.port.settings

      life : Lifecycle (unix_port calls) (IsClosed t) (IsOpen t)
      life = unix_port-Lifecycle calls memory t takes

      closed : (b : Bool) → Tied life cfg b n.st.port → b ≡ false → n.st.port.settings ≡ t
      closed true v h = cc
      closed false v h = v

      exited :
          (b l : Bool)
          → Tied life cfg b n.st.port
          → (k : Main Device)
          → (if not l
              then none
              else if b
              then some (record n { st = record (n.st) { port = close_port calls n.st.port } })
              else some n)
            ≡ some k
          → k.st.port.settings ≡ t
      exited b false v k h = cc
      exited true true v k h = ground (arith, restores calls memory t takes n.st.port v, h)
      exited false true v k h = ground (arith, v, h)
