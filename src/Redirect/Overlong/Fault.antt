-- ===== src/Redirect/Overlong/Fault.antt =====
-- `HandleCPCCommand` of library/src/main/jni/sercd.c on a signature without an end.
use serial_port.Prelude.{
  ℕ, ◌+◌, ◌≡◌, refl, sym, ap, ◌∙◌, false, true, ◌||◌, none, arith, drop, get_or, ◌==◌, >>-none,
}
use serial_port.Telnet.{tnsb, tncom_port_option, tncas_signature}
use serial_port.State.{State, TnState, IacState, Port, Config, iac_normal}
use serial_port.Cpc.{has_nul, handle_signature, handle_cpc_command}
use serial_port.Iac.{handle_suboption, handle_iac_command}
use serial_port.Redirect.{set_escape, run_command}
use serial_port.Redirect.Overlong.Collected.{Collecting, get_or-drop, lt-drop, no_nul}

module _ (cfg : Config) (p : Port) where
  open p use {Handle}

  -- What a full signature does.
  unended-fault :
      {tn : ℕ → TnState} {sig : IacState} (s : State Handle)
      → Collecting tn sig s
      → s.iac_pos ≡ 255
      → handle_cpc_command cfg p s.iac_command s.iac_pos s ≡ none
  unfolding handle_cpc_command handle_signature
  unended-fault s v full = rw (sig, size, unended) refl
    where
      sig : (get_or s.iac_command 3 0 == tncas_signature) ≡ true
      sig = ground (arith, v.command)

      size : (s.iac_pos == 6) ≡ false
      size = ground (arith, full)

      unended : has_nul (drop 4 s.iac_command) ≡ false
      unended = no_nul (drop 4 s.iac_command) (λ i lt e.
          v.filled (4 + i) (omega arith) (omega (arith, lt-drop 4 i s.iac_command lt, v.full, full))
            (sym (get_or-drop 4 i s.iac_command) ∙ e))

  handler-fault :
      {tn : ℕ → TnState} {sig : IacState} (s : State Handle)
      → Collecting tn sig s
      → s.iac_pos ≡ 255
      → ((tn tncom_port_option).is_will || (tn tncom_port_option).is_do) ≡ true
      → handle_iac_command cfg p s.iac_command s.iac_pos s ≡ none
  unfolding handle_iac_command handle_suboption
  handler-fault {tn} s v full on = rw (sb, active, port) (unended-fault s v full)
    where
      sb : (get_or s.iac_command 1 0 == tnsb) ≡ true
      sb = ground (arith, v.suboption)

      active :
          ((s.tnstate (get_or s.iac_command 2 0)).is_will
            || (s.tnstate (get_or s.iac_command 2 0)).is_do)
          ≡ true
      active =
          ap (λ k. (k (get_or s.iac_command 2 0)).is_will || (k (get_or s.iac_command 2 0)).is_do)
            v.options
          ∙ ap (λ k. (tn k).is_will || (tn k).is_do) v.option
          ∙ on

      port : (get_or s.iac_command 2 0 == tncom_port_option) ≡ true
      port = ground (arith, v.option)

  pub run-fault :
      {tn : ℕ → TnState} {sig : IacState} (s : State Handle)
      → Collecting tn sig s
      → s.iac_pos ≡ 255
      → ((tn tncom_port_option).is_will || (tn tncom_port_option).is_do) ≡ true
      → run_command cfg p s ≡ none
  unfolding run_command
  run-fault s v full on =
      >>-none (λ u. handle_iac_command cfg p u.iac_command u.iac_pos u) (set_escape iac_normal) s
        (handler-fault s v full on)
