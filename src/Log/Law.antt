-- ===== src/Log/Law.antt =====
-- What is logged of a port, and at which priority.
use Prim.Native.String.{String}
use serial_port.Prelude.{ℕ, ◌&&◌, ◌≤◌, ◌<◌, ◌≡◌, ◌≢◌, Bool, true, leb, arith, if◌then◌else◌}
use serial_port.Settings.{Settings, set_port_flow_control}
use serial_port.Log.{unix_log_port_settings, Prio, unset, dropped, written, log_msg, prio_of}

abbrev pub flow_text : Bool → Bool → String
flow_text xonxoff hardware = if xonxoff then "XON/XOFF" else if hardware then "RTS/CTS" else "none"

-- The log of a port's settings has the two directions of flow control the wrong way round: for any
-- settings, what stands after "outflow:" is the flow control of the input (IXOFF), and what stands
-- after "inflow:" is that of the output (IXON). After `SetPortFlowControl` of NONE, XON/XOFF or HARDWARE
-- the two are the same text.
pub unix_log_port_settings-swapped :
    (t : Settings)
    → ((unix_log_port_settings t).outflow ≡ flow_text t.ixoff t.crtscts)
      × ((unix_log_port_settings t).inflow ≡ flow_text t.ixon t.crtscts)
      × ((how : ℕ)
          → (leb 1 how && leb how 3) ≡ true
          → (unix_log_port_settings (set_port_flow_control how t)).outflow
            ≡ (unix_log_port_settings (set_port_flow_control how t)).inflow)
unfolding unix_log_port_settings set_port_flow_control
unix_log_port_settings-swapped t = (ground arith, ground arith, λ how h. ground arith)

-- With the log level that the Android build sets, or a lower one, a message is logged exactly if its level
-- is no higher than that, and never at a priority that was not set.
pub log_msg-prio :
    (max_log_level level : ℕ)
    → max_log_level ≤ 7
    → (level ≤ max_log_level → (p : Prio) × (log_msg max_log_level level ≡ written p) × (p ≢ unset))
      × (max_log_level < level → log_msg max_log_level level ≡ dropped)
unfolding log_msg
log_msg-prio max_log_level level le =
    (λ h. (prio_of level, ground arith, λ e. ground arith), λ h. ground arith)
