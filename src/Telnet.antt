-- ===== src/Telnet.antt =====
-- The protocol constants of library/src/main/jni/sercd.h: Telnet commands and options, and the
-- COM port control commands of RFC 2217.
use serial_port.Prelude.{ℕ}

abbrev pub tnse : ℕ
tnse = 240

abbrev pub tnsb : ℕ
tnsb = 250

abbrev pub tnwill : ℕ
tnwill = 251

abbrev pub tnwont : ℕ
tnwont = 252

abbrev pub tndo : ℕ
tndo = 253

abbrev pub tndont : ℕ
tndont = 254

abbrev pub tniac : ℕ
tniac = 255

abbrev pub tn_transmit_binary : ℕ
tn_transmit_binary = 0

abbrev pub tn_echo : ℕ
tn_echo = 1

abbrev pub tn_suppress_go_ahead : ℕ
tn_suppress_go_ahead = 3

abbrev pub tncom_port_option : ℕ
tncom_port_option = 44

abbrev pub tncas_signature : ℕ
tncas_signature = 0

abbrev pub tncas_set_baudrate : ℕ
tncas_set_baudrate = 1

abbrev pub tncas_set_datasize : ℕ
tncas_set_datasize = 2

abbrev pub tncas_set_parity : ℕ
tncas_set_parity = 3

abbrev pub tncas_set_stopsize : ℕ
tncas_set_stopsize = 4

abbrev pub tncas_set_control : ℕ
tncas_set_control = 5

abbrev pub tncas_notify_linestate : ℕ
tncas_notify_linestate = 6

abbrev pub tncas_notify_modemstate : ℕ
tncas_notify_modemstate = 7

abbrev pub tncas_flowcontrol_suspend : ℕ
tncas_flowcontrol_suspend = 8

abbrev pub tncas_flowcontrol_resume : ℕ
tncas_flowcontrol_resume = 9

abbrev pub tncas_set_linestate_mask : ℕ
tncas_set_linestate_mask = 10

abbrev pub tncas_set_modemstate_mask : ℕ
tncas_set_modemstate_mask = 11

abbrev pub tncas_purge_data : ℕ
tncas_purge_data = 12

abbrev pub tnasc_signature : ℕ
tnasc_signature = 100

abbrev pub tnasc_set_baudrate : ℕ
tnasc_set_baudrate = 101

abbrev pub tnasc_set_datasize : ℕ
tnasc_set_datasize = 102

abbrev pub tnasc_set_parity : ℕ
tnasc_set_parity = 103

abbrev pub tnasc_set_stopsize : ℕ
tnasc_set_stopsize = 104

abbrev pub tnasc_set_control : ℕ
tnasc_set_control = 105

abbrev pub tnasc_notify_linestate : ℕ
tnasc_notify_linestate = 106

abbrev pub tnasc_notify_modemstate : ℕ
tnasc_notify_modemstate = 107

abbrev pub tnasc_flowcontrol_suspend : ℕ
tnasc_flowcontrol_suspend = 108

abbrev pub tnasc_flowcontrol_resume : ℕ
tnasc_flowcontrol_resume = 109

abbrev pub tnasc_set_linestate_mask : ℕ
tnasc_set_linestate_mask = 110

abbrev pub tnasc_set_modemstate_mask : ℕ
tnasc_set_modemstate_mask = 111

abbrev pub tnasc_purge_data : ℕ
tnasc_purge_data = 112

abbrev pub tncom_parity_request : ℕ
tncom_parity_request = 0

abbrev pub tncom_noparity : ℕ
tncom_noparity = 1

abbrev pub tncom_oddparity : ℕ
tncom_oddparity = 2

abbrev pub tncom_evenparity : ℕ
tncom_evenparity = 3

abbrev pub tncom_markparity : ℕ
tncom_markparity = 4

abbrev pub tncom_spaceparity : ℕ
tncom_spaceparity = 5

abbrev pub tncom_stopsize_request : ℕ
tncom_stopsize_request = 0

abbrev pub tncom_onestopbit : ℕ
tncom_onestopbit = 1

abbrev pub tncom_twostopbits : ℕ
tncom_twostopbits = 2

abbrev pub tncom_one5stopbits : ℕ
tncom_one5stopbits = 3

abbrev pub tncom_cmd_flow_req : ℕ
tncom_cmd_flow_req = 0

abbrev pub tncom_cmd_flow_none : ℕ
tncom_cmd_flow_none = 1

abbrev pub tncom_cmd_flow_xonxoff : ℕ
tncom_cmd_flow_xonxoff = 2

abbrev pub tncom_cmd_flow_hardware : ℕ
tncom_cmd_flow_hardware = 3

abbrev pub tncom_cmd_break_req : ℕ
tncom_cmd_break_req = 4

abbrev pub tncom_cmd_break_on : ℕ
tncom_cmd_break_on = 5

abbrev pub tncom_cmd_break_off : ℕ
tncom_cmd_break_off = 6

abbrev pub tncom_cmd_dtr_req : ℕ
tncom_cmd_dtr_req = 7

abbrev pub tncom_cmd_dtr_on : ℕ
tncom_cmd_dtr_on = 8

abbrev pub tncom_cmd_dtr_off : ℕ
tncom_cmd_dtr_off = 9

abbrev pub tncom_cmd_rts_req : ℕ
tncom_cmd_rts_req = 10

abbrev pub tncom_cmd_rts_on : ℕ
tncom_cmd_rts_on = 11

abbrev pub tncom_cmd_rts_off : ℕ
tncom_cmd_rts_off = 12

abbrev pub tncom_cmd_inflow_req : ℕ
tncom_cmd_inflow_req = 13

abbrev pub tncom_cmd_inflow_none : ℕ
tncom_cmd_inflow_none = 14

abbrev pub tncom_cmd_inflow_xonxoff : ℕ
tncom_cmd_inflow_xonxoff = 15

abbrev pub tncom_cmd_inflow_hardware : ℕ
tncom_cmd_inflow_hardware = 16

abbrev pub tncom_cmd_flow_dcd : ℕ
tncom_cmd_flow_dcd = 17

abbrev pub tncom_cmd_inflow_dtr : ℕ
tncom_cmd_inflow_dtr = 18

abbrev pub tncom_cmd_flow_dsr : ℕ
tncom_cmd_flow_dsr = 19

abbrev pub tncom_purge_rx : ℕ
tncom_purge_rx = 1

abbrev pub tncom_purge_tx : ℕ
tncom_purge_tx = 2

abbrev pub tncom_purge_both : ℕ
tncom_purge_both = 3
