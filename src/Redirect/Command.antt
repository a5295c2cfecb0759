-- ===== src/Redirect/Command.antt =====
-- The bytes of a command: collected inside of `IACCommand`, and handled when the command is complete.
use serial_port.Prelude.{
  ℕ, ◌+◌, ◌≤◌, ◌<◌, ◌≡◌, ◌≢◌, refl, sym, ap, subst, ◌∙◌, ◌||◌, Option, some, arith, get_or, set,
  ◌==◌, ltb, if◌then◌else◌, ◌>>◌, >>-some,
}
use serial_port.Telnet.{
  tniac, tnsb, tncas_signature, tncas_set_baudrate, tncas_flowcontrol_suspend,
  tncas_flowcontrol_resume,
}
use serial_port.Buffer.{buffer_length}
use serial_port.State.{State, Port, Config, IacState, iac_normal, iac_received, iac_com_receiving}
use serial_port.State.Steps.{BuffersValid}
use serial_port.Iac.{handle_iac_command, handle_iac_command_bytes}
use serial_port.Iac.Room.{handle_iac_command-Sends}
use serial_port.Redirect.{
  collect, collect_if_room, set_escape, set_sig_escape, run_command, collect_up_to, signature_byte,
  redirect_command, redirect_by, set_redirect_last, esc_redirect_char,
}
use serial_port.Redirect.Size.{
  gauge, bound, Stored, InProgress, CommandValid, Stored-has_nul, Stored-set, kind-set, collected,
  collect_defined,
}
use serial_port.Redirect.Room.{
  Reaches, quiet, Reaches-if, Reaches-eq, redirect_normal-ok, redirect_received-ok,
}

module _ (cfg : Config) (p : Port) (wide : 4 ≤ cfg.sizeof_ulong) where
  open p use {Handle}

  abbrev top : ℕ
  top = handle_iac_command_bytes cfg.sizeof_ulong

  run_command-ok :
      (g : ℕ) (s : State Handle)
      → 1 ≤ g
      → BuffersValid s
      → Stored s.iac_command
      → buffer_length s.to_net + top ≤ 2047
      → Reaches top g s (run_command cfg p s)
  unfolding run_command
  run_command-ok g s one b v room =
      let (t, e, k) =
        (handle_iac_command-Sends cfg p s.iac_command s.iac_pos wide (Stored-has_nul v)).run s b
          room in
      record {
        to = record t { iac_escape = iac_normal };
        runs =
            >>-some (λ u. handle_iac_command cfg p u.iac_command u.iac_pos u)
              (set_escape iac_normal) s e;
        does = record {
          buffers = record { net = k.valid.net; dev = k.valid.dev };
          command = record {
            stored = subst (λ f. Stored f.1) (sym k.kept) v;
            progress = λ is. absurd (cc);
          };
          net_within = k.within;
          dev_within = omega (arith, ap (λ f. buffer_length f.0) k.kept);
          gauge_within = one;
        };
      }

  -- A step that starts by touching no buffer.
  after :
      {n : ℕ} {s u : State Handle} (f h : State Handle → Option (State Handle))
      → f s ≡ some u
      → u.to_net ≡ s.to_net
      → u.to_dev ≡ s.to_dev
      → Reaches top n u (h u)
      → Reaches top n s ((f >> h) s)
  after {s = s} {u = u} f h e k d r = record {
    to = r.to;
    runs = >>-some f h s e ∙ r.runs;
    does = record {
      buffers = r.does.buffers;
      command = r.does.command;
      net_within = omega (arith, r.does.net_within, ap buffer_length k);
      dev_within = omega (arith, r.does.dev_within, ap buffer_length d);
      gauge_within = r.does.gauge_within;
    };
  }

  module _ (s : State Handle) (c : ℕ) (b : BuffersValid s) (v : Stored s.iac_command)
      (room : buffer_length s.to_net + top ≤ 2047) (g : ℕ) (more : s.iac_pos + 1 ≤ g) where
    collected-buffers : BuffersValid (collected c s)
    collected-buffers = record { net = b.net; dev = b.dev }

    collect_up_to-ok :
        (size : ℕ)
        → s.iac_pos < size
        → size ≤ 10
        → (s.iac_pos + 1 ≢ size → InProgress (collected c s).iac_command (s.iac_pos + 1))
        → Reaches top g s (collect_up_to cfg p size c s)
    unfolding collect_up_to
    collect_up_to-ok size lt le next =
        after (collect c) (λ t. if t.iac_pos == size then run_command cfg p t else some t)
          (collect_defined c s (omega arith)) refl refl
          (Reaches-if (s.iac_pos + 1 == size)
            (λ _. run_command-ok g (collected c s) (omega arith) collected-buffers stored room)
            (λ ne.
              quiet _ collected-buffers refl refl
                (record { stored = stored; progress = λ _. next (ground arith) }) (ground arith)))
      where
        stored : Stored (collected c s).iac_command
        stored = Stored-set s.iac_pos c (omega arith) v

    -- What is collected of a signature still fits.
    collected_signature :
        s.iac_pos < 253
        → 4 ≤ s.iac_pos
        → get_or s.iac_command 1 0 ≡ tnsb
        → get_or s.iac_command 3 0 ≡ tncas_signature
        → CommandValid (collected c s)
    collected_signature lt le sb sig = record {
      stored = Stored-set s.iac_pos c (omega arith) v;
      progress = λ _. record {
        begun = omega arith;
        below = ground (arith, kind-set s.iac_command s.iac_pos c);
      };
    }

  collect_if_room_defined :
      (c : ℕ) (s : State Handle) → s.iac_pos < 255 → collect_if_room c s ≡ some (collected c s)
  unfolding collect_if_room
  collect_if_room_defined c s lt = ground (arith, collect_defined c s lt)

  module _ (s : State Handle) (c : ℕ) (b : BuffersValid s) (v : Stored s.iac_command)
      (room : buffer_length s.to_net + top ≤ 2047) (g : ℕ) (more : s.iac_pos + 1 ≤ g)
      (short : s.iac_pos < 253) (le : 4 ≤ s.iac_pos) (sb : get_or s.iac_command 1 0 ≡ tnsb)
      (sig : get_or s.iac_command 3 0 ≡ tncas_signature) where
    still : (e : IacState) → CommandValid (record s { iac_sig_escape = e })
    still e = record {
      stored = v;
      progress = λ _. record { begun = omega arith; below = ground arith };
    }

    signature_byte-ok : (e : IacState) → Reaches top g s (signature_byte cfg p e c s)
    unfolding signature_byte
    signature_byte-ok iac_normal =
        Reaches-if (c == tniac) (λ _. quiet _ b refl refl (still iac_received) (ground arith))
          (λ _. Reaches-eq (collect_if_room_defined c s (omega arith)) (
            quiet {n = top} {g = g} {s = s} (collected c s) b refl refl
              (collected_signature s c b v room g more short le sb sig) (ground arith)))
    signature_byte-ok iac_com_receiving = quiet _ b refl refl (still iac_normal) (ground arith)
    signature_byte-ok iac_received =
        Reaches-if (c == tniac)
          (λ _.
            after (collect_if_room c) (set_sig_escape iac_normal)
              (collect_if_room_defined c s (omega arith)) refl refl
              (quiet _ (collected-buffers s c b v room g more) refl refl
                (let w = collected_signature s c b v room g more short le sb sig in
                  record { stored = w.stored; progress = w.progress })
                (ground arith)))
          (λ _.
            after (collect_if_room tniac) (collect_if_room c >> run_command cfg p)
              (collect_if_room_defined tniac s (omega arith)) refl refl
              (after (collect_if_room c) (run_command cfg p)
                (collect_if_room_defined c (collected tniac s) (omega arith)) refl refl
                (run_command-ok g (collected c (collected tniac s)) (omega arith)
                  (record { net = b.net; dev = b.dev })
                  (Stored-set (s.iac_pos + 1) c (omega arith)
                    (Stored-set s.iac_pos tniac (omega arith) v))
                  room)))

  redirect_command-ok :
      (g c : ℕ) (s : State Handle)
      → BuffersValid s
      → CommandValid s
      → s.iac_escape ≡ iac_com_receiving
      → s.iac_pos < 253
      → s.iac_pos + 1 ≤ g
      → buffer_length s.to_net + top ≤ 2047
      → Reaches top g s (redirect_command cfg p c s)
  unfolding redirect_command
  redirect_command-ok g c s b v e short more room =
      Reaches-if (get_or s.iac_command 1 0 == tnsb)
        (λ sb.
          Reaches-if (ltb s.iac_pos 4)
            (λ lt. Reaches-eq (collect_defined c s (omega arith)) (
              quiet _ (record { net = b.net; dev = b.dev }) refl refl
                (record {
                  stored = Stored-set s.iac_pos c (omega arith) v.stored;
                  progress = λ _. record {
                    begun = omega (arith, begun);
                    below = ground (arith, kind, begun);
                  };
                })
                (ground arith)))
            (λ ge.
              Reaches-if (get_or s.iac_command 3 0 == tncas_signature)
                (λ sig.
                  signature_byte-ok s c b v.stored room g more short (ground arith) (ground arith)
                    (ground arith) s.iac_sig_escape)
                (λ ns.
                  Reaches-if (get_or s.iac_command 3 0 == tncas_set_baudrate)
                    (λ sbr.
                      collect_up_to-ok s c b v.stored room g more 10 (ground (arith, below))
                        (omega arith)
                        (λ ne. record {
                          begun = omega (arith, begun);
                          below = ground (arith, kind, below);
                        }))
                    (λ nb.
                      Reaches-if
                        (get_or s.iac_command 3 0 == tncas_flowcontrol_suspend
                          || get_or s.iac_command 3 0 == tncas_flowcontrol_resume)
                        (λ fl.
                          collect_up_to-ok s c b v.stored room g more 6 (ground (arith, below))
                            (omega arith)
                            (λ ne. record {
                              begun = omega (arith, begun);
                              below = ground (arith, kind, below);
                            }))
                        (λ nf.
                          collect_up_to-ok s c b v.stored room g more 7 (ground (arith, below))
                            (omega arith)
                            (λ ne. record {
                              begun = omega (arith, begun);
                              below = ground (arith, kind, below);
                            }))))))
        (λ nsb.
          collect_up_to-ok s c b v.stored room g more 3 (ground (arith, below)) (omega arith)
            (λ ne. absurd (ground (arith, begun, below))))
    where
      begun : 2 ≤ s.iac_pos
      begun = (v.progress e).begun

      below : s.iac_pos < bound s.iac_command s.iac_pos
      below = (v.progress e).below

      kind :
          (get_or (set s.iac_command s.iac_pos c) 1 0 ≡ get_or s.iac_command 1 0)
          × (s.iac_pos ≢ 3 → get_or (set s.iac_command s.iac_pos c) 3 0 ≡ get_or s.iac_command 3 0)
      kind = kind-set s.iac_command s.iac_pos c begun

  -- `EscRedirectChar` on any byte, in a state with valid buffers and a valid command under collection,
  -- with room for `EscRedirectChar_bytes_SockB` bytes to the client and one byte to the device: it
  -- passes every `assert`, stores nothing outside of `IACCommand`, adds no more than those bytes to the
  -- two buffers, leaves them and the command valid, and makes the command at most one byte
  -- longer. The command under collection, if there is one, is taken to be short of 253 bytes.
  pub esc_redirect_char-ok :
      (c : ℕ) (s : State Handle)
      → BuffersValid s
      → CommandValid s
      → (s.iac_escape ≡ iac_com_receiving → s.iac_pos < 253)
      → buffer_length s.to_net + top ≤ 2047
      → buffer_length s.to_dev < 2047
      → Reaches top (gauge s + 1) s (esc_redirect_char cfg p c s)
  unfolding esc_redirect_char
  esc_redirect_char-ok c s b v short room dev_room = finish (by_escape s.iac_escape refl)
    where
      by_escape :
          (e : IacState) → s.iac_escape ≡ e → Reaches top (gauge s + 1) s (redirect_by cfg p e c s)
      by_escape iac_normal e =
          unfold redirect_by in
          redirect_normal-ok top (gauge s + 1) c s b v e (ground arith) dev_room
      by_escape iac_received e =
          unfold redirect_by in
          redirect_received-ok top (gauge s + 1) c s b v (ground arith) dev_room
      by_escape iac_com_receiving e =
          unfold redirect_by in
          redirect_command-ok (gauge s + 1) c s b v e (short e) (ground arith) room

      finish :
          Reaches top (gauge s + 1) s (redirect_by cfg p s.iac_escape c s)
          → Reaches top
              (gauge s + 1)
              s
              (((λ t. redirect_by cfg p t.iac_escape c t) >> set_redirect_last c) s)
      finish r = record {
        to = record (r.to) { redirect_last = c };
        runs = >>-some (λ t. redirect_by cfg p t.iac_escape c t) (set_redirect_last c) s r.runs;
        does = record {
          buffers = record { net = r.does.buffers.net; dev = r.does.buffers.dev };
          command = record { stored = r.does.command.stored; progress = r.does.command.progress };
          net_within = r.does.net_within;
          gauge_within = r.does.gauge_within;
          dev_within = r.does.dev_within;
        };
      }
