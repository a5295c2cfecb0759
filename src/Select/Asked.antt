-- ===== src/Select/Asked.antt =====
-- What `SercdSelect` of library/src/main/jni/unix.c puts into its sets of descriptors.
use serial_port.Prelude.{
  ℕ, ◌+◌, ◌≤◌, ◌<◌, ◌≡◌, refl, Bool, true, false, some, ◌∷◌, arith, ltb, if◌then◌else◌,
}
use serial_port.Select.Descriptors.{FdSets, SelectCalls, fd_isset, ask_in, ask_out, pointer}

pub record Grows (s t : FdSets) : Type 0 where
  ins_kept : (fd : ℕ) → fd_isset fd s.in_fd_set ≡ true → fd_isset fd t.in_fd_set ≡ true
  outs_kept : (fd : ℕ) → fd_isset fd s.out_fd_set ≡ true → fd_isset fd t.out_fd_set ≡ true
  nfds_grow : s.nfds ≤ t.nfds

abbrev pub Reads : Bool → ℕ → FdSets → Type 0
Reads b fd s = b ≡ true → (fd_isset fd s.in_fd_set ≡ true) × (fd < s.nfds)

abbrev pub Writes : Bool → ℕ → FdSets → Type 0
Writes b fd s = b ≡ true → (fd_isset fd s.out_fd_set ≡ true) × (fd < s.nfds)

pub Grows-Reads : (b : Bool) (fd : ℕ) {s t : FdSets} → Grows s t → Reads b fd s → Reads b fd t
Grows-Reads b fd g r e = let (i, lt) = r e in (g.ins_kept fd i, omega (arith, g.nfds_grow, lt))

pub Grows-Writes : (b : Bool) (fd : ℕ) {s t : FdSets} → Grows s t → Writes b fd s → Writes b fd t
Grows-Writes b fd g r e = let (i, lt) = r e in (g.outs_kept fd i, omega (arith, g.nfds_grow, lt))

module _ (sys : SelectCalls) where
  pub ask_in_lem :
      (b : Bool) (fd : ℕ) (s : FdSets)
      → fd < sys.fd_setsize
      → (t : FdSets) × (ask_in sys (pointer b fd) s ≡ some t) × Grows s t × Reads b fd t
  ask_in_lem false fd s lt = (
    s,
    refl,
    record { ins_kept = λ k e. e; outs_kept = λ k e. e; nfds_grow = omega arith },
    λ e. cc,
  )
  ask_in_lem true fd s lt = (
    record s {
      in_fd_set = fd ∷ s.in_fd_set;
      nfds = if ltb (fd + 1) s.nfds then s.nfds else fd + 1;
    },
    ground arith,
    record { ins_kept = λ k e. ground (arith, e); outs_kept = λ k e. e; nfds_grow = ground arith },
    λ e. (ground arith, ground arith),
  )

  pub ask_out_lem :
      (b : Bool) (fd : ℕ) (s : FdSets)
      → fd < sys.fd_setsize
      → (t : FdSets) × (ask_out sys (pointer b fd) s ≡ some t) × Grows s t × Writes b fd t
  ask_out_lem false fd s lt = (
    s,
    refl,
    record { ins_kept = λ k e. e; outs_kept = λ k e. e; nfds_grow = omega arith },
    λ e. cc,
  )
  ask_out_lem true fd s lt = (
    record s {
      out_fd_set = fd ∷ s.out_fd_set;
      nfds = if ltb (fd + 1) s.nfds then s.nfds else fd + 1;
    },
    ground arith,
    record { ins_kept = λ k e. e; outs_kept = λ k e. ground (arith, e); nfds_grow = ground arith },
    λ e. (ground arith, ground arith),
  )
