-- ===== src/Lock/Race.antt =====
-- Two processes that lock one device by `HDBLockFile` of library/src/main/jni/unix.c at the same time, one
-- system call after another in any order.
use serial_port.Prelude.{
  ℕ, ◌≡◌, ◌≢◌, refl, sym, ap, subst, ◌∙◌, Bool, true, false, none, some, List, [], ◌∷◌, take,
  length, arith,
}
use serial_port.Lock.{
  lock_ok, locked, lock_ko, Format, Store, Phase, creating, opening, reading, writing, done, works,
  hdb_header_len, lock_step, judge, judge_header,
}
use serial_port.Lock.Alone.{create_new, create_fails, open_found, read_header, take-print_pid}

-- Where the two calls stand, and the files.
pub record Two : Type 0 where
  pub first : Phase
  pub second : Phase
  pub store : Store

module _ (f : Format) (alive : ℕ → Bool) (a b : ℕ) where
  -- A system call of the first process, or of the second.
  unfoldable pub two_step : Bool → Two → Two
  two_step true s =
      let (ph, st) = lock_step f alive a works s.first s.store in
      record s { first = ph; store = st }
  two_step false s =
      let (ph, st) = lock_step f alive b works s.second s.store in
      record s { second = ph; store = st }

  unfoldable pub two_run : List Bool → Two → Two
  two_run [] s = s
  two_run (x ∷ xs) s = two_run xs (two_step x s)

-- The process that made the lock file `i`.
data Owner (f : Format) (st : Store) (i pid : ℕ) : Phase → Type 0 where
  filling : st.bytes i ≡ [] → Owner f st i pid (writing i)
  holding : st.bytes i ≡ f.print_pid pid → Owner f st i pid (done lock_ok)

-- The other one.
data Other (i : ℕ) : Phase → Type 0 where
  at_start : Other i creating
  at_open : Other i opening
  at_read : Other i (reading i)
  gave_up : Other i (done lock_ko)
  refused : Other i (done locked)

data Exclusive (f : Format) (a b : ℕ) (s : Two) : Type 0 where
  unlocked : s.store.entry ≡ none → s.first ≡ creating → s.second ≡ creating → Exclusive f a b s
  by_first :
      (i : ℕ)
      → s.store.entry ≡ some i
      → Owner f s.store i a s.first
      → Other i s.second
      → Exclusive f a b s
  by_second :
      (i : ℕ)
      → s.store.entry ≡ some i
      → Owner f s.store i b s.second
      → Other i s.first
      → Exclusive f a b s

module _ (f : Format) (alive : ℕ → Bool) where
  creates :
      (x : ℕ) (st : Store) {ph : Phase}
      → st.entry ≡ none
      → ph ≡ creating
      → (i : ℕ) × ((lock_step f alive x works ph st).1.entry ≡ some i)
        × Owner f (lock_step f alive x works ph st).1 i x (lock_step f alive x works ph st).0
  creates x st e p =
      subst (λ r. (i : ℕ) × (r.1.entry ≡ some i) × Owner f r.1 i x r.0)
        (sym (ap (λ ph. lock_step f alive x works ph st) p ∙ create_new f alive x st e))
        (st.next, refl, filling (ground arith))

  lock_step-Owner :
      {i x : ℕ} {ph : Phase} (st : Store)
      → Owner f st i x ph
      → ((lock_step f alive x works ph st).1.entry ≡ st.entry)
        × Owner f (lock_step f alive x works ph st).1 i x (lock_step f alive x works ph st).0
  unfolding lock_step
  lock_step-Owner st (filling e) = (refl, holding (ground arith))
  lock_step-Owner st (holding e) = (refl, holding e)

  judge_busy :
      {x y : ℕ} (bs : List ℕ)
      → length bs ≡ 11
      → f.atoi bs ≡ x
      → x ≢ y
      → x ≢ 0
      → alive x ≡ true
      → judge_header f alive y bs ≡ done locked
  unfolding judge_header judge
  judge_busy [] len e ne nz living = absurd (omega (arith, len))
  judge_busy (b ∷ bs) len e ne nz living = ground (arith, ap alive e)

  judges :
      {i x y : ℕ} {ph : Phase} (st : Store)
      → Owner f st i x ph
      → x ≢ y
      → x ≢ 0
      → alive x ≡ true
      → Other i (judge_header f alive y (take hdb_header_len (st.bytes i)))
  unfolding judge_header
  judges {i} {x} {y} st (filling e) ne nz living =
      subst (λ bs. Other i (judge_header f alive y (take hdb_header_len bs))) (sym e) gave_up
  judges {i} {x} {y} st (holding e) ne nz living =
      subst (λ ph. Other i ph)
        (sym (
          ap (λ bs. judge_header f alive y (take hdb_header_len bs)) e
          ∙ ap (judge_header f alive y) (take-print_pid f alive y x)
          ∙ judge_busy (f.print_pid x) (f.length-print_pid x) (f.atoi-print_pid x) ne nz living))
        refused

  module _ {i x y : ℕ} {own : Phase} (st : Store) (e : st.entry ≡ some i) (o : Owner f st i x own)
      (ne : x ≢ y) (nz : x ≢ 0) (living : alive x ≡ true) where
    after :
        (ph : Phase) {ph' : Phase}
        → lock_step f alive y works ph st ≡ (ph', st)
        → Other i ph'
        → ((lock_step f alive y works ph st).1 ≡ st) × Other i (lock_step f alive y works ph st).0
    after ph eq o = (ap (λ r. r.1) eq, subst (λ r. Other i r.0) (sym eq) o)

    other_step :
        {ph : Phase}
        → Other i ph
        → ((lock_step f alive y works ph st).1 ≡ st) × Other i (lock_step f alive y works ph st).0
    unfolding lock_step
    other_step at_start = after creating (create_fails f alive y st e) at_open
    other_step at_open = after opening (open_found f alive y st e) at_read
    other_step at_read = after (reading i) (read_header f alive y st i) (judges st o ne nz living)
    other_step gave_up = (refl, gave_up)
    other_step refused = (refl, refused)

module _ (f : Format) (alive : ℕ → Bool) (a b : ℕ) (ne : a ≢ b) (nza : a ≢ 0) (nzb : b ≢ 0)
    (living_a : alive a ≡ true) (living_b : alive b ≡ true) where
  two_step-Exclusive :
      (x : Bool) (s : Two) → Exclusive f a b s → Exclusive f a b (two_step f alive a b x s)
  unfolding two_step
  two_step-Exclusive true s (unlocked e p q) =
      let (i, e', o) = creates f alive a s.store e p in
      by_first i e' o (subst (Other i) (sym q) at_start)
  two_step-Exclusive false s (unlocked e p q) =
      let (i, e', o) = creates f alive b s.store e q in
      by_second i e' o (subst (Other i) (sym p) at_start)
  two_step-Exclusive true s (by_first i e o r) =
      let (e', o') = lock_step-Owner f alive s.store o in by_first i (e' ∙ e) o' r
  two_step-Exclusive false s (by_first i e o r) =
      let (e', r') = other_step f alive s.store e o ne nza living_a r in
      by_first i (ap (λ st. st.entry) e' ∙ e) (subst (λ st. Owner f st i a s.first) (sym e') o) r'
  two_step-Exclusive true s (by_second i e o r) =
      let (e', r') = other_step f alive s.store e o (λ h. ne (sym h)) nzb living_b r in
      by_second i (ap (λ st. st.entry) e' ∙ e) (subst (λ st. Owner f st i b s.second) (sym e') o) r'
  two_step-Exclusive false s (by_second i e o r) =
      let (e', o') = lock_step-Owner f alive s.store o in by_second i (e' ∙ e) o' r

  two_run-Exclusive :
      (xs : List Bool) (s : Two) → Exclusive f a b s → Exclusive f a b (two_run f alive a b xs s)
  unfolding two_run
  two_run-Exclusive [] s v = v
  two_run-Exclusive (x ∷ xs) s v = two_run-Exclusive xs _ (two_step-Exclusive x s v)

  no_other : {i : ℕ} {ph : Phase} → Other i ph → ph ≡ done lock_ok → ⊥
  no_other at_start e = cc
  no_other at_open e = cc
  no_other at_read e = cc
  no_other gave_up e = cc
  no_other refused e = cc

  both_ok : (s : Two) → Exclusive f a b s → s.first ≡ done lock_ok → s.second ≡ done lock_ok → ⊥
  both_ok s (unlocked e p q) first_ok second_ok = cc
  both_ok s (by_first i e o r) first_ok second_ok = no_other r second_ok
  both_ok s (by_second i e o r) first_ok second_ok = no_other r first_ok

  -- Without a lock file at first, `HDBLockFile` keeps two processes apart: two different living processes
  -- that call it at the same time, with their system calls in any order and none of them failing, do
  -- not both get the lock.
  pub two_run-exclusive :
      (xs : List Bool) (s : Two)
      → s.store.entry ≡ none
      → s.first ≡ creating
      → s.second ≡ creating
      → ¬ (
          ((two_run f alive a b xs s).first ≡ done lock_ok)
          × ((two_run f alive a b xs s).second ≡ done lock_ok))
  two_run-exclusive xs s e p q (first_ok, second_ok) =
      both_ok _ (two_run-Exclusive xs s (unlocked e p q)) first_ok second_ok
