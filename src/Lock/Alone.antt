-- ===== src/Lock/Alone.antt =====
-- Calls of `HDBLockFile` and `HDBUnlockFile` of library/src/main/jni/unix.c that no other process disturbs.
use serial_port.Prelude.{
  ℕ, zero, suc, ◌≡◌, refl, sym, subst, ap, ◌∙◌, Bool, true, false, not, ◌||◌, Option, none, some,
  List, [], ◌∷◌, ◌==◌, if◌then◌else◌, take, length, arith,
}
use serial_port.Lock.{
  LockResult, lock_ok, locked, lock_ko, Format, Store, Phase, creating, opening, reading, unlinking,
  writing, done, works, hdb_header_len, lock_run, hdb_lock_file, hdb_unlock_file, unlock_after,
  lock_step, judge_header, remove_entry, new_file, write_file,
}

-- The bytes of the lock file, if there is one.
abbrev pub contents_of : Store → Option (List ℕ)
contents_of st = elim st.entry [ none ↦ none | some i ↦ some (st.bytes i) ]

module _ (f : Format) (alive : ℕ → Bool) (pid : ℕ) where
  abbrev pub taken : ℕ → List ℕ → LockResult × Option (List ℕ)
  taken holder bs =
      if holder == pid
      then (lock_ok, some bs)
      else if holder == 0 || not (alive holder)
      then (lock_ok, some (f.print_pid pid))
      else (locked, some bs)

  -- What locking promises, by what the lock file holds.
  abbrev pub locking : Option (List ℕ) → LockResult × Option (List ℕ)
  locking none = (lock_ok, some (f.print_pid pid))
  locking (some []) = (lock_ko, some [])
  locking (some (b ∷ bs)) = taken (f.atoi (take 11 (b ∷ bs))) (b ∷ bs)

  settled :
      (n : ℕ) (r : LockResult) (st : Store) → lock_run f alive pid n (done r, st) ≡ (done r, st)
  unfolding lock_run lock_step
  settled zero r st = refl
  settled (suc n) r st = settled n r st

  abbrev locked_store : Store → Store
  locked_store st = write_file st.next (f.print_pid pid) (new_file st)

  one_call :
      (n : ℕ) (ph : Phase) (st : Store) {ph' : Phase} {st' : Store}
      → lock_step f alive pid works ph st ≡ (ph', st')
      → lock_run f alive pid (suc n) (ph, st) ≡ lock_run f alive pid n (ph', st')
  unfolding lock_run
  one_call n ph st e = ap (lock_run f alive pid n) e

  module _ (st : Store) where
    pub create_new :
        st.entry ≡ none → lock_step f alive pid works creating st ≡ (writing st.next, new_file st)
    unfolding lock_step
    create_new e = rw e

    pub fill :
        (i : ℕ)
        → lock_step f alive pid works (writing i) st
          ≡ (done lock_ok, write_file i (f.print_pid pid) st)
    unfolding lock_step
    fill i = refl

    module _ {i : ℕ} (e : st.entry ≡ some i) where
      pub create_fails : lock_step f alive pid works creating st ≡ (opening, st)
      unfolding lock_step
      create_fails = rw e

      pub open_found : lock_step f alive pid works opening st ≡ (reading i, st)
      unfolding lock_step
      open_found = rw e

      pub remove : lock_step f alive pid works unlinking st ≡ (creating, remove_entry st)
      unfolding lock_step
      remove = rw e

    pub read_header :
        (i : ℕ)
        → lock_step f alive pid works (reading i) st
          ≡ (judge_header f alive pid (take hdb_header_len (st.bytes i)), st)
    unfolding lock_step
    read_header i = refl

  -- Without a lock file, one is made and filled.
  fresh :
      (n : ℕ) (st : Store)
      → st.entry ≡ none
      → lock_run f alive pid (suc (suc n)) (creating, st) ≡ (done lock_ok, locked_store st)
  fresh n st e =
      one_call (suc n) _ _ (create_new st e)
      ∙ one_call n _ _ (fill (new_file st) st.next)
      ∙ settled n lock_ok (locked_store st)

  -- With one, it is opened and read.
  found :
      (n i : ℕ) (st : Store)
      → st.entry ≡ some i
      → lock_run f alive pid (suc (suc (suc n))) (creating, st)
        ≡ lock_run f alive pid n (judge_header f alive pid (take hdb_header_len (st.bytes i)), st)
  found n i st e =
      one_call (suc (suc n)) _ _ (create_fails st e)
      ∙ one_call (suc n) _ _ (open_found st e)
      ∙ one_call n _ _ (read_header st i)

  abbrev Locks : Store → LockResult × Option (List ℕ) → Type 0
  Locks st r = (t : Store) × (hdb_lock_file f alive pid st ≡ (done r.0, t)) × (contents_of t ≡ r.1)

  judged :
      (i : ℕ) (bs : List ℕ) (st : Store) {ph : Phase}
      → st.entry ≡ some i
      → st.bytes i ≡ bs
      → judge_header f alive pid (take hdb_header_len bs) ≡ ph
      → hdb_lock_file f alive pid st ≡ lock_run f alive pid 5 (ph, st)
  unfolding hdb_lock_file
  judged i bs st e eb j =
      found 5 i st e
      ∙ ap (λ x. lock_run f alive pid 5 (judge_header f alive pid (take hdb_header_len x), st)) eb
      ∙ ap (λ x. lock_run f alive pid 5 (x, st)) j

  held_by :
      (mine gone : Bool) (i : ℕ) (bs : List ℕ) (st : Store)
      → st.entry ≡ some i
      → st.bytes i ≡ bs
      → judge_header f alive pid (take hdb_header_len bs)
        ≡ (if mine then done lock_ok else if gone then unlinking else done locked)
      → Locks st (
          if mine
          then (lock_ok, some bs)
          else if gone
          then (lock_ok, some (f.print_pid pid))
          else (locked, some bs))
  held_by true gone i bs st e eb j =
      (st, judged i bs st e eb j ∙ settled 5 lock_ok st, rw e (ap (λ x. some x) eb))
  held_by false false i bs st e eb j =
      (st, judged i bs st e eb j ∙ settled 5 locked st, rw e (ap (λ x. some x) eb))
  held_by false true i bs st e eb j = (
    locked_store (remove_entry st),
    judged i bs st e eb j ∙ one_call 4 _ _ (remove st e) ∙ fresh 2 (remove_entry st) refl,
    ground arith,
  )

  -- `HDBLockFile` that no other process disturbs and none of whose system calls fails ends after at most
  -- eight of them, and does what `locking` says: it makes a lock file with its process number where
  -- there is none, keeps one that has its own number, puts its own in place of one whose process is
  -- gone or has no number, leaves alone one of a living process and reports it as locked, and reports a
  -- failure for an empty one.
  pub hdb_lock_file-locking : (st : Store) → Locks st (locking (contents_of st))
  unfolding hdb_lock_file judge_header
  hdb_lock_file-locking st = by_entry st.entry refl
    where
      at_none : st.entry ≡ none → contents_of st ≡ none
      at_none e = rw e refl

      at_some : {i : ℕ} → st.entry ≡ some i → contents_of st ≡ some (st.bytes i)
      at_some e = rw e refl

      by_bytes :
          (i : ℕ) (bs : List ℕ) → st.entry ≡ some i → st.bytes i ≡ bs → Locks st (locking (some bs))
      by_bytes i [] e eb =
          (st, judged i [] st e eb refl ∙ settled 5 lock_ko st, rw e (ap (λ x. some x) eb))
      by_bytes i (b ∷ bs) e eb = held_by _ _ i (b ∷ bs) st e eb refl

      by_entry : (x : Option ℕ) → st.entry ≡ x → Locks st (locking (contents_of st))
      by_entry none e =
          subst (λ c. Locks st (locking c)) (sym (at_none e))
            (locked_store st, fresh 6 st e, ground arith)
      by_entry (some i) e =
          subst (λ c. Locks st (locking c)) (sym (at_some e)) (by_bytes i (st.bytes i) e refl)

  take_all : (n : ℕ) (xs : List ℕ) → length xs ≡ n → take n xs ≡ xs
  take_all zero [] e = refl
  take_all zero (x ∷ xs) e = absurd (omega (arith, e))
  take_all (suc n) [] e = absurd (omega (arith, e))
  take_all (suc n) (x ∷ xs) e = ap (λ ys. x ∷ ys) (take_all n xs (omega (arith, e)))

  pub take-print_pid : (holder : ℕ) → take hdb_header_len (f.print_pid holder) ≡ f.print_pid holder
  take-print_pid holder = take_all 11 (f.print_pid holder) (f.length-print_pid holder)

  -- What unlocking promises, by what locking does.
  abbrev pub unlocking : LockResult × Option (List ℕ) → Option (List ℕ)
  unlocking (lock_ok, c) = none
  unlocking (locked, c) = c
  unlocking (lock_ko, c) = c

  -- `HDBUnlockFile` that no other process disturbs and none of whose system calls fails removes the lock
  -- file where `HDBLockFile` gets the lock, and leaves what `HDBLockFile` leaves otherwise: the lock of
  -- another living process, or an empty file.
  pub hdb_unlock_file-locking :
      (st : Store)
      → contents_of (hdb_unlock_file f alive pid st) ≡ unlocking (locking (contents_of st))
  unfolding hdb_unlock_file
  hdb_unlock_file-locking st =
      let (t, e, c) = hdb_lock_file-locking st in
      ap (λ x. contents_of (unlock_after f alive pid x)) e ∙ by_result _ t c
    where
      by_result :
          (r : LockResult × Option (List ℕ)) (t : Store)
          → contents_of t ≡ r.1
          → contents_of (unlock_after f alive pid (done r.0, t)) ≡ unlocking r
      by_result (lock_ok, c) t e = refl
      by_result (locked, c) t e = e
      by_result (lock_ko, c) t e = e
