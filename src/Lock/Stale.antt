-- ===== src/Lock/Stale.antt =====
-- Two processes of library/src/main/jni/unix.c that find the lock file of a third one that is gone.
use serial_port.Prelude.{
  ℕ, ◌≡◌, ◌≢◌, refl, ap, ◌∙◌, Bool, true, false, some, List, [], ◌∷◌, take, length, arith,
}
use serial_port.Lock.{
  lock_ok, Format, Store, Phase, creating, reading, unlinking, done, works, hdb_header_len,
  lock_step, judge, judge_header, remove_entry, new_file, write_file,
}
use serial_port.Lock.Alone.{
  create_new, fill, create_fails, open_found, remove, read_header, take-print_pid,
}
use serial_port.Lock.Race.{Two, two_step, two_run}

-- The first process reads, the second one locks, and then the first one goes on.
abbrev pub unlucky : List Bool
unlucky =
    true ∷ true ∷ true ∷ false ∷ false ∷ false ∷ false ∷ false ∷ false ∷ true ∷ true ∷ true ∷ []

module _ (f : Format) (alive : ℕ → Bool) where
  judge_stale :
      {q y : ℕ} (bs : List ℕ)
      → length bs ≡ 11
      → f.atoi bs ≡ q
      → q ≢ y
      → alive q ≡ false
      → judge_header f alive y bs ≡ unlinking
  unfolding judge_header judge
  judge_stale [] len e ne gone = absurd (omega (arith, len))
  judge_stale (b ∷ bs) len e ne gone = ground (arith, ap alive e)

  reads_stale :
      {q : ℕ} (y i : ℕ) (st : Store)
      → st.bytes i ≡ f.print_pid q
      → q ≢ y
      → alive q ≡ false
      → lock_step f alive y works (reading i) st ≡ (unlinking, st)
  reads_stale {q} y i st e ne gone =
      read_header f alive y st i
      ∙ ap (λ bs. (judge_header f alive y (take hdb_header_len bs), st)) e
      ∙ ap (λ bs. (judge_header f alive y bs, st)) (take-print_pid f alive y q)
      ∙ ap (λ ph. (ph, st))
          (judge_stale (f.print_pid q) (f.length-print_pid q) (f.atoi-print_pid q) ne gone)

  module _ (a b : ℕ) where
    one :
        (xs : List Bool) (s : Two) {ph : Phase} {st : Store}
        → lock_step f alive a works s.first s.store ≡ (ph, st)
        → two_run f alive a b (true ∷ xs) s
          ≡ two_run f alive a b xs (record s { first = ph; store = st })
    unfolding two_run two_step
    one xs s e = ap (λ r. two_run f alive a b xs (record s { first = r.0; store = r.1 })) e

    other :
        (xs : List Bool) (s : Two) {ph : Phase} {st : Store}
        → lock_step f alive b works s.second s.store ≡ (ph, st)
        → two_run f alive a b (false ∷ xs) s
          ≡ two_run f alive a b xs (record s { second = ph; store = st })
    unfolding two_run two_step
    other xs s e = ap (λ r. two_run f alive a b xs (record s { second = r.0; store = r.1 })) e

    ended : (s : Two) → two_run f alive a b [] s ≡ s
    unfolding two_run
    ended s = refl

    -- A stale lock file lets two processes into one device: where the lock file holds the number of a
    -- process that is gone, there is an order of the system calls, none of which fails, in which two
    -- other processes that call `HDBLockFile` at the same time both get the lock, since the first one
    -- removes the file that the second one has made.
    pub two_run-stale :
        (q i : ℕ) (st : Store)
        → st.entry ≡ some i
        → st.bytes i ≡ f.print_pid q
        → alive q ≡ false
        → q ≢ a
        → q ≢ b
        → ((two_run f alive a b unlucky
              (record { first = creating; second = creating; store = st })).first
            ≡ done lock_ok)
          × ((two_run f alive a b unlucky
                (record { first = creating; second = creating; store = st })).second
              ≡ done lock_ok)
    two_run-stale q i st e h gone na nb = (ap (λ s. s.first) runs, ap (λ s. s.second) runs)
      where
        start : Two
        start = record { first = creating; second = creating; store = st }

        mine : Store
        mine = remove_entry st

        theirs : Store
        theirs = write_file mine.next (f.print_pid b) (new_file mine)

        last : Store
        last = remove_entry theirs

        runs : two_run f alive a b unlucky start ≡ record {
          first = done lock_ok;
          second = done lock_ok;
          store = write_file last.next (f.print_pid a) (new_file last);
        }
        runs =
            one _ _ (create_fails f alive a st e)
            ∙ one _ _ (open_found f alive a st e)
            ∙ one _ _ (reads_stale a i st h na gone)
            ∙ other _ _ (create_fails f alive b st e)
            ∙ other _ _ (open_found f alive b st e)
            ∙ other _ _ (reads_stale b i st h nb gone)
            ∙ other _ _ (remove f alive b st e)
            ∙ other _ _ (create_new f alive b mine refl)
            ∙ other _ _ (fill f alive b (new_file mine) mine.next)
            ∙ one _ _ (remove f alive a theirs refl)
            ∙ one _ _ (create_new f alive a last refl)
            ∙ one _ _ (fill f alive a (new_file last) last.next)
            ∙ ended _
