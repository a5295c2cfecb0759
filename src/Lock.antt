-- ===== src/Lock.antt =====
-- `HDBLockFile` and `HDBUnlockFile` of library/src/main/jni/unix.c: the lock file that keeps two processes
-- from one device. Each system call is a step, so that processes can be interleaved. The files are
-- numbered, since a descriptor outlives the name that `unlink` takes away. Process numbers are taken
-- to be zero or above. Log lines are left out.
pub mod Alone
pub mod Race
pub mod Stale
use serial_port.Prelude.{
  ℕ, zero, suc, ◌+◌, ◌≡◌, Bool, not, ◌||◌, Option, none, some, List, [], ◌∷◌, ◌==◌, if◌then◌else◌,
  take, length,
}

-- `LockOk`, `Locked` and `LockKo`.
pub data LockResult : Type 0 where
  lock_ok locked lock_ko : LockResult

-- `HDBHeaderLen`
abbrev pub hdb_header_len : ℕ
hdb_header_len = 11

-- The library's text of a process number, `snprintf` with "%10d\n", and `atoi`.
pub record Format : Type 0 where
  pub print_pid : ℕ → List ℕ
  pub atoi : List ℕ → ℕ
  pub length-print_pid : (pid : ℕ) → length (print_pid pid) ≡ 11
  pub atoi-print_pid : (pid : ℕ) → atoi (print_pid pid) ≡ pid

-- The directory entry of the lock file, the bytes of every file, and the number of the next file.
pub record Store : Type 0 where
  pub entry : Option ℕ
  pub bytes : ℕ → List ℕ
  pub next : ℕ

-- Where a call of `HDBLockFile` stands: in front of one of its system calls, or at its end.
pub data Phase : Type 0 where
  creating : Phase
  opening : Phase
  reading : ℕ → Phase
  unlinking : Phase
  writing : ℕ → Phase
  cleaning : Phase
  done : LockResult → Phase

-- Whether a system call fails for a reason of its own, and how much is written then.
pub data Fate : Type 0 where
  works : Fate
  fails : ℕ → Fate

abbrev pub write_file : ℕ → List ℕ → Store → Store
write_file i bs st = record st { bytes = λ j. if j == i then bs else st.bytes j }

abbrev pub remove_entry : Store → Store
remove_entry st = record st { entry = none }

abbrev pub new_file : Store → Store
new_file st = record (write_file st.next [] st) { entry = some st.next; next = st.next + 1 }

module _ (f : Format) (alive : ℕ → Bool) (pid : ℕ) where
  -- What is made of the process number that was read.
  unfoldable pub judge : ℕ → Phase
  judge holder =
      if holder == pid
      then done lock_ok
      else if holder == 0 || not (alive holder)
      then unlinking
      else done locked

  unfoldable pub judge_header : List ℕ → Phase
  unfolding judge
  judge_header [] = done lock_ko
  judge_header (b ∷ bs) = judge (f.atoi (b ∷ bs))

  unfoldable pub lock_step : Fate → Phase → Store → Phase × Store
  unfolding judge_header
  lock_step works creating st = elim st.entry [
    | none ↦ (writing st.next, new_file st)
    | some i ↦ (opening, st)
  ]
  lock_step works opening st = elim st.entry [
    | none ↦ (done lock_ko, st)
    | some i ↦ (reading i, st)
  ]
  lock_step works (reading i) st = (judge_header (take hdb_header_len (st.bytes i)), st)
  lock_step works unlinking st = elim st.entry [
    | none ↦ (done lock_ko, st)
    | some i ↦ (creating, remove_entry st)
  ]
  lock_step works (writing i) st = (done lock_ok, write_file i (f.print_pid pid) st)
  lock_step works cleaning st = (done lock_ko, remove_entry st)
  lock_step works (done r) st = (done r, st)
  lock_step (fails n) creating st = (done lock_ko, st)
  lock_step (fails n) opening st = (done lock_ko, st)
  lock_step (fails n) (reading i) st = (done lock_ko, st)
  lock_step (fails n) unlinking st = (done lock_ko, st)
  lock_step (fails n) (writing i) st = (cleaning, write_file i (take n (f.print_pid pid)) st)
  lock_step (fails n) cleaning st = (done lock_ko, st)
  lock_step (fails n) (done r) st = (done r, st)

  -- The call on its own, for at most so many system calls.
  unfoldable pub lock_run : ℕ → Phase × Store → Phase × Store
  lock_run zero x = x
  lock_run (suc n) (phase, st) = lock_run n (lock_step works phase st)

  -- `HDBLockFile`, and `HDBUnlockFile` with the bound that the calls are given.
  unfoldable pub hdb_lock_file : Store → Phase × Store
  hdb_lock_file st = lock_run 8 (creating, st)

  abbrev pub unlock_after : Phase × Store → Store
  unlock_after (done lock_ok, st) = remove_entry st
  unlock_after (_, st) = st

  unfoldable pub hdb_unlock_file : Store → Store
  hdb_unlock_file st = unlock_after (hdb_lock_file st)
