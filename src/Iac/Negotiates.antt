-- ===== src/Iac/Negotiates.antt =====
-- What a program of library/src/main/jni/sercd.c says about options: the bytes that it puts into the
-- client's buffer and the option table that it leaves, both as functions of the table before.
-- `Negotiates out next f` gives both for the program `f`.
use serial_port.Prelude.{
  ℕ, ◌+◌, ◌≤◌, ◌≡◌, refl, sym, ap, subst, fun_ext, ◌∙◌, Bool, true, false, Option, some, List, [],
  ◌∷◌, ◌++◌, append-nil, append_assoc, arith, length, length-append, if◌then◌else◌, for_each, ◌>>◌,
  >>-some,
}
use serial_port.Telnet.{tniac}
use serial_port.Buffer.{buffer_length}
use serial_port.Buffer.Validity.{IsValid}
use serial_port.Buffer.Refine.{contents}
use serial_port.State.{State, TnState, update}
use serial_port.State.Steps.{BuffersValid}
use serial_port.Send.{send_telnet_option}
use serial_port.Send.Wire.{send_telnet_option-Emits}
use serial_port.Iac.{modify_tnstate}

abbrev pub Table : Type 0
Table = ℕ → TnState

abbrev pub All : {A : Type 0} → (A → Type 0) → List A → Type 0
All Fits [] = Unit
All Fits (x ∷ xs) = Fits x × All Fits xs

-- What a sequence of messages makes of the table, and all the bytes of the answers.
unfoldable pub table_after : {A : Type 0} → (A → Table → Table) → List A → Table → Table
table_after next [] tn = tn
table_after next (x ∷ xs) tn = table_after next xs (next x tn)

unfoldable pub answers :
    {A : Type 0} → (A → Table → List ℕ) → (A → Table → Table) → List A → Table → List ℕ
answers out next [] tn = []
answers out next (x ∷ xs) tn = out x tn ++ answers out next xs (next x tn)

module _ {P : Type 0} where
  pub record Said (bytes : List ℕ) (table : Table) (s t : State P) : Type 0 where
    pub valid : BuffersValid t
    pub appended : contents t.to_net ≡ contents s.to_net ++ bytes
    pub longer : buffer_length t.to_net ≡ buffer_length s.to_net + length bytes
    pub table_is : t.tnstate ≡ table

  pub record Negotiates (out : Table → List ℕ) (next : Table → Table)
      (f : State P → Option (State P)) : Type 0 where
    pub run :
        (s : State P)
        → BuffersValid s
        → buffer_length s.to_net + length (out s.tnstate) ≤ 2047
        → (t : State P) × (f s ≡ some t) × Said (out s.tnstate) (next s.tnstate) s t

  pub option-Negotiates :
      (command option : ℕ)
      → Negotiates
          (λ tn. tniac ∷ command ∷ option ∷ [])
          (λ tn. tn)
          (send_telnet_option command option)
  option-Negotiates command option = record {
    run = λ s v room.
        let (t, e, a) = (send_telnet_option-Emits command option).run s v room in
        (
          t,
          e,
          record {
            valid = a.valid;
            appended = a.appended;
            longer = a.longer;
            table_is = a.options_kept;
          },
        );
  }

  -- A program that writes nothing.
  pub quiet-Negotiates :
      (g : State P → State P) (next : Table → Table)
      → ((s : State P)
          → ((g s).to_net ≡ s.to_net)
            × ((g s).to_dev ≡ s.to_dev)
            × ((g s).tnstate ≡ next s.tnstate))
      → Negotiates (λ tn. []) next (λ s. some (g s))
  quiet-Negotiates g next keep = record {
    run = λ s v room. (
      g s,
      refl,
      record {
        valid = record {
          net = subst IsValid (sym (keep s).0) v.net;
          dev = subst IsValid (sym (keep s).1) v.dev;
        };
        appended = ap contents (keep s).0 ∙ sym (append-nil (contents s.to_net));
        longer = omega (arith, ap buffer_length (keep s).0);
        table_is = (keep s).2;
      },
    );
  }

  pub modify-Negotiates :
      (f : TnState → TnState) (option : ℕ)
      → Negotiates (λ tn. []) (λ tn. update tn option (f (tn option))) (modify_tnstate f option)
  modify-Negotiates f option = quiet-Negotiates _ _ (λ s. (refl, refl, refl))

  Said-Said :
      {xs ys : List ℕ} {k l : Table} {s t u : State P}
      → Said xs k s t
      → Said ys l t u
      → Said (xs ++ ys) l s u
  Said-Said {xs} {ys} {s = s} a b = record {
    valid = b.valid;
    appended = b.appended ∙ ap (λ zs. zs ++ ys) a.appended ∙ append_assoc (contents s.to_net) xs ys;
    longer = omega (arith, b.longer, a.longer, length-append xs ys);
    table_is = b.table_is;
  }

  pub Negotiates->> :
      {o o' : Table → List ℕ} {n n' : Table → Table} {f g : State P → Option (State P)}
      → Negotiates o n f
      → Negotiates o' n' g
      → Negotiates (λ tn. o tn ++ o' (n tn)) (λ tn. n' (n tn)) (f >> g)
  Negotiates->> {o} {o'} {n} {n'} {f} {g} hf hg = record {
    run = λ s v room.
        let joined = length-append (o s.tnstate) (o' (n s.tnstate)) in
        let (t, e, a) = hf.run s v (omega (arith, joined)) in
        let (u, e', a') =
          hg.run t a.valid
            (omega (arith, a.longer, joined, ap (λ tn. length (o' tn)) a.table_is)) in
        (
          u,
          >>-some f g s e ∙ e',
          Said-Said a (subst (λ tn. Said (o' tn) (n' tn) t u) a.table_is a'),
        );
  }

  pub Negotiates-if :
      {o o' : Table → List ℕ} {n n' : Table → Table} {f g : State P → Option (State P)}
      (b : Table → Bool)
      → Negotiates o n f
      → Negotiates o' n' g
      → Negotiates
          (λ tn. if b tn then o tn else o' tn)
          (λ tn. if b tn then n tn else n' tn)
          (λ s. if b s.tnstate then f s else g s)
  Negotiates-if {o} {o'} {n} {n'} {f} {g} b hf hg = record { run = λ s. go (b s.tnstate) s }
    where
      go :
          (c : Bool) (s : State P)
          → BuffersValid s
          → buffer_length s.to_net + length (if c then o s.tnstate else o' s.tnstate) ≤ 2047
          → (t : State P) × ((if c then f s else g s) ≡ some t)
            × Said
                (if c then o s.tnstate else o' s.tnstate)
                (if c then n s.tnstate else n' s.tnstate)
                s
                t
      go true = hf.run
      go false = hg.run

  -- The same bytes and the same table, entry by entry.
  pub Negotiates-same :
      {o o' : Table → List ℕ} {n n' : Table → Table} {f : State P → Option (State P)}
      → ((tn : Table) → o tn ≡ o' tn)
      → ((tn : Table) (i : ℕ) → n tn i ≡ n' tn i)
      → Negotiates o n f
      → Negotiates o' n' f
  Negotiates-same {f = f} same_out same_next h =
      subst {A = (Table → List ℕ) × (Table → Table)} (λ x. Negotiates x.0 x.1 f)
        (λ i. (fun_ext same_out i, fun_ext (λ tn. fun_ext (same_next tn)) i)) h

  -- The same program, state by state.
  pub Negotiates-ext :
      {o : Table → List ℕ} {n : Table → Table} {f g : State P → Option (State P)}
      → ((s : State P) → f s ≡ g s)
      → Negotiates o n f
      → Negotiates o n g
  Negotiates-ext {o} {n} same h = subst (λ k. Negotiates o n k) (fun_ext same) h

  pub Negotiates-for_each :
      {A : Type 0} {Fits : A → Type 0} (out : A → Table → List ℕ) (next : A → Table → Table)
      (body : A → State P → Option (State P))
      → ((x : A) → Fits x → Negotiates (out x) (next x) (body x))
      → (xs : List A) → All Fits xs
      → Negotiates (answers out next xs) (table_after next xs) (for_each body xs)
  unfolding for_each answers table_after
  Negotiates-for_each out next body h [] fits =
      quiet-Negotiates (λ s. s) _ (λ s. (refl, refl, refl))
  Negotiates-for_each out next body h (x ∷ xs) fits =
      Negotiates->> (h x fits.0) (Negotiates-for_each out next body h xs fits.1)
