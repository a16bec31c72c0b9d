-- ===== src/Transactions/Runs.antt =====
-- Transactions that run one beside the other on one log: every state that they reach has a log that can be
-- recovered.
use deltabase_c.Prelude.{
  All-split, ℕ, ◌≡◌, refl, sym, ◌∙◌, List, ◌∷◌, ◌++◌, none, some, Option, true, inl, Eq, All,
  All-append,
}
use deltabase_c.Types.Value.{Uuid}
use deltabase_c.Types.WalLog.{WalRecord, header_of}
use deltabase_c.Wal.Manager.{FileWalManager, Outcome, returned, threw, flush, wait_for_durable}
use deltabase_c.Wal.Manager.Invariant.{HasRoom}
use deltabase_c.Wal.Manager.Lookup.{read_log-flush}
use deltabase_c.Wal.Manager.Durable.{no_faults}
use deltabase_c.Wal.Manager.Waiting.{Same, wait_for_durable-Same}
use deltabase_c.Recovery.Io.{IoManager}
use deltabase_c.Recovery.Kinds.{kind_of, is_undoable}
use deltabase_c.Recovery.Undo.Appends.{IsRecoverable, UndoesAs, flush-IsRecoverable, IsLinked-Keeps}
use deltabase_c.Transactions.{
  Transaction, TransactionState, idle, active, committed, aborted, make_transaction, begin,
  append_log, commit, commit_in, after_wait, Committed, written_back, logged, commit_record,
}
use deltabase_c.Transactions.Leaves.{
  IsSound, Leaves, logged-Leaves, begin-Leaves, append_log-Leaves, Keeps-IsSound, IsSound-Keeps,
}

-- The log that all share, and the transactions.
pub record System : Type 0 where
  pub wal : FileWalManager
  pub txns : List Transaction

-- One transaction is replaced, and the log.
abbrev pub becomes : List Transaction → List Transaction → Transaction → FileWalManager → System
becomes before behind t m = record { wal = m; txns = before ++ t ∷ behind }

module _ ⦃uuid_eq : Eq Uuid⦄ {S : Type 0} (io : IoManager S) {B : Type 0}
    (flush_dirty : ℕ → B → Option B) where
  -- A call of a method that does not throw, of any transaction, and a flush of the log. What a transaction
  -- logs is a change that the disk can undo.
  pub data Step : System → System → Type 0 where
    makes :
        (id : Uuid) (m : FileWalManager) (txns : List Transaction)
        → Step
            (record { wal = m; txns = txns })
            (record { wal = m; txns = make_transaction id ∷ txns })
    starts :
        (before behind : List Transaction) (t t' : Transaction) (m m' : FileWalManager)
        → HasRoom m
        → begin t m ≡ some (t', m')
        → Step (becomes before behind t m) (becomes before behind t' m')
    logs :
        (before behind : List Transaction) (t t' : Transaction) (m m' : FileWalManager)
        (r : WalRecord)
        → HasRoom m
        → is_undoable (kind_of r) ≡ true
        → UndoesAs io (kind_of r) r
        → append_log r t m ≡ some (t', m')
        → Step (becomes before behind t m) (becomes before behind t' m')
    flushes :
        (m : FileWalManager) (txns : List Transaction)
        → Step (record { wal = m; txns = txns }) (record { wal = (flush none m).1; txns = txns })
    finishes :
        (before behind : List Transaction) (t t' : Transaction) (m m' : FileWalManager) (rounds : ℕ)
        (b b' : B) (o : Outcome (Unit {0}))
        → HasRoom m
        → commit flush_dirty rounds no_faults t m b ≡ some (o, t', m', b')
        → Step (becomes before behind t m) (becomes before behind t' m')

  pub data Runs : System → System → Type 0 where
    stays : (σ : System) → Runs σ σ
    goes : (σ τ υ : System) → Runs σ τ → Step τ υ → Runs σ υ

  pub record IsSystem (σ : System) : Type 0 where
    pub recoverable : IsRecoverable io σ.wal
    pub sound : All (λ t. IsSound io t σ.wal) σ.txns

  -- What `commit` came to is what the wait came to, and the transaction keeps its id and last LSN.
  record Waited (w : Option (Outcome (Unit {0}) × FileWalManager)) (t t' : Transaction)
      (m' : FileWalManager) : Type 0 where
    outcome : Outcome (Unit {0})
    is_end : w ≡ some (outcome, m')
    same_id : t'.id ≡ t.id
    same_lsn : t'.last_lsn ≡ t.last_lsn

  same_commit :
      (w : Option (Outcome (Unit {0}) × FileWalManager)) (t t1 t' : Transaction)
      (m1 m' : FileWalManager) (o o1 o' : Outcome (Unit {0})) (b1 b' : B)
      → w ≡ some (o, m1)
      → t1.id ≡ t.id
      → t1.last_lsn ≡ t.last_lsn
      → ◌≡◌ {A = Option (Committed flush_dirty)} (some (o1, t1, m1, b1)) (some (o', t', m', b'))
      → Waited w t t' m'
  same_commit w t t1 t' m1 m' o o1 o' b1 b' i j k e =
      let x : t1 ≡ t' = cc e in
      let y : m1 ≡ m' = cc e in
      rw (← x, ← y) (record { outcome = o; is_end = i; same_id = j; same_lsn = k })

  written-Waited :
      (f : Option B) (u : Unit {0}) (t t' : Transaction) (m m' : FileWalManager)
      (o' : Outcome (Unit {0})) (b b' : B)
      → ◌≡◌ {A = Option (Committed flush_dirty)}
          (some (written_back flush_dirty f t m b))
          (some (o', t', m', b'))
      → Waited (some (returned u, m)) t t' m'
  unfolding written_back
  written-Waited none u t t' m m' o' b b' e =
      same_commit (some (returned u, m)) t t t' m m' (returned u) threw o' b b' refl refl refl e
  written-Waited (some b1) u t t' m m' o' b b' e =
      same_commit (some (returned u, m)) t (record t { state = committed }) t' m m' (returned u)
        (returned tt) o' b1 b' refl refl refl e

  after_wait-Waited :
      (w : Option (Outcome (Unit {0}) × FileWalManager)) (t t' : Transaction) (m' : FileWalManager)
      (o' : Outcome (Unit {0})) (b b' : B)
      → after_wait flush_dirty w t b ≡ some (o', t', m', b')
      → Waited w t t' m'
  unfolding after_wait
  after_wait-Waited none t t' m' o' b b' e = cc
  after_wait-Waited (some (threw, m)) t t' m' o' b b' e =
      same_commit (some (threw, m)) t t t' m m' threw threw o' b b' refl refl refl e
  after_wait-Waited (some (returned u, m)) t t' m' o' b b' e =
      written-Waited (flush_dirty t.last_lsn b) u t t' m m' o' b b' e

  Same-IsRecoverable :
      (m m' : FileWalManager) → IsRecoverable io m → Same m m' → IsRecoverable io m'
  Same-IsRecoverable m m' h s = record {
    consistent = s.consistent;
    linked = λ lsn r e.
        IsLinked-Keeps io m m' lsn r (λ l q f. s.finds l ∙ f)
          (h.linked lsn r (sym (s.finds lsn) ∙ e));
  }

  unchanged :
      (t t' : Transaction) (m m' : FileWalManager)
      → t ≡ t'
      → m ≡ m'
      → IsRecoverable io m
      → IsSound io t m
      → Leaves io t m t' m'
  unchanged t t' m m' x y h p =
      rw (← x, ← y) (record { recoverable = h; keeps = λ lsn q e. e; sound = p })

  commit-Leaves :
      (state : TransactionState) (rounds : ℕ) (t t' : Transaction) (m m' : FileWalManager)
      (o : Outcome (Unit {0})) (b b' : B)
      → HasRoom m
      → IsRecoverable io m
      → IsSound io t m
      → commit_in flush_dirty state rounds no_faults t m b ≡ some (o, t', m', b')
      → Leaves io t m t' m'
  unfolding commit_in kind_of header_of
  commit-Leaves active rounds t t' m m' o b b' room h p e =
      let l =
        logged-Leaves io active (commit_record t) t m room h p
          (record { plain = refl; linked = refl; mine = refl; undoes = tt }) in
      let t1 : Transaction = (logged active (commit_record t) t m).0 in
      let m1 : FileWalManager = (logged active (commit_record t) t m).1 in
      let w =
        after_wait-Waited (wait_for_durable rounds no_faults t1.last_lsn m1) t1 t' m' o b b' e in
      let s =
        wait_for_durable-Same rounds t1.last_lsn m1 m' w.outcome l.recoverable.consistent
          w.is_end in
      record {
        recoverable = Same-IsRecoverable m1 m' l.recoverable s;
        keeps = λ lsn q f. s.finds lsn ∙ l.keeps lsn q f;
        sound =
            rw (w.same_id, w.same_lsn)
              (IsSound-Keeps io m1 m' (λ lsn q f. s.finds lsn ∙ f) t1 l.sound);
      }
  commit-Leaves idle rounds t t' m m' o b b' room h p e =
      let x : t ≡ t' = cc e in let y : m ≡ m' = cc e in unchanged t t' m m' x y h p
  commit-Leaves committed rounds t t' m m' o b b' room h p e =
      let x : t ≡ t' = cc e in let y : m ≡ m' = cc e in unchanged t t' m m' x y h p
  commit-Leaves aborted rounds t t' m m' o b b' room h p e =
      let x : t ≡ t' = cc e in let y : m ≡ m' = cc e in unchanged t t' m m' x y h p

  becomes-IsSystem :
      (before behind : List Transaction) (t t' : Transaction) (m m' : FileWalManager)
      → IsSystem (becomes before behind t m)
      → (IsSound io t m → Leaves io t m t' m')
      → IsSystem (becomes before behind t' m')
  becomes-IsSystem before behind t t' m m' h f =
      let (p, q) = All-split (λ t. IsSound io t m) before (t ∷ behind) h.sound in
      let l = f q.0 in
      record {
        recoverable = l.recoverable;
        sound =
            All-append (λ t. IsSound io t m') before (t' ∷ behind)
              (Keeps-IsSound io m m' before l.keeps p)
              (l.sound, Keeps-IsSound io m m' behind l.keeps q.1);
      }

  Step-IsSystem : (σ τ : System) → IsSystem σ → Step σ τ → IsSystem τ
  unfolding make_transaction begin append_log commit
  Step-IsSystem σ τ h (makes id m txns) = record {
    recoverable = h.recoverable;
    sound = (inl refl, h.sound);
  }
  Step-IsSystem σ τ h (starts before behind t t' m m' room e) =
      becomes-IsSystem before behind t t' m m' h
        (λ p. begin-Leaves io t.state t t' m m' room h.recoverable p e)
  Step-IsSystem σ τ h (logs before behind t t' m m' r room k u e) =
      becomes-IsSystem before behind t t' m m' h
        (λ p. append_log-Leaves io t.state r t t' m m' room h.recoverable p k u e)
  Step-IsSystem σ τ h (flushes m txns) = record {
    recoverable = flush-IsRecoverable io m h.recoverable;
    sound =
        Keeps-IsSound io m (flush none m).1 txns
          (λ lsn q e. read_log-flush lsn m h.recoverable.consistent ∙ e) h.sound;
  }
  Step-IsSystem σ τ h (finishes before behind t t' m m' rounds b b' o room e) =
      becomes-IsSystem before behind t t' m m' h
        (λ p. commit-Leaves t.state rounds t t' m m' o b b' room h.recoverable p e)

  -- Whatever transactions do one beside the other, the log can be recovered and the last record of each
  -- transaction is one of its own: from any such state, by calls of `make_transaction`, `begin`,
  -- `append_log` and `commit` and flushes of the log, while LSNs have not run out and the file system
  -- does not fail.
  pub Runs-IsSystem : (σ τ : System) → IsSystem σ → Runs σ τ → IsSystem τ
  Runs-IsSystem σ τ h (stays σ') = h
  Runs-IsSystem σ τ h (goes σ' υ τ' run step) = Step-IsSystem υ τ' (Runs-IsSystem σ' υ h run) step
