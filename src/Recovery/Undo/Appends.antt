-- ===== src/Recovery/Undo/Appends.antt =====
-- What the recovery needs of a log, and that it still has it after the recovery appended a record.
use deltabase_c.Prelude.{
  All, ℕ, ◌+◌, ◌<◌, ◌≡◌, refl, sym, ◌∙◌, [], ◌∷◌, ◌++◌, none, some, Option, ◌⊎◌, inl, inr,
  Bool-cases, ◌==◌, ==_iff, Eq,
}
use deltabase_c.Types.Value.{Uuid}
use deltabase_c.Types.Page.{DataPage}
use deltabase_c.Types.WalLog.{WalRecord, txn_of}
use deltabase_c.Wal.Manager.{FileWalManager, append_log, flush, read_log, read_all_logs}
use deltabase_c.Wal.Manager.Invariant.{
  IsConsistent, HasRoom, stamped, append_log-IsConsistent, read_log-append_log, flush-IsConsistent,
  flush_lem, flushed_all, read_all_logs-append_log_lem, next_lsn-append_log,
}
use deltabase_c.Wal.Manager.Lookup.{
  read_log-all, find_log-lsn_of, found_in, read_log-flush, found_stays,
}
use deltabase_c.Wal.Manager.Durable.{no_faults}
use deltabase_c.Recovery.Io.{IoManager}
use deltabase_c.Recovery.Kinds.{Kind, kind_of, back, data_record, meta_record}
use deltabase_c.Recovery.Undo.{lsn_of, World, undo_meta, append_and_flush, written}

module _ ⦃uuid_eq : Eq Uuid⦄ {S : Type 0} (io : IoManager S) where
  -- The disk does not throw when the record is undone.
  abbrev pub UndoesAs : Kind → WalRecord → Type 0
  UndoesAs (data_record page_id table_id) r =
      ((s : S) → (found : Option DataPage) × (io.read_data_page page_id s ≡ some found))
      × ((page : DataPage) (s : S) → (s' : S) × (io.write_page page s ≡ some s'))
  UndoesAs meta_record r = (s : S) → (s' : S) × (undo_meta io r s ≡ some s')
  UndoesAs k r = Unit {0}

  -- A record found under `lsn` leads back to an older one of its transaction, or to none.
  pub record IsLinked (m : FileWalManager) (lsn : ℕ) (r : WalRecord) : Type 0 where
    pub descends : back r < lsn
    pub leads :
        (back r ≡ 0) ⊎ ((q : WalRecord) × (read_log (back r) m ≡ some q) × (txn_of q ≡ txn_of r))
    pub undoes : UndoesAs (kind_of r) r

  pub record IsRecoverable (m : FileWalManager) : Type 0 where
    pub consistent : IsConsistent m
    pub linked : (lsn : ℕ) (r : WalRecord) → read_log lsn m ≡ some r → IsLinked m lsn r

  -- It is enough that each record of the log is linked.
  pub IsRecoverable-All :
      (m : FileWalManager)
      → IsConsistent m
      → All (λ r. IsLinked m (lsn_of r) r) (read_all_logs m)
      → IsRecoverable m
  IsRecoverable-All m h l = record {
    consistent = h;
    linked = λ lsn r e.
        let f = sym (read_log-all lsn m h) ∙ e in
        rw (← find_log-lsn_of lsn (read_all_logs m) r f)
          (found_in (λ q. IsLinked m (lsn_of q) q) lsn (read_all_logs m) r l f);
  }

  -- What is found in one manager is found in the other.
  abbrev pub Keeps : FileWalManager → FileWalManager → Type 0
  Keeps m m' = (lsn : ℕ) (q : WalRecord) → read_log lsn m ≡ some q → read_log lsn m' ≡ some q

  pub IsLinked-Keeps :
      (m m' : FileWalManager) (lsn : ℕ) (r : WalRecord)
      → Keeps m m'
      → IsLinked m lsn r
      → IsLinked m' lsn r
  IsLinked-Keeps m m' lsn r k h = record {
    descends = h.descends;
    leads = elim h.leads [ inl e ↦ inl e | inr (q, e, t) ↦ inr (q, k (back r) q e, t) ];
    undoes = h.undoes;
  }

  pub append_log-IsRecoverable :
      (r : WalRecord) (m : FileWalManager)
      → HasRoom m
      → IsRecoverable m
      → IsLinked m m.next_lsn (stamped r m)
      → IsRecoverable (append_log r m).1
  append_log-IsRecoverable r m room h new =
      let kept : Keeps m (append_log r m).1 = λ lsn q e. found_stays lsn m r q h.consistent e in
      record {
        consistent = append_log-IsConsistent r m room h.consistent;
        linked = λ lsn q e.
            let e' = rw (read_log-append_log r m lsn h.consistent) at e in
            elim (Bool-cases (m.next_lsn == lsn)) [
              | inl here ↦
                  let n : m.next_lsn ≡ lsn = (==_iff m.next_lsn lsn).0 here in
                  let s : stamped r m ≡ q = cc (rw here at e') in
                  rw (← s, ← n)
                    (IsLinked-Keeps m (append_log r m).1 m.next_lsn (stamped r m) kept new)
              | inr there ↦
                  IsLinked-Keeps m (append_log r m).1 lsn q kept (h.linked lsn q (rw there at e'))
            ];
      }

  pub flush-IsRecoverable : (m : FileWalManager) → IsRecoverable m → IsRecoverable (flush none m).1
  flush-IsRecoverable m h =
      let kept : Keeps m (flush none m).1 = λ lsn q e. read_log-flush lsn m h.consistent ∙ e in
      record {
        consistent = (flush-IsConsistent m h.consistent).4;
        linked = λ lsn q e.
            IsLinked-Keeps m (flush none m).1 lsn q kept
              (h.linked lsn q (sym (read_log-flush lsn m h.consistent) ∙ e));
      }

  -- What `append_and_flush` did.
  pub record Logged (r : WalRecord) (w w' : World S) : Type 0 where
    pub recoverable : IsRecoverable w'.wal
    pub logs : read_all_logs w'.wal ≡ read_all_logs w.wal ++ stamped r w.wal ∷ []
    pub next : w'.wal.next_lsn ≡ w.wal.next_lsn + 1
    pub same_store : w'.store ≡ w.store
    pub keeps : Keeps w.wal w'.wal

  pub append_and_flush-Logged :
      (r : WalRecord) (w : World S)
      → HasRoom w.wal
      → IsRecoverable w.wal
      → IsLinked w.wal w.wal.next_lsn (stamped r w.wal)
      → (w' : World S) × (append_and_flush io no_faults r w ≡ some w') × Logged r w w'
  unfolding append_and_flush written
  append_and_flush-Logged r w room h new =
      let m : FileWalManager = (append_log r w.wal).1 in
      let h' = append_log-IsRecoverable r w.wal room h new in
      let e = flush_lem m h'.consistent in
      (
        record { wal = flushed_all m; store = w.store },
        rw e,
        record {
          recoverable = rw e at (flush-IsRecoverable m h');
          logs =
              (rw e at (flush-IsConsistent m h'.consistent).1)
              ∙ read_all_logs-append_log_lem r w.wal;
          next = next_lsn-append_log r w.wal room;
          same_store = refl;
          keeps = λ lsn q f.
              (rw e at (read_log-flush lsn m h'.consistent))
              ∙ found_stays lsn w.wal r q h.consistent f;
        },
      )
