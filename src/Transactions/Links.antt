-- ===== src/Transactions/Links.antt =====
-- A record that a transaction logs is linked to the one that it logged before.
use deltabase_c.Prelude.{◌≡◌, refl, sym, ◌∙◌, ap, arith, some, true, inl, inr, Eq, ==_refl}
use deltabase_c.Types.Value.{Uuid}
use deltabase_c.Types.WalLog.Txn.{Header}
use deltabase_c.Types.WalLog.{WalRecord, header_of, txn_of, header_of-with_header}
use deltabase_c.Wal.Manager.{FileWalManager, read_log}
use deltabase_c.Wal.Manager.Invariant.{HasRoom, stamped, append_log_lem, read_log-append_log}
use deltabase_c.Wal.Manager.Lookup.{found_below, found_stays}
use deltabase_c.Recovery.Io.{IoManager}
use deltabase_c.Recovery.Kinds.{kind_of, is_plain, back}
use deltabase_c.Recovery.Kinds.Headers.{back-with_header}
use deltabase_c.Recovery.Undo.Headers.{UndoesAs-with_header}
use deltabase_c.Recovery.Undo.Appends.{
  IsRecoverable, IsLinked, UndoesAs, Keeps, append_log-IsRecoverable,
}
use deltabase_c.Recovery.Undo.Clr.{Points}
use deltabase_c.Transactions.{TransactionState, Transaction, logged}

module _ ⦃uuid_eq : Eq Uuid⦄ {S : Type 0} (io : IoManager S) where
  -- A record that a transaction may log.
  pub record IsNext (t : Transaction) (r : WalRecord) : Type 0 where
    pub plain : is_plain (kind_of r) ≡ true
    pub linked : (header_of r).prev_lsn ≡ t.last_lsn
    pub mine : txn_of r ≡ t.id
    pub undoes : UndoesAs io (kind_of r) r

  pub record Linked (t : Transaction) (r : WalRecord) (m : FileWalManager) (t' : Transaction)
      (m' : FileWalManager) : Type 0 where
    pub recoverable : IsRecoverable io m'
    pub keeps : Keeps io m m'
    pub found : read_log t'.last_lsn m' ≡ some (stamped r m)
    pub last : t'.last_lsn ≡ m.next_lsn
    pub mine : txn_of (stamped r m) ≡ t.id

  pub logged-Linked :
      (state : TransactionState) (r : WalRecord) (t : Transaction) (m : FileWalManager)
      → HasRoom m
      → IsRecoverable io m
      → Points io t.id t.last_lsn m
      → IsNext t r
      → Linked t r m (logged state r t m).0 (logged state r t m).1
  logged-Linked state r t m room h p n =
      let mine : txn_of (stamped r m) ≡ t.id =
        ap (λ (g : Header). g.txn_id) (header_of-with_header _ r) ∙ n.mine in
      let b : back (stamped r m) ≡ t.last_lsn = back-with_header _ r n.plain ∙ n.linked in
      let l : IsLinked io m m.next_lsn (stamped r m) = record {
        descends = elim p [
          | inl z ↦ omega (arith, b, z, h.consistent.next)
          | inr (q, e, u) ↦ omega (arith, b, found_below t.last_lsn m q h.consistent e)
        ];
        leads = elim p [ inl z ↦ inl (b ∙ z) | inr (q, e, u) ↦ inr (q, rw b e, u ∙ sym mine) ];
        undoes = UndoesAs-with_header io _ r n.undoes;
      } in
      record {
        recoverable = append_log-IsRecoverable io r m room h l;
        keeps = λ lsn q e. found_stays lsn m r q h.consistent e;
        found =
            rw (append_log_lem r m)
              (read_log-append_log r m m.next_lsn h.consistent ∙ rw (==_refl m.next_lsn) refl);
        last = append_log_lem r m;
        mine = mine;
      }
