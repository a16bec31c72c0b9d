-- ===== src/Recovery/Undo/Clr.antt =====
-- Compensation records: logging one keeps the log recoverable.
use deltabase_c.Prelude.{
  All-append, ℕ, ◌+◌, ◌≤◌, ◌≡◌, sym, ◌∙◌, ap, List, [], ◌∷◌, ◌++◌, arith, some, true, ◌⊎◌, inl, inr,
  Eq, All, append_assoc, append-nil,
}
use deltabase_c.Types.Value.{Uuid}
use deltabase_c.Types.WalLog.Txn.{Header}
use deltabase_c.Types.WalLog.{
  WalRecord, txn_of, header_of, set_lsn, with_header, header_of-with_header,
}
use deltabase_c.Wal.Manager.{FileWalManager, read_log, read_all_logs}
use deltabase_c.Wal.Manager.Invariant.{HasRoom, stamped}
use deltabase_c.Wal.Manager.Lookup.{found_below}
use deltabase_c.Wal.Manager.Durable.{no_faults}
use deltabase_c.Recovery.Io.{IoManager}
use deltabase_c.Recovery.Kinds.{
  Kind, kind_of, back, is_clr, is_undoable, make_clr, data_record, meta_record, data_clr, meta_clr,
  begins, commits, rolls_back,
}
use deltabase_c.Recovery.Kinds.Compensates.{make_clr-some, make_clr-Compensates}
use deltabase_c.Recovery.Kinds.Headers.{with_header-twice}
use deltabase_c.Recovery.Undo.{World, Cursor, log_clr}
use deltabase_c.Recovery.Undo.Appends.{
  IsRecoverable, IsLinked, UndoesAs, Keeps, append_and_flush-Logged,
}

module _ ⦃uuid_eq : Eq Uuid⦄ {S : Type 0} (io : IoManager S) where
  -- The log from `m` to `m'`: at most `n` records have been added, all of transaction `t`.
  pub record Extends (t : Uuid) (n : ℕ) (m m' : FileWalManager) : Type 0 where
    pub recoverable : IsRecoverable io m'
    pub added : List WalRecord
    pub logs : read_all_logs m' ≡ read_all_logs m ++ added
    pub mine : All (λ q. txn_of q ≡ t) added
    pub room : m'.next_lsn ≤ m.next_lsn + n
    pub keeps : Keeps io m m'

  pub Extends-same : (t : Uuid) (n : ℕ) (m : FileWalManager) → IsRecoverable io m → Extends t n m m
  Extends-same t n m h = record {
    recoverable = h;
    added = [];
    logs = sym (append-nil (read_all_logs m));
    mine = tt;
    room = omega arith;
    keeps = λ lsn q e. e;
  }

  pub Extends-trans :
      (t : Uuid) (n k j : ℕ) (m m1 m2 : FileWalManager)
      → n + k ≤ j
      → Extends t n m m1
      → Extends t k m1 m2
      → Extends t j m m2
  Extends-trans t n k j m m1 m2 l a b = record {
    recoverable = b.recoverable;
    added = a.added ++ b.added;
    logs = rw (b.logs, a.logs) (append_assoc (read_all_logs m) a.added b.added);
    mine = All-append (λ q. txn_of q ≡ t) a.added b.added a.mine b.mine;
    room = omega (arith, a.room, b.room, l);
    keeps = λ lsn q e. b.keeps lsn q (a.keeps lsn q e);
  }

  -- The record is one of transaction `t`, or there is none.
  abbrev pub Points : Uuid → ℕ → FileWalManager → Type 0
  Points t lsn m = (lsn ≡ 0) ⊎ ((q : WalRecord) × (read_log lsn m ≡ some q) × (txn_of q ≡ t))

  UndoesAs-clr : (k : Kind) (r : WalRecord) → is_clr k ≡ true → UndoesAs io k r
  UndoesAs-clr (data_record p t) r e = cc
  UndoesAs-clr meta_record r e = cc
  UndoesAs-clr (data_clr p t next) r e = tt
  UndoesAs-clr (meta_clr next) r e = tt
  UndoesAs-clr begins r e = cc
  UndoesAs-clr commits r e = cc
  UndoesAs-clr rolls_back r e = cc

  -- The CLR as it is logged.
  abbrev logged_clr : ℕ → WalRecord → FileWalManager → WalRecord
  logged_clr lsn clr m = stamped (set_lsn lsn clr) m

  logged_clr_lem :
      (lsn : ℕ) (clr : WalRecord) (m : FileWalManager)
      → logged_clr lsn clr m
        ≡ with_header (record (header_of (set_lsn lsn clr)) { lsn = m.next_lsn }) clr
  logged_clr_lem lsn clr m = with_header-twice _ (record (header_of clr) { lsn = lsn }) clr

  txn_of-logged_clr :
      (lsn : ℕ) (clr : WalRecord) (m : FileWalManager) → txn_of (logged_clr lsn clr m) ≡ txn_of clr
  txn_of-logged_clr lsn clr m =
      ap (λ (h : Header). h.txn_id) (header_of-with_header _ (set_lsn lsn clr))
      ∙ ap (λ (h : Header). h.txn_id) (header_of-with_header _ clr)

  logged_clr-IsLinked :
      (lsn k : ℕ) (r clr : WalRecord) (m : FileWalManager)
      → IsRecoverable io m
      → read_log lsn m ≡ some r
      → make_clr r ≡ some clr
      → IsLinked io m m.next_lsn (logged_clr k clr m)
  logged_clr-IsLinked lsn k r clr m h e c =
      let comp = make_clr-Compensates r clr c in
      let l = h.linked lsn r e in
      let s = logged_clr_lem k clr m in
      let b : back (logged_clr k clr m) ≡ back r = rw s (comp.same_back _) in
      let t : txn_of (logged_clr k clr m) ≡ txn_of r = txn_of-logged_clr k clr m ∙ comp.same_txn in
      let below = found_below lsn m r h.consistent e in
      record {
        descends = omega (arith, b, l.descends, below);
        leads = elim l.leads [ inl z ↦ inl (b ∙ z) | inr (q, f, u) ↦ inr (q, rw b f, u ∙ sym t) ];
        undoes =
            UndoesAs-clr (kind_of (logged_clr k clr m)) (logged_clr k clr m)
              (rw s (comp.is_clr_of _));
      }

  -- `log_clr` for a record that is found.
  pub record LoggedClr (r : WalRecord) (c : Cursor S) (w' : World S) : Type 0 where
    pub is_logged : log_clr io no_faults r c ≡ some w'
    pub extends : Extends (txn_of r) 1 c.world.wal w'.wal
    pub same_store : w'.store ≡ c.world.store

  pub log_clr-LoggedClr :
      (r : WalRecord) (c : Cursor S)
      → IsRecoverable io c.world.wal
      → HasRoom c.world.wal
      → read_log c.current c.world.wal ≡ some r
      → is_undoable (kind_of r) ≡ true
      → (w' : World S) × LoggedClr r c w'
  unfolding log_clr
  log_clr-LoggedClr r c h room e u =
      let (clr, k) = make_clr-some r u in
      let m : FileWalManager = c.world.wal in
      let (w', is, l) =
        append_and_flush-Logged io (set_lsn c.txn_prev_lsn clr) c.world room h
          (logged_clr-IsLinked c.current c.txn_prev_lsn r clr m h e k) in
      let comp = make_clr-Compensates r clr k in
      (
        w',
        record {
          is_logged = rw k is;
          extends = record {
            recoverable = l.recoverable;
            added = logged_clr c.txn_prev_lsn clr m ∷ [];
            logs = l.logs;
            mine = (txn_of-logged_clr c.txn_prev_lsn clr m ∙ comp.same_txn, tt);
            room = omega (arith, l.next);
            keeps = l.keeps;
          };
          same_store = l.same_store;
        },
      )
