-- ===== src/Transactions/Leaves.antt =====
-- What `begin` and `append_log` leave of a log that can be recovered.
use deltabase_c.Prelude.{ap, ◌≡◌, refl, List, some, Option, true, inl, inr, Eq, All, All-map}
use deltabase_c.Types.Value.{Uuid}
use deltabase_c.Types.WalLog.Txn.{Header}
use deltabase_c.Types.WalLog.{WalRecord, header_of, header_of-with_header}
use deltabase_c.Wal.Manager.{FileWalManager}
use deltabase_c.Wal.Manager.Invariant.{HasRoom}
use deltabase_c.Recovery.Io.{IoManager}
use deltabase_c.Recovery.Kinds.{
  Kind, kind_of, is_plain, is_undoable, data_record, meta_record, data_clr, meta_clr, begins,
  commits, rolls_back,
}
use deltabase_c.Recovery.Kinds.Headers.{kind_of-with_header}
use deltabase_c.Recovery.Undo.Headers.{UndoesAs-with_header}
use deltabase_c.Recovery.Undo.Appends.{IsRecoverable, UndoesAs, Keeps}
use deltabase_c.Recovery.Undo.Clr.{Points}
use deltabase_c.Transactions.{
  Transaction, TransactionState, idle, active, committed, aborted, begin_in, append_in, logged,
  begin_record, with_txn_id,
}
use deltabase_c.Transactions.Links.{IsNext, logged-Linked}

module _ ⦃uuid_eq : Eq Uuid⦄ {S : Type 0} (io : IoManager S) where
  -- The last record of a transaction is its own, if it has one.
  abbrev pub IsSound : Transaction → FileWalManager → Type 0
  IsSound t m = Points io t.id t.last_lsn m

  -- What a method leaves.
  pub record Leaves (t : Transaction) (m : FileWalManager) (t' : Transaction) (m' : FileWalManager)
      : Type 0 where
    pub recoverable : IsRecoverable io m'
    pub keeps : Keeps io m m'
    pub sound : IsSound t' m'

  pub IsSound-Keeps :
      (m m' : FileWalManager) → Keeps io m m' → (t : Transaction) → IsSound t m → IsSound t m'
  IsSound-Keeps m m' k t (inl z) = inl z
  IsSound-Keeps m m' k t (inr (q, e, u)) = inr (q, k t.last_lsn q e, u)

  pub Keeps-IsSound :
      (m m' : FileWalManager) (txns : List Transaction)
      → Keeps io m m'
      → All (λ t. IsSound t m) txns
      → All (λ t. IsSound t m') txns
  Keeps-IsSound m m' txns k h =
      All-map (λ t. IsSound t m) (λ t. IsSound t m') (IsSound-Keeps m m' k) txns h

  pub logged-Leaves :
      (state : TransactionState) (r : WalRecord) (t : Transaction) (m : FileWalManager)
      → HasRoom m
      → IsRecoverable io m
      → IsSound t m
      → IsNext io t r
      → Leaves t m (logged state r t m).0 (logged state r t m).1
  logged-Leaves state r t m room h p n =
      let l = logged-Linked io state r t m room h p n in
      record { recoverable = l.recoverable; keeps = l.keeps; sound = inr (_, l.found, l.mine) }

  pub same_outcome :
      (t t1 t2 : Transaction) (m m1 m2 : FileWalManager)
      → ◌≡◌ {A = Option (Transaction × FileWalManager)} (some (t1, m1)) (some (t2, m2))
      → Leaves t m t1 m1
      → Leaves t m t2 m2
  same_outcome t t1 t2 m m1 m2 e l =
      let a : t1 ≡ t2 = cc e in let b : m1 ≡ m2 = cc e in rw (← a, ← b) l

  pub begin-Leaves :
      (state : TransactionState) (t t' : Transaction) (m m' : FileWalManager)
      → HasRoom m
      → IsRecoverable io m
      → IsSound t m
      → begin_in state t m ≡ some (t', m')
      → Leaves t m t' m'
  unfolding begin_in kind_of header_of
  begin-Leaves idle t t' m m' room h p e = same_outcome t _ t' m _ m' e (
      logged-Leaves active (begin_record t) t m room h p
        (record { plain = refl; linked = refl; mine = refl; undoes = tt }))
  begin-Leaves active t t' m m' room h p e = cc
  begin-Leaves committed t t' m m' room h p e = cc
  begin-Leaves aborted t t' m m' room h p e = cc

  plain_of : (k : Kind) → is_undoable k ≡ true → is_plain k ≡ true
  plain_of (data_record p t) e = refl
  plain_of meta_record e = refl
  plain_of (data_clr p t next) e = cc
  plain_of (meta_clr next) e = cc
  plain_of begins e = refl
  plain_of commits e = refl
  plain_of rolls_back e = cc

  pub append_log-Leaves :
      (state : TransactionState) (r : WalRecord) (t t' : Transaction) (m m' : FileWalManager)
      → HasRoom m
      → IsRecoverable io m
      → IsSound t m
      → is_undoable (kind_of r) ≡ true
      → UndoesAs io (kind_of r) r
      → append_in state r t m ≡ some (t', m')
      → Leaves t m t' m'
  unfolding append_in
  append_log-Leaves idle r t t' m m' room h p k u e = cc
  append_log-Leaves active r t t' m m' room h p k u e =
      let g =
        header_of-with_header (record (header_of r) { txn_id = t.id; prev_lsn = t.last_lsn }) r in
      same_outcome t _ t' m _ m' e (
        logged-Leaves active (with_txn_id t r) t m room h p (record {
          plain = rw (kind_of-with_header _ r) (plain_of (kind_of r) k);
          linked = ap (λ (x : Header). x.prev_lsn) g;
          mine = ap (λ (x : Header). x.txn_id) g;
          undoes = UndoesAs-with_header io _ r u;
        }))
  append_log-Leaves committed r t t' m m' room h p k u e = cc
  append_log-Leaves aborted r t t' m m' room h p k u e = cc
