-- ===== src/Recovery/Analysis.antt =====
-- recovery_manager.cpp: what the log says of the transactions.
pub mod Markers
use deltabase_c.Prelude.{ℕ, List, [], ◌∷◌, Bool, not, ◌||◌, if◌then◌else◌, Eq}
use deltabase_c.Types.Value.{Uuid}
use deltabase_c.Types.WalLog.{WalRecord, lsn_of, txn_of}
use deltabase_c.Recovery.Kinds.{kind_of, is_commit, is_rollback}
use deltabase_c.Recovery.Lsns.{LsnMap, assign, contains}

module _ ⦃uuid_eq : Eq Uuid⦄ where
  unfoldable pub get_commit_lsns_from : LsnMap → List WalRecord → LsnMap
  get_commit_lsns_from lsns [] = lsns
  get_commit_lsns_from lsns (r ∷ rs) =
      get_commit_lsns_from
        (if is_commit (kind_of r) then assign (txn_of r) (lsn_of r) lsns else lsns) rs

  unfoldable pub get_commit_lsns : List WalRecord → LsnMap
  unfolding get_commit_lsns_from
  get_commit_lsns rs = get_commit_lsns_from [] rs

  unfoldable pub get_rollback_lsns_from : LsnMap → List WalRecord → LsnMap
  get_rollback_lsns_from lsns [] = lsns
  get_rollback_lsns_from lsns (r ∷ rs) =
      get_rollback_lsns_from
        (if is_rollback (kind_of r) then assign (txn_of r) (lsn_of r) lsns else lsns) rs

  unfoldable pub get_rollback_lsns : List WalRecord → LsnMap
  unfolding get_rollback_lsns_from
  get_rollback_lsns rs = get_rollback_lsns_from [] rs

  unfoldable pub get_last_lsns_from : LsnMap → List WalRecord → LsnMap
  get_last_lsns_from lsns [] = lsns
  get_last_lsns_from lsns (r ∷ rs) = get_last_lsns_from (assign (txn_of r) (lsn_of r) lsns) rs

  unfoldable pub get_last_lsns : List WalRecord → LsnMap
  unfolding get_last_lsns_from
  get_last_lsns rs = get_last_lsns_from [] rs

  -- The keys of `last` differ, so that each is added at the end.
  unfoldable pub get_active_txns : LsnMap → LsnMap → LsnMap → LsnMap
  get_active_txns [] commit rollback = []
  get_active_txns ((txn_id, lsn) ∷ last) commit rollback =
      let rest = get_active_txns last commit rollback in
      if contains txn_id commit || contains txn_id rollback then rest else (txn_id, lsn) ∷ rest

  -- The transactions that the log leaves open.
  abbrev pub active_txns : List WalRecord → LsnMap
  active_txns rs = get_active_txns (get_last_lsns rs) (get_commit_lsns rs) (get_rollback_lsns rs)
