-- ===== src/Transactions.antt =====
-- transactions/transaction.cpp. A transaction shares the log manager and the buffer pool with the others;
-- of the buffer pool it calls `flush_dirty` only, which is a parameter.
pub mod Links
pub mod Leaves
pub mod Runs
pub mod Durability
use deltabase_c.Prelude.{ℕ, Option, none, some}
use deltabase_c.Types.Value.{Uuid}
use deltabase_c.Types.WalLog
use deltabase_c.Types.WalLog.{WalRecord, header_of, with_header}
use deltabase_c.Wal.Manager
use deltabase_c.Wal.Manager.{FileWalManager, Outcome, returned, threw, Fault, wait_for_durable}

pub data TransactionState : Type 0 where
  idle active committed aborted : TransactionState

pub record Transaction : Type 0 where
  pub id : Uuid
  pub state : TransactionState
  pub last_lsn : ℕ

unfoldable pub make_transaction : Uuid → Transaction
make_transaction id = record { id = id; state = idle; last_lsn = 0 }

-- The record is logged, and its LSN becomes the last one.
abbrev pub logged :
    TransactionState → WalRecord → Transaction → FileWalManager → Transaction × FileWalManager
logged state r t m =
    let (lsn, m') = Manager.append_log r m in (record t { state = state; last_lsn = lsn }, m')

abbrev pub begin_record : Transaction → WalRecord
begin_record t =
    WalRecord.begin_txn
      (record { header = record { lsn = 0; prev_lsn = t.last_lsn; txn_id = t.id } })

-- `none` is the exception that the state is not idle.
unfoldable pub begin_in :
    TransactionState → Transaction → FileWalManager → Option (Transaction × FileWalManager)
begin_in idle t m = some (logged active (begin_record t) t m)
begin_in state t m = none

unfoldable pub begin : Transaction → FileWalManager → Option (Transaction × FileWalManager)
unfolding begin_in
begin t m = begin_in t.state t m

-- The record with the transaction's id, linked to the record that it wrote before.
abbrev pub with_txn_id : Transaction → WalRecord → WalRecord
with_txn_id t r = with_header (record (header_of r) { txn_id = t.id; prev_lsn = t.last_lsn }) r

pub append_in :
    TransactionState
    → WalRecord
    → Transaction
    → FileWalManager
    → Option (Transaction × FileWalManager)
append_in active r t m = some (logged active (with_txn_id t r) t m)
append_in state r t m = none

pub append_log : WalRecord → Transaction → FileWalManager → Option (Transaction × FileWalManager)
unfolding append_in
append_log r t m = append_in t.state r t m

abbrev pub commit_record : Transaction → WalRecord
commit_record t =
    WalRecord.commit_txn
      (record { header = record { lsn = 0; prev_lsn = t.last_lsn; txn_id = t.id } })

module _ {B : Type 0} (flush_dirty : ℕ → B → Option B) where
  -- What a call of `commit` comes to, and the state after it.
  abbrev pub Committed : Type 0
  Committed = Outcome (Unit {0}) × Transaction × FileWalManager × B

  pub written_back : Option B → Transaction → FileWalManager → B → Committed
  written_back none t m b = (threw, t, m, b)
  written_back (some b') t m b = (returned tt, record t { state = committed }, m, b')

  pub after_wait : Option (Outcome (Unit {0}) × FileWalManager) → Transaction → B → Option Committed
  unfolding written_back
  after_wait none t b = none
  after_wait (some (threw, m)) t b = some (threw, t, m, b)
  after_wait (some (returned u, m)) t b = some (written_back (flush_dirty t.last_lsn b) t m b)

  pub commit_in :
      TransactionState
      → ℕ
      → (ℕ → Option Fault)
      → Transaction
      → FileWalManager
      → B
      → Option Committed
  unfolding after_wait
  commit_in active rounds faults t m b =
      let (t', m') = logged active (commit_record t) t m in
      after_wait (wait_for_durable rounds faults t'.last_lsn m') t' b
  commit_in state rounds faults t m b = some (threw, t, m, b)

  -- `none` is that it still waits for the log after so many rounds.
  pub commit : ℕ → (ℕ → Option Fault) → Transaction → FileWalManager → B → Option Committed
  unfolding commit_in
  commit rounds faults t m b = commit_in t.state rounds faults t m b
