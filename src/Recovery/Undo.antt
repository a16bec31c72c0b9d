-- ===== src/Recovery/Undo.antt =====
-- recovery_manager.cpp: `undo`, `undo_record` and `recover`.
pub mod Appends
pub mod Headers
pub mod Clr
pub mod Step
pub mod Chain
pub mod Rollback
pub mod Completes
use deltabase_c.Prelude.{
  ℕ, zero, suc, ◌+◌, ◌==◌, List, [], ◌∷◌, Option, none, some, Bool, true, false, if◌then◌else◌, Eq,
}
use deltabase_c.Types.Value.{Uuid}
use deltabase_c.Types.WalLog
use deltabase_c.Types.WalLog.{WalRecord, lsn_of, header_of, set_lsn}
use deltabase_c.Wal.Manager.{
  FileWalManager, Outcome, returned, threw, Fault, append_log, flush, read_log, read_all_logs,
}
use deltabase_c.Recovery.Io.{IoManager, ◌>>=◌}
use deltabase_c.Recovery.Kinds.{
  Kind, kind_of, make_clr, data_record, meta_record, data_clr, meta_clr, begins, commits,
  rolls_back,
}
use deltabase_c.Recovery.Pages.{undo_rows}
use deltabase_c.Types.Page.{DataPage}
use deltabase_c.Recovery.Lsns.{LsnMap}
use deltabase_c.Recovery.Redo.{add_index, remove_index, redo_all}
use deltabase_c.Recovery.Analysis.{get_commit_lsns, active_txns}

-- What the recovery works on: the log manager and the disk.
pub record World (S : Type 0) : Type 0 where
  pub wal : FileWalManager
  pub store : S

-- The locals of a round of `undo`.
pub record Cursor (S : Type 0) : Type 0 where
  pub current : ℕ
  pub txn_prev_lsn : ℕ
  pub rollback_marker_seen : Bool
  pub world : World S

pub data Run {ℓ} (A : Type ℓ) : Type ℓ where
  done : A → Run A
  stopped : Run A
  out_of_fuel : Run A

module _ ⦃uuid_eq : Eq Uuid⦄ {S : Type 0} (io : IoManager S) where
  pub undo_meta : WalRecord → S → Option S
  undo_meta (WalRecord.create_schema r) s = io.delete_ms r.schema s
  undo_meta (WalRecord.update_schema r) s = io.write_ms r.before s
  undo_meta (WalRecord.delete_schema r) s = io.write_ms r.before s
  undo_meta (WalRecord.create_table r) s = io.delete_mt r.after s
  undo_meta (WalRecord.update_table r) s = io.write_mt r.before s
  undo_meta (WalRecord.delete_table r) s = io.write_mt r.before s
  undo_meta (WalRecord.create_index r) s = remove_index io r.after s
  undo_meta (WalRecord.drop_index r) s = add_index io r.before s
  undo_meta r s = some s

module _ ⦃uuid_eq : Eq Uuid⦄ {S : Type 0} (io : IoManager S) (faults : ℕ → Option Fault) where
  pub written : S → Outcome (Unit {0}) × FileWalManager → Option (World S)
  written s (returned u, m) = some (record { wal = m; store = s })
  written s (threw, m) = none

  -- `wal_.append_log(record); wal_.flush()`; the file system's behaviour may differ from flush to flush.
  pub append_and_flush : WalRecord → World S → Option (World S)
  unfolding written
  append_and_flush r w = written w.store (flush (faults w.wal.next_lsn) (append_log r w.wal).1)

  -- The CLR is logged first. Every record that comes here has one.
  pub log_clr : WalRecord → Cursor S → Option (World S)
  unfolding append_and_flush
  log_clr r c = do clr ← make_clr r; append_and_flush (set_lsn c.txn_prev_lsn clr) c.world

  abbrev pub went_back : WalRecord → Cursor S → Cursor S
  went_back r c = record c { current = (header_of r).prev_lsn }

  -- After the CLR has been logged in `w` and the record undone in `s`.
  abbrev pub compensated : WalRecord → World S → S → Cursor S → Cursor S
  compensated r w s c = record c {
    current = (header_of r).prev_lsn;
    txn_prev_lsn = c.world.wal.next_lsn;
    world = record { wal = w.wal; store = s };
  }

  pub undo_on_page : Option DataPage → WalRecord → Cursor S → Option (Cursor S)
  unfolding log_clr
  undo_on_page none r c = some (went_back r c)
  undo_on_page (some page) r c = do
    w ← log_clr r c
    s ←
        io.write_page
          (record page { rows = undo_rows r page.rows; last_lsn = c.world.wal.next_lsn }) w.store
    some (compensated r w s c)

  pub undo_page : WalRecord → Uuid → Cursor S → Option (Cursor S)
  unfolding undo_on_page
  undo_page r page_id c = do found ← io.read_data_page page_id c.world.store; undo_on_page found r c

  pub undo_meta_record : WalRecord → Cursor S → Option (Cursor S)
  unfolding log_clr undo_meta
  undo_meta_record r c = do w ← log_clr r c; s ← undo_meta io r w.store; some (compensated r w s c)

  pub undo_kind : Kind → WalRecord → Cursor S → Option (Cursor S)
  unfolding undo_page undo_meta_record
  undo_kind rolls_back r c =
      some (record c { current = 0; txn_prev_lsn = lsn_of r; rollback_marker_seen = true })
  undo_kind (data_clr page_id table_id next) r c =
      some (record c { current = next; txn_prev_lsn = lsn_of r })
  undo_kind (meta_clr next) r c = some (record c { current = next; txn_prev_lsn = lsn_of r })
  undo_kind (data_record page_id table_id) r c = undo_page r page_id c
  undo_kind meta_record r c = undo_meta_record r c
  undo_kind begins r c = some (went_back r c)
  undo_kind commits r c = some (went_back r c)

  -- `none` is an exception.
  pub undo_step : Cursor S → Option (Cursor S)
  unfolding undo_kind
  undo_step c = do r ← read_log c.current c.world.wal; undo_kind (kind_of r) r c

  pub undo_loop : ℕ → Cursor S → Run (Cursor S)
  unfolding undo_step
  undo_loop zero c = if c.current == 0 then done c else out_of_fuel
  undo_loop (suc fuel) c =
      if c.current == 0
      then done c
      else elim (undo_step c) [ none ↦ stopped | some c' ↦ undo_loop fuel c' ]

  pub rollback_marker : Uuid → Cursor S → WalRecord
  rollback_marker txn_id c =
      WalRecord.rollback_txn
        (record { header = record { lsn = c.txn_prev_lsn; prev_lsn = 0; txn_id = txn_id } })

  pub end_txn : Uuid → Run (Cursor S) → Run (World S)
  unfolding rollback_marker append_and_flush
  end_txn txn_id (done c) =
      if c.rollback_marker_seen
      then done c.world
      else elim (append_and_flush (rollback_marker txn_id c) c.world) [
        | none ↦ stopped
        | some w ↦ done w
      ]
  end_txn txn_id stopped = stopped
  end_txn txn_id out_of_fuel = out_of_fuel

  -- Each record that is undone has a lower LSN than the one before.
  pub undo_txn : Uuid → ℕ → World S → Run (World S)
  unfolding end_txn undo_loop
  undo_txn txn_id last_lsn w = end_txn txn_id (
      undo_loop last_lsn (record {
        current = last_lsn;
        txn_prev_lsn = last_lsn;
        rollback_marker_seen = false;
        world = w;
      }))

  pub undo : LsnMap → World S → Run (World S)
  unfolding undo_txn
  undo [] w = done w
  undo ((txn_id, lsn) ∷ active) w = elim (undo_txn txn_id lsn w) [
    | done w' ↦ undo active w'
    | stopped ↦ stopped
    | out_of_fuel ↦ out_of_fuel
  ]

  -- `iterate` is the order in which the map of the active transactions is gone through.
  pub recover : (checkpoint : ℕ) (iterate : LsnMap → LsnMap) → World S → Run (World S)
  unfolding undo
  recover checkpoint iterate w =
      let wal = read_all_logs w.wal in
      elim (redo_all io checkpoint (get_commit_lsns wal) wal w.store) [
        | none ↦ stopped
        | some s ↦ undo (iterate (active_txns wal)) (record w { store = s })
      ]
