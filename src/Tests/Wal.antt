-- ===== src/Tests/Wal.antt =====
-- The log at concrete records and managers.
use deltabase_c.Prelude.{ℕ, ◌+◌, ◌∷◌, [], List, ◌≡◌, ◌≤◌, arith, refl, replicate, some, none}
use deltabase_c.Stream.{Parses}
use deltabase_c.Types.WalLog.{WalRecord, IsWalRecord, header_of, set_lsn}
use deltabase_c.Types.WalLog.Txn.{Header, IsHeader}
use deltabase_c.Wal.Locals.{Locals, IsLocals}
use deltabase_c.Wal.Serializer.{serialize, deserialize}
use deltabase_c.Wal.Serializer.RoundTrip.{deserialize-serialize, length-serialize_begin_txn}
use deltabase_c.Wal.Manager.{
  FileWalManager, returned, threw, Fault, append_log, flush, read_log, read_all_logs,
  wait_for_durable, open_manager, write_all, last_lsn, find_log,
}
use deltabase_c.Wal.Manager.Invariant.{
  IsConsistent, first_files, append_log-IsConsistent, read_log-append_log, flush-IsConsistent,
}
use deltabase_c.Wal.Manager.Durable.{no_faults, wait_for_durable-returns, failed_flush_loses}
use deltabase_c.Wal.Manager.Frames.{IsStorable, Uninitialised}
use deltabase_c.Wal.Manager.Restart.{after_crash, open_manager-recovers}
use deltabase_c.Tests.Storage.{ones, first_row, first_row-IsRow}

abbrev pub header : ℕ → Header
header lsn = record { lsn = lsn; prev_lsn = 0; txn_id = ones }

abbrev pub begins : WalRecord
begins = WalRecord.begin_txn (record { header = header 1 })

abbrev pub inserts : WalRecord
inserts =
    WalRecord.insert
      (record { header = header 2; table_id = ones; page_id = ones; after = first_row })

abbrev junk : List ℕ
junk = replicate 8 255

abbrev stack : Locals
stack = record { type = junk; lsn = junk; prev_lsn = junk; undo_next_lsn = junk }

stack-IsLocals : IsLocals stack
stack-IsLocals = record { type = refl; lsn = refl; prev_lsn = refl; undo_next_lsn = refl }

pub inserts-IsWalRecord : IsWalRecord inserts
inserts-IsWalRecord = (
  record { lsn = omega arith; prev_lsn = omega arith; txn_id = refl },
  refl,
  refl,
  first_row-IsRow,
)

deserialize-serialize_example : Parses (deserialize stack) (serialize inserts).buffer inserts
deserialize-serialize_example =
    deserialize-serialize stack inserts stack-IsLocals inserts-IsWalRecord

-- A manager of an empty directory.
abbrev fresh : FileWalManager
fresh = record { next_lsn = 1; flushed_lsn = 0; flushed = []; dirty = []; files = first_files }

-- One record in the files and one in memory.
abbrev running : FileWalManager
running = record {
  next_lsn = 3;
  flushed_lsn = 1;
  flushed = begins ∷ [];
  dirty = inserts ∷ [];
  files = write_all (begins ∷ []) first_files;
}

running-IsConsistent : IsConsistent running
running-IsConsistent = record {
  rising = unfold header_of in (omega arith, (omega arith, tt));
  next = unfold last_lsn header_of in refl;
  durable = unfold last_lsn header_of in refl;
  stored = refl;
}

append_log-IsConsistent_example : IsConsistent (append_log inserts running).1
append_log-IsConsistent_example =
    append_log-IsConsistent inserts running (omega arith) running-IsConsistent

read_log-append_log_example : read_log 3 (append_log inserts running).1 ≡ some (set_lsn 3 inserts)
read_log-append_log_example = read_log-append_log inserts running 3 running-IsConsistent

flush-IsConsistent_example :
    ((flush none running).0 ≡ returned tt)
    × (read_all_logs (flush none running).1 ≡ read_all_logs running)
    × ((flush none running).1.dirty ≡ [])
    × ((flush none running).1.flushed_lsn + 1 ≡ 3)
    × IsConsistent (flush none running).1
flush-IsConsistent_example = flush-IsConsistent running running-IsConsistent

wait_for_durable-returns_example :
    (m' : FileWalManager) × (wait_for_durable 2 no_faults 2 running ≡ some (returned tt, m'))
    × (2 ≤ m'.flushed_lsn)
    × (read_all_logs m' ≡ read_all_logs running)
    × IsConsistent m'
wait_for_durable-returns_example =
    wait_for_durable-returns 0 2 running running-IsConsistent (omega arith)

-- The disk is full after nine bytes.
abbrev disk_full : Fault
disk_full = record { records = 0; bytes = 9 }

failed_flush_loses_example :
    ((flush (some disk_full) running).0 ≡ threw)
    × (read_log 2 (flush (some disk_full) running).1 ≡ none)
    × ((rounds : ℕ) → wait_for_durable rounds no_faults 2 (flush (some disk_full) running).1 ≡ none)
failed_flush_loses_example =
    failed_flush_loses disk_full running 2 inserts running-IsConsistent
      (unfold find_log header_of in refl)

abbrev left_over : Uninitialised
left_over = record { locals = stack; record_size = junk }

begins-IsStorable : IsStorable begins
begins-IsStorable =
    let h : IsHeader (header 1) = record {
      lsn = omega arith;
      prev_lsn = omega arith;
      txn_id = refl;
    } in
    record {
      record_fits = h;
      size_fits = omega (arith, length-serialize_begin_txn (record { header = header 1 }) h);
    }

open_manager-recovers_example :
    open_manager stack junk running.files ≡ returned (after_crash running)
open_manager-recovers_example =
    open_manager-recovers left_over (record { locals = stack-IsLocals; record_size = refl }) running
      running-IsConsistent (omega arith) (begins-IsStorable, tt)
