-- ===== src/Wal/Manager/Restart.antt =====
-- A manager that is opened on the files of another one.
use deltabase_c.Prelude.{◌+◌, ◌<◌, ◌^◌, ◌≡◌, List, [], ◌∷◌, arith, All}
use deltabase_c.Types.WalLog.{WalRecord}
use deltabase_c.Wal.Manager.{
  FileWalManager, returned, logs, write_all, last_lsn, sort_files, read_files, hydrate_cache,
  open_manager, file_first_lsn,
}
use deltabase_c.Wal.Manager.Rising.{Rising, sort_logs-Rising, Rising-prefix, next_after-Rising}
use deltabase_c.Wal.Manager.Invariant.{IsConsistent, first_files}
use deltabase_c.Wal.Manager.Frames.{IsStorable, Uninitialised, IsUninitialised}
use deltabase_c.Wal.Manager.Chunks.{
  Chunk, add_all, write_all-as_files, contents-add_all, sort_files-InOrder, read_files-as_files,
  make_first_file-write_all,
}

-- What is left of a manager when the process dies.
abbrev pub after_crash : FileWalManager → FileWalManager
after_crash m = record m { next_lsn = m.flushed_lsn + 1; dirty = [] }

first_chunk : List Chunk
first_chunk = (1, []) ∷ []

module _ (u : Uninitialised) (hu : IsUninitialised u) where
  read_written :
      (rs : List WalRecord)
      → Rising 0 rs
      → last_lsn 0 rs + 1 < 2 ^ 64
      → All IsStorable rs
      → read_files u.locals u.record_size (sort_files (write_all rs first_files)) ≡ logs rs
  unfolding first_chunk file_first_lsn
  read_written rs h l st =
      let (top, c, o) =
        contents-add_all 0 1 rs first_chunk (omega arith) h l (omega arith, omega arith) in
      rw (write_all-as_files rs first_chunk, sort_files-InOrder 0 top (add_all rs first_chunk) o)
        (rw c at (read_files-as_files u hu (add_all rs first_chunk) (rw c st)))

  hydrate_lem :
      (rs : List WalRecord)
      → Rising 0 rs
      → last_lsn 0 rs + 1 < 2 ^ 64
      → All IsStorable rs
      → open_manager u.locals u.record_size (write_all rs first_files)
        ≡ returned (record {
          next_lsn = last_lsn 0 rs + 1;
          flushed_lsn = last_lsn 0 rs;
          flushed = rs;
          dirty = [];
          files = write_all rs first_files;
        })
  unfolding open_manager hydrate_cache
  hydrate_lem rs h l st =
      rw (make_first_file-write_all rs (1, []) [], read_written rs h l st, sort_logs-Rising 0 rs h)
        (rw (next_after-Rising 0 rs h l))

  -- A crash loses exactly what was not flushed: opened on the files of a consistent manager, a new
  -- one has its flushed records, its durable LSN and its files, nothing that is in memory only, and
  -- goes on behind the durable LSN; if the LSNs have not run out and each flushed record can be
  -- stored.
  pub open_manager-recovers :
      (m : FileWalManager)
      → IsConsistent m
      → m.flushed_lsn + 1 < 2 ^ 64
      → All IsStorable m.flushed
      → open_manager u.locals u.record_size m.files ≡ returned (after_crash m)
  open_manager-recovers m h room st =
      rw
        (
          h.stored,
          hydrate_lem m.flushed (Rising-prefix 0 m.flushed m.dirty h.rising)
              (omega (arith, h.durable, room)) st,
        )
        (cc h.durable)
