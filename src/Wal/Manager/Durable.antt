-- ===== src/Wal/Manager/Durable.antt =====
-- `wait_for_durable` and `flush`, when the file system works and when it does not.
use deltabase_c.Prelude.{
  ℕ, suc, zero, ◌≤◌, ◌<◌, ◌≡◌, refl, ap, ◌∙◌, List, [], ◌∷◌, arith, none, some, Option, lt→ltb,
}
use native.Mathlib.Decide.{dec_lt}
use deltabase_c.Wal.Manager.{LogFile}
use deltabase_c.Wal.Manager.Rising.{
  Rising, Rising-suffix, Rising-prefix, find_log_above, find_log_below,
}
use deltabase_c.Types.WalLog.{WalRecord}
use deltabase_c.Wal.Manager.{
  FileWalManager, Outcome, returned, threw, Fault, flush, flush_batch, write_logs, wait_for_durable,
  read_all_logs, last_lsn, read_log, find_log, or_else,
}
use deltabase_c.Wal.Manager.Invariant.{IsConsistent, flush-IsConsistent, flushed_all, flush_lem}

-- The file system never fails.
abbrev pub no_faults : ℕ → Option Fault
no_faults round = none

-- A round that flushes.
pub wait_step :
    (rounds : ℕ) (faults : ℕ → Option Fault) (lsn : ℕ) (m m' : FileWalManager)
    → m.flushed_lsn < lsn
    → flush (faults rounds) m ≡ (returned tt, m')
    → wait_for_durable (suc rounds) faults lsn m ≡ wait_for_durable rounds faults lsn m'
unfolding wait_for_durable
wait_step rounds faults lsn m m' l e =
    rw (lt→ltb m.flushed_lsn lsn l, wait_for_durable)
      (rw e (
        ap (λ (q : Outcome (Unit {0}) × FileWalManager). wait_for_durable rounds faults lsn q.1) e))

waits_not :
    (rounds lsn : ℕ) (m : FileWalManager)
    → lsn ≤ m.flushed_lsn
    → wait_for_durable (suc rounds) no_faults lsn m ≡ some (returned tt, m)
unfolding wait_for_durable
waits_not rounds lsn m h = ground (arith, h)

flushed_enough :
    (lsn : ℕ) (m : FileWalManager)
    → IsConsistent m
    → lsn < m.next_lsn
    → lsn ≤ (flushed_all m).flushed_lsn
flushed_enough lsn m h k = omega (arith, h.next, k)

waits_once :
    (rounds lsn : ℕ) (m : FileWalManager)
    → IsConsistent m
    → lsn < m.next_lsn
    → m.flushed_lsn < lsn
    → wait_for_durable (suc (suc rounds)) no_faults lsn m ≡ some (returned tt, flushed_all m)
waits_once rounds lsn m h k l =
    wait_step (suc rounds) no_faults lsn m (flushed_all m) l (flush_lem m h)
    ∙ waits_not rounds lsn (flushed_all m) (flushed_enough lsn m h k)

-- Of an LSN that has been given out, `wait_for_durable` returns after one flush at most, if the file
-- system does not fail; the LSN is durable then, no record is lost or moved, and the manager is
-- consistent.
pub wait_for_durable-returns :
    (rounds lsn : ℕ) (m : FileWalManager)
    → IsConsistent m
    → lsn < m.next_lsn
    → (m' : FileWalManager) × (wait_for_durable (suc (suc rounds)) no_faults lsn m
        ≡ some (returned tt, m'))
      × (lsn ≤ m'.flushed_lsn)
      × (read_all_logs m' ≡ read_all_logs m)
      × IsConsistent m'
unfolding read_all_logs
wait_for_durable-returns rounds lsn m h k = elim (dec_lt m.flushed_lsn lsn) [
  | yes l ↦
      let all = rw (flush_lem m h) at (flush-IsConsistent m h) in
      (flushed_all m, waits_once rounds lsn m h k l, flushed_enough lsn m h k, all.1, all.4)
  | no l ↦ (m, waits_not (suc rounds) lsn m (omega arith), omega arith, refl, h)
]

flush_nothing : (m : FileWalManager) → m.dirty ≡ [] → flush none m ≡ (returned tt, m)
unfolding flush flush_batch
flush_nothing m e = rw (e, flush_batch)

waits_forever :
    (rounds lsn : ℕ) (m : FileWalManager)
    → m.dirty ≡ []
    → m.flushed_lsn < lsn
    → wait_for_durable rounds no_faults lsn m ≡ none
unfolding wait_for_durable
waits_forever zero lsn m e l = refl
waits_forever (suc rounds) lsn m e l =
    wait_step rounds no_faults lsn m m l (flush_nothing m e) ∙ waits_forever rounds lsn m e l

in_dirty :
    (lo lsn : ℕ) (rs : List WalRecord) (r : WalRecord)
    → Rising lo rs
    → find_log lsn rs ≡ some r
    → lo < lsn
in_dirty lo lsn rs r h e = elim (dec_lt lo lsn) [
  | yes l ↦ l
  | no l ↦ cc (find_log_below lo lsn rs h (omega arith), e)
]

failed_flush_lem :
    (fault : Fault) (rs : List WalRecord) (m : FileWalManager) (lsn : ℕ) (r : WalRecord)
    → find_log lsn rs ≡ some r
    → (files : List LogFile) × (flush_batch (some fault) rs m
        ≡ (threw, record m { dirty = []; files = files }))
unfolding flush_batch write_logs find_log
failed_flush_lem fault [] m lsn r e = cc
failed_flush_lem fault (q ∷ rs) m lsn r e = (_, refl)

-- When the file system fails during a flush, a record that was only in memory is lost: the flush
-- throws, the record is no longer found, and to wait for its LSN never ends, however long and
-- even if the file system works again.
pub failed_flush_loses :
    (fault : Fault) (m : FileWalManager) (lsn : ℕ) (r : WalRecord)
    → IsConsistent m
    → find_log lsn m.dirty ≡ some r
    → ((flush (some fault) m).0 ≡ threw)
      × (read_log lsn (flush (some fault) m).1 ≡ none)
      × ((rounds : ℕ) → wait_for_durable rounds no_faults lsn (flush (some fault) m).1 ≡ none)
unfolding flush read_log or_else find_log
failed_flush_loses fault m lsn r h e =
    let (files, lost) = failed_flush_lem fault m.dirty m lsn r e in
    let above : last_lsn 0 m.flushed < lsn =
      in_dirty (last_lsn 0 m.flushed) lsn m.dirty r (Rising-suffix 0 m.flushed m.dirty h.rising)
        e in
    rw lost (
      refl,
      find_log_above 0 lsn m.flushed (Rising-prefix 0 m.flushed m.dirty h.rising) above,
      λ rounds. waits_forever rounds lsn _ refl (omega (arith, h.durable)),
    )
