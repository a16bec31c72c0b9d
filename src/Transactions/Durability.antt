-- ===== src/Transactions/Durability.antt =====
-- A commit that returns is durable.
use deltabase_c.Prelude.{ℕ, suc, ◌≡◌, refl, sym, ◌∙◌, some, Option, true, Eq}
use deltabase_c.Types.Value.{Uuid}
use deltabase_c.Types.WalLog.{header_of, with_header}
use deltabase_c.Wal.Manager.{FileWalManager, returned, wait_for_durable, read_log}
use deltabase_c.Wal.Manager.Invariant.{IsConsistent, HasRoom, stamped}
use deltabase_c.Wal.Manager.Lookup.{read_log-all, found_below, found_durable}
use deltabase_c.Wal.Manager.Durable.{no_faults, wait_for_durable-returns}
use deltabase_c.Recovery.Io.{IoManager}
use deltabase_c.Recovery.Kinds.{kind_of, is_commit}
use deltabase_c.Recovery.Lsns.{contains}
use deltabase_c.Recovery.Analysis.{get_commit_lsns}
use deltabase_c.Recovery.Analysis.Markers.{contains-get_commit_lsns}
use deltabase_c.Recovery.Undo.Appends.{IsRecoverable}
use deltabase_c.Recovery.Undo.Chain.{has-found}
use deltabase_c.Transactions.{
  Transaction, active, committed, commit, commit_in, after_wait, written_back, logged,
  commit_record,
}
use deltabase_c.Transactions.Links.{logged-Linked}
use deltabase_c.Transactions.Leaves.{IsSound}

module _ ⦃uuid_eq : Eq Uuid⦄ {S : Type 0} (io : IoManager S) {B : Type 0}
    (flush_dirty : ℕ → B → Option B) where
  commits_in :
      (rounds : ℕ) (t : Transaction) (m m' : FileWalManager) (b b' : B)
      → t.state ≡ active
      → wait_for_durable rounds no_faults
          (logged active (commit_record t) t m).0.last_lsn
          (logged active (commit_record t) t m).1
        ≡ some (returned tt, m')
      → flush_dirty (logged active (commit_record t) t m).0.last_lsn b ≡ some b'
      → commit flush_dirty rounds no_faults t m b
        ≡ some (
          returned tt,
          record (logged active (commit_record t) t m).0 { state = committed },
          m',
          b',
        )
  unfolding commit commit_in after_wait written_back
  commits_in rounds t m m' b b' a e f = rw (a, commit) (rw (e, f) refl)

  -- A commit of an active transaction returns after one flush of the log at most, if the file system and
  -- the buffer pool do not fail; then the transaction is committed, the manager is consistent, and the
  -- commit is among the flushed records: what a new manager reads back shows the transaction committed.
  pub commit-durable :
      (rounds : ℕ) (t : Transaction) (m : FileWalManager) (b : B)
      → t.state ≡ active
      → HasRoom m
      → IsRecoverable io m
      → IsSound io t m
      → ((lsn : ℕ) (b : B) → (b' : B) × (flush_dirty lsn b ≡ some b'))
      → (t' : Transaction) × (m' : FileWalManager) × (b' : B) × (commit flush_dirty
            (suc (suc rounds))
            no_faults
            t
            m
            b
          ≡ some (returned tt, t', m', b'))
        × (t'.state ≡ committed)
        × IsConsistent m'
        × (contains t.id (get_commit_lsns m'.flushed) ≡ true)
  unfolding kind_of header_of with_header
  commit-durable rounds t m b a room h p flushes =
      let l =
        logged-Linked io active (commit_record t) t m room h p
          (record { plain = refl; linked = refl; mine = refl; undoes = tt }) in
      let t1 : Transaction = (logged active (commit_record t) t m).0 in
      let m1 : FileWalManager = (logged active (commit_record t) t m).1 in
      let below =
        found_below t1.last_lsn m1 (stamped (commit_record t) m) l.recoverable.consistent l.found in
      let (m', e, d, same, c) =
        wait_for_durable-returns rounds t1.last_lsn m1 l.recoverable.consistent below in
      let (b', f) = flushes t1.last_lsn b in
      let found : read_log t1.last_lsn m' ≡ some (stamped (commit_record t) m) =
        read_log-all t1.last_lsn m' c
        ∙ rw same (sym (read_log-all t1.last_lsn m1 l.recoverable.consistent) ∙ l.found) in
      (
        record t1 { state = committed },
        m',
        b',
        commits_in (suc (suc rounds)) t m m' b b' a e f,
        refl,
        c,
        contains-get_commit_lsns t.id m'.flushed
            ∙ has-found io is_commit t.id t1.last_lsn m'.flushed (stamped (commit_record t) m)
                (found_durable t1.last_lsn m' (stamped (commit_record t) m) c d found) refl l.mine,
      )
