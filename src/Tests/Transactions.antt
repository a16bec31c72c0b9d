-- ===== src/Tests/Transactions.antt =====
-- Transactions on the log that a crash left.
use deltabase_c.Prelude.{◌∙◌, ℕ, ◌+◌, ◌∷◌, [], ◌≡◌, refl, arith, some, Option, true, inr}
use deltabase_c.Types.WalLog.{header_of}
use deltabase_c.Wal.Manager.{FileWalManager, returned, find_log}
use deltabase_c.Wal.Manager.Invariant.{IsConsistent}
use deltabase_c.Wal.Manager.Lookup.{read_log-all}
use deltabase_c.Wal.Manager.Durable.{no_faults}
use deltabase_c.Wal.Manager.{read_all_logs}
use deltabase_c.Recovery.Lsns.{contains}
use deltabase_c.Recovery.Analysis.{get_commit_lsns}
use deltabase_c.Transactions.{
  Transaction, active, committed, commit, make_transaction, begin, begin_in, begin_record, logged,
}
use deltabase_c.Transactions.Leaves.{IsSound}
use deltabase_c.Transactions.Runs.{
  System, IsSystem, Runs, stays, goes, makes, starts, Runs-IsSystem, becomes,
}
use deltabase_c.Transactions.Durability.{commit-durable}
use deltabase_c.Tests.Storage.{ones}
use deltabase_c.Tests.Recovery.{
  uuid_eq, disk, crashed, crashed-IsRecoverable, crashed-IsConsistent, adds,
}

-- The transaction that inserted the row.
abbrev inserting : Transaction
inserting = record { id = ones; state = active; last_lsn = 2 }

inserting-IsSound : IsSound disk inserting crashed
inserting-IsSound = inr (
  adds,
  read_log-all 2 crashed crashed-IsConsistent ∙ unfold read_all_logs find_log header_of in refl,
  unfold header_of in refl,
)

-- A buffer pool that counts how often it is flushed.
abbrev count_flush : ℕ → ℕ → Option ℕ
count_flush lsn n = some (n + 1)

commit-durable_example :
    (t' : Transaction) × (m' : FileWalManager) × (b' : ℕ) × (commit count_flush 2 no_faults
        inserting crashed 0
      ≡ some (returned tt, t', m', b'))
    × (t'.state ≡ committed)
    × IsConsistent m'
    × (contains ones (get_commit_lsns m'.flushed) ≡ true)
commit-durable_example =
    commit-durable disk count_flush 0 inserting crashed 0 refl (omega arith) crashed-IsRecoverable
      inserting-IsSound (λ lsn n. (n + 1, refl))

abbrev at_first : System
at_first = record { wal = crashed; txns = inserting ∷ [] }

abbrev made : Transaction
made = make_transaction ones

abbrev begun : Transaction × FileWalManager
begun = logged active (begin_record made) made crashed

abbrev at_last : System
at_last = becomes [] (inserting ∷ []) begun.0 begun.1

at_first-IsSystem : IsSystem disk count_flush at_first
at_first-IsSystem = record { recoverable = crashed-IsRecoverable; sound = (inserting-IsSound, tt) }

begins_anew : Runs disk count_flush at_first at_last
unfolding make_transaction begin begin_in
begins_anew =
    goes at_first (becomes [] (inserting ∷ []) made crashed) at_last
      (goes at_first at_first (becomes [] (inserting ∷ []) made crashed) (stays at_first)
        (makes ones crashed (inserting ∷ [])))
      (starts [] (inserting ∷ []) made begun.0 crashed begun.1 (omega arith) refl)

Runs-IsSystem_example : IsSystem disk count_flush at_last
Runs-IsSystem_example =
    Runs-IsSystem disk count_flush at_first at_last at_first-IsSystem begins_anew
