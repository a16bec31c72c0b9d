-- ===== src/Wal/Manager/Waiting.antt =====
-- `wait_for_durable` changes nothing of what is found, however many rounds it takes.
use deltabase_c.Prelude.{sym, ℕ, zero, suc, ◌≡◌, refl, ◌∙◌, some, Bool-cases, inl, inr, ltb, ltb→lt}
use deltabase_c.Wal.Manager.{FileWalManager, Outcome, read_log, wait_for_durable}
use deltabase_c.Wal.Manager.Invariant.{IsConsistent, flush-IsConsistent, flush_lem, flushed_all}
use deltabase_c.Wal.Manager.Durable.{no_faults, wait_step}
use deltabase_c.Wal.Manager.Lookup.{read_log-flush}

-- Consistent, and with all that was found.
pub record Same (m m' : FileWalManager) : Type 0 where
  pub consistent : IsConsistent m'
  pub finds : (lsn : ℕ) → read_log lsn m' ≡ read_log lsn m

pub wait_for_durable-Same :
    (rounds lsn : ℕ) (m m' : FileWalManager) (o : Outcome (Unit {0}))
    → IsConsistent m
    → wait_for_durable rounds no_faults lsn m ≡ some (o, m')
    → Same m m'
unfolding wait_for_durable
wait_for_durable-Same zero lsn m m' o h e = cc
wait_for_durable-Same (suc rounds) lsn m m' o h e = elim (Bool-cases (ltb m.flushed_lsn lsn)) [
  | inr enough ↦
      let s : m ≡ m' = cc (rw (enough, wait_for_durable) at e) in
      rw (← s) (record { consistent = h; finds = λ l. refl })
  | inl more ↦
      let f = flush_lem m h in
      let step =
        wait_step rounds no_faults lsn m (flushed_all m) (ltb→lt m.flushed_lsn lsn more) f in
      let h' = (rw f at (flush-IsConsistent m h)).4 in
      let k = wait_for_durable-Same rounds lsn (flushed_all m) m' o h' (sym step ∙ e) in
      record {
        consistent = k.consistent;
        finds = λ l. k.finds l ∙ (rw f at (read_log-flush l m h));
      }
]
