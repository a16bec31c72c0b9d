-- ===== src/Recovery/Undo/Rollback.antt =====
-- One transaction is rolled back: its records are undone, and a rollback marker is logged.
use deltabase_c.Prelude.{
  ℕ, ◌+◌, ◌<◌, ◌^◌, ◌≡◌, refl, [], ◌∷◌, arith, some, true, false, inl, inr, Bool-cases, Eq,
}
use deltabase_c.Types.Value.{Uuid}
use deltabase_c.Types.WalLog.{header_of, with_header, WalRecord}
use deltabase_c.Wal.Manager.{FileWalManager, read_all_logs}
use deltabase_c.Wal.Manager.Invariant.{HasRoom, stamped}
use deltabase_c.Wal.Manager.Durable.{no_faults}
use deltabase_c.Recovery.Io.{IoManager}
use deltabase_c.Recovery.Kinds.{back, kind_of, is_rollback}
use deltabase_c.Recovery.Analysis.Markers.{has, has-append}
use deltabase_c.Recovery.Undo.{
  append_and_flush, World, Cursor, done, undo_txn, end_txn, rollback_marker,
}
use deltabase_c.Recovery.Undo.Appends.{IsRecoverable, append_and_flush-Logged}
use deltabase_c.Recovery.Undo.Clr.{Extends, Extends-same, Extends-trans, Points}
use deltabase_c.Recovery.Undo.Chain.{loops}

module _ ⦃uuid_eq : Eq Uuid⦄ {S : Type 0} (io : IoManager S) where
  -- The transaction has been rolled back in `m'`, and nothing but its records added.
  pub record Ended (t : Uuid) (n : ℕ) (m m' : FileWalManager) : Type 0 where
    pub extends : Extends io t n m m'
    pub is_marked : has is_rollback t (read_all_logs m') ≡ true

  logs_marker :
      (t : Uuid) (c : Cursor S)
      → IsRecoverable io c.world.wal
      → HasRoom c.world.wal
      → (w' : World S) × (append_and_flush io no_faults (rollback_marker io no_faults t c) c.world
          ≡ some w')
        × Ended t 1 c.world.wal w'.wal
  unfolding rollback_marker with_header header_of kind_of back
  logs_marker t c h room =
      let marker : WalRecord = rollback_marker io no_faults t c in
      let (w', e, l) =
        append_and_flush-Logged io marker c.world room h
          (record { descends = omega (arith, h.consistent.next); leads = inl refl; undoes = tt }) in
      let b : uuid_eq.beq t t ≡ true = (uuid_eq.beq_iff t t).1 refl in
      let marked : has is_rollback t (stamped marker c.world.wal ∷ []) ≡ true = rw b refl in
      (
        w',
        e,
        record {
          extends = record {
            recoverable = l.recoverable;
            added = stamped marker c.world.wal ∷ [];
            logs = l.logs;
            mine = (refl, tt);
            room = omega (arith, l.next);
            keeps = l.keeps;
          };
          is_marked =
              rw
                (
                  l.logs,
                  has-append is_rollback t (read_all_logs c.world.wal)
                      (stamped marker c.world.wal ∷ []),
                  marked,
                )
                (ground arith);
        },
      )

  marks :
      (t : Uuid) (c : Cursor S) (w' : World S)
      → c.rollback_marker_seen ≡ false
      → append_and_flush io no_faults (rollback_marker io no_faults t c) c.world ≡ some w'
      → end_txn io no_faults t (done c) ≡ done w'
  unfolding end_txn
  marks t c w' u e = rw (u, end_txn, e) refl

  ends_txn :
      (t : Uuid) (lsn : ℕ) (c : Cursor S) (w : World S)
      → w.wal.next_lsn + lsn + 1 < 2 ^ 64
      → Extends io t lsn w.wal c.world.wal
      → (c.rollback_marker_seen ≡ true → has is_rollback t (read_all_logs c.world.wal) ≡ true)
      → (w' : World S) × (end_txn io no_faults t (done c) ≡ done w')
        × Ended t (lsn + 1) w.wal w'.wal
  unfolding end_txn
  ends_txn t lsn c w room x seen = elim (Bool-cases c.rollback_marker_seen) [
    | inl marked ↦ (
      c.world,
      rw marked,
      record {
        extends =
            Extends-trans io t lsn 0 (lsn + 1) w.wal c.world.wal c.world.wal (omega arith) x
              (Extends-same io t 0 c.world.wal x.recoverable);
        is_marked = seen marked;
      },
    )
    | inr unmarked ↦
        let (w', e, d) = logs_marker t c x.recoverable (omega (arith, x.room, room)) in
        (
          w',
          marks t c w' unmarked e,
          record {
            extends =
                Extends-trans io t lsn 1 (lsn + 1) w.wal c.world.wal w'.wal (omega arith) x
                  d.extends;
            is_marked = d.is_marked;
          },
        )
  ]

  pub undo_txn-Ended :
      (t : Uuid) (lsn : ℕ) (w : World S)
      → IsRecoverable io w.wal
      → w.wal.next_lsn + lsn + 1 < 2 ^ 64
      → Points io t lsn w.wal
      → (w' : World S) × (undo_txn io no_faults t lsn w ≡ done w') × Ended t (lsn + 1) w.wal w'.wal
  unfolding undo_txn
  undo_txn-Ended t lsn w h room p =
      let (c, e, l) =
        loops io t lsn
          (record { current = lsn; txn_prev_lsn = lsn; rollback_marker_seen = false; world = w }) h
          (omega arith) (omega (arith, room)) p in
      let (w', e', d) =
        ends_txn t lsn c w room l.extends
          (λ s. elim (l.has_seen s) [ inl f ↦ cc | inr marked ↦ marked ]) in
      (w', rw e e', d)
