-- ===== src/Recovery/Undo/Completes.antt =====
-- `undo` and `recover` end, with every transaction ended in the log.
use deltabase_c.Prelude.{
  All-append, All-map, append_assoc, ℕ, ◌+◌, ◌<◌, ◌^◌, ◌≡◌, refl, sym, ◌∙◌, List, [], ◌∷◌, ◌++◌,
  arith, some, true, inl, inr, Eq, All, append-nil,
}
use mathlib.Core.List.{Permᴰ}
use mathlib.Core.List.Permᴰ
use deltabase_c.Types.Value.{Uuid}
use mathlib.Core.Path.{subst}
use deltabase_c.Types.WalLog.{WalRecord, lsn_of, txn_of}
use deltabase_c.Wal.Manager.{FileWalManager, read_all_logs, find_log}
use deltabase_c.Wal.Manager.Lookup.{read_log-all, read_log-member}
use deltabase_c.Wal.Manager.Durable.{no_faults}
use deltabase_c.Recovery.Io.{IoManager}
use deltabase_c.Recovery.Lsns.{LsnMap}
use deltabase_c.Recovery.Kinds.{is_rollback, is_commit}
use deltabase_c.Recovery.Redo.{redo_all}
use deltabase_c.Recovery.Analysis.{get_commit_lsns, get_rollback_lsns, get_last_lsns, active_txns}
use deltabase_c.Recovery.Analysis.Markers.{
  has, has-append, is_over, contains_lem, no_active, from_active, to_active, get_last_lsns-All,
  get_last_lsns-append-All,
}
use deltabase_c.Recovery.Undo.{World, done, undo_txn, undo, recover}
use deltabase_c.Recovery.Undo.Appends.{IsRecoverable}
use deltabase_c.Recovery.Undo.Clr.{Points}
use deltabase_c.Recovery.Undo.Rollback.{undo_txn-Ended}

-- How many LSNs undoing the transactions takes at most.
abbrev pub budget : LsnMap → ℕ
budget [] = 0
budget ((txn_id, lsn) ∷ active) = lsn + 1 + budget active

module _ ⦃uuid_eq : Eq Uuid⦄ {S : Type 0} (io : IoManager S) where
  -- Every transaction of the list has been rolled back in `m'`, and only their records added.
  record AllEnded (active : LsnMap) (m m' : FileWalManager) : Type 0 where
    recoverable : IsRecoverable io m'
    added : List WalRecord
    logs : read_all_logs m' ≡ read_all_logs m ++ added
    are_marked : All (λ e. has is_rollback e.0 (read_all_logs m') ≡ true) active
    added_marked : All (λ q. has is_rollback (txn_of q) (read_all_logs m') ≡ true) added

  undoes_rest :
      (t : Uuid) (lsn : ℕ) (active : LsnMap) (w w1 w2 : World S)
      → undo_txn io no_faults t lsn w ≡ done w1
      → undo io no_faults active w1 ≡ done w2
      → undo io no_faults ((t, lsn) ∷ active) w ≡ done w2
  unfolding undo
  undoes_rest t lsn active w w1 w2 e f = rw (e, undo) f

  undo-AllEnded :
      (active : LsnMap) (w : World S)
      → IsRecoverable io w.wal
      → w.wal.next_lsn + budget active < 2 ^ 64
      → All (λ e. Points io e.0 e.1 w.wal) active
      → (w' : World S) × (undo io no_faults active w ≡ done w') × AllEnded active w.wal w'.wal
  unfolding undo
  undo-AllEnded [] w h room p = (
    w,
    refl,
    record {
      recoverable = h;
      added = [];
      logs = sym (append-nil (read_all_logs w.wal));
      are_marked = tt;
      added_marked = tt;
    },
  )
  undo-AllEnded ((t, lsn) ∷ active) w h room p =
      let (w1, e1, d) = undo_txn-Ended io t lsn w h (omega (arith, room)) p.0 in
      let x = d.extends in
      let points =
        All-map (λ e. Points io e.0 e.1 w.wal) (λ e. Points io e.0 e.1 w1.wal)
          (λ e q. elim q [ inl z ↦ inl z | inr (r, f, u) ↦ inr (r, x.keeps e.1 r f, u) ]) active
          p.1 in
      let (w2, e2, k) =
        undo-AllEnded active w1 x.recoverable (omega (arith, x.room, room)) points in
      let later : has is_rollback t (read_all_logs w2.wal) ≡ true =
        rw (k.logs, has-append is_rollback t (read_all_logs w1.wal) k.added, d.is_marked) refl in
      (
        w2,
        undoes_rest t lsn active w w1 w2 e1 e2,
        record {
          recoverable = k.recoverable;
          added = x.added ++ k.added;
          logs = rw (k.logs, x.logs) (append_assoc (read_all_logs w.wal) x.added k.added);
          are_marked = (later, k.are_marked);
          added_marked =
              All-append (λ q. has is_rollback (txn_of q) (read_all_logs w2.wal) ≡ true) x.added
                k.added (All-map (λ q. txn_of q ≡ t) _ (λ q u. rw u later) x.added x.mine)
                k.added_marked;
        },
      )

  -- The entries of the analysis point into the log.
  active-Points :
      (m : FileWalManager)
      → IsRecoverable io m
      → All (λ e. Points io e.0 e.1 m) (active_txns (read_all_logs m))
  active-Points m h =
      to_active (λ e. Points io e.0 e.1 m) (get_last_lsns (read_all_logs m)) _ _
        (get_last_lsns-All (λ e. Points io e.0 e.1 m) (read_all_logs m)
          (All-map (λ r. find_log (lsn_of r) (read_all_logs m) ≡ some r) _
            (λ r e. inr (r, read_log-all (lsn_of r) m h.consistent ∙ e, refl)) (read_all_logs m)
            (read_log-member m h.consistent)))

  stays_over :
      (t : Uuid) (rs qs : List WalRecord) → is_over t rs ≡ true → is_over t (rs ++ qs) ≡ true
  stays_over t rs qs e =
      rw (has-append is_commit t rs qs, has-append is_rollback t rs qs) (ground (arith, e))

  over_marked : (t : Uuid) (rs : List WalRecord) → has is_rollback t rs ≡ true → is_over t rs ≡ true
  over_marked t rs e = ground (arith, e)

  -- With every transaction that was active rolled back, the analysis finds none.
  ended-active_txns :
      (active : LsnMap) (m m' : FileWalManager)
      → AllEnded active m m'
      → All (λ e. has is_rollback e.0 (read_all_logs m') ≡ true) (active_txns (read_all_logs m))
      → active_txns (read_all_logs m') ≡ []
  ended-active_txns active m m' d k =
      let rs : List WalRecord = read_all_logs m in
      let rs' : List WalRecord = read_all_logs m' in
      let before : All (λ e. is_over e.0 rs' ≡ true) (get_last_lsns rs) =
        from_active (λ e. is_over e.0 rs' ≡ true) (get_last_lsns rs) (get_commit_lsns rs)
          (get_rollback_lsns rs)
          (λ e o. rw d.logs (stays_over e.0 rs d.added (sym (contains_lem e.0 rs) ∙ o)))
          (All-map _ _ (λ e o. over_marked e.0 rs' o) (active_txns rs) k) in
      let after : All (λ e. is_over e.0 rs' ≡ true) (get_last_lsns rs') =
        subst (λ l. All (λ e. is_over e.0 rs' ≡ true) (get_last_lsns l)) (sym d.logs)
          (get_last_lsns-append-All (λ e. is_over e.0 rs' ≡ true) rs d.added before
            (All-map _ _ (λ q o. over_marked (txn_of q) rs' o) d.added d.added_marked)) in
      no_active (get_last_lsns rs') (get_commit_lsns rs') (get_rollback_lsns rs')
        (All-map _ _ (λ e o. contains_lem e.0 rs' ∙ o) (get_last_lsns rs') after)

  All-Perm {ℓ} : (P : Uuid × ℕ → Type ℓ) (l l' : LsnMap) → Permᴰ l l' → All P l → All P l'
  All-Perm P l l' Permᴰ.nil h = tt
  All-Perm P l l' (Permᴰ.cons e p) h = (rw (← e) h.0, All-Perm P _ _ p h.1)
  All-Perm P l l' (Permᴰ.swap e f) h = (rw (← f) h.1.0, (rw (← e) h.0, h.1.1))
  All-Perm P l l' (Permᴰ.trans p q) h = All-Perm P _ _ q (All-Perm P _ _ p h)

  recovers :
      (checkpoint : ℕ) (iterate : LsnMap → LsnMap) (w w' : World S) (s : S)
      → redo_all io checkpoint (get_commit_lsns (read_all_logs w.wal)) (read_all_logs w.wal) w.store
        ≡ some s
      → undo io no_faults (iterate (active_txns (read_all_logs w.wal))) (record w { store = s })
        ≡ done w'
      → recover io no_faults checkpoint iterate w ≡ done w'
  unfolding recover
  recovers checkpoint iterate w w' s e f = rw (e, recover) f

  -- A recovery whose redo gets through ends, whatever the order in which the active transactions are
  -- undone: the records of the log stay, the CLRs and rollback markers are added behind them, the log
  -- manager is consistent, and no transaction is active any more, so that the next recovery undoes nothing.
  pub recover-completes :
      (checkpoint : ℕ) (iterate : LsnMap → LsnMap) (w : World S) (s : S)
      → IsRecoverable io w.wal
      → ((l : LsnMap) → Permᴰ (iterate l) l)
      → w.wal.next_lsn + budget (iterate (active_txns (read_all_logs w.wal))) < 2 ^ 64
      → redo_all io checkpoint (get_commit_lsns (read_all_logs w.wal)) (read_all_logs w.wal) w.store
        ≡ some s
      → (w' : World S) × (recover io no_faults checkpoint iterate w ≡ done w')
        × (active_txns (read_all_logs w'.wal) ≡ [])
        × ((added : List WalRecord) × (read_all_logs w'.wal ≡ read_all_logs w.wal ++ added))
        × IsRecoverable io w'.wal
  recover-completes checkpoint iterate w s h perm room e =
      let active : LsnMap = active_txns (read_all_logs w.wal) in
      let p = perm active in
      let points =
        All-Perm (λ e. Points io e.0 e.1 w.wal) active (iterate active) (Permᴰ.symm p)
          (active-Points w.wal h) in
      let (w', u, d) = undo-AllEnded (iterate active) (record w { store = s }) h room points in
      (
        w',
        recovers checkpoint iterate w w' s e u,
        ended-active_txns (iterate active) w.wal w'.wal d
            (All-Perm _ (iterate active) active p d.are_marked),
        (d.added, d.logs),
        d.recoverable,
      )
