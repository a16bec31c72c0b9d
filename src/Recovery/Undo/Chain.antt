-- ===== src/Recovery/Undo/Chain.antt =====
-- The loop of `undo` over the records of one transaction ends, and leaves a log that can be recovered.
use deltabase_c.Prelude.{
  ℕ, zero, suc, ◌+◌, ◌<◌, ◌≤◌, ◌^◌, ◌≡◌, refl, sym, ◌∙◌, List, [], ◌∷◌, arith, some, true, false,
  Bool, ◌⊎◌, inl, inr, Bool-cases, ◌==◌, Eq,
}
use deltabase_c.Types.Value.{Uuid}
use deltabase_c.Types.WalLog.{WalRecord, lsn_of, txn_of}
use deltabase_c.Wal.Manager.{FileWalManager, read_all_logs, find_log}
use deltabase_c.Wal.Manager.Lookup.{read_log-all}
use deltabase_c.Wal.Manager.Durable.{no_faults}
use deltabase_c.Recovery.Io.{IoManager}
use deltabase_c.Recovery.Kinds.{Kind, kind_of, back, is_rollback}
use deltabase_c.Recovery.Analysis.Markers.{has, has-append}
use deltabase_c.Recovery.Undo.{Cursor, done, undo_step, undo_loop}
use deltabase_c.Recovery.Undo.Appends.{IsRecoverable}
use deltabase_c.Recovery.Undo.Clr.{Extends, Extends-same, Extends-trans, Points}
use deltabase_c.Recovery.Undo.Step.{step_kind}

module _ ⦃uuid_eq : Eq Uuid⦄ {S : Type 0} (io : IoManager S) where
  -- The loop that begins at a record of transaction `t`, or at none.
  pub record Looped (t : Uuid) (n : ℕ) (c c' : Cursor S) : Type 0 where
    pub extends : Extends io t n c.world.wal c'.world.wal
    pub has_seen :
        c'.rollback_marker_seen ≡ true
        → (c.rollback_marker_seen ≡ true) ⊎ (has is_rollback t (read_all_logs c'.world.wal) ≡ true)

  -- A record of the transaction that is found stands in the log.
  pub has-found :
      (p : Kind → Bool) (t : Uuid) (lsn : ℕ) (rs : List WalRecord) (r : WalRecord)
      → find_log lsn rs ≡ some r
      → p (kind_of r) ≡ true
      → txn_of r ≡ t
      → has p t rs ≡ true
  unfolding find_log
  has-found p t lsn [] r e k u = cc
  has-found p t lsn (q ∷ rs) r e k u = elim (Bool-cases (lsn_of q == lsn)) [
    | inl here ↦
        let s : q ≡ r = cc (rw here at e) in
        let b : uuid_eq.beq (txn_of r) t ≡ true = (uuid_eq.beq_iff (txn_of r) t).1 u in
        rw s (ground (arith, k, b))
    | inr there ↦ let rest = has-found p t lsn rs r (rw there at e) k u in ground (arith, rest)
  ]

  pub has-later :
      (p : Kind → Bool) (t t' : Uuid) (n : ℕ) (m m' : FileWalManager)
      → Extends io t n m m'
      → has p t' (read_all_logs m) ≡ true
      → has p t' (read_all_logs m') ≡ true
  has-later p t t' n m m' x e = rw (x.logs, has-append p t' (read_all_logs m) x.added, e) refl

  ends_at_zero : (fuel : ℕ) (c : Cursor S) → c.current ≡ 0 → undo_loop io no_faults fuel c ≡ done c
  unfolding undo_loop
  ends_at_zero zero c z = rw z
  ends_at_zero (suc fuel) c z = rw (z, undo_loop) refl

  goes_on :
      (fuel : ℕ) (c c' : Cursor S)
      → 0 < c.current
      → undo_step io no_faults c ≡ some c'
      → undo_loop io no_faults (suc fuel) c ≡ undo_loop io no_faults fuel c'
  unfolding undo_loop
  goes_on fuel c c' l e = let n : (c.current == 0) ≡ false = ground (arith, l) in rw (n, e) refl

  pub loops :
      (t : Uuid) (fuel : ℕ) (c : Cursor S)
      → IsRecoverable io c.world.wal
      → c.current ≤ fuel
      → c.world.wal.next_lsn + fuel < 2 ^ 64
      → Points io t c.current c.world.wal
      → (c' : Cursor S) × (undo_loop io no_faults fuel c ≡ done c') × Looped t fuel c c'
  loops t fuel c h f room (inl z) = (
    c,
    ends_at_zero fuel c z,
    record { extends = Extends-same io t fuel c.world.wal h; has_seen = λ s. inl s },
  )
  loops t zero c h f room (inr (r, e, u)) =
      absurd (let d = (h.linked c.current r e).descends in omega (arith, d, f))
  loops t (suc fuel) c h f room (inr (r, e, u)) =
      let l = h.linked c.current r e in
      let d = l.descends in
      let (c1, st) = step_kind io r c h (omega (arith, room)) e (kind_of r) refl l.undoes in
      let x1 = rw u at st.extends in
      let points : Points io t c1.current c1.world.wal = elim l.leads [
        | inl z ↦ inl (st.goes_back ∙ z)
        | inr (q, g, v) ↦ inr (q, rw st.goes_back (x1.keeps (back r) q g), v ∙ u)
      ] in
      let (c2, e2, k) =
        loops t fuel c1 x1.recoverable (omega (arith, d, f, st.goes_back))
          (omega (arith, room, x1.room)) points in
      let x =
        Extends-trans io t 1 fuel (suc fuel) c.world.wal c1.world.wal c2.world.wal (omega arith) x1
          k.extends in
      let step : undo_step io no_faults c ≡ some c1 = unfold undo_step in rw e st.is_step in
      (
        c2,
        goes_on fuel c c1 (omega (arith, d)) step ∙ e2,
        record {
          extends = x;
          has_seen = λ s. elim (k.has_seen s) [
            | inr marked ↦ inr marked
            | inl s1 ↦ elim (st.has_seen s1) [
              | inl s0 ↦ inl s0
              | inr marker ↦ inr (
                  has-later is_rollback t t (suc fuel) c.world.wal c2.world.wal x (
                    has-found is_rollback t c.current (read_all_logs c.world.wal) r
                      (sym (read_log-all c.current c.world.wal h.consistent) ∙ e) marker u))
            ]
          ];
        },
      )
