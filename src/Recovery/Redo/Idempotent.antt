-- ===== src/Recovery/Redo/Idempotent.antt =====
-- `redo` on a log that has been redone before, as when a recovery was interrupted and begins again.
use deltabase_c.Prelude.{
  leb, ℕ, ◌<◌, ◌≡◌, refl, List, [], ◌∷◌, arith, some, true, Bool-cases, inl, inr, All, Eq,
}
use deltabase_c.Types.Value.{Uuid}
use deltabase_c.Types.WalLog.{WalRecord, lsn_of}
use deltabase_c.Recovery.Io.{IoManager, IsIoManager, bind-some}
use deltabase_c.Recovery.Kinds.{kind_of}
use deltabase_c.Recovery.Lsns.{LsnMap}
use deltabase_c.Recovery.Redo.{redo, redo_all, is_redone}
use deltabase_c.Recovery.Redo.Applied.{SettledAs, redo_settled, redo_settles, stays_settled}
use deltabase_c.Recovery.Kinds.{IsPaged}

module _ ⦃uuid_eq : Eq Uuid⦄ {S : Type 0} (io : IoManager S) (laws : IsIoManager io)
    (checkpoint : ℕ) (commit_lsns : LsnMap) where
  -- A record that `redo` takes is on its page.
  Settled : WalRecord → S → Type 0
  Settled r s =
      is_redone io checkpoint commit_lsns r ≡ true → SettledAs io laws (kind_of r) (lsn_of r) s

  redo-Settled :
      (r : WalRecord) (s : S)
      → IsPaged r
      → Settled r s
      → redo io checkpoint commit_lsns r s ≡ some s
  unfolding redo Settled
  redo-Settled r s m h = elim (Bool-cases (is_redone io checkpoint commit_lsns r)) [
    | inl taken ↦ rw taken (redo_settled io laws (kind_of r) r s m (h taken))
    | inr skipped ↦ rw skipped
  ]

  redone_lsn : (r : WalRecord) → is_redone io checkpoint commit_lsns r ≡ true → 0 < lsn_of r
  unfolding is_redone
  redone_lsn r e = elim (Bool-cases (leb (lsn_of r) checkpoint)) [
    | inl old ↦ cc (rw old at e)
    | inr new ↦ ground (arith, new)
  ]

  redo_once :
      (r : WalRecord) (s s' : S) → redo io checkpoint commit_lsns r s ≡ some s' → Settled r s'
  unfolding redo Settled
  redo_once r s s' e taken =
      redo_settles io laws (kind_of r) r s s' (redone_lsn r taken) (rw taken at e)

  redo-keeps :
      (q r : WalRecord) (s s' : S)
      → IsPaged r
      → redo io checkpoint commit_lsns r s ≡ some s'
      → Settled q s
      → Settled q s'
  unfolding redo Settled
  redo-keeps q r s s' m e h due = elim (Bool-cases (is_redone io checkpoint commit_lsns r)) [
    | inl taken ↦
        stays_settled io laws (kind_of q) (lsn_of q) (kind_of r) r s s' m (rw taken at e) (h due)
    | inr skipped ↦ let same : s ≡ s' = cc (rw skipped at e) in rw (← same) (h due)
  ]

  redo_all-keeps :
      (q : WalRecord) (rs : List WalRecord) (s s' : S)
      → All IsPaged rs
      → redo_all io checkpoint commit_lsns rs s ≡ some s'
      → Settled q s
      → Settled q s'
  unfolding redo_all
  redo_all-keeps q [] s s' m e h = let same : s ≡ s' = cc e in rw (← same) h
  redo_all-keeps q (r ∷ rs) s s' m e h =
      let (s1, e1, e2) = bind-some (redo io checkpoint commit_lsns r s) _ s' e in
      redo_all-keeps q rs s1 s' m.1 e2 (redo-keeps q r s s1 m.0 e1 h)

  redo_all-settles :
      (rs : List WalRecord) (s s' : S)
      → All IsPaged rs
      → redo_all io checkpoint commit_lsns rs s ≡ some s'
      → All (λ q. Settled q s') rs
  unfolding redo_all
  redo_all-settles [] s s' m e = tt
  redo_all-settles (r ∷ rs) s s' m e =
      let (s1, e1, e2) = bind-some (redo io checkpoint commit_lsns r s) _ s' e in
      (redo_all-keeps r rs s1 s' m.1 e2 (redo_once r s s1 e1), redo_all-settles rs s1 s' m.1 e2)

  redo_all-Settled :
      (rs : List WalRecord) (s : S)
      → All IsPaged rs
      → All (λ q. Settled q s) rs
      → redo_all io checkpoint commit_lsns rs s ≡ some s
  unfolding redo_all
  redo_all-Settled [] s m h = refl
  redo_all-Settled (r ∷ rs) s m h = rw (redo-Settled r s m.0 h.0) (redo_all-Settled rs s m.1 h.1)

  -- A log of records about rows and transactions that has been redone once leaves a working disk
  -- as it is when it is redone again: a recovery that is interrupted can begin again.
  pub redo_all-again :
      (rs : List WalRecord) (s s' : S)
      → All IsPaged rs
      → redo_all io checkpoint commit_lsns rs s ≡ some s'
      → redo_all io checkpoint commit_lsns rs s' ≡ some s'
  redo_all-again rs s s' m e = redo_all-Settled rs s' m (redo_all-settles rs s s' m e)
