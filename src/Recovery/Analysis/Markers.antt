-- ===== src/Recovery/Analysis/Markers.antt =====
-- Which transactions the analysis finds, by the records of the log.
use deltabase_c.Prelude.{
  arith, ℕ, ◌≡◌, refl, ◌∙◌, List, [], ◌∷◌, ◌++◌, Bool, true, false, ◌||◌, if◌then◌else◌, Bool-cases,
  inl, inr, All, Eq,
}
use deltabase_c.Types.Value.{Uuid}
use deltabase_c.Types.WalLog.{WalRecord, lsn_of, txn_of}
use deltabase_c.Recovery.Kinds.{Kind, kind_of, is_commit, is_rollback}
use deltabase_c.Recovery.Lsns.{LsnMap, assign, contains, contains-assign, contains-nil, All-assign}
use deltabase_c.Recovery.Analysis.{
  get_commit_lsns, get_commit_lsns_from, get_rollback_lsns, get_rollback_lsns_from, get_last_lsns,
  get_last_lsns_from, get_active_txns,
}

module _ ⦃uuid_eq : Eq Uuid⦄ where
  -- A record of the kind that belongs to the transaction.
  abbrev pub has : (Kind → Bool) → Uuid → List WalRecord → Bool
  has p t [] = false
  has p t (r ∷ rs) = if p (kind_of r) then uuid_eq.beq (txn_of r) t || has p t rs else has p t rs

  pub has-append :
      (p : Kind → Bool) (t : Uuid) (rs qs : List WalRecord)
      → has p t (rs ++ qs) ≡ (has p t rs || has p t qs)
  has-append p t [] qs = refl
  has-append p t (r ∷ rs) qs = let rec = has-append p t rs qs in ground (arith, rec)

  rollbacks_lem :
      (t : Uuid) (lsns : LsnMap) (rs : List WalRecord)
      → contains t (get_rollback_lsns_from lsns rs) ≡ (contains t lsns || has is_rollback t rs)
  unfolding get_rollback_lsns_from
  rollbacks_lem t lsns [] = ground arith
  rollbacks_lem t lsns (r ∷ rs) = elim (Bool-cases (is_rollback (kind_of r))) [
    | inl it ↦ rw it (
        rollbacks_lem t (assign (txn_of r) (lsn_of r) lsns) rs
        ∙ rw (contains-assign t (txn_of r) (lsn_of r) lsns) (ground arith))
    | inr other ↦ rw other (rollbacks_lem t lsns rs)
  ]

  commits_lem :
      (t : Uuid) (lsns : LsnMap) (rs : List WalRecord)
      → contains t (get_commit_lsns_from lsns rs) ≡ (contains t lsns || has is_commit t rs)
  unfolding get_commit_lsns_from
  commits_lem t lsns [] = ground arith
  commits_lem t lsns (r ∷ rs) = elim (Bool-cases (is_commit (kind_of r))) [
    | inl it ↦ rw it (
        commits_lem t (assign (txn_of r) (lsn_of r) lsns) rs
        ∙ rw (contains-assign t (txn_of r) (lsn_of r) lsns) (ground arith))
    | inr other ↦ rw other (commits_lem t lsns rs)
  ]

  pub contains-get_commit_lsns :
      (t : Uuid) (rs : List WalRecord) → contains t (get_commit_lsns rs) ≡ has is_commit t rs
  unfolding get_commit_lsns
  contains-get_commit_lsns t rs = rw (commits_lem t [] rs, contains-nil) refl

  -- The log ends the transaction.
  abbrev pub is_over : Uuid → List WalRecord → Bool
  is_over t rs = has is_commit t rs || has is_rollback t rs

  pub contains_lem :
      (t : Uuid) (rs : List WalRecord)
      → (contains t (get_commit_lsns rs) || contains t (get_rollback_lsns rs)) ≡ is_over t rs
  unfolding get_commit_lsns get_rollback_lsns
  contains_lem t rs = rw (commits_lem t [] rs, rollbacks_lem t [] rs, contains-nil) refl

  pub no_active :
      (last commit rollback : LsnMap)
      → All (λ e. (contains e.0 commit || contains e.0 rollback) ≡ true) last
      → get_active_txns last commit rollback ≡ []
  unfolding get_active_txns
  no_active [] commit rollback h = refl
  no_active ((t, lsn) ∷ last) commit rollback h = rw h.0 (no_active last commit rollback h.1)

  -- What holds of the entries that are active, and of those that are not, holds of all.
  pub from_active {ℓ} :
      (P : Uuid × ℕ → Type ℓ) (last commit rollback : LsnMap)
      → ((e : Uuid × ℕ) → (contains e.0 commit || contains e.0 rollback) ≡ true → P e)
      → All P (get_active_txns last commit rollback)
      → All P last
  unfolding get_active_txns
  from_active P [] commit rollback k h = tt
  from_active P ((t, lsn) ∷ last) commit rollback k h =
      elim (Bool-cases (contains t commit || contains t rollback)) [
        | inl over ↦ (k (t, lsn) over, from_active P last commit rollback k (rw over at h))
        | inr active ↦ let h' = rw active at h in (h'.0, from_active P last commit rollback k h'.1)
      ]

  pub to_active {ℓ} :
      (P : Uuid × ℕ → Type ℓ) (last commit rollback : LsnMap)
      → All P last
      → All P (get_active_txns last commit rollback)
  unfolding get_active_txns
  to_active P [] commit rollback h = tt
  to_active P ((t, lsn) ∷ last) commit rollback h =
      elim (Bool-cases (contains t commit || contains t rollback)) [
        | inl over ↦ rw over (to_active P last commit rollback h.1)
        | inr active ↦ rw active (h.0, to_active P last commit rollback h.1)
      ]

  last_lsns-All {ℓ} :
      (P : Uuid × ℕ → Type ℓ) (lsns : LsnMap) (rs : List WalRecord)
      → All P lsns
      → All (λ r. P (txn_of r, lsn_of r)) rs
      → All P (get_last_lsns_from lsns rs)
  unfolding get_last_lsns_from
  last_lsns-All P lsns [] h k = h
  last_lsns-All P lsns (r ∷ rs) h k =
      last_lsns-All P (assign (txn_of r) (lsn_of r) lsns) rs
        (All-assign P (txn_of r) (lsn_of r) lsns k.0 h) k.1

  -- What holds of every record's transaction and LSN holds of the last ones.
  pub get_last_lsns-All {ℓ} :
      (P : Uuid × ℕ → Type ℓ) (rs : List WalRecord)
      → All (λ r. P (txn_of r, lsn_of r)) rs
      → All P (get_last_lsns rs)
  unfolding get_last_lsns
  get_last_lsns-All P rs h = last_lsns-All P [] rs tt h

  last_lsns-append :
      (lsns : LsnMap) (rs qs : List WalRecord)
      → get_last_lsns_from lsns (rs ++ qs) ≡ get_last_lsns_from (get_last_lsns_from lsns rs) qs
  unfolding get_last_lsns_from
  last_lsns-append lsns [] qs = refl
  last_lsns-append lsns (r ∷ rs) qs = last_lsns-append (assign (txn_of r) (lsn_of r) lsns) rs qs

  pub get_last_lsns-append-All {ℓ} :
      (P : Uuid × ℕ → Type ℓ) (rs qs : List WalRecord)
      → All P (get_last_lsns rs)
      → All (λ r. P (txn_of r, lsn_of r)) qs
      → All P (get_last_lsns (rs ++ qs))
  unfolding get_last_lsns
  get_last_lsns-append-All P rs qs h k =
      rw (last_lsns-append [] rs qs) (last_lsns-All P (get_last_lsns_from [] rs) qs h k)
