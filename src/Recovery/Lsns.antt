-- ===== src/Recovery/Lsns.antt =====
-- `std::unordered_map<TxnId, LSN>` as an association list, in which a key stands once.
use deltabase_c.Prelude.{
  refl, inl, inr, inr, arith, inl, ◌||◌, Bool-cases, All, ◌≡◌, ℕ, List, [], ◌∷◌, Option, none, some,
  Bool, true, false, if◌then◌else◌, Eq,
}
use deltabase_c.Types.Value.{Uuid}

abbrev pub LsnMap : Type 0
LsnMap = List (Uuid × ℕ)

module _ ⦃uuid_eq : Eq Uuid⦄ where
  unfoldable pub lookup : Uuid → LsnMap → Option ℕ
  lookup id [] = none
  lookup id ((key, lsn) ∷ lsns) = if uuid_eq.beq key id then some lsn else lookup id lsns

  unfoldable pub contains : Uuid → LsnMap → Bool
  unfolding lookup
  contains id lsns = elim (lookup id lsns) [ none ↦ false | some lsn ↦ true ]

  -- `lsns[id] = lsn`
  unfoldable pub assign : Uuid → ℕ → LsnMap → LsnMap
  assign id lsn [] = (id, lsn) ∷ []
  assign id lsn ((key, old) ∷ lsns) =
      if uuid_eq.beq key id then (key, lsn) ∷ lsns else (key, old) ∷ assign id lsn lsns

  beq-same : (a b t : Uuid) → uuid_eq.beq a b ≡ true → uuid_eq.beq a t ≡ uuid_eq.beq b t
  beq-same a b t e = let s : a ≡ b = (uuid_eq.beq_iff a b).0 e in rw s

  pub contains-assign :
      (t id : Uuid) (lsn : ℕ) (lsns : LsnMap)
      → contains t (assign id lsn lsns) ≡ (uuid_eq.beq id t || contains t lsns)
  unfolding contains assign lookup
  contains-assign t id lsn [] = ground arith
  contains-assign t id lsn ((key, old) ∷ lsns) =
      let rec = contains-assign t id lsn lsns in
      elim (Bool-cases (uuid_eq.beq key id)) [
        | inl same ↦ let e = beq-same key id t same in ground (arith, same, e)
        | inr other ↦ ground (arith, other, rec)
      ]

  pub contains-nil : (t : Uuid) → contains t [] ≡ false
  unfolding contains lookup
  contains-nil t = refl

  pub All-assign {ℓ} :
      (P : Uuid × ℕ → Type ℓ) (id : Uuid) (lsn : ℕ) (lsns : LsnMap)
      → P (id, lsn)
      → All P lsns
      → All P (assign id lsn lsns)
  unfolding assign
  All-assign P id lsn [] p h = (p, tt)
  All-assign P id lsn ((key, old) ∷ lsns) p h = elim (Bool-cases (uuid_eq.beq key id)) [
    | inl same ↦ let e : key ≡ id = (uuid_eq.beq_iff key id).0 same in rw same (rw e p, h.1)
    | inr other ↦ rw other (h.0, All-assign P id lsn lsns p h.1)
  ]
