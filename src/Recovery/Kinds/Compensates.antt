-- ===== src/Recovery/Kinds/Compensates.antt =====
-- Every record that can be undone has a CLR, which stands for it in the undo.
use deltabase_c.Prelude.{Option, none, some, ◌≡◌, refl, true}
use deltabase_c.Types.WalLog.{WalRecord, header_of, with_header}
use deltabase_c.Types.WalLog.Txn.{Header}
use deltabase_c.Recovery.Kinds.{kind_of, back, is_clr, is_undoable, make_clr, clr_header}

-- A CLR belongs to the transaction of the record that it undoes, and the undo goes on from it where it
-- goes on from the record.
pub record Compensates (r clr : WalRecord) : Type 0 where
  pub same_txn : (header_of clr).txn_id ≡ (header_of r).txn_id
  pub same_back : (h : Header) → back (with_header h clr) ≡ back r
  pub is_clr_of : (h : Header) → is_clr (kind_of (with_header h clr)) ≡ true

abbrev CompensatesIf : WalRecord → Option WalRecord → Type 0
CompensatesIf r none = Unit {0}
CompensatesIf r (some clr) = Compensates r clr

make_clr_lem : (r : WalRecord) → CompensatesIf r (make_clr r)
unfolding make_clr header_of clr_header back with_header kind_of
make_clr_lem (WalRecord.insert r) = record {
  same_txn = refl;
  same_back = λ h. refl;
  is_clr_of = λ h. refl;
}
make_clr_lem (WalRecord.update r) = record {
  same_txn = refl;
  same_back = λ h. refl;
  is_clr_of = λ h. refl;
}
make_clr_lem (WalRecord.delete r) = record {
  same_txn = refl;
  same_back = λ h. refl;
  is_clr_of = λ h. refl;
}
make_clr_lem (WalRecord.create_table r) = record {
  same_txn = refl;
  same_back = λ h. refl;
  is_clr_of = λ h. refl;
}
make_clr_lem (WalRecord.update_table r) = record {
  same_txn = refl;
  same_back = λ h. refl;
  is_clr_of = λ h. refl;
}
make_clr_lem (WalRecord.delete_table r) = record {
  same_txn = refl;
  same_back = λ h. refl;
  is_clr_of = λ h. refl;
}
make_clr_lem (WalRecord.create_schema r) = record {
  same_txn = refl;
  same_back = λ h. refl;
  is_clr_of = λ h. refl;
}
make_clr_lem (WalRecord.update_schema r) = record {
  same_txn = refl;
  same_back = λ h. refl;
  is_clr_of = λ h. refl;
}
make_clr_lem (WalRecord.delete_schema r) = record {
  same_txn = refl;
  same_back = λ h. refl;
  is_clr_of = λ h. refl;
}
make_clr_lem (WalRecord.begin_txn r) = tt
make_clr_lem (WalRecord.commit_txn r) = tt
make_clr_lem (WalRecord.rollback_txn r) = tt
make_clr_lem (WalRecord.clr_insert r) = tt
make_clr_lem (WalRecord.clr_update r) = tt
make_clr_lem (WalRecord.clr_delete r) = tt
make_clr_lem (WalRecord.clr_create_schema r) = tt
make_clr_lem (WalRecord.clr_update_schema r) = tt
make_clr_lem (WalRecord.clr_delete_schema r) = tt
make_clr_lem (WalRecord.clr_create_table r) = tt
make_clr_lem (WalRecord.clr_update_table r) = tt
make_clr_lem (WalRecord.clr_delete_table r) = tt
make_clr_lem (WalRecord.create_index r) = record {
  same_txn = refl;
  same_back = λ h. refl;
  is_clr_of = λ h. refl;
}
make_clr_lem (WalRecord.clr_create_index r) = tt
make_clr_lem (WalRecord.drop_index r) = record {
  same_txn = refl;
  same_back = λ h. refl;
  is_clr_of = λ h. refl;
}
make_clr_lem (WalRecord.clr_drop_index r) = tt

pub make_clr-Compensates : (r clr : WalRecord) → make_clr r ≡ some clr → Compensates r clr
make_clr-Compensates r clr e = rw e at (make_clr_lem r)

pub make_clr-some :
    (r : WalRecord) → is_undoable (kind_of r) ≡ true → (clr : WalRecord) × (make_clr r ≡ some clr)
unfolding make_clr kind_of
make_clr-some (WalRecord.insert r) e = (_, refl)
make_clr-some (WalRecord.update r) e = (_, refl)
make_clr-some (WalRecord.delete r) e = (_, refl)
make_clr-some (WalRecord.create_table r) e = (_, refl)
make_clr-some (WalRecord.update_table r) e = (_, refl)
make_clr-some (WalRecord.delete_table r) e = (_, refl)
make_clr-some (WalRecord.create_schema r) e = (_, refl)
make_clr-some (WalRecord.update_schema r) e = (_, refl)
make_clr-some (WalRecord.delete_schema r) e = (_, refl)
make_clr-some (WalRecord.begin_txn r) e = cc
make_clr-some (WalRecord.commit_txn r) e = cc
make_clr-some (WalRecord.rollback_txn r) e = cc
make_clr-some (WalRecord.clr_insert r) e = cc
make_clr-some (WalRecord.clr_update r) e = cc
make_clr-some (WalRecord.clr_delete r) e = cc
make_clr-some (WalRecord.clr_create_schema r) e = cc
make_clr-some (WalRecord.clr_update_schema r) e = cc
make_clr-some (WalRecord.clr_delete_schema r) e = cc
make_clr-some (WalRecord.clr_create_table r) e = cc
make_clr-some (WalRecord.clr_update_table r) e = cc
make_clr-some (WalRecord.clr_delete_table r) e = cc
make_clr-some (WalRecord.create_index r) e = (_, refl)
make_clr-some (WalRecord.clr_create_index r) e = cc
make_clr-some (WalRecord.drop_index r) e = (_, refl)
make_clr-some (WalRecord.clr_drop_index r) e = cc
