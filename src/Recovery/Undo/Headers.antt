-- ===== src/Recovery/Undo/Headers.antt =====
-- What undoing a record does not depend on: the header of the record.
use deltabase_c.Prelude.{◌≡◌, refl, ◌∙◌, Eq}
use deltabase_c.Types.WalLog.{WalRecord, with_header}
use deltabase_c.Types.WalLog.Txn.{Header}
use deltabase_c.Types.Value.{Uuid}
use deltabase_c.Recovery.Io.{IoManager}
use deltabase_c.Recovery.Kinds.{
  Kind, kind_of, data_record, meta_record, data_clr, meta_clr, begins, commits, rolls_back,
}
use deltabase_c.Recovery.Kinds.Headers.{kind_of-with_header}
use deltabase_c.Recovery.Undo.{undo_meta}
use deltabase_c.Recovery.Undo.Appends.{UndoesAs}

module _ ⦃uuid_eq : Eq Uuid⦄ {S : Type 0} (io : IoManager S) where
  undo_meta-with_header :
      (h : Header) (r : WalRecord) (s : S) → undo_meta io (with_header h r) s ≡ undo_meta io r s
  unfolding undo_meta with_header
  undo_meta-with_header h (WalRecord.insert r) s = refl
  undo_meta-with_header h (WalRecord.update r) s = refl
  undo_meta-with_header h (WalRecord.delete r) s = refl
  undo_meta-with_header h (WalRecord.create_table r) s = refl
  undo_meta-with_header h (WalRecord.update_table r) s = refl
  undo_meta-with_header h (WalRecord.delete_table r) s = refl
  undo_meta-with_header h (WalRecord.create_schema r) s = refl
  undo_meta-with_header h (WalRecord.update_schema r) s = refl
  undo_meta-with_header h (WalRecord.delete_schema r) s = refl
  undo_meta-with_header h (WalRecord.begin_txn r) s = refl
  undo_meta-with_header h (WalRecord.commit_txn r) s = refl
  undo_meta-with_header h (WalRecord.rollback_txn r) s = refl
  undo_meta-with_header h (WalRecord.clr_insert r) s = refl
  undo_meta-with_header h (WalRecord.clr_update r) s = refl
  undo_meta-with_header h (WalRecord.clr_delete r) s = refl
  undo_meta-with_header h (WalRecord.clr_create_schema r) s = refl
  undo_meta-with_header h (WalRecord.clr_update_schema r) s = refl
  undo_meta-with_header h (WalRecord.clr_delete_schema r) s = refl
  undo_meta-with_header h (WalRecord.clr_create_table r) s = refl
  undo_meta-with_header h (WalRecord.clr_update_table r) s = refl
  undo_meta-with_header h (WalRecord.clr_delete_table r) s = refl
  undo_meta-with_header h (WalRecord.create_index r) s = refl
  undo_meta-with_header h (WalRecord.clr_create_index r) s = refl
  undo_meta-with_header h (WalRecord.drop_index r) s = refl
  undo_meta-with_header h (WalRecord.clr_drop_index r) s = refl

  UndoesAs_lem :
      (k : Kind) (h : Header) (r : WalRecord) → UndoesAs io k r → UndoesAs io k (with_header h r)
  UndoesAs_lem (data_record p t) h r u = u
  UndoesAs_lem meta_record h r u = λ s. let (s', e) = u s in (s', undo_meta-with_header h r s ∙ e)
  UndoesAs_lem (data_clr p t next) h r u = tt
  UndoesAs_lem (meta_clr next) h r u = tt
  UndoesAs_lem begins h r u = tt
  UndoesAs_lem commits h r u = tt
  UndoesAs_lem rolls_back h r u = tt

  pub UndoesAs-with_header :
      (h : Header) (r : WalRecord)
      → UndoesAs io (kind_of r) r
      → UndoesAs io (kind_of (with_header h r)) (with_header h r)
  UndoesAs-with_header h r u = rw (kind_of-with_header h r) (UndoesAs_lem (kind_of r) h r u)
