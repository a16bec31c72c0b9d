-- ===== src/Recovery/Kinds/Headers.antt =====
-- The header of a record does not change its kind.
use deltabase_c.Prelude.{◌≡◌, refl, ap, ◌∙◌, true}
use deltabase_c.Types.WalLog.{WalRecord, header_of, with_header, header_of-with_header}
use deltabase_c.Types.WalLog.Txn.{Header}
use deltabase_c.Recovery.Kinds.{
  Kind, kind_of, back, is_plain, data_record, meta_record, data_clr, meta_clr, begins, commits,
  rolls_back,
}

pub kind_of-with_header : (h : Header) (r : WalRecord) → kind_of (with_header h r) ≡ kind_of r
unfolding kind_of with_header
kind_of-with_header h (WalRecord.insert r) = refl
kind_of-with_header h (WalRecord.update r) = refl
kind_of-with_header h (WalRecord.delete r) = refl
kind_of-with_header h (WalRecord.create_table r) = refl
kind_of-with_header h (WalRecord.update_table r) = refl
kind_of-with_header h (WalRecord.delete_table r) = refl
kind_of-with_header h (WalRecord.create_schema r) = refl
kind_of-with_header h (WalRecord.update_schema r) = refl
kind_of-with_header h (WalRecord.delete_schema r) = refl
kind_of-with_header h (WalRecord.begin_txn r) = refl
kind_of-with_header h (WalRecord.commit_txn r) = refl
kind_of-with_header h (WalRecord.rollback_txn r) = refl
kind_of-with_header h (WalRecord.clr_insert r) = refl
kind_of-with_header h (WalRecord.clr_update r) = refl
kind_of-with_header h (WalRecord.clr_delete r) = refl
kind_of-with_header h (WalRecord.clr_create_schema r) = refl
kind_of-with_header h (WalRecord.clr_update_schema r) = refl
kind_of-with_header h (WalRecord.clr_delete_schema r) = refl
kind_of-with_header h (WalRecord.clr_create_table r) = refl
kind_of-with_header h (WalRecord.clr_update_table r) = refl
kind_of-with_header h (WalRecord.clr_delete_table r) = refl
kind_of-with_header h (WalRecord.create_index r) = refl
kind_of-with_header h (WalRecord.clr_create_index r) = refl
kind_of-with_header h (WalRecord.drop_index r) = refl
kind_of-with_header h (WalRecord.clr_drop_index r) = refl

pub with_header-twice :
    (h g : Header) (r : WalRecord) → with_header h (with_header g r) ≡ with_header h r
unfolding with_header
with_header-twice h g (WalRecord.insert r) = refl
with_header-twice h g (WalRecord.update r) = refl
with_header-twice h g (WalRecord.delete r) = refl
with_header-twice h g (WalRecord.create_table r) = refl
with_header-twice h g (WalRecord.update_table r) = refl
with_header-twice h g (WalRecord.delete_table r) = refl
with_header-twice h g (WalRecord.create_schema r) = refl
with_header-twice h g (WalRecord.update_schema r) = refl
with_header-twice h g (WalRecord.delete_schema r) = refl
with_header-twice h g (WalRecord.begin_txn r) = refl
with_header-twice h g (WalRecord.commit_txn r) = refl
with_header-twice h g (WalRecord.rollback_txn r) = refl
with_header-twice h g (WalRecord.clr_insert r) = refl
with_header-twice h g (WalRecord.clr_update r) = refl
with_header-twice h g (WalRecord.clr_delete r) = refl
with_header-twice h g (WalRecord.clr_create_schema r) = refl
with_header-twice h g (WalRecord.clr_update_schema r) = refl
with_header-twice h g (WalRecord.clr_delete_schema r) = refl
with_header-twice h g (WalRecord.clr_create_table r) = refl
with_header-twice h g (WalRecord.clr_update_table r) = refl
with_header-twice h g (WalRecord.clr_delete_table r) = refl
with_header-twice h g (WalRecord.create_index r) = refl
with_header-twice h g (WalRecord.clr_create_index r) = refl
with_header-twice h g (WalRecord.drop_index r) = refl
with_header-twice h g (WalRecord.clr_drop_index r) = refl

plain_back :
    (k : Kind) (r : WalRecord) → kind_of r ≡ k → is_plain k ≡ true → back r ≡ (header_of r).prev_lsn
unfolding back
plain_back (data_record page_id table_id) r e p = rw (e, back) refl
plain_back meta_record r e p = rw (e, back) refl
plain_back (data_clr page_id table_id next) r e p = cc
plain_back (meta_clr next) r e p = cc
plain_back begins r e p = rw (e, back) refl
plain_back commits r e p = rw (e, back) refl
plain_back rolls_back r e p = cc

pub back-with_header :
    (h : Header) (r : WalRecord) → is_plain (kind_of r) ≡ true → back (with_header h r) ≡ h.prev_lsn
back-with_header h r p =
    plain_back (kind_of r) (with_header h r) (kind_of-with_header h r) p
    ∙ ap (λ (g : Header). g.prev_lsn) (header_of-with_header h r)
