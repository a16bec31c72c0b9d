-- ===== src/Wal/Data/RoundTrip.antt =====
-- The log records about rows are read back as they were written.
use deltabase_c.Prelude.{ℕ, ◌≡◌, List, [], ◌∷◌, ◌++◌, append-nil}
use deltabase_c.Stream.Word.{le_bytes, IsU64}
use deltabase_c.Stream.{Parses, Parses-bind, Parses-pure, writing}
use deltabase_c.Types.Value.{IsUuid, IsRow}
use deltabase_c.Types.WalLog.{WalRecordType}
use deltabase_c.Types.WalLog.Codes.{code}
use deltabase_c.Types.WalLog.Txn.{IsHeader}
use deltabase_c.Types.WalLog.Data.{
  InsertRecord, UpdateRecord, DeleteRecord, ClrInsertRecord, ClrUpdateRecord, ClrDeleteRecord,
}
use deltabase_c.Storage.Encode.Layout.{layout, dr_bytes, serialize_dr_lem}
use deltabase_c.Storage.Decode.RoundTrip.{Parses-deserialize_dr}
use deltabase_c.Wal.Locals.{
  Locals, IsLocals, header_bytes, header_part, Parses-uuid_some, word_part,
}
use deltabase_c.Wal.Data.{
  serialize_insert, deserialize_insert, serialize_update, deserialize_update, serialize_delete,
  deserialize_delete, serialize_clr_insert, deserialize_clr_insert, serialize_clr_update,
  deserialize_clr_update, serialize_clr_delete, deserialize_clr_delete,
}

unfoldable pub insert_bytes : InsertRecord → List ℕ
insert_bytes r = layout (header_bytes r.header ∷ r.table_id ∷ r.page_id ∷ dr_bytes r.after ∷ [])

pub serialize_insert_lem :
    (r : InsertRecord)
    → (serialize_insert r).buffer ≡ le_bytes 8 (code WalRecordType.insert) ++ insert_bytes r
unfolding serialize_insert insert_bytes header_bytes
serialize_insert_lem r = simp (writing, append-nil, serialize_dr_lem)

pub Parses-deserialize_insert :
    (ls : Locals) (r : InsertRecord)
    → IsLocals ls
    → IsHeader r.header
    → IsUuid r.table_id
    → IsUuid r.page_id
    → IsRow r.after
    → Parses (deserialize_insert ls) (insert_bytes r) r
unfolding deserialize_insert insert_bytes
Parses-deserialize_insert ls r hl h ht hp ha = Parses-bind _ (header_part ls r.header hl h) (
    Parses-bind _ (Parses-uuid_some r.table_id ht) (
      Parses-bind _ (Parses-uuid_some r.page_id hp)
        (Parses-bind _ (Parses-deserialize_dr r.after ha) (Parses-pure _))))

unfoldable pub update_bytes : UpdateRecord → List ℕ
update_bytes r =
    layout
      (header_bytes r.header ∷ r.table_id ∷ r.page_id ∷ dr_bytes r.before ∷ dr_bytes r.after ∷ [])

pub serialize_update_lem :
    (r : UpdateRecord)
    → (serialize_update r).buffer ≡ le_bytes 8 (code WalRecordType.update) ++ update_bytes r
unfolding serialize_update update_bytes header_bytes
serialize_update_lem r = simp (writing, append-nil, serialize_dr_lem)

pub Parses-deserialize_update :
    (ls : Locals) (r : UpdateRecord)
    → IsLocals ls
    → IsHeader r.header
    → IsUuid r.table_id
    → IsUuid r.page_id
    → IsRow r.before
    → IsRow r.after
    → Parses (deserialize_update ls) (update_bytes r) r
unfolding deserialize_update update_bytes
Parses-deserialize_update ls r hl h ht hp hb ha = Parses-bind _ (header_part ls r.header hl h) (
    Parses-bind _ (Parses-uuid_some r.table_id ht) (
      Parses-bind _ (Parses-uuid_some r.page_id hp) (
        Parses-bind _ (Parses-deserialize_dr r.before hb)
          (Parses-bind _ (Parses-deserialize_dr r.after ha) (Parses-pure _)))))

unfoldable pub delete_bytes : DeleteRecord → List ℕ
delete_bytes r = layout (header_bytes r.header ∷ r.table_id ∷ r.page_id ∷ dr_bytes r.before ∷ [])

pub serialize_delete_lem :
    (r : DeleteRecord)
    → (serialize_delete r).buffer ≡ le_bytes 8 (code WalRecordType.delete) ++ delete_bytes r
unfolding serialize_delete delete_bytes header_bytes
serialize_delete_lem r = simp (writing, append-nil, serialize_dr_lem)

pub Parses-deserialize_delete :
    (ls : Locals) (r : DeleteRecord)
    → IsLocals ls
    → IsHeader r.header
    → IsUuid r.table_id
    → IsUuid r.page_id
    → IsRow r.before
    → Parses (deserialize_delete ls) (delete_bytes r) r
unfolding deserialize_delete delete_bytes
Parses-deserialize_delete ls r hl h ht hp hb = Parses-bind _ (header_part ls r.header hl h) (
    Parses-bind _ (Parses-uuid_some r.table_id ht) (
      Parses-bind _ (Parses-uuid_some r.page_id hp)
        (Parses-bind _ (Parses-deserialize_dr r.before hb) (Parses-pure _))))

unfoldable pub clr_insert_bytes : ClrInsertRecord → List ℕ
clr_insert_bytes r = layout (
    header_bytes r.header
    ∷ r.table_id
    ∷ r.page_id
    ∷ le_bytes 8 r.undo_next_lsn
    ∷ dr_bytes r.after
    ∷ [])

pub serialize_clr_insert_lem :
    (r : ClrInsertRecord)
    → (serialize_clr_insert r).buffer
      ≡ le_bytes 8 (code WalRecordType.clr_insert) ++ clr_insert_bytes r
unfolding serialize_clr_insert clr_insert_bytes header_bytes
serialize_clr_insert_lem r = simp (writing, append-nil, serialize_dr_lem)

pub Parses-deserialize_clr_insert :
    (ls : Locals) (r : ClrInsertRecord)
    → IsLocals ls
    → IsHeader r.header
    → IsUuid r.table_id
    → IsUuid r.page_id
    → IsU64 r.undo_next_lsn
    → IsRow r.after
    → Parses (deserialize_clr_insert ls) (clr_insert_bytes r) r
unfolding deserialize_clr_insert clr_insert_bytes
Parses-deserialize_clr_insert ls r hl h ht hp hu ha = Parses-bind _ (header_part ls r.header hl h) (
    Parses-bind _ (Parses-uuid_some r.table_id ht) (
      Parses-bind _ (Parses-uuid_some r.page_id hp) (
        Parses-bind _ (word_part r.undo_next_lsn ls.undo_next_lsn hl.undo_next_lsn hu)
          (Parses-bind _ (Parses-deserialize_dr r.after ha) (Parses-pure _)))))

unfoldable pub clr_update_bytes : ClrUpdateRecord → List ℕ
clr_update_bytes r = layout (
    header_bytes r.header
    ∷ r.table_id
    ∷ r.page_id
    ∷ le_bytes 8 r.undo_next_lsn
    ∷ dr_bytes r.before
    ∷ dr_bytes r.after
    ∷ [])

pub serialize_clr_update_lem :
    (r : ClrUpdateRecord)
    → (serialize_clr_update r).buffer
      ≡ le_bytes 8 (code WalRecordType.clr_update) ++ clr_update_bytes r
unfolding serialize_clr_update clr_update_bytes header_bytes
serialize_clr_update_lem r = simp (writing, append-nil, serialize_dr_lem)

pub Parses-deserialize_clr_update :
    (ls : Locals) (r : ClrUpdateRecord)
    → IsLocals ls
    → IsHeader r.header
    → IsUuid r.table_id
    → IsUuid r.page_id
    → IsU64 r.undo_next_lsn
    → IsRow r.before
    → IsRow r.after
    → Parses (deserialize_clr_update ls) (clr_update_bytes r) r
unfolding deserialize_clr_update clr_update_bytes
Parses-deserialize_clr_update ls r hl h ht hp hu hb ha =
    Parses-bind _ (header_part ls r.header hl h) (
      Parses-bind _ (Parses-uuid_some r.table_id ht) (
        Parses-bind _ (Parses-uuid_some r.page_id hp) (
          Parses-bind _ (word_part r.undo_next_lsn ls.undo_next_lsn hl.undo_next_lsn hu) (
            Parses-bind _ (Parses-deserialize_dr r.before hb)
              (Parses-bind _ (Parses-deserialize_dr r.after ha) (Parses-pure _))))))

unfoldable pub clr_delete_bytes : ClrDeleteRecord → List ℕ
clr_delete_bytes r = layout (
    header_bytes r.header
    ∷ r.table_id
    ∷ r.page_id
    ∷ le_bytes 8 r.undo_next_lsn
    ∷ dr_bytes r.before
    ∷ [])

pub serialize_clr_delete_lem :
    (r : ClrDeleteRecord)
    → (serialize_clr_delete r).buffer
      ≡ le_bytes 8 (code WalRecordType.clr_delete) ++ clr_delete_bytes r
unfolding serialize_clr_delete clr_delete_bytes header_bytes
serialize_clr_delete_lem r = simp (writing, append-nil, serialize_dr_lem)

pub Parses-deserialize_clr_delete :
    (ls : Locals) (r : ClrDeleteRecord)
    → IsLocals ls
    → IsHeader r.header
    → IsUuid r.table_id
    → IsUuid r.page_id
    → IsU64 r.undo_next_lsn
    → IsRow r.before
    → Parses (deserialize_clr_delete ls) (clr_delete_bytes r) r
unfolding deserialize_clr_delete clr_delete_bytes
Parses-deserialize_clr_delete ls r hl h ht hp hu hb = Parses-bind _ (header_part ls r.header hl h) (
    Parses-bind _ (Parses-uuid_some r.table_id ht) (
      Parses-bind _ (Parses-uuid_some r.page_id hp) (
        Parses-bind _ (word_part r.undo_next_lsn ls.undo_next_lsn hl.undo_next_lsn hu)
          (Parses-bind _ (Parses-deserialize_dr r.before hb) (Parses-pure _)))))
