-- ===== src/Wal/Table/RoundTrip.antt =====
-- The log records about tables are read back as they were written.
use deltabase_c.Prelude.{ℕ, ◌≡◌, List, [], ◌∷◌, ◌++◌, append-nil}
use deltabase_c.Stream.Word.{le_bytes, IsU64}
use deltabase_c.Stream.{Parses, Parses-bind, Parses-pure, writing}
use deltabase_c.Types.Meta.{IsTable}
use deltabase_c.Types.WalLog.{WalRecordType}
use deltabase_c.Types.WalLog.Codes.{code}
use deltabase_c.Types.WalLog.Txn.{IsHeader}
use deltabase_c.Types.WalLog.Table.{
  CreateTableRecord, UpdateTableRecord, DeleteTableRecord, ClrCreateTableRecord,
  ClrUpdateTableRecord, ClrDeleteTableRecord,
}
use deltabase_c.Storage.Encode.Layout.{layout, mt_bytes, serialize_mt_lem}
use deltabase_c.Storage.Decode.RoundTrip.{Parses-deserialize_mt}
use deltabase_c.Wal.Locals.{Locals, IsLocals, header_bytes, header_part, word_part}
use deltabase_c.Wal.Table.{
  serialize_create_table, deserialize_create_table, serialize_update_table,
  deserialize_update_table, serialize_delete_table, deserialize_delete_table,
  serialize_clr_create_table, deserialize_clr_create_table, serialize_clr_update_table,
  deserialize_clr_update_table, serialize_clr_delete_table, deserialize_clr_delete_table,
}

unfoldable pub create_table_bytes : CreateTableRecord → List ℕ
create_table_bytes r = layout (header_bytes r.header ∷ mt_bytes r.after ∷ [])

pub serialize_create_table_lem :
    (r : CreateTableRecord)
    → (serialize_create_table r).buffer
      ≡ le_bytes 8 (code WalRecordType.create_table) ++ create_table_bytes r
unfolding serialize_create_table create_table_bytes header_bytes
serialize_create_table_lem r = simp (writing, append-nil, serialize_mt_lem)

pub Parses-deserialize_create_table :
    (ls : Locals) (r : CreateTableRecord)
    → IsLocals ls
    → IsHeader r.header
    → IsTable r.after
    → Parses (deserialize_create_table ls) (create_table_bytes r) r
unfolding deserialize_create_table create_table_bytes
Parses-deserialize_create_table ls r hl h ha =
    Parses-bind _ (header_part ls r.header hl h)
      (Parses-bind _ (Parses-deserialize_mt r.after ha) (Parses-pure _))

unfoldable pub update_table_bytes : UpdateTableRecord → List ℕ
update_table_bytes r = layout (header_bytes r.header ∷ mt_bytes r.before ∷ mt_bytes r.after ∷ [])

pub serialize_update_table_lem :
    (r : UpdateTableRecord)
    → (serialize_update_table r).buffer
      ≡ le_bytes 8 (code WalRecordType.update_table) ++ update_table_bytes r
unfolding serialize_update_table update_table_bytes header_bytes
serialize_update_table_lem r = simp (writing, append-nil, serialize_mt_lem)

pub Parses-deserialize_update_table :
    (ls : Locals) (r : UpdateTableRecord)
    → IsLocals ls
    → IsHeader r.header
    → IsTable r.before
    → IsTable r.after
    → Parses (deserialize_update_table ls) (update_table_bytes r) r
unfolding deserialize_update_table update_table_bytes
Parses-deserialize_update_table ls r hl h hb ha = Parses-bind _ (header_part ls r.header hl h) (
    Parses-bind _ (Parses-deserialize_mt r.before hb)
      (Parses-bind _ (Parses-deserialize_mt r.after ha) (Parses-pure _)))

unfoldable pub delete_table_bytes : DeleteTableRecord → List ℕ
delete_table_bytes r = layout (header_bytes r.header ∷ mt_bytes r.before ∷ [])

pub serialize_delete_table_lem :
    (r : DeleteTableRecord)
    → (serialize_delete_table r).buffer
      ≡ le_bytes 8 (code WalRecordType.delete_table) ++ delete_table_bytes r
unfolding serialize_delete_table delete_table_bytes header_bytes
serialize_delete_table_lem r = simp (writing, append-nil, serialize_mt_lem)

pub Parses-deserialize_delete_table :
    (ls : Locals) (r : DeleteTableRecord)
    → IsLocals ls
    → IsHeader r.header
    → IsTable r.before
    → Parses (deserialize_delete_table ls) (delete_table_bytes r) r
unfolding deserialize_delete_table delete_table_bytes
Parses-deserialize_delete_table ls r hl h hb =
    Parses-bind _ (header_part ls r.header hl h)
      (Parses-bind _ (Parses-deserialize_mt r.before hb) (Parses-pure _))

unfoldable pub clr_create_table_bytes : ClrCreateTableRecord → List ℕ
clr_create_table_bytes r =
    layout (header_bytes r.header ∷ le_bytes 8 r.undo_next_lsn ∷ mt_bytes r.after ∷ [])

pub serialize_clr_create_table_lem :
    (r : ClrCreateTableRecord)
    → (serialize_clr_create_table r).buffer
      ≡ le_bytes 8 (code WalRecordType.clr_create_table) ++ clr_create_table_bytes r
unfolding serialize_clr_create_table clr_create_table_bytes header_bytes
serialize_clr_create_table_lem r = simp (writing, append-nil, serialize_mt_lem)

pub Parses-deserialize_clr_create_table :
    (ls : Locals) (r : ClrCreateTableRecord)
    → IsLocals ls
    → IsHeader r.header
    → IsU64 r.undo_next_lsn
    → IsTable r.after
    → Parses (deserialize_clr_create_table ls) (clr_create_table_bytes r) r
unfolding deserialize_clr_create_table clr_create_table_bytes
Parses-deserialize_clr_create_table ls r hl h hu ha = Parses-bind _ (header_part ls r.header hl h) (
    Parses-bind _ (word_part r.undo_next_lsn ls.undo_next_lsn hl.undo_next_lsn hu)
      (Parses-bind _ (Parses-deserialize_mt r.after ha) (Parses-pure _)))

unfoldable pub clr_update_table_bytes : ClrUpdateTableRecord → List ℕ
clr_update_table_bytes r =
    layout (
      header_bytes r.header
      ∷ le_bytes 8 r.undo_next_lsn
      ∷ mt_bytes r.before
      ∷ mt_bytes r.after
      ∷ [])

pub serialize_clr_update_table_lem :
    (r : ClrUpdateTableRecord)
    → (serialize_clr_update_table r).buffer
      ≡ le_bytes 8 (code WalRecordType.clr_update_table) ++ clr_update_table_bytes r
unfolding serialize_clr_update_table clr_update_table_bytes header_bytes
serialize_clr_update_table_lem r = simp (writing, append-nil, serialize_mt_lem)

pub Parses-deserialize_clr_update_table :
    (ls : Locals) (r : ClrUpdateTableRecord)
    → IsLocals ls
    → IsHeader r.header
    → IsU64 r.undo_next_lsn
    → IsTable r.before
    → IsTable r.after
    → Parses (deserialize_clr_update_table ls) (clr_update_table_bytes r) r
unfolding deserialize_clr_update_table clr_update_table_bytes
Parses-deserialize_clr_update_table ls r hl h hu hb ha =
    Parses-bind _ (header_part ls r.header hl h) (
      Parses-bind _ (word_part r.undo_next_lsn ls.undo_next_lsn hl.undo_next_lsn hu) (
        Parses-bind _ (Parses-deserialize_mt r.before hb)
          (Parses-bind _ (Parses-deserialize_mt r.after ha) (Parses-pure _))))

unfoldable pub clr_delete_table_bytes : ClrDeleteTableRecord → List ℕ
clr_delete_table_bytes r =
    layout (header_bytes r.header ∷ le_bytes 8 r.undo_next_lsn ∷ mt_bytes r.before ∷ [])

pub serialize_clr_delete_table_lem :
    (r : ClrDeleteTableRecord)
    → (serialize_clr_delete_table r).buffer
      ≡ le_bytes 8 (code WalRecordType.clr_delete_table) ++ clr_delete_table_bytes r
unfolding serialize_clr_delete_table clr_delete_table_bytes header_bytes
serialize_clr_delete_table_lem r = simp (writing, append-nil, serialize_mt_lem)

pub Parses-deserialize_clr_delete_table :
    (ls : Locals) (r : ClrDeleteTableRecord)
    → IsLocals ls
    → IsHeader r.header
    → IsU64 r.undo_next_lsn
    → IsTable r.before
    → Parses (deserialize_clr_delete_table ls) (clr_delete_table_bytes r) r
unfolding deserialize_clr_delete_table clr_delete_table_bytes
Parses-deserialize_clr_delete_table ls r hl h hu hb = Parses-bind _ (header_part ls r.header hl h) (
    Parses-bind _ (word_part r.undo_next_lsn ls.undo_next_lsn hl.undo_next_lsn hu)
      (Parses-bind _ (Parses-deserialize_mt r.before hb) (Parses-pure _)))
