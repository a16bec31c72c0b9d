-- ===== src/Wal/Schema/RoundTrip.antt =====
-- The log records about schemas are read back as they were written.
use deltabase_c.Prelude.{ℕ, ◌≡◌, List, [], ◌∷◌, ◌++◌, append-nil}
use deltabase_c.Stream.Word.{le_bytes, IsU64}
use deltabase_c.Stream.{Parses, Parses-bind, Parses-pure, writing}
use deltabase_c.Types.Meta.{IsSchema}
use deltabase_c.Types.WalLog.{WalRecordType}
use deltabase_c.Types.WalLog.Codes.{code}
use deltabase_c.Types.WalLog.Txn.{IsHeader}
use deltabase_c.Types.WalLog.Schema.{
  CreateSchemaRecord, UpdateSchemaRecord, DeleteSchemaRecord, ClrCreateSchemaRecord,
  ClrUpdateSchemaRecord, ClrDeleteSchemaRecord,
}
use deltabase_c.Storage.Encode.Layout.{layout, ms_bytes, serialize_ms_lem}
use deltabase_c.Storage.Decode.RoundTrip.{Parses-deserialize_ms}
use deltabase_c.Wal.Locals.{Locals, IsLocals, header_bytes, header_part, word_part}
use deltabase_c.Wal.Schema.{
  serialize_create_schema, deserialize_create_schema, serialize_update_schema,
  deserialize_update_schema, serialize_delete_schema, deserialize_delete_schema,
  serialize_clr_create_schema, deserialize_clr_create_schema, serialize_clr_update_schema,
  deserialize_clr_update_schema, serialize_clr_delete_schema, deserialize_clr_delete_schema,
}

unfoldable pub create_schema_bytes : CreateSchemaRecord → List ℕ
create_schema_bytes r = layout (header_bytes r.header ∷ ms_bytes r.schema ∷ [])

pub serialize_create_schema_lem :
    (r : CreateSchemaRecord)
    → (serialize_create_schema r).buffer
      ≡ le_bytes 8 (code WalRecordType.create_schema) ++ create_schema_bytes r
unfolding serialize_create_schema create_schema_bytes header_bytes
serialize_create_schema_lem r = simp (writing, append-nil, serialize_ms_lem)

pub Parses-deserialize_create_schema :
    (ls : Locals) (r : CreateSchemaRecord)
    → IsLocals ls
    → IsHeader r.header
    → IsSchema r.schema
    → Parses (deserialize_create_schema ls) (create_schema_bytes r) r
unfolding deserialize_create_schema create_schema_bytes
Parses-deserialize_create_schema ls r hl h hs =
    Parses-bind _ (header_part ls r.header hl h)
      (Parses-bind _ (Parses-deserialize_ms r.schema hs) (Parses-pure _))

unfoldable pub update_schema_bytes : UpdateSchemaRecord → List ℕ
update_schema_bytes r = layout (header_bytes r.header ∷ ms_bytes r.before ∷ ms_bytes r.after ∷ [])

pub serialize_update_schema_lem :
    (r : UpdateSchemaRecord)
    → (serialize_update_schema r).buffer
      ≡ le_bytes 8 (code WalRecordType.update_schema) ++ update_schema_bytes r
unfolding serialize_update_schema update_schema_bytes header_bytes
serialize_update_schema_lem r = simp (writing, append-nil, serialize_ms_lem)

pub Parses-deserialize_update_schema :
    (ls : Locals) (r : UpdateSchemaRecord)
    → IsLocals ls
    → IsHeader r.header
    → IsSchema r.before
    → IsSchema r.after
    → Parses (deserialize_update_schema ls) (update_schema_bytes r) r
unfolding deserialize_update_schema update_schema_bytes
Parses-deserialize_update_schema ls r hl h hb ha = Parses-bind _ (header_part ls r.header hl h) (
    Parses-bind _ (Parses-deserialize_ms r.before hb)
      (Parses-bind _ (Parses-deserialize_ms r.after ha) (Parses-pure _)))

unfoldable pub delete_schema_bytes : DeleteSchemaRecord → List ℕ
delete_schema_bytes r = layout (header_bytes r.header ∷ ms_bytes r.before ∷ [])

pub serialize_delete_schema_lem :
    (r : DeleteSchemaRecord)
    → (serialize_delete_schema r).buffer
      ≡ le_bytes 8 (code WalRecordType.delete_schema) ++ delete_schema_bytes r
unfolding serialize_delete_schema delete_schema_bytes header_bytes
serialize_delete_schema_lem r = simp (writing, append-nil, serialize_ms_lem)

pub Parses-deserialize_delete_schema :
    (ls : Locals) (r : DeleteSchemaRecord)
    → IsLocals ls
    → IsHeader r.header
    → IsSchema r.before
    → Parses (deserialize_delete_schema ls) (delete_schema_bytes r) r
unfolding deserialize_delete_schema delete_schema_bytes
Parses-deserialize_delete_schema ls r hl h hb =
    Parses-bind _ (header_part ls r.header hl h)
      (Parses-bind _ (Parses-deserialize_ms r.before hb) (Parses-pure _))

unfoldable pub clr_create_schema_bytes : ClrCreateSchemaRecord → List ℕ
clr_create_schema_bytes r =
    layout (header_bytes r.header ∷ le_bytes 8 r.undo_next_lsn ∷ ms_bytes r.schema ∷ [])

pub serialize_clr_create_schema_lem :
    (r : ClrCreateSchemaRecord)
    → (serialize_clr_create_schema r).buffer
      ≡ le_bytes 8 (code WalRecordType.clr_create_schema) ++ clr_create_schema_bytes r
unfolding serialize_clr_create_schema clr_create_schema_bytes header_bytes
serialize_clr_create_schema_lem r = simp (writing, append-nil, serialize_ms_lem)

pub Parses-deserialize_clr_create_schema :
    (ls : Locals) (r : ClrCreateSchemaRecord)
    → IsLocals ls
    → IsHeader r.header
    → IsU64 r.undo_next_lsn
    → IsSchema r.schema
    → Parses (deserialize_clr_create_schema ls) (clr_create_schema_bytes r) r
unfolding deserialize_clr_create_schema clr_create_schema_bytes
Parses-deserialize_clr_create_schema ls r hl h hu hs =
    Parses-bind _ (header_part ls r.header hl h) (
      Parses-bind _ (word_part r.undo_next_lsn ls.undo_next_lsn hl.undo_next_lsn hu)
        (Parses-bind _ (Parses-deserialize_ms r.schema hs) (Parses-pure _)))

unfoldable pub clr_update_schema_bytes : ClrUpdateSchemaRecord → List ℕ
clr_update_schema_bytes r =
    layout (
      header_bytes r.header
      ∷ le_bytes 8 r.undo_next_lsn
      ∷ ms_bytes r.before
      ∷ ms_bytes r.after
      ∷ [])

pub serialize_clr_update_schema_lem :
    (r : ClrUpdateSchemaRecord)
    → (serialize_clr_update_schema r).buffer
      ≡ le_bytes 8 (code WalRecordType.clr_update_schema) ++ clr_update_schema_bytes r
unfolding serialize_clr_update_schema clr_update_schema_bytes header_bytes
serialize_clr_update_schema_lem r = simp (writing, append-nil, serialize_ms_lem)

pub Parses-deserialize_clr_update_schema :
    (ls : Locals) (r : ClrUpdateSchemaRecord)
    → IsLocals ls
    → IsHeader r.header
    → IsU64 r.undo_next_lsn
    → IsSchema r.before
    → IsSchema r.after
    → Parses (deserialize_clr_update_schema ls) (clr_update_schema_bytes r) r
unfolding deserialize_clr_update_schema clr_update_schema_bytes
Parses-deserialize_clr_update_schema ls r hl h hu hb ha =
    Parses-bind _ (header_part ls r.header hl h) (
      Parses-bind _ (word_part r.undo_next_lsn ls.undo_next_lsn hl.undo_next_lsn hu) (
        Parses-bind _ (Parses-deserialize_ms r.before hb)
          (Parses-bind _ (Parses-deserialize_ms r.after ha) (Parses-pure _))))

unfoldable pub clr_delete_schema_bytes : ClrDeleteSchemaRecord → List ℕ
clr_delete_schema_bytes r =
    layout (header_bytes r.header ∷ le_bytes 8 r.undo_next_lsn ∷ ms_bytes r.before ∷ [])

pub serialize_clr_delete_schema_lem :
    (r : ClrDeleteSchemaRecord)
    → (serialize_clr_delete_schema r).buffer
      ≡ le_bytes 8 (code WalRecordType.clr_delete_schema) ++ clr_delete_schema_bytes r
unfolding serialize_clr_delete_schema clr_delete_schema_bytes header_bytes
serialize_clr_delete_schema_lem r = simp (writing, append-nil, serialize_ms_lem)

pub Parses-deserialize_clr_delete_schema :
    (ls : Locals) (r : ClrDeleteSchemaRecord)
    → IsLocals ls
    → IsHeader r.header
    → IsU64 r.undo_next_lsn
    → IsSchema r.before
    → Parses (deserialize_clr_delete_schema ls) (clr_delete_schema_bytes r) r
unfolding deserialize_clr_delete_schema clr_delete_schema_bytes
Parses-deserialize_clr_delete_schema ls r hl h hu hb =
    Parses-bind _ (header_part ls r.header hl h) (
      Parses-bind _ (word_part r.undo_next_lsn ls.undo_next_lsn hl.undo_next_lsn hu)
        (Parses-bind _ (Parses-deserialize_ms r.before hb) (Parses-pure _)))
