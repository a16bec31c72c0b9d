-- ===== src/Wal/Index/RoundTrip.antt =====
-- The log records about indexes are read back as they were written.
use deltabase_c.Prelude.{ℕ, ◌≡◌, List, [], ◌∷◌, ◌++◌, append-nil}
use deltabase_c.Stream.Word.{le_bytes, IsU64}
use deltabase_c.Stream.{Parses, Parses-bind, Parses-pure, writing}
use deltabase_c.Types.Meta.{IsIndex}
use deltabase_c.Types.WalLog.{WalRecordType}
use deltabase_c.Types.WalLog.Codes.{code}
use deltabase_c.Types.WalLog.Txn.{IsHeader}
use deltabase_c.Types.WalLog.Index.{
  CreateIndexRecord, ClrCreateIndexRecord, DropIndexRecord, ClrDropIndexRecord,
}
use deltabase_c.Storage.Encode.Layout.{layout, mi_bytes, serialize_mi_lem}
use deltabase_c.Storage.Decode.RoundTrip.{Parses-deserialize_mi}
use deltabase_c.Wal.Locals.{Locals, IsLocals, header_bytes, header_part, word_part}
use deltabase_c.Wal.Index.{
  serialize_create_index, deserialize_create_index, serialize_clr_create_index,
  deserialize_clr_create_index, serialize_drop_index, deserialize_drop_index,
  serialize_clr_drop_index, deserialize_clr_drop_index,
}

unfoldable pub create_index_bytes : CreateIndexRecord → List ℕ
create_index_bytes r = layout (header_bytes r.header ∷ mi_bytes r.after ∷ [])

pub serialize_create_index_lem :
    (r : CreateIndexRecord)
    → (serialize_create_index r).buffer
      ≡ le_bytes 8 (code WalRecordType.create_index) ++ create_index_bytes r
unfolding serialize_create_index create_index_bytes header_bytes
serialize_create_index_lem r = simp (writing, append-nil, serialize_mi_lem)

pub Parses-deserialize_create_index :
    (ls : Locals) (r : CreateIndexRecord)
    → IsLocals ls
    → IsHeader r.header
    → IsIndex r.after
    → Parses (deserialize_create_index ls) (create_index_bytes r) r
unfolding deserialize_create_index create_index_bytes
Parses-deserialize_create_index ls r hl h ha =
    Parses-bind _ (header_part ls r.header hl h)
      (Parses-bind _ (Parses-deserialize_mi r.after ha) (Parses-pure _))

unfoldable pub clr_create_index_bytes : ClrCreateIndexRecord → List ℕ
clr_create_index_bytes r =
    layout (header_bytes r.header ∷ le_bytes 8 r.undo_next_lsn ∷ mi_bytes r.after ∷ [])

pub serialize_clr_create_index_lem :
    (r : ClrCreateIndexRecord)
    → (serialize_clr_create_index r).buffer
      ≡ le_bytes 8 (code WalRecordType.clr_create_index) ++ clr_create_index_bytes r
unfolding serialize_clr_create_index clr_create_index_bytes header_bytes
serialize_clr_create_index_lem r = simp (writing, append-nil, serialize_mi_lem)

pub Parses-deserialize_clr_create_index :
    (ls : Locals) (r : ClrCreateIndexRecord)
    → IsLocals ls
    → IsHeader r.header
    → IsU64 r.undo_next_lsn
    → IsIndex r.after
    → Parses (deserialize_clr_create_index ls) (clr_create_index_bytes r) r
unfolding deserialize_clr_create_index clr_create_index_bytes
Parses-deserialize_clr_create_index ls r hl h hu ha = Parses-bind _ (header_part ls r.header hl h) (
    Parses-bind _ (word_part r.undo_next_lsn ls.undo_next_lsn hl.undo_next_lsn hu)
      (Parses-bind _ (Parses-deserialize_mi r.after ha) (Parses-pure _)))

unfoldable pub drop_index_bytes : DropIndexRecord → List ℕ
drop_index_bytes r = layout (header_bytes r.header ∷ mi_bytes r.before ∷ [])

pub serialize_drop_index_lem :
    (r : DropIndexRecord)
    → (serialize_drop_index r).buffer
      ≡ le_bytes 8 (code WalRecordType.drop_index) ++ drop_index_bytes r
unfolding serialize_drop_index drop_index_bytes header_bytes
serialize_drop_index_lem r = simp (writing, append-nil, serialize_mi_lem)

pub Parses-deserialize_drop_index :
    (ls : Locals) (r : DropIndexRecord)
    → IsLocals ls
    → IsHeader r.header
    → IsIndex r.before
    → Parses (deserialize_drop_index ls) (drop_index_bytes r) r
unfolding deserialize_drop_index drop_index_bytes
Parses-deserialize_drop_index ls r hl h hb =
    Parses-bind _ (header_part ls r.header hl h)
      (Parses-bind _ (Parses-deserialize_mi r.before hb) (Parses-pure _))

unfoldable pub clr_drop_index_bytes : ClrDropIndexRecord → List ℕ
clr_drop_index_bytes r =
    layout (header_bytes r.header ∷ le_bytes 8 r.undo_next_lsn ∷ mi_bytes r.before ∷ [])

pub serialize_clr_drop_index_lem :
    (r : ClrDropIndexRecord)
    → (serialize_clr_drop_index r).buffer
      ≡ le_bytes 8 (code WalRecordType.clr_drop_index) ++ clr_drop_index_bytes r
unfolding serialize_clr_drop_index clr_drop_index_bytes header_bytes
serialize_clr_drop_index_lem r = simp (writing, append-nil, serialize_mi_lem)

pub Parses-deserialize_clr_drop_index :
    (ls : Locals) (r : ClrDropIndexRecord)
    → IsLocals ls
    → IsHeader r.header
    → IsU64 r.undo_next_lsn
    → IsIndex r.before
    → Parses (deserialize_clr_drop_index ls) (clr_drop_index_bytes r) r
unfolding deserialize_clr_drop_index clr_drop_index_bytes
Parses-deserialize_clr_drop_index ls r hl h hu hb = Parses-bind _ (header_part ls r.header hl h) (
    Parses-bind _ (word_part r.undo_next_lsn ls.undo_next_lsn hl.undo_next_lsn hu)
      (Parses-bind _ (Parses-deserialize_mi r.before hb) (Parses-pure _)))
