-- ===== src/Storage/Decode/IndexRoundTrip.antt =====
-- Index files: what std_storage_serializer.cpp writes of one, it reads back.
use deltabase_c.Prelude.{ℕ, List, Bool, length, flat_map, All}
use deltabase_c.Stream.Word.{le_bytes, IsU64}
use deltabase_c.Stream.{read_many, Parses, Parses-bind, Parses-pure, buffer-at_start}
use deltabase_c.Types.Page.{
  RowPtr, IsRowPtr, IndexNode, internal, leaf, IsNode, IndexPage, IsIndexPage, IndexFile,
  IsIndexFile,
}
use deltabase_c.Storage.Encode.{serialize_if}
use deltabase_c.Storage.Encode.IndexLayout.{
  row_ptr_bytes, node_bytes, ip_bytes, if_bytes, serialize_if_lem,
}
use deltabase_c.Storage.Decode.{
  read_u64, read_row_ptr, read_leaf, read_internal, read_node, deserialize_ip, deserialize_if,
}
use deltabase_c.Storage.Decode.RoundTrip.{
  parsing, Parses-loop, Parses-read_u64, Parses-read_uuid, Parses-read_bool, tokens_loop,
}

row_ptr_part : (r : RowPtr) → IsRowPtr r → Parses read_row_ptr (row_ptr_bytes r) r
unfolding read_row_ptr row_ptr_bytes
row_ptr_part r h =
    Parses-bind _ (Parses-read_uuid r.0 h.0)
      (Parses-bind _ (Parses-read_u64 r.1 h.1) (Parses-pure _))

row_ptrs_loop :
    (rs : List RowPtr)
    → All IsRowPtr rs
    → Parses (read_many read_row_ptr (length rs)) (flat_map row_ptr_bytes rs) rs
row_ptrs_loop = Parses-loop read_row_ptr row_ptr_bytes row_ptr_part

children_loop :
    (ns : List ℕ)
    → All IsU64 ns
    → Parses (read_many read_u64 (length ns)) (flat_map (le_bytes 8) ns) ns
children_loop = Parses-loop read_u64 (le_bytes 8) Parses-read_u64

node_part : (b : Bool) (n : IndexNode) → IsNode b n → Parses (read_node b) (node_bytes n) n
unfolding read_node node_bytes read_leaf read_internal
node_part b (internal n) (e, h) =
    rw (e, read_node)
      (Parses-bind _ (Parses-read_u64 (length n.keys) h.key_count) (
        Parses-bind _ (tokens_loop n.keys h.keys) (
          Parses-bind _ (Parses-read_u64 (length n.children) h.child_count)
            (Parses-bind _ (children_loop n.children h.children) (Parses-pure _)))))
node_part b (leaf n) (e, h) =
    rw (e, read_node)
      (Parses-bind _ (Parses-read_u64 (length n.keys) h.key_count) (
        Parses-bind _ (tokens_loop n.keys h.keys) (
          Parses-bind _ (Parses-read_u64 (length n.rows) h.row_count) (
            Parses-bind _ (row_ptrs_loop n.rows h.rows)
              (Parses-bind _ (Parses-read_u64 n.next_leaf h.next_leaf) (Parses-pure _))))))

pub Parses-deserialize_ip : (p : IndexPage) → IsIndexPage p → Parses deserialize_ip (ip_bytes p) p
unfolding deserialize_ip ip_bytes
Parses-deserialize_ip p h = Parses-bind _ (Parses-read_u64 p.id h.id) (
    Parses-bind _ (Parses-read_u64 p.parent h.parent) (
      Parses-bind _ (Parses-read_uuid p.index_id h.index_id) (
        Parses-bind _ (Parses-read_bool p.is_leaf)
          (Parses-bind _ (node_part p.is_leaf p.node h.node) (Parses-pure _)))))

pages_loop :
    (ps : List IndexPage)
    → All IsIndexPage ps
    → Parses (read_many deserialize_ip (length ps)) (flat_map ip_bytes ps) ps
pages_loop = Parses-loop deserialize_ip ip_bytes Parses-deserialize_ip

Parses-deserialize_if :
    (out f : IndexFile)
    → IsIndexFile f
    → Parses (deserialize_if out) (if_bytes f) (record f { last_page = out.last_page })
unfolding deserialize_if if_bytes
Parses-deserialize_if out f h = search (parsing, pages_loop) depth 9

-- An index file in range, its pages consistent with their leaf flags, is read back as it was
-- written, but for `last_page`: that stays what it was in `out`, whatever it was in the file.
pub deserialize-serialize_if :
    (out f : IndexFile)
    → IsIndexFile f
    → Parses (deserialize_if out) (serialize_if f).buffer (record f { last_page = out.last_page })
deserialize-serialize_if out f h =
    rw (serialize_if_lem f, buffer-at_start (if_bytes f)) (Parses-deserialize_if out f h)
