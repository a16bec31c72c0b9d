-- ===== src/Storage/Encode/IndexLayout.antt =====
-- The format of an index file, and that `serialize_if` produces it.
use deltabase_c.Prelude.{ℕ, ◌≡◌, List, [], ◌∷◌, ◌++◌, length, flat_map, append-nil}
use deltabase_c.Stream.Word.{le_bytes}
use deltabase_c.Stream.{
  write, for_each, ◌▹◌, at_end, at_start, writing, for_each-at_end, append-at_end,
}
use deltabase_c.Types.Page.{RowPtr, IndexNode, internal, leaf, IndexPage, IndexFile}
use deltabase_c.Storage.Encode.{
  write_u64, append_all, write_node, serialize_ip, serialize_if, bool_byte,
}
use deltabase_c.Storage.Encode.Layout.{layout, dt_bytes, write_tokens}

unfoldable pub row_ptr_bytes : RowPtr → List ℕ
row_ptr_bytes r = layout (r.0 ∷ le_bytes 8 r.1 ∷ [])

unfoldable pub node_bytes : IndexNode → List ℕ
node_bytes (internal n) = layout (
    le_bytes 8 (length n.keys)
    ∷ flat_map dt_bytes n.keys
    ∷ le_bytes 8 (length n.children)
    ∷ flat_map (le_bytes 8) n.children
    ∷ [])
node_bytes (leaf n) = layout (
    le_bytes 8 (length n.keys)
    ∷ flat_map dt_bytes n.keys
    ∷ le_bytes 8 (length n.rows)
    ∷ flat_map row_ptr_bytes n.rows
    ∷ le_bytes 8 n.next_leaf
    ∷ [])

unfoldable pub ip_bytes : IndexPage → List ℕ
ip_bytes p = layout (
    le_bytes 8 p.id
    ∷ le_bytes 8 p.parent
    ∷ p.index_id
    ∷ le_bytes 1 (bool_byte p.is_leaf)
    ∷ node_bytes p.node
    ∷ [])

unfoldable pub if_bytes : IndexFile → List ℕ
if_bytes f = layout (
    f.index_id
    ∷ le_bytes 8 f.root_page
    ∷ le_bytes 8 f.last_lsn
    ∷ le_bytes 8 (length f.pages)
    ∷ flat_map ip_bytes f.pages
    ∷ [])

write_children :
    (ns : List ℕ) (bs : List ℕ)
    → for_each ns (λ child_id. write_u64 child_id) (at_end bs)
      ≡ at_end (bs ++ flat_map (le_bytes 8) ns)
write_children =
    for_each-at_end (le_bytes 8) (λ child_id. write_u64 child_id) (λ n bs. simp writing)

write_row_ptrs :
    (rs : List RowPtr) (bs : List ℕ)
    → for_each rs (λ row stream'. stream' ▹ write row.0 ▹ write_u64 row.1) (at_end bs)
      ≡ at_end (bs ++ flat_map row_ptr_bytes rs)
unfolding row_ptr_bytes
write_row_ptrs =
    for_each-at_end row_ptr_bytes (λ row stream'. stream' ▹ write row.0 ▹ write_u64 row.1)
      (λ r bs. simp (writing, append-nil))

write_node-at_end :
    (n : IndexNode) (bs : List ℕ) → write_node n (at_end bs) ≡ at_end (bs ++ node_bytes n)
unfolding write_node node_bytes
write_node-at_end (internal n) bs = simp (writing, append-nil, write_tokens, write_children)
write_node-at_end (leaf n) bs = simp (writing, append-nil, write_tokens, write_row_ptrs)

pub serialize_ip_lem : (p : IndexPage) → serialize_ip p ≡ at_start (ip_bytes p)
unfolding serialize_ip ip_bytes
serialize_ip_lem p = simp (writing, append-nil, write_node-at_end)

write_pages :
    (ps : List IndexPage) (bs : List ℕ)
    → for_each ps (λ page. append_all (serialize_ip page)) (at_end bs)
      ≡ at_end (bs ++ flat_map ip_bytes ps)
write_pages =
    for_each-at_end ip_bytes (λ page. append_all (serialize_ip page))
      (λ p bs. rw (serialize_ip_lem p) (append-at_end bs (ip_bytes p)))

pub serialize_if_lem : (f : IndexFile) → serialize_if f ≡ at_start (if_bytes f)
unfolding serialize_if if_bytes
serialize_if_lem f = simp (writing, append-nil, write_pages)
