-- ===== src/Types/Page.antt =====
-- data_page.hpp, index_page.hpp and index_file.hpp.
use deltabase_c.Prelude.{ℕ, ◌+◌, ◌*◌, ◌≡◌, List, Bool, true, false, length, All}
use deltabase_c.Stream.Word.{IsU64}
use deltabase_c.Types.Value.{Uuid, IsUuid, DataToken, IsToken, DataRow, IsRow}

-- `path` is the name of the page's file; it and `size` are not stored in the file.
pub record DataPage : Type 0 where
  pub id : Uuid
  pub next : Uuid
  pub table_id : Uuid
  pub min_rid : ℕ
  pub max_rid : ℕ
  pub rows_count : ℕ
  pub last_lsn : ℕ
  pub size : ℕ
  pub path : List ℕ
  pub rows : List DataRow

abbrev pub max_size : ℕ
max_size = 32 * 1024

-- Three UUIDs, two row ids, a count and an LSN.
abbrev pub header_size : ℕ
header_size = 16 * 3 + 8 * 2 + 8 + 8

pub record IsPage (p : DataPage) : Type 0 where
  pub id : IsUuid p.id
  pub next : IsUuid p.next
  pub table_id : IsUuid p.table_id
  pub min_rid : IsU64 p.min_rid
  pub max_rid : IsU64 p.max_rid
  pub last_lsn : IsU64 p.last_lsn
  pub count : IsU64 (length p.rows)
  pub rows : All IsRow p.rows

-- A row's place: its page and its id.
abbrev pub RowPtr : Type 0
RowPtr = Uuid × ℕ

pub record InternalIndexNode : Type 0 where
  pub keys : List DataToken
  pub children : List ℕ

pub record LeafIndexNode : Type 0 where
  pub keys : List DataToken
  pub rows : List RowPtr
  pub next_leaf : ℕ

-- The variant of an index page.
pub data IndexNode : Type 0 where
  internal : InternalIndexNode → IndexNode
  leaf : LeafIndexNode → IndexNode

pub record IndexPage : Type 0 where
  pub id : ℕ
  pub parent : ℕ
  pub index_id : Uuid
  pub is_leaf : Bool
  pub node : IndexNode

pub record IndexFile : Type 0 where
  pub index_id : Uuid
  pub root_page : ℕ
  pub last_page : ℕ
  pub last_lsn : ℕ
  pub pages : List IndexPage

abbrev pub IsRowPtr : RowPtr → Type 0
IsRowPtr (page, row) = IsUuid page × IsU64 row

pub record IsInternal (n : InternalIndexNode) : Type 0 where
  pub key_count : IsU64 (length n.keys)
  pub keys : All IsToken n.keys
  pub child_count : IsU64 (length n.children)
  pub children : All IsU64 n.children

pub record IsLeaf (n : LeafIndexNode) : Type 0 where
  pub key_count : IsU64 (length n.keys)
  pub keys : All IsToken n.keys
  pub row_count : IsU64 (length n.rows)
  pub rows : All IsRowPtr n.rows
  pub next_leaf : IsU64 n.next_leaf

-- The flag of a page says which variant it holds.
abbrev pub IsNode : Bool → IndexNode → Type 0
IsNode flag (internal n) = (flag ≡ false) × IsInternal n
IsNode flag (leaf n) = (flag ≡ true) × IsLeaf n

pub record IsIndexPage (p : IndexPage) : Type 0 where
  pub id : IsU64 p.id
  pub parent : IsU64 p.parent
  pub index_id : IsUuid p.index_id
  pub node : IsNode p.is_leaf p.node

pub record IsIndexFile (f : IndexFile) : Type 0 where
  pub index_id : IsUuid f.index_id
  pub root_page : IsU64 f.root_page
  pub last_lsn : IsU64 f.last_lsn
  pub count : IsU64 (length f.pages)
  pub pages : All IsIndexPage f.pages
