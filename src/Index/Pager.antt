-- ===== src/Index/Pager.antt =====
-- BP_index_pager.cpp, over the file of an index that the buffer pool holds: `file_or_throw` and
-- `dirty_if` find it. A pointer to a page is its id; a page that has been made is the last one.
pub mod Pages
use deltabase_c.Prelude.{
  ℕ, ◌+◌, ◌%◌, ◌^◌, List, [], ◌∷◌, ◌++◌, Bool, true, false, Option, none, some, ◌==◌, if◌then◌else◌,
}
use deltabase_c.Types.Page.{
  IndexFile, IndexPage, IndexNode, internal, leaf, InternalIndexNode, LeafIndexNode,
}

unfoldable pub find_page : ℕ → List IndexPage → Option IndexPage
find_page page_id [] = none
find_page page_id (p ∷ pages) =
    let rest = find_page page_id pages in if p.id == page_id then some p else rest

unfoldable pub get_page : ℕ → IndexFile → Option IndexPage
get_page page_id file = find_page page_id file.pages

-- What is done to a page through the pointer that `get_page` returns.
unfoldable pub change_page : ℕ → (IndexPage → IndexPage) → List IndexPage → List IndexPage
change_page page_id f [] = []
change_page page_id f (p ∷ pages) =
    let rest = change_page page_id f pages in if p.id == page_id then f p ∷ pages else p ∷ rest

abbrev pub at_page : ℕ → (IndexPage → IndexPage) → IndexFile → IndexFile
at_page page_id f file = record file { pages = change_page page_id f file.pages }

-- The page before its node is filled.
unfoldable pub empty_node : Bool → IndexNode
empty_node true = leaf (record { keys = []; rows = []; next_leaf = 0 })
empty_node false = internal (record { keys = []; children = [] })

-- A page with the next id, whose node is filled by `fill` through the pointer that is returned.
unfoldable pub create_page : Bool → ℕ → (IndexNode → IndexNode) → IndexFile → ℕ × IndexFile
create_page is_leaf parent fill file =
    let id = (file.last_page + 1) % 2 ^ 64 in
    let page : IndexPage = record {
      id = id;
      parent = parent;
      index_id = file.index_id;
      is_leaf = is_leaf;
      node = fill (empty_node is_leaf);
    } in
    (id, record file { last_page = id; pages = file.pages ++ (page ∷ []) })

abbrev pub set_root_page_id : ℕ → IndexFile → IndexFile
set_root_page_id root file = record file { root_page = root }

-- What is assigned through a pointer to a page.
abbrev pub with_node : IndexNode → IndexPage → IndexPage
with_node node page = record page { node = node }

abbrev pub with_parent : ℕ → IndexPage → IndexPage
with_parent parent page = record page { parent = parent }
