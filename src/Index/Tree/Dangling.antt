-- ===== src/Index/Tree/Dangling.antt =====
-- The split of a leaf whose page has moved.
use deltabase_c.Prelude.{ℕ, ◌≤◌, ◌≡◌, refl, List, some, true, length, arith, ltb, leb, ==_refl}
use deltabase_c.Types.Value.{DataToken}
use deltabase_c.Types.Page.{IndexFile, IndexPage, leaf, LeafIndexNode, RowPtr}
use deltabase_c.Evaluator.{Doubles}
use deltabase_c.Index.Pager.{find_page, get_page, with_node, at_page}
use deltabase_c.Index.Tree.{
  returned, dangling, ◌>>=◌, insert_at, still_valid, split_leaf, find_leaf, insert_into_leaf,
  insert, leaf_position, split_leaf_and_propagate,
}
use deltabase_c.Index.Tree.Results.{length-insert_at}
use deltabase_c.Index.Tree.Sizes.{length-change_page}
use deltabase_c.Index.Tree.Found.Leaf.{leaf_end}
use deltabase_c.Index.Tree.Found.Touched.{find_page-touched}

not_valid :
    (capacity : ℕ) (file : IndexFile)
    → capacity ≤ length file.pages
    → still_valid capacity file ≡ dangling
unfolding still_valid
not_valid capacity file h =
    let full : leb capacity (length file.pages) ≡ true = ground (arith, h) in rw full refl

-- The leaf that was filled, in a vector of pages that is full.
split_leaf-dangling :
    (capacity leaf_id : ℕ) (file : IndexFile) (page : IndexPage) (node : LeafIndexNode)
    → get_page leaf_id file ≡ some page
    → page.node ≡ leaf node
    → capacity ≤ length file.pages
    → split_leaf capacity leaf_id file ≡ dangling
unfolding split_leaf ◌>>=◌
split_leaf-dangling capacity leaf_id file page node e n h =
    rw (e, ◌>>=◌) (rw (n, ◌>>=◌) (rw (not_valid capacity file h, ◌>>=◌) refl))

module _ (doubles : Doubles) where
  -- Where the search for a key ends at a leaf that has all the keys it may have, and the vector of pages
  -- is full, the insertion of the key goes through a dangling pointer.
  pub insert-dangling :
      (key : DataToken) (row : RowPtr) (fuel max_leaf max_internal capacity : ℕ) (file : IndexFile)
      (path : List ℕ) (page : IndexPage) (node : LeafIndexNode)
      → find_leaf doubles key fuel file ≡ returned (path, page)
      → page.node ≡ leaf node
      → max_leaf ≤ length node.keys
      → capacity ≤ length file.pages
      → insert doubles key max_leaf max_internal capacity fuel row file ≡ dangling
  unfolding insert insert_into_leaf split_leaf_and_propagate get_page ◌>>=◌
  insert-dangling key row fuel max_leaf max_internal capacity file path page node e n full h =
      let pos = leaf_position doubles key node.keys in
      let filled = insert_into_leaf doubles key node row in
      let ended = leaf_end doubles key fuel file e in
      let file1 = at_page page.id (with_node (leaf filled)) file in
      let big : ltb max_leaf (length (insert_at pos key node.keys)) ≡ true =
        ground (arith, length-insert_at pos key node.keys, full) in
      let there : find_page page.id file1.pages ≡ some (with_node (leaf filled) page) =
        rw (==_refl page.id) at (
          find_page-touched doubles file page (leaf filled) ended.0 ended.1 page.id file.pages
            ended.1) in
      let room : capacity ≤ length file1.pages =
        omega (arith, h, length-change_page page.id (with_node (leaf filled)) file.pages) in
      let split =
        split_leaf-dangling capacity page.id file1 (with_node (leaf filled) page) filled there refl
          room in
      rw (e, ◌>>=◌) (rw (n, ◌>>=◌) (rw big (rw (split, ◌>>=◌) refl)))
