-- ===== src/Index/Tree/Found.antt =====
-- An insertion into a leaf that has room, and the searches after it.
pub mod Leaf
pub mod Touched
use mathlib.Core.Path.{subst}
use Prim.Native.Nat.{Ordering}
use deltabase_c.Prelude.{
  ◌≢◌, ap, sym, ◌∙◌, ℕ, zero, suc, ◌≤◌, ◌≡◌, refl, List, [], ◌∷◌, Bool, true, false, Option, some,
  length, arith, ltb, Bool-cases, inl, inr, if◌then◌else◌, ◌==◌, ==_iff, ==_refl, get_elem?,
}
use deltabase_c.Types.Value.{DataToken}
use deltabase_c.Types.Page.{IndexFile, IndexPage, IndexNode, leaf, LeafIndexNode, RowPtr}
use deltabase_c.Evaluator.{Doubles}
use deltabase_c.Index.Keys.{compare_token, is_zero, is_negative}
use deltabase_c.Index.Pager.{find_page, get_page, change_page, with_node, at_page}
use deltabase_c.Index.Pager.Pages.{some_lem, find_page-id}
use deltabase_c.Index.Tree.{
  returned, ◌>>=◌, or_throw, insert_at, as_internal, root, next_page, descend, child_of, find_leaf,
  find, lookup, insert_into_leaf, insert, leaf_position,
}
use deltabase_c.Index.Tree.Results.{bind_case, or_throw_lem, returned_lem, length-insert_at}
use deltabase_c.Index.Tree.Found.Leaf.{
  clash, not_zero, IsFetched, find_page-IsFetched, descend_end, descend-IsFetched, leaf_end,
  lookup-inserted, lookup-other,
}
use deltabase_c.Index.Tree.Found.Touched.{
  after, touched, find_page-touched, same_page, touched-inner, touched-is_leaf, touched-id,
  next_page-touched, descend-touched, find_leaf-touched,
}

module _ (doubles : Doubles) where
  module _ (file : IndexFile) (page : IndexPage) (node : IndexNode) (flag : page.is_leaf ≡ true)
      (fetched : IsFetched file.pages page) where
    -- What a search finds then in the leaf itself, and in any other.
    find-here :
        (key : DataToken) (fuel : ℕ) (path : List ℕ) (l : LeafIndexNode)
        → node ≡ leaf l
        → find_leaf doubles key fuel file ≡ returned (path, page)
        → find doubles key fuel (after doubles file page node flag fetched)
          ≡ returned (lookup doubles key l.keys l.rows)
    unfolding find ◌>>=◌
    find-here key fuel path l n e =
        rw ((find_leaf-touched doubles file page node flag fetched key fuel e).0, ◌>>=◌)
          (rw (==_refl page.id) (rw n refl))

    find-elsewhere :
        (key : DataToken) (fuel : ℕ) (old new : LeafIndexNode) (o : Option RowPtr)
        → page.node ≡ leaf old
        → node ≡ leaf new
        → lookup doubles key new.keys new.rows ≡ lookup doubles key old.keys old.rows
        → find doubles key fuel file ≡ returned o
        → find doubles key fuel (after doubles file page node flag fetched) ≡ returned o
    unfolding find ◌>>=◌
    find-elsewhere key fuel old new o n m l e =
        bind_case (find_leaf doubles key fuel file) _ e (λ x a e1.
          let (found, f) = find_leaf-touched doubles file page node flag fetched key fuel a in
          elim (Bool-cases (x.1.id == page.id)) [
            | inl hit ↦
                let z = same_page doubles file page node flag fetched x.1 f hit in
                let w : returned (lookup doubles key old.keys old.rows) ≡ returned o =
                  rw (z, n) at e1 in
                rw (found, ◌>>=◌) (rw (hit, m) (rw l w))
            | inr miss ↦ rw (found, ◌>>=◌) (rw miss e1)
          ])

  -- Where the search for a key ends at a leaf that has a row for each key and room for one more, the
  -- insertion of the key returns. Then the key is found with its new row, if it equals itself, and a key that
  -- the new one does not equal is found, or not, as before.
  pub find-insert :
      (key : DataToken) (row : RowPtr) (fuel max_leaf max_internal capacity : ℕ) (file : IndexFile)
      (path : List ℕ) (page : IndexPage) (node : LeafIndexNode)
      → find_leaf doubles key fuel file ≡ returned (path, page)
      → page.node ≡ leaf node
      → length node.rows ≡ length node.keys
      → suc (length node.keys) ≤ max_leaf
      → is_zero (compare_token doubles key key) ≡ true
      → (file' : IndexFile) × (insert doubles key max_leaf max_internal capacity fuel row file
          ≡ returned file')
        × (find doubles key fuel file' ≡ returned (some row))
        × ((other : DataToken) (o : Option RowPtr)
            → is_zero (compare_token doubles key other) ≡ false
            → find doubles other fuel file ≡ returned o
            → find doubles other fuel file' ≡ returned o)
  unfolding insert insert_into_leaf find ◌>>=◌
  find-insert key row fuel max_leaf max_internal capacity file path page node e n r room z =
      let pos = leaf_position doubles key node.keys in
      let filled = insert_into_leaf doubles key node row in
      let ended = leaf_end doubles key fuel file e in
      let small : ltb max_leaf (length (insert_at pos key node.keys)) ≡ false =
        ground (arith, length-insert_at pos key node.keys, room) in
      (
        after doubles file page (leaf filled) ended.0 ended.1,
        rw (e, ◌>>=◌) (rw (n, ◌>>=◌) (rw small refl)),
        find-here file page (leaf filled) ended.0 ended.1 key fuel path filled refl e
            ∙ ap returned (lookup-inserted doubles key row node.keys node.rows z r),
        λ other o k.
            find-elsewhere file page (leaf filled) ended.0 ended.1 other fuel node filled o n refl
              (lookup-other doubles key other row pos node.keys node.rows k r),
      )
