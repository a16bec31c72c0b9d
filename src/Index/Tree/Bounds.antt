-- ===== src/Index/Tree/Bounds.antt =====
-- The bounds on the nodes of a tree, which an insertion with all its splits keeps.
pub mod Splits
use deltabase_c.Prelude.{
  ap, ap, ◌%◌, ◌^◌, ◌<◌, ℕ, zero, suc, ◌+◌, ◌≤◌, ◌/◌, ◌≡◌, refl, List, [], ◌∷◌, length, take, drop,
  arith, ltb, length-take, length-drop, get_elem?, Bool-cases, inl, inr, All-append, ◌==◌,
}
use deltabase_c.Types.Value.{DataToken}
use deltabase_c.Types.Page.{
  IndexFile, IndexPage, IndexNode, internal, leaf, InternalIndexNode, LeafIndexNode, RowPtr,
}
use deltabase_c.Evaluator.{Doubles}
use deltabase_c.Index.Pager.{get_page, create_page, with_parent}
use deltabase_c.Index.Pager.Pages.{
  Holds, HoldsBut, find_page-Holds, change_page-Holds, with_node-Holds, with_node-HoldsBut,
  find_page-HoldsBut, push-HoldsBut, repaired, change_page-HoldsBut,
}
use deltabase_c.Index.Tree.{
  returned, or_throw, insert_at, as_leaf, as_internal, as_parent, adopt_all, grow_root, Split,
  split_leaf, split_internal, with_child, link_child, insert_into_parent, child_position, root,
  next_page, descend, find_leaf, insert_into_leaf, insert, leaf_position, split_leaf_and_propagate,
  child_of,
}
use deltabase_c.Index.Tree.Results.{
  bind_case, or_throw_lem, returned_lem, get_elem?_bound, length-insert_at, as_leaf_lem,
  as_internal_lem, as_parent_lem, thrown_lem,
}
use deltabase_c.Index.Tree.Bounds.Splits.{
  IsBounded, Bounded, weaker, Overfull, take-leaf, drop-leaf, split_leaf-Bounded, adopt_all-Bounded,
  take-internal, drop-internal, split_internal-Bounded, grow_root-Bounded, with_child-IsBounded,
  link_child-Bounded,
}

module _ (max_leaf max_internal : ℕ) (some_leaf : 1 ≤ max_leaf) (some_internal : 1 ≤ max_internal)
    (capacity : ℕ) where
  insert_into_parent-Bounded :
      (path : List ℕ) (left_id : ℕ) (separator : DataToken) (right_id : ℕ) (file : IndexFile)
      {file' : IndexFile}
      → Bounded max_leaf max_internal some_leaf some_internal file.pages
      → insert_into_parent max_internal capacity path left_id separator right_id file
        ≡ returned file'
      → Bounded max_leaf max_internal some_leaf some_internal file'.pages
  unfolding insert_into_parent
  insert_into_parent-Bounded [] left_id separator right_id file h e = absurd cc
  insert_into_parent-Bounded (end ∷ []) left_id separator right_id file h e =
      grow_root-Bounded max_leaf max_internal some_leaf some_internal left_id separator right_id
        file h e
  insert_into_parent-Bounded (end ∷ parent_id ∷ path) left_id separator right_id file {file'} h e =
      bind_case (link_child parent_id left_id separator right_id file) _ e (λ x a e1.
        let (over, small) =
          link_child-Bounded max_leaf max_internal some_leaf some_internal parent_id left_id
            separator right_id file h a in
        elim (Bool-cases (ltb max_internal x.0)) [
          | inl full ↦
              bind_case (split_internal capacity parent_id x.1) _ (rw full at e1) (λ s b e2.
                insert_into_parent-Bounded (parent_id ∷ path) parent_id s.separator s.right_id
                  s.file
                  (split_internal-Bounded max_leaf max_internal some_leaf some_internal capacity
                    parent_id x.1 over b)
                  e2)
          | inr room ↦ rw (← returned_lem (rw room at e1)) (small (ground arith))
        ])

  module _ (doubles : Doubles) (key : DataToken) where
    descend-Bounded :
        (fuel : ℕ) (path : List ℕ) (cur : IndexPage) (file : IndexFile) {x : List ℕ × IndexPage}
        → Bounded max_leaf max_internal some_leaf some_internal file.pages
        → IsBounded max_leaf max_internal cur.node
        → descend doubles key fuel path cur file ≡ returned x
        → IsBounded max_leaf max_internal x.1.node
    unfolding descend next_page get_page
    descend-Bounded zero path cur file h k e = absurd cc
    descend-Bounded (suc fuel) path cur file {x} h k e = elim (Bool-cases cur.is_leaf) [
      | inl flag ↦ rw (← ap (λ y. y.1) (returned_lem (rw flag at e))) k
      | inr flag ↦ bind_case (next_page doubles key cur file) _ (rw flag at e) (λ next a e1.
          bind_case (as_internal cur.node) _ a (λ node b a1.
            bind_case (or_throw (get_elem? node.children (child_of doubles key node.keys))) _ a1
              (λ child c a2.
                descend-Bounded fuel (cur.id ∷ path) next file h
                  (find_page-Holds _ child file.pages h (or_throw_lem (get_page child file) a2))
                  e1)))
    ]

    -- An insertion that returns keeps the bounds of every node: no leaf has more than `max_leaf` keys and
    -- no internal node more than `max_internal`, a leaf has a row for each key, and an internal node one
    -- child more than keys, however many nodes were split.
    pub insert-IsBounded :
        (fuel : ℕ) (row : RowPtr) (file : IndexFile) {file' : IndexFile}
        → Holds (IsBounded max_leaf max_internal) file.pages
        → insert doubles key max_leaf max_internal capacity fuel row file ≡ returned file'
        → Holds (IsBounded max_leaf max_internal) file'.pages
    unfolding insert find_leaf root get_page insert_into_leaf split_leaf_and_propagate
    insert-IsBounded fuel row file {file'} h e =
        bind_case (find_leaf doubles key fuel file) _ e (λ x a e1.
          bind_case (as_leaf x.1.node) _ e1 (λ node b e2.
            let at_leaf = bind_case (root file) _ a (λ top c a1.
              descend-Bounded fuel [] top file h
                (find_page-Holds _ file.root_page file.pages h
                  (or_throw_lem (get_page file.root_page file) c))
                a1) in
            let k : IsBounded max_leaf max_internal (leaf node) =
              rw (as_leaf_lem x.1.node b) at at_leaf in
            let pos = leaf_position doubles key node.keys in
            let n = length-insert_at pos key node.keys in
            let r = length-insert_at pos row node.rows in
            elim (Bool-cases (ltb max_leaf (length (insert_at pos key node.keys)))) [
              | inl full ↦ bind_case (split_leaf capacity x.1.id _) _ (rw full at e2) (λ s c e3.
                  insert_into_parent-Bounded x.0 x.1.id s.separator s.right_id s.file
                    (split_leaf-Bounded max_leaf max_internal some_leaf some_internal capacity
                      x.1.id _
                      (with_node-HoldsBut _ _ (weaker max_leaf max_internal some_leaf some_internal)
                        x.1.id _ (omega (arith, n, k.0), omega (arith, n, r, k.1)) file.pages h)
                      c)
                    e3)
              | inr room ↦
                  rw (← returned_lem (rw room at e2)) (
                    with_node-Holds _ x.1.id _ (ground arith, omega (arith, n, r, k.1)) file.pages
                      h)
            ]))
