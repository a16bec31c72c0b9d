-- ===== src/Index/Tree/Bounds/Splits.antt =====
-- The bounds on the nodes of a tree, and that the parts of a split and the link of a new child keep them.
use deltabase_c.Prelude.{
  ap, ap, ◌%◌, ◌^◌, ◌<◌, ℕ, suc, ◌+◌, ◌≤◌, ◌/◌, ◌≡◌, refl, List, [], ◌∷◌, length, take, drop, arith,
  length-take, length-drop, get_elem?, Bool-cases, inl, inr, All-append, ◌==◌,
}
use deltabase_c.Types.Value.{DataToken}
use deltabase_c.Types.Page.{
  IndexFile, IndexPage, IndexNode, internal, leaf, InternalIndexNode, LeafIndexNode,
}
use deltabase_c.Index.Pager.{get_page, create_page, with_parent}
use deltabase_c.Index.Pager.Pages.{
  Holds, HoldsBut, find_page-Holds, change_page-Holds, with_node-Holds, with_node-HoldsBut,
  find_page-HoldsBut, push-HoldsBut, repaired, change_page-HoldsBut,
}
use deltabase_c.Index.Tree.{
  returned, or_throw, as_leaf, as_internal, as_parent, adopt_all, grow_root, Split, split_leaf,
  split_internal, with_child, link_child, child_position, still_valid,
}
use deltabase_c.Index.Tree.Results.{
  bind_case, or_throw_lem, returned_lem, get_elem?_bound, length-insert_at, as_leaf_lem,
  as_internal_lem, as_parent_lem, thrown_lem,
}

-- A leaf has a row for each key, an internal node one child more than keys.
abbrev pub IsBounded : ℕ → ℕ → IndexNode → Type 0
IsBounded max_leaf max_internal (leaf n) =
    (length n.keys ≤ max_leaf) × (length n.rows ≡ length n.keys)
IsBounded max_leaf max_internal (internal n) =
    (length n.keys ≤ max_internal) × (length n.children ≡ suc (length n.keys))

module _ (max_leaf max_internal : ℕ) (some_leaf : 1 ≤ max_leaf)
    (some_internal : 1 ≤ max_internal) where
  abbrev pub Bounded : List IndexPage → Type 0
  Bounded pages = Holds (IsBounded max_leaf max_internal) pages

  pub weaker :
      (n : IndexNode)
      → IsBounded max_leaf max_internal n
      → IsBounded (suc max_leaf) (suc max_internal) n
  weaker (leaf n) h = (omega (arith, h.0), h.1)
  weaker (internal n) h = (omega (arith, h.0), h.1)

  -- One page may hold a key too many.
  abbrev pub Overfull : ℕ → List IndexPage → Type 0
  Overfull page_id pages =
      HoldsBut (IsBounded max_leaf max_internal) (IsBounded (suc max_leaf) (suc max_internal))
        weaker page_id pages

  pub take-leaf :
      (mid next : ℕ) (n : LeafIndexNode)
      → mid ≤ max_leaf
      → length n.rows ≡ length n.keys
      → IsBounded max_leaf max_internal
          (leaf (record { keys = take mid n.keys; rows = take mid n.rows; next_leaf = next }))
  take-leaf mid next n h e = (
    omega (arith, length-take mid n.keys),
    omega (arith, length-take mid n.keys, length-take mid n.rows),
  )

  pub drop-leaf :
      (mid next : ℕ) (n : LeafIndexNode)
      → length n.keys ≤ mid + max_leaf
      → length n.rows ≡ length n.keys
      → IsBounded max_leaf max_internal
          (leaf (record { keys = drop mid n.keys; rows = drop mid n.rows; next_leaf = next }))
  drop-leaf mid next n h e = (
    omega (arith, length-drop mid n.keys),
    omega (arith, length-drop mid n.keys, length-drop mid n.rows),
  )

  pub split_leaf-Bounded :
      (capacity leaf_id : ℕ) (file : IndexFile) {s : Split}
      → Overfull leaf_id file.pages
      → split_leaf capacity leaf_id file ≡ returned s
      → Bounded s.file.pages
  unfolding split_leaf get_page create_page
  split_leaf-Bounded capacity leaf_id file {s} h e =
      bind_case (or_throw (get_page leaf_id file)) _ e (λ page a e1.
        bind_case (as_leaf page.node) _ e1 (λ left b e2.
          bind_case (still_valid capacity file) _ e2 (λ _ v e2'.
            bind_case (or_throw (get_elem? left.keys (length left.keys / 2))) _ e2'
              (λ separator c e3.
                let mid = length left.keys / 2 in
                let found = or_throw_lem (get_page leaf_id file) a in
                let k : IsBounded (suc max_leaf) (suc max_internal) (leaf left) =
                  rw (as_leaf_lem page.node b) at
                    (find_page-HoldsBut _ _ weaker leaf_id file.pages h found) in
                rw (← returned_lem e3) (
                  repaired _ _ weaker leaf_id _
                    (take-leaf mid ((file.last_page + 1) % 2 ^ 64) left
                      (omega (arith, k.0, some_leaf)) k.1)
                    _
                    (push-HoldsBut _ _ weaker leaf_id file.pages _
                      (drop-leaf mid left.next_leaf left (omega (arith, k.0, some_leaf)) k.1)
                      h))))))

  -- To give pages another parent leaves their nodes alone.
  pub adopt_all-Bounded :
      (children : List ℕ) (parent : ℕ) (file : IndexFile) {file' : IndexFile}
      → Bounded file.pages
      → adopt_all children parent file ≡ returned file'
      → Bounded file'.pages
  unfolding adopt_all
  adopt_all-Bounded [] parent file h e = rw (← returned_lem e) h
  adopt_all-Bounded (c ∷ children) parent file h e =
      bind_case (or_throw (get_page c file)) _ e (λ page a e1.
        adopt_all-Bounded children parent _
          (change_page-Holds _ c (with_parent parent) (λ p. refl) file.pages h) e1)

  pub take-internal :
      (mid : ℕ) (n : InternalIndexNode)
      → mid ≤ max_internal
      → mid ≤ length n.keys
      → length n.children ≡ suc (length n.keys)
      → IsBounded max_leaf max_internal
          (internal (record { keys = take mid n.keys; children = take (mid + 1) n.children }))
  take-internal mid n h k e = (
    omega (arith, length-take mid n.keys),
    omega (arith, length-take mid n.keys, length-take (mid + 1) n.children),
  )

  pub drop-internal :
      (mid : ℕ) (n : InternalIndexNode)
      → length n.keys ≤ mid + 1 + max_internal
      → mid < length n.keys
      → length n.children ≡ suc (length n.keys)
      → IsBounded max_leaf max_internal
          (internal (record { keys = drop (mid + 1) n.keys; children = drop (mid + 1) n.children }))
  drop-internal mid n h k e = (
    omega (arith, length-drop (mid + 1) n.keys),
    omega (arith, length-drop (mid + 1) n.keys, length-drop (mid + 1) n.children),
  )

  pub split_internal-Bounded :
      (capacity page_id : ℕ) (file : IndexFile) {s : Split}
      → Overfull page_id file.pages
      → split_internal capacity page_id file ≡ returned s
      → Bounded s.file.pages
  unfolding split_internal get_page create_page
  split_internal-Bounded capacity page_id file {s} h e =
      bind_case (or_throw (get_page page_id file)) _ e (λ page a e1.
        bind_case (as_internal page.node) _ e1 (λ node b e2.
          bind_case (or_throw (get_elem? node.keys (length node.keys / 2))) _ e2 (λ up_key c e3.
            bind_case (still_valid capacity file) _ e3 (λ _ v e3'.
              bind_case (adopt_all _ _ _) _ e3' (λ file2 d e4.
                let mid = length node.keys / 2 in
                let found = or_throw_lem (get_page page_id file) a in
                let k : IsBounded (suc max_leaf) (suc max_internal) (internal node) =
                  rw (as_internal_lem page.node b) at
                    (find_page-HoldsBut _ _ weaker page_id file.pages h found) in
                let l = get_elem?_bound node.keys mid (or_throw_lem (get_elem? node.keys mid) c) in
                rw (← returned_lem e4) (
                  adopt_all-Bounded _ _ _
                    (repaired _ _ weaker page_id _
                      (take-internal mid node (omega (arith, k.0, some_internal)) (omega (arith, l))
                        k.1)
                      _
                      (push-HoldsBut _ _ weaker page_id file.pages _
                        (drop-internal mid node (omega (arith, k.0, some_internal)) l k.1) h))
                    d))))))

  pub grow_root-Bounded :
      (left_id : ℕ) (separator : DataToken) (right_id : ℕ) (file : IndexFile) {file' : IndexFile}
      → Bounded file.pages
      → grow_root left_id separator right_id file ≡ returned file'
      → Bounded file'.pages
  unfolding grow_root get_page create_page
  grow_root-Bounded left_id separator right_id file h e = bind_case _ _ e (λ left a e1.
      bind_case _ _ e1 (λ right b e2. rw (← returned_lem e2) (
        change_page-Holds _ right_id _ (λ p. refl) _
          (change_page-Holds _ left_id _ (λ p. refl) _
            (All-append _ file.pages _ h ((some_internal, refl), tt))))))

  pub with_child-IsBounded :
      (left_id : ℕ) (separator : DataToken) (right_id : ℕ) (n : InternalIndexNode)
      {n' : InternalIndexNode}
      → IsBounded max_leaf max_internal (internal n)
      → with_child left_id separator right_id n ≡ returned n'
      → (length n'.keys ≡ suc (length n.keys)) × (length n'.children ≡ suc (length n'.keys))
  unfolding with_child
  with_child-IsBounded left_id separator right_id n h e =
      let pos = child_position left_id n.children in
      elim (Bool-cases (pos == length n.children)) [
        | inl gone ↦ absurd (thrown_lem (rw gone at e))
        | inr there ↦
            let z = rw there at e in
            let k = length-insert_at pos separator n.keys in
            let c = length-insert_at (pos + 1) right_id n.children in
            rw (← returned_lem z) (k, omega (arith, k, c, h.1))
      ]

  pub link_child-Bounded :
      (parent_id left_id : ℕ) (separator : DataToken) (right_id : ℕ) (file : IndexFile) {count : ℕ}
      {file' : IndexFile}
      → Bounded file.pages
      → link_child parent_id left_id separator right_id file ≡ returned (count, file')
      → Overfull parent_id file'.pages × (count ≤ max_internal → Bounded file'.pages)
  unfolding link_child get_page
  link_child-Bounded parent_id left_id separator right_id file h e =
      bind_case (or_throw (get_page parent_id file)) _ e (λ parent_page a e1.
        bind_case (as_parent parent_page) _ e1 (λ parent b e2.
          bind_case (with_child left_id separator right_id parent) _ e2 (λ node c e3.
            bind_case _ _ e3 (λ right d e4.
              let found = or_throw_lem (get_page parent_id file) a in
              let k : IsBounded max_leaf max_internal (internal parent) =
                rw (as_parent_lem parent_page b) at
                  (find_page-Holds _ parent_id file.pages h found) in
              let n = with_child-IsBounded left_id separator right_id parent k c in
              let r = returned_lem e4 in
              (
                rw (← ap (λ x. x.1) r) (
                    change_page-HoldsBut _ _ weaker parent_id right_id _ (λ p. (refl, refl)) _
                      (with_node-HoldsBut _ _ weaker parent_id (internal node)
                        (omega (arith, n.0, k.0), n.1) file.pages h)),
                λ small. rw (← ap (λ x. x.1) r) (
                    change_page-Holds _ right_id _ (λ p. refl) _
                      (with_node-Holds _ parent_id (internal node) (rw (ap (λ x. x.0) r) small, n.1)
                        file.pages h)),
              )))))
