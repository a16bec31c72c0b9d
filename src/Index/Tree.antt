-- ===== src/Index/Tree.antt =====
-- index_bplus_tree.cpp: the search and the insertion of a key, with the splits on the way up. A path is
-- kept with its end first. A call through a pointer that is null, or to the other variant, throws.

pub mod Results
pub mod Bounds
pub mod Found
pub mod Sizes
pub mod Ends
pub mod Dangling
use deltabase_c.Prelude.{
  leb, ℕ, zero, suc, ◌+◌, ◌/◌, List, [], ◌∷◌, ◌++◌, true, false, Option, none, some, ltb, ◌==◌,
  if◌then◌else◌, length, take, drop, get_elem?,
}
use deltabase_c.Types.Value.{DataToken}
use deltabase_c.Types.Page.{
  RowPtr, IndexFile, IndexPage, IndexNode, internal, leaf, InternalIndexNode, LeafIndexNode,
}
use deltabase_c.Evaluator.{Doubles}
use deltabase_c.Index.Keys.{compare_token, is_zero, is_negative, is_positive}
use deltabase_c.Index.Pager.{
  get_page, at_page, create_page, set_root_page_id, with_node, with_parent,
}

-- A call returns, throws, goes through a pointer to a page that is no longer there, which has no defined
-- behaviour, or has not ended when the fuel is used up.
pub data Result {ℓ} (A : Type ℓ) : Type ℓ where
  returned : A → Result A
  thrown : Result A
  dangling : Result A
  still_running : Result A

module _ {ℓ κ} {A : Type ℓ} {B : Type κ} where
  infixl 5 ◌>>=◌
  unfoldable pub ◌>>=◌ : Result A → (A → Result B) → Result B
  returned a >>= f = f a
  thrown >>= f = thrown
  dangling >>= f = dangling
  still_running >>= f = still_running

module _ {ℓ} {A : Type ℓ} where
  abbrev pub or_throw : Option A → Result A
  or_throw none = thrown
  or_throw (some a) = returned a

  -- `v.insert(v.begin() + pos, a)`
  abbrev pub insert_at : ℕ → A → List A → List A
  insert_at pos a xs = take pos xs ++ a ∷ drop pos xs

-- `std::get` of the variant of a page.
abbrev pub as_leaf : IndexNode → Result LeafIndexNode
as_leaf (leaf n) = returned n
as_leaf (internal n) = thrown

abbrev pub as_internal : IndexNode → Result InternalIndexNode
as_internal (leaf n) = thrown
as_internal (internal n) = returned n

unfoldable pub root : IndexFile → Result IndexPage
root file = or_throw (get_page file.root_page file)

-- The position of a child: `children.size()` where it is not there.
unfoldable pub child_position : ℕ → List ℕ → ℕ
child_position left_id [] = 0
child_position left_id (c ∷ children) =
    let rest = child_position left_id children in if c == left_id then 0 else suc rest

unfoldable pub adopt_all : List ℕ → ℕ → IndexFile → Result IndexFile
adopt_all [] parent file = returned file
adopt_all (child_id ∷ children) parent file = or_throw (get_page child_id file) >>= λ child.
    adopt_all children parent (at_page child_id (with_parent parent) file)

-- The root above two pages, when a page without a parent was split.
unfoldable pub grow_root : ℕ → DataToken → ℕ → IndexFile → Result IndexFile
grow_root left_id separator right_id file =
    let (new_root, file1) =
      create_page false 0
        (λ _. internal (record { keys = separator ∷ []; children = left_id ∷ right_id ∷ [] }))
        file in
    or_throw (get_page left_id file1) >>= λ left. or_throw (get_page right_id file1) >>= λ right.
    returned (
      set_root_page_id new_root
        (at_page right_id (with_parent new_root) (at_page left_id (with_parent new_root) file1)))

-- Whether a pointer to a page may be used that was taken before `create_page` pushed another page to the
-- vector: where the vector was full, all pages have moved.
unfoldable pub still_valid : ℕ → IndexFile → Result (Unit {0})
still_valid capacity file = if leb capacity (length file.pages) then dangling else returned tt

-- What goes up from a split, and the file with both halves.
pub record Split : Type 0 where
  pub separator : DataToken
  pub right_id : ℕ
  pub file : IndexFile

-- `split_leaf_and_propagate` before it goes on to the parent: `leaf` and `leaf_page` are used after
-- `create_page`. `capacity` is that of the vector of pages.
unfoldable pub split_leaf : ℕ → ℕ → IndexFile → Result Split
split_leaf capacity leaf_id file = or_throw (get_page leaf_id file) >>= λ leaf_page.
    as_leaf leaf_page.node >>= λ left.
    let mid = length left.keys / 2 in
    let (right_id, file1) =
      create_page true leaf_page.parent
        (λ _. leaf (record {
          keys = drop mid left.keys;
          rows = drop mid left.rows;
          next_leaf = left.next_leaf;
        }))
        file in
    still_valid capacity file >>= λ _. or_throw (get_elem? left.keys mid) >>= λ separator.
    returned (record {
      separator = separator;
      right_id = right_id;
      file =
          at_page leaf_id
            (with_node (
              leaf (record {
                keys = take mid left.keys;
                rows = take mid left.rows;
                next_leaf = right_id;
              })))
            file1;
    })

-- `split_internal_and_propagate` before it goes on to the parent: `node` and `internal_page` are used
-- after `create_page`.
unfoldable pub split_internal : ℕ → ℕ → IndexFile → Result Split
split_internal capacity page_id file = or_throw (get_page page_id file) >>= λ internal_page.
    as_internal internal_page.node >>= λ node.
    let mid = length node.keys / 2 in
    or_throw (get_elem? node.keys mid) >>= λ up_key.
    let right_children = drop (mid + 1) node.children in
    let (right_id, file1) =
      create_page false internal_page.parent
        (λ _. internal (record { keys = drop (mid + 1) node.keys; children = right_children }))
        file in
    still_valid capacity file >>= λ _.
    adopt_all right_children right_id (
      at_page page_id
        (with_node (
          internal (record { keys = take mid node.keys; children = take (mid + 1) node.children })))
        file1)
    >>= λ file2. returned (record { separator = up_key; right_id = right_id; file = file2 })

-- The parent's node with the new key and child.
unfoldable pub with_child : ℕ → DataToken → ℕ → InternalIndexNode → Result InternalIndexNode
with_child left_id separator right_id parent =
    let pos = child_position left_id parent.children in
    if pos == length parent.children
    then thrown
    else returned (record {
      keys = insert_at pos separator parent.keys;
      children = insert_at (pos + 1) right_id parent.children;
    })

-- `!parent_page || parent_page->is_leaf` throws, and so does the other variant.
unfoldable pub as_parent : IndexPage → Result InternalIndexNode
as_parent page = if page.is_leaf then thrown else as_internal page.node

-- The parent, and how many keys it has then.
unfoldable pub link_child : ℕ → ℕ → DataToken → ℕ → IndexFile → Result (ℕ × IndexFile)
link_child parent_id left_id separator right_id file =
    or_throw (get_page parent_id file) >>= λ parent_page. as_parent parent_page >>= λ parent.
    with_child left_id separator right_id parent >>= λ node.
    let file1 = at_page parent_id (with_node (internal node)) file in
    or_throw (get_page right_id file1) >>= λ right.
    returned (length node.keys, at_page right_id (with_parent parent_id) file1)

-- A split that gets through has found room in the vector, so that its capacity stays.
module _ (max_internal_keys capacity : ℕ) where
  -- A path holds the leaf at least.
  unfoldable pub insert_into_parent : List ℕ → ℕ → DataToken → ℕ → IndexFile → Result IndexFile
  insert_into_parent [] left_id separator right_id file = thrown
  insert_into_parent (end ∷ []) left_id separator right_id file =
      grow_root left_id separator right_id file
  insert_into_parent (end ∷ parent_id ∷ path) left_id separator right_id file =
      link_child parent_id left_id separator right_id file >>= λ (count, file1).
      elim (ltb max_internal_keys count) [
        | false ↦ returned file1
        | true ↦ split_internal capacity parent_id file1 >>= λ s.
            insert_into_parent (parent_id ∷ path) parent_id s.separator s.right_id s.file
      ]

module _ (doubles : Doubles) (key : DataToken) where
  -- `while (i < keys.size() && compare_token(keys[i], key) <= 0) ++i;`
  unfoldable pub child_of : List DataToken → ℕ
  child_of [] = 0
  child_of (k ∷ keys) =
      let rest = child_of keys in if is_positive (compare_token doubles k key) then 0 else suc rest

  unfoldable pub next_page : IndexPage → IndexFile → Result IndexPage
  next_page cur file = as_internal cur.node >>= λ node.
      or_throw (get_elem? node.children (child_of node.keys)) >>= λ child.
      or_throw (get_page child file)

  -- The loop of `find_leaf`.
  unfoldable pub descend : ℕ → List ℕ → IndexPage → IndexFile → Result (List ℕ × IndexPage)
  descend zero path cur file = still_running
  descend (suc fuel) path cur file = elim cur.is_leaf [
    | true ↦ returned (cur.id ∷ path, cur)
    | false ↦ next_page cur file >>= λ next. descend fuel (cur.id ∷ path) next file
  ]

  unfoldable pub find_leaf : ℕ → IndexFile → Result (List ℕ × IndexPage)
  find_leaf fuel file = root file >>= λ cur. descend fuel [] cur file

  -- A leaf has a row for every key.
  unfoldable pub lookup : List DataToken → List RowPtr → Option RowPtr
  lookup [] rows = none
  lookup (k ∷ keys) [] = none
  lookup (k ∷ keys) (r ∷ rows) =
      let rest = lookup keys rows in if is_zero (compare_token doubles k key) then some r else rest

  unfoldable pub find : ℕ → IndexFile → Result (Option RowPtr)
  find fuel file = find_leaf fuel file >>= λ (path, leaf_page).
      as_leaf leaf_page.node >>= λ node. returned (lookup node.keys node.rows)

  -- `while (pos < keys.size() && compare_token(keys[pos], key) < 0) ++pos;`
  unfoldable pub leaf_position : List DataToken → ℕ
  leaf_position [] = 0
  leaf_position (k ∷ keys) =
      let rest = leaf_position keys in
      if is_negative (compare_token doubles k key) then suc rest else 0

  unfoldable pub insert_into_leaf : LeafIndexNode → RowPtr → LeafIndexNode
  insert_into_leaf node row_ptr =
      let pos = leaf_position node.keys in
      record node { keys = insert_at pos key node.keys; rows = insert_at pos row_ptr node.rows }

  module _ (max_leaf_keys max_internal_keys capacity : ℕ) where
    unfoldable pub split_leaf_and_propagate : ℕ → List ℕ → IndexFile → Result IndexFile
    split_leaf_and_propagate leaf_id path file = split_leaf capacity leaf_id file >>= λ s.
        insert_into_parent max_internal_keys capacity path leaf_id s.separator s.right_id s.file

    unfoldable pub insert : ℕ → RowPtr → IndexFile → Result IndexFile
    insert fuel row_ptr file = find_leaf fuel file >>= λ (path, leaf_page).
        as_leaf leaf_page.node >>= λ node.
        let filled = insert_into_leaf node row_ptr in
        let file1 = at_page leaf_page.id (with_node (leaf filled)) file in
        elim (ltb max_leaf_keys (length filled.keys)) [
          | true ↦ split_leaf_and_propagate leaf_page.id path file1
          | false ↦ returned file1
        ]
