-- ===== src/Tests/Index.antt =====
-- The tree of an index at concrete files.

use mathlib.Core.Path.{subst}
use deltabase_c.Prelude.{
  ◌+◌, length, ◌⊎◌, ℕ, ◌-◌, ◌<◌, sym, ◌∙◌, All, ◌≢◌, ◌≡◌, ◌∷◌, [], refl, arith, true, false, Option,
  some,
}
use deltabase_c.Stream.Word.{of_le}
use deltabase_c.Types.Value.{DataToken, to_u64}
use deltabase_c.Types.Page.{
  RowPtr, IndexFile, IndexPage, LeafIndexNode, InternalIndexNode, leaf, internal,
}
use deltabase_c.Evaluator.{Doubles, same_type, as_int}
use deltabase_c.Tests.Storage.{seven, nothing, ones}
use deltabase_c.Index.Keys.{compare_token, is_zero, equal, equal_as, less, less_as}
use deltabase_c.Index.Pager.{find_page, get_page, change_page, create_page, empty_node}
use deltabase_c.Index.Pager.Pages.{Holds}
use deltabase_c.Index.Tree.{
  still_valid, dangling, still_running, returned, ◌>>=◌, root, descend, next_page, find_leaf,
  child_of, find, leaf_position, insert_into_leaf, insert, split_leaf, split_leaf_and_propagate,
  insert_into_parent, grow_root,
}
use deltabase_c.Index.Tree.Bounds.{insert-IsBounded}
use deltabase_c.Index.Tree.Bounds.Splits.{IsBounded}
use deltabase_c.Index.Tree.Dangling.{insert-dangling}
use deltabase_c.Index.Tree.Ends.{Ends-insert, Lower}
use deltabase_c.Index.Tree.Found.{find-insert}

abbrev doubles : Doubles
doubles = record { eq = λ l r. false; gr = λ l r. false; gre = λ l r. false }

abbrev here : RowPtr
here = (ones, 1)

abbrev there : RowPtr
there = (ones, 2)

abbrev only_leaf : IndexPage
only_leaf = record {
  id = 1;
  parent = 0;
  index_id = ones;
  is_leaf = true;
  node = leaf (record { keys = nothing ∷ []; rows = here ∷ []; next_leaf = 0 });
}

abbrev small : IndexFile
small = record {
  index_id = ones;
  root_page = 1;
  last_page = 1;
  last_lsn = 0;
  pages = only_leaf ∷ [];
}

abbrev grown_leaf : IndexPage
grown_leaf = record {
  id = 2;
  parent = 3;
  index_id = ones;
  is_leaf = true;
  node = leaf (record { keys = seven ∷ []; rows = there ∷ []; next_leaf = 0 });
}

abbrev split_leaf_page : IndexPage
split_leaf_page = record {
  id = 1;
  parent = 3;
  index_id = ones;
  is_leaf = true;
  node = leaf (record { keys = nothing ∷ []; rows = here ∷ []; next_leaf = 2 });
}

-- The file when the leaf was split: two leaves below a new root.
abbrev grown : IndexFile
grown = record {
  index_id = ones;
  root_page = 3;
  last_page = 3;
  last_lsn = 0;
  pages =
      split_leaf_page
      ∷ grown_leaf
      ∷ record {
        id = 3;
        parent = 0;
        index_id = ones;
        is_leaf = false;
        node = internal (record { keys = seven ∷ []; children = 1 ∷ 2 ∷ [] });
      }
      ∷ [];
}

insert_splits : insert doubles seven 1 1 2 1 there small ≡ returned grown
unfolding insert find_leaf root get_page find_page descend insert_into_leaf leaf_position
    compare_token equal less equal_as less_as same_type to_u64 ◌>>=◌ split_leaf still_valid
    split_leaf_and_propagate insert_into_parent grow_root create_page change_page empty_node
insert_splits = refl

insert-IsBounded_example : Holds (IsBounded 1 1) grown.pages
insert-IsBounded_example =
    insert-IsBounded 1 1 (omega arith) (omega arith) 2 doubles seven 1 there small
      ((omega arith, refl), tt) insert_splits

seven_equal : is_zero (compare_token doubles seven seven) ≡ true
unfolding compare_token equal equal_as same_type to_u64 as_int of_le
seven_equal = refl

seven_ends : find_leaf doubles seven 2 grown ≡ returned (2 ∷ 3 ∷ [], grown_leaf)
unfolding find_leaf root get_page find_page descend next_page child_of compare_token equal equal_as
    same_type to_u64 as_int of_le ◌>>=◌
seven_ends = refl

find-insert_example :
    (file' : IndexFile) × (insert doubles seven 2 1 3 2 here grown ≡ returned file')
    × (find doubles seven 2 file' ≡ returned (some here))
    × ((other : DataToken) (o : Option RowPtr)
        → is_zero (compare_token doubles seven other) ≡ false
        → find doubles other 2 grown ≡ returned o
        → find doubles other 2 file' ≡ returned o)
find-insert_example =
    find-insert doubles seven here 2 2 1 3 grown (2 ∷ 3 ∷ []) grown_leaf
      (record { keys = seven ∷ []; rows = there ∷ []; next_leaf = 0 }) seven_ends refl refl
      (omega arith) seven_equal

small_ends : find_leaf doubles seven 1 small ≡ returned (1 ∷ [], only_leaf)
unfolding find_leaf root get_page find_page descend ◌>>=◌
small_ends = refl

-- The root of the grown file is on level 1, the leaves on level 0.
abbrev levels : ℕ → ℕ
levels id = id - 2

other_variant : (l : LeafIndexNode) (n : InternalIndexNode) → leaf l ≢ internal n
other_variant l n e = cc

same_node : (m n : InternalIndexNode) → internal m ≡ internal n → m ≡ n
same_node m n e = cc

leaf-Lower : (p : IndexPage) (l : LeafIndexNode) → p.node ≡ leaf l → Lower levels p
leaf-Lower p l e n k = absurd (other_variant l n (sym e ∙ k))

grown-Lower : All (Lower levels) grown.pages
grown-Lower = (
  leaf-Lower split_leaf_page _ refl,
  (
    leaf-Lower grown_leaf _ refl,
    (
      λ n e.
          subst (λ m. All (λ c. levels c < 1) m.children) (same_node _ n e)
            (omega arith, (omega arith, tt)),
      tt,
    ),
  ),
)

Ends-insert_example :
    (insert doubles seven 64 64 8 2 there grown ≢ still_running)
    × ((insert doubles seven 64 64 8 2 there grown ≢ dangling) ⊎ (8 < length grown.pages + 2))
Ends-insert_example =
    Ends-insert doubles seven levels grown grown-Lower 2 64 64 8 there (omega arith)

-- The vector of pages has one page and room for no other.
insert-dangling_example : insert doubles seven 1 1 1 1 there small ≡ dangling
insert-dangling_example =
    insert-dangling doubles seven there 1 1 1 1 small (1 ∷ []) only_leaf
      (record { keys = nothing ∷ []; rows = here ∷ []; next_leaf = 0 }) small_ends refl
      (omega arith) (omega arith)
