-- ===== src/Index/Tree/Ends.antt =====
-- Searches and insertions end: pages get nearer to the leaves on the way down, and a vector with room
-- for the new pages keeps the pointers to the old ones.
use deltabase_c.Prelude.{
  ◌⊎◌, leb, ◌+◌, ◌≤◌, sym, ℕ, zero, suc, ◌<◌, ◌≡◌, ◌≢◌, refl, List, [], ◌∷◌, Option, none, some,
  All, arith, Bool-cases, inl, inr, ltb, length, get_elem?, ◌==◌,
}
use mathlib.Core.Path.{subst}
use deltabase_c.Types.Value.{DataToken}
use deltabase_c.Types.Page.{
  IndexFile, IndexPage, IndexNode, internal, leaf, InternalIndexNode, RowPtr,
}
use deltabase_c.Evaluator.{Doubles}
use deltabase_c.Index.Pager.{find_page, get_page, with_node, at_page}
use deltabase_c.Index.Pager.Pages.{some_lem, find_page-id, All-find_page}
use deltabase_c.Index.Tree.{
  Result, returned, thrown, still_running, ◌>>=◌, or_throw, as_leaf, as_internal, as_parent,
  adopt_all, grow_root, split_leaf, split_internal, with_child, link_child, insert_into_parent,
  child_position, root, next_page, descend, find_leaf, insert, split_leaf_and_propagate, child_of,
  insert_into_leaf, still_valid, dangling,
}
use deltabase_c.Index.Tree.Sizes.{
  length-change_page, length-split_leaf, length-split_internal, length-link_child, length-find_leaf,
}
use deltabase_c.Index.Tree.Results.{bind_case, or_throw_lem, as_internal_lem}

-- Every child of an internal page is on a lower level.
abbrev pub Lower : (ℕ → ℕ) → IndexPage → Type 0
Lower level p =
    (n : InternalIndexNode) → p.node ≡ internal n → All (λ c. level c < level p.id) n.children

All-get_elem? :
    (P : ℕ → Type 0) (xs : List ℕ) (i : ℕ) {c : ℕ} → All P xs → get_elem? xs i ≡ some c → P c
All-get_elem? P [] i h e = cc
All-get_elem? P (x ∷ xs) zero h e = subst P (some_lem e) h.0
All-get_elem? P (x ∷ xs) (suc i) h e = All-get_elem? P xs i h.1 e

module _ (room : Type 0) where
  -- An outcome that a call should not have: where `room` holds, `dangling` is one too.
  abbrev IsBad {ℓ} : {A : Type ℓ} → Result A → Type 0
  IsBad (returned a) = ⊥
  IsBad thrown = ⊥
  IsBad dangling = room
  IsBad still_running = Unit {0}

  abbrev Ends {ℓ} : {A : Type ℓ} → Result A → Type 0
  Ends m = ¬ IsBad m

  module _ {ℓ} {A : Type ℓ} where
    Ends-or_throw : (o : Option A) → Ends (or_throw o)
    Ends-or_throw none e = e
    Ends-or_throw (some a) e = e

  module _ {ℓ κ} {A : Type ℓ} {B : Type κ} where
    Ends-bind :
        (m : Result A) (f : A → Result B)
        → Ends m
        → ((a : A) → m ≡ returned a → Ends (f a))
        → Ends (m >>= f)
    unfolding ◌>>=◌
    Ends-bind (returned a) f h k = k a refl
    Ends-bind thrown f h k = λ e. e
    Ends-bind dangling f h k = λ e. h e
    Ends-bind still_running f h k = λ e. h e

  Ends-as_leaf : (n : IndexNode) → Ends (as_leaf n)
  Ends-as_leaf (leaf l) e = e
  Ends-as_leaf (internal l) e = e

  Ends-as_internal : (n : IndexNode) → Ends (as_internal n)
  Ends-as_internal (leaf l) e = e
  Ends-as_internal (internal l) e = e

  Ends-as_parent : (p : IndexPage) → Ends (as_parent p)
  unfolding as_parent
  Ends-as_parent p e = elim (Bool-cases p.is_leaf) [
    | inl flag ↦ (rw flag at e)
    | inr flag ↦ Ends-as_internal p.node (rw flag at e)
  ]

  Ends-adopt_all : (cs : List ℕ) (parent : ℕ) (file : IndexFile) → Ends (adopt_all cs parent file)
  unfolding adopt_all
  Ends-adopt_all [] parent file = λ z. z
  Ends-adopt_all (c ∷ cs) parent file =
      Ends-bind _ _ (Ends-or_throw _) (λ child e. Ends-adopt_all cs parent _)

  Ends-still_valid :
      (capacity : ℕ) (file : IndexFile)
      → (room → length file.pages < capacity)
      → Ends (still_valid capacity file)
  unfolding still_valid
  Ends-still_valid capacity file h = elim (Bool-cases (leb capacity (length file.pages))) [
    | inl full ↦ rw full (λ r. absurd (let q = h r in ground (arith, full, q)))
    | inr fine ↦ rw fine (λ e. e)
  ]

  Ends-split_leaf :
      (capacity id : ℕ) (file : IndexFile)
      → (room → length file.pages < capacity)
      → Ends (split_leaf capacity id file)
  unfolding split_leaf
  Ends-split_leaf capacity id file h = Ends-bind _ _ (Ends-or_throw _) (λ page e.
      Ends-bind _ _ (Ends-as_leaf page.node) (λ left e1.
        Ends-bind _ _ (Ends-still_valid capacity file h)
          (λ v e2. Ends-bind _ _ (Ends-or_throw _) (λ separator e3. (λ z. z)))))

  Ends-split_internal :
      (capacity id : ℕ) (file : IndexFile)
      → (room → length file.pages < capacity)
      → Ends (split_internal capacity id file)
  unfolding split_internal
  Ends-split_internal capacity id file h = Ends-bind _ _ (Ends-or_throw _) (λ page e.
      Ends-bind _ _ (Ends-as_internal page.node) (λ node e1.
        Ends-bind _ _ (Ends-or_throw _) (λ up_key e2.
          Ends-bind _ _ (Ends-still_valid capacity file h)
            (λ v e3. Ends-bind _ _ (Ends-adopt_all _ _ _) (λ file2 e4. (λ z. z))))))

  Ends-with_child :
      (left_id : ℕ) (key : DataToken) (right_id : ℕ) (n : InternalIndexNode)
      → Ends (with_child left_id key right_id n)
  unfolding with_child
  Ends-with_child left_id key right_id n e =
      elim (Bool-cases (child_position left_id n.children == length n.children)) [
        | inl gone ↦ (rw gone at e)
        | inr there ↦ (rw there at e)
      ]

  Ends-link_child :
      (parent left_id : ℕ) (key : DataToken) (right_id : ℕ) (file : IndexFile)
      → Ends (link_child parent left_id key right_id file)
  unfolding link_child
  Ends-link_child parent left_id key right_id file = Ends-bind _ _ (Ends-or_throw _) (λ page e.
      Ends-bind _ _ (Ends-as_parent page) (λ node e1.
        Ends-bind _ _ (Ends-with_child left_id key right_id node)
          (λ node' e2. Ends-bind _ _ (Ends-or_throw _) (λ right e3. (λ z. z)))))

  Ends-grow_root :
      (left_id : ℕ) (key : DataToken) (right_id : ℕ) (file : IndexFile)
      → Ends (grow_root left_id key right_id file)
  unfolding grow_root
  Ends-grow_root left_id key right_id file =
      Ends-bind _ _ (Ends-or_throw _)
        (λ left e. Ends-bind _ _ (Ends-or_throw _) (λ right e1. (λ z. z)))

  -- A path has at most a split for each page but its last, and each of them needs room for a page.
  Ends-insert_into_parent :
      (max_internal capacity : ℕ) (path : List ℕ) (left_id : ℕ) (key : DataToken) (right_id : ℕ)
      (file : IndexFile)
      → (room → length file.pages + length path ≤ suc capacity)
      → Ends (insert_into_parent max_internal capacity path left_id key right_id file)
  unfolding insert_into_parent
  Ends-insert_into_parent m capacity [] left_id key right_id file h = λ z. z
  Ends-insert_into_parent m capacity (end ∷ []) left_id key right_id file h =
      Ends-grow_root left_id key right_id file
  Ends-insert_into_parent m capacity (end ∷ parent ∷ path) left_id key right_id file h =
      Ends-bind _ _ (Ends-link_child parent left_id key right_id file) (λ x e d.
        let same = length-link_child parent left_id key right_id file e in
        elim (Bool-cases (ltb m x.0)) [
          | inl full ↦
              Ends-bind _ _
                (Ends-split_internal capacity parent x.1 (λ q. omega (arith, same, h q)))
                (λ s e1.
                  Ends-insert_into_parent m capacity (parent ∷ path) parent s.separator s.right_id
                    s.file
                    (λ q. omega (arith, same, h q, length-split_internal capacity parent x.1 e1)))
                (rw full at d)
          | inr room ↦ (rw room at d)
        ])

  module _ (doubles : Doubles) (key : DataToken) (level : ℕ → ℕ) (file : IndexFile)
      (lower : All (Lower level) file.pages) where
    Ends-descend :
        (fuel : ℕ) (path : List ℕ) (cur : IndexPage)
        → Lower level cur
        → level cur.id < fuel
        → Ends (descend doubles key fuel path cur file)
    unfolding descend next_page get_page
    Ends-descend zero path cur h l e = absurd (omega arith)
    Ends-descend (suc fuel) path cur h l e = elim (Bool-cases cur.is_leaf) [
      | inl flag ↦ (rw flag at e)
      | inr flag ↦
          Ends-bind (next_page doubles key cur file) _
            (Ends-bind _ _ (Ends-as_internal cur.node)
              (λ n a. Ends-bind _ _ (Ends-or_throw _) (λ c b. Ends-or_throw _)))
            (λ next a. bind_case (as_internal cur.node) _ a (λ n b a1.
              bind_case (or_throw (get_elem? n.children (child_of doubles key n.keys))) _ a1
                (λ c d a2.
                  let below =
                    All-get_elem? (λ i. level i < level cur.id) n.children
                      (child_of doubles key n.keys) (h n (as_internal_lem cur.node b))
                      (or_throw_lem _ d) in
                  let k = or_throw_lem (find_page c file.pages) a2 in
                  let next_lower = All-find_page (Lower level) c file.pages lower k in
                  let same = find_page-id c file.pages k in
                  Ends-descend fuel (cur.id ∷ path) next next_lower
                    (subst (λ i. level i < fuel) (sym same) (omega (arith, below, l))))))
            (rw flag at e)
    ]

    Ends-find_leaf :
        (fuel : ℕ) → level file.root_page < fuel → Ends (find_leaf doubles key fuel file)
    unfolding find_leaf root get_page
    Ends-find_leaf fuel l = Ends-bind (root file) _ (Ends-or_throw _) (λ top a.
        let k = or_throw_lem (find_page file.root_page file.pages) a in
        let top_lower = All-find_page (Lower level) file.root_page file.pages lower k in
        let same = find_page-id file.root_page file.pages k in
        Ends-descend fuel [] top top_lower (subst (λ i. level i < fuel) (sym same) l))

    Ends-insert_lem :
        (fuel max_leaf max_internal capacity : ℕ) (row : RowPtr)
        → level file.root_page < fuel
        → (room → length file.pages + fuel ≤ capacity)
        → Ends (insert doubles key max_leaf max_internal capacity fuel row file)
    unfolding insert split_leaf_and_propagate
    Ends-insert_lem fuel max_leaf max_internal capacity row l c =
        Ends-bind (find_leaf doubles key fuel file) _ (Ends-find_leaf fuel l) (λ x a.
          Ends-bind _ _ (Ends-as_leaf x.1.node) (λ node b e.
            let node' = leaf (insert_into_leaf doubles key node row) in
            let same = length-change_page x.1.id (with_node node') file.pages in
            let bound = length-find_leaf doubles key fuel file a in
            elim (Bool-cases (ltb max_leaf (length (insert_into_leaf doubles key node row).keys))) [
              | inl full ↦
                  Ends-bind _ _
                    (Ends-split_leaf capacity x.1.id (at_page x.1.id (with_node node') file)
                      (λ q. omega (arith, same, bound.0, bound.1, c q)))
                    (λ s d.
                      Ends-insert_into_parent max_internal capacity x.0 x.1.id s.separator
                        s.right_id s.file
                        (λ q. omega (
                          arith,
                          same,
                          bound.1,
                          c q,
                          length-split_leaf capacity x.1.id (at_page x.1.id (with_node node') file)
                              d,
                        )))
                    (rw full at e)
              | inr room ↦ (rw room at e)
            ]))

module _ (doubles : Doubles) (key : DataToken) (level : ℕ → ℕ) (file : IndexFile)
    (lower : All (Lower level) file.pages) where
  -- Where every child of an internal page is on a lower level than the page, an insertion has ended with
  -- fuel for one page more than the levels of the root; and it uses no dangling pointer, unless the vector
  -- has less room than for as many more pages as there is fuel.
  pub Ends-insert :
      (fuel max_leaf max_internal capacity : ℕ) (row : RowPtr)
      → level file.root_page < fuel
      → (insert doubles key max_leaf max_internal capacity fuel row file ≢ still_running)
        × ((insert doubles key max_leaf max_internal capacity fuel row file ≢ dangling)
            ⊎ (capacity < length file.pages + fuel))
  Ends-insert fuel max_leaf max_internal capacity row l =
      let ends : (room : Type 0)
          → (room → length file.pages + fuel ≤ capacity)
          → Ends room (insert doubles key max_leaf max_internal capacity fuel row file) =
        λ room c.
          Ends-insert_lem room doubles key level file lower fuel max_leaf max_internal capacity row
            l c in
      (
        λ e. ends ⊥ (λ q. absurd q) (subst (IsBad ⊥) (sym e) tt),
        elim (Bool-cases (leb (length file.pages + fuel) capacity)) [
          | inl fits ↦ inl (λ e.
              ends (Unit {0}) (λ q. ground (arith, fits)) (subst (IsBad (Unit {0})) (sym e) tt))
          | inr short ↦ inr (ground (arith, short))
        ],
      )
