-- ===== src/Index/Tree/Sizes.antt =====
-- How many pages a file has after the parts of an insertion, and how long the path of a search is.
use deltabase_c.Prelude.{
  ap, ◌∙◌, ℕ, zero, suc, ◌+◌, ◌≤◌, ◌≡◌, refl, List, [], ◌∷◌, ◌++◌, Bool-cases, inl, inr, length,
  arith, length-append, ◌==◌,
}
use deltabase_c.Types.Value.{DataToken}
use deltabase_c.Types.Page.{IndexFile, IndexPage, internal}
use deltabase_c.Evaluator.{Doubles}
use deltabase_c.Index.Pager.{get_page, change_page, create_page, with_node, with_parent, at_page}
use deltabase_c.Index.Tree.{
  returned, or_throw, as_leaf, as_internal, as_parent, adopt_all, Split, split_leaf, split_internal,
  still_valid, with_child, link_child, root, next_page, descend, find_leaf,
}
use deltabase_c.Index.Tree.Results.{bind_case, returned_lem}

pub length-change_page :
    (id : ℕ) (f : IndexPage → IndexPage) (pages : List IndexPage)
    → length (change_page id f pages) ≡ length pages
unfolding change_page
length-change_page id f [] = refl
length-change_page id f (p ∷ pages) =
    let rest = length-change_page id f pages in
    elim (Bool-cases (p.id == id)) [ inl hit ↦ rw hit refl | inr miss ↦ rw miss (ap suc rest) ]

grown : (pages : List IndexPage) (p : IndexPage) → length (pages ++ (p ∷ [])) ≡ suc (length pages)
grown pages p = omega (arith, length-append pages (p ∷ []))

length-adopt_all :
    (children : List ℕ) (parent : ℕ) (file : IndexFile) {file' : IndexFile}
    → adopt_all children parent file ≡ returned file'
    → length file'.pages ≡ length file.pages
unfolding adopt_all
length-adopt_all [] parent file e = rw (← returned_lem e) refl
length-adopt_all (c ∷ children) parent file e =
    bind_case (or_throw (get_page c file)) _ e (λ page a e1.
      length-adopt_all children parent (at_page c (with_parent parent) file) e1
      ∙ length-change_page c (with_parent parent) file.pages)

pub length-split_leaf :
    (capacity leaf_id : ℕ) (file : IndexFile) {s : Split}
    → split_leaf capacity leaf_id file ≡ returned s
    → length s.file.pages ≡ suc (length file.pages)
unfolding split_leaf create_page
length-split_leaf capacity leaf_id file e = bind_case _ _ e (λ page a e1.
    bind_case (as_leaf page.node) _ e1 (λ left b e2.
      bind_case (still_valid capacity file) _ e2 (λ v c e3. bind_case _ _ e3 (λ separator d e4.
        rw (← returned_lem e4) (length-change_page leaf_id _ _ ∙ grown file.pages _)))))

pub length-split_internal :
    (capacity page_id : ℕ) (file : IndexFile) {s : Split}
    → split_internal capacity page_id file ≡ returned s
    → length s.file.pages ≡ suc (length file.pages)
unfolding split_internal create_page
length-split_internal capacity page_id file e = bind_case _ _ e (λ page a e1.
    bind_case (as_internal page.node) _ e1 (λ node b e2. bind_case _ _ e2 (λ up_key c e3.
      bind_case (still_valid capacity file) _ e3 (λ v d e4.
        bind_case (adopt_all _ _ _) _ e4 (λ file2 f e5.
          rw (← returned_lem e5)
            (length-adopt_all _ _ _ f ∙ length-change_page page_id _ _ ∙ grown file.pages _))))))

pub length-link_child :
    (parent_id left_id : ℕ) (key : DataToken) (right_id : ℕ) (file : IndexFile) {x : ℕ × IndexFile}
    → link_child parent_id left_id key right_id file ≡ returned x
    → length x.1.pages ≡ length file.pages
unfolding link_child
length-link_child parent_id left_id key right_id file e = bind_case _ _ e (λ page a e1.
    bind_case (as_parent page) _ e1 (λ parent b e2.
      bind_case (with_child left_id key right_id parent) _ e2 (λ node c e3.
        bind_case _ _ e3 (λ right d e4. rw (← returned_lem e4) (
          length-change_page right_id _ _
          ∙ length-change_page parent_id (with_node (internal node)) file.pages)))))

module _ (doubles : Doubles) (key : DataToken) where
  length-descend :
      (fuel : ℕ) (path : List ℕ) (cur : IndexPage) (file : IndexFile) {x : List ℕ × IndexPage}
      → descend doubles key fuel path cur file ≡ returned x
      → (1 ≤ length x.0) × (length x.0 ≤ length path + fuel)
  unfolding descend next_page
  length-descend zero path cur file e = cc
  length-descend (suc fuel) path cur file {x} e = elim (Bool-cases cur.is_leaf) [
    | inl flag ↦
        let z = ap (λ y. length y.0) (returned_lem (rw flag at e)) in
        (omega (arith, z), omega (arith, z))
    | inr flag ↦ bind_case (next_page doubles key cur file) _ (rw flag at e) (λ next a e1.
        let h = length-descend fuel (cur.id ∷ path) next file e1 in (h.0, omega (arith, h.1)))
  ]

  pub length-find_leaf :
      (fuel : ℕ) (file : IndexFile) {x : List ℕ × IndexPage}
      → find_leaf doubles key fuel file ≡ returned x
      → (1 ≤ length x.0) × (length x.0 ≤ fuel)
  unfolding find_leaf
  length-find_leaf fuel file e =
      bind_case (root file) _ e
        (λ top a e1. let h = length-descend fuel [] top file e1 in (h.0, omega (arith, h.1)))
