-- ===== src/Index/Tree/Found/Touched.antt =====
-- The search of a file in which one leaf has got another node.
use mathlib.Core.Path.{subst}
use deltabase_c.Prelude.{
  ap, sym, ◌∙◌, ℕ, zero, suc, ◌≡◌, refl, List, [], ◌∷◌, true, false, some, arith, Bool-cases, inl,
  inr, if◌then◌else◌, ◌==◌, ==_iff, get_elem?,
}
use deltabase_c.Types.Value.{DataToken}
use deltabase_c.Types.Page.{IndexFile, IndexPage, IndexNode}
use deltabase_c.Evaluator.{Doubles}
use deltabase_c.Index.Pager.{find_page, get_page, change_page, with_node, at_page}
use deltabase_c.Index.Pager.Pages.{some_lem, find_page-id}
use deltabase_c.Index.Tree.{
  returned, ◌>>=◌, or_throw, as_internal, root, next_page, descend, child_of, find_leaf,
}
use deltabase_c.Index.Tree.Results.{bind_case, or_throw_lem, returned_lem}
use deltabase_c.Index.Tree.Found.Leaf.{
  clash, IsFetched, find_page-IsFetched, descend_end, descend-IsFetched,
}

module _ (doubles : Doubles) where
  -- A file and the leaf of it that gets another node.
  module _ (file : IndexFile) (page : IndexPage) (node : IndexNode) (flag : page.is_leaf ≡ true)
      (fetched : IsFetched file.pages page) where
    abbrev pub after : IndexFile
    after = at_page page.id (with_node node) file

    abbrev pub touched : IndexPage → IndexPage
    touched p = if p.id == page.id then with_node node p else p

    pub find_page-touched :
        (j : ℕ) (pages : List IndexPage) {p : IndexPage}
        → find_page j pages ≡ some p
        → find_page j (change_page page.id (with_node node) pages) ≡ some (touched p)
    unfolding find_page change_page
    find_page-touched j [] e = cc
    find_page-touched j (q ∷ pages) {p} e = elim (Bool-cases (q.id == j)) [
      | inl same ↦
          subst
            (λ y. find_page j (change_page page.id (with_node node) (q ∷ pages)) ≡ some (touched y))
            (some_lem (rw same at e))
            (elim (Bool-cases (q.id == page.id)) [
              | inl hit ↦ rw (hit, same) refl
              | inr miss ↦ rw (miss, same) refl
            ])
      | inr other ↦
          let k = rw other at e in
          elim (Bool-cases (q.id == page.id)) [
            | inl hit ↦
                let apart : (p.id == page.id) ≡ false =
                  ground (arith, find_page-id j pages k, hit, other) in
                rw (hit, other, apart) k
            | inr miss ↦ rw (miss, other) (find_page-touched j pages k)
          ]
    ]

    -- The leaf itself is the one page that its id leads to.
    pub same_page : (p : IndexPage) → IsFetched file.pages p → (p.id == page.id) ≡ true → p ≡ page
    same_page p h e =
        let z = (==_iff p.id page.id).0 e in
        some_lem (sym h ∙ ap (λ i. find_page i file.pages) z ∙ fetched)

    pub touched-inner : (p : IndexPage) → IsFetched file.pages p → p.is_leaf ≡ false → touched p ≡ p
    touched-inner p h f = elim (Bool-cases (p.id == page.id)) [
      | inl hit ↦
          let z = ap (λ y. y.is_leaf) (same_page p h hit) in absurd (clash (sym f ∙ z ∙ flag))
      | inr miss ↦ rw miss refl
    ]

    pub touched-is_leaf : (p : IndexPage) → (touched p).is_leaf ≡ p.is_leaf
    touched-is_leaf p = elim (Bool-cases (p.id == page.id)) [
      | inl hit ↦ rw hit refl
      | inr miss ↦ rw miss refl
    ]

    pub touched-id : (p : IndexPage) → (touched p).id ≡ p.id
    touched-id p = elim (Bool-cases (p.id == page.id)) [
      | inl hit ↦ rw hit refl
      | inr miss ↦ rw miss refl
    ]

    pub next_page-touched :
        (key : DataToken) (cur : IndexPage) {next : IndexPage}
        → next_page doubles key cur file ≡ returned next
        → (next_page doubles key cur after ≡ returned (touched next)) × IsFetched file.pages next
    unfolding next_page get_page ◌>>=◌
    next_page-touched key cur e = bind_case (as_internal cur.node) _ e (λ inner a e1.
        bind_case (or_throw (get_elem? inner.children (child_of doubles key inner.keys))) _ e1
          (λ child b e2.
            let k = or_throw_lem (find_page child file.pages) e2 in
            (
              rw (a, ◌>>=◌) (rw (b, ◌>>=◌) (rw (find_page-touched child file.pages k) refl)),
              find_page-IsFetched child file.pages k,
            )))

    pub descend-touched :
        (key : DataToken) (fuel : ℕ) (path : List ℕ) (cur : IndexPage) {x : List ℕ × IndexPage}
        → IsFetched file.pages cur
        → descend doubles key fuel path cur file ≡ returned x
        → descend doubles key fuel path (touched cur) after ≡ returned (x.0, touched x.1)
    unfolding descend next_page ◌>>=◌
    descend-touched key zero path cur h e = cc
    descend-touched key (suc fuel) path cur {x} h e = elim (Bool-cases cur.is_leaf) [
      | inl end ↦
          subst
            (λ y.
              descend doubles key (suc fuel) path (touched cur) after ≡ returned (y.0, touched y.1))
            (returned_lem (sym (descend_end doubles key fuel path cur file end) ∙ e))
            (descend_end doubles key fuel path (touched cur) after (touched-is_leaf cur ∙ end)
              ∙ ap (λ i. returned (i ∷ path, touched cur)) (touched-id cur))
      | inr inner ↦ bind_case (next_page doubles key cur file) _ (rw inner at e) (λ next a e1.
          let (n, f) = next_page-touched key cur a in
          subst (λ y. descend doubles key (suc fuel) path y after ≡ returned (x.0, touched x.1))
            (sym (touched-inner cur h inner))
            (rw (descend, inner)
              (rw (n, ◌>>=◌) (descend-touched key fuel (cur.id ∷ path) next f e1))))
    ]

    -- The search of a file ends at the same leaf when that leaf has got another node.
    pub find_leaf-touched :
        (key : DataToken) (fuel : ℕ) {x : List ℕ × IndexPage}
        → find_leaf doubles key fuel file ≡ returned x
        → (find_leaf doubles key fuel after ≡ returned (x.0, touched x.1))
          × IsFetched file.pages x.1
    unfolding find_leaf root get_page ◌>>=◌
    find_leaf-touched key fuel e = bind_case (root file) _ e (λ top a e1.
        let k = or_throw_lem (find_page file.root_page file.pages) a in
        let f = find_page-IsFetched file.root_page file.pages k in
        (
          rw (find_page-touched file.root_page file.pages k, ◌>>=◌)
              (descend-touched key fuel [] top f e1),
          (descend-IsFetched doubles key fuel [] top file f e1).1,
        ))
