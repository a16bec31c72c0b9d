-- ===== src/Index/Tree/Found/Leaf.antt =====
-- The leaf that a search ends at, and what is looked up in it after an insertion.
use mathlib.Core.Path.{subst}
use Prim.Native.Nat.{Ordering}
use deltabase_c.Prelude.{
  ◌≢◌, ap, sym, ◌∙◌, ℕ, zero, suc, ◌≡◌, refl, List, [], ◌∷◌, Bool, true, false, some, length, arith,
  Bool-cases, inl, inr, get_elem?,
}
use deltabase_c.Types.Value.{DataToken}
use deltabase_c.Types.Page.{IndexFile, IndexPage, RowPtr}
use deltabase_c.Evaluator.{Doubles}
use deltabase_c.Index.Keys.{compare_token, is_zero, is_negative}
use deltabase_c.Index.Pager.{find_page, get_page}
use deltabase_c.Index.Pager.Pages.{find_page-id}
use deltabase_c.Index.Tree.{
  returned, ◌>>=◌, or_throw, insert_at, as_internal, root, next_page, descend, child_of, find_leaf,
  lookup, leaf_position,
}
use deltabase_c.Index.Tree.Results.{bind_case, or_throw_lem, returned_lem}

pub clash : ◌≢◌ {A = Bool} false true
clash e = cc

pub not_zero : (c : Ordering) → is_negative c ≡ true → is_zero c ≡ false
not_zero Ordering.lt e = refl
not_zero Ordering.eq e = cc
not_zero Ordering.gt e = cc

-- A page that its own id leads to.
abbrev pub IsFetched : List IndexPage → IndexPage → Type 0
IsFetched pages p = find_page p.id pages ≡ some p

pub find_page-IsFetched :
    (j : ℕ) (pages : List IndexPage) {p : IndexPage}
    → find_page j pages ≡ some p
    → IsFetched pages p
find_page-IsFetched j pages {p} e =
    subst (λ i. find_page i pages ≡ some p) (sym (find_page-id j pages e)) e

module _ (doubles : Doubles) where
  -- The search ends at a leaf.
  pub descend_end :
      (key : DataToken) (fuel : ℕ) (path : List ℕ) (cur : IndexPage) (file : IndexFile)
      → cur.is_leaf ≡ true
      → descend doubles key (suc fuel) path cur file ≡ returned (cur.id ∷ path, cur)
  unfolding descend
  descend_end key fuel path cur file h =
      subst
        (λ b.
          elim b [
            | true ↦ returned (cur.id ∷ path, cur)
            | false ↦ next_page doubles key cur file >>= λ next.
                descend doubles key fuel (cur.id ∷ path) next file
          ]
          ≡ returned (cur.id ∷ path, cur))
        (sym h) refl

  -- The leaf that a search ends at.
  pub descend-IsFetched :
      (key : DataToken) (fuel : ℕ) (path : List ℕ) (cur : IndexPage) (file : IndexFile)
      {x : List ℕ × IndexPage}
      → IsFetched file.pages cur
      → descend doubles key fuel path cur file ≡ returned x
      → (x.1.is_leaf ≡ true) × IsFetched file.pages x.1
  unfolding descend next_page get_page
  descend-IsFetched key zero path cur file h e = absurd cc
  descend-IsFetched key (suc fuel) path cur file h e = elim (Bool-cases cur.is_leaf) [
    | inl flag ↦
        subst (λ y. (y.is_leaf ≡ true) × IsFetched file.pages y)
          (ap (λ y. y.1) (returned_lem (sym (descend_end key fuel path cur file flag) ∙ e)))
          (flag, h)
    | inr flag ↦ bind_case (next_page doubles key cur file) _ (rw flag at e) (λ next a e1.
        bind_case (as_internal cur.node) _ a (λ node b a1.
          bind_case (or_throw (get_elem? node.children (child_of doubles key node.keys))) _ a1
            (λ child c a2.
              descend-IsFetched key fuel (cur.id ∷ path) next file
                (find_page-IsFetched child file.pages (or_throw_lem (get_page child file) a2)) e1)))
  ]

  pub leaf_end :
      (key : DataToken) (fuel : ℕ) (file : IndexFile) {x : List ℕ × IndexPage}
      → find_leaf doubles key fuel file ≡ returned x
      → (x.1.is_leaf ≡ true) × IsFetched file.pages x.1
  unfolding find_leaf root get_page
  leaf_end key fuel file e = bind_case (root file) _ e (λ top a e1.
      descend-IsFetched key fuel [] top file
        (find_page-IsFetched file.root_page file.pages
          (or_throw_lem (find_page file.root_page file.pages) a))
        e1)

  pub lookup-inserted :
      (key : DataToken) (row : RowPtr) (keys : List DataToken) (rows : List RowPtr)
      → is_zero (compare_token doubles key key) ≡ true
      → length rows ≡ length keys
      → let pos = leaf_position doubles key keys in
        lookup doubles key (insert_at pos key keys) (insert_at pos row rows) ≡ some row
  unfolding lookup leaf_position
  lookup-inserted key row [] [] z e = rw z refl
  lookup-inserted key row [] (r ∷ rows) z e = absurd (omega arith)
  lookup-inserted key row (k ∷ keys) [] z e = absurd (omega arith)
  lookup-inserted key row (k ∷ keys) (r ∷ rows) z e =
      let rest = lookup-inserted key row keys rows z (omega arith) in
      elim (Bool-cases (is_negative (compare_token doubles k key))) [
        | inl below ↦ rw below (rw (not_zero (compare_token doubles k key) below) rest)
        | inr above ↦ rw above (rw z refl)
      ]

  pub lookup-other :
      (key other : DataToken) (row : RowPtr) (pos : ℕ) (keys : List DataToken) (rows : List RowPtr)
      → is_zero (compare_token doubles key other) ≡ false
      → length rows ≡ length keys
      → lookup doubles other (insert_at pos key keys) (insert_at pos row rows)
        ≡ lookup doubles other keys rows
  unfolding lookup
  lookup-other key other row zero keys rows z e = rw z refl
  lookup-other key other row (suc pos) [] [] z e = rw z refl
  lookup-other key other row (suc pos) [] (r ∷ rows) z e = absurd (omega arith)
  lookup-other key other row (suc pos) (k ∷ keys) [] z e = absurd (omega arith)
  lookup-other key other row (suc pos) (k ∷ keys) (r ∷ rows) z e =
      rw (lookup-other key other row pos keys rows z (omega arith)) refl
