-- ===== src/Index/Pager/Pages.antt =====
-- What holds of the nodes of a file's pages after a page has been changed.
use mathlib.Core.Path.{subst}
use deltabase_c.Prelude.{
  ==_iff, ℕ, ◌≡◌, List, [], ◌∷◌, ◌++◌, true, false, some, ◌==◌, All, Bool-cases, inl, inr, ◌⊎◌,
  All-append,
}
use deltabase_c.Types.Page.{IndexPage, IndexNode}
use deltabase_c.Index.Pager.{find_page, change_page, with_node}

pub some_lem {ℓ} : {A : Type ℓ} {a b : A} → some a ≡ some b → a ≡ b
some_lem e = cc

pub find_page-id :
    (j : ℕ) (pages : List IndexPage) {p : IndexPage} → find_page j pages ≡ some p → p.id ≡ j
unfolding find_page
find_page-id j [] e = cc
find_page-id j (q ∷ pages) {p} e = elim (Bool-cases (q.id == j)) [
  | inl same ↦ let z : q ≡ p = some_lem (rw same at e) in rw (← z) ((==_iff q.id j).0 same)
  | inr other ↦ find_page-id j pages (rw other at e)
]

-- A page that is found has what all pages have.
pub All-find_page :
    (P : IndexPage → Type 0) (j : ℕ) (pages : List IndexPage) {p : IndexPage}
    → All P pages
    → find_page j pages ≡ some p
    → P p
unfolding find_page
All-find_page P j [] h e = cc
All-find_page P j (q ∷ pages) h e = elim (Bool-cases (q.id == j)) [
  | inl same ↦ subst P (some_lem (rw same at e)) h.0
  | inr other ↦ All-find_page P j pages h.1 (rw other at e)
]

module _ (P : IndexNode → Type 0) where
  abbrev pub Holds : List IndexPage → Type 0
  Holds pages = All (λ p. P p.node) pages

  pub find_page-Holds :
      (page_id : ℕ) (pages : List IndexPage) {p : IndexPage}
      → Holds pages
      → find_page page_id pages ≡ some p
      → P p.node
  find_page-Holds page_id pages h e = All-find_page (λ p. P p.node) page_id pages h e

  -- A change that keeps the nodes.
  pub change_page-Holds :
      (page_id : ℕ) (f : IndexPage → IndexPage)
      → ((p : IndexPage) → (f p).node ≡ p.node)
      → (pages : List IndexPage) → Holds pages
      → Holds (change_page page_id f pages)
  unfolding change_page
  change_page-Holds page_id f k [] h = tt
  change_page-Holds page_id f k (q ∷ pages) h = elim (Bool-cases (q.id == page_id)) [
    | inl same ↦ rw same (rw (k q) h.0, h.1)
    | inr other ↦ rw other (h.0, change_page-Holds page_id f k pages h.1)
  ]

  pub with_node-Holds :
      (page_id : ℕ) (node : IndexNode)
      → P node
      → (pages : List IndexPage) → Holds pages
      → Holds (change_page page_id (with_node node) pages)
  unfolding change_page
  with_node-Holds page_id node k [] h = tt
  with_node-Holds page_id node k (q ∷ pages) h = elim (Bool-cases (q.id == page_id)) [
    | inl same ↦ rw same (k, h.1)
    | inr other ↦ rw other (h.0, with_node-Holds page_id node k pages h.1)
  ]

  -- It holds of all pages, but for the first with an id, of which Q holds.
  module _ (Q : IndexNode → Type 0) (weaker : (n : IndexNode) → P n → Q n) (page_id : ℕ) where
    abbrev pub HoldsBut : List IndexPage → Type 0
    HoldsBut [] = Unit {0}
    HoldsBut (p ∷ pages) =
        (((p.id == page_id) ≡ true) × Q p.node × Holds pages)
        ⊎ (((p.id == page_id) ≡ false) × P p.node × HoldsBut pages)

    pub with_node-HoldsBut :
        (node : IndexNode)
        → Q node
        → (pages : List IndexPage) → Holds pages
        → HoldsBut (change_page page_id (with_node node) pages)
    unfolding change_page
    with_node-HoldsBut node k [] h = tt
    with_node-HoldsBut node k (q ∷ pages) h = elim (Bool-cases (q.id == page_id)) [
      | inl same ↦ rw same (inl (same, k, h.1))
      | inr other ↦ rw other (inr (other, h.0, with_node-HoldsBut node k pages h.1))
    ]

    pub find_page-HoldsBut :
        (pages : List IndexPage) {p : IndexPage}
        → HoldsBut pages
        → find_page page_id pages ≡ some p
        → Q p.node
    unfolding find_page
    find_page-HoldsBut [] h e = cc
    find_page-HoldsBut (q ∷ pages) {p} (inl (same, k, h)) e =
        let z = some_lem (rw same at e) in rw (← z) k
    find_page-HoldsBut (q ∷ pages) (inr (other, k, h)) e =
        find_page-HoldsBut pages h (rw other at e)

    pub push-HoldsBut :
        (pages : List IndexPage) (p : IndexPage)
        → P p.node
        → HoldsBut pages
        → HoldsBut (pages ++ (p ∷ []))
    push-HoldsBut [] p k h = elim (Bool-cases (p.id == page_id)) [
      | inl same ↦ inl (same, weaker p.node k, tt)
      | inr other ↦ inr (other, k, tt)
    ]
    push-HoldsBut (q ∷ pages) p k (inl (same, l, h)) =
        inl (same, l, All-append _ pages (p ∷ []) h (k, tt))
    push-HoldsBut (q ∷ pages) p k (inr (other, l, h)) = inr (other, l, push-HoldsBut pages p k h)

    pub repaired :
        (node : IndexNode)
        → P node
        → (pages : List IndexPage) → HoldsBut pages
        → Holds (change_page page_id (with_node node) pages)
    unfolding change_page
    repaired node k [] h = tt
    repaired node k (q ∷ pages) (inl (same, l, h)) = rw same (k, h)
    repaired node k (q ∷ pages) (inr (other, l, h)) = rw other (l, repaired node k pages h)

    pub change_page-HoldsBut :
        (other_id : ℕ) (f : IndexPage → IndexPage)
        → ((p : IndexPage) → ((f p).node ≡ p.node) × ((f p).id ≡ p.id))
        → (pages : List IndexPage) → HoldsBut pages
        → HoldsBut (change_page other_id f pages)
    unfolding change_page
    change_page-HoldsBut other_id f k [] h = tt
    change_page-HoldsBut other_id f k (q ∷ pages) (inl (same, l, h)) =
        elim (Bool-cases (q.id == other_id)) [
          | inl e ↦ rw e (inl (rw ((k q).1) same, rw ((k q).0) l, h))
          | inr e ↦ rw e (inl (same, l, change_page-Holds other_id f (λ p. (k p).0) pages h))
        ]
    change_page-HoldsBut other_id f k (q ∷ pages) (inr (other, l, h)) =
        elim (Bool-cases (q.id == other_id)) [
          | inl e ↦ rw e (inr (rw ((k q).1) other, rw ((k q).0) l, h))
          | inr e ↦ rw e (inr (other, l, change_page-HoldsBut other_id f k pages h))
        ]
