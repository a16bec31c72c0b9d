-- ===== src/Index/Tree/Results.antt =====
-- A call that returned, taken apart.
use deltabase_c.Prelude.{
  ◌≢◌, Bool-cases, inl, inr, ℕ, zero, suc, ◌<◌, ◌≡◌, refl, List, [], ◌∷◌, Option, none, some,
  get_elem?, length, arith, length-append, length-take, length-drop, take, drop,
}
use deltabase_c.Types.Page.{IndexPage, IndexNode, LeafIndexNode, InternalIndexNode, leaf, internal}
use deltabase_c.Index.Tree.{
  Result, returned, thrown, still_running, dangling, ◌>>=◌, or_throw, insert_at, as_leaf,
  as_internal, as_parent,
}

module _ {ℓ κ μ} {A : Type ℓ} {B : Type κ} {C : Type μ} where
  -- A chain of calls returned: its first call did, and the rest on that value.
  pub bind_case :
      (m : Result A) (f : A → Result B) {b : B}
      → m >>= f ≡ returned b
      → ((a : A) → m ≡ returned a → f a ≡ returned b → C)
      → C
  unfolding ◌>>=◌
  bind_case (returned a) f e k = k a refl e
  bind_case thrown f e k = absurd cc
  bind_case dangling f e k = absurd cc
  bind_case still_running f e k = absurd cc

module _ {ℓ} {A : Type ℓ} where
  pub or_throw_lem : (o : Option A) {a : A} → or_throw o ≡ returned a → o ≡ some a
  or_throw_lem none e = cc
  or_throw_lem (some b) e = cc

  pub thrown_lem : {a : A} → ◌≢◌ {A = Result A} thrown (returned a)
  thrown_lem e = cc

  pub returned_lem : {a b : A} → returned a ≡ returned b → a ≡ b
  returned_lem e = cc

  pub get_elem?_bound : (xs : List A) (i : ℕ) {a : A} → get_elem? xs i ≡ some a → i < length xs
  get_elem?_bound [] i e = cc
  get_elem?_bound (x ∷ xs) zero e = omega arith
  get_elem?_bound (x ∷ xs) (suc i) e = omega (arith, get_elem?_bound xs i e)

  pub length-insert_at :
      (pos : ℕ) (a : A) (xs : List A) → length (insert_at pos a xs) ≡ suc (length xs)
  length-insert_at pos a xs =
      omega (
        arith,
        length-append (take pos xs) (a ∷ drop pos xs),
        length-take pos xs,
        length-drop pos xs,
      )

pub as_leaf_lem : (n : IndexNode) {l : LeafIndexNode} → as_leaf n ≡ returned l → n ≡ leaf l
as_leaf_lem (leaf m) e = cc
as_leaf_lem (internal m) e = cc

pub as_internal_lem :
    (n : IndexNode) {l : InternalIndexNode} → as_internal n ≡ returned l → n ≡ internal l
as_internal_lem (leaf m) e = cc
as_internal_lem (internal m) e = cc

pub as_parent_lem :
    (p : IndexPage) {l : InternalIndexNode} → as_parent p ≡ returned l → p.node ≡ internal l
unfolding as_parent
as_parent_lem p e = elim (Bool-cases p.is_leaf) [
  | inl flag ↦ absurd (thrown_lem (rw flag at e))
  | inr flag ↦ as_internal_lem p.node (rw flag at e)
]
