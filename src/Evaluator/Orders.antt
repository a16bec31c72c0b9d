-- ===== src/Evaluator/Orders.antt =====
-- How the comparisons of tokens fit together.
use deltabase_c.Prelude.{
  ℕ, ◌≡◌, refl, List, [], ◌∷◌, Bool, true, false, ◌||◌, Bool-cases, inl, inr, arith,
}
use deltabase_c.Types.Value.{
  DataToken, DataType, undefined, null, integer, real, string, bool, char, unnamed,
}
use deltabase_c.Evaluator.{
  Doubles, same_string, string_gr, string_gre, same_type, eq_as, is_null, eq, gr_as, gr, gre_as,
  gre, lt_as, lt, lte_as, lte, evaluate, gr_op, gre_op, eq_op, lt_op, lte_op,
}

pub string_gre_lem :
    (left right : List ℕ) → string_gre left right ≡ (string_gr left right || same_string left right)
unfolding string_gre string_gr same_string
string_gre_lem [] [] = refl
string_gre_lem [] (b ∷ right) = refl
string_gre_lem (a ∷ left) [] = refl
string_gre_lem (a ∷ left) (b ∷ right) = let r = string_gre_lem left right in ground (arith, r)

-- The types whose tokens have an order.
abbrev pub is_ordered : DataType → Bool
is_ordered integer = true
is_ordered real = true
is_ordered string = true
is_ordered char = true
is_ordered _ = false

module _ (doubles : Doubles) where
  gre_as_lem :
      (t : DataType) (left right : List ℕ)
      → ((l r : List ℕ) → doubles.gre l r ≡ (doubles.gr l r || doubles.eq l r))
      → is_ordered t ≡ true
      → gre_as doubles t left right ≡ (gr_as doubles t left right || eq_as doubles t left right)
  unfolding gre_as gr_as eq_as
  gre_as_lem integer left right d h = ground arith
  gre_as_lem real left right d h = d left right
  gre_as_lem string left right d h = string_gre_lem left right
  gre_as_lem char left right d h = ground arith
  gre_as_lem undefined left right d h = cc
  gre_as_lem null left right d h = cc
  gre_as_lem bool left right d h = cc
  gre_as_lem (unnamed n) left right d h = cc

  ordered_null : (t : DataType) → is_ordered t ≡ true → is_null doubles t ≡ false
  unfolding is_null
  ordered_null integer h = refl
  ordered_null real h = refl
  ordered_null string h = refl
  ordered_null char h = refl
  ordered_null undefined h = cc
  ordered_null null h = cc
  ordered_null bool h = cc
  ordered_null (unnamed n) h = cc

  -- On two tokens of ordered types, `>=` is `>` or `==`, if it is so on `double`s.
  pub evaluate-gre_op :
      (left right : DataToken)
      → ((l r : List ℕ) → doubles.gre l r ≡ (doubles.gr l r || doubles.eq l r))
      → is_ordered left.type ≡ true
      → is_ordered right.type ≡ true
      → evaluate doubles left right gre_op
        ≡ (evaluate doubles left right gr_op || evaluate doubles left right eq_op)
  unfolding evaluate gre gr eq
  evaluate-gre_op left right d h k =
      let a = ordered_null left.type h in
      let b = ordered_null right.type k in
      let g = gre_as_lem left.type left.bytes right.bytes d h in
      rw (a, b)
        (elim (Bool-cases (same_type left.type right.type)) [
          | inl same ↦ rw same g
          | inr other ↦ rw other refl
        ])

  lt_as_lem : (t : DataType) (l r : List ℕ) → lt_as doubles t l r ≡ gr_as doubles t l r
  unfolding lt_as gr_as
  lt_as_lem undefined l r = refl
  lt_as_lem null l r = refl
  lt_as_lem integer l r = refl
  lt_as_lem real l r = refl
  lt_as_lem char l r = refl
  lt_as_lem bool l r = refl
  lt_as_lem string l r = refl
  lt_as_lem (unnamed n) l r = refl

  lte_as_lem : (t : DataType) (l r : List ℕ) → lte_as doubles t l r ≡ gre_as doubles t l r
  unfolding lte_as gre_as
  lte_as_lem undefined l r = refl
  lte_as_lem null l r = refl
  lte_as_lem integer l r = refl
  lte_as_lem real l r = refl
  lte_as_lem char l r = refl
  lte_as_lem bool l r = refl
  lte_as_lem string l r = refl
  lte_as_lem (unnamed n) l r = refl

  -- `<` selects what `>` selects, and `<=` what `>=` selects, whatever the tokens.
  pub evaluate-lt_op :
      (left right : DataToken)
      → (evaluate doubles left right lt_op ≡ evaluate doubles left right gr_op)
        × (evaluate doubles left right lte_op ≡ evaluate doubles left right gre_op)
  unfolding evaluate lt gr lte gre
  evaluate-lt_op left right = (
    rw (lt_as_lem left.type left.bytes right.bytes) refl,
    rw (lte_as_lem left.type left.bytes right.bytes) refl,
  )
