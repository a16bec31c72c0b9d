-- ===== src/Sql/Parser/Expressions/Ends.antt =====
-- The expression parser ends: it reads through no null pointer, and three calls for each token that
-- is left are deep enough, unless the last token opens an operand.
use deltabase_c.Prelude.{ℕ, zero, suc, ◌+◌, ◌≤◌, ◌≡◌, refl, List, some, false, arith, inl, inr, ◌⊎◌}
use deltabase_c.Sql.Dictionary.{SqlToken}
use deltabase_c.Sql.Ast.{literal_node, identifier_node, binary_expr_node, AstNode}
use deltabase_c.Sql.Parser.Cursor.{SqlParser, Parse, threw, Exception, after, current_token}
use deltabase_c.Sql.Parser.Cursor.Triples.{Ensures, From, From-self, then_do}
use deltabase_c.Sql.Parser.Expressions.{
  to_binary_expr, parse_primary, parse_binary_expr, parse_binary_tree, binary_loop,
}
use deltabase_c.Sql.Parser.Expressions.Operands.{
  opens_operand, IsClosed, IsInfix, primary_step_ends,
}
use deltabase_c.Sql.Parser.Expressions.Operators.{
  primary_throws, weaken, Fuel, Throws, binary_round_ends, IsClosed-of,
}

-- Less fuel is enough behind.
spend :
    (R : Type 0) (ts : List SqlToken) (k n k' n' : ℕ) (p q : SqlParser)
    → Fuel R ts k n p.current
    → (R ⊎ (suc p.current ≤ q.current))
    → From ts q.current q
    → n ≤ suc n'
    → k' ≤ k + 2
    → Fuel R ts k' n' q.current
spend R ts k n k' n' p q (inl x) m s a b = inl x
spend R ts k n k' n' p q (inr h) (inl x) s a b = inl x
spend R ts k n k' n' p q (inr (c, l)) (inr m) s a b = inr (c, omega (arith, s.within))

binary_expr_of :
    (R : Type 0) {ts : List SqlToken} {c : ℕ} (n : AstNode) (p : SqlParser)
    → From ts c p
    → Ensures R (λ _ q. From ts c q) (to_binary_expr n p)
unfolding to_binary_expr
binary_expr_of R (binary_expr_node e) p s = record { out = s }
binary_expr_of R (identifier_node t) p s = record { out = tt }
binary_expr_of R (literal_node t) p s = record { out = tt }

tree_throws_at :
    (n priority : ℕ) (t : SqlToken) (p : SqlParser)
    → 2 ≤ n
    → current_token p ≡ some t
    → IsInfix t
    → opens_operand t ≡ false
    → (e : Exception) × (parse_binary_tree n priority p ≡ threw e)
unfolding parse_binary_tree after
tree_throws_at zero priority t p h e i o = absurd (omega arith)
tree_throws_at (suc zero) priority t p h e i o = absurd (omega arith)
tree_throws_at (suc (suc n)) priority t p h e i o =
    let (x, f) = primary_throws t p (parse_binary_expr n 0) (parse_primary n) e i o in
    (x, rw f refl)

Throws-of :
    (R : Type 0) (ts : List SqlToken) (n : ℕ) (p : SqlParser)
    → From ts p.current p
    → Fuel R ts 0 (suc n) p.current
    → R ⊎ (IsClosed ts × Throws R ts p (parse_binary_tree n))
Throws-of R ts n p s (inl x) = inl x
Throws-of R ts n p s (inr (c, l)) =
    inr (c, λ priority t e i o. tree_throws_at n priority t p (omega (arith, s.within)) e i o)

abbrev Within : (R : Type 0) (ts : List SqlToken) (k n : ℕ) {A : Type 0} → Parse A → Type 0
Within R ts k n m =
    (p : SqlParser)
    → From ts p.current p
    → Fuel R ts k n p.current
    → Ensures R (λ _ q. From ts p.current q) (m p)

mutual
  unfolding parse_binary_tree

  parse_primary_ends : (n : ℕ) (R : Type 0) (ts : List SqlToken) → Within R ts 0 n (parse_primary n)
  parse_primary_ends zero R ts p s (inl x) = record { out = x }
  parse_primary_ends zero R ts p s (inr (c, l)) = absurd (omega (arith, s.within))
  parse_primary_ends (suc n) R ts p s f =
      primary_step_ends R ts (IsClosed-of R ts 0 (suc n) p.current f) p s (parse_binary_expr n 0)
        (parse_primary n)
        (λ q u m.
          parse_binary_expr_ends n R ts 0 q u
            (spend R ts 0 (suc n) 2 n p q f m u (omega arith) (omega arith)))
        (λ q u m.
          parse_primary_ends n R ts q u
            (spend R ts 0 (suc n) 0 n p q f m u (omega arith) (omega arith)))

  pub parse_binary_expr_ends :
      (n : ℕ) (R : Type 0) (ts : List SqlToken) (min_priority : ℕ)
      → Within R ts 2 n (parse_binary_expr n min_priority)
  parse_binary_expr_ends zero R ts m p s (inl x) = record { out = x }
  parse_binary_expr_ends zero R ts m p s (inr (c, l)) = absurd (omega (arith, s.within))
  parse_binary_expr_ends (suc n) R ts m p s f =
      then_do R (λ _ q. From ts p.current q) _ (parse_binary_tree n m p)
        (parse_binary_tree_ends n R ts m p s
          (elim f [ inl x ↦ inl x | inr (c, l) ↦ inr (c, omega arith) ]))
        (λ a q u. binary_expr_of R a q u)

  parse_binary_tree_ends :
      (n : ℕ) (R : Type 0) (ts : List SqlToken) (min_priority : ℕ)
      → Within R ts 1 n (parse_binary_tree n min_priority)
  parse_binary_tree_ends zero R ts m p s (inl x) = record { out = x }
  parse_binary_tree_ends zero R ts m p s (inr (c, l)) = absurd (omega (arith, s.within))
  parse_binary_tree_ends (suc n) R ts m p s f =
      let g : Fuel R ts 0 n p.current = elim f [
        | inl x ↦ inl x
        | inr (c, l) ↦ inr (c, omega arith)
      ] in
      then_do R (λ _ q. From ts p.current q) _ (parse_primary n p) (parse_primary_ends n R ts p s g)
        (λ a q u. weaken R p q u.from _ (
          binary_loop_ends n R ts m a q (From-self u)
            (elim g [ inl x ↦ inl x | inr (c, l) ↦ inr (c, omega (arith, u.from)) ])))

  binary_loop_ends :
      (n : ℕ) (R : Type 0) (ts : List SqlToken) (min_priority : ℕ) (left : AstNode)
      → Within R ts 0 n (binary_loop n min_priority left)
  binary_loop_ends zero R ts m left p s (inl x) = record { out = x }
  binary_loop_ends zero R ts m left p s (inr (c, l)) = absurd (omega (arith, s.within))
  binary_loop_ends (suc n) R ts m left p s f =
      binary_round_ends R ts p s (parse_binary_tree n) (binary_loop n m)
        (λ priority q u v.
          parse_binary_tree_ends n R ts priority q u
            (spend R ts 0 (suc n) 1 n p q f v u (omega arith) (omega arith)))
        (λ a q u v.
          binary_loop_ends n R ts m a q u
            (spend R ts 0 (suc n) 0 n p q f v u (omega arith) (omega arith)))
        (Throws-of R ts n p s f) m left
