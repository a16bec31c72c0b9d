-- ===== src/Sql/Parser/Expressions/Operators.antt =====
-- The loop over the operators of the expression parser, round by round.
use deltabase_c.Prelude.{
  ℕ, suc, ◌+◌, ◌-◌, ◌*◌, ◌≤◌, ◌≡◌, refl, List, Option, none, some, true, false, ◌==◌, ltb, length,
  arith, Bool-cases, Option-cases, inl, inr, ◌⊎◌,
}
use deltabase_c.Evaluator.{AstOperator, is_op}
use deltabase_c.Sql.Dictionary.{
  SqlToken, SqlTokenDetail, operator_detail, keyword_detail, symbol_detail, literal_detail,
  monostate, keyword_code, type_code, keyword, operator, is_kw,
}
use deltabase_c.Sql.Ast.{
  binary_expr, binary_expr_node, ast_operators_priorities, AstNode, BinaryExpr,
}
use deltabase_c.Sql.Parser.Cursor.{
  runtime_error, SqlParser, Parse, Outcome, returned, threw, null_pointer, still_running, Exception,
  after, current, current_token, is_symbol, is_operator, is_keyword, is_type, match_keyword,
  match_symbol, match_operator, match_type,
}
use deltabase_c.Sql.Parser.Cursor.Triples.{
  Ensures, From, From-le, From-self, then_do, on_returned, on_threw, on_advance, on_current,
  on_holds,
}
use deltabase_c.Sql.Parser.Expressions.{
  take_operator, try_operator, next_operator, operator_of, is_of, read_not, priority_of,
  binary_round, parse_leaf, primary_step,
}
use deltabase_c.Sql.Parser.Expressions.Operands.{opens_operand, IsClosed, IsInfix}

pub is_of_infix :
    (R : Type 0) (t : SqlToken) (d : SqlTokenDetail) (p : SqlParser)
    → is_type keyword t ≡ true
    → t.detail ≡ d
    → Ensures R (λ o q. (q ≡ p) × ((o ≡ none) ⊎ IsInfix t)) (is_of d p)
unfolding is_of is_keyword IsInfix
is_of_infix R t monostate p h e = record { out = tt }
is_of_infix R t (operator_detail o) p h e = record { out = tt }
is_of_infix R t (symbol_detail x) p h e = record { out = tt }
is_of_infix R t (literal_detail x) p h e = record { out = tt }
is_of_infix R t (keyword_detail k) p h e =
    elim (Bool-cases (keyword_code k == keyword_code is_kw)) [
      | inl c ↦ record { out = (refl, inr (inr (h, (k, e, ground arith)))) }
      | inr c ↦ record { out = (refl, inl (rw c refl)) }
    ]

pub operator_of_infix :
    (R : Type 0) (t : SqlToken) (d : SqlTokenDetail) (p : SqlParser)
    → is_type operator t ≡ true
    → t.detail ≡ d
    → Ensures R (λ o q. (q ≡ p) × ((o ≡ none) ⊎ IsInfix t)) (operator_of d p)
unfolding operator_of IsInfix
operator_of_infix R t monostate p h e = record { out = tt }
operator_of_infix R t (keyword_detail o) p h e = record { out = tt }
operator_of_infix R t (symbol_detail x) p h e = record { out = tt }
operator_of_infix R t (literal_detail x) p h e = record { out = tt }
operator_of_infix R t (operator_detail o) p h e = record { out = (refl, inr (inl (h, (o, e)))) }

pub next_infix :
    (R : Type 0) (t : SqlToken) (p : SqlParser)
    → Ensures R (λ o q. (q ≡ p) × ((o ≡ none) ⊎ IsInfix t)) (next_operator t p)
unfolding next_operator
next_infix R t p = elim (Bool-cases (is_type operator t)) [
  | inl h ↦ rw h (operator_of_infix R t t.detail p h refl)
  | inr h ↦ rw h (elim (Bool-cases (is_type keyword t)) [
    | inl k ↦ rw k (is_of_infix R t t.detail p k refl)
    | inr k ↦ rw k (record { out = (refl, inl refl) })
  ])
]

-- No operand begins with an operator other than NOT.
pub primary_throws :
    (t : SqlToken) (p : SqlParser) (expr : Parse BinaryExpr) (operand : Parse AstNode)
    → current_token p ≡ some t
    → IsInfix t
    → opens_operand t ≡ false
    → (e : Exception) × (primary_step expr operand p ≡ threw e)
unfolding primary_step parse_leaf current match_symbol match_operator match_keyword match_type after
    is_type type_code is_keyword keyword_code is_symbol is_operator opens_operand IsInfix
primary_throws t p expr operand e (inl (h, (o, d))) c = (runtime_error, ground arith)
primary_throws t p expr operand e (inr (h, (k, d, n))) c = (runtime_error, ground arith)

pub priority_stays :
    (R : Type 0) (op : AstOperator) (p : SqlParser) → Ensures R (λ _ q. q ≡ p) (priority_of op p)
unfolding priority_of
priority_stays R op p = elim (Option-cases (ast_operators_priorities op)) [
  | inl e ↦ rw (e, priority_of) (record { out = tt })
  | inr (n, e) ↦ rw (e, priority_of) (record { out = refl })
]

pub read_not_from :
    (R : Type 0) (ts : List SqlToken) (op : AstOperator) (p : SqlParser)
    → From ts p.current p
    → Ensures R (λ _ q. From ts p.current q) (read_not op p)
unfolding read_not match_keyword
read_not_from R ts is_op p s =
    on_holds R _ _ s
      (λ _ _ _.
        on_advance R _ s (λ q _ u. record { out = From-le (omega arith) u })
          (λ _. record { out = s }))
      (λ _ _ _. record { out = s })
read_not_from R ts op p s = record { out = s }

-- At an operator itself there is no NOT to step over.
pub read_not_infix :
    (t : SqlToken) (op : AstOperator) (p : SqlParser)
    → current_token p ≡ some t
    → IsInfix t
    → read_not op p ≡ returned op p
unfolding read_not match_keyword after is_keyword keyword_code IsInfix
read_not_infix t is_op p e (inl (h, (o, d))) = ground arith
read_not_infix t is_op p e (inr (h, (k, d, n))) = ground arith
read_not_infix t op p e h = refl

pub weaken :
    (R : Type 0) {ts : List SqlToken} (p q : SqlParser)
    → p.current ≤ q.current
    → {A : Type 0} (o : Outcome A) → Ensures R (λ _ r. From ts q.current r) o
    → Ensures R (λ _ r. From ts p.current r) o
weaken R p q h (returned a r) u = record { out = From-le h u.out }
weaken R p q h (threw e) u = record { out = tt }
weaken R p q h null_pointer u = absurd u.out
weaken R p q h still_running u = record { out = u.out }

abbrev pub Fuel : Type 0 → List SqlToken → ℕ → ℕ → ℕ → Type 0
Fuel R ts k n c = R ⊎ (IsClosed ts × (3 * (length ts - c) + k ≤ n))

module _ (R : Type 0) (ts : List SqlToken) where
  abbrev pub Moved : SqlParser → SqlParser → Type 0
  Moved p q = R ⊎ (suc p.current ≤ q.current)

  abbrev pub Keeps : SqlParser → {A : Type 0} → A → SqlParser → Type 0
  Keeps p _ q = From ts p.current q

  abbrev pub Throws : SqlParser → (ℕ → Parse AstNode) → Type 0
  Throws p tree =
      (priority : ℕ) (t : SqlToken)
      → current_token p ≡ some t
      → IsInfix t
      → opens_operand t ≡ false
      → (e : Exception) × (tree priority p ≡ threw e)

  module _ (p : SqlParser) (s : From ts p.current p) (tree : ℕ → Parse AstNode)
      (loop : AstNode → Parse AstNode)
      (tree_ends : (priority : ℕ) (q : SqlParser)
        → From ts q.current q
        → Moved p q
        → Ensures R (Keeps q) (tree priority q))
      (loop_ends : (left : AstNode) (q : SqlParser)
        → From ts q.current q
        → Moved p q
        → Ensures R (Keeps q) (loop left q))
      (closed : R ⊎ (IsClosed ts × Throws p tree)) where
    pub operand_ends :
        (left : AstNode) (op : AstOperator) (priority : ℕ) (q : SqlParser)
        → From ts p.current q
        → Moved p q
        → Ensures R
            (Keeps p)
            (after (tree priority q) (λ right. loop (binary_expr_node (binary_expr op left right))))
    operand_ends left op priority q u m =
        then_do R (Keeps q) _ (tree priority q) (tree_ends priority q (From-self u) m) (λ right r v.
          let m' : Moved p r = elim m [ inl x ↦ inl x | inr l ↦ inr (omega (arith, v.from)) ] in
          weaken R p r (omega (arith, u.from, v.from)) _ (loop_ends _ r (From-self v) m'))

    pub take_operator_ends :
        (left : AstNode) (op : AstOperator) (priority : ℕ) (t : SqlToken)
        → current_token p ≡ some t
        → IsInfix t
        → Ensures R (Keeps p) (take_operator tree loop left op priority p)
    unfolding take_operator
    take_operator_ends left op priority t e h =
        on_advance R _ s
          (λ q m u. then_do R _ _ _ (read_not_from R ts op q (From-self u)) (λ op' r v.
            operand_ends left op' (priority + 1) r (From-le (omega (arith, v.from)) v)
              (inr (omega (arith, v.from)))))
          (λ l. elim closed [
            | inl x ↦
                then_do R _ _ _ (read_not_from R ts op p s)
                  (λ op' r v. operand_ends left op' (priority + 1) r v (inl x))
            | inr c ↦
                let (x, f) = c.1 (priority + 1) t e h (c.0 p.current t l (rw s.same at e)) in
                rw (read_not_infix t op p e h) (on_returned R _ op p (rw f (on_threw R _ x)))
          ])

    pub try_operator_ends :
        (min_priority : ℕ) (left : AstNode) (t : SqlToken) (o : Option AstOperator)
        → current_token p ≡ some t
        → (o ≡ none) ⊎ IsInfix t
        → Ensures R (Keeps p) (try_operator tree loop min_priority left o p)
    unfolding try_operator
    try_operator_ends min_priority left t none e h = record { out = s }
    try_operator_ends min_priority left t (some op) e (inl h) = absurd (cc)
    try_operator_ends min_priority left t (some op) e (inr h) =
        then_do R _ _ _ (priority_stays R op p) (λ priority q same.
          elim (Bool-cases (ltb priority min_priority)) [
            | inl below ↦ rw (below, same) (record { out = s })
            | inr above ↦ rw (above, same) (take_operator_ends left op priority t e h)
          ])

    pub binary_round_ends :
        (min_priority : ℕ) (left : AstNode)
        → Ensures R (Keeps p) (binary_round tree loop min_priority left p)
    unfolding binary_round
    binary_round_ends min_priority left = on_current R _ s (λ t e.
        then_do R _ _ _ (next_infix R t p)
          (λ o q h. rw h.0 (try_operator_ends min_priority left t o e h.1)))

pub IsClosed-of : (R : Type 0) (ts : List SqlToken) (k n c : ℕ) → Fuel R ts k n c → R ⊎ IsClosed ts
IsClosed-of R ts k n c (inl x) = inl x
IsClosed-of R ts k n c (inr (h, l)) = inr h
