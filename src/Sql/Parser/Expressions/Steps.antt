-- ===== src/Sql/Parser/Expressions/Steps.antt =====
-- The expression parser on the tokens of an operand, and its loop on those of an operator.
use deltabase_c.Prelude.{
  ℕ, zero, suc, ◌+◌, ◌≤◌, ◌<◌, ◌≡◌, ◌∙◌, List, [], ◌∷◌, ◌++◌, none, some, true, false, refl, ap,
  ltb, length, arith, ◌⊎◌, inl, inr,
}
use deltabase_c.Evaluator.{AstOperator, not_op, is_op, neq_op}
use deltabase_c.Sql.Dictionary.{SqlToken, literal, identifier, lparen, not_so, not_kw, null_kw}
use deltabase_c.Sql.Ast.{
  AstNode, BinaryExpr, identifier_node, literal_node, binary_expr_node, binary_expr, prefix_expr,
  ast_operators_priorities,
}
use deltabase_c.Sql.Parser.Cursor.{
  SqlParser, Parse, Outcome, returned, after, current, is_type, is_keyword, is_symbol, is_operator,
  match_keyword, match_symbol, match_operator, match_type,
}
use deltabase_c.Sql.Parser.Cursor.Ahead.{
  Ahead, token-Ahead, current-Ahead, skip, Ahead-skip, advance-Ahead, skip-skip,
}
use deltabase_c.Sql.Parser.Expressions.{
  next_operator, null_literal, priority_of, read_not, take_operator, try_operator, binary_round,
  parse_leaf, primary_step, parse_primary,
}
use deltabase_c.Sql.Parser.Expressions.Grammar.{
  depth-pos, IsPlain, Operand, null_word, literal_word, identifier_word, negation, Reads, Operator,
  one_word, is_not_words, depth,
}

-- The loop of priority `m` stops at this token.
abbrev pub Stops : ℕ → SqlToken → Type 0
Stops m u =
    ((p : SqlParser) → next_operator u p ≡ returned none p)
    ⊎ ((op : AstOperator) × Reads u op
        × ((k : ℕ) × (ast_operators_priorities op ≡ some k) × (k < m)))

-- One token, and another behind it.
module _ (t u : SqlToken) (us : List SqlToken) (p : SqlParser) (a : Ahead p (t ∷ u ∷ us))
    (q : IsPlain t) (expr : Parse BinaryExpr) (operand : Parse AstNode) where
  null_parses :
      is_keyword null_kw t.detail ≡ true
      → primary_step expr operand p ≡ returned (literal_node (null_literal t)) (skip 1 p)
  unfolding primary_step parse_leaf current match_symbol match_operator match_keyword after
  null_parses h = ground (arith, token-Ahead a, advance-Ahead a, q.no_paren, q.no_negation)

  literal_parses :
      is_keyword null_kw t.detail ≡ false
      → is_type literal t ≡ true
      → primary_step expr operand p ≡ returned (literal_node t) (skip 1 p)
  unfolding primary_step parse_leaf current match_symbol match_operator match_keyword match_type
      after
  literal_parses h l = ground (arith, token-Ahead a, advance-Ahead a, q.no_paren, q.no_negation)

  identifier_parses :
      is_keyword null_kw t.detail ≡ false
      → is_type literal t ≡ false
      → is_type identifier t ≡ true
      → primary_step expr operand p ≡ returned (identifier_node t) (skip 1 p)
  unfolding primary_step parse_leaf current match_symbol match_operator match_keyword match_type
      after
  identifier_parses h l k =
      ground (arith, token-Ahead a, advance-Ahead a, q.no_paren, q.no_negation)

negation_parses :
    (t u : SqlToken) (us : List SqlToken) (p : SqlParser) (n : AstNode) (q : SqlParser)
    → Ahead p (t ∷ u ∷ us)
    → is_symbol lparen t.detail ≡ false
    → is_operator not_so t.detail ≡ true
    → (expr : Parse BinaryExpr) (operand : Parse AstNode) → operand (skip 1 p) ≡ returned n q
    → primary_step expr operand p ≡ returned (binary_expr_node (prefix_expr not_op n)) q
unfolding primary_step current match_symbol match_operator after
negation_parses t u us p n q a h g expr operand e = ground (arith, token-Ahead a, advance-Ahead a)

-- Some token stands ahead.
pub first_of :
    {n : AstNode} {ts : List SqlToken}
    → Operand n ts
    → (t : SqlToken) × ((r : List SqlToken) × (ts ≡ t ∷ r) × (is_keyword not_kw t.detail ≡ false))
first_of (null_word t q h) = (t, ([], refl, q.no_not))
first_of (literal_word t q h l) = (t, ([], refl, q.no_not))
first_of (identifier_word t q h l k) = (t, ([], refl, q.no_not))
first_of (negation t {ts = ts} h l g o) = (t, (ts, refl, g))

pub primary-Operand :
    {n : AstNode} {ts : List SqlToken} (o : Operand n ts) (u : SqlToken) (us : List SqlToken)
    (p : SqlParser) (fuel : ℕ)
    → depth o ≤ fuel
    → Ahead p (ts ++ u ∷ us)
    → parse_primary fuel p ≡ returned n (skip (length ts) p)
unfolding parse_primary depth
primary-Operand o u us p zero d a = absurd (omega (arith, depth-pos o))
primary-Operand (null_word t q h) u us p (suc fuel) d a = null_parses t u us p a q _ _ h
primary-Operand (literal_word t q h l) u us p (suc fuel) d a = literal_parses t u us p a q _ _ h l
primary-Operand (identifier_word t q h l k) u us p (suc fuel) d a =
    identifier_parses t u us p a q _ _ h l k
primary-Operand (negation t {n} {ts} h l g o) u us p (suc fuel) d a =
    let (x, (r, e, _)) = first_of o in
    let a' : Ahead p (t ∷ x ∷ (r ++ u ∷ us)) = rw e at a in
    negation_parses t x (r ++ u ∷ us) p n (skip (suc (length ts)) p) a' h l _ _ (
      primary-Operand o u us (skip 1 p) fuel (omega arith) (Ahead-skip (t ∷ []) a)
      ∙ ap (returned n) (skip-skip 1 (length ts) (suc (length ts)) p (omega arith)))

read_not_stays :
    (op : AstOperator) (v : SqlToken) (vs : List SqlToken) (p : SqlParser)
    → Ahead p (v ∷ vs)
    → is_keyword not_kw v.detail ≡ false
    → read_not op p ≡ returned op p
unfolding read_not match_keyword after
read_not_stays is_op v vs p a h = ground (arith, token-Ahead a)
read_not_stays op v vs p a h = refl

read_is_not :
    (u v : SqlToken) (vs : List SqlToken) (p : SqlParser)
    → Ahead p (u ∷ v ∷ vs)
    → is_keyword not_kw u.detail ≡ true
    → read_not is_op p ≡ returned neq_op (skip 1 p)
unfolding read_not match_keyword after
read_is_not u v vs p a h = ground (arith, token-Ahead a, advance-Ahead a)

priority_lem :
    (op : AstOperator) (k : ℕ) (p : SqlParser)
    → ast_operators_priorities op ≡ some k
    → priority_of op p ≡ returned k p
unfolding priority_of
priority_lem op k p e = rw (e, priority_of) refl

module _ (tree : ℕ → Parse AstNode) (loop : AstNode → Parse AstNode) (left : AstNode) where
  abbrev pub Continues : AstOperator → ℕ → SqlParser → Outcome AstNode
  Continues op k p =
      after (tree (k + 1) p) (λ right. loop (binary_expr_node (binary_expr op left right)))

  pub round-Operator :
      (m : ℕ) {op : AstOperator} {k : ℕ} {os : List SqlToken} (v : SqlToken) (vs : List SqlToken)
      (p : SqlParser)
      → Operator op k os
      → Ahead p (os ++ v ∷ vs)
      → is_keyword not_kw v.detail ≡ false
      → m ≤ k
      → binary_round tree loop m left p ≡ Continues op k (skip (length os) p)
  unfolding binary_round try_operator take_operator after
  round-Operator m v vs p (one_word t op k r e) a h l =
      let b : ltb k m ≡ false = ground arith in
      rw
        (
          current-Ahead a,
          r p,
          priority_lem op k p e,
          b,
          advance-Ahead a,
          read_not_stays op v vs (skip 1 p) (Ahead-skip (t ∷ []) a) h,
        )
        refl
  round-Operator m v vs p (is_not_words t u k r e g) a h l =
      let b : ltb k m ≡ false = ground arith in
      rw
        (
          current-Ahead a,
          r p,
          priority_lem is_op k p e,
          b,
          advance-Ahead a,
          read_is_not u v vs (skip 1 p) (Ahead-skip (t ∷ []) a) g,
          skip-skip 1 1 2 p (omega arith),
        )
        refl

  pub round-Stops :
      (m : ℕ) (u : SqlToken) (us : List SqlToken) (p : SqlParser)
      → Ahead p (u ∷ us)
      → Stops m u
      → binary_round tree loop m left p ≡ returned left p
  unfolding binary_round try_operator after
  round-Stops m u us p a (inl h) = rw (current-Ahead a, h p) refl
  round-Stops m u us p a (inr (op, r, (k, e, l))) =
      let b : ltb k m ≡ true = ground arith in
      rw (current-Ahead a, r p, priority_lem op k p e, b) refl
