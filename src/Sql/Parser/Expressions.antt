-- ===== src/Sql/Parser/Expressions.antt =====
-- The expressions of sql/parser.cpp: `parse_binary_tree`, `parse_binary_expr` and `parse_primary`.
-- The fuel bounds how deep their calls go; the rounds of the loop over operators count too.
pub mod Operands
pub mod Operators
pub mod Ends
pub mod Grammar
pub mod Steps
pub mod Parses
use deltabase_c.Prelude.{
  ℕ, zero, suc, ◌+◌, Option, none, some, Bool, true, false, ltb, if◌then◌else◌,
}
use deltabase_c.Evaluator.{
  AstOperator, or, and, not_op, eq_op, neq_op, gr_op, gre_op, lt_op, lte_op, is_op, assign,
}
use deltabase_c.Sql.Dictionary.{
  SqlToken, SqlTokenDetail, SqlOperator, keyword, identifier, literal, operator, monostate,
  keyword_detail, operator_detail, symbol_detail, literal_detail, null_lit, not_kw, is_kw, null_kw,
  lparen, rparen, eq_so, neq_so, gr_so, gre_so, lt_so, lte_so, is_so, and_so, or_so, not_so,
  plus_so, minus_so, mul_so, div_so, assign_so,
}
use deltabase_c.Sql.Ast.{
  AstNode, BinaryExpr, identifier_node, literal_node, binary_expr_node, binary_expr, prefix_expr,
  ast_operators_priorities,
}
use deltabase_c.Sql.Parser.Cursor.{
  Parse, Outcome, returned, ◌>>=◌, ◌>>◌, return, throw, out_of_fuel, runtime_error,
  bad_variant_access, out_of_range, advance, current, is_type, is_keyword, match_type,
  match_keyword, match_operator, match_symbol,
}

unfoldable pub to_ast_operator : SqlOperator → Option AstOperator
to_ast_operator or_so = some or
to_ast_operator and_so = some and
to_ast_operator eq_so = some eq_op
to_ast_operator neq_so = some neq_op
to_ast_operator not_so = some not_op
to_ast_operator gr_so = some gr_op
to_ast_operator gre_so = some gre_op
to_ast_operator lt_so = some lt_op
to_ast_operator lte_so = some lte_op
to_ast_operator is_so = some is_op
to_ast_operator assign_so = some assign
to_ast_operator _ = none

-- `to_ast_operator(std::get<SqlOperator>(detail))`.
unfoldable pub operator_of : SqlTokenDetail → Parse (Option AstOperator)
unfolding to_ast_operator
operator_of (operator_detail o) = return (to_ast_operator o)
operator_of _ = throw bad_variant_access

-- `std::get<SqlKeyword>(detail) == SqlKeyword::IS`.
unfoldable pub is_of : SqlTokenDetail → Parse (Option AstOperator)
unfolding is_keyword
is_of (keyword_detail k) = return (if is_keyword is_kw (keyword_detail k) then some is_op else none)
is_of _ = throw bad_variant_access

-- The operator at a token, or none where the loop breaks.
unfoldable pub next_operator : SqlToken → Parse (Option AstOperator)
unfolding is_type operator_of is_of
next_operator t =
    if is_type operator t
    then operator_of t.detail
    else if is_type keyword t
    then is_of t.detail
    else return none

-- IS NOT is read as one operator.
unfoldable pub read_not : AstOperator → Parse AstOperator
read_not is_op = do
  negated ← match_keyword not_kw
  elim negated [ true ↦ advance >> return neq_op | false ↦ return is_op ]
read_not op = return op

unfoldable pub priority_of : AstOperator → Parse ℕ
priority_of op = elim (ast_operators_priorities op) [
  | none ↦ throw out_of_range
  | some n ↦ return n
]

-- From the operator on: `tree` reads the right operand, and `loop` goes on with the new node.
unfoldable pub take_operator :
    (ℕ → Parse AstNode) → (AstNode → Parse AstNode) → AstNode → AstOperator → ℕ → Parse AstNode
unfolding read_not
take_operator tree loop left op priority = do
  advance
  op' ← read_not op
  right ← tree (priority + 1)
  loop (binary_expr_node (binary_expr op' left right))

unfoldable pub try_operator :
    (ℕ → Parse AstNode)
    → (AstNode → Parse AstNode)
    → ℕ
    → AstNode
    → Option AstOperator
    → Parse AstNode
unfolding take_operator priority_of
try_operator tree loop min_priority left none = return left
try_operator tree loop min_priority left (some op) = do
  priority ← priority_of op
  if ltb priority min_priority then return left else take_operator tree loop left op priority

-- A round of the loop over operators.
unfoldable pub binary_round :
    (ℕ → Parse AstNode) → (AstNode → Parse AstNode) → ℕ → AstNode → Parse AstNode
unfolding next_operator try_operator
binary_round tree loop min_priority left = do
  token ← current
  op_opt ← next_operator token
  try_operator tree loop min_priority left op_opt

unfoldable pub to_binary_expr : AstNode → Parse BinaryExpr
to_binary_expr (binary_expr_node e) = return e
to_binary_expr _ = throw runtime_error

unfoldable pub null_literal : SqlToken → SqlToken
null_literal t = record t { type = literal; detail = literal_detail null_lit }

-- The branches of `parse_primary` on a token that is no parenthesis and no NOT.
unfoldable pub parse_leaf : SqlToken → Parse AstNode
unfolding null_literal
parse_leaf token = do
  null ← match_keyword null_kw
  elim null [
    | true ↦ advance >> return (literal_node (null_literal token))
    | false ↦ do
      is_literal ← match_type literal
      elim is_literal [
        | true ↦ advance >> return (literal_node token)
        | false ↦ do
          is_identifier ← match_type identifier
          elim is_identifier [
            | true ↦ advance >> return (identifier_node token)
            | false ↦ throw runtime_error
          ]
      ]
  ]

unfoldable pub close_paren : BinaryExpr → Parse AstNode
close_paren e = do
  closed ← match_symbol rparen
  elim closed [ true ↦ return (binary_expr_node e) | false ↦ throw runtime_error ]

-- `parse_primary`, where `expr` reads an expression in parentheses and `operand` what NOT negates.
unfoldable pub primary_step : Parse BinaryExpr → Parse AstNode → Parse AstNode
unfolding parse_leaf close_paren
primary_step expr operand = do
  token ← current
  open_paren ← match_symbol lparen
  elim open_paren [
    | true ↦ do advance; e ← expr; close_paren e
    | false ↦ do
      negation ← match_operator not_so
      elim negation [
        | true ↦ do advance; right ← operand; return (binary_expr_node (prefix_expr not_op right))
        | false ↦ parse_leaf token
      ]
  ]

unfoldable mutual
  unfolding binary_round primary_step to_binary_expr

  pub parse_primary : ℕ → Parse AstNode
  parse_primary zero = out_of_fuel
  parse_primary (suc n) = primary_step (parse_binary_expr n 0) (parse_primary n)

  pub parse_binary_expr : ℕ → ℕ → Parse BinaryExpr
  parse_binary_expr zero min_priority = out_of_fuel
  parse_binary_expr (suc n) min_priority = parse_binary_tree n min_priority >>= to_binary_expr

  pub parse_binary_tree : ℕ → ℕ → Parse AstNode
  parse_binary_tree zero min_priority = out_of_fuel
  parse_binary_tree (suc n) min_priority = parse_primary n >>= binary_loop n min_priority

  pub binary_loop : ℕ → ℕ → AstNode → Parse AstNode
  binary_loop zero min_priority left = out_of_fuel
  binary_loop (suc n) min_priority left =
      binary_round (parse_binary_tree n) (binary_loop n min_priority) min_priority left
