-- ===== src/Sql/Parser/Queries.antt =====
-- `parse_select`, `parse_insert`, `parse_update` and `parse_delete` of sql/parser.cpp.
pub mod Ends
use deltabase_c.Prelude.{
  ℕ, zero, suc, ◌+◌, List, [], ◌∷◌, ◌++◌, Option, none, some, Bool, true, false,
}
use deltabase_c.Evaluator.{AstOperator, assign}
use deltabase_c.Sql.Dictionary.{
  SqlToken, identifier, literal, from_kw, where_kw, into_kw, values_kw, set_kw, mul_so, comma,
  lparen, rparen,
}
use deltabase_c.Sql.Ast.{
  AstNode, BinaryExpr, binary_expr, prefix_expr, TableIdentifier, SelectStatement, InsertStatement,
  UpdateStatement, DeleteStatement, ValuesExpr,
}
use deltabase_c.Sql.Parser.Cursor.{
  Parse, returned, ◌>>=◌, ◌>>◌, return, throw, out_of_fuel, invalid_statement_syntax, runtime_error,
  advance, advance_or_throw, step_back, current, match_type, match_keyword, match_operator,
  match_symbol, match_or_throw,
}
use deltabase_c.Sql.Parser.Expressions.{parse_binary_expr}
use deltabase_c.Sql.Parser.Columns.{parse_table_identifier}

-- `if (!advance() || !match(SqlSymbol::COMMA))`, negated.
unfoldable pub at_comma : Parse Bool
at_comma = do moved ← advance; elim moved [ true ↦ match_symbol comma | false ↦ return false ]

-- The loop over the columns of a SELECT, from the columns read so far.
unfoldable pub select_columns : ℕ → List SqlToken → Parse (List SqlToken)
unfolding at_comma
select_columns zero columns = out_of_fuel
select_columns (suc n) columns = do
  advance_or_throw
  named ← match_type identifier
  elim named [
    | false ↦ return columns
    | true ↦ do
      column ← current
      more ← at_comma
      elim more [
        | true ↦ select_columns n (columns ++ column ∷ [])
        | false ↦ return (columns ++ column ∷ [])
      ]
  ]

-- A WHERE that follows, whose word is stepped over by `step`.
unfoldable pub parse_where : Parse Bool → ℕ → Parse (Option BinaryExpr)
parse_where step n = do
  filtered ← match_keyword where_kw
  elim filtered [ true ↦ do step; e ← parse_binary_expr n 0; return (some e) | false ↦ return none ]

-- `*` is looked for at the word SELECT itself.
unfoldable pub select_list : ℕ → Parse (List SqlToken)
unfolding select_columns
select_list n = do
  every_column ← match_operator mul_so
  elim every_column [ false ↦ select_columns n [] | true ↦ advance >> return [] ]

unfoldable pub parse_select : ℕ → Parse SelectStatement
unfolding select_list parse_where
parse_select n = do
  columns ← select_list n
  advance_or_throw
  match_or_throw (match_keyword from_kw)
  advance_or_throw
  table ← parse_table_identifier
  filter ← parse_where advance_or_throw n
  return (record { table = table; columns = columns; where_expr = filter; limit = none })

-- The loop over the columns of an INSERT, which steps back where no comma follows.
unfoldable pub insert_columns : ℕ → List SqlToken → Parse (List SqlToken)
unfolding at_comma
insert_columns zero columns = out_of_fuel
insert_columns (suc n) columns = do
  advance_or_throw
  named ← match_type identifier
  elim named [
    | false ↦ return columns
    | true ↦ do
      column ← current
      more ← at_comma
      elim more [
        | true ↦ insert_columns n (columns ++ column ∷ [])
        | false ↦ step_back >> return (columns ++ column ∷ [])
      ]
  ]

unfoldable pub insert_list : ℕ → Parse (List SqlToken)
unfolding insert_columns
insert_list n = do
  every_column ← match_operator mul_so
  elim every_column [ false ↦ insert_columns n [] | true ↦ advance_or_throw >> return [] ]

unfoldable pub insert_values : ℕ → List SqlToken → Parse (List SqlToken)
unfolding at_comma
insert_values zero values = out_of_fuel
insert_values (suc n) values = do
  advance_or_throw
  match_or_throw (match_type literal)
  value ← current
  more ← at_comma
  elim more [
    | true ↦ insert_values n (values ++ value ∷ [])
    | false ↦ step_back >> return (values ++ value ∷ [])
  ]

unfoldable pub parse_insert : ℕ → Parse InsertStatement
unfolding insert_list insert_values
parse_insert n = do
  advance_or_throw
  match_or_throw (match_keyword into_kw)
  advance_or_throw
  table ← parse_table_identifier
  match_or_throw (match_symbol lparen)
  columns ← insert_list n
  advance_or_throw
  match_or_throw (match_symbol rparen)
  advance_or_throw
  match_or_throw (match_keyword values_kw)
  advance_or_throw
  match_or_throw (match_symbol lparen)
  values ← insert_values n []
  advance_or_throw
  match_or_throw (match_symbol rparen)
  return (record { table = table; columns = columns; values = record { values = values } ∷ [] })

unfoldable pub operator_of_expr : BinaryExpr → AstOperator
operator_of_expr (binary_expr op left right) = op
operator_of_expr (prefix_expr op right) = op

-- `expr.op != AstOperator::ASSIGN` throws.
unfoldable pub check_assignment : AstOperator → Parse Bool
check_assignment assign = return true
check_assignment _ = throw runtime_error

unfoldable pub update_assignments : ℕ → ℕ → List BinaryExpr → Parse (List BinaryExpr)
unfolding check_assignment operator_of_expr
update_assignments zero n assignments = out_of_fuel
update_assignments (suc rounds) n assignments = do
  advance_or_throw
  e ← parse_binary_expr n 0
  check_assignment (operator_of_expr e)
  more ← match_symbol comma
  elim more [
    | true ↦ update_assignments rounds n (assignments ++ e ∷ [])
    | false ↦ return (assignments ++ e ∷ [])
  ]

unfoldable pub parse_update : ℕ → Parse UpdateStatement
unfolding update_assignments parse_where
parse_update n = do
  advance_or_throw
  table ← parse_table_identifier
  match_or_throw (match_keyword set_kw)
  assignments ← update_assignments n n []
  filter ← parse_where advance n
  return (record { table = table; assignments = assignments; where_expr = filter })

unfoldable pub parse_delete : ℕ → Parse DeleteStatement
unfolding parse_where
parse_delete n = do
  advance_or_throw
  match_or_throw (match_keyword from_kw)
  advance_or_throw
  table ← parse_table_identifier
  filter ← parse_where advance n
  return (record { table = table; where_expr = filter })
