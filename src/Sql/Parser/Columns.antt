-- ===== src/Sql/Parser/Columns.antt =====
-- `parse_column_def` and `parse_table_identifier` of sql/parser.cpp. Fuel bounds the rounds of loops.
pub mod Ends
use deltabase_c.Prelude.{
  ℕ, zero, suc, ◌+◌, List, [], ◌∷◌, ◌++◌, Option, none, some, Bool, true, false, ◌&&◌, ◌||◌, not,
  if◌then◌else◌,
}
use deltabase_c.Sql.Dictionary.{
  SqlTokenType, SqlToken, SqlTokenDetail, SqlKeyword, identifier, keyword, keyword_detail,
  string_kw, integer_kw, real_kw, char_kw, bool_kw, null_kw, primary_kw, unique_kw, not_kw,
  autoincrement_kw, comma, rparen, period, keyword_code,
}
use deltabase_c.Sql.Ast.{AstNode, TableIdentifier, ColumnDefinition}
use deltabase_c.Sql.Parser.Cursor.{
  Parse, returned, ◌>>=◌, ◌>>◌, return, throw, out_of_fuel, invalid_statement_syntax, runtime_error,
  step_back, advance, advance_or_throw, current, is_type, is_keyword, match_type, match_symbol,
  match_or_throw,
}

-- `is_data_type_kw`, on the words of `data_types_map`.
unfoldable pub is_data_type_kw : SqlKeyword → Bool
is_data_type_kw string_kw = true
is_data_type_kw integer_kw = true
is_data_type_kw real_kw = true
is_data_type_kw char_kw = true
is_data_type_kw bool_kw = true
is_data_type_kw null_kw = true
is_data_type_kw _ = false

unfoldable pub is_constraint_kw : SqlKeyword → Bool
is_constraint_kw primary_kw = true
is_constraint_kw unique_kw = true
is_constraint_kw not_kw = true
is_constraint_kw null_kw = true
is_constraint_kw autoincrement_kw = true
is_constraint_kw _ = false

-- `is_data_type` and `is_constraint` of a token whose detail holds a keyword.
unfoldable pub is_data_type : SqlToken → SqlKeyword → Bool
unfolding is_type is_data_type_kw
is_data_type t k = is_type keyword t && is_data_type_kw k

unfoldable pub is_constraint : SqlToken → SqlKeyword → Bool
unfolding is_type is_constraint_kw
is_constraint t k = is_type keyword t && is_constraint_kw k

-- The two tests on a token that may become a constraint: `holds_alternative<SqlKeyword>`, and
-- `!is_constraint() || !is_data_type()`.
unfoldable pub is_refused : SqlToken → SqlTokenDetail → Bool
unfolding is_constraint is_data_type
is_refused t (keyword_detail k) = not (is_constraint t k) || not (is_data_type t k)
is_refused t _ = true

unfoldable pub at_column_end : Parse Bool
at_column_end = do
  at_comma ← match_symbol comma
  elim at_comma [ true ↦ return true | false ↦ match_symbol rparen ]

unfoldable pub parse_constraints : ℕ → ColumnDefinition → Parse ColumnDefinition
unfolding at_column_end is_refused
parse_constraints zero def = out_of_fuel
parse_constraints (suc n) def = do
  ended ← at_column_end
  elim ended [
    | true ↦ return def
    | false ↦ do
      cur ← current
      elim (is_refused cur cur.detail) [
        | true ↦ throw invalid_statement_syntax
        | false ↦ do
          advance_or_throw
          parse_constraints n (record def { constraints = def.constraints ++ cur ∷ [] })
      ]
  ]

unfoldable pub parse_column_def : ℕ → Parse ColumnDefinition
unfolding at_column_end
parse_column_def n = do
  match_or_throw (match_type identifier)
  name ← current
  advance_or_throw
  type ← current
  advance_or_throw
  ended ← at_column_end
  let def : ColumnDefinition = record { name = name; type = type; constraints = [] }
  elim ended [ true ↦ return def | false ↦ advance_or_throw >> parse_constraints n def ]

unfoldable pub parse_table_identifier : Parse TableIdentifier
parse_table_identifier = do
  match_or_throw (match_type identifier)
  first_token ← current
  advance
  qualified ← match_symbol period
  elim qualified [
    | true ↦ do
      advance_or_throw
      match_or_throw (match_type identifier)
      second_token ← current
      advance
      return (record { table_name = second_token; schema_name = some first_token })
    | false ↦ return (record { table_name = first_token; schema_name = none })
  ]

-- `parse_tokens_list`, which nothing calls. `node` is the constructor of `nodeType`.
unfoldable pub parse_tokens_list :
    ℕ → SqlTokenType → (SqlToken → AstNode) → List AstNode → Parse (List AstNode)
parse_tokens_list zero token_type node tokens = out_of_fuel
parse_tokens_list (suc n) token_type node tokens = do
  moved ← advance
  found ← elim moved [ true ↦ match_type token_type | false ↦ return false ]
  elim found [
    | false ↦ return tokens
    | true ↦ do
      token ← current
      moved_on ← advance
      elim moved_on [
        | false ↦ return (tokens ++ node token ∷ [])
        | true ↦ do
          more ← match_symbol comma
          elim more [
            | true ↦ parse_tokens_list n token_type node (tokens ++ node token ∷ [])
            | false ↦ step_back >> return (tokens ++ node token ∷ [])
          ]
      ]
  ]
