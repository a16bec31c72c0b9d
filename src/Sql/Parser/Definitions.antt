-- ===== src/Sql/Parser/Definitions.antt =====
-- The CREATE, DROP and ALTER statements of sql/parser.cpp.
pub mod Ends
use deltabase_c.Prelude.{
  ℕ, zero, suc, ◌+◌, List, [], ◌∷◌, ◌++◌, Option, none, some, Bool, true, false,
}
use deltabase_c.Sql.Dictionary.{
  SqlToken, identifier, table_kw, database_kw, schema_kw, unique_kw, index_kw, on_kw, add_kw,
  column_kw, lparen, rparen,
}
use deltabase_c.Sql.Ast.{
  TableIdentifier, ColumnDefinition, CreateTableStatement, AddColumnOperation, AlterTableStatement,
  CreateSchemaStatement, CreateIndexStatement, DropIndexStatement, CreateDbStatement,
}
use deltabase_c.Sql.Parser.Cursor.{
  Parse, returned, ◌>>=◌, ◌>>◌, return, throw, out_of_fuel, invalid_statement_syntax, advance,
  advance_or_throw, current, current_token, match_type, match_keyword, match_symbol, match_or_throw,
}
use deltabase_c.Sql.Parser.Columns.{parse_table_identifier, parse_column_def}

-- The loop over the columns of a table, from those read so far.
unfoldable pub table_columns : ℕ → ℕ → List ColumnDefinition → Parse (List ColumnDefinition)
table_columns zero n columns = out_of_fuel
table_columns (suc rounds) n columns = do
  def ← parse_column_def n
  stop ← match_symbol rparen
  advance
  elim stop [
    | true ↦ return (columns ++ def ∷ [])
    | false ↦ table_columns rounds n (columns ++ def ∷ [])
  ]

unfoldable pub column_list : ℕ → Parse (List ColumnDefinition)
unfolding table_columns
column_list n = do
  opened ← match_symbol lparen
  elim opened [ true ↦ advance_or_throw >> table_columns n n [] | false ↦ return [] ]

unfoldable pub parse_create_table : ℕ → Parse CreateTableStatement
unfolding column_list
parse_create_table n = do
  match_or_throw (match_keyword table_kw)
  advance_or_throw
  table ← parse_table_identifier
  columns ← column_list n
  return (record { table = table; columns = columns })

-- `if (!current()) break;`, and otherwise an exception.
unfoldable pub no_operation : List AddColumnOperation → Parse (List AddColumnOperation)
no_operation operations p = elim (current_token p) [
  | none ↦ returned operations p
  | some t ↦ throw invalid_statement_syntax p
]

unfoldable pub alter_operations : ℕ → ℕ → List AddColumnOperation → Parse (List AddColumnOperation)
unfolding no_operation
alter_operations zero n operations = out_of_fuel
alter_operations (suc rounds) n operations = do
  adding ← match_keyword add_kw
  elim adding [
    | true ↦ do
      advance_or_throw
      column ← match_keyword column_kw
      elim column [
        | true ↦ do
          advance_or_throw
          def ← parse_column_def n
          alter_operations rounds n (operations ++ record { column = def } ∷ [])
        | false ↦ throw invalid_statement_syntax
      ]
    | false ↦ no_operation operations
  ]

unfoldable pub parse_alter_table : ℕ → Parse AlterTableStatement
unfolding alter_operations
parse_alter_table n = do
  match_or_throw (match_keyword table_kw)
  advance_or_throw
  table ← parse_table_identifier
  advance_or_throw
  operations ← alter_operations n n []
  return (record { table = table; operations = operations })

unfoldable pub parse_create_db : Parse CreateDbStatement
parse_create_db = do
  match_or_throw (match_keyword database_kw)
  advance_or_throw
  name ← current
  return (record { name = name })

unfoldable pub parse_create_schema : Parse CreateSchemaStatement
parse_create_schema = do
  match_or_throw (match_keyword schema_kw)
  advance_or_throw
  name ← current
  return (record { name = name })

unfoldable pub unique_word : Parse (Option Bool)
unique_word = do
  unique ← match_keyword unique_kw
  elim unique [ true ↦ advance_or_throw >> return (some true) | false ↦ return none ]

unfoldable pub parse_create_index : Parse CreateIndexStatement
unfolding unique_word
parse_create_index = do
  is_unique ← unique_word
  match_or_throw (match_keyword index_kw)
  advance_or_throw
  match_or_throw (match_type identifier)
  index_name ← current
  advance_or_throw
  match_or_throw (match_keyword on_kw)
  advance_or_throw
  table ← parse_table_identifier
  match_or_throw (match_symbol lparen)
  advance_or_throw
  match_or_throw (match_type identifier)
  column_name ← current
  advance_or_throw
  match_or_throw (match_symbol rparen)
  return (record {
    table = table;
    index_name = index_name;
    column_name = column_name;
    is_unique = is_unique;
  })

unfoldable pub parse_drop_index : Parse DropIndexStatement
parse_drop_index = do
  match_or_throw (match_keyword index_kw)
  advance_or_throw
  match_or_throw (match_type identifier)
  index_name ← current
  advance_or_throw
  match_or_throw (match_keyword on_kw)
  advance_or_throw
  table ← parse_table_identifier
  return (record { table = table; index_name = index_name })
