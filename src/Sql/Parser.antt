-- ===== src/Sql/Parser.antt =====
-- sql/parser.cpp: `parse`, over the methods in the children.
pub mod Cursor
pub mod Expressions
pub mod Columns
pub mod Queries
pub mod Definitions
pub mod Total
pub mod Refusals
use deltabase_c.Prelude.{
  ℕ, ◌+◌, List, [], Option, none, some, Bool, true, false, ◌&&◌, ◌||◌, leb, length, get_elem?,
}
use deltabase_c.Sql.Dictionary.{
  SqlToken, SqlKeyword, symbol, semicolon, select_kw, insert_kw, update_kw, delete_kw, create_kw,
  drop_kw, alter_kw, table_kw, database_kw, schema_kw, index_kw, unique_kw,
}
use deltabase_c.Sql.Ast.{
  Statement, select, insert, update, delete, create_table, create_database, create_schema,
  create_index, drop_index, alter_table,
}
use deltabase_c.Sql.Parser.Cursor.{
  SqlParser, Parse, Outcome, returned, ◌>>=◌, ◌>>◌, return, throw, invalid_statement_syntax,
  advance, is_type, is_symbol, match_keyword,
}
use deltabase_c.Sql.Parser.Queries.{parse_select, parse_insert, parse_update, parse_delete}
use deltabase_c.Sql.Parser.Definitions.{
  parse_create_table, parse_alter_table, parse_create_db, parse_create_schema, parse_create_index,
  parse_drop_index,
}

-- `token.type != SYMBOL || *symbol != SEMICOLON`, negated.
unfoldable pub is_semicolon : SqlToken → Bool
is_semicolon t = is_type symbol t && is_symbol semicolon t.detail

unfoldable pub is_trailing_sequence_valid : List SqlToken → ℕ → Bool
unfolding is_semicolon
is_trailing_sequence_valid tokens start_index = elim (get_elem? tokens start_index) [
  | none ↦ true
  | some t ↦ is_semicolon t && leb (length tokens) (start_index + 1)
]

-- The branches on the first words: the first that is there is taken, else the statement is unknown.
unfoldable pub on_keyword : SqlKeyword → Parse Statement → Parse Statement → Parse Statement
on_keyword k branch other = do found ← match_keyword k; elim found [ true ↦ branch | false ↦ other ]

-- `if (!advance()) throw InvalidStatementSyntax();`
unfoldable pub next_word : Parse Bool
next_word = do
  moved ← advance
  elim moved [ true ↦ return true | false ↦ throw invalid_statement_syntax ]

unfoldable pub parse_create : ℕ → Parse Statement
unfolding on_keyword next_word
parse_create n = do
  next_word
  on_keyword table_kw (do s ← parse_create_table n; return (create_table s))
      (on_keyword database_kw (do s ← parse_create_db; return (create_database s))
        (on_keyword schema_kw (do s ← parse_create_schema; return (create_schema s))
          (on_keyword index_kw (do s ← parse_create_index; return (create_index s))
            (on_keyword unique_kw (do s ← parse_create_index; return (create_index s))
              (throw invalid_statement_syntax)))))

unfoldable pub parse_drop : Parse Statement
unfolding on_keyword next_word
parse_drop = do
  next_word
  on_keyword index_kw (do s ← parse_drop_index; return (drop_index s))
      (throw invalid_statement_syntax)

unfoldable pub parse_alter : ℕ → Parse Statement
unfolding on_keyword next_word
parse_alter n = do
  next_word
  on_keyword table_kw (do s ← parse_alter_table n; return (alter_table s))
      (throw invalid_statement_syntax)

unfoldable pub parse_statement : ℕ → Parse Statement
unfolding on_keyword
parse_statement n =
    on_keyword select_kw (do s ← parse_select n; return (select s))
      (on_keyword insert_kw (do s ← parse_insert n; return (insert s))
        (on_keyword update_kw (do s ← parse_update n; return (update s))
          (on_keyword delete_kw (do s ← parse_delete n; return (delete s))
            (on_keyword create_kw (parse_create n) (
              on_keyword drop_kw parse_drop
                (on_keyword alter_kw (parse_alter n) (throw invalid_statement_syntax)))))))

-- `!valid_from_current && !valid_from_next` throws.
unfoldable pub check_end : Statement → Parse Statement
unfolding is_trailing_sequence_valid
check_end parsed p =
    elim (is_trailing_sequence_valid p.tokens p.current
      || is_trailing_sequence_valid p.tokens (p.current + 1)) [
        | true ↦ returned parsed p
        | false ↦ throw invalid_statement_syntax p
      ]

unfoldable pub make_parser : List SqlToken → SqlParser
make_parser tokens = record { tokens = tokens; current = 0 }

unfoldable pub parse_all : ℕ → Parse Statement
unfolding check_end
parse_all n = parse_statement n >>= check_end

-- `SqlParser(tokens).parse()`.
unfoldable pub parse : ℕ → List SqlToken → Outcome Statement
unfolding parse_all make_parser
parse n tokens = parse_all n (make_parser tokens)

-- `set_tokens` leaves the position where it is.
unfoldable pub set_tokens : List SqlToken → SqlParser → SqlParser
set_tokens tokens p = record p { tokens = tokens }

unfoldable pub reset : SqlParser → SqlParser
reset p = record p { tokens = []; current = 0 }
