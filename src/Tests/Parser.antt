-- ===== src/Tests/Parser.antt =====
-- Short statements through the parser.
use deltabase_c.Prelude.{ℕ, List, [], ◌∷◌, ◌≡◌, ◌≢◌, refl, arith, All}
use deltabase_c.Evaluator.{eq_op}
use deltabase_c.Sql.Dictionary.{
  SqlToken, SqlTokenType, SqlTokenDetail, keyword, identifier, literal, operator, symbol, monostate,
  keyword_detail, operator_detail, symbol_detail, literal_detail, select_kw, from_kw, alter_kw,
  not_kw, null_kw, integer_kw, eq_so, integer_lit, semicolon, comma, lparen, type_code,
  keyword_code, symbol_code,
}
use deltabase_c.Sql.Ast.{
  AstNode, ColumnDefinition, identifier_node, literal_node, binary_expr_node, binary_expr,
  ast_operators_priorities,
}
use deltabase_c.Sql.Parser.Cursor.{
  SqlParser, Exception, returned, threw, null_pointer, still_running, invalid_statement_syntax,
  is_type, is_keyword, is_symbol, is_operator, after, advance, advance_or_throw, current,
  match_type, match_symbol, match_or_throw,
}
use deltabase_c.Sql.Parser.Cursor.Ahead.{skip}
use deltabase_c.Sql.Parser.Expressions.{next_operator, parse_binary_tree, parse_binary_expr}
use deltabase_c.Sql.Parser.Expressions.Operands.{opens_operand, IsClosed-last}
use deltabase_c.Sql.Parser.Expressions.Grammar.{
  identifier_word, literal_word, one_word, Written, lone_operand, infix_expr,
}
use deltabase_c.Sql.Parser.Expressions.Parses.{parse_binary_tree-Written}
use deltabase_c.Sql.Parser.Columns.{
  is_data_type, is_constraint, is_refused, at_column_end, parse_constraints, parse_column_def,
}
use deltabase_c.Sql.Parser.Columns.Ends.{IsNullWord}
use deltabase_c.Sql.Parser.Queries.{parse_select}
use deltabase_c.Sql.Parser.Total.{parse-null_pointer, parse-IsClosed}
use deltabase_c.Sql.Parser.Refusals.{
  parse_column_def-constraints, parse_select-columns, parse_binary_expr-open_paren,
}
use deltabase_c.Sql.Parser.Refusals.Alter.{parse-alter_throws}
use deltabase_c.Sql.Parser.{parse}

abbrev word : SqlTokenType → SqlTokenDetail → ℕ → SqlToken
word type detail c = record { type = type; value = c ∷ []; line = 1; pos = 0; detail = detail }

abbrev name_a : SqlToken
name_a = word identifier monostate b'a'

abbrev one : SqlToken
one = word literal (literal_detail integer_lit) b'1'

abbrev equals : SqlToken
equals = word operator (operator_detail eq_so) b'='

abbrev end : SqlToken
end = word symbol (symbol_detail semicolon) b';'

abbrev select_word : SqlToken
select_word = word keyword (keyword_detail select_kw) b's'

abbrev from_word : SqlToken
from_word = word keyword (keyword_detail from_kw) b'f'

-- `SELECT a FROM a;`
abbrev select_tokens : List SqlToken
select_tokens = select_word ∷ name_a ∷ from_word ∷ name_a ∷ end ∷ []

abbrev at_start : List SqlToken → SqlParser
at_start ts = record { tokens = ts; current = 0 }

parse-null_pointer_example : parse 17 select_tokens ≢ null_pointer
parse-null_pointer_example = parse-null_pointer 17 select_tokens (omega arith)

parse-IsClosed_example : parse 17 select_tokens ≢ still_running
unfolding opens_operand is_symbol is_operator symbol_code
parse-IsClosed_example =
    parse-IsClosed 17 select_tokens (omega arith)
      (IsClosed-last (select_word ∷ name_a ∷ from_word ∷ name_a ∷ []) end refl)

parse-alter_throws_example :
    (e : Exception) × (parse 5 (word keyword (keyword_detail alter_kw) b'a' ∷ name_a ∷ [])
      ≡ threw e)
unfolding is_keyword keyword_code
parse-alter_throws_example =
    parse-alter_throws 5 (word keyword (keyword_detail alter_kw) b'a') (name_a ∷ []) refl
      (omega arith)

parse_select-columns_example :
    parse_select 9 (at_start select_tokens) ≡ threw invalid_statement_syntax
unfolding is_keyword keyword_code is_operator is_type type_code
parse_select-columns_example =
    parse_select-columns from_word name_a (end ∷ []) refl 9 name_a [] select_word
      (at_start select_tokens) (omega arith) (refl, tt) refl refl
      (record { rest = refl; within = omega arith })

parse_binary_expr-open_paren_example :
    parse_binary_expr 50 0 (at_start (word symbol (symbol_detail lparen) b'(' ∷ [])) ≡ still_running
unfolding is_symbol symbol_code
parse_binary_expr-open_paren_example =
    parse_binary_expr-open_paren 50 0 (word symbol (symbol_detail lparen) b'(') _ refl
      (record { rest = refl; within = omega arith })

-- `a == 1;`
abbrev equation : AstNode
equation = binary_expr_node (binary_expr eq_op (identifier_node name_a) (literal_node one))

equation-Written : Written 0 equation (name_a ∷ equals ∷ one ∷ [])
unfolding is_symbol is_operator is_keyword is_type type_code next_operator ast_operators_priorities
equation-Written =
    infix_expr {k = 4} {xs = name_a ∷ []} {os = equals ∷ []} {ys = one ∷ []} (omega arith)
      (lone_operand (
        identifier_word name_a (record { no_paren = refl; no_negation = refl; no_not = refl }) refl
          refl refl))
      (one_word equals eq_op 4 (λ p. refl) refl)
      (lone_operand (
        literal_word one (record { no_paren = refl; no_negation = refl; no_not = refl }) refl refl))
      refl

parse_binary_tree-Written_example :
    parse_binary_tree 9 0 (at_start (name_a ∷ equals ∷ one ∷ end ∷ []))
    ≡ returned equation (skip 3 (at_start (name_a ∷ equals ∷ one ∷ end ∷ [])))
unfolding next_operator is_type type_code
parse_binary_tree-Written_example =
    parse_binary_tree-Written 9 end [] _ equation-Written (λ q. refl) (omega arith)
      (record { rest = refl; within = omega arith })

-- `a INTEGER NOT NULL,`
abbrev column_tokens : List SqlToken
column_tokens =
    name_a
    ∷ word keyword (keyword_detail integer_kw) b'i'
    ∷ word keyword (keyword_detail not_kw) b'n'
    ∷ word keyword (keyword_detail null_kw) b'n'
    ∷ word symbol (symbol_detail comma) b','
    ∷ []

abbrev column : ColumnDefinition
column = record {
  name = name_a;
  type = word keyword (keyword_detail integer_kw) b'i';
  constraints = word keyword (keyword_detail null_kw) b'n' ∷ [];
}

parse_column_def-constraints_example : All IsNullWord column.constraints
unfolding parse_constraints at_column_end is_refused is_constraint is_data_type skip
    parse_column_def match_type match_symbol match_or_throw advance advance_or_throw current after
    is_type type_code is_symbol symbol_code is_keyword keyword_code
parse_column_def-constraints_example =
    parse_column_def-constraints 9 (at_start column_tokens) (skip 4 (at_start column_tokens)) column
      (omega arith) refl
