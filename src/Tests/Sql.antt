-- ===== src/Tests/Sql.antt =====
-- Short queries through the lexer.
use deltabase_c.Prelude.{ℕ, List, ◌∷◌, [], ◌≡◌, ◌≢◌, refl, arith}
use deltabase_c.Sql.Dictionary.{operators_map, symbol_of}
use deltabase_c.Sql.Lexer.{
  isspace, isalpha, isdigit, starts_as_operator, has_first, lex_from, still_running, threw,
}
use deltabase_c.Sql.Lexer.Ends.{lex_from-ends, is_symbol}
use deltabase_c.Sql.Lexer.Stuck.{lex_from-stuck, lex_from-short_operator}

-- `a >1;`
abbrev comparison : List ℕ
comparison = b'a' ∷ b' ' ∷ b'>' ∷ b'1' ∷ b';' ∷ []

lex_from-ends_example : lex_from 5 1 0 comparison ≢ still_running
unfolding isspace isalpha isdigit starts_as_operator has_first operators_map is_symbol symbol_of
lex_from-ends_example =
    lex_from-ends 5 1 0 comparison (omega arith) (refl, (refl, (refl, (refl, (refl, tt)))))

lex_from-stuck_example : lex_from 100 1 0 (b'#' ∷ b'a' ∷ []) ≡ still_running
unfolding isspace isalpha isdigit starts_as_operator has_first operators_map is_symbol symbol_of
lex_from-stuck_example = lex_from-stuck 100 1 0 b'#' (b'a' ∷ []) refl

lex_from-short_operator_example : lex_from 9 1 8 (b'>' ∷ b'1' ∷ []) ≡ threw
unfolding isspace isalpha isdigit starts_as_operator has_first operators_map is_symbol symbol_of
lex_from-short_operator_example =
    lex_from-short_operator 8 1 8 b'>' (b'1' ∷ []) refl refl refl refl refl refl (omega arith)
