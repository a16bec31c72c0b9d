-- ===== src/Sql/Parser/Refusals.antt =====
-- What `parse` refuses, or drops, or never ends on.
pub mod Alter
use deltabase_c.Prelude.{
  ℕ, zero, suc, ◌≤◌, ◌<◌, ◌≡◌, ◌∙◌, refl, List, [], ◌∷◌, ◌++◌, true, false, ◌==◌, length, All,
  arith, inl, inr,
}
use deltabase_c.Sql.Dictionary.{
  SqlToken, SqlTokenDetail, SqlKeyword, keyword_code, keyword_detail, monostate, operator_detail,
  symbol_detail, literal_detail, alter_kw, select_kw, insert_kw, update_kw, delete_kw, create_kw,
  drop_kw, from_kw, identifier, comma, mul_so, lparen,
}
use deltabase_c.Sql.Ast.{Statement, ColumnDefinition}
use deltabase_c.Sql.Parser.Cursor.{
  SqlParser, Parse, Outcome, returned, threw, null_pointer, still_running, Exception,
  invalid_statement_syntax, after, advance_or_throw, current, is_keyword, is_type, is_symbol,
  is_operator, match_keyword, match_symbol, match_type, match_operator, match_or_throw,
}
use deltabase_c.Sql.Parser.Cursor.Triples.{Ensures, From, From-le, then_do, on_advance, on_holds}
use deltabase_c.Sql.Parser.Cursor.Ahead.{
  Ahead, token-Ahead, advance-Ahead, advance-last, skip, Ahead-skip,
}
use deltabase_c.Sql.Parser.Expressions.{
  primary_step, parse_primary, parse_binary_expr, parse_binary_tree,
}
use deltabase_c.Sql.Parser.Columns.{parse_column_def}
use deltabase_c.Sql.Parser.Columns.Ends.{IsNullWord, parse_column_def_ends}
use deltabase_c.Sql.Parser.Definitions.Ends.{parse_alter_table_throws}
use deltabase_c.Sql.Parser.Queries.{parse_select, select_list, select_columns, at_comma}
use deltabase_c.Sql.Parser.{
  on_keyword, next_word, parse_alter, parse_statement, make_parser, parse_all, parse,
}
use deltabase_c.Sql.Parser.Refusals.Alter.{
  other_keyword, not_keyword, is_the_keyword, parse_alter_throws, thrown, alter_statement,
  parse-alter_throws,
}

-- The constraints of a column that is read are words NULL, whatever words stand there.
pub parse_column_def-constraints :
    (n : ℕ) (p q : SqlParser) (def : ColumnDefinition)
    → p.current < length p.tokens
    → parse_column_def n p ≡ returned def q
    → All IsNullWord def.constraints
parse_column_def-constraints n p q def l e =
    let s : From p.tokens p.current p = record { same = refl; from = omega arith; within = l } in
    let h = parse_column_def_ends (Unit {0}) n s (inl tt) in
    let h' = rw e at h in h'.out.constraints

keyword_no_comma :
    (k : SqlKeyword) (d : SqlTokenDetail) → is_keyword k d ≡ true → is_symbol comma d ≡ false
unfolding is_keyword is_symbol
keyword_no_comma k (keyword_detail x) h = refl
keyword_no_comma k monostate h = refl
keyword_no_comma k (operator_detail x) h = refl
keyword_no_comma k (symbol_detail x) h = cc
keyword_no_comma k (literal_detail x) h = refl

-- Columns, each but the first with the comma before it.
abbrev pub columns_of : SqlToken → List (SqlToken × SqlToken) → List SqlToken
columns_of c [] = c ∷ []
columns_of c ((k, d) ∷ cs) = c ∷ k ∷ columns_of d cs

abbrev pub AreColumns : SqlToken → List (SqlToken × SqlToken) → Type 0
AreColumns c cs =
    (is_type identifier c ≡ true)
    × All (λ (k, d). (is_symbol comma k.detail ≡ true) × (is_type identifier d ≡ true)) cs

module _ (f d : SqlToken) (rest : List SqlToken)
    (from_here : is_keyword from_kw f.detail ≡ true) where
  select_columns_stops :
      (n : ℕ) (c : SqlToken) (cs : List (SqlToken × SqlToken)) (before : SqlToken)
      (read : List SqlToken) (p : SqlParser)
      → length cs < n
      → AreColumns c cs
      → Ahead p (before ∷ columns_of c cs ++ f ∷ d ∷ rest)
      → (columns : List SqlToken) × ((q : SqlParser) × (select_columns n read p
            ≡ returned columns q)
          × Ahead q (f ∷ d ∷ rest))
  unfolding select_columns at_comma advance_or_throw match_type match_symbol current after
  select_columns_stops zero c cs before read p l h a = absurd (omega arith)
  select_columns_stops (suc n) c [] before read p l h a =
      let b : Ahead (skip 1 p) (c ∷ f ∷ d ∷ rest) = Ahead-skip (before ∷ []) a in
      let e : Ahead (skip 1 (skip 1 p)) (f ∷ d ∷ rest) = Ahead-skip (c ∷ []) b in
      (
        read ++ c ∷ [],
        (
          skip 1 (skip 1 p),
          ground (
            arith,
            advance-Ahead a,
            token-Ahead b,
            advance-Ahead b,
            token-Ahead e,
            keyword_no_comma from_kw f.detail from_here,
          ),
          e,
        ),
      )
  select_columns_stops (suc n) c ((k, x) ∷ cs) before read p l h a =
      let b : Ahead (skip 1 p) (c ∷ k ∷ (columns_of x cs ++ f ∷ d ∷ rest)) =
        Ahead-skip (before ∷ []) a in
      let e : Ahead (skip 1 (skip 1 p)) (k ∷ (columns_of x cs ++ f ∷ d ∷ rest)) =
        Ahead-skip (c ∷ []) b in
      let step : select_columns (suc n) read p
          ≡ select_columns n (read ++ c ∷ []) (skip 1 (skip 1 p)) =
        ground (arith, advance-Ahead a, token-Ahead b, advance-Ahead b, token-Ahead e) in
      let (columns, (q, g, behind)) =
        select_columns_stops n x cs k (read ++ c ∷ []) (skip 1 (skip 1 p)) (omega arith)
          (h.1.0.1, h.1.1) e in
      (columns, (q, step ∙ g, behind))

  select_list_stops :
      (n : ℕ) (c : SqlToken) (cs : List (SqlToken × SqlToken)) (s : SqlToken) (p : SqlParser)
      → length cs < n
      → AreColumns c cs
      → is_operator mul_so s.detail ≡ false
      → Ahead p (s ∷ columns_of c cs ++ f ∷ d ∷ rest)
      → (columns : List SqlToken) × ((q : SqlParser) × (select_list n p ≡ returned columns q)
          × Ahead q (f ∷ d ∷ rest))
  unfolding select_list match_operator after
  select_list_stops n c cs s p l h no_star a =
      let (columns, (q, g, behind)) = select_columns_stops n c cs s [] p l h a in
      (columns, (q, ground (arith, token-Ahead a), behind))

  -- SELECT with columns: the word FROM right behind them is stepped over before it is looked for, so
  -- that the statement is refused, whatever follows.
  pub parse_select-columns :
      (n : ℕ) (c : SqlToken) (cs : List (SqlToken × SqlToken)) (s : SqlToken) (p : SqlParser)
      → length cs < n
      → AreColumns c cs
      → is_operator mul_so s.detail ≡ false
      → is_keyword from_kw d.detail ≡ false
      → Ahead p (s ∷ columns_of c cs ++ f ∷ d ∷ rest)
      → parse_select n p ≡ threw invalid_statement_syntax
  unfolding parse_select advance_or_throw match_or_throw match_keyword after
  parse_select-columns n c cs s p l h no_star no_from a =
      let (columns, (q, g, behind)) = select_list_stops n c cs s p l h no_star a in
      rw (g, after) (ground (arith, advance-Ahead behind, token-Ahead (Ahead-skip (f ∷ []) behind)))

-- A `(` as the last token: the parser stays at it and opens it again, at any depth.
mutual
  unfolding parse_primary primary_step match_symbol current after

  parse_primary_stuck :
      (n : ℕ) (t : SqlToken) (p : SqlParser)
      → is_symbol lparen t.detail ≡ true
      → Ahead p (t ∷ [])
      → parse_primary n p ≡ still_running
  parse_primary_stuck zero t p h a = refl
  parse_primary_stuck (suc n) t p h a =
      ground (arith, token-Ahead a, advance-last a, parse_binary_expr_stuck n 0 t p h a)

  parse_binary_expr_stuck :
      (n m : ℕ) (t : SqlToken) (p : SqlParser)
      → is_symbol lparen t.detail ≡ true
      → Ahead p (t ∷ [])
      → parse_binary_expr n m p ≡ still_running
  parse_binary_expr_stuck zero m t p h a = refl
  parse_binary_expr_stuck (suc n) m t p h a = ground (arith, parse_binary_tree_stuck n m t p h a)

  parse_binary_tree_stuck :
      (n m : ℕ) (t : SqlToken) (p : SqlParser)
      → is_symbol lparen t.detail ≡ true
      → Ahead p (t ∷ [])
      → parse_binary_tree n m p ≡ still_running
  parse_binary_tree_stuck zero m t p h a = refl
  parse_binary_tree_stuck (suc n) m t p h a = ground (arith, parse_primary_stuck n t p h a)

-- An expression that is a `(` and nothing more: no number of calls is enough.
pub parse_binary_expr-open_paren :
    (n min_priority : ℕ) (t : SqlToken) (p : SqlParser)
    → is_symbol lparen t.detail ≡ true
    → Ahead p (t ∷ [])
    → parse_binary_expr n min_priority p ≡ still_running
parse_binary_expr-open_paren n min_priority t p h a = parse_binary_expr_stuck n min_priority t p h a
