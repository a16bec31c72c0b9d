-- ===== src/Sql/Parser/Total.antt =====
-- `parse` as a whole: it ends, and reads through no null pointer.
use deltabase_c.Prelude.{
  ℕ, ◌+◌, ◌*◌, ◌≤◌, ◌<◌, ◌≡◌, ◌≢◌, refl, List, [], ◌∷◌, Bool, true, false, ◌||◌, length, arith, ◌⊎◌,
  inl, inr,
}
use deltabase_c.Sql.Dictionary.{SqlToken, SqlKeyword}
use deltabase_c.Sql.Ast.{Statement}
use deltabase_c.Sql.Parser.Cursor.{
  SqlParser, Parse, Outcome, returned, threw, null_pointer, still_running, invalid_statement_syntax,
  after, match_keyword,
}
use deltabase_c.Sql.Parser.Cursor.Triples.{Ensures, From, From-le, then_do, on_advance, on_holds}
use deltabase_c.Sql.Parser.Expressions.{parse_binary_expr}
use deltabase_c.Sql.Parser.Expressions.Ends.{parse_binary_expr_ends}
use deltabase_c.Sql.Parser.Expressions.Operands.{IsClosed}
use deltabase_c.Sql.Parser.Queries.Ends.{
  parse_select_ends, parse_insert_ends, parse_update_ends, parse_delete_ends,
}
use deltabase_c.Sql.Parser.Definitions.Ends.{
  parse_create_table_ends, parse_alter_table_throws, parse_create_db_ends, parse_create_schema_ends,
  parse_create_index_ends, parse_drop_index_ends,
}
use deltabase_c.Sql.Parser.{
  is_trailing_sequence_valid, on_keyword, next_word, parse_create, parse_drop, parse_alter,
  parse_statement, check_end, make_parser, parse_all, parse,
}

module _ (R : Type 0) (ts : List SqlToken) where
  abbrev Behind : {A : Type 0} → A → SqlParser → Type 0
  Behind _ q = From ts 0 q

  on_keyword_ends :
      (k : SqlKeyword) (branch other : Parse Statement) (p : SqlParser)
      → From ts 0 p
      → Ensures R Behind (branch p)
      → Ensures R Behind (other p)
      → Ensures R Behind (on_keyword k branch other p)
  unfolding on_keyword match_keyword
  on_keyword_ends k branch other p s h l = on_holds R _ _ s (λ _ _ _. h) (λ _ _ _. l)

  on_next_word :
      (f : Bool → Parse Statement) (p : SqlParser)
      → From ts 0 p
      → ((q : SqlParser) → From ts 0 q → Ensures R Behind (f true q))
      → Ensures R Behind (after (next_word p) f)
  unfolding next_word
  on_next_word f p s k =
      then_do R (λ b q. (b ≡ true) × From ts 0 q) f _
        (on_advance R _ s (λ q _ u. record { out = (refl, From-le (omega arith) u) })
          (λ _. record { out = tt }))
        (λ b q h. rw h.0 (k q h.1))

  wrap :
      {A : Type 0} (f : A → Statement) (o : Outcome A)
      → Ensures R Behind o
      → Ensures R Behind (after o (λ a q. returned (f a) q))
  wrap f o h = then_do R Behind _ o h (λ a q u. record { out = u })

  module _ (n : ℕ) (enough : 3 * length ts + 2 ≤ n) where
    parse_create_ends : (p : SqlParser) → From ts 0 p → Ensures R Behind (parse_create n p)
    unfolding parse_create
    parse_create_ends p s = on_next_word _ p s (λ q u.
        on_keyword_ends _ _ _ q u (wrap _ _ (parse_create_table_ends R n (omega arith) u)) (
          on_keyword_ends _ _ _ q u (wrap _ _ (parse_create_db_ends R u)) (
            on_keyword_ends _ _ _ q u (wrap _ _ (parse_create_schema_ends R u)) (
              on_keyword_ends _ _ _ q u (wrap _ _ (parse_create_index_ends R u)) (
                on_keyword_ends _ _ _ q u (wrap _ _ (parse_create_index_ends R u))
                  (record { out = tt }))))))

    parse_drop_ends : (p : SqlParser) → From ts 0 p → Ensures R Behind (parse_drop p)
    unfolding parse_drop
    parse_drop_ends p s = on_next_word _ p s (λ q u.
        on_keyword_ends _ _ _ q u (wrap _ _ (parse_drop_index_ends R u)) (record { out = tt }))

    parse_alter_ends : (p : SqlParser) → From ts 0 p → Ensures R Behind (parse_alter n p)
    unfolding parse_alter
    parse_alter_ends p s = on_next_word _ p s (λ q u.
        on_keyword_ends _ _ _ q u
          (then_do R _ _ _ (parse_alter_table_throws R n u (inr (omega arith)))
            (λ _ _ no_value. absurd no_value))
          (record { out = tt }))

    parse_statement_ends :
        R ⊎ IsClosed ts → (p : SqlParser) → From ts 0 p → Ensures R Behind (parse_statement n p)
    unfolding parse_statement
    parse_statement_ends closed p s =
        let expr : (q : SqlParser)
            → From ts q.current q
            → Ensures R (λ _ r. From ts q.current r) (parse_binary_expr n 0 q) =
          λ q u.
            parse_binary_expr_ends n R ts 0 q u
              (elim closed [ inl x ↦ inl x | inr c ↦ inr (c, omega arith) ]) in
        on_keyword_ends _ _ _ p s (wrap _ _ (parse_select_ends R n expr (omega arith) s)) (
          on_keyword_ends _ _ _ p s (wrap _ _ (parse_insert_ends R n expr (omega arith) s)) (
            on_keyword_ends _ _ _ p s (wrap _ _ (parse_update_ends R n expr (omega arith) s)) (
              on_keyword_ends _ _ _ p s (wrap _ _ (parse_delete_ends R n expr (omega arith) s)) (
                on_keyword_ends _ _ _ p s (parse_create_ends p s) (
                  on_keyword_ends _ _ _ p s (parse_drop_ends p s)
                    (on_keyword_ends _ _ _ p s (parse_alter_ends p s) (record { out = tt })))))))

    check_end_ends : (a : Statement) (p : SqlParser) → Ensures R (λ _ _. Unit {0}) (check_end a p)
    unfolding check_end
    check_end_ends a p =
        elim (is_trailing_sequence_valid p.tokens p.current
            || is_trailing_sequence_valid p.tokens (p.current + 1))
          as (λ b.
            Ensures R (λ _ _. Unit {0})
              (elim b [ true ↦ returned a p | false ↦ threw invalid_statement_syntax ])) [
                | true ↦ record { out = tt }
                | false ↦ record { out = tt }
              ]

    parse_ends : R ⊎ IsClosed ts → 0 < length ts → Ensures R (λ _ _. Unit {0}) (parse n ts)
    unfolding parse parse_all make_parser
    parse_ends closed some_token =
        then_do R Behind _ _
          (parse_statement_ends closed (make_parser ts)
            (record { same = refl; from = omega arith; within = some_token }))
          (λ a p _. check_end_ends a p)

parse-nil : (n : ℕ) → parse n [] ≡ threw invalid_statement_syntax
unfolding parse parse_all parse_statement on_keyword match_keyword make_parser after
parse-nil n = refl

not_null : (o : Outcome Statement) → Ensures (Unit {0}) (λ _ _. Unit {0}) o → o ≢ null_pointer
not_null null_pointer h f = h.out
not_null o h f = cc

not_running : (o : Outcome Statement) → Ensures ⊥ (λ _ _. Unit {0}) o → o ≢ still_running
not_running still_running h f = h.out
not_running o h f = cc

-- With three calls for each token and two more, `parse` reads through no null pointer.
pub parse-null_pointer :
    (n : ℕ) (ts : List SqlToken) → 3 * length ts + 2 ≤ n → parse n ts ≢ null_pointer
parse-null_pointer n [] e = λ f. cc (parse-nil n)
parse-null_pointer n (t ∷ ts) e =
    not_null (parse n (t ∷ ts)) (parse_ends (Unit {0}) (t ∷ ts) n e (inl tt) (omega arith))

-- With as many calls `parse` returns or throws, where the last token opens no operand.
pub parse-IsClosed :
    (n : ℕ) (ts : List SqlToken) → 3 * length ts + 2 ≤ n → IsClosed ts → parse n ts ≢ still_running
parse-IsClosed n [] e c = λ f. cc (parse-nil n)
parse-IsClosed n (t ∷ ts) e c =
    not_running (parse n (t ∷ ts)) (parse_ends ⊥ (t ∷ ts) n e (inr c) (omega arith))
