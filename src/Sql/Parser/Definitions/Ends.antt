-- ===== src/Sql/Parser/Definitions/Ends.antt =====
-- CREATE, DROP and ALTER end.
use deltabase_c.Prelude.{ℕ, zero, suc, ◌+◌, ◌≤◌, List, [], length, arith, ◌⊎◌, inl, inr}
use deltabase_c.Sql.Dictionary.{SqlToken}
use deltabase_c.Sql.Ast.{ColumnDefinition, AddColumnOperation}
use deltabase_c.Sql.Parser.Cursor.{SqlParser, match_type, match_symbol, match_keyword}
use deltabase_c.Sql.Parser.Cursor.Triples.{
  Ensures, From, From-le, From-self, then_do, on_step, on_advance_or_throw, on_current, on_holds,
  on_match_or_throw, token_at,
}
use deltabase_c.Sql.Parser.Columns.Ends.{parse_table_identifier_ends, parse_column_def_ends}
use deltabase_c.Sql.Parser.Definitions.{
  table_columns, column_list, parse_create_table, no_operation, alter_operations, parse_alter_table,
  parse_create_db, parse_create_schema, unique_word, parse_create_index, parse_drop_index,
}

module _ (R : Type 0) {ts : List SqlToken} where
  table_columns_ends :
      (rounds n : ℕ) (columns : List ColumnDefinition) (start : ℕ) (p : SqlParser)
      → From ts start p
      → length ts ≤ rounds + p.current
      → length ts ≤ n
      → Ensures R (λ _ q. From ts start q) (table_columns rounds n columns p)
  unfolding table_columns match_symbol
  table_columns_ends zero n columns start p s l e = absurd (omega (arith, s.within))
  table_columns_ends (suc rounds) n columns start p s l e =
      then_do R _ _ _ (parse_column_def_ends R n (From-self s) (inr (omega arith))) (λ def q c.
        on_holds R _ _ c.behind
          (λ _ _ _.
            on_step R _ c.behind (λ _ r u. record { out = From-le (omega (arith, s.from)) u }))
          (λ _ _ _. on_step R _ c.behind (λ _ r u.
            table_columns_ends rounds n _ start r (From-le (omega (arith, s.from)) u)
              (omega (arith, u.from)) e)))

  column_list_ends :
      (n : ℕ) {c : ℕ} {p : SqlParser}
      → length ts ≤ n
      → From ts c p
      → Ensures R (λ _ q. From ts c q) (column_list n p)
  unfolding column_list match_symbol
  column_list_ends n {c} {p} e s =
      on_holds R _ _ s
        (λ _ _ _.
          on_advance_or_throw R _ s
            (λ q _ u. table_columns_ends n n [] c q (From-le (omega arith) u) (omega arith) e))
        (λ _ _ _. record { out = s })

  pub parse_create_table_ends :
      (n : ℕ) {c : ℕ} {p : SqlParser}
      → length ts ≤ n
      → From ts c p
      → Ensures R (λ _ q. From ts c q) (parse_create_table n p)
  unfolding parse_create_table match_keyword
  parse_create_table_ends n e s = on_match_or_throw R _ _ s (λ _ _ _.
      on_advance_or_throw R _ s (λ q _ u.
        then_do R _ _ _ (parse_table_identifier_ends R u) (λ table r v.
          then_do R _ _ _ (column_list_ends n e v)
            (λ columns x w. record { out = From-le (omega arith) w }))))

  -- At a token the loop over operations goes on with ADD COLUMN, or throws.
  alter_operations_throws :
      (rounds n : ℕ) (operations : List AddColumnOperation) (p : SqlParser)
      → From ts p.current p
      → R ⊎ ((length ts ≤ rounds + p.current) × (length ts ≤ n))
      → Ensures R (λ _ q. ⊥) (alter_operations rounds n operations p)
  unfolding alter_operations match_keyword
  alter_operations_throws zero n operations p s (inl x) = record { out = x }
  alter_operations_throws zero n operations p s (inr (l, e)) = absurd (omega (arith, s.within))
  alter_operations_throws (suc rounds) n operations p s l =
      on_holds R _ _ s
        (λ _ _ _. on_advance_or_throw R _ s (λ q m u.
          on_holds R _ _ u
            (λ _ _ _. on_advance_or_throw R _ u (λ r m' v.
              then_do R _ _ _
                (parse_column_def_ends R n (From-self v)
                  (elim l [ inl x ↦ inl x | inr (a, b) ↦ inr (omega arith) ]))
                (λ def x c.
                  alter_operations_throws rounds n _ x (From-self c.behind) (elim l [
                    | inl y ↦ inl y
                    | inr (a, b) ↦ inr (omega (arith, c.behind.from), b)
                  ]))))
            (λ _ _ _. record { out = tt })))
        (λ _ _ _. no_operation_throws)
    where
      no_operation_throws : Ensures R (λ _ q. ⊥) (no_operation operations p)
      no_operation_throws = let (t, e) = token_at s in rw (e, no_operation) (record { out = tt })

  -- No ALTER TABLE is parsed.
  pub parse_alter_table_throws :
      (n : ℕ) {c : ℕ} {p : SqlParser}
      → From ts c p
      → R ⊎ (length ts ≤ n)
      → Ensures R (λ _ q. ⊥) (parse_alter_table n p)
  unfolding parse_alter_table match_keyword
  parse_alter_table_throws n s e = on_match_or_throw R _ _ s (λ _ _ _.
      on_advance_or_throw R _ s (λ q _ u.
        then_do R _ _ _ (parse_table_identifier_ends R u) (λ table r v.
          on_advance_or_throw R _ v (λ x _ w.
            then_do R _ _ _
              (alter_operations_throws n n [] x (From-self w)
                (elim e [ inl y ↦ inl y | inr a ↦ inr (omega arith, a) ]))
              (λ _ _ no_value. absurd no_value)))))

  pub parse_create_db_ends :
      {c : ℕ} {p : SqlParser} → From ts c p → Ensures R (λ _ q. From ts c q) (parse_create_db p)
  unfolding parse_create_db match_keyword
  parse_create_db_ends s = on_match_or_throw R _ _ s (λ _ _ _.
      on_advance_or_throw R _ s
        (λ q _ u. on_current R _ u (λ _ _. record { out = From-le (omega arith) u })))

  pub parse_create_schema_ends :
      {c : ℕ} {p : SqlParser} → From ts c p → Ensures R (λ _ q. From ts c q) (parse_create_schema p)
  unfolding parse_create_schema match_keyword
  parse_create_schema_ends s = on_match_or_throw R _ _ s (λ _ _ _.
      on_advance_or_throw R _ s
        (λ q _ u. on_current R _ u (λ _ _. record { out = From-le (omega arith) u })))

  unique_word_ends :
      {c : ℕ} {p : SqlParser} → From ts c p → Ensures R (λ _ q. From ts c q) (unique_word p)
  unfolding unique_word match_keyword
  unique_word_ends s =
      on_holds R _ _ s
        (λ _ _ _. on_advance_or_throw R _ s (λ q _ u. record { out = From-le (omega arith) u }))
        (λ _ _ _. record { out = s })

  pub parse_create_index_ends :
      {c : ℕ} {p : SqlParser} → From ts c p → Ensures R (λ _ q. From ts c q) (parse_create_index p)
  unfolding parse_create_index match_keyword match_symbol match_type
  parse_create_index_ends s = then_do R _ _ _ (unique_word_ends s) (λ _ q t.
      on_match_or_throw R _ _ t (λ _ _ _. on_advance_or_throw R _ t (λ r _ u.
        on_match_or_throw R _ _ u (λ _ _ _. on_current R _ u (λ _ _.
          on_advance_or_throw R _ u (λ x _ v. on_match_or_throw R _ _ v (λ _ _ _.
            on_advance_or_throw R _ v (λ y _ w.
              then_do R _ _ _ (parse_table_identifier_ends R w) (λ table z a.
                on_match_or_throw R _ _ a (λ _ _ _. on_advance_or_throw R _ a (λ z' _ b.
                  on_match_or_throw R _ _ b (λ _ _ _. on_current R _ b (λ _ _.
                    on_advance_or_throw R _ b (λ z'' _ d.
                      on_match_or_throw R _ _ d
                        (λ _ _ _. record { out = From-le (omega arith) d })))))))))))))))

  pub parse_drop_index_ends :
      {c : ℕ} {p : SqlParser} → From ts c p → Ensures R (λ _ q. From ts c q) (parse_drop_index p)
  unfolding parse_drop_index match_keyword match_type
  parse_drop_index_ends s = on_match_or_throw R _ _ s (λ _ _ _. on_advance_or_throw R _ s (λ q _ u.
      on_match_or_throw R _ _ u (λ _ _ _. on_current R _ u (λ _ _.
        on_advance_or_throw R _ u (λ r _ v. on_match_or_throw R _ _ v (λ _ _ _.
          on_advance_or_throw R _ v (λ x _ w.
            then_do R _ _ _ (parse_table_identifier_ends R w)
              (λ table y a. record { out = From-le (omega arith) a }))))))))
