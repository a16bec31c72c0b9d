-- ===== src/Sql/Parser/Queries/Ends.antt =====
-- SELECT, INSERT, UPDATE and DELETE end, where the expression parser does.
use deltabase_c.Prelude.{
  ℕ, zero, suc, ◌+◌, ◌≤◌, ◌≡◌, refl, List, [], Option, Bool, true, false, length, arith,
}
use deltabase_c.Evaluator.{AstOperator, assign}
use deltabase_c.Sql.Dictionary.{SqlToken}
use deltabase_c.Sql.Ast.{BinaryExpr}
use deltabase_c.Sql.Parser.Cursor.{
  Outcome, threw, null_pointer, still_running, SqlParser, Parse, returned, after, advance,
  advance_or_throw, step_back, match_type, match_symbol, match_keyword, match_operator,
}
use deltabase_c.Sql.Parser.Cursor.Triples.{
  holds_stays, Ensures, From, From-le, From-self, then_do, on_advance, on_step, on_advance_or_throw,
  on_current, on_holds, on_match_or_throw,
}
use deltabase_c.Sql.Parser.Expressions.{parse_binary_expr}
use deltabase_c.Sql.Parser.Columns.Ends.{parse_table_identifier_ends}
use deltabase_c.Sql.Parser.Queries.{
  insert_list, select_list, at_comma, select_columns, parse_where, parse_select, insert_columns,
  insert_values, parse_insert, check_assignment, operator_of_expr, update_assignments, parse_update,
  parse_delete,
}

check_assignment_stays :
    (R : Type 0) (op : AstOperator) (p : SqlParser)
    → Ensures R (λ _ q. q ≡ p) (check_assignment op p)
unfolding check_assignment
check_assignment_stays R assign p = record { out = refl }
check_assignment_stays R op p = record { out = tt }

From_same :
    (R : Type 0) {ts : List SqlToken} {c : ℕ} {q : SqlParser} {A : Type 0}
    → From ts c q
    → (o : Outcome A) → Ensures R (λ _ r. r ≡ q) o
    → Ensures R (λ _ r. From ts c r) o
From_same R s (returned a r) u = record { out = rw u.out s }
From_same R s (threw e) u = record { out = tt }
From_same R s null_pointer u = absurd u.out
From_same R s still_running u = record { out = u.out }

module _ (R : Type 0) {ts : List SqlToken} where
  on_comma :
      {B : Type 0} {Q : B → SqlParser → Type 0} (f : Bool → Parse B) {c : ℕ} {p : SqlParser}
      → From ts c p
      → ((q : SqlParser) → From ts c q → Ensures R Q (f true q))
      → ((q : SqlParser) → From ts c q → Ensures R Q (f false q))
      → Ensures R Q (after (at_comma p) f)
  unfolding at_comma match_symbol
  on_comma {B} {Q} f {c} {p} s k l =
      then_do R (λ b q. From ts c q) f _
        (on_advance R _ s (λ q _ u. From_same R (From-le (omega arith) u) _ (holds_stays R _ q))
          (λ _. record { out = s }))
        (λ b q u. either b q u)
    where
      either : (b : Bool) (q : SqlParser) → From ts c q → Ensures R Q (f b q)
      either true q u = k q u
      either false q u = l q u

  -- A step back from behind a token.
  on_step_back :
      {B : Type 0} {Q : B → SqlParser → Type 0} (f : Bool → Parse B) {c : ℕ} {p : SqlParser}
      → From ts (suc c) p
      → ((q : SqlParser) → From ts c q → Ensures R Q (f true q))
      → Ensures R Q (after (step_back p) f)
  unfolding step_back after
  on_step_back f {c} {p} s k =
      k _ (record { same = s.same; from = omega (arith, s.from); within = omega (arith, s.within) })

  select_columns_ends :
      (n : ℕ) (columns : List SqlToken) (start : ℕ) (p : SqlParser)
      → From ts start p
      → length ts ≤ n + p.current
      → Ensures R (λ _ q. From ts start q) (select_columns n columns p)
  unfolding select_columns match_type
  select_columns_ends zero columns start p s l = absurd (omega (arith, s.within))
  select_columns_ends (suc n) columns start p s l = on_advance_or_throw R _ s (λ q m u.
      let back : (r : SqlParser) → From ts q.current r → From ts start r =
        λ r v. From-le (omega (arith, u.from)) v in
      on_holds R _ _ u
        (λ _ _ _. on_current R _ u (λ t _.
          on_comma _ (From-self u)
            (λ r v. select_columns_ends n _ start r (back r v) (omega (arith, v.from)))
            (λ r v. record { out = back r v })))
        (λ _ _ _. record { out = From-le (omega arith) u }))

  insert_columns_ends :
      (n : ℕ) (columns : List SqlToken) (start : ℕ) (p : SqlParser)
      → From ts start p
      → length ts ≤ n + p.current
      → Ensures R (λ _ q. From ts start q) (insert_columns n columns p)
  unfolding insert_columns match_type
  insert_columns_ends zero columns start p s l = absurd (omega (arith, s.within))
  insert_columns_ends (suc n) columns start p s l = on_advance_or_throw R _ s (λ q m u.
      on_holds R _ _ u
        (λ _ _ _. on_current R _ u (λ t _.
          on_comma _ (From-self u)
            (λ r v.
              insert_columns_ends n _ start r (From-le (omega (arith, u.from)) v)
                (omega (arith, v.from)))
            (λ r v.
              on_step_back _ (From-le (omega (arith, u.from)) v) (λ x w. record { out = w }))))
        (λ _ _ _. record { out = From-le (omega arith) u }))

  insert_values_ends :
      (n : ℕ) (values : List SqlToken) (start : ℕ) (p : SqlParser)
      → From ts start p
      → length ts ≤ n + p.current
      → Ensures R (λ _ q. From ts start q) (insert_values n values p)
  unfolding insert_values match_type
  insert_values_ends zero values start p s l = absurd (omega (arith, s.within))
  insert_values_ends (suc n) values start p s l = on_advance_or_throw R _ s (λ q m u.
      on_match_or_throw R _ _ u (λ _ _ _. on_current R _ u (λ t _.
        on_comma _ (From-self u)
          (λ r v.
            insert_values_ends n _ start r (From-le (omega (arith, u.from)) v)
              (omega (arith, v.from)))
          (λ r v. on_step_back _ (From-le (omega (arith, u.from)) v) (λ x w. record { out = w })))))

  select_list_ends :
      (n : ℕ) {c : ℕ} {p : SqlParser}
      → length ts ≤ n
      → From ts c p
      → Ensures R (λ _ q. From ts c q) (select_list n p)
  unfolding select_list match_operator
  select_list_ends n {c} {p} enough s =
      on_holds R _ _ s (λ _ _ _. on_step R _ s (λ _ q u. record { out = u }))
        (λ _ _ _. select_columns_ends n [] c p s (omega arith))

  insert_list_ends :
      (n : ℕ) {c : ℕ} {p : SqlParser}
      → length ts ≤ n
      → From ts c p
      → Ensures R (λ _ q. From ts c q) (insert_list n p)
  unfolding insert_list match_operator
  insert_list_ends n {c} {p} enough s =
      on_holds R _ _ s
        (λ _ _ _. on_advance_or_throw R _ s (λ q _ u. record { out = From-le (omega arith) u }))
        (λ _ _ _. insert_columns_ends n [] c p s (omega arith))

  -- What an expression needs of the fuel `n`.
  module _ (n : ℕ)
      (expr_ends : (p : SqlParser)
        → From ts p.current p
        → Ensures R (λ _ q. From ts p.current q) (parse_binary_expr n 0 p)) where
    on_expr :
        {B : Type 0} {Q : B → SqlParser → Type 0} (f : BinaryExpr → Parse B) {c : ℕ} {p : SqlParser}
        → From ts c p
        → ((e : BinaryExpr) (q : SqlParser)
            → From ts p.current q
            → From ts c q
            → Ensures R Q (f e q))
        → Ensures R Q (after (parse_binary_expr n 0 p) f)
    on_expr f {c} {p} s k =
        then_do R _ f _ (expr_ends p (From-self s)) (λ e q u. k e q u (From-le s.from u))

    update_assignments_ends :
        (rounds : ℕ) (assignments : List BinaryExpr) (start : ℕ) (p : SqlParser)
        → From ts start p
        → length ts ≤ rounds + p.current
        → Ensures R (λ _ q. From ts start q) (update_assignments rounds n assignments p)
    unfolding update_assignments match_symbol
    update_assignments_ends zero assignments start p s l = absurd (omega (arith, s.within))
    update_assignments_ends (suc rounds) assignments start p s l =
        on_advance_or_throw R _ s (λ q m u. on_expr _ u (λ e r v w.
          then_do R _ _ _ (check_assignment_stays R (operator_of_expr e) r) (λ _ x same. rw same (
            on_holds R _ _ w
              (λ _ _ _.
                update_assignments_ends rounds _ start r (From-le (omega arith) w)
                  (omega (arith, v.from)))
              (λ _ _ _. record { out = From-le (omega arith) w })))))

    -- A WHERE, whose word is stepped over one way or the other.
    parse_where_ends :
        {c : ℕ} {p : SqlParser} (step : Parse Bool)
        → From ts c p
        → ((f : Bool → Parse (Option BinaryExpr))
            → ((b : Bool) (q : SqlParser) → From ts c q → Ensures R (λ _ r. From ts c r) (f b q))
            → Ensures R (λ _ r. From ts c r) (after (step p) f))
        → Ensures R (λ _ q. From ts c q) (parse_where step n p)
    unfolding parse_where match_keyword
    parse_where_ends step s k =
        on_holds R _ _ s (λ _ _ _. k _ (λ b q u. on_expr _ u (λ e r v w. record { out = w })))
          (λ _ _ _. record { out = s })

    module _ (enough : length ts ≤ n) where
      pub parse_select_ends :
          {c : ℕ} {p : SqlParser} → From ts c p → Ensures R (λ _ q. From ts c q) (parse_select n p)
      unfolding parse_select match_keyword
      parse_select_ends {c} {p} s = then_do R _ _ _ (select_list_ends n enough s) (λ columns q t.
          on_advance_or_throw R _ t (λ r _ u. on_match_or_throw R _ _ u (λ _ _ _.
            on_advance_or_throw R _ u (λ x _ v.
              then_do R _ _ _ (parse_table_identifier_ends R v) (λ table y w.
                then_do R _ _ _
                  (parse_where_ends advance_or_throw w (λ f k.
                    on_advance_or_throw R f w (λ z _ a. k true z (From-le (omega arith) a))))
                  (λ e z a. record { out = From-le (omega arith) a }))))))

      pub parse_insert_ends :
          {c : ℕ} {p : SqlParser} → From ts c p → Ensures R (λ _ q. From ts c q) (parse_insert n p)
      unfolding parse_insert match_keyword match_symbol
      parse_insert_ends {c} {p} s = on_advance_or_throw R _ s (λ q _ u.
          on_match_or_throw R _ _ u (λ _ _ _. on_advance_or_throw R _ u (λ r _ v.
            then_do R _ _ _ (parse_table_identifier_ends R v) (λ table x w.
              on_match_or_throw R _ _ w (λ _ _ _.
                then_do R _ _ _ (insert_list_ends n enough w) (λ columns y a.
                  on_advance_or_throw R _ a (λ z _ b. on_match_or_throw R _ _ b (λ _ _ _.
                    on_advance_or_throw R _ b (λ z' _ d. on_match_or_throw R _ _ d (λ _ _ _.
                      on_advance_or_throw R _ d (λ z'' _ e. on_match_or_throw R _ _ e (λ _ _ _.
                        then_do R _ _ _
                          (insert_values_ends n [] c z'' (From-le (omega arith) e) (omega arith))
                          (λ values z3 g. on_advance_or_throw R _ g (λ z4 _ h.
                            on_match_or_throw R _ _ h
                              (λ _ _ _. record { out = From-le (omega arith) h })))))))))))))))

      pub parse_update_ends :
          {c : ℕ} {p : SqlParser} → From ts c p → Ensures R (λ _ q. From ts c q) (parse_update n p)
      unfolding parse_update match_keyword
      parse_update_ends {c} {p} s = on_advance_or_throw R _ s (λ q _ u.
          then_do R _ _ _ (parse_table_identifier_ends R u) (λ table r v.
            on_match_or_throw R _ _ v (λ _ _ _.
              then_do R _ _ _
                (update_assignments_ends n [] c r (From-le (omega arith) v) (omega arith))
                (λ a x w.
                  then_do R _ _ _ (parse_where_ends advance w (λ f k. on_step R f w k))
                    (λ e y z. record { out = z })))))

      pub parse_delete_ends :
          {c : ℕ} {p : SqlParser} → From ts c p → Ensures R (λ _ q. From ts c q) (parse_delete n p)
      unfolding parse_delete match_keyword
      parse_delete_ends {c} {p} s = on_advance_or_throw R _ s (λ q _ u.
          on_match_or_throw R _ _ u (λ _ _ _. on_advance_or_throw R _ u (λ r _ v.
            then_do R _ _ _ (parse_table_identifier_ends R v) (λ table x w.
              then_do R _ _ _ (parse_where_ends advance w (λ f k. on_step R f w k))
                (λ e y z. record { out = From-le (omega arith) z })))))
