-- ===== src/Sql/Parser/Columns/Ends.antt =====
-- Table identifiers and column definitions end, behind where they began.
use deltabase_c.Prelude.{
  ℕ, zero, suc, ◌+◌, ◌≤◌, ◌≡◌, refl, List, [], ◌∷◌, some, Bool, true, false, ◌||◌, length, All,
  All-append, arith, Bool-cases, ◌⊎◌, inl, inr,
}
use deltabase_c.Sql.Dictionary.{
  SqlToken, SqlTokenDetail, SqlKeyword, comma, rparen, null_kw, monostate, keyword_detail,
  operator_detail, symbol_detail, literal_detail,
}
use deltabase_c.Sql.Ast.{ColumnDefinition}
use deltabase_c.Sql.Parser.Cursor.{
  SqlParser, Parse, after, match_type, match_symbol, current_token, is_symbol,
}
use deltabase_c.Sql.Parser.Cursor.Triples.{
  token_at, Ensures, From, From-le, on_step, on_advance_or_throw, on_current, on_holds,
  on_match_or_throw,
}
use deltabase_c.Sql.Parser.Columns.{
  is_refused, is_constraint, is_data_type, is_constraint_kw, is_data_type_kw, at_column_end,
  parse_constraints, parse_column_def, parse_table_identifier,
}

-- The parser stands at the comma or the parenthesis that ends a column.
pub EndsColumn : SqlParser → Type 0
EndsColumn p =
    (t : SqlToken) × (current_token p ≡ some t)
    × (is_symbol comma t.detail || is_symbol rparen t.detail ≡ true)

-- A constraint that passes both tests is the word NULL.
pub IsNullWord : SqlToken → Type 0
IsNullWord t = t.detail ≡ keyword_detail null_kw

pub record ReadsColumn (ts : List SqlToken) (start : ℕ) (def : ColumnDefinition) (p : SqlParser)
    : Type 0 where
  pub behind : From ts start p
  pub ends : EndsColumn p
  pub constraints : All IsNullWord def.constraints

both_tests : (k : SqlKeyword) → is_constraint_kw k ≡ true → is_data_type_kw k ≡ true → k ≡ null_kw
unfolding is_constraint_kw is_data_type_kw
both_tests k h l = ground arith

constraint_null :
    (t : SqlToken) (d : SqlTokenDetail) → t.detail ≡ d → is_refused t d ≡ false → IsNullWord t
unfolding is_refused is_constraint is_data_type IsNullWord
constraint_null t (keyword_detail k) e h =
    let k' : k ≡ null_kw = both_tests k (ground arith) (ground arith) in rw (← k') e
constraint_null t (operator_detail k) e h = cc
constraint_null t (symbol_detail k) e h = cc
constraint_null t (literal_detail k) e h = cc
constraint_null t monostate e h = cc

module _ (R : Type 0) {ts : List SqlToken} where
  pub parse_table_identifier_ends :
      {c : ℕ} {p : SqlParser}
      → From ts c p
      → Ensures R (λ _ q. From ts c q) (parse_table_identifier p)
  unfolding parse_table_identifier match_type match_symbol
  parse_table_identifier_ends s = on_match_or_throw R _ _ s (λ _ _ _. on_current R _ s (λ _ _.
      on_step R _ s (λ _ q u.
        on_holds R _ _ u
          (λ _ _ _. on_advance_or_throw R _ u (λ r _ v. on_match_or_throw R _ _ v (λ _ _ _.
            on_current R _ v
              (λ _ _. on_step R _ v (λ _ x w. record { out = From-le (omega arith) w })))))
          (λ _ _ _. record { out = u }))))

  on_column_end :
      {B : Type 0} {Q : B → SqlParser → Type 0} (f : Bool → Parse B) {c : ℕ} {p : SqlParser}
      → From ts c p
      → (EndsColumn p → Ensures R Q (f true p))
      → Ensures R Q (f false p)
      → Ensures R Q (after (at_column_end p) f)
  unfolding at_column_end match_symbol after EndsColumn
  on_column_end f {c} {p} s k l =
      let (t, e) = token_at s in
      elim (Bool-cases (is_symbol comma t.detail)) [
        | inl h ↦ rw (e, after) (rw h (k (t, e, rw h refl)))
        | inr h ↦
            rw (e, after)
              (rw h (elim (Bool-cases (is_symbol rparen t.detail)) [
                | inl g ↦ rw (e, after) (rw g (k (t, e, rw (h, g) refl)))
                | inr g ↦ rw (e, after) (rw g l)
              ]))
      ]

  parse_constraints_ends :
      (n : ℕ) (def : ColumnDefinition) (p : SqlParser) (start : ℕ)
      → From ts start p
      → R ⊎ (length ts ≤ n + p.current)
      → All IsNullWord def.constraints
      → Ensures R (ReadsColumn ts start) (parse_constraints n def p)
  unfolding parse_constraints
  parse_constraints_ends zero def p start s (inl x) a = record { out = x }
  parse_constraints_ends zero def p start s (inr l) a = absurd (omega (arith, s.within))
  parse_constraints_ends (suc n) def p start s l a =
      on_column_end _ s (λ e. record { out = record { behind = s; ends = e; constraints = a } })
        (on_current R _ s (λ t e. elim (Bool-cases (is_refused t t.detail)) [
          | inl h ↦ rw h (record { out = tt })
          | inr h ↦ rw h (
              on_advance_or_throw R _ s (λ q m u.
                parse_constraints_ends n _ q start (From-le (omega arith) u)
                  (elim l [ inl x ↦ inl x | inr k ↦ inr (omega arith) ])
                  (All-append IsNullWord def.constraints (t ∷ []) a
                    (constraint_null t t.detail refl h, tt))))
        ]))

  -- A column definition ends at a comma or a `)`, and its constraints are words NULL.
  pub parse_column_def_ends :
      (n : ℕ) {p : SqlParser}
      → From ts p.current p
      → R ⊎ (length ts ≤ n + p.current)
      → Ensures R (ReadsColumn ts (suc p.current)) (parse_column_def n p)
  unfolding parse_column_def match_type
  parse_column_def_ends n {p} s l = on_match_or_throw R _ _ s (λ _ _ _. on_current R _ s (λ _ _.
      on_advance_or_throw R _ s (λ q m u. on_current R _ u (λ _ _.
        on_advance_or_throw R _ u (λ r m' v.
          on_column_end _ v
            (λ e. record {
              out = record { behind = From-le (omega arith) v; ends = e; constraints = tt };
            })
            (on_advance_or_throw R _ v (λ x m'' w.
              parse_constraints_ends n _ x (suc p.current) (From-le (omega arith) w)
                (elim l [ inl x ↦ inl x | inr k ↦ inr (omega arith) ]) tt)))))))
