-- ===== src/Sql/Parser/Expressions/Operands.antt =====
-- What ends an operand of the expression parser, and that it does.
use deltabase_c.Prelude.{
  ℕ, zero, suc, ◌≤◌, ◌≡◌, List, [], ◌∷◌, ◌++◌, length-append, some, Bool, true, false, ◌||◌, length,
  get_elem?, arith, inl, inr, ◌⊎◌,
}
use deltabase_c.Sql.Dictionary.{
  SqlToken, SqlOperator, SqlKeyword, operator_detail, keyword_detail, keyword_code, keyword,
  operator, lparen, not_so, is_kw,
}
use deltabase_c.Sql.Ast.{AstNode, BinaryExpr}
use deltabase_c.Sql.Parser.Cursor.{
  SqlParser, Parse, returned, after, advance, current_token, is_symbol, is_operator, is_type,
  match_keyword, match_symbol, match_operator, match_type,
}
use deltabase_c.Sql.Parser.Cursor.Triples.{
  Ensures, From, From-le, From-self, then_do, on_advance, on_current, on_holds,
}
use deltabase_c.Sql.Parser.Expressions.{parse_leaf, close_paren, primary_step}

-- The last token is no `(` and no NOT, after which an operand has to follow.
unfoldable pub opens_operand : SqlToken → Bool
opens_operand t = is_symbol lparen t.detail || is_operator not_so t.detail

abbrev pub IsClosed : List SqlToken → Type 0
IsClosed ts =
    (i : ℕ) (t : SqlToken) → length ts ≤ suc i → get_elem? ts i ≡ some t → opens_operand t ≡ false

pub IsClosed-last :
    (ts : List SqlToken) (t : SqlToken) → opens_operand t ≡ false → IsClosed (ts ++ t ∷ [])
IsClosed-last [] t h zero u l e = cc
IsClosed-last [] t h (suc i) u l e = cc
IsClosed-last (x ∷ ts) t h zero u l e = absurd (omega (arith, length-append ts (t ∷ [])))
IsClosed-last (x ∷ ts) t h (suc i) u l e = IsClosed-last ts t h i u (omega arith) e

-- A token at which the loop over operators goes on.
unfoldable pub IsInfix : SqlToken → Type 0
IsInfix t =
    (is_type operator t ≡ true) × ((o : SqlOperator) × (t.detail ≡ operator_detail o))
    ⊎ (is_type keyword t ≡ true)
      × ((k : SqlKeyword) × (t.detail ≡ keyword_detail k) × (keyword_code k ≡ keyword_code is_kw))

module _ (R : Type 0) (ts : List SqlToken) where
  abbrev pub Stays : SqlParser → {A : Type 0} → A → SqlParser → Type 0
  Stays p _ q = From ts p.current q

  abbrev pub Progress : SqlParser → SqlParser → Type 0
  Progress p q = R ⊎ (suc p.current ≤ q.current)

  pub leaf_ends :
      (t : SqlToken) (p : SqlParser) → From ts p.current p → Ensures R (Stays p) (parse_leaf t p)
  unfolding parse_leaf match_keyword match_type
  leaf_ends t p s =
      let stay : (n : AstNode)
          → (q : SqlParser) → From ts (suc p.current) q
          → Ensures R (Stays p) (returned n q) =
        λ n q u. record { out = From-le (omega arith) u } in
      let leaf : (n : AstNode) → Ensures R (Stays p) (after (advance p) (λ _ q. returned n q)) =
        λ n. on_advance R _ s (λ q _ u. stay n q u) (λ _. record { out = s }) in
      on_holds R _ _ s (λ _ _ _. leaf _)
        (λ _ _ _.
          on_holds R _ _ s (λ _ _ _. leaf _)
            (λ _ _ _. on_holds R _ _ s (λ _ _ _. leaf _) (λ _ _ _. record { out = tt })))

  pub close_ends :
      (e : BinaryExpr) (c : ℕ) (p : SqlParser)
      → From ts c p
      → Ensures R (λ _ q. From ts c q) (close_paren e p)
  unfolding close_paren match_symbol
  close_ends e c p s = on_holds R _ _ s (λ _ _ _. record { out = s }) (λ _ _ _. record { out = tt })

  module _ (closed : R ⊎ IsClosed ts) (p : SqlParser) (s : From ts p.current p) where
    -- Behind a token that opens an operand the position has moved, or nothing is promised.
    pub opened :
        {A : Type 0} (f : Bool → Parse A) (t : SqlToken)
        → current_token p ≡ some t
        → opens_operand t ≡ true
        → ((b : Bool) (q : SqlParser)
            → From ts p.current q
            → Progress p q
            → Ensures R (Stays p) (f b q))
        → Ensures R (Stays p) (after (advance p) f)
    opened f t e o k =
        on_advance R f s (λ q m u. k true q (From-le (omega arith) u) (inr (omega arith)))
          (λ l. k false p s (elim closed [
            | inl r ↦ inl r
            | inr c ↦ absurd (cc (c p.current t l (rw s.same at e), o))
          ]))

    pub primary_step_ends :
        (expr : Parse BinaryExpr) (operand : Parse AstNode)
        → ((q : SqlParser) → From ts q.current q → Progress p q → Ensures R (Stays q) (expr q))
        → ((q : SqlParser) → From ts q.current q → Progress p q → Ensures R (Stays q) (operand q))
        → Ensures R (Stays p) (primary_step expr operand p)
    unfolding primary_step match_symbol match_operator opens_operand
    primary_step_ends expr operand he ho = on_current R _ s (λ t e.
        on_holds R _ _ s
          (λ u e' h. opened _ u e' (rw (h, opens_operand)) (λ b q v g.
            then_do R (Stays q) _ (expr q) (he q (From-self v) g)
              (λ x r w. close_ends x p.current r (From-le v.from w))))
          (λ _ _ _.
            on_holds R _ _ s
              (λ u e' h. opened _ u e' (ground (arith, h)) (λ b q v g.
                then_do R (Stays q) _ (operand q) (ho q (From-self v) g)
                  (λ x r w. record { out = From-le v.from w })))
              (λ _ _ _. leaf_ends t p s)))
