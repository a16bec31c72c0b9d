-- ===== src/Sql/Parser/Expressions/Parses.antt =====
-- The expression parser implements the grammar.
use deltabase_c.Prelude.{
  ℕ, zero, suc, ◌+◌, ◌*◌, ◌≤◌, ◌<◌, ◌-◌, ◌≡◌, ◌∙◌, List, [], ◌∷◌, ◌++◌, none, false, refl, ap,
  length, append_assoc, length-append, arith, inl, inr,
}
use deltabase_c.Evaluator.{AstOperator, is_op}
use deltabase_c.Sql.Dictionary.{SqlToken, not_kw}
use deltabase_c.Sql.Ast.{AstNode, binary_expr_node, binary_expr}
use deltabase_c.Sql.Parser.Cursor.{SqlParser, returned, after, is_keyword}
use deltabase_c.Sql.Parser.Cursor.Ahead.{Ahead, skip, Ahead-skip, skip-skip}
use deltabase_c.Sql.Parser.Expressions.{next_operator, binary_round, parse_binary_tree, binary_loop}
use deltabase_c.Sql.Parser.Expressions.Steps.{
  Stops, first_of, primary-Operand, round-Operator, round-Stops,
}
use deltabase_c.Sql.Parser.Expressions.Grammar.{
  Operator, one_word, is_not_words, Written, lone_operand, infix_expr, rounds, need, need-length,
  need-pos,
}

-- The tokens of an expression begin with one that is not the word NOT.
abbrev Begins : List SqlToken → Type 0
Begins ts =
    (t : SqlToken) × ((r : List SqlToken) × (ts ≡ t ∷ r) × (is_keyword not_kw t.detail ≡ false))

Written-Begins : {m : ℕ} {n : AstNode} {ts : List SqlToken} → Written m n ts → Begins ts
Written-Begins (lone_operand o) = first_of o
Written-Begins (infix_expr {os = os} {ys = ys} h l o r e) =
    let (t, (q, f, g)) = Written-Begins l in
    (t, (q ++ (os ++ ys), e ∙ ap (λ z. z ++ (os ++ ys)) f, g))

Operator-Stops :
    {op : AstOperator} {k : ℕ} {os : List SqlToken} (j : ℕ)
    → Operator op k os
    → k < j
    → (t : SqlToken) × ((r : List SqlToken) × (os ≡ t ∷ r) × Stops j t)
Operator-Stops j (one_word t op k r e) l = (t, ([], refl, inr (op, r, (k, e, l))))
Operator-Stops j (is_not_words t u k r e g) l = (t, (u ∷ [], refl, inr (is_op, r, (k, e, l))))

Stops-le : (m k : ℕ) (u : SqlToken) → m ≤ k → Stops m u → Stops k u
Stops-le m k u h (inl n) = inl n
Stops-le m k u h (inr (op, r, (j, e, l))) = inr (op, r, (j, e, omega arith))

loop_step :
    (fuel low k : ℕ) (op : AstOperator) (x y : AstNode) (p q r : SqlParser)
    → binary_round (parse_binary_tree fuel) (binary_loop fuel low) low x p
      ≡ after
          (parse_binary_tree fuel (k + 1) q)
          (λ right. binary_loop fuel low (binary_expr_node (binary_expr op x right)))
    → parse_binary_tree fuel (k + 1) q ≡ returned y r
    → binary_loop (suc fuel) low x p
      ≡ binary_loop fuel low (binary_expr_node (binary_expr op x y)) r
unfolding binary_loop after
loop_step fuel low k op x y p q r e f = e ∙ rw (f, after) refl

loop-Stops :
    (fuel low : ℕ) (x : AstNode) (u : SqlToken) (us : List SqlToken) (p : SqlParser)
    → 1 ≤ fuel
    → Ahead p (u ∷ us)
    → Stops low u
    → binary_loop fuel low x p ≡ returned x p
unfolding binary_loop
loop-Stops zero low x u us p h a s = absurd (omega arith)
loop-Stops (suc fuel) low x u us p h a s =
    round-Stops (parse_binary_tree fuel) (binary_loop fuel low) x low u us p a s

places :
    (p : SqlParser) (xs os ys ts : List SqlToken)
    → ts ≡ xs ++ (os ++ ys)
    → skip (length ys) (skip (length os) (skip (length xs) p)) ≡ skip (length ts) p
places p xs os ys ts e =
    ap (skip (length ys)) (skip-skip (length xs) (length os) (length xs + length os) p refl)
    ∙ skip-skip (length xs + length os) (length ys) (length ts) p
        (omega (arith, ap length e, length-append xs (os ++ ys), length-append os ys))

-- Where `fuel` is what the loop has left after the expression.
tree-Written :
    {m : ℕ} {n : AstNode} {ts : List SqlToken} (w : Written m n ts) (low : ℕ) (u : SqlToken)
    (us : List SqlToken) (p : SqlParser) (fuel : ℕ)
    → low ≤ m
    → Stops (suc m) u
    → need w ≤ fuel
    → Ahead p (ts ++ u ∷ us)
    → parse_binary_tree (rounds w + fuel) low p ≡ binary_loop fuel low n (skip (length ts) p)
unfolding parse_binary_tree rounds need after
tree-Written (lone_operand {ts = ts} o) low u us p fuel l s d a =
    let e : 1 + fuel ≡ suc fuel = omega arith in
    rw e (rw (primary-Operand o u us p fuel d a, after) refl)
tree-Written (infix_expr {m} {k} {op} {l = x} {r = y} {xs} {os} {ys} {ts} h wl o wr e) low u us p
      fuel l s d a =
    let (t, (r, f, st)) = Operator-Stops (suc k) o (omega arith) in
    let (v, (vs, g, not_word)) = Written-Begins wr in
    let regroup : ts ++ u ∷ us ≡ xs ++ (os ++ (ys ++ u ∷ us)) = simp (e, append_assoc) in
    let at_start : Ahead p (xs ++ (os ++ (ys ++ u ∷ us))) = rw regroup at a in
    let at_left : Ahead p (xs ++ t ∷ (r ++ (ys ++ u ∷ us))) = rw f at at_start in
    let at_operator : Ahead (skip (length xs) p) (os ++ (ys ++ u ∷ us)) = Ahead-skip xs at_start in
    let at_operand : Ahead (skip (length xs) p) (os ++ v ∷ (vs ++ u ∷ us)) = rw g at at_operator in
    let at_right : Ahead (skip (length os) (skip (length xs) p)) (ys ++ u ∷ us) =
      Ahead-skip os at_operator in
    let left : parse_binary_tree (rounds wl + suc fuel) low p
        ≡ binary_loop (suc fuel) low x (skip (length xs) p) =
      tree-Written wl low t (r ++ (ys ++ u ∷ us)) p (suc fuel) (omega arith) st (omega arith)
        at_left in
    let rest : ℕ = fuel - rounds wr in
    let split : rounds wr + rest ≡ fuel = omega arith in
    let right : parse_binary_tree (rounds wr + rest) (k + 1) (skip (length os) (skip (length xs) p))
        ≡ binary_loop rest (k + 1) y (skip (length ys) (skip (length os) (skip (length xs) p))) =
      tree-Written wr (k + 1) u us (skip (length os) (skip (length xs) p)) rest (omega arith)
        (Stops-le (suc m) (suc (suc k)) u (omega arith) s) (omega arith) at_right in
    let node : AstNode = binary_expr_node (binary_expr op x y) in
    let p1 : SqlParser = skip (length xs) p in
    let p2 : SqlParser = skip (length os) p1 in
    let p3 : SqlParser = skip (length ys) p2 in
    let stops : binary_loop rest (k + 1) y p3 ≡ returned y p3 =
      loop-Stops rest (k + 1) y u us p3 (omega (arith, need-pos wr)) (Ahead-skip ys at_right)
        (Stops-le (suc m) (k + 1) u (omega arith) s) in
    let ret : parse_binary_tree fuel (k + 1) p2 ≡ returned y p3 = rw split at (right ∙ stops) in
    let step : binary_loop (suc fuel) low x p1 ≡ binary_loop fuel low node p3 =
      loop_step fuel low k op x y p1 p2 p3
        (round-Operator (parse_binary_tree fuel) (binary_loop fuel low) x low v (vs ++ u ∷ us) p1 o
          at_operand not_word (omega arith))
        ret in
    let sum : suc (rounds wl) + fuel ≡ rounds wl + suc fuel = omega arith in
    rw sum (left ∙ (step ∙ ap (binary_loop fuel low node) (places p xs os ys ts e)))

-- Three calls for each token are deep enough for the expression that the tokens spell, where the
-- token behind them is no operator.
pub parse_binary_tree-Written :
    {n : AstNode} {ts : List SqlToken} (fuel : ℕ) (u : SqlToken) (us : List SqlToken)
    (p : SqlParser)
    → Written 0 n ts
    → ((q : SqlParser) → next_operator u q ≡ returned none q)
    → 3 * length ts ≤ fuel
    → Ahead p (ts ++ u ∷ us)
    → parse_binary_tree fuel 0 p ≡ returned n (skip (length ts) p)
parse_binary_tree-Written {n} {ts} fuel u us p w none_there enough a =
    let rest : ℕ = fuel - rounds w in
    let split : rounds w + rest ≡ fuel = omega (arith, need-length w) in
    rw split at (
      tree-Written w 0 u us p rest (omega arith) (inl none_there) (omega (arith, need-length w)) a
      ∙ loop-Stops rest 0 n u us (skip (length ts) p) (omega (arith, need-length w, need-pos w))
          (Ahead-skip ts a) (inl none_there))
