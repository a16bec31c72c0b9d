-- ===== src/Sql/Parser/Expressions/Grammar.antt =====
-- The language of expressions as a grammar: operators of one priority associate to the left, and
-- the operators of an operand bind tighter.
use deltabase_c.Prelude.{
  ℕ, suc, ◌+◌, ◌*◌, ◌≤◌, ◌≡◌, List, [], ◌∷◌, ◌++◌, some, true, false, refl, ap, length,
  length-append, arith,
}
use deltabase_c.Evaluator.{AstOperator, not_op, is_op, neq_op}
use deltabase_c.Sql.Dictionary.{SqlToken, literal, identifier, lparen, not_so, not_kw, null_kw}
use deltabase_c.Sql.Ast.{
  AstNode, identifier_node, literal_node, binary_expr_node, binary_expr, prefix_expr,
  ast_operators_priorities,
}
use deltabase_c.Sql.Parser.Cursor.{SqlParser, returned, is_type, is_keyword, is_symbol, is_operator}
use deltabase_c.Sql.Parser.Expressions.{next_operator, null_literal}

-- A token that begins neither an operand with `(` or NOT, nor the second half of IS NOT.
pub record IsPlain (t : SqlToken) : Type 0 where
  pub no_paren : is_symbol lparen t.detail ≡ false
  pub no_negation : is_operator not_so t.detail ≡ false
  pub no_not : is_keyword not_kw t.detail ≡ false

pub data Operand : AstNode → List SqlToken → Type 0 where
  null_word :
      (t : SqlToken)
      → IsPlain t
      → is_keyword null_kw t.detail ≡ true
      → Operand (literal_node (null_literal t)) (t ∷ [])
  literal_word :
      (t : SqlToken)
      → IsPlain t
      → is_keyword null_kw t.detail ≡ false
      → is_type literal t ≡ true
      → Operand (literal_node t) (t ∷ [])
  identifier_word :
      (t : SqlToken)
      → IsPlain t
      → is_keyword null_kw t.detail ≡ false
      → is_type literal t ≡ false
      → is_type identifier t ≡ true
      → Operand (identifier_node t) (t ∷ [])
  negation :
      (t : SqlToken) {n : AstNode} {ts : List SqlToken}
      → is_symbol lparen t.detail ≡ false
      → is_operator not_so t.detail ≡ true
      → is_keyword not_kw t.detail ≡ false
      → Operand n ts
      → Operand (binary_expr_node (prefix_expr not_op n)) (t ∷ ts)

-- The loop reads `op` at this token.
abbrev pub Reads : SqlToken → AstOperator → Type 0
Reads t op = (p : SqlParser) → next_operator t p ≡ returned (some op) p

pub data Operator : AstOperator → ℕ → List SqlToken → Type 0 where
  one_word :
      (t : SqlToken) (op : AstOperator) (k : ℕ)
      → Reads t op
      → ast_operators_priorities op ≡ some k
      → Operator op k (t ∷ [])
  is_not_words :
      (t u : SqlToken) (k : ℕ)
      → Reads t is_op
      → ast_operators_priorities is_op ≡ some k
      → is_keyword not_kw u.detail ≡ true
      → Operator neq_op k (t ∷ u ∷ [])

-- `ts` spells the expression `n`, with no operator outside its operands of priority below `m`.
pub data Written : ℕ → AstNode → List SqlToken → Type 0 where
  lone_operand : {m : ℕ} {n : AstNode} {ts : List SqlToken} → Operand n ts → Written m n ts
  infix_expr :
      {m k : ℕ} {op : AstOperator} {l r : AstNode} {xs os ys ts : List SqlToken}
      → m ≤ k
      → Written k l xs
      → Operator op k os
      → Written (suc k) r ys
      → ts ≡ xs ++ (os ++ ys)
      → Written m (binary_expr_node (binary_expr op l r)) ts

-- The depth of the calls of an operand, and the rounds of the loop over the left operands.
unfoldable pub depth : {n : AstNode} {ts : List SqlToken} → Operand n ts → ℕ
depth (null_word t p h) = 1
depth (literal_word t p h l) = 1
depth (identifier_word t p h l k) = 1
depth (negation t h l g o) = suc (depth o)

unfoldable pub rounds : {m : ℕ} {n : AstNode} {ts : List SqlToken} → Written m n ts → ℕ
rounds (lone_operand o) = 1
rounds (infix_expr h l o r e) = suc (rounds l)

-- Fuel that is enough.
unfoldable pub need : {m : ℕ} {n : AstNode} {ts : List SqlToken} → Written m n ts → ℕ
unfolding depth
need (lone_operand o) = depth o
need (infix_expr h l o r e) = need l + need r + rounds r + 1

depth-length : {n : AstNode} {ts : List SqlToken} (o : Operand n ts) → depth o ≡ length ts
unfolding depth
depth-length (null_word t p h) = refl
depth-length (literal_word t p h l) = refl
depth-length (identifier_word t p h l k) = refl
depth-length (negation t h l g o) = ap suc (depth-length o)

Operator-length : {op : AstOperator} {k : ℕ} {os : List SqlToken} → Operator op k os → 1 ≤ length os
Operator-length (one_word t op k h e) = omega arith
Operator-length (is_not_words t u k h e g) = omega arith

pub depth-pos : {n : AstNode} {ts : List SqlToken} (o : Operand n ts) → 1 ≤ depth o
unfolding depth
depth-pos (null_word t p h) = omega arith
depth-pos (literal_word t p h l) = omega arith
depth-pos (identifier_word t p h l k) = omega arith
depth-pos (negation t h l g o) = omega arith

pub need-pos : {m : ℕ} {n : AstNode} {ts : List SqlToken} (w : Written m n ts) → 1 ≤ need w
unfolding need
need-pos (lone_operand o) = depth-pos o
need-pos (infix_expr h l o r e) = omega arith

-- Three for each token.
pub need-length :
    {m : ℕ} {n : AstNode} {ts : List SqlToken} (w : Written m n ts)
    → need w + rounds w ≤ 3 * length ts
unfolding need rounds
need-length (lone_operand o) = omega (arith, depth-length o, depth-pos o)
need-length (infix_expr {xs = xs} {os = os} {ys = ys} h l o r e) = omega (
  arith,
  need-length l,
  need-length r,
  Operator-length o,
  ap length e,
  length-append xs (os ++ ys),
  length-append os ys,
)
