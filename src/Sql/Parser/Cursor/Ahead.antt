-- ===== src/Sql/Parser/Cursor/Ahead.antt =====
-- The steps of the parser, by the tokens that lie ahead of it.
use deltabase_c.Prelude.{
  ℕ, zero, suc, ◌+◌, ◌≤◌, ◌≡◌, refl, ap, List, [], ◌∷◌, ◌++◌, some, true, false, ltb, lt→ltb,
  length, drop, get_elem?, drop-drop, length-drop, drop-length, length-append, arith,
}
use deltabase_c.Sql.Dictionary.{SqlToken}
use deltabase_c.Sql.Parser.Cursor.{SqlParser, returned, advance, current, current_token}

pub record Ahead (p : SqlParser) (ts : List SqlToken) : Type 0 where
  pub rest : drop p.current p.tokens ≡ ts
  pub within : p.current ≤ length p.tokens

-- The parser, so many tokens further.
unfoldable pub skip : ℕ → SqlParser → SqlParser
skip k p = record p { current = p.current + k }

get_elem?-drop {ℓ} :
    {A : Type ℓ} (i : ℕ) (xs : List A) (a : A) (ys : List A)
    → drop i xs ≡ a ∷ ys
    → get_elem? xs i ≡ some a
get_elem?-drop zero [] a ys e = cc
get_elem?-drop zero (x ∷ xs) a ys e = cc
get_elem?-drop (suc i) [] a ys e = cc
get_elem?-drop (suc i) (x ∷ xs) a ys e = get_elem?-drop i xs a ys e

module _ {p : SqlParser} {t : SqlToken} {ts : List SqlToken} (h : Ahead p (t ∷ ts)) where
  pub token-Ahead : current_token p ≡ some t
  token-Ahead = get_elem?-drop p.current p.tokens t ts h.rest

  pub current-Ahead : current p ≡ returned t p
  unfolding current
  current-Ahead = rw (token-Ahead, current) refl

pub Ahead-skip :
    {p : SqlParser} (xs : List SqlToken) {ts : List SqlToken}
    → Ahead p (xs ++ ts)
    → Ahead (skip (length xs) p) ts
unfolding skip
Ahead-skip {p} xs {ts} h = record {
  rest =
      rw (← drop-drop p.current (length xs) p.tokens (p.current + length xs) refl)
        (rw h.rest (drop-length xs ts));
  within =
      omega
        (arith, ap length h.rest, length-drop p.current p.tokens, length-append xs ts, h.within);
}

pub advance-Ahead :
    {p : SqlParser} {t u : SqlToken} {ts : List SqlToken}
    → Ahead p (t ∷ u ∷ ts)
    → advance p ≡ returned true (skip 1 p)
unfolding advance skip
advance-Ahead {p} h =
    let e : ltb (p.current + 1) (length p.tokens) ≡ true =
      lt→ltb _ _ (omega (arith, ap length h.rest, length-drop p.current p.tokens)) in
    rw (e, advance) refl

pub advance-last : {p : SqlParser} {t : SqlToken} → Ahead p (t ∷ []) → advance p ≡ returned false p
unfolding advance
advance-last {p} h =
    let l : length p.tokens ≤ p.current + 1 =
      omega (arith, ap length h.rest, length-drop p.current p.tokens) in
    let e : ltb (p.current + 1) (length p.tokens) ≡ false = ground arith in rw (e, advance) refl

pub skip-skip : (a b c : ℕ) (p : SqlParser) → a + b ≡ c → skip b (skip a p) ≡ skip c p
unfolding skip
skip-skip a b c p e = let z : p.current + a + b ≡ p.current + c = omega arith in rw z
