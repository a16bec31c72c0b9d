-- ===== src/Sql/Lexer/Stuck.antt =====
-- When `lex` never ends.
use deltabase_c.Prelude.{
  ◌≤◌, ltb, length, arith, ℕ, zero, suc, ◌≡◌, refl, List, ◌∷◌, none, Bool, true, false, ◌||◌,
  if◌then◌else◌, ◌==◌, Option-cases, inl, inr, ◌∙◌,
}
use deltabase_c.Sql.Dictionary.{symbol_of}
use deltabase_c.Sql.Lexer.{
  throws, threw, lex_operator, find_operator, isspace, isalpha, isdigit, starts_as_operator, skips,
  lex_symbol, lex_round, still_running, lex_from,
}
use deltabase_c.Sql.Lexer.Ends.{is_known, is_symbol}

neither : (a b : Bool) → a || b ≡ false → (a ≡ false) × (b ≡ false)
neither true b h = cc
neither false b h = (refl, h)

if_false {ℓ} : {A : Type ℓ} → (b : Bool) (x y : A) → b ≡ false → (if b then x else y) ≡ y
if_false true x y h = cc
if_false false x y h = refl

if_true {ℓ} : {A : Type ℓ} → (b : Bool) (x y : A) → b ≡ true → (if b then x else y) ≡ x
if_true true x y h = refl
if_true false x y h = cc

symbol_stays : (line pos c : ℕ) → is_symbol c ≡ false → lex_symbol line pos c ≡ skips line pos 0
unfolding lex_symbol is_symbol
symbol_stays line pos c h = elim (Option-cases (symbol_of c)) [
  | inl e ↦ rw (e, lex_symbol) (if_false (c == 46) _ _ (rw (e, is_symbol) at h))
  | inr (s, e) ↦ cc (rw (e, is_symbol) at h)
]

round_stays :
    (line pos c : ℕ) (cs : List ℕ) → is_known c ≡ false → lex_round line pos c cs ≡ skips line pos 0
unfolding lex_round
round_stays line pos c cs h =
    let p1 = neither (isspace c) _ h in
    let p2 = neither (isalpha c) _ p1.1 in
    let p3 = neither (c == 39) _ p2.1 in
    let p4 = neither (c == 34) _ p3.1 in
    let p5 = neither (isdigit c) _ p4.1 in
    let p6 = neither (starts_as_operator c) _ p5.1 in
    if_false (isspace c) _ _ p1.0
    ∙ if_false (isalpha c) _ _ p2.0
    ∙ if_false (c == 39) _ _ p3.0
    ∙ if_false (c == 34) _ _ p4.0
    ∙ if_false (isdigit c) _ _ p5.0
    ∙ if_false (starts_as_operator c) _ _ p6.0
    ∙ symbol_stays line pos c p6.1

-- A character that no branch takes is met again in every round: the loop ends after no number of them.
pub lex_from-stuck :
    (fuel line pos c : ℕ) (cs : List ℕ)
    → is_known c ≡ false
    → lex_from fuel line pos (c ∷ cs) ≡ still_running
unfolding lex_from
lex_from-stuck zero line pos c cs h = refl
lex_from-stuck (suc fuel) line pos c cs h =
    rw (round_stays line pos c cs h, lex_from) (lex_from-stuck fuel line pos c cs h)

none_found : (rest : List ℕ) → length rest ≤ 2 → find_operator 3 rest ≡ none
unfolding find_operator
none_found rest short =
    let e : ltb (length rest) 3 ≡ true = ground arith in rw (e, find_operator) refl

operator_throws :
    (line pos : ℕ) (rest : List ℕ) → length rest ≤ 2 → lex_operator line pos rest ≡ throws
unfolding lex_operator
operator_throws line pos rest short = rw (none_found rest short, lex_operator) refl

round_throws :
    (line pos c : ℕ) (cs : List ℕ)
    → isspace c ≡ false
    → isalpha c ≡ false
    → (c == 39) ≡ false
    → (c == 34) ≡ false
    → isdigit c ≡ false
    → starts_as_operator c ≡ true
    → length (c ∷ cs) ≤ 2
    → lex_round line pos c cs ≡ throws
unfolding lex_round
round_throws line pos c cs h1 h2 h3 h4 h5 h6 short =
    if_false (isspace c) _ _ h1
    ∙ if_false (isalpha c) _ _ h2
    ∙ if_false (c == 39) _ _ h3
    ∙ if_false (c == 34) _ _ h4
    ∙ if_false (isdigit c) _ _ h5
    ∙ if_true (starts_as_operator c) _ _ h6
    ∙ operator_throws line pos (c ∷ cs) short

-- The search for an operator tries three characters first and ends when there are fewer: an operator
-- that is no word, among the last two characters of the query, ends the loop with an exception.
pub lex_from-short_operator :
    (fuel line pos c : ℕ) (cs : List ℕ)
    → isspace c ≡ false
    → isalpha c ≡ false
    → (c == 39) ≡ false
    → (c == 34) ≡ false
    → isdigit c ≡ false
    → starts_as_operator c ≡ true
    → length (c ∷ cs) ≤ 2
    → lex_from (suc fuel) line pos (c ∷ cs) ≡ threw
unfolding lex_from
lex_from-short_operator fuel line pos c cs h1 h2 h3 h4 h5 h6 short =
    rw (round_throws line pos c cs h1 h2 h3 h4 h5 h6 short, lex_from) refl
