-- ===== src/Sql/Lexer/Ends.antt =====
-- When `lex` ends.
use deltabase_c.Prelude.{
  ℕ, zero, suc, ◌+◌, ◌≤◌, ◌≡◌, ◌≢◌, refl, List, [], ◌∷◌, none, some, Bool, true, false, ◌||◌,
  if◌then◌else◌, ltb, leb, ◌==◌, length, drop, length-drop, take, All, All-drop, Bool-cases,
  Option-cases, inl, inr, arith,
}
use deltabase_c.Sql.Dictionary.{
  SqlToken, SqlTokenType, SqlTokenDetail, SqlOperator, symbol_of, look_up, operators_map, literal,
  identifier, monostate, literal_detail, string_lit,
}
use deltabase_c.Sql.Lexer.{
  isspace, isalpha, isdigit, to_lower, get_word_length, get_number_length, find_quote,
  starts_as_operator, find_operator, Round, skips, adds, throws, lex_word, lex_quoted, lex_number,
  lex_operator, lex_symbol, lex_round, Lexed, tokens, threw, still_running, add_token, lex_from,
}

-- A symbol, or the period that a later branch takes.
unfoldable pub is_symbol : ℕ → Bool
is_symbol c = elim (symbol_of c) [ none ↦ c == 46 | some s ↦ true ]

-- A character that some branch takes.
abbrev pub is_known : ℕ → Bool
is_known c =
    isspace c
    || (isalpha c || (c == 39 || (c == 34 || (isdigit c || (starts_as_operator c || is_symbol c)))))

-- The round ends the loop, or takes a character at least.
consumes : Round → Bool
consumes (skips line pos n) = leb 1 n
consumes (adds t n) = leb 1 n
consumes throws = true

word_consumes :
    (line pos c : ℕ) (cs : List ℕ) → isalpha c ≡ true → consumes (lex_word line pos (c ∷ cs)) ≡ true
unfolding consumes lex_word get_word_length
word_consumes line pos c cs h = rw h (ground arith)

number_consumes :
    (line pos c : ℕ) (cs : List ℕ)
    → isdigit c ≡ true
    → consumes (lex_number line pos (c ∷ cs)) ≡ true
unfolding consumes lex_number get_number_length
number_consumes line pos c cs h = rw h (ground arith)

quoted_consumes :
    (type : SqlTokenType) (detail : SqlTokenDetail) (quote line pos : ℕ) (cs : List ℕ)
    → consumes (lex_quoted type detail quote line pos cs) ≡ true
unfolding consumes lex_quoted
quoted_consumes type detail quote line pos cs = elim (Option-cases (find_quote quote cs)) [
  | inl e ↦ rw (e, lex_quoted) refl
  | inr (n, e) ↦ rw (e, lex_quoted) (ground arith)
]

operator_size :
    (k : ℕ) (rest : List ℕ) (o : SqlOperator × ℕ) → find_operator k rest ≡ some o → 1 ≤ o.1
unfolding find_operator
operator_size zero rest o e = cc
operator_size (suc k) rest o e = elim (Bool-cases (ltb (length rest) (suc k))) [
  | inl short ↦ cc (rw (short, find_operator) at e)
  | inr long ↦
      let e' = rw (long, find_operator) at e in
      elim (Option-cases (look_up (to_lower (take (suc k) rest)) operators_map)) [
        | inl f ↦ operator_size k rest o (rw f at e')
        | inr (op, f) ↦ let s : (op, suc k) ≡ o = cc (rw f at e') in rw (← s) (omega arith)
      ]
]

operator_consumes : (line pos : ℕ) (rest : List ℕ) → consumes (lex_operator line pos rest) ≡ true
unfolding consumes lex_operator
operator_consumes line pos rest = elim (Option-cases (find_operator 3 rest)) [
  | inl e ↦ rw (e, lex_operator) refl
  | inr (o, e) ↦ let l = operator_size 3 rest o e in rw (e, lex_operator) (ground (arith, l))
]

symbol_consumes : (line pos c : ℕ) → is_symbol c ≡ true → consumes (lex_symbol line pos c) ≡ true
unfolding consumes lex_symbol is_symbol
symbol_consumes line pos c h = elim (Option-cases (symbol_of c)) [
  | inl e ↦ rw (e, lex_symbol) (let k = rw (e, is_symbol) at h in rw k (ground arith))
  | inr (s, e) ↦ rw (e, lex_symbol) (ground arith)
]

orelse : {a b : Bool} → a ≡ false → a || b ≡ true → b ≡ true
orelse f h = rw f at h

if_consumes :
    (b : Bool) (r s : Round)
    → (b ≡ true → consumes r ≡ true)
    → (b ≡ false → consumes s ≡ true)
    → consumes (if b then r else s) ≡ true
if_consumes true r s f g = f refl
if_consumes false r s f g = g refl

skip_consumes :
    (b : Bool) (line pos : ℕ)
    → consumes (if b then skips (line + 1) 0 1 else skips line (pos + 1) 1) ≡ true
unfolding consumes
skip_consumes true line pos = refl
skip_consumes false line pos = refl

round_consumes :
    (line pos c : ℕ) (cs : List ℕ) → is_known c ≡ true → consumes (lex_round line pos c cs) ≡ true
unfolding lex_round
round_consumes line pos c cs h =
    if_consumes (isspace c) _ _ (λ _. skip_consumes (c == 10) line pos)
      (λ h1. if_consumes (isalpha c) _ _ (word_consumes line pos c cs) (λ h2.
        if_consumes (c == 39) _ _
          (λ _. quoted_consumes literal (literal_detail string_lit) 39 line pos cs)
          (λ h3.
            if_consumes (c == 34) _ _ (λ _. quoted_consumes identifier monostate 34 line pos cs)
              (λ h4. if_consumes (isdigit c) _ _ (number_consumes line pos c cs) (λ h5.
                if_consumes (starts_as_operator c) _ _ (λ _. operator_consumes line pos (c ∷ cs))
                  (λ h6.
                    let k1 = orelse h1 h in
                    let k2 = orelse h2 k1 in
                    let k3 = orelse h3 k2 in
                    let k4 = orelse h4 k3 in
                    let k5 = orelse h5 k4 in symbol_consumes line pos c (orelse h6 k5)))))))

add_token-ends : (t : SqlToken) (r : Lexed) → r ≢ still_running → add_token t r ≢ still_running
unfolding add_token
add_token-ends t (tokens ts) h e = cc
add_token-ends t threw h e = cc
add_token-ends t still_running h e = absurd (h refl)

shorter :
    (n c : ℕ) (cs : List ℕ) (fuel : ℕ)
    → leb 1 n ≡ true
    → length (c ∷ cs) ≤ suc fuel
    → length (drop n (c ∷ cs)) ≤ fuel
shorter zero c cs fuel taken enough = cc
shorter (suc n) c cs fuel taken enough = omega (arith, length-drop n cs)

-- With as many rounds as the query has characters, the loop ends when some branch takes each character.
pub lex_from-ends :
    (fuel line pos : ℕ) (rest : List ℕ)
    → length rest ≤ fuel
    → All (λ c. is_known c ≡ true) rest
    → lex_from fuel line pos rest ≢ still_running
unfolding lex_from consumes
lex_from-ends fuel line pos [] enough known = λ e. cc
lex_from-ends zero line pos (c ∷ cs) enough known = absurd (omega arith)
lex_from-ends (suc fuel) line pos (c ∷ cs) enough known =
    elim (lex_round line pos c cs)
        as (λ r.
          consumes r ≡ true
          → lex_round line pos c cs ≡ r
          → lex_from (suc fuel) line pos (c ∷ cs) ≢ still_running) [
            | skips line' pos' n ↦ λ taken e.
                rw (e, lex_from)
                  (lex_from-ends fuel line' pos' (drop n (c ∷ cs))
                    (shorter n c cs fuel taken enough) (All-drop _ n (c ∷ cs) known))
            | adds t n ↦ λ taken e.
                rw (e, lex_from)
                  (add_token-ends t _ (
                    lex_from-ends fuel line (pos + n) (drop n (c ∷ cs))
                      (shorter n c cs fuel taken enough) (All-drop _ n (c ∷ cs) known)))
            | throws ↦ λ _ e f. cc (rw (e, lex_from) at f)
          ]
      (round_consumes line pos c cs known.0) refl
