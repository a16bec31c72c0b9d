-- ===== src/Sql/Parser/Refusals/Alter.antt =====
-- A statement that begins with ALTER is refused.
use deltabase_c.Prelude.{ℕ, ◌≤◌, ◌≡◌, ◌∙◌, refl, List, ◌∷◌, true, false, ◌==◌, length, arith, inr}
use deltabase_c.Sql.Dictionary.{
  SqlToken, SqlTokenDetail, SqlKeyword, keyword_code, keyword_detail, monostate, operator_detail,
  symbol_detail, literal_detail, alter_kw, select_kw, insert_kw, update_kw, delete_kw, create_kw,
  drop_kw,
}
use deltabase_c.Sql.Ast.{Statement}
use deltabase_c.Sql.Parser.Cursor.{
  SqlParser, Parse, Outcome, returned, threw, null_pointer, still_running, Exception, after,
  is_keyword, match_keyword,
}
use deltabase_c.Sql.Parser.Cursor.Triples.{Ensures, From, From-le, then_do, on_advance, on_holds}
use deltabase_c.Sql.Parser.Cursor.Ahead.{Ahead, token-Ahead}
use deltabase_c.Sql.Parser.Definitions.Ends.{parse_alter_table_throws}
use deltabase_c.Sql.Parser.{
  on_keyword, next_word, parse_alter, parse_statement, make_parser, parse_all, parse,
}

-- One token is at most one keyword.
pub other_keyword :
    (k l : SqlKeyword) (d : SqlTokenDetail)
    → is_keyword k d ≡ true
    → (keyword_code k == keyword_code l) ≡ false
    → is_keyword l d ≡ false
unfolding is_keyword
other_keyword k l monostate h e = refl
other_keyword k l (operator_detail x) h e = refl
other_keyword k l (symbol_detail x) h e = refl
other_keyword k l (literal_detail x) h e = refl
other_keyword k l (keyword_detail x) h e = ground arith

pub not_keyword :
    (k : SqlKeyword) (branch other : Parse Statement) {p : SqlParser} {t : SqlToken}
    {ts : List SqlToken}
    → Ahead p (t ∷ ts)
    → is_keyword k t.detail ≡ false
    → on_keyword k branch other p ≡ other p
unfolding on_keyword match_keyword after
not_keyword k branch other a h = ground (arith, token-Ahead a)

pub is_the_keyword :
    (k : SqlKeyword) (branch other : Parse Statement) {p : SqlParser} {t : SqlToken}
    {ts : List SqlToken}
    → Ahead p (t ∷ ts)
    → is_keyword k t.detail ≡ true
    → on_keyword k branch other p ≡ branch p
unfolding on_keyword match_keyword after
is_the_keyword k branch other a h = ground (arith, token-Ahead a)

pub parse_alter_throws :
    (n : ℕ) (ts : List SqlToken) (p : SqlParser)
    → From ts 0 p
    → length ts ≤ n
    → Ensures ⊥ (λ _ _. ⊥) (parse_alter n p)
unfolding parse_alter next_word on_keyword match_keyword
parse_alter_throws n ts p s e =
    then_do ⊥ (λ _ q. From ts 0 q) _ _
      (on_advance ⊥ _ s (λ q _ u. record { out = From-le (omega arith) u })
        (λ _. record { out = tt }))
      (λ _ q u.
        on_holds ⊥ _ _ u
          (λ _ _ _.
            then_do ⊥ _ _ _ (parse_alter_table_throws ⊥ n u (inr e))
              (λ _ _ no_value. absurd no_value))
          (λ _ _ _. record { out = tt }))

pub thrown : {A : Type 0} (o : Outcome A) → Ensures ⊥ (λ _ _. ⊥) o → (e : Exception) × (o ≡ threw e)
thrown (returned a p) h = absurd h.out
thrown (threw e) h = (e, refl)
thrown null_pointer h = absurd h.out
thrown still_running h = absurd h.out

pub alter_statement :
    (n : ℕ) {p : SqlParser} {t : SqlToken} {ts : List SqlToken}
    → Ahead p (t ∷ ts)
    → is_keyword alter_kw t.detail ≡ true
    → parse_statement n p ≡ parse_alter n p
unfolding parse_statement keyword_code
alter_statement n a h =
    not_keyword select_kw _ _ a (other_keyword alter_kw select_kw _ h refl)
    ∙ not_keyword insert_kw _ _ a (other_keyword alter_kw insert_kw _ h refl)
    ∙ not_keyword update_kw _ _ a (other_keyword alter_kw update_kw _ h refl)
    ∙ not_keyword delete_kw _ _ a (other_keyword alter_kw delete_kw _ h refl)
    ∙ not_keyword create_kw _ _ a (other_keyword alter_kw create_kw _ h refl)
    ∙ not_keyword drop_kw _ _ a (other_keyword alter_kw drop_kw _ h refl)
    ∙ is_the_keyword alter_kw _ _ a h

-- No statement that begins with ALTER is parsed: with fuel for each token, `parse` throws.
pub parse-alter_throws :
    (n : ℕ) (t : SqlToken) (ts : List SqlToken)
    → is_keyword alter_kw t.detail ≡ true
    → length (t ∷ ts) ≤ n
    → (e : Exception) × (parse n (t ∷ ts) ≡ threw e)
unfolding parse parse_all make_parser after
parse-alter_throws n t ts h l =
    let p : SqlParser = make_parser (t ∷ ts) in
    let s : From (t ∷ ts) 0 p = record { same = refl; from = omega arith; within = omega arith } in
    let a : Ahead p (t ∷ ts) = record { rest = refl; within = omega arith } in
    let (x, e) = thrown (parse_alter n p) (parse_alter_throws n (t ∷ ts) p s l) in
    (x, rw (alter_statement n a h ∙ e) refl)
