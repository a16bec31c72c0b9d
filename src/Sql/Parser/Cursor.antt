-- ===== src/Sql/Parser/Cursor.antt =====
-- The position of a `SqlParser` in its tokens, and the monad of its methods.
pub mod Triples
pub mod Ahead
use deltabase_c.Prelude.{
  ℕ, zero, suc, ◌+◌, ◌-◌, ◌<◌, List, Option, none, some, Bool, true, false, ltb, ◌==◌,
  if◌then◌else◌, length, get_elem?,
}
use deltabase_c.Sql.Dictionary.{
  SqlToken, SqlTokenType, SqlTokenDetail, SqlKeyword, SqlOperator, SqlSymbol, monostate,
  keyword_detail, operator_detail, symbol_detail, literal_detail, type_code, keyword_code,
  operator_code, symbol_code,
}

pub record SqlParser : Type 0 where
  pub tokens : List SqlToken
  pub current : ℕ

pub data Exception : Type 0 where
  invalid_statement_syntax runtime_error bad_variant_access out_of_range : Exception

-- What a method does: it returns, it throws, it reads through a null pointer, or it has not ended
-- when the fuel is used up.
pub data Outcome {ℓ} (A : Type ℓ) : Type ℓ where
  returned : A → SqlParser → Outcome A
  threw : Exception → Outcome A
  null_pointer : Outcome A
  still_running : Outcome A

abbrev pub Parse {ℓ} : Type ℓ → Type ℓ
Parse A = SqlParser → Outcome A

unfoldable pub after {ℓ κ} :
    {A : Type ℓ} {B : Type κ} → Outcome A → (A → SqlParser → Outcome B) → Outcome B
after (returned a p) f = f a p
after (threw e) f = threw e
after null_pointer f = null_pointer
after still_running f = still_running

infixl 5 ◌>>=◌ ◌>>◌
abbrev pub ◌>>=◌ {ℓ κ} : {A : Type ℓ} {B : Type κ} → Parse A → (A → Parse B) → Parse B
◌>>=◌ m f p = after (m p) f

abbrev pub ◌>>◌ {ℓ κ} : {A : Type ℓ} {B : Type κ} → Parse A → Parse B → Parse B
◌>>◌ m k p = after (m p) (λ _. k)

abbrev pub return {ℓ} : {A : Type ℓ} → A → Parse A
return a p = returned a p

abbrev pub throw {ℓ} : {A : Type ℓ} → Exception → Parse A
throw e p = threw e

abbrev pub out_of_fuel {ℓ} : {A : Type ℓ} → Parse A
out_of_fuel p = still_running

unfoldable pub advance : Parse Bool
advance p =
    if ltb (p.current + 1) (length p.tokens)
    then returned true (record p { current = p.current + 1 })
    else returned false p

unfoldable pub advance_or_throw : Parse Bool
advance_or_throw = do
  moved ← advance
  elim moved [ true ↦ return true | false ↦ throw runtime_error ]

-- `current_--`.
unfoldable pub step_back : Parse Bool
step_back p = returned true (record p { current = p.current - 1 })

abbrev pub current_token : SqlParser → Option SqlToken
current_token p = get_elem? p.tokens p.current

-- `*current()`.
unfoldable pub current : Parse SqlToken
current p = elim (current_token p) [ none ↦ null_pointer | some t ↦ returned t p ]

-- `match(expected)` at each type of `expected`.
abbrev pub holds : (SqlToken → Bool) → Parse Bool
holds test p = elim (current_token p) [ none ↦ returned false p | some t ↦ returned (test t) p ]

unfoldable pub is_type : SqlTokenType → SqlToken → Bool
is_type expected t = type_code t.type == type_code expected

unfoldable pub is_keyword : SqlKeyword → SqlTokenDetail → Bool
is_keyword expected (keyword_detail k) = keyword_code k == keyword_code expected
is_keyword expected _ = false

unfoldable pub is_operator : SqlOperator → SqlTokenDetail → Bool
is_operator expected (operator_detail o) = operator_code o == operator_code expected
is_operator expected _ = false

unfoldable pub is_symbol : SqlSymbol → SqlTokenDetail → Bool
is_symbol expected (symbol_detail s) = symbol_code s == symbol_code expected
is_symbol expected _ = false

unfoldable pub match_type : SqlTokenType → Parse Bool
match_type expected = holds (λ t. is_type expected t)

unfoldable pub match_keyword : SqlKeyword → Parse Bool
match_keyword expected = holds (λ t. is_keyword expected t.detail)

unfoldable pub match_operator : SqlOperator → Parse Bool
match_operator expected = holds (λ t. is_operator expected t.detail)

unfoldable pub match_symbol : SqlSymbol → Parse Bool
match_symbol expected = holds (λ t. is_symbol expected t.detail)

unfoldable pub match_or_throw : Parse Bool → Parse Bool
match_or_throw test = do
  found ← test
  elim found [ true ↦ return true | false ↦ throw invalid_statement_syntax ]
