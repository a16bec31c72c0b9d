-- ===== src/Sql/Dictionary.antt =====
-- sql/include/dictionary.hpp and types/include/sql_token.hpp: the words and the tokens of the lexer.
use deltabase_c.Prelude.{
  ℕ, List, [], ◌∷◌, Option, none, some, Bool, true, false, if◌then◌else◌, ◌==◌,
}

pub data SqlTokenType : Type 0 where
  unknown keyword identifier literal operator symbol : SqlTokenType

pub data SqlKeyword : Type 0 where
  unknown_kw select_kw from_kw insert_kw into_kw values_kw update_kw set_kw delete_kw where_kw
        create_kw drop_kw database_kw table_kw string_kw integer_kw real_kw char_kw bool_kw null_kw
        primary_kw key_kw not_kw autoincrement_kw unique_kw schema_kw index_kw on_kw is_kw alter_kw
        add_kw column_kw :
      SqlKeyword

pub data SqlSymbol : Type 0 where
  unknown_symbol lparen rparen comma period semicolon : SqlSymbol

pub data SqlOperator : Type 0 where
  eq_so neq_so gr_so gre_so lt_so lte_so is_so and_so or_so not_so plus_so minus_so mul_so div_so
        assign_so :
      SqlOperator

pub data SqlLiteral : Type 0 where
  integer_lit string_lit bool_lit char_lit real_lit null_lit count : SqlLiteral

pub data SqlTokenDetail : Type 0 where
  monostate : SqlTokenDetail
  keyword_detail : SqlKeyword → SqlTokenDetail
  operator_detail : SqlOperator → SqlTokenDetail
  symbol_detail : SqlSymbol → SqlTokenDetail
  literal_detail : SqlLiteral → SqlTokenDetail

pub record SqlToken : Type 0 where
  pub type : SqlTokenType
  pub value : List ℕ
  pub line : ℕ
  pub pos : ℕ
  pub detail : SqlTokenDetail

-- The values of the enumerators.
unfoldable pub type_code : SqlTokenType → ℕ
type_code unknown = 0
type_code keyword = 1
type_code identifier = 2
type_code literal = 3
type_code operator = 4
type_code symbol = 5

unfoldable pub keyword_code : SqlKeyword → ℕ
keyword_code unknown_kw = 0
keyword_code select_kw = 1
keyword_code from_kw = 2
keyword_code insert_kw = 3
keyword_code into_kw = 4
keyword_code values_kw = 5
keyword_code update_kw = 6
keyword_code set_kw = 7
keyword_code delete_kw = 8
keyword_code where_kw = 9
keyword_code create_kw = 10
keyword_code drop_kw = 11
keyword_code database_kw = 12
keyword_code table_kw = 13
keyword_code string_kw = 14
keyword_code integer_kw = 15
keyword_code real_kw = 16
keyword_code char_kw = 17
keyword_code bool_kw = 18
keyword_code null_kw = 19
keyword_code primary_kw = 20
keyword_code key_kw = 21
keyword_code not_kw = 22
keyword_code autoincrement_kw = 23
keyword_code unique_kw = 24
keyword_code schema_kw = 25
keyword_code index_kw = 26
keyword_code on_kw = 27
keyword_code is_kw = 28
keyword_code alter_kw = 29
keyword_code add_kw = 30
keyword_code column_kw = 31

unfoldable pub symbol_code : SqlSymbol → ℕ
symbol_code unknown_symbol = 0
symbol_code lparen = 1
symbol_code rparen = 2
symbol_code comma = 3
symbol_code period = 4
symbol_code semicolon = 5

unfoldable pub operator_code : SqlOperator → ℕ
operator_code eq_so = 1
operator_code neq_so = 2
operator_code gr_so = 3
operator_code gre_so = 4
operator_code lt_so = 5
operator_code lte_so = 6
operator_code is_so = 7
operator_code and_so = 8
operator_code or_so = 9
operator_code not_so = 10
operator_code plus_so = 11
operator_code minus_so = 12
operator_code mul_so = 13
operator_code div_so = 14
operator_code assign_so = 15

same_word : List ℕ → List ℕ → Bool
same_word [] [] = true
same_word [] (b ∷ bs) = false
same_word (a ∷ left) [] = false
same_word (a ∷ left) (b ∷ right) = if a == b then same_word left right else false

-- `find` in a dictionary.
pub look_up {ℓ} : {A : Type ℓ} → List ℕ → List (List ℕ × A) → Option A
unfolding same_word
look_up word [] = none
look_up word ((key, a) ∷ entries) = if same_word key word then some a else look_up word entries

pub keywords_map : List (List ℕ × SqlKeyword)
keywords_map =
    (b'a' ∷ b'd' ∷ b'd' ∷ [], add_kw)
    ∷ (b'a' ∷ b'l' ∷ b't' ∷ b'e' ∷ b'r' ∷ [], alter_kw)
    ∷ (
      b'a' ∷ b'u' ∷ b't' ∷ b'o' ∷ b'i' ∷ b'n' ∷ b'c' ∷ b'r' ∷ b'e' ∷ b'm' ∷ b'e' ∷ b'n' ∷ b't' ∷ [],
      autoincrement_kw,
    )
    ∷ (b'b' ∷ b'o' ∷ b'o' ∷ b'l' ∷ [], bool_kw)
    ∷ (b'c' ∷ b'h' ∷ b'a' ∷ b'r' ∷ [], char_kw)
    ∷ (b'c' ∷ b'o' ∷ b'l' ∷ b'u' ∷ b'm' ∷ b'n' ∷ [], column_kw)
    ∷ (b'c' ∷ b'r' ∷ b'e' ∷ b'a' ∷ b't' ∷ b'e' ∷ [], create_kw)
    ∷ (b'd' ∷ b'a' ∷ b't' ∷ b'a' ∷ b'b' ∷ b'a' ∷ b's' ∷ b'e' ∷ [], database_kw)
    ∷ (b'd' ∷ b'e' ∷ b'l' ∷ b'e' ∷ b't' ∷ b'e' ∷ [], delete_kw)
    ∷ (b'd' ∷ b'r' ∷ b'o' ∷ b'p' ∷ [], drop_kw)
    ∷ (b'f' ∷ b'r' ∷ b'o' ∷ b'm' ∷ [], from_kw)
    ∷ (b'i' ∷ b'n' ∷ b'd' ∷ b'e' ∷ b'x' ∷ [], index_kw)
    ∷ (b'i' ∷ b'n' ∷ b's' ∷ b'e' ∷ b'r' ∷ b't' ∷ [], insert_kw)
    ∷ (b'i' ∷ b'n' ∷ b't' ∷ b'e' ∷ b'g' ∷ b'e' ∷ b'r' ∷ [], integer_kw)
    ∷ (b'i' ∷ b'n' ∷ b't' ∷ b'o' ∷ [], into_kw)
    ∷ (b'i' ∷ b's' ∷ [], is_kw)
    ∷ (b'k' ∷ b'e' ∷ b'y' ∷ [], key_kw)
    ∷ (b'n' ∷ b'o' ∷ b't' ∷ [], not_kw)
    ∷ (b'n' ∷ b'u' ∷ b'l' ∷ b'l' ∷ [], null_kw)
    ∷ (b'o' ∷ b'n' ∷ [], on_kw)
    ∷ (b'p' ∷ b'r' ∷ b'i' ∷ b'm' ∷ b'a' ∷ b'r' ∷ b'y' ∷ [], primary_kw)
    ∷ (b'r' ∷ b'e' ∷ b'a' ∷ b'l' ∷ [], real_kw)
    ∷ (b's' ∷ b'c' ∷ b'h' ∷ b'e' ∷ b'm' ∷ b'a' ∷ [], schema_kw)
    ∷ (b's' ∷ b'e' ∷ b'l' ∷ b'e' ∷ b'c' ∷ b't' ∷ [], select_kw)
    ∷ (b's' ∷ b'e' ∷ b't' ∷ [], set_kw)
    ∷ (b's' ∷ b't' ∷ b'r' ∷ b'i' ∷ b'n' ∷ b'g' ∷ [], string_kw)
    ∷ (b't' ∷ b'a' ∷ b'b' ∷ b'l' ∷ b'e' ∷ [], table_kw)
    ∷ (b'u' ∷ b'n' ∷ b'i' ∷ b'q' ∷ b'u' ∷ b'e' ∷ [], unique_kw)
    ∷ (b'u' ∷ b'p' ∷ b'd' ∷ b'a' ∷ b't' ∷ b'e' ∷ [], update_kw)
    ∷ (b'v' ∷ b'a' ∷ b'l' ∷ b'u' ∷ b'e' ∷ b's' ∷ [], values_kw)
    ∷ (b'w' ∷ b'h' ∷ b'e' ∷ b'r' ∷ b'e' ∷ [], where_kw)
    ∷ []

unfoldable pub operators_map : List (List ℕ × SqlOperator)
operators_map =
    (b'=' ∷ b'=' ∷ [], eq_so)
    ∷ (b'!' ∷ b'=' ∷ [], neq_so)
    ∷ (b'>' ∷ [], gr_so)
    ∷ (b'>' ∷ b'=' ∷ [], gre_so)
    ∷ (b'<' ∷ [], lt_so)
    ∷ (b'<' ∷ b'=' ∷ [], lte_so)
    ∷ (b'i' ∷ b's' ∷ [], is_so)
    ∷ (b'a' ∷ b'n' ∷ b'd' ∷ [], and_so)
    ∷ (b'o' ∷ b'r' ∷ [], or_so)
    ∷ (b'n' ∷ b'o' ∷ b't' ∷ [], not_so)
    ∷ (b'+' ∷ [], plus_so)
    ∷ (b'-' ∷ [], minus_so)
    ∷ (b'*' ∷ [], mul_so)
    ∷ (b'/' ∷ [], div_so)
    ∷ (b'=' ∷ [], assign_so)
    ∷ []

-- `symbols_map`, on one character.
unfoldable pub symbol_of : ℕ → Option SqlSymbol
symbol_of c =
    if c == b'('
    then some lparen
    else if c == b')'
    then some rparen
    else if c == b','
    then some comma
    else if c == b'.'
    then some period
    else if c == b';'
    then some semicolon
    else none
