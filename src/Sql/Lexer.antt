-- ===== src/Sql/Lexer.antt =====
-- sql/lexer.cpp: `lex`, on a query as its characters. What is left of the query stands for the index.
pub mod Ends
pub mod Stuck
use deltabase_c.Prelude.{
  ℕ, zero, suc, ◌+◌, List, [], ◌∷◌, Option, none, some, Bool, true, false, not, ◌&&◌, ◌||◌,
  if◌then◌else◌, ltb, leb, ◌==◌, length, take, drop, map,
}
use deltabase_c.Sql.Dictionary.{
  SqlToken, SqlTokenType, SqlTokenDetail, SqlOperator, keyword, identifier, literal, operator,
  symbol, monostate, keyword_detail, operator_detail, symbol_detail, literal_detail, integer_lit,
  real_lit, string_lit, period, keywords_map, operators_map, symbol_of, look_up,
}

abbrev between : ℕ → ℕ → ℕ → Bool
between low high c = leb low c && leb c high

-- `std::isspace`, `std::isdigit` and `std::isalpha` of the C locale; `_` counts as a letter.
unfoldable pub isspace : ℕ → Bool
isspace c = c == 32 || between 9 13 c

unfoldable pub isdigit : ℕ → Bool
isdigit c = between 48 57 c

unfoldable pub isalpha : ℕ → Bool
isalpha c = between 65 90 c || between 97 122 c || c == 95

pub to_lower : List ℕ → List ℕ
to_lower [] = []
to_lower (c ∷ cs) = (if between 65 90 c then c + 32 else c) ∷ to_lower cs

pub get_word_length : List ℕ → ℕ
unfolding isalpha isdigit
get_word_length [] = 0
get_word_length (c ∷ cs) =
    let rest = get_word_length cs in if isalpha c || isdigit c then suc rest else 0

-- `dot_found` is whether a dot has been read.
pub get_number_length : Bool → List ℕ → ℕ
unfolding isdigit
get_number_length dot_found [] = 0
get_number_length dot_found (c ∷ cs) =
    let rest = get_number_length (dot_found || c == 46) cs in
    if isdigit c || (not dot_found && c == 46) then suc rest else 0

-- How many characters stand before the next `quote`.
pub find_quote : ℕ → List ℕ → Option ℕ
find_quote quote [] = none
find_quote quote (c ∷ cs) =
    if c == quote
    then some 0
    else elim (find_quote quote cs) [ none ↦ none | some n ↦ some (suc n) ]

unfoldable pub has_first : ℕ → List (List ℕ × SqlOperator) → Bool
has_first c [] = false
has_first c (([], op) ∷ entries) = has_first c entries
has_first c ((d ∷ word, op) ∷ entries) = d == c || has_first c entries

unfoldable pub starts_as_operator : ℕ → Bool
unfolding has_first
starts_as_operator c = has_first c operators_map

-- The loop over candidates of `max_len` characters and less, which stops when the query is too short.
pub find_operator : ℕ → List ℕ → Option (SqlOperator × ℕ)
unfolding to_lower
find_operator zero rest = none
find_operator (suc max_len) rest =
    if ltb (length rest) (suc max_len)
    then none
    else elim (look_up (to_lower (take (suc max_len) rest)) operators_map) [
      | some op ↦ some (op, suc max_len)
      | none ↦ find_operator max_len rest
    ]

-- What a round of the loop does: it goes on with another line and position after so many characters,
-- it adds a token, or it throws.
pub data Round : Type 0 where
  skips : (line pos consumed : ℕ) → Round
  adds : (token : SqlToken) (consumed : ℕ) → Round
  throws : Round

token_of : SqlTokenType → List ℕ → ℕ → ℕ → SqlTokenDetail → SqlToken
token_of type value line pos detail = record {
  type = type;
  value = value;
  line = line;
  pos = pos;
  detail = detail;
}

word_token : List ℕ → ℕ → ℕ → SqlToken
unfolding token_of
word_token word line pos = elim (look_up word keywords_map) [
  | some k ↦ token_of keyword word line pos (keyword_detail k)
  | none ↦ elim (look_up word operators_map) [
    | some op ↦ token_of operator word line pos (operator_detail op)
    | none ↦ token_of identifier word line pos monostate
  ]
]

lex_word : ℕ → ℕ → List ℕ → Round
unfolding word_token to_lower
lex_word line pos rest =
    let n = get_word_length rest in adds (word_token (to_lower (take n rest)) line pos) n

lex_quoted : SqlTokenType → SqlTokenDetail → ℕ → ℕ → ℕ → List ℕ → Round
unfolding token_of
lex_quoted type detail quote line pos cs = elim (find_quote quote cs) [
  | none ↦ throws
  | some n ↦ adds (token_of type (take n cs) line pos detail) (n + 2)
]

is_real : List ℕ → Bool
is_real [] = false
is_real (c ∷ cs) = c == b'.' || c == b'e' || c == b'E' || is_real cs

lex_number : ℕ → ℕ → List ℕ → Round
unfolding token_of is_real
lex_number line pos rest =
    let n = get_number_length false rest in
    let word = take n rest in
    adds
      (token_of literal word line pos
        (literal_detail (if is_real word then real_lit else integer_lit)))
      n

lex_operator : ℕ → ℕ → List ℕ → Round
unfolding token_of to_lower
lex_operator line pos rest = elim (find_operator 3 rest) [
  | none ↦ throws
  | some (op, n) ↦ adds (token_of operator (to_lower (take n rest)) line pos (operator_detail op)) n
]

lex_symbol : ℕ → ℕ → ℕ → Round
unfolding token_of
lex_symbol line pos c = elim (symbol_of c) [
  | some s ↦ adds (token_of symbol (c ∷ []) line pos (symbol_detail s)) 1
  | none ↦
      if c == 46
      then adds (token_of symbol (c ∷ []) line pos (symbol_detail period)) 1
      else skips line pos 0
]

-- A character that no branch takes is not consumed.
pub lex_round : ℕ → ℕ → ℕ → List ℕ → Round
unfolding isspace isalpha isdigit starts_as_operator lex_word lex_quoted lex_number lex_operator
    lex_symbol
lex_round line pos c cs =
    if isspace c
    then (if c == 10 then skips (line + 1) 0 1 else skips line (pos + 1) 1)
    else if isalpha c
    then lex_word line pos (c ∷ cs)
    else if c == 39
    then lex_quoted literal (literal_detail string_lit) 39 line pos cs
    else if c == 34
    then lex_quoted identifier monostate 34 line pos cs
    else if isdigit c
    then lex_number line pos (c ∷ cs)
    else if starts_as_operator c
    then lex_operator line pos (c ∷ cs)
    else lex_symbol line pos c

pub data Lexed : Type 0 where
  tokens : List SqlToken → Lexed
  threw : Lexed
  still_running : Lexed

pub add_token : SqlToken → Lexed → Lexed
add_token t (tokens ts) = tokens (t ∷ ts)
add_token t other = other

pub lex_from : ℕ → ℕ → ℕ → List ℕ → Lexed
unfolding lex_round add_token
lex_from fuel line pos [] = tokens []
lex_from zero line pos (c ∷ cs) = still_running
lex_from (suc fuel) line pos (c ∷ cs) = elim (lex_round line pos c cs) [
  | skips line' pos' n ↦ lex_from fuel line' pos' (drop n (c ∷ cs))
  | adds t n ↦ add_token t (lex_from fuel line (pos + n) (drop n (c ∷ cs)))
  | throws ↦ threw
]

-- After so many rounds.
pub lex : ℕ → List ℕ → Lexed
unfolding lex_from
lex fuel query = lex_from fuel 1 0 query
