-- ===== src/Evaluator.antt =====
-- executor/evaluator.cpp: the comparison of two tokens, without the search of a column in a table. How
-- `double`s compare is a parameter.
pub mod Orders
use deltabase_c.Prelude.{
  ℕ, ◌+◌, ◌%◌, ◌^◌, List, [], ◌∷◌, Bool, true, false, not, ◌||◌, ltb, leb, ◌==◌, if◌then◌else◌,
}
use deltabase_c.Stream.Word.{of_le}
use deltabase_c.Types.Value.{to_u64, DataToken, DataType, null, integer, real, string, bool, char}

pub data AstOperator : Type 0 where
  undefined or and not_op eq_op neq_op gr_op gre_op lt_op lte_op is_op assign : AstOperator

-- `==`, `>` and `>=` on two `double`s that are given by their bytes.
pub record Doubles : Type 0 where
  pub eq : List ℕ → List ℕ → Bool
  pub gr : List ℕ → List ℕ → Bool
  pub gre : List ℕ → List ℕ → Bool

-- `as<int>`, moved up by 2 ^ 31, so that the order of `int`s is that of the numbers.
unfoldable pub as_int : List ℕ → ℕ
as_int bytes = (of_le bytes + 2 ^ 31) % 2 ^ 32

first_byte : List ℕ → ℕ
first_byte [] = 0
first_byte (b ∷ bs) = b

-- `as<char>`, signed, moved up by 2 ^ 7.
pub as_char : List ℕ → ℕ
unfolding first_byte
as_char bytes = (first_byte bytes + 2 ^ 7) % 2 ^ 8

pub as_bool : List ℕ → Bool
unfolding first_byte
as_bool bytes = not (first_byte bytes == 0)

pub same_bool : Bool → Bool → Bool
same_bool true b = b
same_bool false b = not b

-- `==`, `>` and `>=` on two `std::string`s.
pub same_string : List ℕ → List ℕ → Bool
same_string [] [] = true
same_string [] (b ∷ bs) = false
same_string (a ∷ left) [] = false
same_string (a ∷ left) (b ∷ right) = if a == b then same_string left right else false

pub string_gr : List ℕ → List ℕ → Bool
string_gr [] right = false
string_gr (a ∷ left) [] = true
string_gr (a ∷ left) (b ∷ right) = if a == b then string_gr left right else ltb b a

pub string_gre : List ℕ → List ℕ → Bool
string_gre left [] = true
string_gre [] (b ∷ bs) = false
string_gre (a ∷ left) (b ∷ right) = if a == b then string_gre left right else ltb b a

-- `left.type == right.type`
unfoldable pub same_type : DataType → DataType → Bool
same_type left right = to_u64 left == to_u64 right

module _ (doubles : Doubles) where
  eq_as : DataType → List ℕ → List ℕ → Bool
  unfolding as_int as_char as_bool same_bool same_string
  eq_as null left right = true
  eq_as integer left right = as_int left == as_int right
  eq_as real left right = doubles.eq left right
  eq_as string left right = same_string left right
  eq_as bool left right = same_bool (as_bool left) (as_bool right)
  eq_as char left right = as_char left == as_char right
  eq_as type left right = false

  is_null : DataType → Bool
  is_null null = true
  is_null type = false

  pub eq : DataToken → DataToken → Bool
  unfolding eq_as is_null same_type
  eq left right =
      if is_null left.type || is_null right.type
      then same_type left.type right.type
      else if same_type left.type right.type
      then eq_as left.type left.bytes right.bytes
      else false

  gr_as : DataType → List ℕ → List ℕ → Bool
  unfolding as_int as_char string_gr
  gr_as integer left right = ltb (as_int right) (as_int left)
  gr_as real left right = doubles.gr left right
  gr_as string left right = string_gr left right
  gr_as char left right = ltb (as_char right) (as_char left)
  gr_as type left right = false

  gre_as : DataType → List ℕ → List ℕ → Bool
  unfolding as_int as_char string_gre
  gre_as integer left right = leb (as_int right) (as_int left)
  gre_as real left right = doubles.gre left right
  gre_as string left right = string_gre left right
  gre_as char left right = leb (as_char right) (as_char left)
  gre_as type left right = false

  -- The overloads of `lt` return `left > right`.
  lt_as : DataType → List ℕ → List ℕ → Bool
  unfolding as_int as_char string_gr
  lt_as integer left right = ltb (as_int right) (as_int left)
  lt_as real left right = doubles.gr left right
  lt_as string left right = string_gr left right
  lt_as char left right = ltb (as_char right) (as_char left)
  lt_as type left right = false

  -- The overloads of `lte` return `left >= right`.
  lte_as : DataType → List ℕ → List ℕ → Bool
  unfolding as_int as_char string_gre
  lte_as integer left right = leb (as_int right) (as_int left)
  lte_as real left right = doubles.gre left right
  lte_as string left right = string_gre left right
  lte_as char left right = leb (as_char right) (as_char left)
  lte_as type left right = false

  pub gr : DataToken → DataToken → Bool
  unfolding gr_as same_type
  gr left right =
      if same_type left.type right.type then gr_as left.type left.bytes right.bytes else false

  pub gre : DataToken → DataToken → Bool
  unfolding gre_as same_type
  gre left right =
      if same_type left.type right.type then gre_as left.type left.bytes right.bytes else false

  pub lt : DataToken → DataToken → Bool
  unfolding lt_as same_type
  lt left right =
      if same_type left.type right.type then lt_as left.type left.bytes right.bytes else false

  pub lte : DataToken → DataToken → Bool
  unfolding lte_as same_type
  lte left right =
      if same_type left.type right.type then lte_as left.type left.bytes right.bytes else false

  pub evaluate : DataToken → DataToken → AstOperator → Bool
  unfolding eq gr gre lt lte
  evaluate left right eq_op = eq left right
  evaluate left right neq_op = not (eq left right)
  evaluate left right lt_op = lt left right
  evaluate left right lte_op = lte left right
  evaluate left right gr_op = gr left right
  evaluate left right gre_op = gre left right
  evaluate left right is_op = eq left right
  evaluate left right op = false
