-- ===== src/Index/Keys.antt =====
-- data_token.cpp: == and < on tokens, and `compare_token` of index_bplus_tree.cpp. How `double`s compare
-- is a parameter.
use Prim.Native.Nat.{Ordering}
use deltabase_c.Prelude.{ℕ, List, Bool, true, false, not, ltb, ◌==◌, if◌then◌else◌, ◌&&◌}
use deltabase_c.Types.Value.{
  DataToken, DataType, undefined, null, integer, real, char, bool, string, unnamed, to_u64,
}
use deltabase_c.Evaluator.{
  Doubles, as_int, as_char, as_bool, same_string, string_gr, same_type, same_bool,
}

module _ (doubles : Doubles) where
  unfoldable pub equal_as : DataType → List ℕ → List ℕ → Bool
  equal_as null lhs rhs = true
  equal_as integer lhs rhs = as_int lhs == as_int rhs
  equal_as real lhs rhs = doubles.eq lhs rhs
  equal_as char lhs rhs = as_char lhs == as_char rhs
  equal_as bool lhs rhs = same_bool (as_bool lhs) (as_bool rhs)
  equal_as string lhs rhs = same_string lhs rhs
  equal_as undefined lhs rhs = same_string lhs rhs
  equal_as (unnamed n) lhs rhs = same_string lhs rhs

  -- `operator==`
  unfoldable pub equal : DataToken → DataToken → Bool
  equal lhs rhs =
      if same_type lhs.type rhs.type then equal_as lhs.type lhs.bytes rhs.bytes else false

  -- On vectors of bytes, `<` is that of strings; `<` on `double`s is `>` the other way round.
  unfoldable pub less_as : DataType → List ℕ → List ℕ → Bool
  less_as integer lhs rhs = ltb (as_int lhs) (as_int rhs)
  less_as real lhs rhs = doubles.gr rhs lhs
  less_as char lhs rhs = ltb (as_char lhs) (as_char rhs)
  less_as bool lhs rhs = not (as_bool lhs) && as_bool rhs
  less_as string lhs rhs = string_gr rhs lhs
  less_as null lhs rhs = string_gr rhs lhs
  less_as undefined lhs rhs = string_gr rhs lhs
  less_as (unnamed n) lhs rhs = string_gr rhs lhs

  -- `operator<`
  unfoldable pub less : DataToken → DataToken → Bool
  less lhs rhs =
      if same_type lhs.type rhs.type
      then less_as lhs.type lhs.bytes rhs.bytes
      else ltb (to_u64 lhs.type) (to_u64 rhs.type)

  -- The answers -1, 0 and 1.
  unfoldable pub compare_token : DataToken → DataToken → Ordering
  compare_token a b =
      if equal a b then Ordering.eq else if less a b then Ordering.lt else Ordering.gt

abbrev pub is_zero : Ordering → Bool
is_zero Ordering.lt = false
is_zero Ordering.eq = true
is_zero Ordering.gt = false

abbrev pub is_negative : Ordering → Bool
is_negative Ordering.lt = true
is_negative Ordering.eq = false
is_negative Ordering.gt = false

abbrev pub is_positive : Ordering → Bool
is_positive Ordering.lt = false
is_positive Ordering.eq = false
is_positive Ordering.gt = true
