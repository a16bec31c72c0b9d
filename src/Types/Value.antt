-- ===== src/Types/Value.antt =====
-- data_type.hpp, data_token.hpp, data_row.hpp and UUID.hpp.
use deltabase_c.Prelude.{
  ℕ, zero, suc, ◌+◌, ◌-◌, ◌%◌, ◌≤◌, ◌<◌, ◌^◌, ◌≡◌, refl, List, [], arith, length, replicate, All,
}
use deltabase_c.Stream.Word.{IsU64, IsU32}

abbrev pub Uuid : Type 0
Uuid = List ℕ

abbrev pub IsUuid : Uuid → Type 0
IsUuid u = length u ≡ 16

-- `value_{}` and `uuid_clear`.
abbrev pub null_uuid : Uuid
null_uuid = replicate 16 0

-- An enumeration over `uint64_t`, read from a file without a check, can hold any such number:
-- `unnamed n` is the value `n`, which no enumerator has.
pub data DataType : Type 0 where
  undefined null integer real char bool string : DataType
  unnamed : ℕ → DataType

unfoldable pub to_u64 : DataType → ℕ
to_u64 undefined = 0
to_u64 null = 1
to_u64 integer = 2
to_u64 real = 3
to_u64 char = 4
to_u64 bool = 5
to_u64 string = 6
to_u64 (unnamed n) = n

pub of_u64 : ℕ → DataType
of_u64 zero = undefined
of_u64 (suc zero) = null
of_u64 (suc (suc zero)) = integer
of_u64 (suc (suc (suc zero))) = real
of_u64 (suc (suc (suc (suc zero)))) = char
of_u64 (suc (suc (suc (suc (suc zero))))) = bool
of_u64 (suc (suc (suc (suc (suc (suc zero)))))) = string
of_u64 (suc (suc (suc (suc (suc (suc (suc n))))))) =
    unnamed (suc (suc (suc (suc (suc (suc (suc n)))))))

abbrev pub IsDataType : DataType → Type 0
IsDataType (unnamed n) = (7 ≤ n) × (n < 2 ^ 64)
IsDataType _ = Unit {0}

of_u64-unnamed : (n : ℕ) → 7 ≤ n → of_u64 n ≡ unnamed n
unfolding of_u64
of_u64-unnamed zero h = absurd (omega arith)
of_u64-unnamed (suc zero) h = absurd (omega arith)
of_u64-unnamed (suc (suc zero)) h = absurd (omega arith)
of_u64-unnamed (suc (suc (suc zero))) h = absurd (omega arith)
of_u64-unnamed (suc (suc (suc (suc zero)))) h = absurd (omega arith)
of_u64-unnamed (suc (suc (suc (suc (suc zero))))) h = absurd (omega arith)
of_u64-unnamed (suc (suc (suc (suc (suc (suc zero)))))) h = absurd (omega arith)
of_u64-unnamed (suc (suc (suc (suc (suc (suc (suc n))))))) h = refl

pub of_u64-to_u64 : (t : DataType) → IsDataType t → of_u64 (to_u64 t) ≡ t
unfolding of_u64 to_u64
of_u64-to_u64 undefined h = refl
of_u64-to_u64 null h = refl
of_u64-to_u64 integer h = refl
of_u64-to_u64 real h = refl
of_u64-to_u64 char h = refl
of_u64-to_u64 bool h = refl
of_u64-to_u64 string h = refl
of_u64-to_u64 (unnamed n) h = of_u64-unnamed n h.0

pub to_u64-IsU64 : (t : DataType) → IsDataType t → IsU64 (to_u64 t)
unfolding to_u64
to_u64-IsU64 undefined h = omega arith
to_u64-IsU64 null h = omega arith
to_u64-IsU64 integer h = omega arith
to_u64-IsU64 real h = omega arith
to_u64-IsU64 char h = omega arith
to_u64-IsU64 bool h = omega arith
to_u64-IsU64 string h = omega arith
to_u64-IsU64 (unnamed n) h = h.1

pub record DataToken : Type 0 where
  pub bytes : List ℕ
  pub type : DataType

-- A null token holds no bytes.
abbrev pub NoBytes : DataType → List ℕ → Type 0
NoBytes null bs = bs ≡ []
NoBytes _ bs = Unit {0}

pub record IsToken (t : DataToken) : Type 0 where
  pub named : IsDataType t.type
  pub sized : IsU64 (length t.bytes)
  pub nothing : NoBytes t.type t.bytes

-- `DataRowFlags` as the bits of an `int`: `none` or `obsolete`.
abbrev pub no_flags : ℕ
no_flags = 0

abbrev pub obsolete : ℕ
obsolete = 1

-- `flags | OBSOLETE` and `flags & ~OBSOLETE`: bit 0 is set, or cleared.
pub set_obsolete : ℕ → ℕ
set_obsolete flags = flags - flags % 2 + 1

pub clear_obsolete : ℕ → ℕ
clear_obsolete flags = flags - flags % 2

pub set_obsolete_odd : (flags : ℕ) → set_obsolete flags % 2 ≡ 1
unfolding set_obsolete
set_obsolete_odd flags = omega arith

pub clear_obsolete_even : (flags : ℕ) → clear_obsolete flags % 2 ≡ 0
unfolding clear_obsolete
clear_obsolete_even flags = omega arith

pub record DataRow : Type 0 where
  pub id : ℕ
  pub flags : ℕ
  pub tokens : List DataToken

pub record IsRow (r : DataRow) : Type 0 where
  pub id : IsU64 r.id
  pub flags : IsU32 r.flags
  pub count : IsU64 (length r.tokens)
  pub tokens : All IsToken r.tokens
