-- ===== src/Types/WalLog/Codes.antt =====
-- wal_log.hpp: the numbers of the kinds of record.
use deltabase_c.Types.WalLog.{WalRecordType}
use deltabase_c.Prelude.{ℕ, arith, ◌≡◌, refl, Option, none, some, ◌==◌, if◌then◌else◌}
use deltabase_c.Stream.Word.{IsU64}

-- The numbers of the enumerators of `WALRecordType`.
unfoldable pub code : WalRecordType → ℕ
code WalRecordType.insert = 1
code WalRecordType.update = 2
code WalRecordType.delete = 3
code WalRecordType.create_table = 4
code WalRecordType.update_table = 5
code WalRecordType.delete_table = 6
code WalRecordType.create_schema = 7
code WalRecordType.update_schema = 8
code WalRecordType.delete_schema = 9
code WalRecordType.begin_txn = 10
code WalRecordType.commit_txn = 11
code WalRecordType.rollback_txn = 12
code WalRecordType.clr_insert = 13
code WalRecordType.clr_update = 14
code WalRecordType.clr_delete = 15
code WalRecordType.clr_create_schema = 16
code WalRecordType.clr_update_schema = 17
code WalRecordType.clr_delete_schema = 18
code WalRecordType.clr_create_table = 19
code WalRecordType.clr_update_table = 20
code WalRecordType.clr_delete_table = 21
code WalRecordType.create_index = 22
code WalRecordType.clr_create_index = 23
code WalRecordType.drop_index = 24
code WalRecordType.clr_drop_index = 25

-- `none` is a number of no enumerator.
pub of_code : ℕ → Option WalRecordType
of_code n =
    if n == 1
    then some WalRecordType.insert
    else if n == 2
    then some WalRecordType.update
    else if n == 3
    then some WalRecordType.delete
    else if n == 4
    then some WalRecordType.create_table
    else if n == 5
    then some WalRecordType.update_table
    else if n == 6
    then some WalRecordType.delete_table
    else if n == 7
    then some WalRecordType.create_schema
    else if n == 8
    then some WalRecordType.update_schema
    else if n == 9
    then some WalRecordType.delete_schema
    else if n == 10
    then some WalRecordType.begin_txn
    else if n == 11
    then some WalRecordType.commit_txn
    else if n == 12
    then some WalRecordType.rollback_txn
    else if n == 13
    then some WalRecordType.clr_insert
    else if n == 14
    then some WalRecordType.clr_update
    else if n == 15
    then some WalRecordType.clr_delete
    else if n == 16
    then some WalRecordType.clr_create_schema
    else if n == 17
    then some WalRecordType.clr_update_schema
    else if n == 18
    then some WalRecordType.clr_delete_schema
    else if n == 19
    then some WalRecordType.clr_create_table
    else if n == 20
    then some WalRecordType.clr_update_table
    else if n == 21
    then some WalRecordType.clr_delete_table
    else if n == 22
    then some WalRecordType.create_index
    else if n == 23
    then some WalRecordType.clr_create_index
    else if n == 24
    then some WalRecordType.drop_index
    else if n == 25
    then some WalRecordType.clr_drop_index
    else none

pub of_code-code : (t : WalRecordType) → of_code (code t) ≡ some t
unfolding of_code code
of_code-code WalRecordType.insert = refl
of_code-code WalRecordType.update = refl
of_code-code WalRecordType.delete = refl
of_code-code WalRecordType.create_table = refl
of_code-code WalRecordType.update_table = refl
of_code-code WalRecordType.delete_table = refl
of_code-code WalRecordType.create_schema = refl
of_code-code WalRecordType.update_schema = refl
of_code-code WalRecordType.delete_schema = refl
of_code-code WalRecordType.begin_txn = refl
of_code-code WalRecordType.commit_txn = refl
of_code-code WalRecordType.rollback_txn = refl
of_code-code WalRecordType.clr_insert = refl
of_code-code WalRecordType.clr_update = refl
of_code-code WalRecordType.clr_delete = refl
of_code-code WalRecordType.clr_create_schema = refl
of_code-code WalRecordType.clr_update_schema = refl
of_code-code WalRecordType.clr_delete_schema = refl
of_code-code WalRecordType.clr_create_table = refl
of_code-code WalRecordType.clr_update_table = refl
of_code-code WalRecordType.clr_delete_table = refl
of_code-code WalRecordType.create_index = refl
of_code-code WalRecordType.clr_create_index = refl
of_code-code WalRecordType.drop_index = refl
of_code-code WalRecordType.clr_drop_index = refl

pub code-IsU64 : (t : WalRecordType) → IsU64 (code t)
unfolding code
code-IsU64 WalRecordType.insert = omega arith
code-IsU64 WalRecordType.update = omega arith
code-IsU64 WalRecordType.delete = omega arith
code-IsU64 WalRecordType.create_table = omega arith
code-IsU64 WalRecordType.update_table = omega arith
code-IsU64 WalRecordType.delete_table = omega arith
code-IsU64 WalRecordType.create_schema = omega arith
code-IsU64 WalRecordType.update_schema = omega arith
code-IsU64 WalRecordType.delete_schema = omega arith
code-IsU64 WalRecordType.begin_txn = omega arith
code-IsU64 WalRecordType.commit_txn = omega arith
code-IsU64 WalRecordType.rollback_txn = omega arith
code-IsU64 WalRecordType.clr_insert = omega arith
code-IsU64 WalRecordType.clr_update = omega arith
code-IsU64 WalRecordType.clr_delete = omega arith
code-IsU64 WalRecordType.clr_create_schema = omega arith
code-IsU64 WalRecordType.clr_update_schema = omega arith
code-IsU64 WalRecordType.clr_delete_schema = omega arith
code-IsU64 WalRecordType.clr_create_table = omega arith
code-IsU64 WalRecordType.clr_update_table = omega arith
code-IsU64 WalRecordType.clr_delete_table = omega arith
code-IsU64 WalRecordType.create_index = omega arith
code-IsU64 WalRecordType.clr_create_index = omega arith
code-IsU64 WalRecordType.drop_index = omega arith
code-IsU64 WalRecordType.clr_drop_index = omega arith
