-- ===== src/Wal/Manager.antt =====
-- file_wal_manager.cpp. Every method holds the mutex of the database from its start to its end, so
-- that a method is one step; the inner mutex and the condition variable add nothing to that. Log files are
-- kept by their first LSN, in the order in which they were made.
pub mod Rising
pub mod Invariant
pub mod Durable
pub mod Lookup
pub mod Waiting
pub mod Frames
mod Chunks
pub mod Restart
use deltabase_c.Prelude.{
  ℕ, zero, suc, ◌+◌, ◌-◌, ◌*◌, ◌/◌, ◌%◌, ◌^◌, List, [], ◌∷◌, ◌++◌, Bool, true, false, Option, none,
  some, ltb, leb, ◌==◌, if◌then◌else◌, length, take,
}
use deltabase_c.Stream.Word.{le_bytes, of_le}
use deltabase_c.Stream.{ReadOnlyMemoryStream, open_stream, remaining, read_word_some}
use deltabase_c.Types.WalLog.{WalRecord, lsn_of, set_lsn}
use deltabase_c.Wal.Locals.{Locals}
use deltabase_c.Wal.Serializer.{serialize, deserialize}

-- A log file: the first LSN of its name, and its bytes.
abbrev pub LogFile : Type 0
LogFile = ℕ × List ℕ

pub record FileWalManager : Type 0 where
  pub next_lsn : ℕ
  pub flushed_lsn : ℕ
  pub flushed : List WalRecord
  pub dirty : List WalRecord
  pub files : List LogFile

abbrev pub max_records_per_logfile : ℕ
max_records_per_logfile = 1000

-- `x + 1` on a `uint64_t`.
abbrev pub next_u64 : ℕ → ℕ
next_u64 n = (n + 1) % 2 ^ 64

-- A method that may throw.
pub data Outcome {ℓ} (A : Type ℓ) : Type ℓ where
  returned : A → Outcome A
  threw : Outcome A

-- Writing.

-- `record_lsn - 1` wraps at 0.
pub file_first_lsn : ℕ → ℕ
file_first_lsn lsn =
    (lsn + 2 ^ 64 - 1) % 2 ^ 64 / max_records_per_logfile * max_records_per_logfile + 1

-- The size of the record, then the record.
pub frame : WalRecord → List ℕ
frame r = let serialized = (serialize r).buffer in le_bytes 8 (length serialized) ++ serialized

-- A file opened with `O_CREAT | O_APPEND` is made if it is not there, and written at its end.
pub append_file : ℕ → List ℕ → List LogFile → List LogFile
append_file first bytes [] = (first, bytes) ∷ []
append_file first bytes ((name, content) ∷ files) =
    if name == first
    then (name, content ++ bytes) ∷ files
    else (name, content) ∷ append_file first bytes files

-- Where the file system fails: so many records are written whole, and so many bytes of the next.
pub record Fault : Type 0 where
  pub records : ℕ
  pub bytes : ℕ

pub write_record : WalRecord → List LogFile → List LogFile
write_record r = append_file (file_first_lsn (lsn_of r)) (frame r)

pub write_all : List WalRecord → List LogFile → List LogFile
write_all [] files = files
write_all (r ∷ logs) files = write_all logs (write_record r files)

write_until : ℕ → ℕ → List WalRecord → List LogFile → List LogFile
write_until records bytes [] files = files
write_until zero bytes (r ∷ logs) files =
    append_file (file_first_lsn (lsn_of r)) (take bytes (frame r)) files
write_until (suc n) bytes (r ∷ logs) files = write_until n bytes logs (write_record r files)

pub write_logs : Option Fault → List WalRecord → List LogFile → Outcome (Unit {0}) × List LogFile
unfolding write_until
write_logs none logs files = (returned tt, write_all logs files)
write_logs (some fault) logs files = (threw, write_until fault.records fault.bytes logs files)

-- Reading.

pub data ReadResult : Type 0 where
  logs : List WalRecord → ReadResult
  failed : ReadResult
  out_of_fuel : ReadResult

pub add_log : WalRecord → ReadResult → ReadResult
add_log r (logs rs) = logs (r ∷ rs)
add_log r failed = failed
add_log r out_of_fuel = out_of_fuel

-- The loop of `read_logs_from_file`; `size` holds what the local `record_size` held.
pub read_frames : Locals → List ℕ → ℕ → ReadOnlyMemoryStream → ReadResult
read_frames locals size zero stream = out_of_fuel
read_frames locals size (suc fuel) stream = elim (ltb 0 (remaining stream)) [
  | false ↦ logs []
  | true ↦ elim (read_word_some 8 size stream) [
    | none ↦ logs []
    | some (record_size, stream') ↦ elim (ltb (remaining stream') record_size) [
      | true ↦ logs []
      | false ↦ elim (deserialize locals stream') [
        | none ↦ failed
        | some (r, stream'') ↦ add_log r (read_frames locals size fuel stream'')
      ]
    ]
  ]
]

-- A round takes a byte at least.
pub read_logs_from_file : Locals → List ℕ → List ℕ → ReadResult
read_logs_from_file locals size content =
    read_frames locals size (length content + 1) (open_stream content)

pub append_result : ReadResult → ReadResult → ReadResult
append_result (logs rs) (logs rs') = logs (rs ++ rs')
append_result (logs rs) other = other
append_result other rest = other

pub read_files : Locals → List ℕ → List LogFile → ReadResult
read_files locals size [] = logs []
read_files locals size ((name, content) ∷ files) =
    append_result (read_logs_from_file locals size content) (read_files locals size files)

-- `std::sort` of the files by name, and of the records by LSN, which no two share.
insert_file : LogFile → List LogFile → List LogFile
insert_file f [] = f ∷ []
insert_file f (g ∷ files) = if leb f.0 g.0 then f ∷ g ∷ files else g ∷ insert_file f files

pub sort_files : List LogFile → List LogFile
sort_files [] = []
sort_files (f ∷ files) = insert_file f (sort_files files)

insert_log : WalRecord → List WalRecord → List WalRecord
insert_log r [] = r ∷ []
insert_log r (q ∷ rs) = if leb (lsn_of r) (lsn_of q) then r ∷ q ∷ rs else q ∷ insert_log r rs

pub sort_logs : List WalRecord → List WalRecord
sort_logs [] = []
sort_logs (r ∷ rs) = insert_log r (sort_logs rs)

-- `next_lsn_` ends up behind every record.
pub next_after : ℕ → List WalRecord → ℕ
next_after next [] = next
next_after next (r ∷ rs) = next_after (if leb next (lsn_of r) then next_u64 (lsn_of r) else next) rs

-- The LSN of the last record, `lo` if there is none.
unfoldable pub last_lsn : ℕ → List WalRecord → ℕ
last_lsn lo [] = lo
last_lsn lo (r ∷ rs) = last_lsn (lsn_of r) rs

abbrev hydrated : List LogFile → ReadResult → Outcome FileWalManager
hydrated files (logs rs) = returned (record {
  next_lsn = next_after 1 rs;
  flushed_lsn = last_lsn 0 (sort_logs rs);
  flushed = sort_logs rs;
  dirty = [];
  files = files;
})
hydrated files failed = threw
hydrated files out_of_fuel = threw

pub hydrate_cache : Locals → List ℕ → List LogFile → Outcome FileWalManager
hydrate_cache locals size files = hydrated files (read_files locals size (sort_files files))

-- The constructor makes a first log file in an empty directory.
pub make_first_file : List LogFile → List LogFile
make_first_file [] = (1, []) ∷ []
make_first_file (f ∷ files) = f ∷ files

pub open_manager : Locals → List ℕ → List LogFile → Outcome FileWalManager
open_manager locals size files = hydrate_cache locals size (make_first_file files)

-- The methods.

pub append_log : WalRecord → FileWalManager → ℕ × FileWalManager
append_log r m =
    let lsn = m.next_lsn in
    (lsn, record m { next_lsn = next_u64 lsn; dirty = m.dirty ++ set_lsn lsn r ∷ [] })

append_from : ℕ → List WalRecord → FileWalManager → ℕ × FileWalManager
append_from last [] m = (last, m)
append_from last (r ∷ rs) m = let (lsn, m') = append_log r m in append_from lsn rs m'

pub append_logs : List WalRecord → FileWalManager → ℕ × FileWalManager
unfolding append_from
append_logs rs m = append_from 0 rs m

unfoldable pub find_log : ℕ → List WalRecord → Option WalRecord
find_log lsn [] = none
find_log lsn (r ∷ rs) = if lsn_of r == lsn then some r else find_log lsn rs

or_else : Option WalRecord → Option WalRecord → Option WalRecord
or_else (some r) o = some r
or_else none o = o

-- `none` is the exception that the record was not found.
pub read_log : ℕ → FileWalManager → Option WalRecord
unfolding or_else
read_log lsn m = or_else (find_log lsn m.dirty) (find_log lsn m.flushed)

unfoldable pub read_all_logs : FileWalManager → List WalRecord
read_all_logs m = m.flushed ++ m.dirty

-- The records leave `dirty_` before they are written, and are cached only if that succeeds.
flush_batch : Option Fault → List WalRecord → FileWalManager → Outcome (Unit {0}) × FileWalManager
flush_batch fault [] m = (returned tt, m)
flush_batch fault (r ∷ rest) m =
    let (outcome, files) = write_logs fault (r ∷ rest) m.files in
    let batch_max_lsn = last_lsn 0 (r ∷ rest) in
    elim outcome [
      | threw ↦ (threw, record m { dirty = []; files = files })
      | returned _ ↦ (
        returned tt,
        record m {
          dirty = [];
          files = files;
          flushed = m.flushed ++ r ∷ rest;
          flushed_lsn = if ltb m.flushed_lsn batch_max_lsn then batch_max_lsn else m.flushed_lsn;
        },
      )
    ]

pub flush : Option Fault → FileWalManager → Outcome (Unit {0}) × FileWalManager
unfolding flush_batch
flush fault m = flush_batch fault m.dirty m

-- The file system's behaviour in each round of the loop, and what the call comes to: `none` is that
-- it is still waiting after so many rounds.
pub wait_for_durable :
    ℕ → (ℕ → Option Fault) → ℕ → FileWalManager → Option (Outcome (Unit {0}) × FileWalManager)
wait_for_durable zero faults lsn m = none
wait_for_durable (suc rounds) faults lsn m = elim (ltb m.flushed_lsn lsn) [
  | false ↦ some (returned tt, m)
  | true ↦
      let (outcome, m') = flush (faults rounds) m in
      elim outcome [ threw ↦ some (threw, m') | returned _ ↦ wait_for_durable rounds faults lsn m' ]
]
