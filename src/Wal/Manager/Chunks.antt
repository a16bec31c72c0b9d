-- ===== src/Wal/Manager/Chunks.antt =====
-- The log files as lists of records, and what writing, sorting and reading the files comes to.
use deltabase_c.Prelude.{
  ℕ, ◌+◌, ◌^◌, ◌≤◌, ◌<◌, ◌≡◌, refl, ap, ◌∙◌, sym, List, [], ◌∷◌, ◌++◌, arith, flat_map,
  flat_map-append, All, append_assoc, append-nil, ◌==◌, if◌then◌else◌, Bool-cases, inl, inr, ==_iff,
}
use deltabase_c.Types.WalLog.{WalRecord, lsn_of}
use deltabase_c.Wal.Manager.{
  LogFile, logs, append_result, frame, file_first_lsn, append_file, write_record, write_all,
  read_files, sort_files, insert_file, make_first_file, last_lsn,
}
use deltabase_c.Wal.Manager.Rising.{Rising, last_lsn-ge}
use deltabase_c.Wal.Manager.Frames.{
  IsStorable, Uninitialised, IsUninitialised, read_logs_from_file-frames,
}

-- A file, by the records whose frames it holds.
abbrev pub Chunk : Type 0
Chunk = ℕ × List WalRecord

abbrev as_file : Chunk → LogFile
as_file c = (c.0, flat_map frame c.1)

abbrev pub as_files : List Chunk → List LogFile
as_files [] = []
as_files (c ∷ cs) = as_file c ∷ as_files cs

abbrev pub contents : List Chunk → List WalRecord
contents [] = []
contents (c ∷ cs) = c.1 ++ contents cs

add_chunk : ℕ → WalRecord → List Chunk → List Chunk
add_chunk k r [] = (k, r ∷ []) ∷ []
add_chunk k r ((j, rs) ∷ cs) = if j == k then (j, rs ++ r ∷ []) ∷ cs else (j, rs) ∷ add_chunk k r cs

pub add_all : List WalRecord → List Chunk → List Chunk
add_all [] cs = cs
add_all (r ∷ rs) cs = add_all rs (add_chunk (file_first_lsn (lsn_of r)) r cs)

-- The names rise strictly from above `lo`, and end at `hi` at the latest.
abbrev pub InOrder : ℕ → ℕ → List Chunk → Type 0
InOrder lo hi [] = lo ≤ hi
InOrder lo hi ((j, rs) ∷ cs) = (lo < j) × InOrder j hi cs

InOrder-le : (lo hi : ℕ) (cs : List Chunk) → InOrder lo hi cs → lo ≤ hi
InOrder-le lo hi [] h = h
InOrder-le lo hi ((j, rs) ∷ cs) h = omega (arith, InOrder-le j hi cs h.1, h.0)

InOrder-mono : (lo hi hi' : ℕ) (cs : List Chunk) → hi ≤ hi' → InOrder lo hi cs → InOrder lo hi' cs
InOrder-mono lo hi hi' [] k h = omega arith
InOrder-mono lo hi hi' ((j, rs) ∷ cs) k h = (h.0, InOrder-mono j hi hi' cs k h.1)

full : (k : ℕ) (cs : List Chunk) → InOrder k k cs → cs ≡ []
full k [] h = refl
full k ((j, rs) ∷ cs) h = absurd (omega (arith, h.0, InOrder-le j k cs h.1))

write_record-as_files :
    (r : WalRecord) (cs : List Chunk)
    → write_record r (as_files cs) ≡ as_files (add_chunk (file_first_lsn (lsn_of r)) r cs)
unfolding write_record append_file add_chunk
write_record-as_files r [] = rw append-nil
write_record-as_files r ((j, rs) ∷ cs) =
    let k : ℕ = file_first_lsn (lsn_of r) in
    elim (Bool-cases (j == k)) [
      | inl same ↦ rw (same, flat_map-append frame rs (r ∷ []), append-nil)
      | inr other ↦ rw other (ap (◌∷◌ (as_file (j, rs))) (write_record-as_files r cs))
    ]

pub write_all-as_files :
    (rs : List WalRecord) (cs : List Chunk) → write_all rs (as_files cs) ≡ as_files (add_all rs cs)
unfolding write_all add_all
write_all-as_files [] cs = refl
write_all-as_files (r ∷ rs) cs =
    rw (write_record-as_files r cs)
      (write_all-as_files rs (add_chunk (file_first_lsn (lsn_of r)) r cs))

contents-add_chunk :
    (lo k : ℕ) (r : WalRecord) (cs : List Chunk)
    → lo < k
    → InOrder lo k cs
    → (contents (add_chunk k r cs) ≡ contents cs ++ r ∷ []) × InOrder lo k (add_chunk k r cs)
unfolding add_chunk
contents-add_chunk lo k r [] l h = (refl, (l, omega arith))
contents-add_chunk lo k r ((j, rs) ∷ cs) l h = elim (Bool-cases (j == k)) [
  | inl same ↦
      let e : j ≡ k = (==_iff j k).0 same in
      let z : cs ≡ [] = full k cs (rw e at h.1) in
      rw (same, z) (simp append-nil, (h.0, rw e (omega arith)))
  | inr other ↦
      let n : j < k = ground (arith, other, InOrder-le j k cs h.1) in
      let (c, o) = contents-add_chunk j k r cs n h.1 in
      rw other (ap (◌++◌ rs) c ∙ sym (append_assoc rs (contents cs) (r ∷ [])), (h.0, o))
]

file_first_lsn_mono : (a b : ℕ) → 0 < a → a ≤ b → b < 2 ^ 64 → file_first_lsn a ≤ file_first_lsn b
unfolding file_first_lsn
file_first_lsn_mono a b h k l = omega arith

file_first_lsn-pos : (a : ℕ) → 0 < file_first_lsn a
unfolding file_first_lsn
file_first_lsn-pos a = omega arith

-- Records whose LSNs rise end up in the files in that order.
pub contents-add_all :
    (lo hi : ℕ) (rs : List WalRecord) (cs : List Chunk)
    → hi ≤ file_first_lsn (lo + 1)
    → Rising lo rs
    → last_lsn lo rs + 1 < 2 ^ 64
    → InOrder 0 hi cs
    → (top : ℕ) × (contents (add_all rs cs) ≡ contents cs ++ rs) × InOrder 0 top (add_all rs cs)
unfolding add_all last_lsn
contents-add_all lo hi [] cs p h l o = (hi, sym (append-nil (contents cs)), o)
contents-add_all lo hi (r ∷ rs) cs p h l o =
    let k : ℕ = file_first_lsn (lsn_of r) in
    let bound : lsn_of r + 1 < 2 ^ 64 = omega (arith, last_lsn-ge (lsn_of r) rs h.1) in
    let m : hi ≤ k = omega (
      arith,
      file_first_lsn_mono (lo + 1) (lsn_of r) (omega arith) (omega (arith, h.0))
          (omega (arith, bound)),
    ) in
    let (c, i) =
      contents-add_chunk 0 k r cs (file_first_lsn-pos (lsn_of r)) (InOrder-mono 0 hi k cs m o) in
    let (top, d, j) =
      contents-add_all (lsn_of r) k rs (add_chunk k r cs)
        (file_first_lsn_mono (lsn_of r) (lsn_of r + 1) (omega (arith, h.0)) (omega arith) bound) h.1
        l i in
    (top, d ∙ ap (λ (xs : List WalRecord). xs ++ rs) c ∙ append_assoc (contents cs) (r ∷ []) rs, j)

pub sort_files-InOrder :
    (lo hi : ℕ) (cs : List Chunk) → InOrder lo hi cs → sort_files (as_files cs) ≡ as_files cs
unfolding sort_files insert_file
sort_files-InOrder lo hi [] h = refl
sort_files-InOrder lo hi (c ∷ []) h = refl
sort_files-InOrder lo hi ((j, rs) ∷ (k, qs) ∷ cs) h =
    rw (sort_files-InOrder j hi ((k, qs) ∷ cs) h.1) (ground (arith, h.1.0))

All-append-left : (rs qs : List WalRecord) → All IsStorable (rs ++ qs) → All IsStorable rs
All-append-left [] qs h = tt
All-append-left (r ∷ rs) qs h = (h.0, All-append-left rs qs h.1)

All-append-right : (rs qs : List WalRecord) → All IsStorable (rs ++ qs) → All IsStorable qs
All-append-right [] qs h = h
All-append-right (r ∷ rs) qs h = All-append-right rs qs h.1

pub read_files-as_files :
    (u : Uninitialised)
    → IsUninitialised u
    → (cs : List Chunk) → All IsStorable (contents cs)
    → read_files u.locals u.record_size (as_files cs) ≡ logs (contents cs)
unfolding read_files append_result
read_files-as_files u hu [] h = refl
read_files-as_files u hu ((j, rs) ∷ cs) h = rw (
  read_logs_from_file-frames u hu rs (All-append-left rs (contents cs) h),
  read_files-as_files u hu cs (All-append-right rs (contents cs) h),
)

pub make_first_file-write_all :
    (rs : List WalRecord) (f : LogFile) (files : List LogFile)
    → make_first_file (write_all rs (f ∷ files)) ≡ write_all rs (f ∷ files)
unfolding write_all write_record append_file make_first_file
make_first_file-write_all [] f files = refl
make_first_file-write_all (r ∷ rs) (name, content) files =
    elim (Bool-cases (name == file_first_lsn (lsn_of r))) [
      | inl same ↦ rw same (make_first_file-write_all rs _ files)
      | inr other ↦ rw other (make_first_file-write_all rs (name, content) _)
    ]
