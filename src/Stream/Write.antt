-- ===== src/Stream/Write.antt =====
-- `MemoryStream` of memory_stream.cpp. A sequence of writes at the end of the buffer is a
-- concatenation: `at_end` and `at_start` are the streams that the serializers go through.
use deltabase_c.Prelude.{
  ℕ, ◌+◌, ◌-◌, ◌≤◌, ◌≡◌, refl, ap, List, [], ◌∷◌, ◌++◌, arith, ltb, if◌then◌else◌, length, take,
  drop, replicate, length-append, take-length, drop-all, take-all, append-nil, append_assoc,
  flat_map, Option, none, some, length-replicate, min, length-take, length-drop,
}

pub record MemoryStream : Type 0 where
  pub buffer : List ℕ
  pub position : ℕ

abbrev pub empty : MemoryStream
empty = record { buffer = []; position = 0 }

pub size : MemoryStream → ℕ
size s = length s.buffer

-- `resize` to a larger size adds zero bytes.
grow : ℕ → List ℕ → List ℕ
grow n bytes = if ltb (length bytes) n then bytes ++ replicate (n - length bytes) 0 else bytes

pub write : List ℕ → MemoryStream → MemoryStream
unfolding grow
write src s =
    let end = s.position + length src in
    let grown = grow end s.buffer in
    record { buffer = take s.position grown ++ src ++ drop end grown; position = end }

-- `append` puts the bytes at the end of the buffer, wherever the position is.
pub append : MemoryStream → ℕ → MemoryStream → MemoryStream
append other count s =
    let n = min count (length other.buffer) in
    record { buffer = s.buffer ++ take n other.buffer; position = s.position + n }

pub seek : ℕ → MemoryStream → Option MemoryStream
seek pos s = if ltb (length s.buffer) pos then none else some (record s { position = pos })

-- `seek(0)`, which does not throw: see `seek-zero`.
pub rewind : MemoryStream → MemoryStream
rewind s = record s { position = 0 }

pub seek-zero : (s : MemoryStream) → seek 0 s ≡ some (rewind s)
unfolding seek rewind
seek-zero s = ground arith

-- A range-based `for` loop whose body writes to one stream.
pub for_each {ℓ} :
    {A : Type ℓ} → List A → (A → MemoryStream → MemoryStream) → MemoryStream → MemoryStream
for_each [] body s = s
for_each (x ∷ xs) body s = for_each xs body (body x s)

infixl 20 ◌▹◌
abbrev pub ◌▹◌ : MemoryStream → (MemoryStream → MemoryStream) → MemoryStream
s ▹ f = f s

pub at_end : List ℕ → MemoryStream
at_end bs = record { buffer = bs; position = length bs }

pub at_start : List ℕ → MemoryStream
at_start bs = record { buffer = bs; position = 0 }

pub buffer-at_end : (bs : List ℕ) → (at_end bs).buffer ≡ bs
unfolding at_end
buffer-at_end bs = refl

pub buffer-at_start : (bs : List ℕ) → (at_start bs).buffer ≡ bs
unfolding at_start
buffer-at_start bs = refl

pub empty_lem : empty ≡ at_end []
unfolding at_end
empty_lem = refl

take-grow : (n : ℕ) (bs : List ℕ) → take (length bs) (grow (length bs + n) bs) ≡ bs
unfolding grow
take-grow n bs =
    ground
      (arith, take-length bs (replicate (length bs + n - length bs) 0), take-all (length bs) bs)

length-grow : (n : ℕ) (bs : List ℕ) → length (grow (length bs + n) bs) ≡ length bs + n
unfolding grow
length-grow n bs = ground (
  arith,
  length-append bs (replicate (length bs + n - length bs) 0),
  length-replicate {A = ℕ} (length bs + n - length bs) 0,
)

pub write-at_end : (src bs : List ℕ) → write src (at_end bs) ≡ at_end (bs ++ src)
unfolding write at_end
write-at_end src bs = rw (
  take-grow (length src) bs,
  drop-all (length bs + length src) (grow (length bs + length src) bs)
      (omega (arith, length-grow (length src) bs)),
  append-nil (bs ++ src),
  length-append bs src,
)

pub append-at_end :
    (bs cs : List ℕ) → append (at_start cs) (size (at_start cs)) (at_end bs) ≡ at_end (bs ++ cs)
unfolding append at_end at_start size
append-at_end bs cs =
    let e : min (length cs) (length cs) ≡ length cs = omega arith in
    rw (e, take-all (length cs) cs (omega arith), length-append bs cs)

pub rewind-at_end : (bs : List ℕ) → rewind (at_end bs) ≡ at_start bs
unfolding rewind at_end at_start
rewind-at_end bs = refl

-- A loop whose body adds the bytes of its element adds the bytes of them all.
pub for_each-at_end {ℓ} :
    {A : Type ℓ} (enc : A → List ℕ) (body : A → MemoryStream → MemoryStream)
    → ((x : A) (bs : List ℕ) → body x (at_end bs) ≡ at_end (bs ++ enc x))
    → (xs : List A) (bs : List ℕ) → for_each xs body (at_end bs) ≡ at_end (bs ++ flat_map enc xs)
unfolding for_each
for_each-at_end enc body h [] bs = rw append-nil
for_each-at_end enc body h (x ∷ xs) bs =
    rw (h x bs) (rw (for_each-at_end enc body h xs (bs ++ enc x), append_assoc))

pub ruleset writing = (
  empty_lem, write-at_end, append-at_end, rewind-at_end, append_assoc, buffer-at_start,
  buffer-at_end,
)
