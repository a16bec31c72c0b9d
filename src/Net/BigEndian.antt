-- ===== src/Net/BigEndian.antt =====
-- utils.hpp and memory_stream.cpp: 64-bit sizes with the highest byte first, and the methods of the
-- streams that take them.
use deltabase_c.Prelude.{
  some, ◌==◌, drop, none, suc, ◌≤◌, ltb, append-nil, if◌then◌else◌, ◌∙◌, length, ℕ, ◌+◌, ◌*◌, ◌/◌,
  ◌%◌, ◌^◌, ◌<◌, ◌≡◌, refl, sym, ap, List, [], ◌∷◌, ◌++◌, Bool, true, false, arith,
}
use deltabase_c.Stream.Word.{le_bytes, of_le, of_le-le_bytes, IsU64}
use deltabase_c.Stream.Cut.{Cuts, Cuts-bind, Cuts-read_word, remaining-Cuts}
use deltabase_c.Stream.{
  fits, Parses-read_exactly, Parses-read_word, Parses-bind, writing, at_end, MemoryStream, write,
  ◌▹◌, ReadOnlyMemoryStream, remaining, Reader, ◌>>=◌, read_exactly, read_word, Parses,
}

-- Each byte is masked and shifted to its mirrored place.
unfoldable pub to_big_endian_u64 : ℕ → ℕ
to_big_endian_u64 value =
    value % 256 * 2 ^ 56
    + value / 2 ^ 8 % 256 * 2 ^ 48
    + value / 2 ^ 16 % 256 * 2 ^ 40
    + value / 2 ^ 24 % 256 * 2 ^ 32
    + value / 2 ^ 32 % 256 * 2 ^ 24
    + value / 2 ^ 40 % 256 * 2 ^ 16
    + value / 2 ^ 48 % 256 * 2 ^ 8
    + value / 2 ^ 56 % 256

abbrev pub from_big_endian_u64 : ℕ → ℕ
from_big_endian_u64 value = to_big_endian_u64 value

-- A value whose bytes are known, highest first, is the mirror of the value with the bytes the
-- other way round.
pub mirror :
    (a b c d e f g h : ℕ)
    → a < 256
    → b < 256
    → c < 256
    → d < 256
    → e < 256
    → f < 256
    → g < 256
    → h < 256
    → to_big_endian_u64 (of_le (a ∷ b ∷ c ∷ d ∷ e ∷ f ∷ g ∷ h ∷ []))
      ≡ of_le (h ∷ g ∷ f ∷ e ∷ d ∷ c ∷ b ∷ a ∷ [])
unfolding to_big_endian_u64 of_le
mirror a b c d e f g h ha hb hc hd he hf hg hh = omega arith

digit : (v : ℕ) → v % 256 < 256
digit v = omega arith

pub from_big_endian-to_big_endian :
    (v : ℕ) → IsU64 v → from_big_endian_u64 (to_big_endian_u64 v) ≡ v
unfolding le_bytes
from_big_endian-to_big_endian v h =
    let a = v / 256 in
    let b = a / 256 in
    let c = b / 256 in
    let d = c / 256 in
    let e = d / 256 in
    let f = e / 256 in
    let g = f / 256 in
    let once =
      mirror (v % 256) (a % 256) (b % 256) (c % 256) (d % 256) (e % 256) (f % 256) (g % 256)
        (digit v) (digit a) (digit b) (digit c) (digit d) (digit e) (digit f) (digit g) in
    let twice =
      mirror (g % 256) (f % 256) (e % 256) (d % 256) (c % 256) (b % 256) (a % 256) (v % 256)
        (digit g) (digit f) (digit e) (digit d) (digit c) (digit b) (digit a) (digit v) in
    let same = of_le-le_bytes 8 v h in
    ap to_big_endian_u64 (ap to_big_endian_u64 (sym same) ∙ once) ∙ twice ∙ same

pub to_big_endian-IsU64 : (v : ℕ) → IsU64 (to_big_endian_u64 v)
unfolding to_big_endian_u64
to_big_endian-IsU64 v = omega arith

-- `write_u64` of the stream, with its byte order.
unfoldable pub write_u64_as : ℕ → Bool → MemoryStream → MemoryStream
write_u64_as value big_endian =
    write (le_bytes 8 (if big_endian then to_big_endian_u64 value else value))

-- `if (!value.empty()) write(value.data(), value.size());`
pub unless_empty : List ℕ → MemoryStream → MemoryStream
unless_empty [] stream = stream
unless_empty (b ∷ bytes) stream = stream ▹ write (b ∷ bytes)

pub write_bytes : List ℕ → Bool → MemoryStream → MemoryStream
write_bytes bytes big_endian stream =
    let size = if big_endian then to_big_endian_u64 (length bytes) else length bytes in
    stream ▹ write (le_bytes 8 size) ▹ unless_empty bytes

pub write_string : List ℕ → Bool → MemoryStream → MemoryStream
write_string value big_endian stream =
    let size = if big_endian then to_big_endian_u64 (length value) else length value in
    stream ▹ write (le_bytes 8 size) ▹ unless_empty value

-- What is behind the size.
read_sized : Bool → ℕ → Reader (List ℕ)
read_sized big_endian size_be s =
    let size = if big_endian then from_big_endian_u64 size_be else size_be in
    if ltb (remaining s) size then none else if size == 0 then some ([], s) else read_exactly size s

pub read_bytes : Bool → Reader (List ℕ)
unfolding read_sized
read_bytes big_endian = do size_be ← read_word 8; read_sized big_endian size_be

pub read_string : Bool → Reader (List ℕ)
unfolding read_sized
read_string big_endian = do size_be ← read_word 8; read_sized big_endian size_be

-- A size, highest byte first, and the bytes.
unfoldable pub sized : List ℕ → List ℕ
sized bytes = le_bytes 8 (to_big_endian_u64 (length bytes)) ++ bytes

unless_empty_lem : (bytes bs : List ℕ) → unless_empty bytes (at_end bs) ≡ at_end (bs ++ bytes)
unfolding unless_empty
unless_empty_lem [] bs = rw append-nil
unless_empty_lem (b ∷ bytes) bs = simp writing

pub write_bytes_lem :
    (bytes bs : List ℕ) → write_bytes bytes true (at_end bs) ≡ at_end (bs ++ sized bytes)
unfolding write_bytes sized
write_bytes_lem bytes bs = simp (writing, unless_empty_lem)

pub write_string_lem :
    (value bs : List ℕ) → write_string value true (at_end bs) ≡ at_end (bs ++ sized value)
unfolding write_string sized
write_string_lem value bs = simp (writing, unless_empty_lem)

not_empty : (n : ℕ) → (suc n == 0) ≡ false
not_empty n = ground arith

not_short :
    (s : ReadOnlyMemoryStream) (bs rest : List ℕ)
    → s.position ≤ length s.buffer
    → drop s.position s.buffer ≡ bs ++ rest
    → ltb (remaining s) (length bs) ≡ false
unfolding remaining
not_short s bs rest h e = let k = fits s bs rest h e in ground arith

Parses-read_sized :
    (bytes : List ℕ)
    → IsU64 (length bytes)
    → Parses (read_sized true (to_big_endian_u64 (length bytes))) bytes bytes
unfolding read_sized
Parses-read_sized [] k = record {
  at = λ s rest h e.
      let z : s.position + 0 ≡ s.position = omega arith in
      rw (from_big_endian-to_big_endian 0 k, not_short s [] rest h e, z);
}
Parses-read_sized (b ∷ bytes) k = record {
  at = λ s rest h e.
      rw
        (
          from_big_endian-to_big_endian (length (b ∷ bytes)) k,
          not_short s (b ∷ bytes) rest h e,
          not_empty (length bytes),
        )
        ((Parses-read_exactly (length (b ∷ bytes)) (b ∷ bytes) refl).at s rest h e);
}

pub Parses-read_bytes :
    (bytes : List ℕ) → IsU64 (length bytes) → Parses (read_bytes true) (sized bytes) bytes
unfolding read_bytes sized
Parses-read_bytes bytes k =
    Parses-bind _
      (Parses-read_word 8 (to_big_endian_u64 (length bytes)) (to_big_endian-IsU64 (length bytes)))
      (Parses-read_sized bytes k)

pub Parses-read_string :
    (value : List ℕ) → IsU64 (length value) → Parses (read_string true) (sized value) value
unfolding read_string sized
Parses-read_string value k =
    Parses-bind _
      (Parses-read_word 8 (to_big_endian_u64 (length value)) (to_big_endian-IsU64 (length value)))
      (Parses-read_sized value k)

Cuts-read_sized :
    (bytes : List ℕ)
    → IsU64 (length bytes)
    → Cuts (read_sized true (to_big_endian_u64 (length bytes))) bytes
unfolding read_sized remaining
Cuts-read_sized bytes h = record {
  at = λ s k p l e.
      let r = remaining-Cuts s bytes k p l e in
      rw (from_big_endian-to_big_endian (length bytes) h) (ground arith);
}

pub Cuts-read_bytes : (bytes : List ℕ) → IsU64 (length bytes) → Cuts (read_bytes true) (sized bytes)
unfolding read_bytes sized
Cuts-read_bytes bytes k =
    let size = to_big_endian_u64 (length bytes) in
    Cuts-bind _ (Parses-read_word 8 size (to_big_endian-IsU64 (length bytes)))
      (Cuts-read_word 8 size) (Cuts-read_sized bytes k)

pub Cuts-read_string :
    (value : List ℕ) → IsU64 (length value) → Cuts (read_string true) (sized value)
unfolding read_string sized
Cuts-read_string value k =
    let size = to_big_endian_u64 (length value) in
    Cuts-bind _ (Parses-read_word 8 size (to_big_endian-IsU64 (length value)))
      (Cuts-read_word 8 size) (Cuts-read_sized value k)
