-- ===== src/Stream/Read.antt =====
-- `ReadOnlyMemoryStream` of memory_stream.cpp, and what it means that a deserializer reads a value
-- from some bytes and stops behind them.
use deltabase_c.Stream.Word.{le_bytes, of_le, of_le-le_bytes, length-le_bytes}
use deltabase_c.Prelude.{
  flat_map, All, ◌<◌, ◌^◌, ℕ, zero, suc, ◌+◌, ◌-◌, ◌≤◌, ◌≡◌, refl, ap, List, [], ◌∷◌, ◌++◌, arith,
  ltb, ◌==◌, drop-all, ◌∙◌, false, if◌then◌else◌, length, take, drop, length-append, take-length,
  drop-length, drop-drop, length-drop, append_assoc, append-nil, Option, none, some, ==_refl,
}

pub record ReadOnlyMemoryStream : Type 0 where
  pub buffer : List ℕ
  pub position : ℕ

unfoldable pub open_stream : List ℕ → ReadOnlyMemoryStream
open_stream bytes = record { buffer = bytes; position = 0 }

unfoldable pub remaining : ReadOnlyMemoryStream → ℕ
remaining s = length s.buffer - s.position

-- The bytes that `read` copies to its destination, and the stream behind them.
unfoldable pub read : ℕ → ReadOnlyMemoryStream → List ℕ × ReadOnlyMemoryStream
read count s =
    let n =
      if ltb (length s.buffer) (s.position + count) then length s.buffer - s.position else count in
    (take n (drop s.position s.buffer), record s { position = s.position + n })

-- A deserializer: `none` is the answer `false`.
abbrev pub Reader {ℓ} : Type ℓ → Type ℓ
Reader A = ReadOnlyMemoryStream → Option (A × ReadOnlyMemoryStream)

module _ {ℓ κ} {A : Type ℓ} {B : Type κ} where
  infixl 5 ◌>>=◌
  unfoldable pub ◌>>=◌ : Reader A → (A → Reader B) → Reader B
  ◌>>=◌ m f s = elim (m s) [ none ↦ none | some (a, s') ↦ f a s' ]

module _ {ℓ} {A : Type ℓ} where
  pub pure : A → Reader A
  pure a s = some (a, s)

  pub fail : Reader A
  fail s = none

-- `if (stream.read(p, n) != n) return false;`
unfoldable pub read_exactly : ℕ → Reader (List ℕ)
read_exactly count s =
    let (bytes, s') = read count s in if length bytes == count then some (bytes, s') else none

-- `if (!stream.read(p, n)) return false;` fails only if there is no byte at all; where there are
-- fewer than n, the rest of the destination stays as it was.
pub read_some : ℕ → List ℕ → Reader (List ℕ)
read_some count old s =
    let (bytes, s') = read count s in
    if length bytes == 0 then none else some (bytes ++ drop (length bytes) old, s')

-- `stream.read(p, n);` with the count ignored.
pub read_over : ℕ → List ℕ → Reader (List ℕ)
read_over count old s =
    let (bytes, s') = read count s in some (bytes ++ drop (length bytes) old, s')

-- `for (i = 0; i < count; ++i) { T x; if (!m(x)) return false; out.push_back(x); }`
unfoldable pub read_many {ℓ} : {A : Type ℓ} → Reader A → ℕ → Reader (List A)
unfolding ◌>>=◌ pure
read_many m zero = pure []
read_many m (suc n) = do x ← m; xs ← read_many m n; pure (x ∷ xs)

-- From a stream whose next bytes are `bs`, `m` reads `a` and stops behind them.
pub record Parses {ℓ} {A : Type ℓ} (m : Reader A) (bs : List ℕ) (a : A) : Type ℓ where
  pub at :
      (s : ReadOnlyMemoryStream) (rest : List ℕ)
      → s.position ≤ length s.buffer
      → drop s.position s.buffer ≡ bs ++ rest
      → m s ≡ some (a, record s { position = s.position + length bs })

pub fits :
    (s : ReadOnlyMemoryStream) (bs rest : List ℕ)
    → s.position ≤ length s.buffer
    → drop s.position s.buffer ≡ bs ++ rest
    → s.position + length bs ≤ length s.buffer
fits s bs rest h e =
    omega (arith, ap length e, length-append bs rest, length-drop s.position s.buffer)

pub behind :
    (s : ReadOnlyMemoryStream) (bs rest : List ℕ)
    → drop s.position s.buffer ≡ bs ++ rest
    → drop (s.position + length bs) s.buffer ≡ rest
behind s bs rest e =
    rw (← drop-drop s.position (length bs) s.buffer (s.position + length bs) refl, e)
      (drop-length bs rest)

read_lem :
    (s : ReadOnlyMemoryStream) (bs rest : List ℕ)
    → s.position ≤ length s.buffer
    → drop s.position s.buffer ≡ bs ++ rest
    → read (length bs) s ≡ (bs, record s { position = s.position + length bs })
unfolding read
read_lem s bs rest h e = rw e (ground (arith, fits s bs rest h e, take-length bs rest))

module _ {ℓ} {A : Type ℓ} where
  pub Parses-pure : (a : A) → Parses (pure a) [] a
  unfolding pure
  Parses-pure a = record {
    at = λ s rest h e. let z : s.position + 0 ≡ s.position = omega arith in rw z;
  }

not_zero : (k n : ℕ) → k ≡ suc n → (k == 0) ≡ false
not_zero k n e = ground arith

pub Parses-read_exactly : (n : ℕ) (bs : List ℕ) → length bs ≡ n → Parses (read_exactly n) bs bs
unfolding read_exactly
Parses-read_exactly n bs k = record {
  at = λ s rest h e. rw (← k) (rw (read_lem s bs rest h e, ==_refl));
}

-- Reads that come up short are told apart only where the bytes run out.
pub Parses-read_some :
    (n : ℕ) (old bs : List ℕ)
    → length bs ≡ suc n
    → length old ≡ suc n
    → Parses (read_some (suc n) old) bs bs
unfolding read_some
Parses-read_some n old bs k l = record {
  at = λ s rest h e. rw (← k) (
      rw (
        read_lem s bs rest h e,
        not_zero (length bs) n k,
        drop-all (length bs) old (omega arith),
        append-nil bs,
      ));
}

pub Parses-read_over :
    (n : ℕ) (old bs : List ℕ) → length bs ≡ n → length old ≡ n → Parses (read_over n old) bs bs
unfolding read_over
Parses-read_over n old bs k l = record {
  at = λ s rest h e.
      rw (← k) (rw (read_lem s bs rest h e, drop-all (length bs) old (omega arith), append-nil bs));
}

module _ {ℓ κ} {A : Type ℓ} {B : Type κ} where
  pub Parses-bind :
      {m : Reader A} (f : A → Reader B) {bs cs : List ℕ} {a : A} {b : B}
      → Parses m bs a
      → Parses (f a) cs b
      → Parses (m >>= f) (bs ++ cs) b
  unfolding ◌>>=◌
  Parses-bind {m} f {bs} {cs} {a} {b} p q = record {
    at = λ s rest h e.
        let e' : drop s.position s.buffer ≡ bs ++ (cs ++ rest) = e ∙ append_assoc bs cs rest in
        let s' : ReadOnlyMemoryStream = record s { position = s.position + length bs } in
        let z : s.position + length bs + length cs ≡ s.position + length (bs ++ cs) =
          omega (arith, length-append bs cs) in
        rw (p.at s (cs ++ rest) h e', ◌>>=◌)
          (rw (q.at s' rest (fits s bs (cs ++ rest) h e') (behind s bs (cs ++ rest) e'), z));
  }

module _ {ℓ κ} {A : Type ℓ} {B : Type κ} where
  pub Parses-map :
      {m : Reader A} (g : A → B) {bs : List ℕ} {a : A}
      → Parses m bs a
      → Parses (m >>= λ x. pure (g x)) bs (g a)
  Parses-map {m} g {bs} {a} p =
      rw append-nil at (Parses-bind (λ x. pure (g x)) p (Parses-pure (g a)))

module _ {ℓ} {A : Type ℓ} where
  pub Parses-read_many :
      (m : Reader A) (enc : A → List ℕ) (xs : List A)
      → All (λ x. Parses m (enc x) x) xs
      → Parses (read_many m (length xs)) (flat_map enc xs) xs
  unfolding read_many
  Parses-read_many m enc [] h = Parses-pure []
  Parses-read_many m enc (x ∷ xs) h =
      Parses-bind (λ y. read_many m (length xs) >>= λ ys. pure (y ∷ ys)) h.0
        (Parses-map (λ ys. x ∷ ys) (Parses-read_many m enc xs h.1))

-- Integers.

unfoldable pub read_word : ℕ → Reader ℕ
read_word k = do bs ← read_exactly k; pure (of_le bs)

pub read_word_some : ℕ → List ℕ → Reader ℕ
read_word_some k old = do bs ← read_some k old; pure (of_le bs)

pub Parses-read_word : (k v : ℕ) → v < 256 ^ k → Parses (read_word k) (le_bytes k v) v
unfolding read_word
Parses-read_word k v h =
    rw (of_le-le_bytes k v h) at
      (Parses-map of_le (Parses-read_exactly k (le_bytes k v) (length-le_bytes k v)))

pub Parses-read_word_some :
    (k v : ℕ) (old : List ℕ)
    → length old ≡ suc k
    → v < 256 ^ suc k
    → Parses (read_word_some (suc k) old) (le_bytes (suc k) v) v
unfolding read_word_some
Parses-read_word_some k v old l h =
    rw (of_le-le_bytes (suc k) v h) at
      (Parses-map of_le (Parses-read_some k old (le_bytes (suc k) v) (length-le_bytes (suc k) v) l))
