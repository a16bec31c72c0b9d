-- ===== src/Stream/Cut.antt =====
-- Readers that refuse bytes which end too soon.
use deltabase_c.Prelude.{
  true, suc, zero, suc, refl, ◌∙◌, ℕ, ◌+◌, ◌-◌, ◌≤◌, ◌<◌, ◌≡◌, ◌⊎◌, inl, inr, List, [], ◌∷◌, ◌++◌,
  arith, ap, length, take, drop, none, length-take, length-drop, length-append, ltb,
}
use deltabase_c.Stream.Word.{le_bytes, length-le_bytes, of_le}
use deltabase_c.Stream.Read.{
  read_word, behind, fits, ReadOnlyMemoryStream, Reader, ◌>>=◌, pure, read, read_exactly, Parses,
}

-- Where a stream holds only a beginning of `bs`, `m` refuses it.
pub record Cuts {ℓ} {A : Type ℓ} (m : Reader A) (bs : List ℕ) : Type ℓ where
  pub at :
      (s : ReadOnlyMemoryStream) (k : ℕ)
      → s.position ≤ length s.buffer
      → k < length bs
      → drop s.position s.buffer ≡ take k bs
      → m s ≡ none

-- How much a cut stream holds.
pub remaining-Cuts :
    (s : ReadOnlyMemoryStream) (bs : List ℕ) (k : ℕ)
    → s.position ≤ length s.buffer
    → k < length bs
    → drop s.position s.buffer ≡ take k bs
    → length s.buffer - s.position ≡ k
remaining-Cuts s bs k h l e =
    omega (arith, ap length e, length-take k bs, length-drop s.position s.buffer)

module _ {ℓ} {A : Type ℓ} where
  pub Cuts-pure : (a : A) → Cuts (pure a) []
  Cuts-pure a = record { at = λ s k h l e. absurd (omega arith) }

  take-append_short : (k : ℕ) (xs ys : List A) → k ≤ length xs → take k (xs ++ ys) ≡ take k xs
  take-append_short zero xs ys h = refl
  take-append_short (suc k) [] ys h = absurd (omega arith)
  take-append_short (suc k) (x ∷ xs) ys h = ap (◌∷◌ x) (take-append_short k xs ys (omega arith))

  take-append_long :
      (k : ℕ) (xs ys : List A) → length xs ≤ k → take k (xs ++ ys) ≡ xs ++ take (k - length xs) ys
  take-append_long k [] ys h = let z : k - 0 ≡ k = omega arith in rw z
  take-append_long zero (x ∷ xs) ys h = absurd (omega arith)
  take-append_long (suc k) (x ∷ xs) ys h =
      let z : suc k - suc (length xs) ≡ k - length xs = omega arith in
      rw z (ap (◌∷◌ x) (take-append_long k xs ys (omega arith)))

pub Cuts-read_exactly : (n : ℕ) (bs : List ℕ) → length bs ≡ n → Cuts (read_exactly n) bs
unfolding read_exactly read
Cuts-read_exactly n bs k = record {
  at = λ s i h l e.
      let r = remaining-Cuts s bs i h l e in
      let t = length-take (length s.buffer - s.position) (drop s.position s.buffer) in
      let d = length-drop s.position s.buffer in
      let short : ltb (length s.buffer) (s.position + n) ≡ true = ground arith in
      rw short (ground (arith, t, d));
}

split : (k n : ℕ) → (k < n) ⊎ (n ≤ k)
split k n = ground arith

module _ {ℓ κ} {A : Type ℓ} {B : Type κ} where
  pub Cuts-bind :
      {m : Reader A} (f : A → Reader B) {bs cs : List ℕ} {a : A}
      → Parses m bs a
      → Cuts m bs
      → Cuts (f a) cs
      → Cuts (m >>= f) (bs ++ cs)
  unfolding ◌>>=◌
  Cuts-bind {m} f {bs} {cs} {a} p c d = record {
    at = λ s k h l e. elim (split k (length bs)) [
      | inl short ↦
          rw (c.at s k h short (e ∙ take-append_short k bs cs (omega (arith, short))), ◌>>=◌)
      | inr long ↦
          let i = k - length bs in
          let e' = e ∙ take-append_long k bs cs long in
          let l' : i < length cs = omega (arith, l, long, length-append bs cs) in
          let s' : ReadOnlyMemoryStream = record s { position = s.position + length bs } in
          rw (p.at s (take i cs) h e', ◌>>=◌)
            (d.at s' i (fits s bs (take i cs) h e') l' (behind s bs (take i cs) e'))
    ];
  }

module _ {ℓ κ} {A : Type ℓ} {B : Type κ} where
  pub Cuts-map :
      {m : Reader A} (g : A → B) {bs : List ℕ} → Cuts m bs → Cuts (m >>= λ x. pure (g x)) bs
  unfolding ◌>>=◌
  Cuts-map {m} g {bs} c = record { at = λ s k h l e. rw (c.at s k h l e, ◌>>=◌) refl }

pub Cuts-read_word : (k v : ℕ) → Cuts (read_word k) (le_bytes k v)
unfolding read_word
Cuts-read_word k v = Cuts-map of_le (Cuts-read_exactly k (le_bytes k v) (length-le_bytes k v))
