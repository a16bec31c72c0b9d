-- ===== src/Stream/Word.antt =====
-- Unsigned integers as the bytes that `memcpy` copies, lowest byte first.
use deltabase_c.Prelude.{
  ℕ, zero, suc, ◌+◌, ◌*◌, ◌/◌, ◌%◌, ◌^◌, ◌<◌, ◌≡◌, refl, ap, List, [], ◌∷◌, arith, length,
}
use native.Mathlib.Nat.{pow-suc}

abbrev pub IsU64 : ℕ → Type 0
IsU64 v = v < 2 ^ 64

abbrev pub IsU32 : ℕ → Type 0
IsU32 v = v < 2 ^ 32

unfoldable pub le_bytes : ℕ → ℕ → List ℕ
le_bytes zero v = []
le_bytes (suc k) v = v % 256 ∷ le_bytes k (v / 256)

unfoldable pub of_le : List ℕ → ℕ
of_le [] = 0
of_le (b ∷ bs) = b + 256 * of_le bs

pub length-le_bytes : (k v : ℕ) → length (le_bytes k v) ≡ k
unfolding le_bytes
length-le_bytes zero v = refl
length-le_bytes (suc k) v = ap suc (length-le_bytes k (v / 256))

pub of_le-le_bytes : (k v : ℕ) → v < 256 ^ k → of_le (le_bytes k v) ≡ v
unfolding of_le le_bytes
of_le-le_bytes zero v h = omega arith
of_le-le_bytes (suc k) v h =
    omega (arith, of_le-le_bytes k (v / 256) (omega (arith, pow-suc 256 k)))
