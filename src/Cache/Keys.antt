-- ===== src/Cache/Keys.antt =====
-- Lists of distinct keys: `remove` and permutations, and the keys of the entries.
use deltabase_c.Prelude.{
  ◌≡◌, refl, sym, ◌∙◌, ap, List, [], ◌∷◌, none, some, Bool, true, false, ◌||◌, Bool-cases, inl, inr,
  length, arith, Eq,
}
use mathlib.Core.List.{Permᴰ}
use mathlib.Core.List.Permᴰ
use deltabase_c.Cache.{CacheEntry, remove, find, change, erase}

module _ {K : Type 0} ⦃key_eq : Eq K⦄ where
  abbrev pub member : K → List K → Bool
  member key [] = false
  member key (k ∷ ks) = key_eq.beq k key || member key ks

  abbrev pub Distinct : List K → Type 0
  Distinct [] = Unit {0}
  Distinct (k ∷ ks) = (member k ks ≡ false) × Distinct ks

  pub beq_refl : (k : K) → key_eq.beq k k ≡ true
  beq_refl k = (key_eq.beq_iff k k).1 refl

  same_beq : (a b key : K) → a ≡ b → key_eq.beq a key ≡ key_eq.beq b key
  same_beq a b key e = rw e

  pub remove-Perm : (key : K) (xs ys : List K) → Permᴰ xs ys → Permᴰ (remove key xs) (remove key ys)
  unfolding remove
  remove-Perm key xs ys Permᴰ.nil = Permᴰ.nil
  remove-Perm key xs ys (Permᴰ.cons {a = a} {b = b} {l₁ = l} {l₂ = l'} e p) =
      elim (Bool-cases (key_eq.beq a key)) [
        | inl it ↦ rw (it, sym (same_beq a b key e) ∙ it) p
        | inr other ↦
            rw (other, sym (same_beq a b key e) ∙ other) (Permᴰ.cons e (remove-Perm key l l' p))
      ]
  remove-Perm key xs ys (Permᴰ.swap {a = a} {b = b} {a' = a'} {b' = b'} {l = l} e f) =
      let s = same_beq a b' key e in
      let r = same_beq b a' key f in
      elim (Bool-cases (key_eq.beq a key)) [
        | inl x ↦ elim (Bool-cases (key_eq.beq b key)) [
          | inl y ↦
              let k : b ≡ b' = (key_eq.beq_iff b key).0 y ∙ sym ((key_eq.beq_iff a key).0 x) ∙ e in
              rw (x, sym r ∙ y) (Permᴰ.cons k (Permᴰ.refl l))
          | inr y ↦ rw (x, sym r ∙ y, sym s ∙ x) (Permᴰ.cons f (Permᴰ.refl l))
        ]
        | inr x ↦ elim (Bool-cases (key_eq.beq b key)) [
          | inl y ↦ rw (x, y, sym r ∙ y) (Permᴰ.cons e (Permᴰ.refl l))
          | inr y ↦ rw (x, y, sym r ∙ y, sym s ∙ x) (Permᴰ.swap e f)
        ]
      ]
  remove-Perm key xs ys (Permᴰ.trans p q) =
      Permᴰ.trans (remove-Perm key _ _ p) (remove-Perm key _ _ q)

  pub member-Perm : (key : K) (xs ys : List K) → Permᴰ xs ys → member key xs ≡ member key ys
  member-Perm key xs ys Permᴰ.nil = refl
  member-Perm key xs ys (Permᴰ.cons {a = a} {b = b} {l₁ = l} {l₂ = l'} e p) =
      let s = same_beq a b key e in let r = member-Perm key l l' p in ground (arith, s, r)
  member-Perm key xs ys (Permᴰ.swap {a = a} {b = b} {a' = a'} {b' = b'} {l = l} e f) =
      let s = same_beq a b' key e in let r = same_beq b a' key f in ground (arith, s, r)
  member-Perm key xs ys (Permᴰ.trans p q) = member-Perm key _ _ p ∙ member-Perm key _ _ q

  pub length-Perm : (xs ys : List K) → Permᴰ xs ys → length xs ≡ length ys
  length-Perm xs ys Permᴰ.nil = refl
  length-Perm xs ys (Permᴰ.cons e p) = omega (arith, length-Perm _ _ p)
  length-Perm xs ys (Permᴰ.swap e f) = refl
  length-Perm xs ys (Permᴰ.trans p q) = length-Perm _ _ p ∙ length-Perm _ _ q

  pub remove_absent : (key : K) (ks : List K) → member key ks ≡ false → remove key ks ≡ ks
  unfolding remove
  remove_absent key [] h = refl
  remove_absent key (k ∷ ks) h = elim (Bool-cases (key_eq.beq k key)) [
    | inl it ↦ cc (rw it at h)
    | inr other ↦ rw other (ap (λ (l : List K). k ∷ l) (remove_absent key ks (rw other at h)))
  ]

  pub remove_to_front :
      (key : K) (ks : List K) → member key ks ≡ true → Permᴰ (key ∷ remove key ks) ks
  unfolding remove
  remove_to_front key [] h = cc
  remove_to_front key (k ∷ ks) h = elim (Bool-cases (key_eq.beq k key)) [
    | inl it ↦ rw it (Permᴰ.cons (sym ((key_eq.beq_iff k key).0 it)) (Permᴰ.refl ks))
    | inr other ↦ rw other (
        Permᴰ.trans (Permᴰ.swap refl refl)
          (Permᴰ.cons refl (remove_to_front key ks (rw other at h))))
  ]

  pub member-remove :
      (j key : K) (ks : List K) → member j ks ≡ false → member j (remove key ks) ≡ false
  unfolding remove
  member-remove j key [] h = refl
  member-remove j key (k ∷ ks) h = let r = member-remove j key ks in ground (arith, h, r)

  pub remove-Distinct : (key : K) (ks : List K) → Distinct ks → Distinct (remove key ks)
  unfolding remove
  remove-Distinct key [] h = tt
  remove-Distinct key (k ∷ ks) h = elim (Bool-cases (key_eq.beq k key)) [
    | inl it ↦ rw it h.1
    | inr other ↦ rw other (member-remove k key ks h.0, remove-Distinct key ks h.1)
  ]

  pub removed : (key : K) (ks : List K) → Distinct ks → member key (remove key ks) ≡ false
  unfolding remove
  removed key [] h = refl
  removed key (k ∷ ks) h = elim (Bool-cases (key_eq.beq k key)) [
    | inl it ↦ let e : k ≡ key = (key_eq.beq_iff k key).0 it in rw it (rw (← e) h.0)
    | inr other ↦ rw other (rw other (removed key ks h.1))
  ]

  module _ {V W : Type 0} where
    abbrev pub keys : List (K × CacheEntry V W) → List K
    keys [] = []
    keys ((k, e) ∷ entries) = k ∷ keys entries

    pub keys-change :
        (key : K) (f : CacheEntry V W → CacheEntry V W) (entries : List (K × CacheEntry V W))
        → keys (change key f entries) ≡ keys entries
    unfolding change
    keys-change key f [] = refl
    keys-change key f ((k, e) ∷ entries) = elim (Bool-cases (key_eq.beq k key)) [
      | inl it ↦ rw it
      | inr other ↦ rw other (ap (λ (l : List K). k ∷ l) (keys-change key f entries))
    ]

    pub keys-erase :
        (key : K) (entries : List (K × CacheEntry V W))
        → keys (erase key entries) ≡ remove key (keys entries)
    unfolding erase remove
    keys-erase key [] = refl
    keys-erase key ((k, e) ∷ entries) = elim (Bool-cases (key_eq.beq k key)) [
      | inl it ↦ rw it
      | inr other ↦ rw other (ap (λ (l : List K). k ∷ l) (keys-erase key entries))
    ]

    pub member_found :
        (key : K) (entries : List (K × CacheEntry V W)) (e : CacheEntry V W)
        → find key entries ≡ some e
        → member key (keys entries) ≡ true
    unfolding find
    member_found key [] e h = cc
    member_found key ((k, d) ∷ entries) e h = elim (Bool-cases (key_eq.beq k key)) [
      | inl it ↦ rw it
      | inr other ↦ rw other (member_found key entries e (rw other at h))
    ]

    pub member_missing :
        (key : K) (entries : List (K × CacheEntry V W))
        → find key entries ≡ none
        → member key (keys entries) ≡ false
    unfolding find
    member_missing key [] h = refl
    member_missing key ((k, d) ∷ entries) h = elim (Bool-cases (key_eq.beq k key)) [
      | inl it ↦ cc (rw it at h)
      | inr other ↦ rw other (member_missing key entries (rw other at h))
    ]

    pub length-keys : (entries : List (K × CacheEntry V W)) → length (keys entries) ≡ length entries
    length-keys [] = refl
    length-keys ((k, e) ∷ entries) = omega (arith, length-keys entries)
