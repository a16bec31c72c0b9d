-- ===== src/Cache/Bounds/Evictions.antt =====
-- What a put makes room for, and what an exception of a flusher leaves.
use deltabase_c.Prelude.{
  ◌⊎◌, ◌+◌, ◌≤◌, ◌<◌, ◌≡◌, refl, sym, ◌∙◌, ap, List, [], ◌∷◌, some, true, false, leb, Bool-cases,
  Option-cases, inl, inr, length, arith, Eq,
}
use mathlib.Core.List.{Permᴰ}
use mathlib.Core.Path.{subst}
use deltabase_c.Cache.{
  Flushed, written, failed, returned, threw, CacheEntry, Cache, max_size, remove, evict, find,
  erase, write_back, evict_one, make_room,
}
use deltabase_c.Cache.Keys.{
  member-remove, member, Distinct, beq_refl, remove-Perm, member-Perm, length-Perm, remove_to_front,
  remove-Distinct, removed, keys, keys-erase, member_missing, length-keys,
}

module _ {K : Type 0} ⦃key_eq : Eq K⦄ where
  pub evict_lem :
      (k : K) (ks : List K)
      → Distinct (k ∷ ks)
      → (old : K) × (evict (k ∷ ks) ≡ some (old, remove old (k ∷ ks)))
        × (member old (k ∷ ks) ≡ true)
  unfolding evict remove
  evict_lem k [] h = let b = beq_refl k in (k, rw b refl, rw b refl)
  evict_lem k (j ∷ ks) h =
      let (old, e, m) = evict_lem j ks h.1 in
      elim (Bool-cases (key_eq.beq k old)) [
        | inl it ↦
            let s : k ≡ old = (key_eq.beq_iff k old).0 it in
            let n : member old (j ∷ ks) ≡ false = subst (λ x. member x (j ∷ ks) ≡ false) s h.0 in
            cc (n, m)
        | inr other ↦ (old, rw (e, other) refl, rw (other, m) refl)
      ]

  pub length-remove :
      (key : K) (ks : List K) → member key ks ≡ true → length (remove key ks) + 1 ≡ length ks
  length-remove key ks m =
      let e = length-Perm (key ∷ remove key ks) ks (remove_to_front key ks m) in omega (arith, e)

module _ {W : Type 0} where
  pub Flushed-cases : (f : Flushed W) → ((w : W) × (f ≡ written w)) ⊎ ((w : W) × (f ≡ failed w))
  Flushed-cases (written w) = inl (w, refl)
  Flushed-cases (failed w) = inr (w, refl)

module _ {V W : Type 0} where
  -- An entry is written, or its flusher throws.
  pub writes_back :
      (e : CacheEntry V W) (w : W)
      → ((w' : W) × (write_back (some e) w ≡ written w'))
        ⊎ ((w' : W) × (write_back (some e) w ≡ failed w')
            × (e.dirty ≡ true)
            × (e.flush e.value w ≡ failed w'))
  unfolding write_back
  writes_back e w = elim (Bool-cases e.dirty) [
    | inr clean ↦ inl (w, rw clean refl)
    | inl dirty ↦ elim (Flushed-cases (e.flush e.value w)) [
      | inl (w', f) ↦ inl (w', rw dirty f)
      | inr (w', f) ↦ inr (w', rw dirty f, dirty, f)
    ]
  ]

module _ {K V W : Type 0} ⦃key_eq : Eq K⦄ where
  -- The policy's list has each key of the entries once.
  pub record IsCache (c : Cache K V W) : Type 0 where
    pub perm : Permᴰ c.lru (keys c.entries)
    pub distinct : Distinct c.lru
    pub bounded : length c.entries ≤ max_size

  -- What `make_room` leaves: a cache with room for one more, and no key that was not there.
  pub record HasPlace (key : K) (c : Cache K V W) : Type 0 where
    pub is_cache : IsCache c
    pub room : length c.entries < max_size
    pub absent : member key (keys c.entries) ≡ false

  -- The list of the policy after `evict`, and the entries without the victim.
  pub evicted-HasPlace :
      (key old : K) (c : Cache K V W)
      → IsCache c
      → member old c.lru ≡ true
      → member key (keys c.entries) ≡ false
      → HasPlace key (record { entries = erase old c.entries; lru = remove old c.lru })
  evicted-HasPlace key old c h m absent =
      let p = remove-Perm old c.lru (keys c.entries) h.perm in
      let n = member-Perm old c.lru (keys c.entries) h.perm in
      let l : length (erase old c.entries) + 1 ≡ length c.entries =
        rw (← length-keys (erase old c.entries), keys-erase old c.entries, ← length-keys c.entries)
          (length-remove old (keys c.entries) (sym n ∙ m)) in
      record {
        is_cache = record {
          perm = rw (keys-erase old c.entries) p;
          distinct = remove-Distinct old c.lru h.distinct;
          bounded = omega (arith, l, h.bounded);
        };
        room = omega (arith, l, h.bounded);
        absent = rw (keys-erase old c.entries) (member-remove key old (keys c.entries) absent);
      }

  -- The state that an exception of the victim's flusher leaves: the entries are as before, but the
  -- policy has forgotten the key of one of them.
  pub record IsLost (c c' : Cache K V W) (w w' : W) : Type 0 where
    pub old : K
    pub entry : CacheEntry V W
    pub found : find old c.entries ≡ some entry
    pub dirty : entry.dirty ≡ true
    pub fails : entry.flush entry.value w ≡ failed w'
    pub kept : c'.entries ≡ c.entries
    pub dropped : c'.lru ≡ remove old c.lru
    pub present : member old (keys c'.entries) ≡ true
    pub forgotten : member old c'.lru ≡ false

  -- What the eviction of a key of a full cache comes to.
  pub evicts_old :
      (key old : K) (c : Cache K V W) (w : W)
      → evict c.lru ≡ some (old, remove old c.lru)
      → member old c.lru ≡ true
      → IsCache c
      → member key (keys c.entries) ≡ false
      → ((c' : Cache K V W) × (w' : W) × (evict_one c w ≡ returned (c', w')) × HasPlace key c')
        ⊎ ((c' : Cache K V W) × (w' : W) × (evict_one c w ≡ threw (c', w')) × IsLost c c' w w')
  unfolding evict_one
  evicts_old key old c w f m h absent =
      let n = sym (member-Perm old c.lru (keys c.entries) h.perm) ∙ m in
      elim (Option-cases (find old c.entries)) [
        | inl gone ↦ let g = member_missing old c.entries gone in cc (n, g)
        | inr (e, g) ↦ elim (writes_back e w) [
          | inl (w', b) ↦ inl (
            record { entries = erase old c.entries; lru = remove old c.lru },
            w',
            rw (f, evict_one) (rw (g, b) refl),
            evicted-HasPlace key old c h m absent,
          )
          | inr (w', b, dirty, fails) ↦ inr (
            record { entries = c.entries; lru = remove old c.lru },
            w',
            rw (f, evict_one) (rw (g, b) refl),
            record {
              old = old;
              entry = e;
              found = g;
              dirty = dirty;
              fails = fails;
              kept = refl;
              dropped = refl;
              present = n;
              forgotten = removed old c.lru h.distinct;
            },
          )
        ]
      ]

  pub evicts :
      (key : K) (lru : List K) (c : Cache K V W) (w : W)
      → c.lru ≡ lru
      → IsCache c
      → max_size ≤ length c.entries
      → member key (keys c.entries) ≡ false
      → ((c' : Cache K V W) × (w' : W) × (evict_one c w ≡ returned (c', w')) × HasPlace key c')
        ⊎ ((c' : Cache K V W) × (w' : W) × (evict_one c w ≡ threw (c', w')) × IsLost c c' w w')
  evicts key [] c w e h big absent = absurd (
      omega
        (arith, big, length-keys c.entries, length-Perm c.lru (keys c.entries) h.perm, ap length e))
  evicts key (k ∷ ks) c w e h big absent =
      let (old, f, m) = evict_lem k ks (rw e at h.distinct) in
      let f' : evict c.lru ≡ some (old, remove old c.lru) = rw e f in
      evicts_old key old c w f' (rw e m) h absent

  pub makes_room :
      (key : K) (c : Cache K V W) (w : W)
      → IsCache c
      → member key (keys c.entries) ≡ false
      → ((c' : Cache K V W) × (w' : W) × (make_room c w ≡ returned (c', w')) × HasPlace key c')
        ⊎ ((c' : Cache K V W) × (w' : W) × (make_room c w ≡ threw (c', w')) × IsLost c c' w w')
  unfolding make_room
  makes_room key c w h absent = elim (Bool-cases (leb max_size (length c.entries))) [
    | inl full ↦ rw (full, make_room) (evicts key c.lru c w refl h (ground (arith, full)) absent)
    | inr place ↦
        inl (c, w, rw place, record { is_cache = h; room = ground (arith, place); absent = absent })
  ]
