-- ===== src/Cache/Bounds.antt =====
-- The cache never outgrows its bound, and has the keys that the policy knows.
pub mod Evictions
use deltabase_c.Prelude.{
  ◌⊎◌, ◌+◌, ◌≤◌, ◌<◌, ◌≡◌, refl, sym, ◌∙◌, ap, List, [], ◌∷◌, none, some, true, false, leb,
  Bool-cases, Option-cases, inl, inr, length, arith, Eq,
}
use mathlib.Core.List.{Permᴰ}
use mathlib.Core.Path.{subst}
use deltabase_c.Cache.{
  Flushed, written, failed, returned, threw, CacheEntry, Cache, max_size, remove, touch, evict,
  find, change, erase, write_back, evict_one, make_room, emplace, replace, put,
}
use deltabase_c.Cache.Keys.{
  member-remove, member, Distinct, beq_refl, remove-Perm, member-Perm, length-Perm, remove_absent,
  remove_to_front, remove-Distinct, removed, keys, keys-change, keys-erase, member_found,
  member_missing, length-keys,
}
use deltabase_c.Cache.Bounds.Evictions.{
  evict_lem, length-remove, Flushed-cases, writes_back, IsCache, HasPlace, evicted-HasPlace, IsLost,
  evicts_old, evicts, makes_room,
}

module _ {K V W : Type 0} ⦃key_eq : Eq K⦄ where
  emplace-IsCache :
      (key : K) (val : V) (flush : V → W → Flushed W) (c : Cache K V W)
      → HasPlace key c
      → IsCache (emplace key val flush c)
  unfolding emplace touch
  emplace-IsCache key val flush c h =
      let m = member-Perm key c.lru (keys c.entries) h.is_cache.perm ∙ h.absent in
      rw (remove_absent key c.lru m) (record {
        perm = Permᴰ.cons refl h.is_cache.perm;
        distinct = (m, h.is_cache.distinct);
        bounded = omega (arith, h.room);
      })

  find-change :
      (key : K) (f : CacheEntry V W → CacheEntry V W) (entries : List (K × CacheEntry V W))
      (e : CacheEntry V W)
      → find key entries ≡ some e
      → find key (change key f entries) ≡ some (f e)
  unfolding find change
  find-change key f [] e h = cc
  find-change key f ((k, d) ∷ entries) e h = elim (Bool-cases (key_eq.beq k key)) [
    | inl it ↦ let s : d ≡ e = cc (rw it at h) in rw (it, it, s) refl
    | inr other ↦ rw (other, other) (find-change key f entries e (rw other at h))
  ]

  replace-IsCache :
      (key : K) (val : V) (c : Cache K V W) (e : CacheEntry V W)
      → IsCache c
      → find key c.entries ≡ some e
      → IsCache (replace key val c)
  unfolding replace touch
  replace-IsCache key val c e h f =
      let m = member-Perm key c.lru (keys c.entries) h.perm ∙ member_found key c.entries e f in
      let k = keys-change key (λ (d : CacheEntry V W). record d { value = val }) c.entries in
      record {
        perm = rw k (Permᴰ.trans (remove_to_front key c.lru m) h.perm);
        distinct = (removed key c.lru h.distinct, remove-Distinct key c.lru h.distinct);
        bounded = omega (
          arith,
          h.bounded,
          length-keys c.entries,
          length-keys (replace key val c).entries,
          ap length k,
        );
      }

  puts_new :
      (key : K) (val : V) (flush : V → W → Flushed W) (c c' : Cache K V W) (w w' : W)
      → find key c.entries ≡ none
      → make_room c w ≡ returned (c', w')
      → put key val flush c w ≡ returned (emplace key val flush c', w')
  unfolding put
  puts_new key val flush c c' w w' f e = rw (f, put, e) refl

  puts_nothing :
      (key : K) (val : V) (flush : V → W → Flushed W) (c c' : Cache K V W) (w w' : W)
      → find key c.entries ≡ none
      → make_room c w ≡ threw (c', w')
      → put key val flush c w ≡ threw (c', w')
  unfolding put
  puts_nothing key val flush c c' w w' f e = rw (f, put, e) refl

  puts_old :
      (key : K) (val : V) (flush : V → W → Flushed W) (c : Cache K V W) (w : W) (e : CacheEntry V W)
      → find key c.entries ≡ some e
      → put key val flush c w ≡ returned (replace key val c, w)
  unfolding put
  puts_old key val flush c w e f = rw (f, put) refl

  -- A put into a well-formed cache never evicts from an empty list. It returns, and then the cache is
  -- well-formed and within its bound, and the value is found under its key; or the flusher of a dirty entry
  -- throws, and then no entry has changed, but the policy has forgotten the key of that entry.
  pub put-IsCache :
      (key : K) (val : V) (flush : V → W → Flushed W) (c : Cache K V W) (w : W)
      → IsCache c
      → ((c' : Cache K V W) × (w' : W) × (put key val flush c w ≡ returned (c', w'))
          × IsCache c'
          × ((e : CacheEntry V W) × (find key c'.entries ≡ some e) × (e.value ≡ val)))
        ⊎ ((c' : Cache K V W) × (w' : W) × (put key val flush c w ≡ threw (c', w'))
            × IsLost c c' w w')
  unfolding find emplace replace
  put-IsCache key val flush c w h = elim (Option-cases (find key c.entries)) [
    | inr (e, f) ↦ inl (
      replace key val c,
      w,
      puts_old key val flush c w e f,
      replace-IsCache key val c e h f,
      (
        record e { value = val },
        find-change key (λ (d : CacheEntry V W). record d { value = val }) c.entries e f,
        refl,
      ),
    )
    | inl f ↦ elim (makes_room key c w h (member_missing key c.entries f)) [
      | inl (c', w', e, p) ↦ inl (
        emplace key val flush c',
        w',
        puts_new key val flush c c' w w' f e,
        emplace-IsCache key val flush c' p,
        (record { value = val; dirty = false; flush = flush }, rw (beq_refl key) refl, refl),
      )
      | inr (c', w', e, l) ↦ inr (c', w', puts_nothing key val flush c c' w w' f e, l)
    ]
  ]
