-- ===== src/Tests/Cache.antt =====
-- A cache of numbers, written back to a list of numbers.
use deltabase_c.Prelude.{ℕ, ◌∷◌, [], List, ◌≡◌, refl, ◌⊎◌, arith, some, false}
use mathlib.Core.List.Permᴰ
use deltabase_c.Types.Value.{Uuid, null_uuid}
use deltabase_c.Cache.{Cache, CacheEntry, Flushed, written, returned, threw, put, find}
use deltabase_c.Cache.Bounds.{put-IsCache}
use deltabase_c.Cache.Bounds.Evictions.{IsCache, IsLost}
use deltabase_c.Tests.Storage.{ones}
use deltabase_c.Tests.Recovery.{uuid_eq}

abbrev keep : ℕ → List ℕ → Flushed (List ℕ)
keep n written_before = written (n ∷ written_before)

abbrev one_entry : Cache Uuid ℕ (List ℕ)
one_entry = record {
  entries = (ones, record { value = 7; dirty = false; flush = keep }) ∷ [];
  lru = ones ∷ [];
}

one_entry-IsCache : IsCache one_entry
one_entry-IsCache = record {
  perm = Permᴰ.refl (ones ∷ []);
  distinct = (refl, tt);
  bounded = omega arith;
}

put-IsCache_example :
    ((c' : Cache Uuid ℕ (List ℕ)) × (w' : List ℕ) × (put null_uuid 5 keep one_entry []
        ≡ returned (c', w'))
      × IsCache c'
      × ((e : CacheEntry ℕ (List ℕ)) × (find null_uuid c'.entries ≡ some e) × (e.value ≡ 5)))
    ⊎ ((c' : Cache Uuid ℕ (List ℕ)) × (w' : List ℕ) × (put null_uuid 5 keep one_entry []
          ≡ threw (c', w'))
        × IsLost one_entry c' [] w')
put-IsCache_example = put-IsCache null_uuid 5 keep one_entry [] one_entry-IsCache
