-- ===== src/Cache.antt =====
-- misc/include/cache.hpp with misc/include/LRU_policy.hpp: the cache of the buffer pool. `pos_` of the
-- policy says where each key stands in the list, and is not kept apart from it here.
pub mod Keys
pub mod Bounds
use deltabase_c.Prelude.{
  ℕ, List, [], ◌∷◌, Option, none, some, Bool, true, false, if◌then◌else◌, leb, length, Eq,
}

-- What a flusher makes of the state of the owner: the value is written, or writing it throws.
pub data Flushed (W : Type 0) : Type 0 where
  written : W → Flushed W
  failed : W → Flushed W

-- `flush` writes a value back to the state `W` of the owner. The flushers of the buffer pool change the
-- entry only once it is written, and then it is erased.
pub record CacheEntry (V W : Type 0) : Type 0 where
  pub value : V
  pub dirty : Bool
  pub flush : V → W → Flushed W

-- `lru` has the key that was used last in front.
pub record Cache (K V W : Type 0) : Type 0 where
  pub entries : List (K × CacheEntry V W)
  pub lru : List K

abbrev pub max_size : ℕ
max_size = 100

-- A call returns, throws, or does what has no defined behaviour. What was changed before an exception
-- stays changed.
pub data Outcome (A : Type 0) : Type 0 where
  returned : A → Outcome A
  threw : A → Outcome A
  undefined : Outcome A

pub write_back : {V W : Type 0} → Option (CacheEntry V W) → W → Flushed W
write_back none w = written w
write_back (some e) w = if e.dirty then e.flush e.value w else written w

module _ {K : Type 0} ⦃key_eq : Eq K⦄ where
  pub remove : K → List K → List K
  remove key [] = []
  remove key (k ∷ ks) = if key_eq.beq k key then ks else k ∷ remove key ks

  -- `touch`, and `insert` that calls it.
  pub touch : K → List K → List K
  unfolding remove
  touch key lru = key ∷ remove key lru

  -- The last key, and the list without it; `none` is what has no defined behaviour.
  pub evict : List K → Option (K × List K)
  evict [] = none
  evict (k ∷ []) = some (k, [])
  evict (k ∷ j ∷ ks) = elim (evict (j ∷ ks)) [
    | none ↦ none
    | some (old, rest) ↦ some (old, k ∷ rest)
  ]

  module _ {V W : Type 0} where
    pub find : K → List (K × CacheEntry V W) → Option (CacheEntry V W)
    find key [] = none
    find key ((k, e) ∷ entries) = if key_eq.beq k key then some e else find key entries

    pub change :
        K
        → (CacheEntry V W → CacheEntry V W)
        → List (K × CacheEntry V W)
        → List (K × CacheEntry V W)
    change key f [] = []
    change key f ((k, e) ∷ entries) =
        if key_eq.beq k key then (k, f e) ∷ entries else (k, e) ∷ change key f entries

    pub erase : K → List (K × CacheEntry V W) → List (K × CacheEntry V W)
    erase key [] = []
    erase key ((k, e) ∷ entries) = if key_eq.beq k key then entries else (k, e) ∷ erase key entries

    -- When the flusher throws, the policy has dropped the key already, and the entry stays.
    pub evict_one : Cache K V W → W → Outcome (Cache K V W × W)
    unfolding evict find erase write_back
    evict_one c w = elim (evict c.lru) [
      | none ↦ undefined
      | some (victim, lru) ↦ elim (write_back (find victim c.entries) w) [
        | written w' ↦ returned (record { entries = erase victim c.entries; lru = lru }, w')
        | failed w' ↦ threw (record c { lru = lru }, w')
      ]
    ]

    pub make_room : Cache K V W → W → Outcome (Cache K V W × W)
    unfolding evict_one
    make_room c w = if leb max_size (length c.entries) then evict_one c w else returned (c, w)

    pub emplace : K → V → (V → W → Flushed W) → Cache K V W → Cache K V W
    unfolding touch
    emplace key val flush c = record {
      entries = (key, record { value = val; dirty = false; flush = flush }) ∷ c.entries;
      lru = touch key c.lru;
    }

    pub replace : K → V → Cache K V W → Cache K V W
    unfolding change touch
    replace key val c = record {
      entries = change key (λ e. record e { value = val }) c.entries;
      lru = touch key c.lru;
    }

    -- A key that is there keeps its dirty flag and its `flush`.
    pub put : K → V → (V → W → Flushed W) → Cache K V W → W → Outcome (Cache K V W × W)
    unfolding find replace make_room emplace
    put key val flush c w = elim (find key c.entries) [
      | some e ↦ returned (replace key val c, w)
      | none ↦ elim (make_room c w) [
        | undefined ↦ undefined
        | threw x ↦ threw x
        | returned (c', w') ↦ returned (emplace key val flush c', w')
      ]
    ]

    pub get : K → Cache K V W → Option (CacheEntry V W) × Cache K V W
    unfolding find touch
    get key c = elim (find key c.entries) [
      | none ↦ (none, c)
      | some e ↦ (some e, record c { lru = touch key c.lru })
    ]

    pub mark_dirty : K → Cache K V W → Cache K V W
    unfolding find change touch
    mark_dirty key c = elim (find key c.entries) [
      | none ↦ c
      | some e ↦ record {
        entries = change key (λ e. record e { dirty = true }) c.entries;
        lru = touch key c.lru;
      }
    ]
