-- ===== src/Wal/Manager/Rising.antt =====
-- Lists of log records whose LSNs rise.
use deltabase_c.Prelude.{ℕ, ◌+◌, ◌≤◌, ◌<◌, ◌≡◌, refl, List, [], ◌∷◌, ◌++◌, arith, ◌^◌, none, some}
use deltabase_c.Types.WalLog.{WalRecord, lsn_of}
use deltabase_c.Wal.Manager.{last_lsn, find_log, sort_logs, insert_log, next_after}

-- The LSNs rise strictly, from above `lo`.
abbrev pub Rising : ℕ → List WalRecord → Type 0
Rising lo [] = Unit {0}
Rising lo (r ∷ rs) = (lo < lsn_of r) × Rising (lsn_of r) rs

pub last_lsn-append :
    (lo : ℕ) (rs qs : List WalRecord) → last_lsn lo (rs ++ qs) ≡ last_lsn (last_lsn lo rs) qs
unfolding last_lsn
last_lsn-append lo [] qs = refl
last_lsn-append lo (r ∷ rs) qs = last_lsn-append (lsn_of r) rs qs

pub last_lsn-one : (lo : ℕ) (r : WalRecord) → last_lsn lo (r ∷ []) ≡ lsn_of r
unfolding last_lsn
last_lsn-one lo r = refl

pub Rising-append :
    (lo : ℕ) (rs qs : List WalRecord)
    → Rising lo rs
    → Rising (last_lsn lo rs) qs
    → Rising lo (rs ++ qs)
unfolding last_lsn
Rising-append lo [] qs h k = k
Rising-append lo (r ∷ rs) qs h k = (h.0, Rising-append (lsn_of r) rs qs h.1 k)

pub Rising-prefix : (lo : ℕ) (rs qs : List WalRecord) → Rising lo (rs ++ qs) → Rising lo rs
Rising-prefix lo [] qs h = tt
Rising-prefix lo (r ∷ rs) qs h = (h.0, Rising-prefix (lsn_of r) rs qs h.1)

pub Rising-suffix :
    (lo : ℕ) (rs qs : List WalRecord) → Rising lo (rs ++ qs) → Rising (last_lsn lo rs) qs
unfolding last_lsn
Rising-suffix lo [] qs h = h
Rising-suffix lo (r ∷ rs) qs h = Rising-suffix (lsn_of r) rs qs h.1

pub last_lsn-ge : (lo : ℕ) (rs : List WalRecord) → Rising lo rs → lo ≤ last_lsn lo rs
unfolding last_lsn
last_lsn-ge lo [] h = omega arith
last_lsn-ge lo (r ∷ rs) h = omega (arith, last_lsn-ge (lsn_of r) rs h.1, h.0)

-- Nothing above the last LSN, nothing at or below the lower bound.
pub find_log_above :
    (lo lsn : ℕ) (rs : List WalRecord)
    → Rising lo rs
    → last_lsn lo rs < lsn
    → find_log lsn rs ≡ none
unfolding last_lsn find_log
find_log_above lo lsn [] h k = refl
find_log_above lo lsn (r ∷ rs) h k =
    ground (arith, find_log_above (lsn_of r) lsn rs h.1 k, last_lsn-ge (lsn_of r) rs h.1)

pub find_log_below :
    (lo lsn : ℕ) (rs : List WalRecord) → Rising lo rs → lsn ≤ lo → find_log lsn rs ≡ none
unfolding find_log
find_log_below lo lsn [] h k = refl
find_log_below lo lsn (r ∷ rs) h k = ground (arith, find_log_below (lsn_of r) lsn rs h.1)

pub find_log-append :
    (lsn : ℕ) (rs qs : List WalRecord)
    → find_log lsn rs ≡ none
    → find_log lsn (rs ++ qs) ≡ find_log lsn qs
unfolding find_log
find_log-append lsn [] qs h = refl
find_log-append lsn (r ∷ rs) qs h = ground (arith, find_log-append lsn rs qs)

pub find_log-append_some :
    (lsn : ℕ) (rs qs : List WalRecord) (r : WalRecord)
    → find_log lsn rs ≡ some r
    → find_log lsn (rs ++ qs) ≡ some r
unfolding find_log
find_log-append_some lsn [] qs r h = cc
find_log-append_some lsn (q ∷ rs) qs r h = ground (arith, find_log-append_some lsn rs qs r)

pub sort_logs-Rising : (lo : ℕ) (rs : List WalRecord) → Rising lo rs → sort_logs rs ≡ rs
unfolding sort_logs insert_log
sort_logs-Rising lo [] h = refl
sort_logs-Rising lo (r ∷ []) h = refl
sort_logs-Rising lo (r ∷ q ∷ rs) h =
    rw (sort_logs-Rising (lsn_of r) (q ∷ rs) h.1) (ground (arith, h.1.0))

-- `next_lsn_` is the last LSN plus one, as long as that does not wrap.
pub next_after-Rising :
    (lo : ℕ) (rs : List WalRecord)
    → Rising lo rs
    → last_lsn lo rs + 1 < 2 ^ 64
    → next_after (lo + 1) rs ≡ last_lsn lo rs + 1
unfolding next_after last_lsn
next_after-Rising lo [] h k = refl
next_after-Rising lo (r ∷ rs) h k =
    ground (arith, next_after-Rising (lsn_of r) rs h.1 k, last_lsn-ge (lsn_of r) rs h.1, h.0)
