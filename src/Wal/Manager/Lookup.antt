-- ===== src/Wal/Manager/Lookup.antt =====
-- `read_log` seen on the list of all records.
use deltabase_c.Prelude.{
  ◌≤◌, ==_iff, inr, inl, ◌==◌, ◌<◌, Bool-cases, ℕ, ◌≡◌, refl, sym, ◌∙◌, List, [], ◌∷◌, ◌++◌, arith,
  none, some, Option, All, append_assoc, ==_refl,
}
use native.Mathlib.Decide.{dec_lt}
use deltabase_c.Types.WalLog.{WalRecord, lsn_of}
use deltabase_c.Wal.Manager.{
  append_log, FileWalManager, find_log, read_log, read_all_logs, or_else, flush, last_lsn,
}
use deltabase_c.Wal.Manager.Rising.{
  Rising, Rising-prefix, Rising-suffix, find_log_above, find_log_below, find_log-append,
}
use deltabase_c.Wal.Manager.Invariant.{read_log-append_log, IsConsistent, flush_lem}

find_log-or_else :
    (lsn : ℕ) (rs qs : List WalRecord)
    → find_log lsn (rs ++ qs) ≡ or_else (find_log lsn rs) (find_log lsn qs)
unfolding find_log or_else
find_log-or_else lsn [] qs = refl
find_log-or_else lsn (r ∷ rs) qs = ground (arith, find_log-or_else lsn rs qs)

or_else-none : (o : Option WalRecord) → or_else o none ≡ o
unfolding or_else
or_else-none none = refl
or_else-none (some r) = refl

pub read_log-all :
    (lsn : ℕ) (m : FileWalManager)
    → IsConsistent m
    → read_log lsn m ≡ find_log lsn (read_all_logs m)
unfolding read_log read_all_logs or_else
read_log-all lsn m h =
    rw (find_log-or_else lsn m.flushed m.dirty) (elim (dec_lt (last_lsn 0 m.flushed) lsn) [
      | yes l ↦
          rw (find_log_above 0 lsn m.flushed (Rising-prefix 0 m.flushed m.dirty h.rising) l)
            (or_else-none (find_log lsn m.dirty))
      | no l ↦
          rw
            (find_log_below (last_lsn 0 m.flushed) lsn m.dirty
              (Rising-suffix 0 m.flushed m.dirty h.rising) (omega arith))
            (sym (or_else-none (find_log lsn m.flushed)))
    ])

-- A flush changes nothing of what is found.
pub read_log-flush :
    (lsn : ℕ) (m : FileWalManager) → IsConsistent m → read_log lsn (flush none m).1 ≡ read_log lsn m
unfolding read_log or_else find_log read_all_logs
read_log-flush lsn m h = rw (flush_lem m h) (sym (read_log-all lsn m h))

find_log-Rising :
    (ps rs : List WalRecord)
    → Rising 0 (ps ++ rs)
    → All (λ r. find_log (lsn_of r) (ps ++ rs) ≡ some r) rs
unfolding find_log
find_log-Rising ps [] h = tt
find_log-Rising ps (r ∷ rs) h =
    let above = (Rising-suffix 0 ps (r ∷ rs) h).0 in
    let e : ps ++ r ∷ [] ++ rs ≡ ps ++ r ∷ rs = append_assoc ps (r ∷ []) rs in
    (
      find_log-append (lsn_of r) ps (r ∷ rs)
            (find_log_above 0 (lsn_of r) ps (Rising-prefix 0 ps (r ∷ rs) h) above)
          ∙ rw (==_refl (lsn_of r)),
      rw e at (find_log-Rising (ps ++ r ∷ []) rs (rw e h)),
    )

-- Every record is found under its LSN.
pub read_log-member :
    (m : FileWalManager)
    → IsConsistent m
    → All (λ r. find_log (lsn_of r) (read_all_logs m) ≡ some r) (read_all_logs m)
unfolding read_all_logs
read_log-member m h = find_log-Rising [] (m.flushed ++ m.dirty) h.rising

-- Only LSNs that have been given out are found.
pub found_below :
    (lsn : ℕ) (m : FileWalManager) (r : WalRecord)
    → IsConsistent m
    → read_log lsn m ≡ some r
    → lsn < m.next_lsn
unfolding read_all_logs
found_below lsn m r h e = elim (dec_lt lsn m.next_lsn) [
  | yes l ↦ l
  | no l ↦ cc (
    find_log_above 0 lsn (m.flushed ++ m.dirty) h.rising (omega (arith, h.next)),
    read_log-all lsn m h,
    e,
  )
]

-- A record that was found before an append is found after it.
pub found_stays :
    (lsn : ℕ) (m : FileWalManager) (q r : WalRecord)
    → IsConsistent m
    → read_log lsn m ≡ some r
    → read_log lsn (append_log q m).1 ≡ some r
found_stays lsn m q r h e =
    rw (read_log-append_log q m lsn h) (let l = found_below lsn m r h e in ground (arith, l, e))

-- A record that is found is one of the log.
pub found_in {ℓ} :
    (P : WalRecord → Type ℓ) (lsn : ℕ) (rs : List WalRecord) (r : WalRecord)
    → All P rs
    → find_log lsn rs ≡ some r
    → P r
unfolding find_log
found_in P lsn [] r h e = cc
found_in P lsn (q ∷ rs) r h e = elim (Bool-cases (lsn_of q == lsn)) [
  | inl here ↦ let s : q ≡ r = cc (rw here at e) in rw (← s) h.0
  | inr there ↦ found_in P lsn rs r h.1 (rw there at e)
]

pub find_log-lsn_of :
    (lsn : ℕ) (rs : List WalRecord) (r : WalRecord) → find_log lsn rs ≡ some r → lsn_of r ≡ lsn
unfolding find_log
find_log-lsn_of lsn [] r e = cc
find_log-lsn_of lsn (q ∷ rs) r e = elim (Bool-cases (lsn_of q == lsn)) [
  | inl here ↦ let s : q ≡ r = cc (rw here at e) in rw (← s) ((==_iff (lsn_of q) lsn).0 here)
  | inr there ↦ find_log-lsn_of lsn rs r (rw there at e)
]

-- A durable record is among the flushed ones.
pub found_durable :
    (lsn : ℕ) (m : FileWalManager) (r : WalRecord)
    → IsConsistent m
    → lsn ≤ m.flushed_lsn
    → read_log lsn m ≡ some r
    → find_log lsn m.flushed ≡ some r
unfolding read_log or_else
found_durable lsn m r h d e =
    let n =
      find_log_below (last_lsn 0 m.flushed) lsn m.dirty (Rising-suffix 0 m.flushed m.dirty h.rising)
        (omega (arith, h.durable, d)) in
    rw (n, read_log, or_else) at e
