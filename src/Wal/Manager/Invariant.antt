-- ===== src/Wal/Manager/Invariant.antt =====
-- What the log manager keeps true: LSNs rise, the files hold the flushed records, and each record
-- is found under the LSN that it was given.
use deltabase_c.Prelude.{
  ℕ, ◌+◌, ◌<◌, ◌^◌, ◌≡◌, refl, ap, ◌∙◌, sym, List, [], ◌∷◌, ◌++◌, arith, none, some, append_assoc,
  append-nil, if◌then◌else◌, ◌==◌, ==_refl,
}
use deltabase_c.Types.WalLog.{WalRecord, lsn_of, set_lsn, header_of, header_of-with_header}
use deltabase_c.Wal.Manager.{
  FileWalManager, LogFile, returned, write_all, write_logs, last_lsn, append_log, find_log,
  read_log, read_all_logs, flush, flush_batch,
}
use deltabase_c.Wal.Manager.Rising.{
  Rising, Rising-append, Rising-suffix, last_lsn-append, last_lsn-one, last_lsn-ge, find_log_above,
}
use deltabase_c.Wal.Manager.{or_else}
use deltabase_c.Prelude.{Bool-cases, inl, inr, ==_iff}

abbrev pub first_files : List LogFile
first_files = (1, []) ∷ []

pub record IsConsistent (m : FileWalManager) : Type 0 where
  pub rising : Rising 0 (m.flushed ++ m.dirty)
  pub next : m.next_lsn ≡ last_lsn 0 (m.flushed ++ m.dirty) + 1
  pub durable : m.flushed_lsn ≡ last_lsn 0 m.flushed
  pub stored : m.files ≡ write_all m.flushed first_files

pub lsn_of-set_lsn : (n : ℕ) (r : WalRecord) → lsn_of (set_lsn n r) ≡ n
lsn_of-set_lsn n r = ap (λ h. h.lsn) (header_of-with_header (record (header_of r) { lsn = n }) r)

-- Not yet the last LSN of all.
abbrev pub HasRoom : FileWalManager → Type 0
HasRoom m = m.next_lsn + 1 < 2 ^ 64

-- The record that `append_log` adds.
abbrev pub stamped : WalRecord → FileWalManager → WalRecord
stamped r m = set_lsn m.next_lsn r

pub read_all_logs-append_log_lem :
    (r : WalRecord) (m : FileWalManager)
    → read_all_logs (append_log r m).1 ≡ read_all_logs m ++ stamped r m ∷ []
unfolding read_all_logs append_log
read_all_logs-append_log_lem r m = sym (append_assoc m.flushed m.dirty (stamped r m ∷ []))

-- Appending a record keeps the manager consistent, unless the LSNs have run out.
pub append_log-IsConsistent :
    (r : WalRecord) (m : FileWalManager)
    → HasRoom m
    → IsConsistent m
    → IsConsistent (append_log r m).1
unfolding append_log
append_log-IsConsistent r m room h =
    let e : m.flushed ++ (m.dirty ++ stamped r m ∷ []) ≡ m.flushed ++ m.dirty ++ stamped r m ∷ [] =
      sym (append_assoc m.flushed m.dirty (stamped r m ∷ [])) in
    let s : lsn_of (stamped r m) ≡ m.next_lsn = lsn_of-set_lsn m.next_lsn r in
    record {
      rising = rw e (
          Rising-append 0 (m.flushed ++ m.dirty) (stamped r m ∷ []) h.rising
            (omega (arith, s, h.next), tt));
      next =
          rw (e, last_lsn-append 0 (m.flushed ++ m.dirty) (stamped r m ∷ []))
            (rw (last_lsn-one (last_lsn 0 (m.flushed ++ m.dirty)) (stamped r m))
              (omega (arith, s, room)));
      durable = h.durable;
      stored = h.stored;
    }

pub append_log_lem : (r : WalRecord) (m : FileWalManager) → (append_log r m).0 ≡ m.next_lsn
unfolding append_log
append_log_lem r m = refl

pub next_lsn-append_log :
    (r : WalRecord) (m : FileWalManager) → HasRoom m → (append_log r m).1.next_lsn ≡ m.next_lsn + 1
unfolding append_log
next_lsn-append_log r m room = omega (arith, room)

write_all-append :
    (rs qs : List WalRecord) (files : List LogFile)
    → write_all (rs ++ qs) files ≡ write_all qs (write_all rs files)
unfolding write_all
write_all-append [] qs files = refl
write_all-append (r ∷ rs) qs files = write_all-append rs qs _

-- What a flush that does not fail comes to.
abbrev pub flushed_all : FileWalManager → FileWalManager
flushed_all m = record m {
  dirty = [];
  files = write_all m.dirty m.files;
  flushed = m.flushed ++ m.dirty;
  flushed_lsn = last_lsn 0 (m.flushed ++ m.dirty);
}

flush_batch_lem :
    (rs : List WalRecord) (m : FileWalManager)
    → m.dirty ≡ rs
    → Rising 0 (m.flushed ++ rs)
    → m.flushed_lsn ≡ last_lsn 0 m.flushed
    → flush_batch none rs m ≡ (
      returned tt,
      record m {
        dirty = [];
        files = write_all rs m.files;
        flushed = m.flushed ++ rs;
        flushed_lsn = last_lsn 0 (m.flushed ++ rs);
      },
    )
unfolding flush_batch write_logs write_all
flush_batch_lem [] m e h d =
    rw append-nil (rw (← d) (ap (λ (l : List WalRecord). (returned tt, record m { dirty = l })) e))
flush_batch_lem (r ∷ rs) m e h d =
    let s = Rising-suffix 0 m.flushed (r ∷ rs) h in
    let g : last_lsn 0 m.flushed < last_lsn 0 (r ∷ rs) =
      unfold last_lsn in omega (arith, s.0, last_lsn-ge (lsn_of r) rs s.1) in
    let k : last_lsn 0 (m.flushed ++ r ∷ rs) ≡ last_lsn 0 (r ∷ rs) =
      last_lsn-append 0 m.flushed (r ∷ rs) ∙ unfold last_lsn in refl in
    rw k (ground (arith, g, d))

pub flush_lem : (m : FileWalManager) → IsConsistent m → flush none m ≡ (returned tt, flushed_all m)
unfolding flush
flush_lem m h = flush_batch_lem m.dirty m refl h.rising h.durable

-- A flush during which the file system does not fail returns, leaves the records and their order as
-- they were, has none left in memory only, makes the last of them the durable one, and keeps the
-- manager consistent.
pub flush-IsConsistent :
    (m : FileWalManager)
    → IsConsistent m
    → ((flush none m).0 ≡ returned tt)
      × (read_all_logs (flush none m).1 ≡ read_all_logs m)
      × ((flush none m).1.dirty ≡ [])
      × ((flush none m).1.flushed_lsn + 1 ≡ m.next_lsn)
      × IsConsistent (flush none m).1
flush-IsConsistent m h = rw (flush_lem m h) (
    unfold read_all_logs in
    (
      refl,
      append-nil (m.flushed ++ m.dirty),
      refl,
      sym h.next,
      record {
        rising = rw append-nil h.rising;
        next = rw append-nil h.next;
        durable = refl;
        stored = rw (h.stored, write_all-append m.flushed m.dirty first_files);
      },
    ))

find_log-snoc :
    (lsn : ℕ) (rs : List WalRecord) (q : WalRecord)
    → find_log lsn (rs ++ q ∷ [])
      ≡ or_else (find_log lsn rs) (if lsn_of q == lsn then some q else none)
unfolding find_log or_else
find_log-snoc lsn [] q = refl
find_log-snoc lsn (r ∷ rs) q = ground (arith, find_log-snoc lsn rs q)

next_is_new : (m : FileWalManager) → IsConsistent m → find_log m.next_lsn m.dirty ≡ none
next_is_new m h =
    find_log_above (last_lsn 0 m.flushed) m.next_lsn m.dirty
      (Rising-suffix 0 m.flushed m.dirty h.rising)
      (omega (arith, last_lsn-append 0 m.flushed m.dirty, h.next))

-- A record is found under the LSN that `append_log` gave it, with that LSN and all else as it was
-- given; under any other LSN the manager finds what it found before.
pub read_log-append_log :
    (r : WalRecord) (m : FileWalManager) (lsn : ℕ)
    → IsConsistent m
    → read_log lsn (append_log r m).1
      ≡ (if m.next_lsn == lsn then some (stamped r m) else read_log lsn m)
unfolding read_log append_log or_else
read_log-append_log r m lsn h =
    rw (find_log-snoc lsn m.dirty (stamped r m), lsn_of-set_lsn m.next_lsn r)
      (elim (Bool-cases (m.next_lsn == lsn)) [
        | inl same ↦
            let e : lsn ≡ m.next_lsn = sym ((==_iff m.next_lsn lsn).0 same) in
            rw (e, next_is_new m h, ==_refl m.next_lsn)
        | inr other ↦ ground (arith, other)
      ])
