-- ===== src/Tests/Recovery.antt =====
-- The recovery on a disk that keeps its pages in a list, and on a log with an open transaction.
use deltabase_c.Prelude.{
  ◌∙◌, sym, ◌∷◌, [], List, ◌++◌, ◌≡◌, ◌≢◌, refl, ap, arith, some, none, Option, Bool, true, false,
  if◌then◌else◌, ◌==◌, ==_iff, Bool-cases, inl, inr, Eq,
}
use mathlib.Core.List.{Permᴰ}
use mathlib.Core.List.Permᴰ
use deltabase_c.Types.Value.{Uuid}
use deltabase_c.Types.Meta.{MetaTable}
use deltabase_c.Types.Page.{DataPage}
use deltabase_c.Types.WalLog.{WalRecord, header_of}
use deltabase_c.Wal.Manager.{FileWalManager, read_all_logs, write_all, last_lsn, find_log}
use deltabase_c.Wal.Manager.Invariant.{IsConsistent, first_files}
use deltabase_c.Wal.Manager.Lookup.{read_log-all}
use deltabase_c.Wal.Manager.Durable.{no_faults}
use deltabase_c.Recovery.Io.{IoManager, IsIoManager, page_for}
use deltabase_c.Recovery.Kinds.{kind_of, back}
use deltabase_c.Recovery.Lsns.{LsnMap, lookup, assign, contains}
use deltabase_c.Recovery.Pages.{redo_rows, undo_rows}
use deltabase_c.Recovery.Pages.Effects.{visible, undo_rows-redo_rows}
use deltabase_c.Recovery.Redo.{
  redo_kind, redo_data, write_newer, write_newer, redo_data, redo_kind, redo_all, redo, is_redone,
  is_committed,
}
use deltabase_c.Recovery.Redo.Idempotent.{redo_all-again}
use deltabase_c.Recovery.Analysis.{
  active_txns, get_commit_lsns, get_commit_lsns_from, get_rollback_lsns, get_rollback_lsns_from,
  get_last_lsns, get_last_lsns_from, get_active_txns,
}
use deltabase_c.Recovery.Undo.{World, recover, done}
use deltabase_c.Recovery.Undo.Appends.{IsRecoverable, IsRecoverable-All}
use deltabase_c.Recovery.Undo.Completes.{recover-completes}
use deltabase_c.Tests.Storage.{nothing, ones, first_row, users, page}

abbrev pub same_uuid : Uuid → Uuid → Bool
same_uuid [] [] = true
same_uuid [] (b ∷ bs) = false
same_uuid (a ∷ xs) [] = false
same_uuid (a ∷ xs) (b ∷ bs) = if a == b then same_uuid xs bs else false

pub same_uuid→ : (a b : Uuid) → same_uuid a b ≡ true → a ≡ b
same_uuid→ [] [] e = refl
same_uuid→ [] (b ∷ bs) e = cc
same_uuid→ (a ∷ xs) [] e = cc
same_uuid→ (a ∷ xs) (b ∷ bs) e = elim (Bool-cases (a == b)) [
  | inl h ↦ let x = (==_iff a b).0 h in let y = same_uuid→ xs bs (rw h at e) in cc (x, y)
  | inr h ↦ cc (rw h at e)
]

pub same_uuid_refl : (a : Uuid) → same_uuid a a ≡ true
same_uuid_refl [] = refl
same_uuid_refl (a ∷ xs) = let h = (==_iff a a).1 refl in rw h (same_uuid_refl xs)

instance abbrev pub uuid_eq : Eq Uuid
uuid_eq = record {
  beq = same_uuid;
  beq_iff = λ a b. (same_uuid→ a b, λ e. rw e (same_uuid_refl b));
}

abbrev pub Disk : Type 0
Disk = List DataPage

abbrev pub find_page : Uuid → Disk → Option DataPage
find_page id [] = none
find_page id (p ∷ ps) = if same_uuid p.id id then some p else find_page id ps

abbrev pub blank : Uuid → DataPage
blank id = record page { id = id; rows = []; last_lsn = 0 }

-- The newest version of a page comes first.
abbrev pub disk : IoManager Disk
disk = record {
  read_data_page = λ id s. some (find_page id s);
  read_table_meta = λ id s. some users;
  create_page = λ mt id s. some (blank id);
  write_page = λ p s. some (p ∷ s);
  write_ms = λ ms s. some s;
  delete_ms = λ ms s. some s;
  write_mt = λ mt s. some s;
  delete_mt = λ mt s. some s;
}

find_page_id : (id : Uuid) (s : Disk) (p : DataPage) → find_page id s ≡ some p → p.id ≡ id
find_page_id id [] p e = cc
find_page_id id (q ∷ s) p e = elim (Bool-cases (same_uuid q.id id)) [
  | inl h ↦ let x : q ≡ p = cc (rw h at e) in rw (← x) (same_uuid→ q.id id h)
  | inr h ↦ find_page_id id s p (rw h at e)
]

opened_id :
    (found : Option DataPage) (mt : MetaTable) (id : Uuid) (s : Disk) (p : DataPage)
    → disk.read_data_page id s ≡ some found
    → page_for disk found mt id s ≡ some p
    → p.id ≡ id
opened_id none mt id s p e f = let x : blank id ≡ p = cc f in rw (← x) refl
opened_id (some q) mt id s p e f = find_page_id id s p (cc (e, f))

found_first : (p : DataPage) (id : Uuid) (s : Disk) → p.id ≡ id → find_page id (p ∷ s) ≡ some p
found_first p id s e = let h : same_uuid p.id id ≡ true = (uuid_eq.beq_iff p.id id).1 e in rw h

found_other :
    (p : DataPage) (other : Uuid) (s : Disk)
    → p.id ≢ other
    → find_page other (p ∷ s) ≡ find_page other s
found_other p other s n = elim (Bool-cases (same_uuid p.id other)) [
  | inl h ↦ absurd (n (same_uuid→ p.id other h))
  | inr h ↦ rw h
]

disk-IsIoManager : IsIoManager disk
disk-IsIoManager = record {
  read-write = λ found mt id p rows lsn s s' e f g.
      let q : DataPage = record p { rows = rows; last_lsn = lsn } in
      let w : q ∷ s ≡ s' = cc g in
      (q, rw (← w) (ap some (found_first q id s (opened_id found mt id s p e f))), refl);
  read_other = λ found mt id p rows lsn s s' other e f g n.
      let q : DataPage = record p { rows = rows; last_lsn = lsn } in
      let w : q ∷ s ≡ s' = cc g in
      rw (← w) (ap some (found_other q other s (λ x. n (sym x ∙ opened_id found mt id s p e f))));
  tables_stay = λ p s s' table e. refl;
  created = λ mt id s p e. let x : blank id ≡ p = cc e in rw (← x) refl;
}

-- Transaction `ones` began and inserted a row, and did not commit.
abbrev pub opens : WalRecord
opens = WalRecord.begin_txn (record { header = record { lsn = 1; prev_lsn = 0; txn_id = ones } })

abbrev pub adds : WalRecord
adds = WalRecord.insert (record {
  header = record { lsn = 2; prev_lsn = 1; txn_id = ones };
  table_id = ones;
  page_id = ones;
  after = first_row;
})

abbrev pub crashed : FileWalManager
crashed = record {
  next_lsn = 3;
  flushed_lsn = 2;
  flushed = opens ∷ adds ∷ [];
  dirty = [];
  files = write_all (opens ∷ adds ∷ []) first_files;
}

pub crashed-IsConsistent : IsConsistent crashed
crashed-IsConsistent = record {
  rising = unfold header_of in (omega arith, (omega arith, tt));
  next = unfold last_lsn header_of in refl;
  durable = unfold last_lsn header_of in refl;
  stored = refl;
}

pub crashed-IsRecoverable : IsRecoverable disk crashed
unfolding read_all_logs kind_of back header_of
crashed-IsRecoverable = IsRecoverable-All disk crashed crashed-IsConsistent (
  record { descends = omega arith; leads = inl refl; undoes = tt },
  (
    record {
      descends = omega arith;
      leads =
          inr (opens, read_log-all 1 crashed crashed-IsConsistent ∙ unfold find_log in refl, refl);
      undoes = (λ s. (_, refl), λ p s. (_, refl));
    },
    tt,
  ),
)

abbrev world : World Disk
world = record { wal = crashed; store = page ∷ [] }

same_Perm : (l : LsnMap) → Permᴰ l l
same_Perm l = Permᴰ.refl l

recover-completes_example :
    (w' : World Disk) × (recover disk no_faults 0 (λ l. l) world ≡ done w')
    × (active_txns (read_all_logs w'.wal) ≡ [])
    × ((added : List WalRecord) × (read_all_logs w'.wal ≡ read_all_logs crashed ++ added))
    × IsRecoverable disk w'.wal
unfolding read_all_logs lookup assign contains get_commit_lsns get_commit_lsns_from
    get_rollback_lsns get_rollback_lsns_from get_last_lsns get_last_lsns_from get_active_txns
    redo_all redo is_redone is_committed kind_of header_of
recover-completes_example =
    recover-completes disk 0 (λ l. l) world (page ∷ []) crashed-IsRecoverable same_Perm
      (omega arith) refl

-- The insert, and the commit that makes it redone.
abbrev redone_log : List WalRecord
redone_log = adds ∷ []

abbrev written : Disk
written = record (blank ones) { rows = first_row ∷ []; last_lsn = 2 } ∷ blank ones ∷ []

redo_all-again_example : redo_all disk 0 ((ones, 3) ∷ []) redone_log written ≡ some written
unfolding redo_all redo is_redone is_committed lookup kind_of header_of redo_kind redo_data
    write_newer redo_rows
redo_all-again_example =
    redo_all-again disk disk-IsIoManager 0 ((ones, 3) ∷ []) redone_log (blank ones ∷ []) written
      (refl, tt) refl

-- The row's token becomes null, in a new row.
abbrev updates : WalRecord
updates = WalRecord.update (record {
  header = record { lsn = 3; prev_lsn = 2; txn_id = ones };
  table_id = ones;
  page_id = ones;
  before = first_row;
  after = record first_row { id = 2; tokens = nothing ∷ [] };
})

undo_rows-redo_rows_example :
    Permᴰ
      (visible (undo_rows updates (redo_rows updates (first_row ∷ []))))
      (visible (first_row ∷ []))
undo_rows-redo_rows_example = undo_rows-redo_rows updates (first_row ∷ []) (
  (refl, tt),
  record {
    before = [];
    row = first_row;
    behind = [];
    split = refl;
    fresh = tt;
    same_id = refl;
    live = refl;
    same_tokens = refl;
  },
)
