-- ===== src/Recovery/Pages/Effects.antt =====
-- What can be seen on a page after a change was redone and undone.
use deltabase_c.Prelude.{
  ℕ, ◌%◌, ◌≡◌, refl, ◌∙◌, ap, List, [], ◌∷◌, ◌++◌, arith, true, false, ◌==◌, ==_refl, if◌then◌else◌,
  All, All-split, All-append, append-nil,
}
use mathlib.Core.List.{Permᴰ}
use mathlib.Core.List.Permᴰ
use deltabase_c.Types.Value.{DataRow, DataToken, set_obsolete_odd, clear_obsolete_even}
use deltabase_c.Types.WalLog.{WalRecord}
use deltabase_c.Recovery.Pages.{change_first, mark, unmark, restore, redo_rows, undo_rows}

-- The tokens of the rows that are not obsolete.
abbrev pub visible : List DataRow → List (List DataToken)
visible [] = []
visible (row ∷ rows) = if row.flags % 2 == 0 then row.tokens ∷ visible rows else visible rows

-- No row has the id.
abbrev pub IsFresh : ℕ → List DataRow → Type 0
IsFresh id rows = All (λ (row : DataRow). (row.id == id) ≡ false) rows

-- The first row with the id is not obsolete, and has the tokens.
pub record IsLive (id : ℕ) (tokens : List DataToken) (rows : List DataRow) : Type 0 where
  pub before : List DataRow
  pub row : DataRow
  pub behind : List DataRow
  pub split : rows ≡ before ++ row ∷ behind
  pub fresh : IsFresh id before
  pub same_id : row.id ≡ id
  pub live : row.flags % 2 ≡ 0
  pub same_tokens : row.tokens ≡ tokens

change_first-split :
    (id : ℕ) (f : DataRow → DataRow) (before behind : List DataRow) (row : DataRow)
    → IsFresh id before
    → row.id ≡ id
    → change_first id f (before ++ row ∷ behind) ≡ before ++ f row ∷ behind
unfolding change_first
change_first-split id f [] behind row h e =
    let k : (row.id == id) ≡ true = rw e (==_refl id) in rw k
change_first-split id f (q ∷ before) behind row h e =
    rw h.0 (ap (λ (l : List DataRow). q ∷ l) (change_first-split id f before behind row h.1 e))

visible-append :
    (rows rows' : List DataRow) → visible (rows ++ rows') ≡ visible rows ++ visible rows'
visible-append [] rows' = refl
visible-append (row ∷ rows) rows' = ground (arith, visible-append rows rows')

-- The rows before a row, the row, and the rows behind it.
visible-split :
    (before behind : List DataRow) (row : DataRow)
    → visible (before ++ row ∷ behind) ≡ visible before ++ (visible (row ∷ []) ++ visible behind)
visible-split before behind row =
    visible-append before (row ∷ behind)
    ∙ ap (λ (l : List (List DataToken)). visible before ++ l) (visible-append (row ∷ []) behind)

marked : (row : DataRow) → visible (mark row ∷ []) ≡ []
unfolding mark
marked row = let o = set_obsolete_odd row.flags in ground (arith, o)

visible-live : (row : DataRow) → row.flags % 2 ≡ 0 → visible (row ∷ []) ≡ row.tokens ∷ []
visible-live row e = ground (arith, e)

unmarked : (row : DataRow) → visible (unmark row ∷ []) ≡ row.tokens ∷ []
unfolding unmark
unmarked row = let o = clear_obsolete_even row.flags in ground (arith, o)

restored : (old row : DataRow) → visible (restore old row ∷ []) ≡ old.tokens ∷ []
unfolding restore
restored old row = let o = clear_obsolete_even row.flags in ground (arith, o)

to_front : {A : Type 0} (t : A) (ys : List A) → Permᴰ (ys ++ t ∷ []) (t ∷ ys)
to_front t [] = Permᴰ.refl (t ∷ [])
to_front t (y ∷ ys) = Permᴰ.trans (Permᴰ.cons refl (to_front t ys)) (Permᴰ.swap refl refl)

from_end : {A : Type 0} (t : A) (xs ys : List A) → Permᴰ (xs ++ ys ++ t ∷ []) (xs ++ t ∷ ys)
from_end t [] ys = to_front t ys
from_end t (x ∷ xs) ys = Permᴰ.cons refl (from_end t xs ys)

-- What a record presupposes of the rows of its page: a new row has a new id, and an old one is there
-- as the record has it.
abbrev pub Applies : WalRecord → List DataRow → Type 0
Applies (WalRecord.insert r) rows = IsFresh r.after.id rows
Applies (WalRecord.update r) rows =
    IsFresh r.after.id rows × IsLive r.before.id r.before.tokens rows
Applies (WalRecord.delete r) rows = IsLive r.before.id r.before.tokens rows
Applies r rows = ⊥

insert_lem :
    (after : DataRow) (rows : List DataRow)
    → IsFresh after.id rows
    → visible (change_first after.id mark (rows ++ after ∷ [])) ≡ visible rows
insert_lem after rows h =
    rw
      (
        change_first-split after.id mark rows [] after h refl,
        visible-split rows [] (mark after),
        marked after,
      )
      (append-nil (visible rows))

fresh_mark :
    (id : ℕ) (before behind : List DataRow) (row : DataRow)
    → IsFresh id (before ++ row ∷ behind)
    → IsFresh id (before ++ mark row ∷ behind)
unfolding mark
fresh_mark id before behind row h =
    let P : DataRow → Type 0 = λ row. (row.id == id) ≡ false in
    let (k, l) = All-split P before (row ∷ behind) h in All-append P before (mark row ∷ behind) k l

delete_lem :
    (old : DataRow) (rows : List DataRow)
    → IsLive old.id old.tokens rows
    → visible (change_first old.id unmark (change_first old.id mark rows)) ≡ visible rows
unfolding mark
delete_lem old rows l =
    rw
      (
        l.split,
        change_first-split old.id mark l.before l.behind l.row l.fresh l.same_id,
        change_first-split old.id unmark l.before l.behind (mark l.row) l.fresh l.same_id,
        visible-split l.before l.behind l.row,
        visible-split l.before l.behind (unmark (mark l.row)),
        unmarked (mark l.row),
        visible-live l.row l.live,
      )
      refl

update_lem :
    (old after : DataRow) (rows : List DataRow)
    → IsFresh after.id rows
    → IsLive old.id old.tokens rows
    → Permᴰ
        (visible
          (change_first after.id (restore old) (change_first old.id mark rows ++ after ∷ [])))
        (visible rows)
update_lem old after rows h l =
    let fresh = fresh_mark after.id l.before l.behind l.row (rw l.split at h) in
    rw
      (
        l.split,
        change_first-split old.id mark l.before l.behind l.row l.fresh l.same_id,
        change_first-split after.id (restore old) (l.before ++ mark l.row ∷ l.behind) [] after fresh
            refl,
        visible-split (l.before ++ mark l.row ∷ l.behind) [] (restore old after),
        visible-split l.before l.behind (mark l.row),
        marked l.row,
        restored old after,
        visible-split l.before l.behind l.row,
        visible-live l.row l.live,
        l.same_tokens,
      )
      (from_end old.tokens (visible l.before) (visible l.behind))

-- To undo a change of a row on the page where it was redone gives back the rows that can be seen, in
-- another order at most, if the change applies to the page.
pub undo_rows-redo_rows :
    (r : WalRecord) (rows : List DataRow)
    → Applies r rows
    → Permᴰ (visible (undo_rows r (redo_rows r rows))) (visible rows)
unfolding undo_rows redo_rows
undo_rows-redo_rows (WalRecord.insert r) rows h =
    rw (insert_lem r.after rows h) (Permᴰ.refl (visible rows))
undo_rows-redo_rows (WalRecord.update r) rows h = update_lem r.before r.after rows h.0 h.1
undo_rows-redo_rows (WalRecord.delete r) rows h =
    rw (delete_lem r.before rows h) (Permᴰ.refl (visible rows))
undo_rows-redo_rows (WalRecord.create_table r) rows h = absurd h
undo_rows-redo_rows (WalRecord.update_table r) rows h = absurd h
undo_rows-redo_rows (WalRecord.delete_table r) rows h = absurd h
undo_rows-redo_rows (WalRecord.create_schema r) rows h = absurd h
undo_rows-redo_rows (WalRecord.update_schema r) rows h = absurd h
undo_rows-redo_rows (WalRecord.delete_schema r) rows h = absurd h
undo_rows-redo_rows (WalRecord.begin_txn r) rows h = absurd h
undo_rows-redo_rows (WalRecord.commit_txn r) rows h = absurd h
undo_rows-redo_rows (WalRecord.rollback_txn r) rows h = absurd h
undo_rows-redo_rows (WalRecord.clr_insert r) rows h = absurd h
undo_rows-redo_rows (WalRecord.clr_update r) rows h = absurd h
undo_rows-redo_rows (WalRecord.clr_delete r) rows h = absurd h
undo_rows-redo_rows (WalRecord.clr_create_schema r) rows h = absurd h
undo_rows-redo_rows (WalRecord.clr_update_schema r) rows h = absurd h
undo_rows-redo_rows (WalRecord.clr_delete_schema r) rows h = absurd h
undo_rows-redo_rows (WalRecord.clr_create_table r) rows h = absurd h
undo_rows-redo_rows (WalRecord.clr_update_table r) rows h = absurd h
undo_rows-redo_rows (WalRecord.clr_delete_table r) rows h = absurd h
undo_rows-redo_rows (WalRecord.create_index r) rows h = absurd h
undo_rows-redo_rows (WalRecord.clr_create_index r) rows h = absurd h
undo_rows-redo_rows (WalRecord.drop_index r) rows h = absurd h
undo_rows-redo_rows (WalRecord.clr_drop_index r) rows h = absurd h
