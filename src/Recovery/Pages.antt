-- ===== src/Recovery/Pages.antt =====
-- recovery_manager.cpp: what `redo` and `undo_record` do to a data page.
pub mod Effects
use deltabase_c.Prelude.{ℕ, List, [], ◌∷◌, ◌++◌, ◌==◌, if◌then◌else◌}
use deltabase_c.Types.Value.{DataRow, set_obsolete, clear_obsolete}
use deltabase_c.Types.WalLog.{WalRecord}

-- The loops over the rows of a page, which change the first row with the id and stop.
pub change_first : ℕ → (DataRow → DataRow) → List DataRow → List DataRow
change_first id f [] = []
change_first id f (row ∷ rows) = if row.id == id then f row ∷ rows else row ∷ change_first id f rows

-- `row.flags |= OBSOLETE`
pub mark : DataRow → DataRow
mark row = record row { flags = set_obsolete row.flags }

-- `row.flags &= ~OBSOLETE`
pub unmark : DataRow → DataRow
unmark row = record row { flags = clear_obsolete row.flags }

-- `row.tokens = before.tokens`, and unmarked.
pub restore : DataRow → DataRow → DataRow
restore before row = record row { tokens = before.tokens; flags = clear_obsolete row.flags }

unfoldable pub redo_rows : WalRecord → List DataRow → List DataRow
unfolding change_first mark unmark restore
redo_rows (WalRecord.insert r) rows = rows ++ r.after ∷ []
redo_rows (WalRecord.update r) rows = change_first r.before.id mark rows ++ r.after ∷ []
redo_rows (WalRecord.delete r) rows = change_first r.before.id mark rows
redo_rows (WalRecord.clr_insert r) rows = change_first r.after.id mark rows
redo_rows (WalRecord.clr_update r) rows = change_first r.after.id (restore r.before) rows
redo_rows (WalRecord.clr_delete r) rows = change_first r.before.id unmark rows
redo_rows r rows = rows

pub undo_rows : WalRecord → List DataRow → List DataRow
undo_rows (WalRecord.insert r) rows = change_first r.after.id mark rows
undo_rows (WalRecord.update r) rows = change_first r.after.id (restore r.before) rows
undo_rows (WalRecord.delete r) rows = change_first r.before.id unmark rows
undo_rows r rows = rows
