-- ===== src/Recovery/Undo/Step.antt =====
-- A round of the loop of `undo`, for each kind of record.
use deltabase_c.Prelude.{◌≡◌, refl, none, some, Option, true, ◌⊎◌, inl, inr, Eq}
use deltabase_c.Types.Value.{Uuid}
use deltabase_c.Types.Page.{DataPage}
use deltabase_c.Types.WalLog.{WalRecord, lsn_of, txn_of, header_of}
use deltabase_c.Wal.Manager.{read_log}
use deltabase_c.Wal.Manager.Invariant.{HasRoom}
use deltabase_c.Wal.Manager.Durable.{no_faults}
use deltabase_c.Recovery.Io.{IoManager}
use deltabase_c.Recovery.Kinds.{
  Kind, kind_of, back, is_rollback, data_record, meta_record, data_clr, meta_clr, begins, commits,
  rolls_back,
}
use deltabase_c.Recovery.Undo.{
  undo_rows, DataPage, compensated, undo_on_page, went_back, World, Cursor, went_back, compensated,
  undo_on_page, undo_page, undo_meta_record, undo_kind,
}
use deltabase_c.Recovery.Undo.Appends.{IsRecoverable, UndoesAs}
use deltabase_c.Recovery.Undo.Clr.{Extends, Extends-same, LoggedClr, log_clr-LoggedClr}

module _ ⦃uuid_eq : Eq Uuid⦄ {S : Type 0} (io : IoManager S) where
  -- What a round came to.
  pub record Stepped (k : Kind) (r : WalRecord) (c c' : Cursor S) : Type 0 where
    pub is_step : undo_kind io no_faults k r c ≡ some c'
    pub goes_back : c'.current ≡ back r
    pub extends : Extends io (txn_of r) 1 c.world.wal c'.world.wal
    pub has_seen :
        c'.rollback_marker_seen ≡ true → (c.rollback_marker_seen ≡ true) ⊎ (is_rollback k ≡ true)

  module _ (r : WalRecord) (c : Cursor S) (h : IsRecoverable io c.world.wal) where
    same_world : Extends io (txn_of r) 1 c.world.wal c.world.wal
    same_world = Extends-same io (txn_of r) 1 c.world.wal h

    module _ (room : HasRoom c.world.wal) (e : read_log c.current c.world.wal ≡ some r) where
      -- A record that can be undone, on a page that is there, or in the metadata.
      goes_compensated :
          (k : Kind) (w : World S) (s : S)
          → (header_of r).prev_lsn ≡ back r
          → LoggedClr io r c w
          → undo_kind io no_faults k r c ≡ some (compensated io no_faults r w s c)
          → (c' : Cursor S) × Stepped k r c c'
      goes_compensated k w s b l is = (
        compensated io no_faults r w s c,
        record { is_step = is; goes_back = b; extends = l.extends; has_seen = λ s. inl s },
      )

      step_on_page :
          (p t : Uuid) (found : Option DataPage)
          → kind_of r ≡ data_record p t
          → io.read_data_page p c.world.store ≡ some found
          → UndoesAs io (data_record p t) r
          → (c' : Cursor S) × Stepped (data_record p t) r c c'
      unfolding undo_kind undo_page undo_on_page back
      step_on_page p t none k f u = (
        went_back io no_faults r c,
        record {
          is_step = rw f;
          goes_back = rw (k, back);
          extends = same_world;
          has_seen = λ s. inl s;
        },
      )
      step_on_page p t (some page) k f u =
          let (w, l) = log_clr-LoggedClr io r c h room e (rw k) in
          let (s, g) =
            u.1 (record page { rows = undo_rows r page.rows; last_lsn = c.world.wal.next_lsn })
              w.store in
          goes_compensated (data_record p t) w s (rw (k, back)) l (rw (f, l.is_logged, g) refl)

      pub step_kind :
          (k : Kind) → kind_of r ≡ k → UndoesAs io k r → (c' : Cursor S) × Stepped k r c c'
      unfolding undo_kind undo_meta_record back
      step_kind (data_record p t) k u =
          let (found, f) = u.0 c.world.store in step_on_page p t found k f u
      step_kind meta_record k u =
          let (w, l) = log_clr-LoggedClr io r c h room e (rw k) in
          let (s, g) = u w.store in
          goes_compensated meta_record w s (rw (k, back)) l (rw (l.is_logged, g) refl)
      step_kind (data_clr p t next) k u = (
        record c { current = next; txn_prev_lsn = lsn_of r },
        record {
          is_step = refl;
          goes_back = rw (k, back);
          extends = same_world;
          has_seen = λ s. inl s;
        },
      )
      step_kind (meta_clr next) k u = (
        record c { current = next; txn_prev_lsn = lsn_of r },
        record {
          is_step = refl;
          goes_back = rw (k, back);
          extends = same_world;
          has_seen = λ s. inl s;
        },
      )
      step_kind begins k u = (
        went_back io no_faults r c,
        record {
          is_step = refl;
          goes_back = rw (k, back);
          extends = same_world;
          has_seen = λ s. inl s;
        },
      )
      step_kind commits k u = (
        went_back io no_faults r c,
        record {
          is_step = refl;
          goes_back = rw (k, back);
          extends = same_world;
          has_seen = λ s. inl s;
        },
      )
      step_kind rolls_back k u = (
        record c { current = 0; txn_prev_lsn = lsn_of r; rollback_marker_seen = true },
        record {
          is_step = refl;
          goes_back = rw (k, back);
          extends = same_world;
          has_seen = λ s. inr refl;
        },
      )
