-- ===== src/Recovery/Redo/Applied.antt =====
-- `redo_data` puts a record on its page and leaves those there that are on theirs.
use deltabase_c.Prelude.{
  ap, ltb→lt, ◌∙◌, ℕ, ◌≤◌, ◌<◌, ◌≡◌, refl, arith, none, some, Option, false, ltb, Bool-cases, inl,
  inr, Eq,
}
use deltabase_c.Types.Value.{Uuid}
use deltabase_c.Types.Meta.{MetaTable}
use deltabase_c.Types.Page.{DataPage}
use deltabase_c.Types.WalLog.{WalRecord, lsn_of}
use deltabase_c.Recovery.Io.{IoManager, IsIoManager, page_for, bind-some}
use deltabase_c.Recovery.Kinds.{
  Kind, changes_meta, data_record, data_clr, meta_record, meta_clr, begins, commits, rolls_back,
}
use deltabase_c.Recovery.Redo.{redo_data, redo_kind, write_newer}

-- A record of LSN `lsn` is on its page.
pub record Applied {S : Type 0} (io : IoManager S) (lsn : ℕ) (page_id table_id : Uuid) (s : S)
    : Type 0 where
  pub page : DataPage
  pub table : MetaTable
  pub is_read : io.read_data_page page_id s ≡ some (some page)
  pub is_known : io.read_table_meta table_id s ≡ some table
  pub is_newer : lsn ≤ page.last_lsn

-- What `redo_data` went through.
pub record Redone ⦃uuid_eq : Eq Uuid⦄ {S : Type 0} (io : IoManager S) (r : WalRecord)
    (page_id table_id : Uuid) (s s' : S) : Type 0 where
  pub found : Option DataPage
  pub table : MetaTable
  pub page : DataPage
  pub is_read : io.read_data_page page_id s ≡ some found
  pub is_known : io.read_table_meta table_id s ≡ some table
  pub is_opened : page_for io found table page_id s ≡ some page
  pub is_written : write_newer io r page s ≡ some s'

module _ ⦃uuid_eq : Eq Uuid⦄ {S : Type 0} (io : IoManager S) (laws : IsIoManager io) where
  redo_data-Redone :
      (r : WalRecord) (page_id table_id : Uuid) (s s' : S)
      → redo_data io r page_id table_id s ≡ some s'
      → Redone io r page_id table_id s s'
  unfolding redo_data
  redo_data-Redone r page_id table_id s s' e =
      let (found, e1, k1) = bind-some (io.read_data_page page_id s) _ s' e in
      let (table, e2, k2) = bind-some (io.read_table_meta table_id s) _ s' k1 in
      let (page, e3, k3) = bind-some (page_for io found table page_id s) _ s' k2 in
      record {
        found = found;
        table = table;
        page = page;
        is_read = e1;
        is_known = e2;
        is_opened = e3;
        is_written = k3;
      }

  redo_data-Applied :
      (r : WalRecord) (page_id table_id : Uuid) (s : S)
      → Applied io (lsn_of r) page_id table_id s
      → redo_data io r page_id table_id s ≡ some s
  unfolding redo_data write_newer
  redo_data-Applied r page_id table_id s a =
      rw (a.is_read, a.is_known) (let h = a.is_newer in ground (arith, h))

  is_found :
      (found : Option DataPage) (table : MetaTable) (id : Uuid) (s : S) (page : DataPage) (lsn : ℕ)
      → page_for io found table id s ≡ some page
      → 0 < lsn
      → lsn ≤ page.last_lsn
      → found ≡ some page
  is_found (some p) table id s page lsn e h k = e
  is_found none table id s page lsn e h k =
      absurd (omega (arith, laws.created table id s page e, h, k))

  applies :
      (r : WalRecord) (page_id table_id : Uuid) (s s' : S)
      → 0 < lsn_of r
      → redo_data io r page_id table_id s ≡ some s'
      → Applied io (lsn_of r) page_id table_id s'
  unfolding write_newer
  applies r page_id table_id s s' h e =
      let d = redo_data-Redone r page_id table_id s s' e in
      elim (Bool-cases (ltb d.page.last_lsn (lsn_of r))) [
        | inl older ↦
            let w = rw older at d.is_written in
            let (page', now, lsn) =
              laws.read-write d.found d.table page_id d.page _ _ s s' d.is_read d.is_opened w in
            record {
              page = page';
              table = d.table;
              is_read = now;
              is_known = laws.tables_stay _ s s' table_id w ∙ d.is_known;
              is_newer = omega (arith, lsn);
            }
        | inr newer ↦
            let w = rw newer at d.is_written in
            let same : s ≡ s' = cc w in
            let f =
              is_found d.found d.table page_id s d.page (lsn_of r) d.is_opened h
                (ground (arith, newer)) in
            rw (← same) (record {
              page = d.page;
              table = d.table;
              is_read = rw f at d.is_read;
              is_known = d.is_known;
              is_newer = ground (arith, newer);
            })
      ]

  keeps :
      (lsn : ℕ) (page_id table_id : Uuid) (r : WalRecord) (p t : Uuid) (s s' : S)
      → Applied io lsn page_id table_id s
      → redo_data io r p t s ≡ some s'
      → Applied io lsn page_id table_id s'
  unfolding write_newer
  keeps lsn page_id table_id r p t s s' a e =
      let d = redo_data-Redone r p t s s' e in
      elim (Bool-cases (ltb d.page.last_lsn (lsn_of r))) [
        | inr newer ↦ let same : s ≡ s' = cc (rw newer at d.is_written) in rw (← same) a
        | inl older ↦
            let w = rw older at d.is_written in
            let known = laws.tables_stay _ s s' table_id w ∙ a.is_known in
            elim (Bool-cases (uuid_eq.beq page_id p)) [
              | inl here ↦
                  let at_p : page_id ≡ p = (uuid_eq.beq_iff page_id p).0 here in
                  let (page', now, e') =
                    laws.read-write d.found d.table p d.page _ _ s s' d.is_read d.is_opened w in
                  let old : d.found ≡ some a.page = cc (d.is_read, a.is_read, at_p) in
                  let old' : a.page ≡ d.page = cc (rw old at d.is_opened) in
                  record {
                    page = page';
                    table = a.table;
                    is_read = rw at_p now;
                    is_known = known;
                    is_newer = omega (
                      arith,
                      e',
                      a.is_newer,
                      ltb→lt d.page.last_lsn (lsn_of r) older,
                      ap (λ (q : DataPage). q.last_lsn) old',
                    );
                  }
              | inr elsewhere ↦ record {
                page = a.page;
                table = a.table;
                is_read =
                    laws.read_other d.found d.table p d.page _ _ s s' page_id d.is_read d.is_opened
                      w (λ e. cc ((uuid_eq.beq_iff page_id p).1 e, elsewhere))
                    ∙ a.is_read;
                is_known = known;
                is_newer = a.is_newer;
              }
            ]
      ]

  -- A redone record of the kind is on its page.
  pub SettledAs : Kind → ℕ → S → Type 0
  SettledAs (data_record p t) lsn s = Applied io lsn p t s
  SettledAs (data_clr p t next) lsn s = Applied io lsn p t s
  SettledAs k lsn s = Unit {0}

  pub redo_settled :
      (k : Kind) (r : WalRecord) (s : S)
      → changes_meta k ≡ false
      → SettledAs k (lsn_of r) s
      → redo_kind io k r s ≡ some s
  unfolding SettledAs redo_kind
  redo_settled (data_record p t) r s m a = redo_data-Applied r p t s a
  redo_settled (data_clr p t next) r s m a = redo_data-Applied r p t s a
  redo_settled meta_record r s m a = cc
  redo_settled (meta_clr next) r s m a = cc
  redo_settled begins r s m a = refl
  redo_settled commits r s m a = refl
  redo_settled rolls_back r s m a = refl

  pub redo_settles :
      (k : Kind) (r : WalRecord) (s s' : S)
      → 0 < lsn_of r
      → redo_kind io k r s ≡ some s'
      → SettledAs k (lsn_of r) s'
  unfolding SettledAs redo_kind
  redo_settles (data_record p t) r s s' h e = applies r p t s s' h e
  redo_settles (data_clr p t next) r s s' h e = applies r p t s s' h e
  redo_settles meta_record r s s' h e = tt
  redo_settles (meta_clr next) r s s' h e = tt
  redo_settles begins r s s' h e = tt
  redo_settles commits r s s' h e = tt
  redo_settles rolls_back r s s' h e = tt

  stays-Applied :
      (lsn : ℕ) (page_id table_id : Uuid) (k : Kind) (r : WalRecord) (s s' : S)
      → changes_meta k ≡ false
      → redo_kind io k r s ≡ some s'
      → Applied io lsn page_id table_id s
      → Applied io lsn page_id table_id s'
  unfolding redo_kind
  stays-Applied lsn page table (data_record p t) r s s' m e a = keeps lsn page table r p t s s' a e
  stays-Applied lsn page table (data_clr p t next) r s s' m e a =
      keeps lsn page table r p t s s' a e
  stays-Applied lsn page table meta_record r s s' m e a = cc
  stays-Applied lsn page table (meta_clr next) r s s' m e a = cc
  stays-Applied lsn page table begins r s s' m e a = let same : s ≡ s' = cc e in rw (← same) a
  stays-Applied lsn page table commits r s s' m e a = let same : s ≡ s' = cc e in rw (← same) a
  stays-Applied lsn page table rolls_back r s s' m e a = let same : s ≡ s' = cc e in rw (← same) a

  pub stays_settled :
      (k' : Kind) (lsn : ℕ) (k : Kind) (r : WalRecord) (s s' : S)
      → changes_meta k ≡ false
      → redo_kind io k r s ≡ some s'
      → SettledAs k' lsn s
      → SettledAs k' lsn s'
  unfolding SettledAs
  stays_settled (data_record p t) lsn k r s s' m e a = stays-Applied lsn p t k r s s' m e a
  stays_settled (data_clr p t next) lsn k r s s' m e a = stays-Applied lsn p t k r s s' m e a
  stays_settled meta_record lsn k r s s' m e a = tt
  stays_settled (meta_clr next) lsn k r s s' m e a = tt
  stays_settled begins lsn k r s s' m e a = tt
  stays_settled commits lsn k r s s' m e a = tt
  stays_settled rolls_back lsn k r s s' m e a = tt
