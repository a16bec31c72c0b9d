-- ===== src/Recovery/Io.antt =====
-- storage/include/io_manager.hpp: the operations of `IIOManager` that the recovery calls, over any
-- state of the disk. `none` is an exception.
use deltabase_c.Prelude.{refl, Option, none, some, List, ◌≡◌, ◌≢◌, ℕ}
use deltabase_c.Types.Value.{Uuid, DataRow}
use deltabase_c.Types.Meta.{MetaSchema, MetaTable}
use deltabase_c.Types.Page.{DataPage}

pub record IoManager (S : Type 0) : Type 0 where
  pub read_data_page : Uuid → S → Option (Option DataPage)
  pub read_table_meta : Uuid → S → Option MetaTable
  pub create_page : MetaTable → Uuid → S → Option DataPage
  pub write_page : DataPage → S → Option S
  pub write_ms : MetaSchema → S → Option S
  pub delete_ms : MetaSchema → S → Option S
  pub write_mt : MetaTable → S → Option S
  pub delete_mt : MetaTable → S → Option S

infixl 20 ◌>>=◌
abbrev pub ◌>>=◌ {ℓ κ} : {A : Type ℓ} {B : Type κ} → Option A → (A → Option B) → Option B
none >>= f = none
some a >>= f = f a

-- The page that was read, or a new one if there was none.
abbrev pub page_for :
    {S : Type 0} → IoManager S → Option DataPage → MetaTable → Uuid → S → Option DataPage
page_for io (some page) mt id s = some page
page_for io none mt id s = io.create_page mt id s

-- What a working disk does: a page that was opened and is written with other rows and another LSN
-- is read back with that LSN, nothing else changes that the recovery reads, and a new page has LSN 0.
pub record IsIoManager {S : Type 0} (io : IoManager S) : Type 0 where
  pub read-write :
      (found : Option DataPage) (mt : MetaTable) (id : Uuid) (page : DataPage) (rows : List DataRow)
      (lsn : ℕ) (s s' : S)
      → io.read_data_page id s ≡ some found
      → page_for io found mt id s ≡ some page
      → io.write_page (record page { rows = rows; last_lsn = lsn }) s ≡ some s'
      → (page' : DataPage) × (io.read_data_page id s' ≡ some (some page')) × (page'.last_lsn ≡ lsn)
  pub read_other :
      (found : Option DataPage) (mt : MetaTable) (id : Uuid) (page : DataPage) (rows : List DataRow)
      (lsn : ℕ) (s s' : S) (other : Uuid)
      → io.read_data_page id s ≡ some found
      → page_for io found mt id s ≡ some page
      → io.write_page (record page { rows = rows; last_lsn = lsn }) s ≡ some s'
      → other ≢ id
      → io.read_data_page other s' ≡ io.read_data_page other s
  pub tables_stay :
      (page : DataPage) (s s' : S) (table : Uuid)
      → io.write_page page s ≡ some s'
      → io.read_table_meta table s' ≡ io.read_table_meta table s
  pub created :
      (mt : MetaTable) (id : Uuid) (s : S) (page : DataPage)
      → io.create_page mt id s ≡ some page
      → page.last_lsn ≡ 0

pub bind-some {ℓ κ} :
    {A : Type ℓ} {B : Type κ} (o : Option A) (f : A → Option B) (b : B)
    → (o >>= f) ≡ some b
    → (a : A) × (o ≡ some a) × (f a ≡ some b)
bind-some none f b e = cc
bind-some (some a) f b e = (a, refl, e)
