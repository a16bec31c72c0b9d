-- ===== src/Wal/Locals.antt =====
-- std_wal_serializer.cpp: the part that every case of `deserialize` begins with. A read that comes up
-- short leaves bytes of an uninitialised local as they were; `Locals` is what these held.
use deltabase_c.Prelude.{ℕ, ◌≡◌, refl, List, [], ◌∷◌, length}
use deltabase_c.Stream.Word.{le_bytes, IsU64}
use deltabase_c.Stream.{
  Parses-read_word_some, Reader, ◌>>=◌, pure, read_some, read_word_some, Parses, Parses-bind,
  Parses-pure, Parses-read_some,
}
use deltabase_c.Types.Value.{Uuid, IsUuid, null_uuid}
use deltabase_c.Types.WalLog.Txn.{Header, IsHeader}
use deltabase_c.Storage.Encode.Layout.{layout}

pub record Locals : Type 0 where
  pub type : List ℕ
  pub lsn : List ℕ
  pub prev_lsn : List ℕ
  pub undo_next_lsn : List ℕ

-- Each is a `uint64_t`.
pub record IsLocals (ls : Locals) : Type 0 where
  pub type : length ls.type ≡ 8
  pub lsn : length ls.lsn ≡ 8
  pub prev_lsn : length ls.prev_lsn ≡ 8
  pub undo_next_lsn : length ls.undo_next_lsn ≡ 8

pub read_header : Locals → Reader Header
read_header ls = do
  lsn ← read_word_some 8 ls.lsn
  prev_lsn ← read_word_some 8 ls.prev_lsn
  txn_id ← read_some 16 null_uuid
  pure (record { lsn = lsn; prev_lsn = prev_lsn; txn_id = txn_id })

unfoldable pub header_bytes : Header → List ℕ
header_bytes h = layout (le_bytes 8 h.lsn ∷ le_bytes 8 h.prev_lsn ∷ h.txn_id ∷ [])

pub Parses-uuid_some : (u : Uuid) → IsUuid u → Parses (read_some 16 null_uuid) u u
Parses-uuid_some u h = Parses-read_some 15 null_uuid u h refl

pub word_part :
    (v : ℕ) (old : List ℕ)
    → length old ≡ 8
    → IsU64 v
    → Parses (read_word_some 8 old) (le_bytes 8 v) v
word_part v old k h = Parses-read_word_some 7 v old k h

pub header_part :
    (ls : Locals) (h : Header)
    → IsLocals ls
    → IsHeader h
    → Parses (read_header ls) (header_bytes h) h
unfolding read_header header_bytes
header_part ls h hl hh = Parses-bind _ (word_part h.lsn ls.lsn hl.lsn hh.lsn) (
    Parses-bind _ (word_part h.prev_lsn ls.prev_lsn hl.prev_lsn hh.prev_lsn)
      (Parses-bind _ (Parses-uuid_some h.txn_id hh.txn_id) (Parses-pure _)))
