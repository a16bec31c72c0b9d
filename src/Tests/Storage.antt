-- ===== src/Tests/Storage.antt =====
-- The stored formats at concrete rows, pages, tables and index files.
use deltabase_c.Prelude.{◌∷◌, [], arith, refl, true, replicate}
use deltabase_c.Stream.{Parses}
use deltabase_c.Types.Value.{Uuid, null_uuid, DataToken, DataRow, integer, null, IsToken, IsRow}
use deltabase_c.Types.Meta.{MetaTable, IsTable}
use deltabase_c.Types.Page.{DataPage, IsPage, IndexFile, IndexPage, leaf, IsIndexFile}
use deltabase_c.Storage.Encode.{serialize_mt, serialize_dp, serialize_if}
use deltabase_c.Storage.Decode.{deserialize_mt, deserialize_dp, deserialize_if}
use deltabase_c.Storage.Decode.RoundTrip.{
  deserialize-serialize_mt, deserialize-serialize_dp, stored,
}
use deltabase_c.Storage.Decode.IndexRoundTrip.{deserialize-serialize_if}

abbrev pub seven : DataToken
seven = record { bytes = 7 ∷ 0 ∷ 0 ∷ 0 ∷ []; type = integer }

abbrev pub nothing : DataToken
nothing = record { bytes = []; type = null }

abbrev pub first_row : DataRow
first_row = record { id = 1; flags = 0; tokens = seven ∷ nothing ∷ [] }

abbrev pub ones : Uuid
ones = replicate 16 1

pub seven-IsToken : IsToken seven
seven-IsToken = record { named = tt; sized = omega arith; nothing = tt }

pub first_row-IsRow : IsRow first_row
first_row-IsRow = record {
  id = omega arith;
  flags = omega arith;
  count = omega arith;
  tokens = (seven-IsToken, (record { named = tt; sized = omega arith; nothing = refl }, tt));
}

abbrev pub users : MetaTable
users = record {
  id = ones;
  schema_id = null_uuid;
  name = b'u' ∷ b's' ∷ [];
  columns = record { id = ones; table_id = ones; name = b'n' ∷ []; type = integer; flags = 1 } ∷ [];
  indexes =
      record {
        id = ones;
        table_id = ones;
        column_id = ones;
        root_page_id = null_uuid;
        name = b'i' ∷ [];
        key_type = integer;
        is_unique = true;
      }
      ∷ [];
  last_rid = 3;
  total_rows = 3;
  live_rows = 2;
}

pub users-IsTable : IsTable users
users-IsTable = record {
  id = refl;
  schema_id = refl;
  name = omega arith;
  column_count = omega arith;
  columns = (
    record { id = refl; table_id = refl; name = omega arith; type = tt; flags = omega arith },
    tt,
  );
  index_count = omega arith;
  indexes = (
    record {
      id = refl;
      table_id = refl;
      column_id = refl;
      root_page_id = refl;
      name = omega arith;
      key_type = tt;
    },
    tt,
  );
  last_rid = omega arith;
  total_rows = omega arith;
  live_rows = omega arith;
}

deserialize-serialize_mt_example : Parses deserialize_mt (serialize_mt users).buffer users
deserialize-serialize_mt_example = deserialize-serialize_mt users users-IsTable

abbrev pub page : DataPage
page = record {
  id = ones;
  next = null_uuid;
  table_id = ones;
  min_rid = 1;
  max_rid = 1;
  rows_count = 0;
  last_lsn = 5;
  size = 88;
  path = b'p' ∷ [];
  rows = first_row ∷ [];
}

pub page-IsPage : IsPage page
page-IsPage = record {
  id = refl;
  next = refl;
  table_id = refl;
  min_rid = omega arith;
  max_rid = omega arith;
  last_lsn = omega arith;
  count = omega arith;
  rows = (first_row-IsRow, tt);
}

deserialize-serialize_dp_example :
    Parses (deserialize_dp page) (serialize_dp page).buffer (stored page page)
deserialize-serialize_dp_example = deserialize-serialize_dp page page page-IsPage

abbrev leaf_page : IndexPage
leaf_page = record {
  id = 1;
  parent = 0;
  index_id = ones;
  is_leaf = true;
  node = leaf (record { keys = seven ∷ []; rows = (ones, 1) ∷ []; next_leaf = 0 });
}

abbrev index_file : IndexFile
index_file = record {
  index_id = ones;
  root_page = 1;
  last_page = 1;
  last_lsn = 0;
  pages = leaf_page ∷ [];
}

abbrev blank_file : IndexFile
blank_file = record { index_id = null_uuid; root_page = 0; last_page = 0; last_lsn = 0; pages = [] }

index_file-IsIndexFile : IsIndexFile index_file
index_file-IsIndexFile = record {
  index_id = refl;
  root_page = omega arith;
  last_lsn = omega arith;
  count = omega arith;
  pages = (
    record {
      id = omega arith;
      parent = omega arith;
      index_id = refl;
      node = (
        refl,
        record {
          key_count = omega arith;
          keys = (seven-IsToken, tt);
          row_count = omega arith;
          rows = ((refl, omega arith), tt);
          next_leaf = omega arith;
        },
      );
    },
    tt,
  );
}

deserialize-serialize_if_example :
    Parses
      (deserialize_if blank_file)
      (serialize_if index_file).buffer
      (record index_file { last_page = 0 })
deserialize-serialize_if_example =
    deserialize-serialize_if blank_file index_file index_file-IsIndexFile
