-- ===== src/Index/Columns.antt =====
-- Rows and tables with the indexes of their columns (server-side/schema/db_ops.c). The numbers of rows,
-- `Key`, are returned as (size_t) -1 on an error, which most callers do not test.
use yacdb.Common.{ℕ, suc, Option, none, some, List, [], ◌∷◌, Bytes}
use yacdb.Common.Memory.{Result, ok, failed, fault}
use yacdb.Common.State.{Routine, pure, abort, returned, attempt, ◌>>=◌}
use yacdb.Disk.{Node, create_node, index_leaf, no_page}
use yacdb.Disk.Store.{NodeStore}
use yacdb.Record.{Record}
use yacdb.Record.Build.{record_from_long, record_from_short, record_from_string}
use yacdb.Record.Compress.{extract_record}
use yacdb.Record.Get.{record_get_long, record_get_short}
use yacdb.Table.{Cursor, get_row}
use yacdb.Table.Rows.{tables, get_table_addr, insert_row}
use yacdb.Index.{find_all}
use yacdb.Index.Insert.{insert_bt}

-- The table of the columns, and the page of its index by table.
abbrev pub columns : ℕ
columns = 1

abbrev pub columns_tidx : ℕ
columns_tidx = 3

-- An empty leaf of an index.
abbrev pub index_node : Node
index_node = record create_node { type = index_leaf }

-- The number that a routine returned, or -1.
abbrev key_of : Option ℕ → ℕ
key_of none = no_page
key_of (some key) = key

-- The row that get_row returned, if any.
abbrev row_of : Option (Cursor × Option Bytes) → Option Bytes
row_of none = none
row_of (some (c, row)) = row

-- Two records, tested after both were read.
abbrev both : Result Record → Result Record → Result (Record × Record)
both fault other = fault
both (ok r) fault = fault
both (ok r) failed = failed
both (ok r) (ok q) = ok (r, q)
both failed fault = fault
both failed failed = failed
both failed (ok q) = failed

module _ {S : Type 0} where
  abbrev pub or_minus : Routine S ℕ → Routine S ℕ
  or_minus m = do key ← attempt m; pure (key_of key)

  -- extract_record reads through the row, also if there is none.
  abbrev there : Option Bytes → Routine S Bytes
  there none = abort
  there (some row) = pure row

module _ {S : Type 0} (store : NodeStore S) (memory : List ℕ) (levels fuel rows_fuel : ℕ) where
  -- The entry of the new row in the index of each column.
  unfoldable pub index_row : ℕ → ℕ → List ℕ → Routine S (Unit {0})
  index_row id root_page [] = pure tt
  index_row id root_page (col ∷ cols) = do
    got ← attempt (get_row store levels columns col)
    buffer ← there (row_of got)
    (offs_r, page_r) ← returned (both (extract_record buffer 2) (extract_record buffer 3))
    offs ← returned (record_get_short offs_r)
    page ← returned (record_get_long page_r)
    inserted ← insert_bt store memory levels offs root_page fuel page id
    index_row id root_page cols

  unfoldable pub advanced_insert_row : ℕ → List Record → Routine S ℕ
  advanced_insert_row tidx records = do
    id ← or_minus (insert_row store memory levels tidx records)
    root_page ← get_table_addr store memory levels tidx
    cols ←
        find_all store memory levels 0 columns fuel rows_fuel columns_tidx
          (record_from_long (some tidx))
    indexed ← index_row id root_page cols
    pure id

  -- The columns of a new table: an empty index, and a row in the table of the columns.
  unfoldable pub create_columns : ℕ → ℕ → List Bytes → Routine S (Unit {0})
  create_columns id i [] = pure tt
  create_columns id i (name ∷ names) = do
    col_page ← or_minus store.create
    written ← store.write index_node col_page
    col_id ← or_minus (
        advanced_insert_row columns (
          record_from_long (some id)
          ∷ record_from_string (some name)
          ∷ record_from_short (some i)
          ∷ record_from_long (some col_page)
          ∷ []))
    create_columns id (suc i) names

  unfoldable pub create_table : Bytes → List Bytes → Routine S ℕ
  create_table table_name column_names = do
    root_page ← store.create
    id ← or_minus (
        advanced_insert_row tables (
          record_from_string (some table_name)
          ∷ record_from_long (some root_page)
          ∷ record_from_long (some 0)
          ∷ []))
    created ← create_columns id 0 column_names
    written ← store.write create_node root_page
    pure id
