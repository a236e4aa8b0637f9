-- ===== src/Query.antt =====
-- Selections (server-side/schema/db_ops.c): select_all, select_where and select_row_columns. An error is a
-- null pointer, for which nothing is printed.
pub mod Print
pub mod Leaves
pub mod Scan
pub mod SelectAll
pub mod Core
use yacdb.Common.{
  ℕ, zero, suc, ◌-◌, ◌^◌, true, false, Option, none, some, List, [], ◌∷◌, Bytes, get_elem?, str_eq,
  ◌==◌, if◌then◌else◌,
}
use yacdb.Common.State.{Routine, pure, fail, abort, returned, ◌>>=◌}
use yacdb.Disk.{no_page}
use yacdb.Disk.Store.{NodeStore}
use yacdb.Record.{Record}
use yacdb.Record.Compress.{extract_record}
use yacdb.Record.Get.{record_get_string, read_number}
use yacdb.Table.{Cursor, found, dereferenced, get_row, create_at_start, cursor_next}
use yacdb.Table.Rows.{some_row, get_table_addr}
use yacdb.Index.{find_all}
use yacdb.Index.Columns.{columns}
use yacdb.Index.Names.{get_table_id}
use yacdb.Index.Offsets.{text_of, columns_of, get_all_columns, get_column_offsets}
use yacdb.Query.Print.{wide, free_string, print_header, print_keyed, print_footer}

-- A name that was not read leaves a null pointer behind, which is printed.
module _ {S : Type 0} (store : NodeStore S) (memory : List ℕ) (levels fuel rows_fuel : ℕ)
    (print_float : ℕ → Bytes) (overlapped : ℕ → Bytes → Bytes → Option Bytes) where
  -- `num_columns == 0` asks for all columns.
  abbrev asked_columns : ℕ → List Bytes → Routine S (List Bytes)
  asked_columns table_id [] =
      dereferenced (get_all_columns store memory levels fuel rows_fuel print_float table_id)
  asked_columns table_id (name ∷ names) = pure (name ∷ names)

  -- `while (cursor_next(cursor) == 0)`: the rest of the loop, from the next row.
  abbrev pub while_next : (Cursor → Bytes → Routine S Bytes) → Cursor → Bytes → Routine S Bytes
  while_next loop c buffer = do
    (next, more_) ← cursor_next store c
    elim more_ [ true ↦ loop next buffer | false ↦ pure buffer ]

  -- The loop of select_all; `rows_fuel` bounds the rows.
  unfoldable pub print_rows : ℕ → ℕ → List ℕ → Cursor → Bytes → Routine S Bytes
  print_rows zero capacity offsets c buffer = abort
  print_rows (suc more_rows) capacity offsets c buffer = do
    kv ← returned (found (get_elem? c.node.key_vals c.cell))
    longer ← returned (print_keyed overlapped print_float capacity buffer kv.key kv.value offsets)
    while_next (print_rows more_rows capacity offsets) c longer

  unfoldable pub select_all : Bytes → List Bytes → Routine S Bytes
  select_all table_name col_names = do
    table_id ← get_table_id store memory levels fuel rows_fuel table_name
    if table_id == no_page then fail else select_table table_id
    where
      select_table : ℕ → Routine S Bytes
      select_table table_id = do
        root ← get_table_addr store memory levels table_id
        cursor ← create_at_start store levels root
        names ← asked_columns table_id col_names
        header ← returned (print_header overlapped 8192 names)
        offsets ← get_column_offsets store memory levels fuel rows_fuel print_float table_id names
        body ← print_rows rows_fuel 8192 offsets cursor header
        returned (print_footer overlapped 8192 body names)

  unfoldable pub select_row_columns : Bytes → ℕ → List Bytes → Routine S Bytes
  select_row_columns table_name key col_names = do
    table_id ← get_table_id store memory levels fuel rows_fuel table_name
    if table_id == no_page then fail else select_table table_id
    where
      select_table : ℕ → Routine S Bytes
      select_table table_id = do
        root ← get_table_addr store memory levels table_id
        (c, row) ← get_row store levels root key
        buffer ← some_row row
        names ← asked_columns table_id col_names
        offsets ← get_column_offsets store memory levels fuel rows_fuel print_float table_id names
        header ← returned (print_header overlapped 2048 names)
        body ← returned (print_keyed overlapped print_float 2048 header key buffer offsets)
        returned (print_footer overlapped 2048 body names)

  -- The loop of select_where over the columns of the table: the place of the column with the name,
  -- and the page of its index.
  unfoldable pub where_column : Bytes → List ℕ → Routine S (Option (ℕ × ℕ))
  where_column where_col_name [] = pure none
  where_column where_col_name (col ∷ cols) = do
    (c, row) ← get_row store levels columns col
    buffer ← some_row row
    name_r ← returned (extract_record buffer 1)
    printed ← returned (record_get_string print_float name_r)
    col_name ← returned (text_of printed)
    _ ← returned (free_string printed.capacity)
    elim (str_eq col_name where_col_name) [
      | false ↦ where_column where_col_name cols
      | true ↦ do
        offset_r ← returned (extract_record buffer 2)
        offset ← returned (read_number 2 offset_r)
        root_r ← returned (extract_record buffer 3)
        root ← returned (read_number 8 root_r)
        pure (some (offset, root))
    ]

  -- The rows with the keys that find_all found.
  unfoldable pub print_found : ℕ → List ℕ → List ℕ → Bytes → Routine S Bytes
  print_found root offsets [] buffer = pure buffer
  print_found root offsets (key ∷ keys) buffer = do
    (c, found_row) ← get_row store levels root key
    row ← some_row found_row
    longer ← returned (print_keyed overlapped print_float 2048 buffer key row offsets)
    print_found root offsets keys longer

  unfoldable pub select_where : Bytes → List Bytes → Bytes → Record → Routine S Bytes
  select_where table_name col_names where_col_name where_record = do
    table_id ← get_table_id store memory levels fuel rows_fuel table_name
    root ← get_table_addr store memory levels table_id
    cols ← columns_of store memory levels fuel rows_fuel print_float table_id
    column ← where_column where_col_name cols
    select_rows table_id root column
    where
      select_found : ℕ → ℕ → List ℕ → Routine S Bytes
      select_found table_id root keys = do
        names ← asked_columns table_id col_names
        header ← returned (print_header overlapped 2048 names)
        offsets ← get_column_offsets store memory levels fuel rows_fuel print_float table_id names
        body ← print_found root offsets keys header
        returned (print_footer overlapped 2048 body names)

      select_rows : ℕ → ℕ → Option (ℕ × ℕ) → Routine S Bytes
      select_rows table_id root none = fail
      select_rows table_id root (some (offset, col_root)) =
          if offset == 2 ^ 16 - 1 then fail else (do
            keys ←
                find_all store memory levels (wide offset) root fuel rows_fuel col_root where_record
            select_found table_id root keys)
