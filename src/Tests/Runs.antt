-- ===== src/Tests/Runs.antt =====
-- Runs of the whole database on a new file (server-side/schema/db_ops.c), through the cache and the pages.
use yacdb.Common.{ℕ, ◌≡◌, refl, Option, some, none, [], ◌∷◌, replicate}
use yacdb.Common.Text.{codes}
use yacdb.Common.State.{Outcome, continue, done, error, crash}
use yacdb.Disk.Store.{Store}
use yacdb.Disk.Store.Instance.{disk_store}
use yacdb.Common.Memory.{load, load_byte, store}
use yacdb.Common.Text.{c_str, strcmp, digits, decimal, load_str, decimal_value}
use yacdb.Disk.{is_leaf, create_node, cpy_node}
use yacdb.Disk.Cache.{
  unlink, remove_addr, drop_last, add_to_cache, find_behind, get_from_list, get_from_cache,
}
use yacdb.Disk.Image.{
  load_le, ti_image, write_ti_node, read_ti_cells, read_tl_cells, read_image, get_overflow_data,
  read_node,
}
use yacdb.Disk.Image.Write.{write_overflow, tl_cells, write_tl_node}
use yacdb.Disk.Pages.{
  read_page, save_header, write_page, create_addr, free_page, remove_node,
  free_linked_overflow_pages, init_db,
}
use yacdb.Disk.Store.{read_store, write_node, create_store}
use yacdb.Index.{
  cell_of, compare_entry, scan_cells, search_bt, find_bt, upper_entry, descend_bt, find_bt_leaf,
  lower_entry, find_offset, step_down, climb, cursor_next_bt, collect, all_from, find_all,
}
use yacdb.Index.Columns.{index_row, advanced_insert_row, create_columns, create_table}
use yacdb.Index.Init.{
  init_tables_name_table, insert_entries, init_columns_table, init_columns_tidx_table,
  init_columns_name_table, create_tables, initialize_tables,
}
use yacdb.Index.Insert.{split_bt_node, write_root_bt, create_root_bt, insert_internal_bt, insert_bt}
use yacdb.Index.Names.{get_table_id}
use yacdb.Index.Offsets.{offset_of, names_of, offsets_of, get_all_columns, get_column_offsets}
use yacdb.Record.Get.{record_get_string}
use yacdb.Record.{record_type_size, record_size}
use yacdb.Record.Build.{
  record_from_char, record_from_short, record_from_int, record_from_long, record_from_float,
  record_from_string,
}
use yacdb.Record.Compare.{compare_by, compare_typed, compare_with, compare_r}
use yacdb.Record.Compress.{
  compress_loop, compress_records, offset_loop, read_payload, extract_record, resize, move_tail,
  replace_record,
}
use yacdb.Record.Get.{read_number, record_get_char, record_get_short, record_get_long}
use yacdb.Table.{
  upper_cell, lower_cell, step_in, leftmost, create_at_start, descend, find_leaf, cursor_next,
  get_row,
}
use yacdb.Table.Insert.{
  create_kv, insert_in_arr_kv, shift_pages, insert_in_arr_page, split_internal_node,
  split_leaf_node, move_children, adopt, move_root, write_root, create_root, insert_internal,
  insert,
}
use yacdb.Table.Rows.{
  get_n_record, replace_in, set_n_record, get_table_addr, count_on, get_next_id, insert_row,
  init_tables_table,
}
use yacdb.Tests.Tables.{buffer, new_store}

-- What a run computes through.
program : Unit {0}
unfolding offset_of names_of offsets_of get_all_columns get_column_offsets load load_byte store
    c_str strcmp digits decimal load_str decimal_value is_leaf create_node cpy_node unlink
    remove_addr drop_last add_to_cache find_behind get_from_list get_from_cache load_le ti_image
    write_ti_node read_ti_cells read_tl_cells read_image get_overflow_data read_node write_overflow
    tl_cells write_tl_node read_page save_header write_page create_addr free_page remove_node
    free_linked_overflow_pages init_db read_store write_node create_store cell_of compare_entry
    scan_cells search_bt find_bt upper_entry descend_bt find_bt_leaf lower_entry find_offset
    step_down climb cursor_next_bt collect all_from find_all index_row advanced_insert_row
    create_columns create_table init_tables_name_table insert_entries init_columns_table
    init_columns_tidx_table init_columns_name_table create_tables initialize_tables split_bt_node
    write_root_bt create_root_bt insert_internal_bt insert_bt get_table_id record_type_size
    record_size record_from_char record_from_short record_from_int record_from_long
    record_from_float record_from_string compare_by compare_typed compare_with compare_r
    compress_loop compress_records offset_loop read_payload extract_record resize move_tail
    replace_record read_number record_get_char record_get_short record_get_long upper_cell
    lower_cell step_in leftmost create_at_start descend find_leaf cursor_next get_row create_kv
    insert_in_arr_kv shift_pages insert_in_arr_page split_internal_node split_leaf_node
    move_children adopt move_root write_root create_root insert_internal insert get_n_record
    replace_in set_n_record get_table_addr count_on get_next_id insert_row init_tables_table
program = tt

-- What a run returned: a number, or none for an error or a crash.
abbrev number : Outcome Store ℕ → Option ℕ
number (done n s) = some n
number (error s) = none
number crash = none

abbrev first_tables : Outcome Store (Unit {0})
first_tables = create_tables (disk_store 2 buffer) (replicate 6 0) 5 5 new_store

tables_examples :
    (number (
        continue first_tables
          (λ u. get_table_id (disk_store 2 buffer) (replicate 6 0) 5 5 20 (codes "TABLES")))
      ≡ some 0)
    × (number (
          continue first_tables
            (λ u. get_table_id (disk_store 2 buffer) (replicate 6 0) 5 5 20 (codes "COLUMNS")))
        ≡ some 1)
    × (number (
          continue first_tables (λ u.
            create_table
              (disk_store 2 buffer)
              (replicate 6 0)
              5
              5
              20
              (codes "users")
              (codes "name" ∷ [])))
        ≡ some 2)
unfolding program
tables_examples = (refl, refl, refl)

-- What a run returned, or none for an error or a crash.
abbrev result {ℓ} : {A : Type ℓ} → Outcome Store A → Option A
result (done a s) = some a
result (error s) = none
result crash = none

-- The columns of a table come in the order of their index, where the last of equal entries stands first.
columns_example :
    result (
      continue first_tables
        (λ u. get_all_columns (disk_store 2 buffer) (replicate 6 0) 5 5 20 (λ f. []) 1))
    ≡ some (codes "NAMES" ∷ codes "TABLE_IDX" ∷ [])
unfolding program record_get_string
columns_example = refl
