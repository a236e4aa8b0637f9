-- ===== src/Index/Init.antt =====
-- The first tables of a database (server-side/schema/db_ops.c): the table of the tables with the index
-- of its names, and the table of the columns with two indexes.
use yacdb.Common.{ℕ, some, List, [], ◌∷◌, ◌==◌, if◌then◌else◌, Bytes}
use yacdb.Common.Text.{codes}
use yacdb.Common.State.{Routine, pure, abort, attempt, ◌>>=◌}
use yacdb.Disk.{create_node}
use yacdb.Disk.Store.{NodeStore}
use yacdb.Record.{Record}
use yacdb.Record.Build.{record_from_long, record_from_short, record_from_string}
use yacdb.Table.Insert.{create_kv}
use yacdb.Table.Rows.{tables, insert_row, init_tables_table}
use yacdb.Index.Names.{tables_names}
use yacdb.Index.Columns.{columns, columns_tidx, index_node, or_minus}
use yacdb.Index.Insert.{insert_bt}

-- The page of the index of the columns' names.
abbrev pub columns_names : ℕ
columns_names = 4

-- The row of a column: its table, its name, its place in the rows, and the page of its index.
abbrev pub column_row : ℕ → Bytes → ℕ → ℕ → List Record
column_row table name offset root =
    record_from_long (some table)
    ∷ record_from_string (some name)
    ∷ record_from_short (some offset)
    ∷ record_from_long (some root)
    ∷ []

module _ {S : Type 0} (store : NodeStore S) (memory : List ℕ) (levels fuel : ℕ) where
  unfoldable pub init_tables_name_table : Routine S (Unit {0})
  init_tables_name_table =
      store.write (record index_node { key_vals = create_kv tables [] ∷ [] }) tables_names

  -- The entries of an index, whether they can be put in or not.
  unfoldable pub insert_entries : ℕ → ℕ → List ℕ → Routine S (Unit {0})
  insert_entries root n [] = pure tt
  insert_entries root n (key ∷ keys) = do
    inserted ← attempt (insert_bt store memory levels n columns fuel root key)
    insert_entries root n keys

  -- `assert(id == COLUMNS)`.
  abbrev assert_columns : ℕ → Routine S (Unit {0})
  assert_columns id = if id == columns then pure tt else abort

  unfoldable pub init_columns_table : Routine S (Unit {0})
  init_columns_table = do
    id ← or_minus (
        insert_row store memory levels tables (
          record_from_string (some (codes "COLUMNS"))
          ∷ record_from_long (some columns)
          ∷ record_from_long (some 0)
          ∷ []))
    asserted ← assert_columns id
    written ← store.write create_node columns
    named ← attempt (insert_bt store memory levels 0 tables fuel tables_names columns)
    first ←
        or_minus (
          insert_row store memory levels columns (column_row tables (codes "NAMES") 0 tables_names))
    second ← or_minus (
        insert_row store memory levels columns
          (column_row columns (codes "TABLE_IDX") 0 columns_tidx))
    third ← or_minus (
        insert_row store memory levels columns (column_row columns (codes "NAMES") 1 columns_names))
    pure tt

  unfoldable pub init_columns_tidx_table : Routine S (Unit {0})
  init_columns_tidx_table = do
    written ← store.write index_node columns_tidx
    insert_entries columns_tidx 0 (0 ∷ 1 ∷ 2 ∷ [])

  unfoldable pub init_columns_name_table : Routine S (Unit {0})
  init_columns_name_table = do
    written ← store.write index_node columns_names
    insert_entries columns_names 1 (0 ∷ 1 ∷ 2 ∷ [])

  -- What each step returns is not tested.
  unfoldable pub create_tables : Routine S (Unit {0})
  create_tables = do
    one ← attempt store.create
    two ← attempt store.create
    three ← attempt store.create
    four ← attempt store.create
    the_tables ← attempt (init_tables_table store memory levels)
    their_names ← attempt init_tables_name_table
    the_columns ← attempt init_columns_table
    their_tables ← attempt init_columns_tidx_table
    names ← attempt init_columns_name_table
    pure tt

  -- With the number of pages that init_db leaves in the header.
  unfoldable pub initialize_tables : ℕ → Routine S ℕ
  initialize_tables nb_pages =
      let created : Routine S ℕ = (do made ← create_tables; pure 1) in
      if nb_pages == 1 then created else pure 0
