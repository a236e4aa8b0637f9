-- ===== src/Table/Rows.antt =====
-- server-side/schema/db_ops.c: rows of records in B+-trees, the table of the tables, and new rows. Where
-- the code returns `(Key) -1` without a test by its callers, the model returns that number.
use yacdb.Common.{
  ℕ, ◌+◌, ◌%◌, ◌^◌, Option, none, some, List, [], ◌∷◌, Bytes, ◌==◌, if◌then◌else◌, get_elem?, set,
}
use yacdb.Common.State.{Routine, pure, fail, abort, returned, attempt, ◌>>=◌}
use yacdb.Disk.{Node, KeyValue, create_node, no_page}
use yacdb.Disk.Store.{NodeStore}
use yacdb.Record.{Record}
use yacdb.Record.Build.{record_from_long, record_from_string}
use yacdb.Record.Compress.{compress_records, extract_record, replace_record}
use yacdb.Record.Get.{record_get_long}
use yacdb.Table.{get_row}
use yacdb.Table.Insert.{insert}

-- The page of the table of the tables, and its number.
abbrev pub tables : ℕ
tables = 0

module _ {S : Type 0} where
  abbrev pub some_row : Option Bytes → Routine S Bytes
  some_row none = fail
  some_row (some row) = pure row

  abbrev number_of : Option ℕ → Routine S ℕ
  number_of none = pure no_page
  number_of (some n) = pure n

  -- The number in a record, or -1.
  abbrev pub long_of : Option Record → Routine S ℕ
  long_of none = pure no_page
  long_of (some r) = do n ← attempt (returned (record_get_long r)); number_of n

module _ {S : Type 0} (store : NodeStore S) (memory : List ℕ) (fuel : ℕ) where
  unfoldable pub get_n_record : ℕ → ℕ → ℕ → Routine S Record
  get_n_record root key n = do
    (c, row) ← get_row store fuel root key
    buffer ← some_row row
    returned (extract_record buffer n)

  -- The node with one record of the row in a cell replaced.
  unfoldable pub replace_in : Node → ℕ → ℕ → Record → Option KeyValue → Routine S Node
  replace_in node cell n new_record none = abort
  replace_in node cell n new_record (some kv) = do
    value ← returned (replace_record kv.value n new_record)
    pure (record node { key_vals = set node.key_vals cell (record kv { value = value }) })

  unfoldable pub set_n_record : ℕ → ℕ → ℕ → Record → Routine S (Unit {0})
  set_n_record root key n new_record = do
    (c, row) ← get_row store fuel root key
    buffer ← some_row row
    node ← replace_in c.node c.cell n new_record (get_elem? c.node.key_vals c.cell)
    store.write node c.page

  unfoldable pub get_table_addr : ℕ → Routine S ℕ
  get_table_addr root_id = do rec ← attempt (get_n_record tables root_id 1); long_of rec

  -- The next number is written back; whether it was is not asked.
  unfoldable pub count_on : ℕ → Option Record → Routine S ℕ
  count_on root_id none = pure no_page
  count_on root_id (some rec) = do number ← attempt (returned (record_get_long rec)); advance number
    where
      advance : Option ℕ → Routine S ℕ
      advance none = pure no_page
      advance (some next_id) = do
        done_ ←
            attempt
              (set_n_record tables root_id 2 (record_from_long (some ((next_id + 1) % 2 ^ 64))))
        pure next_id

  unfoldable pub get_next_id : ℕ → Routine S ℕ
  get_next_id root_id = do rec ← attempt (get_n_record tables root_id 2); count_on root_id rec

  unfoldable pub insert_row : ℕ → List Record → Routine S ℕ
  insert_row root_id records = do
    root_page ← get_table_addr root_id
    row_id ← get_next_id root_id
    if row_id == no_page then fail else store_row root_page row_id records
    where
      store_row : ℕ → ℕ → List Record → Routine S ℕ
      store_row root_page row_id records = do
        (size, value) ← returned (compress_records records)
        inserted ←
            insert store memory fuel root_page
              (record { key = row_id; value = value; overflow = [] })
        pure row_id

  -- The name, the page and the next number of the table of the tables, in its own first row.
  abbrev pub tables_row : List Record
  tables_row =
      record_from_string (some (84 ∷ 65 ∷ 66 ∷ 76 ∷ 69 ∷ 83 ∷ []))
      ∷ record_from_long (some tables)
      ∷ record_from_long (some 1)
      ∷ []

  unfoldable pub init_tables_table : Routine S (Unit {0})
  init_tables_table = do
    written ← store.write create_node tables
    (size, value) ← returned (compress_records tables_row)
    insert store memory fuel tables (record { key = 0; value = value; overflow = [] })
