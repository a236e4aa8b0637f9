-- ===== src/Index/Names.antt =====
-- get_table_id (server-side/schema/db_ops.c): the number of the table with a name.
use yacdb.Common.{ℕ, some, List, [], ◌∷◌, Bytes}
use yacdb.Common.State.{Routine, pure, ◌>>=◌}
use yacdb.Disk.{no_page}
use yacdb.Disk.Store.{NodeStore}
use yacdb.Record.Build.{record_from_string}
use yacdb.Table.Rows.{tables}
use yacdb.Index.{find_all}

-- The page of the index of the tables' names.
abbrev pub tables_names : ℕ
tables_names = 2

-- The one key, or -1.
abbrev pub only_key : List ℕ → ℕ
only_key [] = no_page
only_key (key ∷ []) = key
only_key (key ∷ other ∷ keys) = no_page

module _ {S : Type 0} (store : NodeStore S) (memory : List ℕ) (levels fuel rows_fuel : ℕ) where
  unfoldable pub get_table_id : Bytes → Routine S ℕ
  get_table_id table_name = do
    keys ←
        find_all store memory levels 0 tables fuel rows_fuel tables_names
          (record_from_string (some table_name))
    pure (only_key keys)
