-- ===== src/Index/Offsets.antt =====
-- The columns of a table, by name (server-side/schema/db_ops.c): get_all_columns and
-- get_column_offsets. A name is the text of a C string.
use yacdb.Common.{
  ℕ, ◌+◌, ◌-◌, ◌^◌, Option, none, some, List, [], ◌∷◌, Bytes, leb, length, str_eq, map,
  if◌then◌else◌,
}
use yacdb.Common.Memory.{Result, ok, fault}
use yacdb.Common.State.{Routine, pure, returned, ◌>>=◌}
use yacdb.Disk.Store.{NodeStore}
use yacdb.Record.Build.{record_from_long}
use yacdb.Record.Get.{StringBuffer, record_get_string, record_get_short}
use yacdb.Table.Rows.{get_n_record}
use yacdb.Index.{find_all}
use yacdb.Index.Columns.{columns, columns_tidx}

-- The text in the buffer of record_get_string, where it fits with its terminator.
abbrev fitted : Bytes → Option ℕ → Result Bytes
fitted text none = ok text
fitted text (some n) = if leb (length text + 1) n then ok text else fault

abbrev pub text_of : StringBuffer → Result Bytes
text_of s = fitted s.text s.capacity

-- The offset beside the first name that is the same, or -1.
unfoldable pub offset_of : Bytes → List Bytes → List ℕ → ℕ
offset_of name (n ∷ names) (offset ∷ offsets) =
    if str_eq n name then offset else offset_of name names offsets
offset_of name _ _ = 2 ^ 16 - 1

-- `print_float` is the text that the C library prints for a float.
module _ {S : Type 0} (store : NodeStore S) (memory : List ℕ) (levels fuel rows_fuel : ℕ)
    (print_float : ℕ → Bytes) where
  -- The names of columns.
  unfoldable pub names_of : List ℕ → Routine S (List Bytes)
  names_of [] = pure []
  names_of (col ∷ cols) = do
    name_r ← get_n_record store memory levels columns col 1
    buffer ← returned (record_get_string print_float name_r)
    name ← returned (text_of buffer)
    names ← names_of cols
    pure (name ∷ names)

  -- The places of columns in the rows of their table.
  unfoldable pub offsets_of : List ℕ → Routine S (List ℕ)
  offsets_of [] = pure []
  offsets_of (col ∷ cols) = do
    offs_r ← get_n_record store memory levels columns col 2
    offs ← returned (record_get_short offs_r)
    offsets ← offsets_of cols
    pure (offs ∷ offsets)

  abbrev pub columns_of : ℕ → Routine S (List ℕ)
  columns_of table_id =
      find_all store memory levels 0 columns fuel rows_fuel columns_tidx
        (record_from_long (some table_id))

  unfoldable pub get_all_columns : ℕ → Routine S (List Bytes)
  get_all_columns table_id = do cols ← columns_of table_id; names_of cols

  unfoldable pub get_column_offsets : ℕ → List Bytes → Routine S (List ℕ)
  get_column_offsets table_id column_names = do
    cols ← columns_of table_id
    names ← names_of cols
    offsets ← offsets_of cols
    pure (map (λ name. offset_of name names offsets) column_names)
