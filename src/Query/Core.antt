-- ===== src/Query/Core.antt =====
-- server-side/core/core.c: db_handle, init_database and debug_parser, with the dump of the instructions
-- (server-side/parser/parser_dump.c). What is printed to the file is the result.
use yacdb.Common.{
  ℕ, ◌^◌, Option, none, some, List, [], ◌∷◌, ◌++◌, Bytes, length, replicate, set, ltb,
  if◌then◌else◌,
}
use yacdb.Common.Int.{signed}
use yacdb.Common.Memory.{Result, ok, failed, fault}
use yacdb.Common.State.{Routine, pure, abort, returned, attempt, ◌>>=◌}
use yacdb.Common.Text.{codes, digits, decimal}
use yacdb.Disk.Store.{NodeStore}
use yacdb.Record.{Record}
use yacdb.Record.Build.{record_from_string}
use yacdb.Parser.{Condition, Instr, sel_instr, crt_instr, add_instr, unknown_instr}
use yacdb.Parser.Instructions.{parse_user_input}
use yacdb.Table.{dereferenced}
use yacdb.Index.Columns.{or_minus, advanced_insert_row, create_table}
use yacdb.Index.Names.{get_table_id}
use yacdb.Index.Offsets.{get_column_offsets}
use yacdb.Query.Print.{line_break}
use yacdb.Query.{select_all, select_where}

abbrev joined : List Bytes → Bytes
joined [] = []
joined (a ∷ []) = a
joined (a ∷ b ∷ rest) = a ++ codes ", " ++ joined (b ∷ rest)

unfoldable pub dump_charray : List Bytes → Bytes
dump_charray a = digits 20 (length a) ++ codes " [" ++ joined a ++ b']' ∷ line_break ∷ []

unfoldable pub dump_condition : Option Condition → Bytes
dump_condition none = []
dump_condition (some cond) = codes "condition: " ++ cond.col ++ b'=' ∷ cond.val ++ line_break ∷ []

abbrev dump_head : Bytes → Bytes → Bytes
dump_head type table =
    codes "type: "
    ++ type
    ++ line_break ∷ codes "table: "
    ++ table
    ++ line_break ∷ codes "columns: "

abbrev dump_columns : List Bytes → Bytes
dump_columns [] = b'*' ∷ line_break ∷ []
dump_columns (name ∷ names) = dump_charray (name ∷ names)

unfoldable pub dump_instr : Instr → Bytes
unfolding dump_charray dump_condition
dump_instr (sel_instr i) =
    dump_head (codes "SEL") i.table ++ dump_columns i.columns ++ dump_condition i.cond
dump_instr (crt_instr i) =
    dump_head (codes "CRT") i.table
    ++ dump_charray i.columns
    ++ codes "types: "
    ++ dump_charray i.types
dump_instr (add_instr i) =
    dump_head (codes "ADD") i.table
    ++ dump_charray i.columns
    ++ codes "values: "
    ++ dump_charray i.values
dump_instr unknown_instr = codes "ERROR: Unable to parse this instruction" ++ line_break ∷ []

unfoldable pub dump_instrarray : List Instr → Bytes
dump_instrarray [] = line_break ∷ []
dump_instrarray (i ∷ is) = line_break ∷ dump_instr i ++ dump_instrarray is

-- `records[table_id[i]] = record_from_string(&values->arr[i])` for each i: a place outside the array,
-- -1 among them, is written outside it.
unfoldable pub place_records :
    List ℕ → List Bytes → List (Option Record) → Result (List (Option Record))
place_records [] values records = ok records
place_records (offset ∷ offsets) [] records = fault
place_records (offset ∷ offsets) (value ∷ values) records =
    let placed =
      place_records offsets values (set records offset (some (record_from_string (some value)))) in
    if ltb offset (length records) then placed else fault

-- A place that was not written holds no record.
unfoldable pub all_placed : List (Option Record) → Result (List Record)
all_placed [] = ok []
all_placed (none ∷ records) = fault
all_placed (some r ∷ records) = elim (all_placed records) [
  | ok rs ↦ ok (r ∷ rs)
  | failed ↦ failed
  | fault ↦ fault
]

abbrev twice_broken : Bytes → Bytes
twice_broken text = text ++ line_break ∷ line_break ∷ []

-- A null pointer in place of a text is printed, which C leaves undefined. `print_float` is the text that
-- the C library prints for a float.
module _ {S : Type 0} (store : NodeStore S) (memory : List ℕ) (levels fuel rows_fuel : ℕ)
    (print_float : ℕ → Bytes) (overlapped : ℕ → Bytes → Bytes → Option Bytes) where
  abbrev select : Bytes → List Bytes → Option Condition → Routine S Bytes
  select table names none =
      select_all store memory levels fuel rows_fuel print_float overlapped table names
  select table names (some cond) =
      select_where store memory levels fuel rows_fuel print_float overlapped table names cond.col
        (record_from_string (some cond.val))

  -- The `switch` of db_handle. `page < 0` is never so, since a page is unsigned.
  unfoldable pub handle_instr : Instr → Routine S Bytes
  handle_instr (sel_instr i) = do
    text ← dereferenced (select i.table i.columns i.cond)
    pure (twice_broken text)
  handle_instr (crt_instr i) = do
    page ← attempt (create_table store memory levels fuel rows_fuel i.table i.columns)
    pure (twice_broken (codes "Table created"))
  handle_instr (add_instr i) = do
    root_id ← get_table_id store memory levels fuel rows_fuel i.table
    table_id ←
        dereferenced
          (get_column_offsets store memory levels fuel rows_fuel print_float root_id i.columns)
    placed ← returned (place_records table_id i.values (replicate (length i.columns) none))
    records ← returned (all_placed placed)
    id ← or_minus (advanced_insert_row store memory levels fuel rows_fuel root_id records)
    pure (twice_broken (codes "Entry added at index " ++ decimal (signed (2 ^ 63) id)))
  handle_instr unknown_instr = pure []

  unfoldable pub handle_instrs : List Instr → Routine S Bytes
  handle_instrs [] = pure []
  handle_instrs (i ∷ is) = do text ← handle_instr i; texts ← handle_instrs is; pure (text ++ texts)

  abbrev handle_parsed : Result (List Instr) → Routine S Bytes
  handle_parsed (ok is) = do text ← handle_instrs is; pure (dump_instrarray is ++ text)
  handle_parsed failed = pure (codes "ERR: parsing failed")
  handle_parsed fault = abort

  unfoldable pub db_handle : Bytes → Routine S Bytes
  db_handle line = handle_parsed (parse_user_input line)

abbrev dumped : Result (List Instr) → Result Bytes
dumped (ok is) = ok (dump_instrarray is)
dumped failed = ok (codes "ERROR: parsing error" ++ line_break ∷ [])
dumped fault = fault

unfoldable pub debug_parser : Bytes → Result Bytes
debug_parser line = dumped (parse_user_input line)
