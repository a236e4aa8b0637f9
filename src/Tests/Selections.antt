-- ===== src/Tests/Selections.antt =====
-- A database with a table `t` of one column `n`, whose nodes are in memory, and selections on it
-- (server-side/schema/db_ops.c).
use yacdb.Common.{
  ℕ, ◌≡◌, refl, sym, subst, Option, none, some, List, [], ◌∷◌, ◌++◌, Bytes, ◌==◌, ==_iff, str_eq,
  if◌then◌else◌, leb, length, ◌+◌, Bool-cases, inl, inr, arith,
}
use yacdb.Common.Memory.{Result, ok, load, load_byte}
use yacdb.Common.Text.{codes, c_str, load_str, strcmp, digits, decimal}
use yacdb.Common.State.{Outcome, done, error, crash}
use yacdb.Disk.{Node, create_node, is_leaf, index_leaf}
use yacdb.Disk.Store.{Nodes, IsIn}
use yacdb.Record.{Record, record_type_size, record_size}
use yacdb.Record.Build.{record_from_long, record_from_short, record_from_string}
use yacdb.Record.Compress.{
  compress_loop, compress_records, offset_loop, read_payload, extract_record,
}
use yacdb.Record.Compare.{compare_by, compare_typed, compare_with, compare_r}
use yacdb.Record.Get.{
  read_number, record_get_char, record_get_short, record_get_long, record_get_string,
}
use yacdb.Table.{
  upper_cell, lower_cell, step_in, leftmost, create_at_start, descend, find_leaf, cursor_next,
  get_row,
}
use yacdb.Table.Rows.{get_n_record, get_table_addr}
use yacdb.Table.Shape.{leaf}
use yacdb.Index.{
  cell_of, compare_entry, scan_cells, search_bt, find_bt, step_down, climb, cursor_next_bt, collect,
  all_from, find_all,
}
use yacdb.Index.Names.{get_table_id}
use yacdb.Index.Offsets.{offset_of, names_of, offsets_of, get_all_columns, get_column_offsets}
use yacdb.Query.Print.{
  sprintf, append_text, free_string, print_rule, print_names, print_header, print_footer, shown,
  print_row, print_keyed,
}
use yacdb.Query.{
  print_rows, select_all, where_column, print_found, select_where, select_row_columns,
}
use yacdb.Parser.{sel_instr, unknown_instr}
use yacdb.Query.Core.{handle_instr, handle_instrs}
use yacdb.Query.SelectAll.{select_all-rows, select_all-empty}
use yacdb.Tests.MemoryStore.{MemoryStore, memory_store, Holds}

-- What a run computes through.
program : Unit {0}
unfolding str_eq create_node is_leaf record_type_size record_size record_from_long record_from_short
    record_from_string compress_loop compress_records offset_loop read_payload extract_record
    compare_by compare_typed compare_with compare_r load load_byte c_str load_str strcmp digits
    decimal read_number record_get_char record_get_short record_get_long record_get_string
    upper_cell lower_cell step_in leftmost create_at_start descend find_leaf cursor_next get_row
    get_n_record get_table_addr cell_of compare_entry scan_cells search_bt find_bt step_down climb
    cursor_next_bt collect all_from find_all get_table_id offset_of names_of offsets_of
    get_all_columns get_column_offsets sprintf append_text free_string print_rule print_names
    print_header print_footer shown print_row print_keyed print_rows select_all where_column
    print_found select_where select_row_columns
program = tt

abbrev written : Result (ℕ × Bytes) → Bytes
written (ok (size, row)) = row
written _ = []

abbrev one_row : ℕ → List Record → Node
one_row key records = record create_node {
  key_vals = record { key = key; value = written (compress_records records); overflow = [] } ∷ [];
}

abbrev one_entry : ℕ → Node
one_entry key = record create_node {
  type = index_leaf;
  key_vals = record { key = key; value = []; overflow = [] } ∷ [];
}

abbrev text : Bytes → Record
text s = record_from_string (some s)

-- What C libraries do that copy the buffer onto itself and go on behind it.
abbrev appended : ℕ → Bytes → Bytes → Option Bytes
appended capacity buffer more =
    let text = buffer ++ more in if leb (length text + 1) capacity then some text else none

-- The table of the tables, that of the columns, the indexes of both by name and by table, the table with its rows, and the
-- index of its column.
abbrev pages : Node → List (ℕ × Node)
pages rows =
    (0, one_row 2 (text (codes "t") ∷ record_from_long (some 4) ∷ record_from_long (some 1) ∷ []))
    ∷ (
      1,
      one_row 7 (
          record_from_long (some 2)
          ∷ text (codes "n")
          ∷ record_from_short (some 0)
          ∷ record_from_long (some 5)
          ∷ []),
    )
    ∷ (2, one_entry 2)
    ∷ (3, one_entry 7)
    ∷ (4, rows)
    ∷ (5, one_entry 0)
    ∷ []

abbrev find_page : List (ℕ × Node) → Nodes
find_page [] p = none
find_page ((q, n) ∷ rest) p = if q == p then some n else find_page rest p

abbrev page_numbers : List (ℕ × Node) → List ℕ
page_numbers [] = []
page_numbers ((q, n) ∷ rest) = q ∷ page_numbers rest

find_page-IsIn :
    (l : List (ℕ × Node)) (p : ℕ) (n : Node) → find_page l p ≡ some n → IsIn p (page_numbers l)
find_page-IsIn [] p n e out = cc
find_page-IsIn ((q, m) ∷ rest) p n e out = elim (Bool-cases (q == p)) [
  | inl same ↦ out.0 ((==_iff q p).0 same)
  | inr other ↦ find_page-IsIn rest p n (rw other at e) out.1
]

abbrev database : Node → MemoryStore
database rows = record { nodes = find_page (pages rows); next = 6 }

database-Holds :
    (rows : Node) → Holds (database rows) (page_numbers (pages rows)) (find_page (pages rows))
database-Holds rows = (refl, find_page-IsIn (pages rows), omega arith, omega arith)

abbrev joe : Node
joe = one_row 0 (text (codes "joe") ∷ [])

abbrev run {ℓ} : {A : Type ℓ} → Outcome MemoryStore A → Option A
run (done a s) = some a
run (error s) = none
run crash = none

abbrev line : Bytes
line = codes "+-----+------------+"

abbrev expected_text : Bytes
expected_text =
    line
    ++ (b'\n'
        ∷ (codes "| idx |          n |"
            ++ (b'\n' ∷ (line ++ (b'\n' ∷ (codes "|   0 |        joe |" ++ (b'\n' ∷ line)))))))

select_text :
    run (
      select_all memory_store [] 5 5 5
        (λ f. [])
        appended
        (codes "t")
        (codes "n" ∷ [])
        (database joe))
    ≡ some expected_text
unfolding program
select_text = refl

handle_text :
    run (
      handle_instrs memory_store [] 5 5 5
        (λ f. [])
        appended
        (sel_instr (record { table = codes "t"; columns = []; cond = none }) ∷ unknown_instr ∷ [])
        (database joe))
    ≡ some (expected_text ++ (b'\n' ∷ b'\n' ∷ []))
unfolding program handle_instr handle_instrs
handle_text = refl

select_example :
    run (
      select_all memory_store [] 5 5 5
        (λ f. [])
        appended
        (codes "t")
        (codes "n" ∷ [])
        (database joe))
    ≡ run (
        select_where memory_store [] 5 5 5
          (λ f. [])
          appended
          (codes "t")
          []
          (codes "n")
          (text (codes "joe"))
          (database joe))
unfolding program
select_example = refl

-- The lookups of the table and of its column.
table_found :
    (rows : Node)
    → get_table_id memory_store [] 5 5 5 (codes "t") (database rows) ≡ done 2 (database rows)
unfolding program
table_found rows = refl

table_placed :
    (rows : Node) → get_table_addr memory_store [] 5 2 (database rows) ≡ done 4 (database rows)
unfolding program
table_placed rows = refl

column_placed :
    (rows : Node) (now : MemoryStore)
    → Holds now (page_numbers (pages rows)) (find_page (pages rows))
    → (after : MemoryStore) × (get_column_offsets memory_store [] 5 5 5
          (λ f. [])
          2
          (codes "n" ∷ [])
          now
        ≡ done (0 ∷ []) after)
      × Holds after (page_numbers (pages rows)) (find_page (pages rows))
unfolding program
column_placed rows now h = (
  now,
  subst
      (λ nodes.
        let s = record now { nodes = nodes } in
        get_column_offsets memory_store [] 5 5 5 (λ f. []) 2 (codes "n" ∷ []) s ≡ done (0 ∷ []) s)
      (sym h.0) refl,
  h,
)

-- The lookups leave the nodes as they are, and the table is one leaf.
select_all-rows_example :
    (after : MemoryStore) × (select_all memory_store [] 5 5 5
        (λ f. [])
        appended
        (codes "t")
        (codes "n" ∷ [])
        (database joe)
      ≡ done expected_text after)
    × Holds after (page_numbers (pages joe)) (find_page (pages joe))
unfolding program
select_all-rows_example =
    select_all-rows memory_store [] (page_numbers (pages joe)) (find_page (pages joe)) 5 5 5
      (λ f. []) appended (codes "t") (codes "n") [] 2 (leaf 4 joe) (0 ∷ []) (database joe)
      (database joe) (database joe) (table_found joe) (omega arith) (table_placed joe)
      (database-Holds joe) (column_placed joe) (refl, refl) (omega arith)
      (refl, omega arith, omega arith, refl, tt) (omega arith)

select_all-empty_example :
    select_all memory_store [] 5 5 5
      (λ f. [])
      appended
      (codes "t")
      (codes "n" ∷ [])
      (database create_node)
    ≡ crash
unfolding program
select_all-empty_example =
    select_all-empty memory_store [] (page_numbers (pages create_node))
      (find_page (pages create_node)) 4 5 5 (λ f. []) appended (codes "t") (codes "n") [] 2 4
      create_node (0 ∷ []) (database create_node) (database create_node) (database create_node)
      (table_found create_node) (omega arith) (table_placed create_node)
      (database-Holds create_node) (column_placed create_node) refl refl refl
