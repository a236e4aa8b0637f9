-- ===== src/Tests/Tables.antt =====
-- The store of nodes and the table of the tables on a new database (server-side/diskio/diskio.c,
-- server-side/schema/cursor.c and db_ops.c).
use yacdb.Common.{
  ℕ, ◌≡◌, ◌<◌, ◌≤◌, ◌^◌, ◌+◌, refl, none, some, [], ◌∷◌, Bytes, arith, replicate, length, inl,
}
use yacdb.Common.State.{done}
use yacdb.Disk.{Node, KeyValue, create_node, is_leaf, no_page, nb_keys}
use yacdb.Disk.Pages.{init_db, save_header}
use yacdb.Disk.Pages.Chain.{NotIn}
use yacdb.Disk.Pages.Shared.{init_db-IsFile, pages_init_db}
use yacdb.Disk.Store.{Nodes, update, IsIn, Store, read_store, write_node, create_store}
use yacdb.Disk.Store.Fits.{FitsNode}
use yacdb.Disk.Store.OnDisk.{IsStore, read_store-IsStore, write_node-IsStore}
use yacdb.Disk.Store.Instance.{create_store-IsStore, disk_store}
use yacdb.Record.{Record, record_size, record_type_size}
use yacdb.Record.Build.{record_from_long, record_from_string}
use yacdb.Record.Compress.Layout.{IsRow}
use yacdb.Table.{Cursor, lower_cell, get_row, find_leaf}
use yacdb.Table.Shape.{Shape, leaf, root_page, rows, lookup_row}
use yacdb.Table.Find.{find_leaf-leaf_of}
use yacdb.Table.Lookup.{at_row, get_row-lookup_row}
use yacdb.Table.Count.{table_row, get_next_id-table_row}
use yacdb.Table.Replace.{replaced_tree, set_n_record-lookup_row}
use yacdb.Table.Rows.{set_n_record, get_next_id}
use yacdb.Record.Compress.Replace.{replace_same_size}
use yacdb.Record.Compress.{replace_record}
use yacdb.Common.Memory.{ok}
use yacdb.Table.Insert.{create_kv, insert}
use yacdb.Table.Added.{IsTable, grown_leaf, grown_tree, insert-IsTable, get_row-insert}

abbrev pub buffer : Bytes
buffer = replicate 512 0

-- A new database, with an empty cache.
abbrev pub new_store : Store
new_store = record { db = init_db none; cache = record { cache = []; cache_size = 0 } }

abbrev pub no_nodes : Nodes
no_nodes p = none

pub new_store-IsStore : IsStore new_store (0 ∷ []) no_nodes
unfolding init_db save_header
new_store-IsStore = record {
  used = [];
  free = [];
  given_used = refl;
  shared = record {
    file = init_db-IsFile;
    used_inside = tt;
    apart = tt;
    used_distinct = tt;
    none_lost = refl;
  };
  cached = record { distinct = tt; counted = refl; within = omega arith; some_room = omega arith };
  copies = λ q n e. absurd (cc);
  fitting = λ q n e. absurd (cc);
  on_pages = λ q n e. absurd (cc);
  nodes_given = λ q n e. absurd (cc);
}

-- The first page is given out.
pub first : IsIn 0 (0 ∷ [])
first out = out.0 refl

create_node-FitsNode : FitsNode create_node
unfolding create_node
create_node-FitsNode = inl (record {
  right = no_page;
  leaf = (refl, refl);
  keys = tt;
  whole = tt;
  few = omega arith;
  right_fits = omega arith;
  parent_fits = omega arith;
  bytes_fit = omega arith;
})

write_node-IsStore_example :
    (after : Store) × (write_node 2 buffer create_node 0 new_store ≡ done tt after)
    × IsStore after (0 ∷ []) (update no_nodes 0 create_node)
    × (after.db.header ≡ new_store.db.header)
write_node-IsStore_example =
    write_node-IsStore 2 buffer new_store (0 ∷ []) no_nodes 0 create_node new_store-IsStore first
      create_node-FitsNode

-- With an empty leaf on the first page.
abbrev leaf_store : Store
leaf_store =
    (write_node-IsStore 2 buffer new_store (0 ∷ []) no_nodes 0 create_node new_store-IsStore first
      create_node-FitsNode).0

abbrev leaf_nodes : Nodes
leaf_nodes = update no_nodes 0 create_node

leaf_store-IsStore : IsStore leaf_store (0 ∷ []) leaf_nodes
leaf_store-IsStore =
    (write_node-IsStore 2 buffer new_store (0 ∷ []) no_nodes 0 create_node new_store-IsStore first
      create_node-FitsNode).2

create_store-IsStore_example :
    (p : ℕ) × (after : Store) × (create_store new_store ≡ done p after)
    × IsStore after (p ∷ 0 ∷ []) no_nodes
    × NotIn p (0 ∷ [])
    × (after.db.header.nb_pages + 7 ≤ 2 ^ 31)
    × (p < 2 ^ 64)
create_store-IsStore_example =
    create_store-IsStore new_store (0 ∷ []) no_nodes 7 new_store-IsStore
      (rw pages_init_db (omega arith))

read_store-IsStore_example :
    (after : Store) × (read_store 2 0 leaf_store ≡ done create_node after)
    × IsStore after (0 ∷ []) leaf_nodes
    × (after.db ≡ leaf_store.db)
read_store-IsStore_example =
    read_store-IsStore 2 buffer leaf_store (0 ∷ []) leaf_nodes 0 create_node leaf_store-IsStore refl

abbrev empty_table : Shape
empty_table = leaf 0 create_node

empty-IsTable : IsTable (disk_store 2 buffer) (0 ∷ []) leaf_nodes 0 100 1 empty_table leaf_store
unfolding create_node is_leaf
empty-IsTable = record {
  holds = leaf_store-IsStore;
  held = (refl, refl);
  order = omega arith;
  apart = tt;
  enough = omega arith;
}

-- The first row of the table of the tables: its name, its page and its next number.
abbrev pub tables_name : Record
tables_name = record_from_string (some (84 ∷ 65 ∷ 66 ∷ 76 ∷ 69 ∷ 83 ∷ []))

pub tables_record-IsRow :
    IsRow (tables_name ∷ record_from_long (some 0) ∷ record_from_long (some 1) ∷ [])
unfolding record_from_long record_from_string record_size record_type_size
tables_record-IsRow = record {
  records = (
    record { positive = omega arith; sized = refl },
    (
      record { positive = omega arith; sized = refl },
      (record { positive = omega arith; sized = refl }, tt),
    ),
  );
  fits = omega arith;
}

abbrev pub tables_kv : ℕ → KeyValue
tables_kv next = record { key = 0; value = table_row tables_name 0 next; overflow = [] }

-- The leaf with that row.
abbrev pub tables_leaf : ℕ → Node
tables_leaf next = record create_node { key_vals = tables_kv next ∷ [] }

pub tables_leaf-FitsNode :
    (next : ℕ) → length (table_row tables_name 0 next) ≡ 26 → FitsNode (tables_leaf next)
unfolding create_node
tables_leaf-FitsNode next size = inl (record {
  right = no_page;
  leaf = (refl, refl);
  keys = (omega arith, tt);
  whole = (refl, tt);
  few = omega arith;
  right_fits = omega arith;
  parent_fits = omega arith;
  bytes_fit = ground (arith, size);
})

tables_leaf_grown : grown_leaf (tables_kv 1) create_node ≡ tables_leaf 1
unfolding lower_cell create_kv create_node
tables_leaf_grown = refl

pub row_size : (length (table_row tables_name 0 1) ≡ 26) × (length (table_row tables_name 0 2) ≡ 26)
unfolding record_from_long record_from_string
row_size = (refl, refl)

tables_leaf-Fits : FitsNode (grown_leaf (tables_kv 1) create_node)
tables_leaf-Fits = rw tables_leaf_grown (tables_leaf-FitsNode 1 row_size.0)

leaf_has_room : nb_keys create_node + 1 < 4
unfolding create_node
leaf_has_room = omega arith

find_leaf-leaf_of_example :
    (after : Store) × (find_leaf (disk_store 2 buffer) 1 0 7 leaf_store
      ≡ done (record { page = 0; node = create_node; cell = 0 }) after)
    × IsStore after (0 ∷ []) leaf_nodes
find_leaf-leaf_of_example =
    find_leaf-leaf_of (disk_store 2 buffer) (0 ∷ []) leaf_nodes 7 1 empty_table leaf_store
      (omega arith) empty-IsTable.held leaf_store-IsStore

insert-IsTable_example :
    (after : Store) × (later : Nodes) × (insert
        (disk_store 2 buffer)
        []
        1
        0
        (tables_kv 1)
        leaf_store
      ≡ done tt after)
    × IsTable
        (disk_store 2 buffer)
        (0 ∷ [])
        later
        0
        100
        1
        (grown_tree (tables_kv 1) empty_table)
        after
    × (root_page (grown_tree (tables_kv 1) empty_table) ≡ 0)
insert-IsTable_example =
    insert-IsTable (disk_store 2 buffer) [] (0 ∷ []) leaf_nodes 1 0 100 empty_table leaf_store
      (tables_kv 1) empty-IsTable (omega arith) (omega arith) leaf_has_room tables_leaf-Fits

get_row-insert_example :
    (after : Store) × (after_row : Store) × (after_other : Store) × (c : Cursor) × (d : Cursor)
    × (insert (disk_store 2 buffer) [] 1 0 (tables_kv 1) leaf_store ≡ done tt after)
    × (get_row (disk_store 2 buffer) 1 0 0 after
        ≡ done (c, some (table_row tables_name 0 1)) after_row)
    × (get_row (disk_store 2 buffer) 1 0 7 after ≡ done (d, none) after_other)
unfolding create_node
get_row-insert_example =
    get_row-insert (disk_store 2 buffer) [] (0 ∷ []) leaf_nodes 1 0 100 empty_table leaf_store
      (tables_kv 1) 7 empty-IsTable (omega arith) (omega arith) leaf_has_room tables_leaf-Fits
      (λ e. absurd (omega (arith, e)))

-- The database with that row.
abbrev tables_after :
    (after : Store) × (later : Nodes) × (insert
        (disk_store 2 buffer)
        []
        1
        0
        (tables_kv 1)
        leaf_store
      ≡ done tt after)
    × IsTable
        (disk_store 2 buffer)
        (0 ∷ [])
        later
        0
        100
        1
        (grown_tree (tables_kv 1) empty_table)
        after
    × (root_page (grown_tree (tables_kv 1) empty_table) ≡ 0)
tables_after =
    insert-IsTable (disk_store 2 buffer) [] (0 ∷ []) leaf_nodes 1 0 100 empty_table leaf_store
      (tables_kv 1) empty-IsTable (omega arith) (omega arith) leaf_has_room tables_leaf-Fits

abbrev tables_store : Store
tables_store = tables_after.0

abbrev tables_nodes : Nodes
tables_nodes = tables_after.1

abbrev tables_tree : Shape
tables_tree = leaf 0 (tables_leaf 1)

tables-IsTable :
    IsTable (disk_store 2 buffer) (0 ∷ []) tables_nodes 0 100 1 tables_tree tables_store
tables-IsTable = rw tables_leaf_grown at tables_after.3

get_row-lookup_row_example :
    (after : Store) × (get_row (disk_store 2 buffer) 1 0 0 tables_store
      ≡ done (at_row 0 (0, tables_leaf 1), some (table_row tables_name 0 1)) after)
    × IsStore after (0 ∷ []) tables_nodes
get_row-lookup_row_example =
    get_row-lookup_row (disk_store 2 buffer) (0 ∷ []) tables_nodes 1 0 0 100 tables_tree
      tables_store tables-IsTable.holds tables-IsTable.held tables-IsTable.order (omega arith)

-- The row of the table of the tables with its next number counted on.
tables_replaced :
    replace_record (table_row tables_name 0 1) 2 (record_from_long (some 2))
    ≡ ok (table_row tables_name 0 2)
unfolding record_from_long record_size record_type_size
tables_replaced =
    replace_same_size (tables_name ∷ record_from_long (some 0) ∷ []) (record_from_long (some 1)) []
      (record_from_long (some 2)) tables_record-IsRow
      (record { positive = omega arith; sized = refl }) refl

get_next_id-table_row_example :
    (after : Store) × (later : Nodes) × (grown : Shape) × (get_next_id
        (disk_store 2 buffer)
        []
        1
        0
        tables_store
      ≡ done 1 after)
    × IsTable (disk_store 2 buffer) (0 ∷ []) later 0 100 1 grown after
    × (root_page grown ≡ 0)
    × (lookup_row 0 (rows grown) ≡ some (table_row tables_name 0 2))
    × (lookup_row 7 (rows grown) ≡ none)
unfolding lower_cell create_node
get_next_id-table_row_example =
    get_next_id-table_row (disk_store 2 buffer) [] (0 ∷ []) tables_nodes 1 0 100 tables_tree
      tables_store 0 7 tables_name 0 1 (tables_kv 1) tables-IsTable refl (omega arith) (omega arith)
      refl refl refl tables_record-IsRow (omega arith) (tables_leaf-FitsNode 2 row_size.1)
      (λ e. absurd (omega (arith, e)))

set_n_record-lookup_row_example :
    (after : Store) × (later : Nodes) × (set_n_record
        (disk_store 2 buffer)
        []
        1
        0
        0
        2
        (record_from_long (some 2))
        tables_store
      ≡ done tt after)
    × IsTable
        (disk_store 2 buffer)
        (0 ∷ [])
        later
        0
        100
        1
        (replaced_tree 0 (tables_kv 1) (table_row tables_name 0 2) tables_tree)
        after
    × (root_page (replaced_tree 0 (tables_kv 1) (table_row tables_name 0 2) tables_tree) ≡ 0)
    × (lookup_row 0 (rows (replaced_tree 0 (tables_kv 1) (table_row tables_name 0 2) tables_tree))
        ≡ some (table_row tables_name 0 2))
    × (lookup_row 7 (rows (replaced_tree 0 (tables_kv 1) (table_row tables_name 0 2) tables_tree))
        ≡ none)
unfolding lower_cell create_node
set_n_record-lookup_row_example =
    set_n_record-lookup_row (disk_store 2 buffer) (0 ∷ []) tables_nodes 1 0 100 tables_tree
      tables_store [] 0 2 7 (record_from_long (some 2)) (tables_kv 1) (table_row tables_name 0 2)
      tables-IsTable (omega arith) (omega arith) refl refl tables_replaced
      (tables_leaf-FitsNode 2 row_size.1) (λ e. absurd (omega (arith, e)))
