-- ===== src/Tests/Missing.antt =====
-- A database of the table of the tables alone, with the index of its names (server-side/schema/db_ops.c
-- and cursor_bt.c), and a name that it does not have.
use yacdb.Common.{◌≡◌, refl, some, [], ◌∷◌, arith, replicate, inr}
use yacdb.Common.Int.{pos}
use yacdb.Common.Memory.{ok}
use yacdb.Common.Text.{strcmp}
use yacdb.Common.State.{crash}
use yacdb.Disk.{Node, create_node, is_leaf, index_leaf}
use yacdb.Disk.Pages.{Db}
use yacdb.Disk.Store.{Nodes, update, Store, write_node}
use yacdb.Disk.Store.Fits.{FitsNode}
use yacdb.Disk.Store.OnDisk.{IsStore, write_node-IsStore}
use yacdb.Disk.Store.Instance.{disk_store}
use yacdb.Common.State.{done}
use yacdb.Record.Build.{record_from_long, record_from_string}
use yacdb.Record.Compare.{compare_with, compare_r, compare_typed, compare_by}
use yacdb.Table.Shape.{leaf}
use yacdb.Table.Added.{IsTable}
use yacdb.Index.Names.{get_table_id}
use yacdb.Index.Missing.{get_table_id-missing}
use yacdb.Tests.Tables.{
  buffer, no_nodes, tables_name, tables_leaf, tables_record-IsRow, tables_leaf-FitsNode, row_size,
}

-- Three pages in use.
abbrev wide : Db
wide = record {
  header = record {
    page_size = 512;
    nb_pages = 3;
    default_cache_size = 10;
    nb_free_pages = 0;
    fst_free_page = 0;
  };
  saved = record {
    page_size = 512;
    nb_pages = 3;
    default_cache_size = 10;
    nb_free_pages = 0;
    fst_free_page = 0;
  };
  pages = replicate 456 0 ∷ replicate 512 0 ∷ replicate 512 0 ∷ [];
}

abbrev wide_store : Store
wide_store = record { db = wide; cache = record { cache = []; cache_size = 0 } }

wide_store-IsStore : IsStore wide_store (2 ∷ 1 ∷ 0 ∷ []) no_nodes
wide_store-IsStore = record {
  used = 2 ∷ 1 ∷ [];
  free = [];
  given_used = refl;
  shared = record {
    file = record {
      sized_512 = refl;
      complete = refl;
      addressable = omega arith;
      sized = (refl, (refl, (refl, tt)));
      chain = omega arith;
      counted = refl;
      distinct = tt;
      inside = tt;
    };
    used_inside = ((omega arith, omega arith), ((omega arith, omega arith), tt));
    apart = (tt, (tt, tt));
    used_distinct = (((λ e. absurd (omega (arith, e))), tt), (tt, tt));
    none_lost = refl;
  };
  cached = record { distinct = tt; counted = refl; within = omega arith; some_room = omega arith };
  copies = λ q n e. absurd (cc);
  fitting = λ q n e. absurd (cc);
  on_pages = λ q n e. absurd (cc);
  nodes_given = λ q n e. absurd (cc);
}

-- The index leaf with the entry of the table of the tables.
abbrev names_leaf : Node
names_leaf = record create_node {
  type = index_leaf;
  key_vals = record { key = 0; value = []; overflow = [] } ∷ [];
  child_addrs = replicate 6 0;
}

names_leaf-FitsNode : FitsNode names_leaf
unfolding create_node
names_leaf-FitsNode = inr (record {
  children = 0 ∷ [];
  right = 0;
  type = λ e. absurd (cc);
  held = refl;
  same = refl;
  keys = (omega arith, tt);
  no_values = refl;
  few = omega arith;
  children_fit = (omega arith, tt);
  right_fits = omega arith;
  parent_fits = omega arith;
})

abbrev names_nodes : Nodes
names_nodes = update no_nodes 2 names_leaf

abbrev with_names :
    (after : Store) × (write_node 2 buffer names_leaf 2 wide_store ≡ done tt after)
    × IsStore after (2 ∷ 1 ∷ 0 ∷ []) names_nodes
    × (after.db.header ≡ wide.header)
with_names =
    write_node-IsStore 2 buffer wide_store (2 ∷ 1 ∷ 0 ∷ []) no_nodes 2 names_leaf wide_store-IsStore
      (λ out. out.0 refl) names_leaf-FitsNode

abbrev with_tables :
    (after : Store) × (write_node 2 buffer (tables_leaf 1) 0 with_names.0 ≡ done tt after)
    × IsStore after (2 ∷ 1 ∷ 0 ∷ []) (update names_nodes 0 (tables_leaf 1))
    × (after.db.header ≡ with_names.0.db.header)
with_tables =
    write_node-IsStore 2 buffer with_names.0 (2 ∷ 1 ∷ 0 ∷ []) names_nodes 0 (tables_leaf 1)
      with_names.2 (λ out. out.1.1.0 refl) (tables_leaf-FitsNode 1 row_size.0)

with_tables-IsTable :
    IsTable
      (disk_store 2 buffer)
      (2 ∷ 1 ∷ 0 ∷ [])
      (update names_nodes 0 (tables_leaf 1))
      0
      100
      1
      (leaf 0 (tables_leaf 1))
      with_tables.0
unfolding create_node is_leaf
with_tables-IsTable = record {
  holds = with_tables.2;
  held = (refl, refl);
  order = (omega arith, omega arith, omega arith);
  apart = tt;
  enough = omega arith;
}

-- `x` comes behind `TABLES`.
x_behind : compare_r (record_from_string (some (120 ∷ []))) tables_name ≡ ok (pos 1)
unfolding compare_with compare_r compare_typed record_from_string compare_by strcmp
x_behind = refl

get_table_id-missing_example :
    get_table_id (disk_store 2 buffer) [] 1 1 5 (120 ∷ []) with_tables.0 ≡ crash
unfolding create_node is_leaf
get_table_id-missing_example =
    get_table_id-missing (disk_store 2 buffer) [] (2 ∷ 1 ∷ 0 ∷ [])
      (update names_nodes 0 (tables_leaf 1)) 1 0 5 0 100 (leaf 0 (tables_leaf 1)) with_tables.0
      (120 ∷ []) names_leaf with_tables-IsTable refl refl refl
      (
        record {
          first = tables_name;
          others = record_from_long (some 0) ∷ record_from_long (some 1) ∷ [];
          held = refl;
          row = tables_record-IsRow;
          cmp = pos 1;
          compared = x_behind;
          other = λ e. absurd (cc);
        },
        tt,
      )
