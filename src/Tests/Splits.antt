-- ===== src/Tests/Splits.antt =====
-- A leaf that outgrows its page, in a store in memory (server-side/schema/cursor.c).
use yacdb.Common.{ℕ, ◌≡◌, ◌++◌, refl, none, some, List, [], ◌∷◌, arith, replicate, get_elem?}
use yacdb.Common.State.{done}
use yacdb.Disk.{Node, KeyValue, no_page, table_leaf, nb_keys}
use yacdb.Disk.Store.{update}
use yacdb.Table.Shape.{IsAscending}
use yacdb.Table.Insert.{split_leaf_node}
use yacdb.Table.Split.{right_leaf, split_leaf_node-rows}
use yacdb.Tests.MemoryStore.{MemoryStore, memory_store}

-- A leaf of four rows, before another leaf on page 9.
abbrev row : ℕ → KeyValue
row key = record { key = key; value = []; overflow = [] }

abbrev full_leaf : Node
full_leaf = record {
  parent_addr = 0;
  type = table_leaf;
  key_vals = row 1 ∷ row 2 ∷ row 3 ∷ row 4 ∷ [];
  child_addrs = 9 ∷ replicate 5 0;
}

-- What `malloc` returns, with any bytes in it.
abbrev dirty : List ℕ
dirty = 7 ∷ 8 ∷ 9 ∷ 10 ∷ 11 ∷ 12 ∷ []

abbrev empty_store : MemoryStore
empty_store = record { nodes = λ p. none; next = 3 }

abbrev page_made : MemoryStore
page_made = record { nodes = λ p. none; next = 4 }

abbrev leaf_written : MemoryStore
leaf_written = record {
  nodes = update (λ p. none) 3 (right_leaf dirty full_leaf (row 3) (row 4));
  next = 4;
}

split_leaf_node-rows_example :
    (left : Node) × (right : Node) × (key : ℕ) × (split_leaf_node memory_store dirty full_leaf
        empty_store
      ≡ done (left, key, 3) leaf_written)
    × (memory_store.write right 3 page_made ≡ done tt leaf_written)
    × (left.key_vals ++ right.key_vals ≡ full_leaf.key_vals)
    × (nb_keys left ≡ 2)
    × (nb_keys right ≡ 2)
    × IsAscending 0 key left.key_vals
    × IsAscending key 100 right.key_vals
    × (left.child_addrs ≡ 3 ∷ replicate 5 0)
    × (get_elem? right.child_addrs 0 ≡ some no_page)
split_leaf_node-rows_example =
    split_leaf_node-rows memory_store dirty empty_store page_made leaf_written full_leaf (row 1)
      (row 2) (row 3) (row 4) 9 0 100 3 (replicate 5 0) refl refl refl refl
      (
        omega arith,
        omega arith,
        (
          omega arith,
          omega arith,
          (omega arith, omega arith, (omega arith, omega arith, omega arith)),
        ),
      )
      (omega arith)
