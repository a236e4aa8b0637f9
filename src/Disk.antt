-- ===== src/Disk.antt =====
-- server-side/diskio/include/db_structs.h and diskio.h: pages, nodes and the header of the file.
-- A page number is the value of its `size_t`. The entries of a node below `nb_keys` are a list, so
-- `nb_keys` is its length; `child_addrs` is the whole array. A `linked_overflow` is the list of its
-- pages. Memory is always granted, and reads and writes of the file succeed where they lie in it.
pub mod Cache
pub mod Pages
pub mod Image
pub mod Store
use yacdb.Common.{
  ℕ, ◌+◌, ◌-◌, ◌^◌, Bool, true, false, List, [], ◌∷◌, ◌++◌, length, take, replicate, Bytes,
}

abbrev pub order : ℕ
order = 4

abbrev pub yacdb_page_size : ℕ
yacdb_page_size = 512

abbrev pub yacdb_default_cache_size : ℕ
yacdb_default_cache_size = 10

-- `(Page) -1`.
abbrev pub no_page : ℕ
no_page = 2 ^ 64 - 1

pub data PageType : Type 0 where
  table_leaf table_interior index_leaf index_interior : PageType

abbrev pub page_type_code : PageType → ℕ
page_type_code PageType.table_leaf = 13
page_type_code PageType.table_interior = 5
page_type_code PageType.index_leaf = 10
page_type_code PageType.index_interior = 2

pub record KeyValue : Type 0 where
  pub key : ℕ
  pub value : Bytes
  pub overflow : List ℕ

pub record Node : Type 0 where
  pub parent_addr : ℕ
  pub type : PageType
  pub key_vals : List KeyValue
  pub child_addrs : List ℕ

abbrev pub nb_keys : Node → ℕ
nb_keys n = length n.key_vals

-- The header without the fields that no code reads again: the signature and `change_counter`.
pub record Header : Type 0 where
  pub page_size : ℕ
  pub nb_pages : ℕ
  pub default_cache_size : ℕ
  pub nb_free_pages : ℕ
  pub fst_free_page : ℕ

-- `sizeof(struct yacdb_header)`, `btree_header` and `tl_cell_header` on the program's machine.
abbrev pub header_size : ℕ
header_size = 56

abbrev pub btree_header_size : ℕ
btree_header_size = 24

abbrev pub cell_header_size : ℕ
cell_header_size = 16

abbrev pub is_leaf_type : PageType → Bool
is_leaf_type PageType.table_leaf = true
is_leaf_type PageType.index_leaf = true
is_leaf_type _ = false

unfoldable pub is_leaf : Node → Bool
is_leaf n = is_leaf_type n.type

-- A zeroed node, and its first fields.
unfoldable pub create_node : Node
create_node = record {
  parent_addr = no_page;
  type = PageType.table_leaf;
  key_vals = [];
  child_addrs = no_page ∷ replicate 5 0;
}

-- The copy has `nb_keys + 1` addresses; the rest of its array is zero.
unfoldable pub cpy_node : Node → Node
cpy_node n = record n {
  child_addrs = take (nb_keys n + 1) n.child_addrs ++ replicate (order + 2 - (nb_keys n + 1)) 0;
}
