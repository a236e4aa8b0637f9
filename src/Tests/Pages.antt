-- ===== src/Tests/Pages.antt =====
-- Pages and cached nodes with concrete values (server-side/diskio/diskio.c).
use yacdb.Common.{
  ℕ, ◌≡◌, ◌≢◌, ◌<◌, refl, none, some, List, [], ◌∷◌, Bytes, arith, replicate, take, get_elem?,
}
use yacdb.Common.Memory.{ok, ◌>>=◌}
use yacdb.Disk.{Node, cpy_node, table_leaf, table_interior}
use yacdb.Disk.Pages.{Db, create_addr, free_page, free_linked_overflow_pages, init_db, save_header}
use yacdb.Disk.Pages.Chain.{IsFile, NotIn, read_link-le_bytes}
use yacdb.Disk.Pages.Shared.{IsShared}
use yacdb.Disk.Pages.Reuse.{
  create_addr-fresh, create_addr-free_page, free_linked_overflow_pages-IsFile,
}
use yacdb.Disk.Pages.Run.{Run, Run-IsShared}
use yacdb.Disk.Cache.{
  NodeCache, add_to_cache, get_from_cache, get_from_list, remove_addr, drop_last, unlink,
}
use yacdb.Disk.Image.{write_ti_node, read_node}
use yacdb.Disk.Image.Stored.{read_node-write_ti_node}
use yacdb.Disk.Cache.Laws.{IsCache, copied, without}
use yacdb.Disk.Cache.Recall.{add_to_cache-IsCache, get_from_cache-add_to_cache}

-- Three pages: the first, page 1 in use, and page 2, which is free.
abbrev three : Db
three = record {
  header = record {
    page_size = 512;
    nb_pages = 3;
    default_cache_size = 10;
    nb_free_pages = 1;
    fst_free_page = 2;
  };
  saved = record {
    page_size = 512;
    nb_pages = 3;
    default_cache_size = 10;
    nb_free_pages = 0;
    fst_free_page = 0;
  };
  pages = replicate 456 0 ∷ replicate 512 1 ∷ replicate 512 0 ∷ [];
}

three-IsFile : IsFile three (2 ∷ [])
three-IsFile = record {
  sized_512 = refl;
  complete = refl;
  addressable = omega arith;
  sized = (refl, (refl, (refl, tt)));
  chain = (
    replicate 512 0,
    0,
    refl,
    refl,
    read_link-le_bytes 0 (replicate 508 0) (omega arith),
    omega arith,
  );
  counted = refl;
  distinct = (tt, tt);
  inside = (omega arith, tt);
}

abbrev buffer : Bytes
buffer = replicate 512 7

create_addr-fresh_example :
    (p : ℕ) × (after : Db) × (rest : List ℕ) × (create_addr three ≡ ok (p, after))
    × IsFile after rest
    × (after.saved ≡ after.header)
    × (p < after.header.nb_pages)
    × NotIn p rest
    × (1 ≢ p)
    × (get_elem? after.pages 1 ≡ get_elem? three.pages 1)
create_addr-fresh_example =
    create_addr-fresh three (2 ∷ []) 1 three-IsFile (omega arith) (omega arith) (omega arith, tt)

create_addr-free_page_example :
    (after : Db) × ((do freed ← free_page buffer three 1; create_addr freed) ≡ ok (1, after))
    × IsFile after (2 ∷ [])
    × (after.header.nb_free_pages ≡ 1)
create_addr-free_page_example =
    create_addr-free_page buffer three 1 (2 ∷ []) refl three-IsFile (omega arith) (omega arith)
      (omega arith, tt)

free_linked_overflow_pages-IsFile_example :
    (after : Db) × (free_linked_overflow_pages buffer three (1 ∷ []) ≡ ok after)
    × IsFile after (1 ∷ 2 ∷ [])
    × (after.header.nb_pages ≡ 3)
free_linked_overflow_pages-IsFile_example =
    free_linked_overflow_pages-IsFile buffer three (1 ∷ []) (2 ∷ []) refl three-IsFile
      (omega arith, omega arith, (omega arith, tt), tt, tt)

abbrev one_page : Db
one_page = record {
  header = record {
    page_size = 512;
    nb_pages = 2;
    default_cache_size = 10;
    nb_free_pages = 0;
    fst_free_page = 0;
  };
  saved = record {
    page_size = 512;
    nb_pages = 2;
    default_cache_size = 10;
    nb_free_pages = 0;
    fst_free_page = 0;
  };
  pages = replicate 456 0 ∷ replicate 512 0 ∷ [];
}

made : create_addr (init_db none) ≡ ok (1, one_page)
unfolding create_addr init_db save_header
made = refl

new_pages : (init_db none).header.nb_pages < 2147483648
unfolding init_db save_header
new_pages = omega arith

Run-IsShared_example : (free : List ℕ) × IsShared one_page (1 ∷ []) free
Run-IsShared_example = Run-IsShared one_page (1 ∷ []) (Run.created Run.opened new_pages made)

abbrev leaf : Node
leaf = record { parent_addr = 0; type = table_leaf; key_vals = []; child_addrs = 5 ∷ replicate 5 0 }

abbrev inner : Node
inner = record {
  parent_addr = 0;
  type = table_interior;
  key_vals = [];
  child_addrs = 6 ∷ replicate 5 0;
}

abbrev small : NodeCache
small = record {
  cache = record { addr = 3; node = leaf } ∷ record { addr = 4; node = inner } ∷ [];
  cache_size = 2;
}

small-IsCache : IsCache 2 small
small-IsCache = record {
  distinct = (refl, (refl, tt));
  counted = refl;
  within = omega arith;
  some_room = omega arith;
}

add_to_cache-IsCache_example :
    (after : NodeCache) × (add_to_cache 2 leaf 5 small ≡ ok after)
    × (after.cache ≡ take 2 (copied 5 leaf ∷ without 5 small.cache))
    × IsCache 2 after
add_to_cache-IsCache_example = add_to_cache-IsCache 2 leaf 5 small small-IsCache

abbrev added : NodeCache
added = record {
  cache = record { addr = 5; node = inner } ∷ record { addr = 3; node = leaf } ∷ [];
  cache_size = 2;
}

adds : add_to_cache 2 inner 5 small ≡ ok added
unfolding add_to_cache remove_addr unlink drop_last cpy_node
adds = refl

get_from_cache-add_to_cache_example : (get_from_cache 5 added).0 ≡ some (cpy_node inner)
get_from_cache-add_to_cache_example =
    get_from_cache-add_to_cache 2 inner 5 small added small-IsCache (omega arith) adds

abbrev branch : Node
branch = record {
  parent_addr = 0;
  type = table_interior;
  key_vals = record { key = 7; value = []; overflow = [] } ∷ [];
  child_addrs = 1 ∷ 2 ∷ replicate 4 0;
}

abbrev no_nodes : NodeCache
no_nodes = record { cache = []; cache_size = 0 }

no_nodes-IsCache : IsCache 10 no_nodes
no_nodes-IsCache = record {
  distinct = tt;
  counted = refl;
  within = omega arith;
  some_room = omega arith;
}

no_node : (get_from_cache 1 no_nodes).0 ≡ none
unfolding get_from_cache get_from_list
no_node = refl

interior : table_interior ≢ table_leaf
interior = λ e. cc

read_node-write_ti_node_example :
    (after : Db) × (later : NodeCache) × (write_ti_node three branch 1 ≡ ok after)
    × (read_node 1 after no_nodes 1 ≡ ok (branch, later))
    × IsCache 10 later
read_node-write_ti_node_example =
    read_node-write_ti_node 1 three (2 ∷ []) no_nodes 1 branch (1 ∷ []) 2 (replicate 4 0)
      three-IsFile (omega arith) no_nodes-IsCache no_node interior refl refl (omega arith)
      (omega arith, tt) (omega arith, tt) (omega arith) (omega arith)
