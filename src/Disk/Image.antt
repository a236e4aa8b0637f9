-- ===== src/Disk/Image.antt =====
-- server-side/diskio/diskio.c: the bytes of a node in its page, as write_ti_node writes them and
-- read_node reads them. Image/Write has write_tl_node and write_overflow.
pub mod Fields
pub mod Interior
pub mod Stored
pub mod Write
pub mod Leaf
use yacdb.Common.{
  Bool, true, false, ℕ, zero, suc, ◌+◌, ◌-◌, ◌*◌, ◌%◌, ◌^◌, Option, none, some, List, [], ◌∷◌, ◌++◌,
  ltb, leb, ◌==◌, if◌then◌else◌, length, take, drop, get_elem?, replicate, Bytes, le_bytes, from_le,
}
use yacdb.Common.Memory.{Result, ok, failed, fault, ◌>>=◌, load}
use yacdb.Disk.{
  order, PageType, table_leaf, table_interior, index_leaf, index_interior, page_type_code, KeyValue,
  Node, nb_keys, btree_header_size, cell_header_size,
}
use yacdb.Disk.Pages.{Db, page_bytes, read_page, write_page}
use yacdb.Disk.Cache.{NodeCache, add_to_cache, get_from_cache}

-- The members of a structure, each with its width and its value, and what follows them.
abbrev pub fields : List (ℕ × ℕ) → Bytes → Bytes
fields [] rest = rest
fields ((w, v) ∷ fs) rest = le_bytes w v ++ fields fs rest

unfoldable pub load_le : Bytes → ℕ → ℕ → Result ℕ
load_le buffer offs w = do bytes ← load buffer offs w; ok (from_le bytes)

-- `struct btree_header` has two bytes of padding.
abbrev pub btree_header : ℕ → PageType → ℕ → ℕ → List (ℕ × ℕ)
btree_header parent type cells right =
    (8, parent) ∷ (4, page_type_code type) ∷ (2, cells) ∷ (2, 0) ∷ (8, right) ∷ []

abbrev pub tl_cell_header : ℕ → ℕ → ℕ → List (ℕ × ℕ)
tl_cell_header key size overflow = (4, key) ∷ (4, size) ∷ (8, overflow) ∷ []

-- A page of zeros, written from its start.
abbrev pub on_page : ℕ → Bytes → Result Bytes
on_page size bytes =
    if leb (length bytes) size then ok (bytes ++ replicate (size - length bytes) 0) else fault

abbrev pub element : Option ℕ → Result ℕ
element none = fault
element (some a) = ok a

-- The loop of write_ti_node.
abbrev pub ti_cells : List KeyValue → List ℕ → Result Bytes
ti_cells [] children = ok []
ti_cells (kv ∷ kvs) [] = fault
ti_cells (kv ∷ kvs) (child ∷ children) = do
  rest ← ti_cells kvs children
  ok (fields (tl_cell_header kv.key 8 0) (le_bytes 8 child ++ rest))

-- The page that write_ti_node fills; `size` is that of the page.
unfoldable pub ti_image : ℕ → ℕ → Node → Result Bytes
ti_image page_size size n =
    if ltb page_size (btree_header_size + cell_header_size * nb_keys n) then failed else (do
      right ← element (get_elem? n.child_addrs (nb_keys n))
      cells ← ti_cells n.key_vals n.child_addrs
      on_page size (fields (btree_header n.parent_addr n.type (nb_keys n) right) cells))

unfoldable pub write_ti_node : Db → Node → ℕ → Result Db
write_ti_node db n addr = do
  rpage ← ti_image db.header.page_size (page_bytes db.header.page_size addr) n
  write_page db addr rpage

-- `assert`.
abbrev pub assert : Bool → Result (Unit {0})
assert true = ok tt
assert false = fault

-- `key_vals` and `child_addrs` of a node that is read.
abbrev pub Cells : Type 0
Cells = List KeyValue × List ℕ

unfoldable pub read_ti_cells : ℕ → ℕ → Bytes → ℕ → Result Cells
read_ti_cells zero page_size page offs = ok ([], [])
read_ti_cells (suc n) page_size page offs = do
  key ← load_le page offs 4
  size ← load_le page (offs + 4) 4
  child ← load_le page (offs + 16) 8
  _ ← assert (ltb (offs + 16 + size) page_size)
  (kvs, children) ← read_ti_cells n page_size page (offs + 16 + size)
  ok (record { key = key; value = []; overflow = [] } ∷ kvs, child ∷ children)

-- The overflow pages of a value, which a non-zero link names. `get_tl_overflow` reads them.
abbrev pub overflow_of : (ℕ → Result Bytes) → ℕ → Result Bytes
overflow_of get_tl_overflow overflow = if overflow == 0 then ok [] else get_tl_overflow overflow

unfoldable pub read_tl_cells : (ℕ → Result Bytes) → ℕ → ℕ → Bytes → ℕ → Result (List KeyValue)
read_tl_cells get_tl_overflow zero page_size page offs = ok []
read_tl_cells get_tl_overflow (suc n) page_size page offs = do
  key ← load_le page offs 4
  size ← load_le page (offs + 4) 4
  overflow ← load_le page (offs + 8) 8
  value ← load page (offs + 16) size
  more ← overflow_of get_tl_overflow overflow
  _ ← assert (ltb (offs + 16 + size) page_size)
  kvs ← read_tl_cells get_tl_overflow n page_size page (offs + 16 + size)
  ok (record { key = key; value = value ++ more; overflow = [] } ∷ kvs)

abbrev pub page_type_of : ℕ → Option PageType
page_type_of code =
    if code == 13
    then some table_leaf
    else if code == 5
    then some table_interior
    else if code == 10
    then some index_leaf
    else if code == 2
    then some index_interior
    else none

-- The node of a page by its type; a page of another type is an error. The arrays have room for
-- `order + 1` keys.
abbrev pub read_typed : (ℕ → Result Bytes) → ℕ → Bytes → ℕ → ℕ → ℕ → Option PageType → Result Node
read_typed get_tl_overflow page_size page parent cells right none = failed
read_typed get_tl_overflow page_size page parent cells right (some table_leaf) = do
  _ ← assert (leb cells (order + 1))
  kvs ← read_tl_cells get_tl_overflow cells page_size page btree_header_size
  ok (record {
    parent_addr = parent;
    type = table_leaf;
    key_vals = kvs;
    child_addrs = right ∷ replicate (order + 1) 0;
  })
read_typed get_tl_overflow page_size page parent cells right (some type) = do
  _ ← assert (leb cells (order + 1))
  (kvs, children) ← read_ti_cells cells page_size page btree_header_size
  ok (record {
    parent_addr = parent;
    type = type;
    key_vals = kvs;
    child_addrs = children ++ right ∷ replicate (order + 1 - cells) 0;
  })

-- read_node on the bytes of the page.
unfoldable pub read_image : (ℕ → Result Bytes) → ℕ → Bytes → Result Node
read_image get_tl_overflow page_size page = do
  parent ← load_le page 0 8
  code ← load_le page 8 4
  cells ← load_le page 12 2
  right ← load_le page 16 8
  read_typed get_tl_overflow page_size page parent cells right (page_type_of code)

-- `realloc` and `memcpy`, whose value, the new buffer, is taken for an error unless it is NULL: a
-- buffer of no bytes is NULL here, as with glibc.
unfoldable pub append_next : Bytes → Result Bytes → Result Bytes
append_next data' next = do more ← next; if length (data' ++ more) == 0 then ok [] else failed

-- get_overflow_data on at most `depth` nested calls, which is what the stack holds: a chain that
-- does not end is a fault.
unfoldable pub get_overflow_data : ℕ → Db → ℕ → Result Bytes
get_overflow_data zero db page = fault
get_overflow_data (suc depth) db page = elim (page == 0) [
  | true ↦ failed
  | false ↦ do
    raw ← read_page db page
    next_page ← load_le raw 0 8
    size ← load_le raw 8 8
    data' ← load raw 16 size
    let next = get_overflow_data depth db next_page
    if next_page == 0 then ok data' else append_next data' next
]

-- A node that is not in the cache is read from its page and put in the cache.
abbrev pub read_missed : ℕ → Db → ℕ → Option Node → NodeCache → Result (Node × NodeCache)
read_missed depth db addr (some node) cache = ok (node, cache)
read_missed depth db addr none cache = do
  page ← read_page db addr
  node ← read_image (get_overflow_data depth db) db.header.page_size page
  added ← add_to_cache db.header.default_cache_size node addr cache
  ok (node, added)

unfoldable pub read_node : ℕ → Db → NodeCache → ℕ → Result (Node × NodeCache)
read_node depth db cache addr =
    let (hit, moved) = get_from_cache addr cache in read_missed depth db addr hit moved
