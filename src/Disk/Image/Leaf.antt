-- ===== src/Disk/Image/Leaf.antt =====
-- Table leaves (write_tl_node and read_node of server-side/diskio/diskio.c): a leaf whose values fit
-- the page is read back as it was written.
use mathlib.Core.List.{append_assoc, append-nil}
use yacdb.Common.{
  ℕ, ◌+◌, ◌-◌, ◌*◌, ◌%◌, ◌^◌, ◌<◌, ◌≤◌, ◌≡◌, refl, sym, ap, ◌∙◌, List, [], ◌∷◌, ◌++◌, length, Bytes,
  arith, length-append, length-replicate, All, ltb, lt→ltb, ge→ltb, true, replicate, some,
  get_elem?, false, leb, le→leb, take_of_length-le, get_elem?,
}
use yacdb.Common.Memory.{Result, ok, load, load-append}
use yacdb.Disk.{Node, KeyValue, table_leaf, nb_keys}
use yacdb.Disk.Pages.{Db, page_bytes, write_page, free_linked_overflow_pages}
use yacdb.Disk.Image.{fields, tl_cell_header, btree_header, load_le, read_tl_cells, read_image}
use yacdb.Disk.Image.Fields.{length-fields, load_le-fields, read_image-btree_header}
use yacdb.Disk.Image.Write.{tl_cells, write_tl_node}
use yacdb.Disk.Image.Interior.{FitsKey}

-- A value without overflow pages.
abbrev pub IsWhole : KeyValue → Type 0
IsWhole kv = kv.overflow ≡ []

-- The bytes of the values.
abbrev pub value_bytes : List KeyValue → ℕ
value_bytes [] = 0
value_bytes (kv ∷ kvs) = length kv.value + value_bytes kvs

abbrev pub leaf_cells : List KeyValue → Bytes
leaf_cells [] = []
leaf_cells (kv ∷ kvs) =
    fields (tl_cell_header kv.key (length kv.value) 0) (kv.value ++ leaf_cells kvs)

load_whole : (b : Bytes) → load b 0 (length b) ≡ ok b
unfolding load
load_whole b =
    rw
      (take_of_length-le (length b) b (omega arith), le→leb (0 + length b) (length b) (omega arith))
      refl

tl_cells-leaf_cells :
    (depth : ℕ) (buffer : Bytes) (db : Db) (available : ℕ) (kvs : List KeyValue)
    → All IsWhole kvs
    → value_bytes kvs ≤ available
    → available < 2 ^ 32
    → tl_cells depth buffer db available kvs ≡ ok (db, leaf_cells kvs)
unfolding tl_cells free_linked_overflow_pages
tl_cells-leaf_cells depth buffer db available [] whole fits small = refl
tl_cells-leaf_cells depth buffer db available (kv ∷ kvs) whole fits small =
    let size : length kv.value % 2 ^ 32 ≡ length kv.value = omega arith in
    let room : ltb available (length kv.value % 2 ^ 32) ≡ false =
      ge→ltb available (length kv.value % 2 ^ 32) (omega arith) in
    let loaded : load kv.value 0 (length kv.value % 2 ^ 32) ≡ ok kv.value =
      rw size (load_whole kv.value) in
    let behind : tl_cells depth buffer db (available - length kv.value % 2 ^ 32) kvs
        ≡ ok (db, leaf_cells kvs) =
      tl_cells-leaf_cells depth buffer db (available - length kv.value % 2 ^ 32) kvs whole.1
        (omega arith) (omega arith) in
    rw (tl_cells, room, whole.0, loaded, behind, size) refl

length-leaf_cells :
    (kvs : List KeyValue) → length (leaf_cells kvs) ≡ 16 * length kvs + value_bytes kvs
length-leaf_cells [] = refl
length-leaf_cells (kv ∷ kvs) =
    omega (arith, length-append kv.value (leaf_cells kvs), length-leaf_cells kvs)

load_at :
    (pre xs post : Bytes) (offs : ℕ)
    → offs ≡ length pre
    → load (pre ++ (xs ++ post)) offs (length xs) ≡ ok xs
load_at pre xs post offs e = rw e (load-append pre xs post)

read_tl_cells-leaf_cells :
    (get_tl_overflow : ℕ → Result Bytes) (kvs : List KeyValue) (pre post : Bytes)
    (page_size offs : ℕ)
    → All FitsKey kvs
    → All IsWhole kvs
    → offs ≡ length pre
    → offs + 16 * length kvs + value_bytes kvs < page_size
    → page_size ≤ 2 ^ 32
    → read_tl_cells get_tl_overflow (length kvs) page_size (pre ++ (leaf_cells kvs ++ post)) offs
      ≡ ok kvs
unfolding read_tl_cells
read_tl_cells-leaf_cells ov [] pre post page_size offs hk hw o room small = refl
read_tl_cells-leaf_cells ov (kv ∷ kvs) pre post page_size offs hk hw o room small =
    let rest = kv.value ++ (leaf_cells kvs ++ post) in
    let page = pre ++ (leaf_cells (kv ∷ kvs) ++ post) in
    let head = fields (tl_cell_header kv.key (length kv.value) 0) [] in
    let joined : page ≡ pre ++ fields (tl_cell_header kv.key (length kv.value) 0) rest =
      ap (λ t. pre ++ fields (tl_cell_header kv.key (length kv.value) 0) t)
        (append_assoc kv.value (leaf_cells kvs) post) in
    let regroup : page ≡ (pre ++ head) ++ rest = joined ∙ sym (append_assoc pre head rest) in
    let key : load_le page offs 4 ≡ ok kv.key = rw joined (
      load_le-fields pre [] 4 kv.key ((4, length kv.value) ∷ (8, 0) ∷ []) rest offs (omega arith)
        hk.0) in
    let size : load_le page (offs + 4) 4 ≡ ok (length kv.value) = rw joined (
      load_le-fields pre ((4, kv.key) ∷ []) 4 (length kv.value) ((8, 0) ∷ []) rest (offs + 4)
        (omega arith) (omega arith)) in
    let overflow : load_le page (offs + 8) 8 ≡ ok 0 = rw joined (
      load_le-fields pre ((4, kv.key) ∷ (4, length kv.value) ∷ []) 8 0 [] rest (offs + 8)
        (omega arith) (omega arith)) in
    let value : load page (offs + 16) (length kv.value) ≡ ok kv.value = rw regroup (
      load_at (pre ++ head) kv.value (leaf_cells kvs ++ post) (offs + 16)
        (omega (arith, length-append pre head))) in
    let inside : ltb (offs + 16 + length kv.value) page_size ≡ true = lt→ltb _ _ (omega arith) in
    let behind : read_tl_cells ov (length kvs) page_size page (offs + 16 + length kv.value)
        ≡ ok kvs =
      rw (regroup ∙ sym (append_assoc (pre ++ head) kv.value (leaf_cells kvs ++ post))) (
        read_tl_cells-leaf_cells ov kvs ((pre ++ head) ++ kv.value) post page_size
          (offs + 16 + length kv.value) hk.1 hw.1
          (omega (arith, length-append pre head, length-append (pre ++ head) kv.value))
          (omega arith) small) in
    rw (key, size, overflow, value, inside, behind)
      (ap (λ v. ok (record { key = kv.key; value = v; overflow = [] } ∷ kvs)) (append-nil kv.value)
        ∙ ap (λ o. ok (record { key = kv.key; value = kv.value; overflow = o } ∷ kvs)) (sym hw.0))

-- The leaf that is read back: its next leaf alone stands in `child_addrs`.
abbrev pub IsLeafNode : Node → ℕ → Type 0
IsLeafNode n right = (n.type ≡ table_leaf) × (n.child_addrs ≡ right ∷ replicate 5 0)

pub write_tl_node-fields :
    (depth : ℕ) (buffer : Bytes) (db : Db) (n : Node) (addr right : ℕ)
    → db.header.page_size ≡ 512
    → IsLeafNode n right
    → All IsWhole n.key_vals
    → nb_keys n ≤ 5
    → 24 + 16 * nb_keys n + value_bytes n.key_vals ≤ page_bytes db.header.page_size addr
    → (zeros : Bytes) × (write_tl_node depth buffer db n addr
        ≡ write_page db addr (
            fields
              (btree_header n.parent_addr table_leaf (nb_keys n) right)
              (leaf_cells n.key_vals ++ zeros)))
      × (length (
            fields
              (btree_header n.parent_addr table_leaf (nb_keys n) right)
              (leaf_cells n.key_vals ++ zeros))
          ≡ page_bytes db.header.page_size addr)
unfolding write_tl_node
write_tl_node-fields depth buffer db n addr right size leaf whole few fits =
    let header = btree_header n.parent_addr table_leaf (nb_keys n) right in
    let cells = leaf_cells n.key_vals in
    let bytes = fields header cells in
    let room : page_bytes db.header.page_size addr ≤ 512 = ground arith in
    let small : ltb db.header.page_size (24 + 16 * nb_keys n) ≡ false = ge→ltb _ _ (omega arith) in
    let long : length bytes ≡ 24 + 16 * nb_keys n + value_bytes n.key_vals =
      omega (arith, length-fields header cells, length-leaf_cells n.key_vals) in
    let zeros : Bytes = replicate (page_bytes db.header.page_size addr - length bytes) 0 in
    let next : get_elem? n.child_addrs 0 ≡ some right = ap (λ cs. get_elem? cs 0) leaf.1 in
    let written : tl_cells depth buffer db
          (page_bytes db.header.page_size addr - (24 + 16 * nb_keys n)) n.key_vals
        ≡ ok (db, cells) =
      tl_cells-leaf_cells depth buffer db _ n.key_vals whole (omega arith) (omega arith) in
    let filled : leb (length bytes) (page_bytes db.header.page_size addr) ≡ true =
      le→leb _ _ (omega arith) in
    (
      zeros,
      rw (small, next, written, filled) refl,
      omega (
        arith,
        length-fields header (cells ++ zeros),
        length-append cells zeros,
        length-replicate {A = ℕ} (page_bytes db.header.page_size addr - length bytes) 0,
        length-leaf_cells n.key_vals,
      ),
    )

-- The page of a leaf whose values end before byte 512 is read back as the leaf.
pub read_image-leaf_cells :
    (get_tl_overflow : ℕ → Result Bytes) (n : Node) (right : ℕ) (zeros : Bytes)
    → IsLeafNode n right
    → All FitsKey n.key_vals
    → All IsWhole n.key_vals
    → nb_keys n ≤ 5
    → right < 2 ^ 64
    → n.parent_addr < 2 ^ 64
    → 24 + 16 * nb_keys n + value_bytes n.key_vals < 512
    → read_image get_tl_overflow 512 (
        fields
          (btree_header n.parent_addr table_leaf (nb_keys n) right)
          (leaf_cells n.key_vals ++ zeros))
      ≡ ok n
read_image-leaf_cells ov n right zeros leaf hk hw few hr hp room =
    let header = btree_header n.parent_addr table_leaf (nb_keys n) right in
    let cells : read_tl_cells ov (nb_keys n) 512 (fields header (leaf_cells n.key_vals ++ zeros)) 24
        ≡ ok n.key_vals =
      read_tl_cells-leaf_cells ov n.key_vals (fields header []) zeros 512 24 hk hw refl
        (omega arith) (omega arith) in
    read_image-btree_header ov 512 n.parent_addr table_leaf (nb_keys n) right _ hp (omega arith) hr
    ∙ (rw (le→leb (nb_keys n) 5 few, cells)
        (ap
            (λ cs. ok (record {
              parent_addr = n.parent_addr;
              type = table_leaf;
              key_vals = n.key_vals;
              child_addrs = cs;
            }))
            (sym leaf.1)
          ∙ ap
              (λ t. ok (record {
                parent_addr = n.parent_addr;
                type = t;
                key_vals = n.key_vals;
                child_addrs = n.child_addrs;
              }))
              (sym leaf.0)))
