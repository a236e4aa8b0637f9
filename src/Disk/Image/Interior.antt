-- ===== src/Disk/Image/Interior.antt =====
-- Interior and index nodes (write_ti_node and read_node of server-side/diskio/diskio.c): what is
-- written is read back.
use mathlib.Core.List.{append_assoc}
use yacdb.Common.{
  ℕ, ◌+◌, ◌-◌, ◌*◌, ◌^◌, ◌<◌, ◌≤◌, ◌≡◌, ◌≢◌, refl, sym, ap, ◌∙◌, List, [], ◌∷◌, ◌++◌, map, length,
  Bytes, le_bytes, arith, length-append, length-replicate, All, ltb, lt→ltb, true, replicate, some,
  get_elem?, get_elem?-append, false, leb, le→leb, ge→ltb,
}
use yacdb.Common.Memory.{Result, ok, ◌>>=◌}
use yacdb.Disk.{
  Node, KeyValue, PageType, table_leaf, table_interior, index_leaf, index_interior, nb_keys,
}
use yacdb.Disk.Image.{
  fields, tl_cell_header, load_le, ti_cells, read_ti_cells, ti_image, read_image, read_typed,
  btree_header,
}
use yacdb.Disk.Image.Fields.{length-fields, load_le-fields, read_image-btree_header}

-- The key alone: the nodes of these types keep no values.
abbrev pub key_only : KeyValue → KeyValue
key_only kv = record { key = kv.key; value = []; overflow = [] }

-- The cells of keys and children, as write_ti_node writes them.
abbrev pub cells_of : List KeyValue → List ℕ → Bytes
cells_of (kv ∷ kvs) (child ∷ children) =
    fields (tl_cell_header kv.key 8 0) (le_bytes 8 child ++ cells_of kvs children)
cells_of _ _ = []

abbrev pub FitsKey : KeyValue → Type 0
FitsKey kv = kv.key < 2 ^ 32

abbrev pub FitsPage : ℕ → Type 0
FitsPage p = p < 2 ^ 64

ti_cells-cells_of :
    (kvs : List KeyValue) (children more : List ℕ)
    → length kvs ≡ length children
    → ti_cells kvs (children ++ more) ≡ ok (cells_of kvs children)
ti_cells-cells_of [] [] more e = refl
ti_cells-cells_of [] (c ∷ cs) more e = absurd (omega arith)
ti_cells-cells_of (kv ∷ kvs) [] more e = absurd (omega arith)
ti_cells-cells_of (kv ∷ kvs) (c ∷ cs) more e = rw (ti_cells-cells_of kvs cs more (omega arith)) refl

read_ti_cells-cells_of :
    (kvs : List KeyValue) (children : List ℕ) (pre post : Bytes) (page_size offs : ℕ)
    → length kvs ≡ length children
    → All FitsKey kvs
    → All FitsPage children
    → offs ≡ length pre
    → offs + 24 * length kvs < page_size
    → read_ti_cells (length kvs) page_size (pre ++ (cells_of kvs children ++ post)) offs
      ≡ ok (map key_only kvs, children)
unfolding read_ti_cells
read_ti_cells-cells_of [] [] pre post page_size offs e hk hc o room = refl
read_ti_cells-cells_of [] (c ∷ cs) pre post page_size offs e hk hc o room = absurd (omega arith)
read_ti_cells-cells_of (kv ∷ kvs) [] pre post page_size offs e hk hc o room = absurd (omega arith)
read_ti_cells-cells_of (kv ∷ kvs) (c ∷ cs) pre post page_size offs e hk hc o room =
    let rest = cells_of kvs cs ++ post in
    let page = pre ++ (cells_of (kv ∷ kvs) (c ∷ cs) ++ post) in
    let cell = fields ((4, kv.key) ∷ (4, 8) ∷ (8, 0) ∷ (8, c) ∷ []) [] in
    let key : load_le page offs 4 ≡ ok kv.key =
      load_le-fields pre [] 4 kv.key ((4, 8) ∷ (8, 0) ∷ (8, c) ∷ []) rest offs (omega arith) hk.0 in
    let size : load_le page (offs + 4) 4 ≡ ok 8 =
      load_le-fields pre ((4, kv.key) ∷ []) 4 8 ((8, 0) ∷ (8, c) ∷ []) rest (offs + 4) (omega arith)
        (omega arith) in
    let child : load_le page (offs + 16) 8 ≡ ok c =
      load_le-fields pre ((4, kv.key) ∷ (4, 8) ∷ (8, 0) ∷ []) 8 c [] rest (offs + 16) (omega arith)
        hc.0 in
    let inside : ltb (offs + 16 + 8) page_size ≡ true = lt→ltb _ _ (omega arith) in
    let behind : read_ti_cells (length kvs) page_size page (offs + 16 + 8)
        ≡ ok (map key_only kvs, cs) =
      rw append_assoc at (
        read_ti_cells-cells_of kvs cs (pre ++ cell) post page_size (offs + 16 + 8) (omega arith)
          hk.1 hc.1 (omega (arith, length-append pre cell)) (omega arith)) in
    rw (key, size, child, inside, behind) refl

-- The node that is read back: keys without values, and the addresses that the node uses.
abbrev pub keys_only : Node → List ℕ → ℕ → Node
keys_only n children right = record n {
  key_vals = map key_only n.key_vals;
  child_addrs = children ++ right ∷ replicate (5 - nb_keys n) 0;
}

length-cells_of :
    (kvs : List KeyValue) (children : List ℕ)
    → length kvs ≡ length children
    → length (cells_of kvs children) ≡ 24 * length kvs
length-cells_of [] [] e = refl
length-cells_of [] (c ∷ cs) e = absurd (omega arith)
length-cells_of (kv ∷ kvs) [] e = absurd (omega arith)
length-cells_of (kv ∷ kvs) (c ∷ cs) e = let h = length-cells_of kvs cs (omega arith) in omega arith

pub ti_image-fields :
    (size : ℕ) (n : Node) (children : List ℕ) (right : ℕ) (more : List ℕ)
    → n.child_addrs ≡ children ++ right ∷ more
    → length children ≡ nb_keys n
    → nb_keys n ≤ 5
    → 456 ≤ size
    → (zeros : Bytes) × (ti_image 512 size n
        ≡ ok (
            fields
              (btree_header n.parent_addr n.type (nb_keys n) right)
              (cells_of n.key_vals children ++ zeros)))
      × (length (
            fields
              (btree_header n.parent_addr n.type (nb_keys n) right)
              (cells_of n.key_vals children ++ zeros))
          ≡ size)
unfolding ti_image
ti_image-fields size n children right more held same few room =
    let header = btree_header n.parent_addr n.type (nb_keys n) right in
    let cells = cells_of n.key_vals children in
    let bytes = fields header cells in
    let small : ltb 512 (24 + 16 * nb_keys n) ≡ false = ge→ltb _ _ (omega arith) in
    let last : get_elem? n.child_addrs (nb_keys n) ≡ some right =
      rw (held, ← same) (get_elem?-append children right more) in
    let written : ti_cells n.key_vals n.child_addrs ≡ ok cells =
      rw held (ti_cells-cells_of n.key_vals children (right ∷ more) (sym same)) in
    let fits : leb (length bytes) size ≡ true =
      le→leb _ _ (
        omega
          (arith, length-fields header cells, length-cells_of n.key_vals children (sym same))) in
    let zeros : Bytes = replicate (size - length bytes) 0 in
    let long : length bytes ≡ 24 + 24 * nb_keys n =
      omega (arith, length-fields header cells, length-cells_of n.key_vals children (sym same)) in
    (
      zeros,
      rw (small, last, written, fits) refl,
      omega (
        arith,
        length-fields header (cells ++ zeros),
        length-fields header cells,
        length-append cells zeros,
        length-replicate {A = ℕ} (size - length bytes) 0,
      ),
    )

read_typed-other :
    (get_tl_overflow : ℕ → Result Bytes) (page_size : ℕ) (page : Bytes) (parent cells right : ℕ)
    (t : PageType)
    → t ≢ table_leaf
    → cells ≤ 5
    → (kvs : List KeyValue) (children : List ℕ)
    → read_ti_cells cells page_size page 24 ≡ ok (kvs, children)
    → read_typed get_tl_overflow page_size page parent cells right (some t)
      ≡ ok (record {
        parent_addr = parent;
        type = t;
        key_vals = kvs;
        child_addrs = children ++ right ∷ replicate (5 - cells) 0;
      })
read_typed-other ov size page parent cells right table_leaf h few kvs children e = absurd (h refl)
read_typed-other ov size page parent cells right table_interior h few kvs children e =
    rw (le→leb cells 5 few, e) refl
read_typed-other ov size page parent cells right index_leaf h few kvs children e =
    rw (le→leb cells 5 few, e) refl
read_typed-other ov size page parent cells right index_interior h few kvs children e =
    rw (le→leb cells 5 few, e) refl

-- An interior or index node of at most five keys below 2 ^ 32, whose array holds a child for each
-- key and the right one, is read back from the page that write_ti_node fills, without the values;
-- the page is long enough for five cells.
pub read_image-ti_image :
    (get_tl_overflow : ℕ → Result Bytes) (size : ℕ) (n : Node) (children : List ℕ) (right : ℕ)
    (more : List ℕ)
    → n.type ≢ table_leaf
    → n.child_addrs ≡ children ++ right ∷ more
    → length children ≡ nb_keys n
    → nb_keys n ≤ 5
    → All FitsKey n.key_vals
    → All FitsPage children
    → right < 2 ^ 64
    → n.parent_addr < 2 ^ 64
    → 456 ≤ size
    → (do page ← ti_image 512 size n; read_image get_tl_overflow 512 page)
      ≡ ok (keys_only n children right)
read_image-ti_image get_tl_overflow size n children right more type held same few hk hc hr hp room =
    let (zeros, image, long) = ti_image-fields size n children right more held same few room in
    let header = btree_header n.parent_addr n.type (nb_keys n) right in
    let cells : read_ti_cells (nb_keys n) 512
          (fields header (cells_of n.key_vals children ++ zeros)) 24
        ≡ ok (map key_only n.key_vals, children) =
      read_ti_cells-cells_of n.key_vals children (fields header []) zeros 512 24 (sym same) hk hc
        refl (omega arith) in
    ap (λ r. r >>= read_image get_tl_overflow 512) image
    ∙ read_image-btree_header get_tl_overflow 512 n.parent_addr n.type (nb_keys n) right _ hp
        (omega arith) hr
    ∙ read_typed-other get_tl_overflow 512 _ n.parent_addr (nb_keys n) right n.type type few _ _
        cells
