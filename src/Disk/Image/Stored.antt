-- ===== src/Disk/Image/Stored.antt =====
-- write_ti_node and read_node (server-side/diskio/diskio.c) through the file.
use yacdb.Common.{
  ℕ, ◌^◌, ◌<◌, ◌≤◌, ◌≡◌, ◌≢◌, refl, sym, ap, ◌∙◌, List, ◌∷◌, ◌++◌, length, Bytes, arith, All, ltb,
  leb, lt→ltb, le→leb, true, false, none, set, take_of_length-le,
}
use yacdb.Common.Memory.{ok, ◌>>=◌}
use yacdb.Disk.{Node, table_leaf, nb_keys, yacdb_page_size}
use yacdb.Disk.Pages.{Db, page_bytes, read_page, write_page}
use yacdb.Disk.Pages.Chain.{IsFile, get_elem?-set}
use yacdb.Disk.Cache.{NodeCache, get_from_cache}
use yacdb.Disk.Cache.Laws.{IsCache}
use yacdb.Disk.Cache.Recall.{add_to_cache-IsCache, get_from_cache-IsCache}
use yacdb.Disk.Image.{
  fields, btree_header, ti_image, write_ti_node, read_image, get_overflow_data, read_node,
}
use yacdb.Disk.Image.Interior.{
  cells_of, FitsKey, FitsPage, keys_only, ti_image-fields, read_image-ti_image,
}

-- A page that is written in place is read back.
pub read_page-write_page :
    (db : Db) (addr : ℕ) (rpage : Bytes)
    → length db.pages ≡ db.header.nb_pages
    → addr < db.header.nb_pages
    → length rpage ≡ page_bytes db.header.page_size addr
    → (after : Db) × (write_page db addr rpage ≡ ok after)
      × (read_page after addr ≡ ok rpage)
      × (after.header ≡ db.header)
unfolding write_page read_page
read_page-write_page db addr rpage full inside size =
    let fits : leb (page_bytes db.header.page_size addr) (length rpage) ≡ true =
      le→leb _ _ (omega arith) in
    let held : ltb addr (length db.pages) ≡ true = lt→ltb _ _ (omega arith) in
    let known : leb db.header.nb_pages addr ≡ false = ground arith in
    (
      record db { pages = set db.pages addr rpage },
      rw (fits, held, take_of_length-le (page_bytes db.header.page_size addr) rpage (omega arith))
          refl,
      rw (known, get_elem?-set db.pages addr rpage (omega arith)) refl,
      refl,
    )

pub page_bytes-le : (addr : ℕ) → 456 ≤ page_bytes yacdb_page_size addr
page_bytes-le addr = ground arith

-- An interior or index node of at most five keys below 2 ^ 32, whose array holds a child for each
-- key and the right one, is written into a page of a well-formed file, and a read_node that misses
-- the cache gives it back from there, without the values. The cache has no address twice and is
-- within its limit; overflow pages are not read.
pub read_node-write_ti_node :
    (depth : ℕ) (db : Db) (free : List ℕ) (cache : NodeCache) (addr : ℕ) (n : Node)
    (children : List ℕ) (right : ℕ) (more : List ℕ)
    → IsFile db free
    → addr < db.header.nb_pages
    → IsCache db.header.default_cache_size cache
    → (get_from_cache addr cache).0 ≡ none
    → n.type ≢ table_leaf
    → n.child_addrs ≡ children ++ right ∷ more
    → length children ≡ nb_keys n
    → nb_keys n ≤ 5
    → All FitsKey n.key_vals
    → All FitsPage children
    → right < 2 ^ 64
    → n.parent_addr < 2 ^ 64
    → (after : Db) × (later : NodeCache) × (write_ti_node db n addr ≡ ok after)
      × (read_node depth after cache addr ≡ ok (keys_only n children right, later))
      × IsCache db.header.default_cache_size later
unfolding write_ti_node read_node
read_node-write_ti_node depth db free cache addr n children right more file inside inv miss type
      held same few hk hc hr hp =
    let size = page_bytes db.header.page_size addr in
    let room : 456 ≤ size = rw (file.sized_512) (page_bytes-le addr) in
    let (zeros, image, long) = ti_image-fields size n children right more held same few room in
    let page =
      fields (btree_header n.parent_addr n.type (nb_keys n) right)
        (cells_of n.key_vals children ++ zeros) in
    let (after, written, kept, header) =
      read_page-write_page db addr page file.complete inside long in
    let whole : after.header.page_size ≡ 512 = ap (λ h. h.page_size) header ∙ file.sized_512 in
    let parsed : read_image (get_overflow_data depth after) 512 page
        ≡ ok (keys_only n children right) =
      ap (λ r. r >>= read_image (get_overflow_data depth after) 512) (sym image)
      ∙ read_image-ti_image (get_overflow_data depth after) size n children right more type held
          same few hk hc hr hp room in
    let limit : after.header.default_cache_size ≡ db.header.default_cache_size =
      ap (λ h. h.default_cache_size) header in
    let moved : IsCache db.header.default_cache_size (get_from_cache addr cache).1 =
      (get_from_cache-IsCache db.header.default_cache_size addr addr cache inv).1 in
    let (later, added, shape, back) =
      add_to_cache-IsCache db.header.default_cache_size (keys_only n children right) addr
        (get_from_cache addr cache).1 moved in
    let image_512 : ti_image db.header.page_size size n ≡ ok page =
      ap (λ s. ti_image s size n) file.sized_512 ∙ image in
    (after, later, rw image_512 written, rw (miss, kept, whole, parsed, limit, added) refl, back)
