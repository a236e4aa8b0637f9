-- ===== src/Disk/Image/Write.antt =====
-- write_overflow and write_tl_node (server-side/diskio/diskio.c). `value` is the memory
-- from a pointer to the end of its allocation, `buffer` is a new page from malloc. write_tl_node does
-- not hand back the lists of overflow pages, which it changes in the caller's node; callers free it.
use yacdb.Common.{
  Bool, true, false, ℕ, zero, suc, ◌+◌, ◌-◌, ◌*◌, ◌%◌, ◌^◌, List, [], ◌∷◌, ◌++◌, ltb, ◌==◌,
  if◌then◌else◌, length, drop, get_elem?, Bytes, le_bytes,
}
use yacdb.Common.Memory.{Result, ok, failed, fault, ◌>>=◌, load}
use yacdb.Disk.{
  Node, nb_keys, KeyValue, PageType, table_leaf, no_page, btree_header_size, cell_header_size,
}
use yacdb.Disk.Pages.{Db, page_bytes, write_page, create_addr, free_linked_overflow_pages}
use yacdb.Disk.Image.{fields, btree_header, tl_cell_header, on_page, element, write_ti_node}

abbrev pub actual_size : Db → ℕ
actual_size db = db.header.page_size - 8

-- The page at the head of the list, or a new one; an error of create_addr is not looked at.
abbrev new_page : Db → Result (ℕ × Db) → Result (Db × ℕ)
new_page db (ok (page, made)) = ok (made, page)
new_page db failed = ok (db, no_page)
new_page db fault = fault

abbrev pub first_page : Db → List ℕ → Result (Db × ℕ × List ℕ)
first_page db (page ∷ next) = ok (db, page, next)
first_page db [] = do (made, page) ← new_page db (create_addr db); ok (made, page, [])

abbrev pub page_of : List ℕ → ℕ
page_of [] = no_page
page_of (page ∷ next) = page

-- The copy into the new page and its write: always `actual_size` bytes of the value. `fseek` refuses
-- the offset of `(Page) -1`. The flag says whether the page was written.
abbrev pub fill_overflow : Db → Bytes → ℕ → ℕ → Result (Db × Bool)
fill_overflow db value page link = do
  bytes ← load value 0 (actual_size db)
  if page == no_page
      then ok (db, false)
      else (do written ← write_page db page (le_bytes 8 link ++ bytes); ok (written, true))

-- The pages of the list afterwards, and whether the call returned 0. The result of the inner call is
-- not looked at. At most `depth` calls are nested, as many as the stack holds.
unfoldable pub write_overflow : ℕ → Bytes → Db → Bytes → ℕ → List ℕ → Result (Db × List ℕ × Bool)
write_overflow zero buffer db value size overflow = fault
write_overflow (suc depth) buffer db value size overflow = do
  (made, page, next) ← first_page db overflow
  elim (ltb (actual_size made) size) [
    | true ↦ do
      (inner, pages, _) ←
          write_overflow depth buffer made (drop (actual_size made) value) (size - actual_size made)
            next
      (written, done) ← fill_overflow inner value page (page_of pages)
      ok (written, page ∷ pages, done)
    | false ↦ do
      freed ← free_linked_overflow_pages buffer made next
      (written, done) ← fill_overflow freed value page 0
      ok (written, page ∷ next, done)
  ]

-- The loop of write_tl_node: the cell of each value, cut where the page is full; `cell->size` is an
-- unsigned int, and `cell->overflow` stays 0.
unfoldable pub tl_cells : ℕ → Bytes → Db → ℕ → List KeyValue → Result (Db × Bytes)
tl_cells depth buffer db available [] = ok (db, [])
tl_cells depth buffer db available (kv ∷ kvs) =
    let size = length kv.value % 2 ^ 32 in
    elim (ltb available size) [
      | true ↦ do
        (over, _, _) ←
            write_overflow depth buffer db (drop available kv.value) (length kv.value - available)
              kv.overflow
        bytes ← load kv.value 0 available
        (written, rest) ← tl_cells depth buffer over 0 kvs
        ok (written, fields (tl_cell_header kv.key available 0) (bytes ++ rest))
      | false ↦ do
        freed ← free_linked_overflow_pages buffer db kv.overflow
        bytes ← load kv.value 0 size
        (written, rest) ← tl_cells depth buffer freed (available - size) kvs
        ok (written, fields (tl_cell_header kv.key size 0) (bytes ++ rest))
    ]

unfoldable pub write_tl_node : ℕ → Bytes → Db → Node → ℕ → Result Db
write_tl_node depth buffer db n addr =
    let min_size = btree_header_size + cell_header_size * nb_keys n in
    let size = page_bytes db.header.page_size addr in
    if ltb db.header.page_size min_size then failed else (do
      right ← element (get_elem? n.child_addrs 0)
      (cut, cells) ← tl_cells depth buffer db (size - min_size) n.key_vals
      rpage ← on_page size (fields (btree_header n.parent_addr table_leaf (nb_keys n) right) cells)
      write_page cut addr rpage)

-- The two kinds of page by the type of the node.
abbrev pub write_typed : ℕ → Bytes → Db → Node → ℕ → PageType → Result Db
write_typed depth buffer db n addr table_leaf = write_tl_node depth buffer db n addr
write_typed depth buffer db n addr _ = write_ti_node db n addr
