-- ===== src/Disk/Pages.antt =====
-- server-side/diskio/diskio.c: the file as its pages, the header in memory and as saved, and the
-- chain of free pages. A page that is freed keeps the indeterminate bytes of its buffer, which are
-- an argument. Offset 0 holds the saved header; page 0 is what follows it.
pub mod Chain
pub mod Alloc
pub mod Reuse
pub mod Shared
pub mod Run
use yacdb.Common.{
  ℕ, zero, suc, ◌+◌, ◌-◌, ◌*◌, ◌%◌, ◌^◌, Option, none, some, List, [], ◌∷◌, ◌++◌, ltb, leb, ◌==◌,
  if◌then◌else◌, length, take, set, get_elem?, replicate, Bytes, le_bytes, from_le,
}
use yacdb.Common.Memory.{Result, ok, failed, fault, ◌>>=◌, load, store}
use yacdb.Disk.{Header, header_size, yacdb_page_size, yacdb_default_cache_size}

-- `db.header`, and the file.
pub record Db : Type 0 where
  pub header : Header
  pub saved : Header
  pub pages : List Bytes

-- The bytes of a page that are not the header of the file.
abbrev pub page_bytes : ℕ → ℕ → ℕ
page_bytes page_size addr = if addr == 0 then page_size - header_size else page_size

abbrev of_file : Option Bytes → Result Bytes
of_file none = failed
of_file (some page) = ok page

unfoldable pub read_page : Db → ℕ → Result Bytes
read_page db addr =
    if leb db.header.nb_pages addr then failed else of_file (get_elem? db.pages addr)

unfoldable pub save_header : Db → Db
save_header db = record db { saved = db.header }

abbrev pub zero_pages : ℕ → ℕ → ℕ → List Bytes
zero_pages page_size from zero = []
zero_pages page_size from (suc n) =
    replicate (page_bytes page_size from) 0 ∷ zero_pages page_size (from + 1) n

-- `ftruncate` to a number of pages: the file is cut, or grows by zeros.
abbrev pub truncate_pages : ℕ → ℕ → List Bytes → List Bytes
truncate_pages page_size n pages =
    take n pages ++ zero_pages page_size (length pages) (n - length pages)

-- The page is written, if it has the bytes.
abbrev written_page : Db → Bytes → ℕ → List Bytes → Result Db
written_page db rpage size pages =
    if leb size (length rpage) then ok (record db { pages = pages }) else fault

-- The file grows when a page past its end is written. `fseek` refuses an offset that is negative as
-- a long, as that of (Page)-1 is.
unfoldable pub write_page : Db → ℕ → Bytes → Result Db
write_page db addr rpage =
    let size = page_bytes db.header.page_size addr in
    if ltb addr (length db.pages)
    then written_page db rpage size (set db.pages addr (take size rpage))
    else if leb (2 ^ 63) (addr * db.header.page_size % 2 ^ 64)
    then failed
    else written_page db rpage size
        (truncate_pages db.header.page_size addr db.pages ++ take size rpage ∷ [])

-- An `int` made a `size_t`.
abbrev pub extend_int : ℕ → ℕ
extend_int v = if ltb v (2 ^ 31) then v else 2 ^ 64 - 2 ^ 32 + v

-- The next free page that a free page names: `*(int *)rpage`.
abbrev pub read_link : Bytes → Result ℕ
read_link rpage = do bytes ← load rpage 0 4; ok (extend_int (from_le bytes))

abbrev take_free : Db → Result (ℕ × Db)
take_free db = do
  rpage ← read_page db db.header.fst_free_page
  link ← read_link rpage
  ok (
    db.header.fst_free_page,
    save_header (record db {
      header = record db.header {
        fst_free_page = link;
        nb_free_pages = db.header.nb_free_pages - 1;
      };
    }),
  )

abbrev grow : Db → ℕ × Db
grow db = (
  db.header.nb_pages,
  save_header (record db {
    header = record db.header { nb_pages = db.header.nb_pages + 1 };
    pages = truncate_pages db.header.page_size (db.header.nb_pages + 1) db.pages;
  }),
)

unfoldable pub create_addr : Db → Result (ℕ × Db)
create_addr db = if ltb 0 db.header.nb_free_pages then take_free db else ok (grow db)

-- The header is not saved. `buffer` is the memory that `malloc` returned.
unfoldable pub free_page : Bytes → Db → ℕ → Result Db
free_page buffer db addr = do
  rpage ← store buffer 0 (le_bytes 4 db.header.fst_free_page)
  written ← write_page db addr rpage
  ok (record written {
    header = record written.header {
      nb_free_pages = db.header.nb_free_pages + 1;
      fst_free_page = addr;
    };
  })

-- The overflow pages of the node are kept.
unfoldable pub remove_node : Bytes → Db → ℕ → Result Db
remove_node buffer db addr = free_page buffer db addr

-- The last page of the list is freed first.
unfoldable pub free_linked_overflow_pages : Bytes → Db → List ℕ → Result Db
free_linked_overflow_pages buffer db [] = ok db
free_linked_overflow_pages buffer db (page ∷ next) = do
  rest ← free_linked_overflow_pages buffer db next
  free_page buffer rest page

-- A file that is created has one page.
abbrev pub new_header : Header
new_header = record {
  page_size = yacdb_page_size;
  nb_pages = 1;
  default_cache_size = yacdb_default_cache_size;
  nb_free_pages = 0;
  fst_free_page = 0;
}

-- init_db on a file that exists, with the header it holds and its pages, or on none.
unfoldable pub init_db : Option (Header × List Bytes) → Db
init_db none = save_header (record {
  header = new_header;
  saved = new_header;
  pages = truncate_pages yacdb_page_size 1 [];
})
init_db (some (saved, pages)) = record { header = saved; saved = saved; pages = pages }
