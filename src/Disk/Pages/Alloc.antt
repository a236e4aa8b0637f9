-- ===== src/Disk/Pages/Alloc.antt =====
-- create_addr, free_page and free_linked_overflow_pages (server-side/diskio/diskio.c) on the chain
-- of free pages.
use yacdb.Common.{
  ℕ, ◌+◌, ◌-◌, ◌^◌, ◌<◌, ◌≤◌, ◌≡◌, refl, ap, ◌∙◌, some, List, [], ◌∷◌, ◌++◌, ltb, leb, length, drop,
  set, get_elem?, replicate, Bytes, le_bytes, length-le_bytes, arith, true, false, length-set,
  length-append, take_of_length-le, length-replicate, length-drop, Bool-cases, inl, inr, sym,
}
use yacdb.Common.Memory.{Result, ok, failed, fault, store, ok_injective, ◌>>=◌}
use yacdb.Disk.{yacdb_page_size}
use yacdb.Disk.Pages.{
  Db, page_bytes, read_link, read_page, save_header, write_page, create_addr, free_page,
  truncate_pages,
}
use yacdb.Disk.Pages.Chain.{
  NotIn, IsFile, get_elem?-set, set-Chain, set-Sized, append-Sized, read_link-le_bytes,
}

-- With a free page, create_addr returns the first one and takes it off the chain; no page of the
-- file changes, and the header is saved.
pub create_addr-IsFile :
    (db : Db) (p : ℕ) (free : List ℕ)
    → IsFile db (p ∷ free)
    → (after : Db) × (create_addr db ≡ ok (p, after))
      × IsFile after free
      × (after.pages ≡ db.pages)
      × (after.saved ≡ after.header)
unfolding create_addr read_page save_header
create_addr-IsFile db p free h =
    let (page, link, e, held, read, rest) = h.chain in
    let some_free : ltb 0 db.header.nb_free_pages ≡ true = ground (arith, h.counted) in
    let readable : leb db.header.nb_pages db.header.fst_free_page ≡ false =
      ground (arith, h.inside.0.1, e) in
    let there : get_elem? db.pages db.header.fst_free_page ≡ some page =
      ap (get_elem? db.pages) e ∙ held in
    let header = record db.header {
      fst_free_page = link;
      nb_free_pages = db.header.nb_free_pages - 1;
    } in
    (
      record db { header = header; saved = header },
      rw (some_free, readable, there, read, e) refl,
      record {
        sized_512 = h.sized_512;
        complete = h.complete;
        addressable = h.addressable;
        sized = h.sized;
        chain = rest;
        counted = omega (arith, h.counted);
        distinct = h.distinct.1;
        inside = h.inside.1;
      },
      refl,
      refl,
    )

truncate-grows :
    (size n : ℕ) (pages : List Bytes)
    → length pages ≡ n
    → truncate_pages size (n + 1) pages ≡ pages ++ replicate (page_bytes size n) 0 ∷ []
truncate-grows size n pages e =
    let one : n + 1 - length pages ≡ 1 = omega arith in
    rw (one, take_of_length-le (n + 1) pages (omega arith), e) refl

-- Without a free page, the file grows by one page of zeros.
pub create_addr-grows :
    (db : Db)
    → IsFile db []
    → db.header.nb_pages < 2 ^ 31
    → (after : Db) × (create_addr db ≡ ok (db.header.nb_pages, after))
      × IsFile after []
      × (after.pages ≡ db.pages ++ replicate (page_bytes yacdb_page_size db.header.nb_pages) 0 ∷ [])
      × (after.saved ≡ after.header)
unfolding create_addr save_header
create_addr-grows db h room =
    let pages = db.pages ++ replicate (page_bytes yacdb_page_size db.header.nb_pages) 0 ∷ [] in
    let grown : truncate_pages db.header.page_size (db.header.nb_pages + 1) db.pages ≡ pages =
      truncate-grows db.header.page_size db.header.nb_pages db.pages h.complete
      ∙ ap (λ s. db.pages ++ replicate (page_bytes s db.header.nb_pages) 0 ∷ []) h.sized_512 in
    let no_free : ltb 0 db.header.nb_free_pages ≡ false = ground (arith, h.counted) in
    let header = record db.header { nb_pages = db.header.nb_pages + 1 } in
    (
      record { header = header; saved = header; pages = pages },
      rw (no_free, grown) refl,
      record {
        sized_512 = h.sized_512;
        complete = omega (
          arith,
          length-append db.pages (replicate (page_bytes yacdb_page_size db.header.nb_pages) 0 ∷ []),
          h.complete,
        );
        addressable = omega arith;
        sized =
            append-Sized 0 db.pages _ h.sized
              (length-replicate _ 0 ∙ ap (page_bytes yacdb_page_size) (omega (arith, h.complete)));
        chain = h.chain;
        counted = h.counted;
        distinct = tt;
        inside = tt;
      },
      refl,
      refl,
    )

store_front :
    (buffer bytes : Bytes)
    → length bytes ≤ length buffer
    → store buffer 0 bytes ≡ ok (bytes ++ drop (length bytes) buffer)
unfolding store
store_front buffer bytes h = ground arith

first-below : (db : Db) (free : List ℕ) → IsFile db free → db.header.fst_free_page < 2 ^ 31
first-below db [] h = h.chain
first-below db (p ∷ free) h =
    let (page, link, e, held, read, rest) = h.chain in omega (arith, e, h.inside.0.1, h.addressable)

-- A page that is freed becomes the first free page, and no other page changes.
pub free_page-IsFile :
    (buffer : Bytes) (db : Db) (addr : ℕ) (free : List ℕ)
    → length buffer ≡ yacdb_page_size
    → IsFile db free
    → 0 < addr
    → addr < db.header.nb_pages
    → NotIn addr free
    → (after : Db) × (free_page buffer db addr ≡ ok after)
      × IsFile after (addr ∷ free)
      × (after.header.nb_pages ≡ db.header.nb_pages)
      × (after.pages ≡ set db.pages addr (le_bytes 4 db.header.fst_free_page ++ drop 4 buffer))
unfolding free_page write_page
free_page-IsFile buffer db addr free sz h pos inside out =
    let page = le_bytes 4 db.header.fst_free_page ++ drop 4 buffer in
    let small : db.header.fst_free_page < 2 ^ 31 = first-below db free h in
    let full : length page ≡ yacdb_page_size = omega (
      arith,
      length-append (le_bytes 4 db.header.fst_free_page) (drop 4 buffer),
      length-le_bytes 4 db.header.fst_free_page,
      length-drop 4 buffer,
    ) in
    let whole : page_bytes db.header.page_size addr ≡ yacdb_page_size =
      ground (arith, h.sized_512) in
    let linked : store buffer 0 (le_bytes 4 db.header.fst_free_page) ≡ ok page =
      store_front buffer (le_bytes 4 db.header.fst_free_page)
        (omega (arith, length-le_bytes 4 db.header.fst_free_page, sz)) in
    let body : yacdb_page_size ≡ page_bytes yacdb_page_size (0 + addr) = ground arith in
    let fits : leb yacdb_page_size (length page) ≡ true = rw full refl in
    let held : ltb addr (length db.pages) ≡ true = ground (arith, h.complete) in
    let header = record db.header {
      nb_free_pages = db.header.nb_free_pages + 1;
      fst_free_page = addr;
    } in
    (
      record db { header = header; pages = set db.pages addr page },
      rw (linked, whole, fits, held, take_of_length-le yacdb_page_size page (omega (arith, full)))
          refl,
      record {
        sized_512 = h.sized_512;
        complete = length-set db.pages addr page ∙ h.complete;
        addressable = h.addressable;
        sized = set-Sized 0 db.pages addr page (full ∙ body) h.sized;
        chain = (
          page,
          db.header.fst_free_page,
          refl,
          get_elem?-set db.pages addr page (omega (arith, h.complete)),
          read_link-le_bytes db.header.fst_free_page (drop 4 buffer) small,
          set-Chain db.pages db.header.fst_free_page free addr page out h.chain,
        );
        counted = omega (arith, h.counted);
        distinct = (out, h.distinct);
        inside = ((pos, inside), h.inside);
      },
      refl,
      refl,
    )

-- A free page is taken: the next one comes first.
abbrev taken : Db → ℕ → ℕ × Db
taken db next = (
  db.header.fst_free_page,
  save_header (record db {
    header = record db.header { fst_free_page = next; nb_free_pages = db.header.nb_free_pages - 1 };
  }),
)

-- The header after a free page was taken.
taken_header :
    (db : Db) (link : Result ℕ) (p : ℕ) (after : Db)
    → (do next ← link; ok (taken db next)) ≡ ok (p, after)
    → (after.header.nb_pages ≡ db.header.nb_pages)
      × (after.header.default_cache_size ≡ db.header.default_cache_size)
unfolding save_header
taken_header db (ok next) p after e = (
  ap (λ (r : ℕ × Db). r.1.header.nb_pages) (ok_injective (sym e)),
  ap (λ (r : ℕ × Db). r.1.header.default_cache_size) (ok_injective (sym e)),
)
taken_header db failed p after e = absurd (cc)
taken_header db fault p after e = absurd (cc)

-- The file grows by at most one page, and the limit of the cache stays.
pub create_addr-header :
    (db after : Db) (p : ℕ)
    → create_addr db ≡ ok (p, after)
    → (db.header.nb_pages ≤ after.header.nb_pages)
      × (after.header.nb_pages ≤ db.header.nb_pages + 1)
      × (after.header.default_cache_size ≡ db.header.default_cache_size)
unfolding create_addr save_header
create_addr-header db after p e = elim (Bool-cases (ltb 0 db.header.nb_free_pages)) [
  | inl taken ↦ by_page (read_page db db.header.fst_free_page) (rw (create_addr, taken) at e)
  | inr grown ↦
      let e' = ok_injective (sym (rw (create_addr, grown) at e)) in
      (
        omega (arith, ap (λ (r : ℕ × Db). r.1.header.nb_pages) e'),
        omega (arith, ap (λ (r : ℕ × Db). r.1.header.nb_pages) e'),
        ap (λ (r : ℕ × Db). r.1.header.default_cache_size) e',
      )
]
  where
    by_page :
        (page : Result Bytes)
        → (do rpage ← page; next ← read_link rpage; ok (taken db next)) ≡ ok (p, after)
        → (db.header.nb_pages ≤ after.header.nb_pages)
          × (after.header.nb_pages ≤ db.header.nb_pages + 1)
          × (after.header.default_cache_size ≡ db.header.default_cache_size)
    by_page (ok rpage) k =
        let (nb, limit) = taken_header db (read_link rpage) p after k in
        (omega (arith, nb), omega (arith, nb), limit)
    by_page failed k = absurd (cc)
    by_page fault k = absurd (cc)
