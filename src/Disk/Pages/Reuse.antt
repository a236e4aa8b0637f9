-- ===== src/Disk/Pages/Reuse.antt =====
-- What the callers of create_addr and free_page (server-side/diskio/diskio.c) rely on: a page in use
-- is never given out, and what is freed is given out again.
use yacdb.Common.{
  ℕ, ◌^◌, ◌<◌, ◌≡◌, ◌≢◌, refl, sym, ap, ◌∙◌, List, [], ◌∷◌, ◌++◌, length, get_elem?, replicate,
  Bytes, arith, length-append,
}
use yacdb.Common.Memory.{ok, ◌>>=◌}
use yacdb.Disk.{yacdb_page_size}
use yacdb.Disk.Pages.{Db, page_bytes, create_addr, free_page, free_linked_overflow_pages}
use yacdb.Disk.Pages.Chain.{NotIn, IsFile, get_elem?-append_lt}
use yacdb.Disk.Pages.Alloc.{create_addr-IsFile, create_addr-grows, free_page-IsFile}

-- On a well-formed file of less than 2 ^ 31 pages, create_addr succeeds, leaves a well-formed file
-- whose header is saved, and returns a page of it that is not free; a page `q` in use before is
-- another one, and keeps its bytes.
pub create_addr-fresh :
    (db : Db) (free : List ℕ) (q : ℕ)
    → IsFile db free
    → db.header.nb_pages < 2 ^ 31
    → q < db.header.nb_pages
    → NotIn q free
    → (p : ℕ) × (after : Db) × (rest : List ℕ) × (create_addr db ≡ ok (p, after))
      × IsFile after rest
      × (after.saved ≡ after.header)
      × (p < after.header.nb_pages)
      × NotIn p rest
      × (q ≢ p)
      × (get_elem? after.pages q ≡ get_elem? db.pages q)
create_addr-fresh db [] q h room used out =
    let (after, made, inv, grown, saved) = create_addr-grows db h room in
    (
      db.header.nb_pages,
      after,
      [],
      made,
      inv,
      saved,
      omega (
        arith,
        sym inv.complete,
        ap length grown,
        length-append db.pages (replicate (page_bytes yacdb_page_size db.header.nb_pages) 0 ∷ []),
        h.complete,
      ),
      tt,
      omega arith,
      ap (λ ps. get_elem? ps q) grown
          ∙ get_elem?-append_lt db.pages _ q (omega (arith, h.complete)),
    )
create_addr-fresh db (p ∷ free) q h room used out =
    let (after, made, inv, same, saved) = create_addr-IsFile db p free h in
    (
      p,
      after,
      free,
      made,
      inv,
      saved,
      omega (arith, sym inv.complete, ap length same, h.complete, h.inside.0.1),
      h.distinct.0,
      λ e. out.0 (sym e),
      ap (λ ps. get_elem? ps q) same,
    )

-- On a well-formed file, a page that free_page takes is the one that create_addr gives next, after which the chain of free
-- pages and their count are as before. The page is in use, not the first one, and `buffer` is a
-- page long.
pub create_addr-free_page :
    (buffer : Bytes) (db : Db) (addr : ℕ) (free : List ℕ)
    → length buffer ≡ yacdb_page_size
    → IsFile db free
    → 0 < addr
    → addr < db.header.nb_pages
    → NotIn addr free
    → (after : Db) × ((do freed ← free_page buffer db addr; create_addr freed) ≡ ok (addr, after))
      × IsFile after free
      × (after.header.nb_free_pages ≡ db.header.nb_free_pages)
create_addr-free_page buffer db addr free sz h pos inside out =
    let (freed, e, inv, nb, pages) = free_page-IsFile buffer db addr free sz h pos inside out in
    let (after, made, back, same, saved) = create_addr-IsFile freed addr free inv in
    (after, ap (λ r. r >>= create_addr) e ∙ made, back, back.counted ∙ sym h.counted)

-- The pages are in use, each stands once, and none is the first page.
abbrev pub AreUsed : Db → List ℕ → List ℕ → Type 0
AreUsed db free [] = Unit
AreUsed db free (p ∷ ps) =
    (0 < p) × (p < db.header.nb_pages) × NotIn p free × NotIn p ps × AreUsed db free ps

append-NotIn : (p : ℕ) (xs ys : List ℕ) → NotIn p xs → NotIn p ys → NotIn p (xs ++ ys)
append-NotIn p [] ys h k = k
append-NotIn p (x ∷ xs) ys h k = (h.0, append-NotIn p xs ys h.1 k)

-- On a well-formed file, free_linked_overflow_pages of pages in use, each once and none the first
-- page, puts the whole list in front of the chain of free pages, in its order. The buffer is a page
-- long.
pub free_linked_overflow_pages-IsFile :
    (buffer : Bytes) (db : Db) (overflow free : List ℕ)
    → length buffer ≡ yacdb_page_size
    → IsFile db free
    → AreUsed db free overflow
    → (after : Db) × (free_linked_overflow_pages buffer db overflow ≡ ok after)
      × IsFile after (overflow ++ free)
      × (after.header.nb_pages ≡ db.header.nb_pages)
unfolding free_linked_overflow_pages
free_linked_overflow_pages-IsFile buffer db [] free sz h used = (db, refl, h, refl)
free_linked_overflow_pages-IsFile buffer db (p ∷ ps) free sz h (pos, inside, out, once, used) =
    let (rest, e, inv, nb) = free_linked_overflow_pages-IsFile buffer db ps free sz h used in
    let (after, freed, back, same, pages) =
      free_page-IsFile buffer rest p (ps ++ free) sz inv pos (omega (arith, nb))
        (append-NotIn p ps free once out) in
    (after, ap (λ r. r >>= (λ d. free_page buffer d p)) e ∙ freed, back, same ∙ nb)
