-- ===== src/Disk/Pages/Run.antt =====
-- Every sequence of create_addr, free_page and write_page (server-side/diskio/diskio.c) on a new
-- database: no page is given out twice and none is lost.
use yacdb.Common.{ℕ, ◌^◌, ◌<◌, ◌≡◌, sym, none, List, [], ◌∷◌, ◌++◌, length, Bytes}
use yacdb.Common.Memory.{ok}
use yacdb.Disk.{yacdb_page_size}
use yacdb.Disk.Pages.{Db, write_page, create_addr, free_page, init_db}
use yacdb.Disk.Pages.Shared.{
  IsShared, init_db-IsFile, pages_init_db, create-IsShared, free-IsShared, write-IsShared,
}

-- The databases that a client reaches, with the pages given to it and not yet freed.
pub data Run : Db → List ℕ → Type 0 where
  opened : Run (init_db none) []
  created :
      {db after : Db} {used : List ℕ} {p : ℕ}
      → Run db used
      → db.header.nb_pages < 2 ^ 31
      → create_addr db ≡ ok (p, after)
      → Run after (p ∷ used)
  freed :
      {db after : Db} (newer older : List ℕ) (p : ℕ)
      → Run db (newer ++ p ∷ older)
      → (buffer : Bytes) → length buffer ≡ yacdb_page_size
      → free_page buffer db p ≡ ok after
      → Run after (newer ++ older)
  written :
      {db after : Db} (newer older : List ℕ) (p : ℕ)
      → Run db (newer ++ p ∷ older)
      → (rpage : Bytes) → write_page db p rpage ≡ ok after
      → Run after (newer ++ p ∷ older)

-- After any sequence of successful calls of create_addr, of free_page and of write_page of pages in
-- use on a new database, kept within 2 ^ 31 pages, the file is well-formed, the pages that create_addr gave
-- and that were not freed are distinct, none of them is free or the first page, and they, the
-- free pages and the first page are all pages of the file.
pub Run-IsShared : (db : Db) (used : List ℕ) → Run db used → (free : List ℕ) × IsShared db used free
Run-IsShared db used Run.opened = (
  [],
  record {
    file = init_db-IsFile;
    used_inside = tt;
    apart = tt;
    used_distinct = tt;
    none_lost = sym pages_init_db;
  },
)
Run-IsShared db used (Run.created run room e) =
    let (free, s) = Run-IsShared _ _ run in create-IsShared _ _ _ free _ s room e
Run-IsShared db used (Run.freed newer older p run buffer sz e) =
    let (free, s) = Run-IsShared _ _ run in
    (p ∷ free, free-IsShared _ _ newer older free p buffer s sz e)
Run-IsShared db used (Run.written newer older p run rpage e) =
    let (free, s) = Run-IsShared _ _ run in (free, write-IsShared _ _ newer older free p rpage s e)
