-- ===== src/Disk/Pages/Chain.antt =====
-- The chain of free pages (server-side/diskio/diskio.c), and what a well-formed file is.
use yacdb.Common.{
  ℕ, zero, suc, ◌+◌, ◌^◌, ◌<◌, ◌≤◌, ◌≡◌, ◌≢◌, refl, sym, ap, ◌∙◌, some, List, [], ◌∷◌, ◌++◌, length,
  set, get_elem?, Bytes, le_bytes, from_le, from_le-le_bytes, All, arith,
}
use yacdb.Common.Memory.{ok, load, load-append}
use yacdb.Disk.{yacdb_page_size}
use yacdb.Disk.Pages.{Db, page_bytes, read_link}

-- The pages of the chain from `p`, in order. The link of the last one is not followed; it is the
-- page number that `fst_free_page` started with.
abbrev pub Chain : List Bytes → ℕ → List ℕ → Type 0
Chain pages p [] = p < 2 ^ 31
Chain pages p (q ∷ qs) =
    (page : Bytes) × (link : ℕ) × (p ≡ q)
    × (get_elem? pages q ≡ some page)
    × (read_link page ≡ ok link)
    × Chain pages link qs

-- Every page from number `i` on has its size.
abbrev pub Sized : ℕ → List Bytes → Type 0
Sized i [] = Unit
Sized i (page ∷ pages) = (length page ≡ page_bytes yacdb_page_size i) × Sized (i + 1) pages

abbrev pub NotIn : ℕ → List ℕ → Type 0
NotIn p = All (λ q. q ≢ p)

abbrev pub Distinct : List ℕ → Type 0
Distinct [] = Unit
Distinct (p ∷ ps) = NotIn p ps × Distinct ps

-- The file is as long as the header says, its page numbers are C integers, and the header's chain
-- of free pages is `free`: each once, none the first page, as many as the header counts.
pub record IsFile (db : Db) (free : List ℕ) : Type 0 where
  pub sized_512 : db.header.page_size ≡ yacdb_page_size
  pub complete : length db.pages ≡ db.header.nb_pages
  pub addressable : db.header.nb_pages ≤ 2 ^ 31
  pub sized : Sized 0 db.pages
  pub chain : Chain db.pages db.header.fst_free_page free
  pub counted : db.header.nb_free_pages ≡ length free
  pub distinct : Distinct free
  pub inside : All (λ p. (0 < p) × (p < db.header.nb_pages)) free

module _ {ℓ} {A : Type ℓ} where
  pub get_elem?-set :
      (xs : List A) (i : ℕ) (v : A) → i < length xs → get_elem? (set xs i v) i ≡ some v
  get_elem?-set [] i v h = absurd (omega arith)
  get_elem?-set (x ∷ xs) zero v h = refl
  get_elem?-set (x ∷ xs) (suc i) v h = get_elem?-set xs i v (omega arith)

  pub get_elem?-set_other :
      (xs : List A) (i j : ℕ) (v : A) → i ≢ j → get_elem? (set xs i v) j ≡ get_elem? xs j
  get_elem?-set_other [] i j v h = refl
  get_elem?-set_other (x ∷ xs) zero zero v h = absurd (h refl)
  get_elem?-set_other (x ∷ xs) zero (suc j) v h = refl
  get_elem?-set_other (x ∷ xs) (suc i) zero v h = refl
  get_elem?-set_other (x ∷ xs) (suc i) (suc j) v h =
      get_elem?-set_other xs i j v (λ e. h (ap suc e))

  pub get_elem?-lt : (xs : List A) (i : ℕ) → i < length xs → (x : A) × (get_elem? xs i ≡ some x)
  get_elem?-lt [] i h = absurd (omega arith)
  get_elem?-lt (x ∷ xs) zero h = (x, refl)
  get_elem?-lt (x ∷ xs) (suc i) h = get_elem?-lt xs i (omega arith)

  pub get_elem?-append_lt :
      (xs ys : List A) (i : ℕ) → i < length xs → get_elem? (xs ++ ys) i ≡ get_elem? xs i
  get_elem?-append_lt [] ys i h = absurd (omega arith)
  get_elem?-append_lt (x ∷ xs) ys zero h = refl
  get_elem?-append_lt (x ∷ xs) ys (suc i) h = get_elem?-append_lt xs ys i (omega arith)

-- A page that is not in the chain can be written.
pub set-Chain :
    (pages : List Bytes) (p : ℕ) (free : List ℕ) (addr : ℕ) (page : Bytes)
    → NotIn addr free
    → Chain pages p free
    → Chain (set pages addr page) p free
set-Chain pages p [] addr page out h = h
set-Chain pages p (q ∷ qs) addr page out (old, link, e, held, read, rest) = (
  old,
  link,
  e,
  get_elem?-set_other pages addr q page (λ s. out.0 (sym s)) ∙ held,
  read,
  set-Chain pages link qs addr page out.1 rest,
)

pub append-Chain :
    (pages more : List Bytes) (p : ℕ) (free : List ℕ)
    → All (λ q. q < length pages) free
    → Chain pages p free
    → Chain (pages ++ more) p free
append-Chain pages more p [] h c = c
append-Chain pages more p (q ∷ qs) h (old, link, e, held, read, rest) = (
  old,
  link,
  e,
  get_elem?-append_lt pages more q h.0 ∙ held,
  read,
  append-Chain pages more link qs h.1 rest,
)

pub set-Sized :
    (i : ℕ) (pages : List Bytes) (addr : ℕ) (page : Bytes)
    → length page ≡ page_bytes yacdb_page_size (i + addr)
    → Sized i pages
    → Sized i (set pages addr page)
set-Sized i [] addr page e h = tt
set-Sized i (old ∷ pages) zero page e h = (e ∙ ap (page_bytes yacdb_page_size) (omega arith), h.1)
set-Sized i (old ∷ pages) (suc addr) page e h =
    (h.0, set-Sized (i + 1) pages addr page (e ∙ ap (page_bytes yacdb_page_size) (omega arith)) h.1)

pub append-Sized :
    (i : ℕ) (pages : List Bytes) (page : Bytes)
    → Sized i pages
    → length page ≡ page_bytes yacdb_page_size (i + length pages)
    → Sized i (pages ++ page ∷ [])
append-Sized i [] page h e = (e ∙ ap (page_bytes yacdb_page_size) (omega arith), tt)
append-Sized i (old ∷ pages) page h e =
    (h.0, append-Sized (i + 1) pages page h.1 (e ∙ ap (page_bytes yacdb_page_size) (omega arith)))

-- The link that free_page writes is read back by create_addr: page numbers below 2 ^ 31.
pub read_link-le_bytes :
    (n : ℕ) (rest : Bytes) → n < 2 ^ 31 → read_link (le_bytes 4 n ++ rest) ≡ ok n
read_link-le_bytes n rest h =
    let e : load (le_bytes 4 n ++ rest) 0 4 ≡ ok (le_bytes 4 n) =
      load-append [] (le_bytes 4 n) rest in
    let v : from_le (le_bytes 4 n) ≡ n = from_le-le_bytes 4 n (omega arith) in
    rw (e, v) (ground arith)
