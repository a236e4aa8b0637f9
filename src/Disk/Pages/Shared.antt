-- ===== src/Disk/Pages/Shared.antt =====
-- create_addr, free_page and write_page (server-side/diskio/diskio.c) on the pages that a client has
-- in use and those of the chain of free pages.
use yacdb.Common.{
  ℕ, suc, ◌+◌, ◌^◌, ◌<◌, ◌≤◌, ◌≡◌, ◌≢◌, refl, sym, ap, ◌∙◌, subst, none, List, [], ◌∷◌, ◌++◌, ltb,
  leb, Bool-cases, length, take, set, replicate, Bytes, All, arith, true, inl, inr, length-set,
  length-append, All-append, append-All, length-take, leb→le,
}
use yacdb.Common.Memory.{ok, fault, ok_injective}
use yacdb.Disk.{Header, yacdb_page_size}
use yacdb.Disk.Pages.{Db, page_bytes, save_header, write_page, create_addr, free_page, init_db}
use yacdb.Disk.Pages.Chain.{NotIn, Distinct, IsFile, set-Chain, set-Sized}
use yacdb.Disk.Pages.Alloc.{create_addr-IsFile, create_addr-grows, free_page-IsFile}

-- The pages in use and the free ones are all pages but the first, each once.
pub record IsShared (db : Db) (used free : List ℕ) : Type 0 where
  pub file : IsFile db free
  pub used_inside : All (λ p. (0 < p) × (p < db.header.nb_pages)) used
  pub apart : All (λ p. NotIn p free) used
  pub used_distinct : Distinct used
  pub none_lost : suc (length used + length free) ≡ db.header.nb_pages

pub map-All {ℓ κ} :
    {A : Type ℓ} {P Q : A → Type κ} (f : (x : A) → P x → Q x) (xs : List A) → All P xs → All Q xs
map-All f [] h = tt
map-All f (x ∷ xs) h = (f x h.0, map-All f xs h.1)

Distinct-middle :
    (xs : List ℕ) (p : ℕ) (ys : List ℕ)
    → Distinct (xs ++ p ∷ ys)
    → NotIn p (xs ++ ys) × Distinct (xs ++ ys)
Distinct-middle [] p ys h = h
Distinct-middle (x ∷ xs) p ys h =
    let (out, rest) = Distinct-middle xs p ys h.1 in
    let (before, behind) = All-append (λ q. q ≢ x) xs (p ∷ ys) h.0 in
    ((λ e. behind.0 (sym e), out), (append-All (λ q. q ≢ x) xs ys before behind.1, rest))

module _ {κ} (P : ℕ → Type κ) (xs : List ℕ) (p : ℕ) (ys : List ℕ) (h : All P (xs ++ p ∷ ys)) where
  All-here : P p
  All-here = (All-append P xs (p ∷ ys) h).1.0

  All-others : All P (xs ++ ys)
  All-others = let (a, b) = All-append P xs (p ∷ ys) h in append-All P xs ys a b.1

pub init_db-IsFile : IsFile (init_db none) []
unfolding init_db save_header
init_db-IsFile = record {
  sized_512 = refl;
  complete = refl;
  addressable = omega arith;
  sized = (refl, tt);
  chain = omega arith;
  counted = refl;
  distinct = tt;
  inside = tt;
}

pub pages_init_db : (init_db none).header.nb_pages ≡ 1
unfolding init_db save_header
pages_init_db = refl

below_NotIn : (n : ℕ) (used : List ℕ) → All (λ p. (0 < p) × (p < n)) used → NotIn n used
below_NotIn n [] h = tt
below_NotIn n (p ∷ used) h = (omega (arith, h.0.1), below_NotIn n used h.1)

apart_cons :
    (p : ℕ) (free used : List ℕ)
    → NotIn p used
    → All (λ q. NotIn q free) used
    → All (λ q. NotIn q (p ∷ free)) used
apart_cons p free [] h k = tt
apart_cons p free (q ∷ used) h k = ((λ e. h.0 (sym e), k.0), apart_cons p free used h.1 k.1)

-- A page in use is another one than those of the chain.
not_free : (p : ℕ) (free used : List ℕ) → All (λ q. NotIn q (p ∷ free)) used → NotIn p used
not_free p free used h = map-All (λ q out e. out.0 (sym e)) used h

pub create-IsShared :
    (db after : Db) (used free : List ℕ) (p : ℕ)
    → IsShared db used free
    → db.header.nb_pages < 2 ^ 31
    → create_addr db ≡ ok (p, after)
    → (rest : List ℕ) × IsShared after (p ∷ used) rest
create-IsShared db after used [] p s room e =
    let (d, made, inv, grown, saved) = create_addr-grows db s.file room in
    let same : (db.header.nb_pages, d) ≡ (p, after) = ok_injective (sym made ∙ e) in
    let nb : d.header.nb_pages ≡ db.header.nb_pages + 1 = omega (
      arith,
      sym inv.complete,
      ap length grown,
      length-append db.pages (replicate (page_bytes yacdb_page_size db.header.nb_pages) 0 ∷ []),
      s.file.complete,
    ) in
    (
      [],
      subst (λ (r : ℕ × Db). IsShared r.1 (r.0 ∷ used) []) same
          (record {
            file = inv;
            used_inside = (
              (omega (arith, s.none_lost), omega (arith, nb)),
              map-All (λ q (lo, hi). (lo, omega (arith, nb))) used s.used_inside,
            );
            apart = (tt, map-All (λ q h. tt) used s.apart);
            used_distinct = (below_NotIn db.header.nb_pages used s.used_inside, s.used_distinct);
            none_lost = omega (arith, s.none_lost, nb);
          }),
    )
create-IsShared db after used (q ∷ free) p s room e =
    let (d, made, inv, same_pages, saved) = create_addr-IsFile db q free s.file in
    let same : (q, d) ≡ (p, after) = ok_injective (sym made ∙ e) in
    let nb : d.header.nb_pages ≡ db.header.nb_pages =
      sym inv.complete ∙ ap length same_pages ∙ s.file.complete in
    (
      free,
      subst (λ (r : ℕ × Db). IsShared r.1 (r.0 ∷ used) free) same
          (record {
            file = inv;
            used_inside = (
              (s.file.inside.0.0, omega (arith, nb, s.file.inside.0.1)),
              map-All (λ q (lo, hi). (lo, omega (arith, nb))) used s.used_inside,
            );
            apart = (s.file.distinct.0, map-All (λ q h. h.1) used s.apart);
            used_distinct = (not_free q free used s.apart, s.used_distinct);
            none_lost = omega (arith, s.none_lost, nb);
          }),
    )

pub free-IsShared :
    (db after : Db) (newer older free : List ℕ) (p : ℕ) (buffer : Bytes)
    → IsShared db (newer ++ p ∷ older) free
    → length buffer ≡ yacdb_page_size
    → free_page buffer db p ≡ ok after
    → IsShared after (newer ++ older) (p ∷ free)
free-IsShared db after newer older free p buffer s sz e =
    let (pos, inside) = All-here _ newer p older s.used_inside in
    let (d, done, inv, nb, pages) =
      free_page-IsFile buffer db p free sz s.file pos inside (All-here _ newer p older s.apart) in
    let same : d ≡ after = ok_injective (sym done ∙ e) in
    let (once, distinct) = Distinct-middle newer p older s.used_distinct in
    subst (λ r. IsShared r (newer ++ older) (p ∷ free)) same
      (record {
        file = inv;
        used_inside =
            map-All (λ q (lo, hi). (lo, omega (arith, nb))) (newer ++ older)
              (All-others _ newer p older s.used_inside);
        apart = apart_cons p free (newer ++ older) once (All-others _ newer p older s.apart);
        used_distinct = distinct;
        none_lost =
            omega
              (arith, s.none_lost, nb, length-append newer (p ∷ older), length-append newer older);
      })

cut : (n : ℕ) (bytes : Bytes) → n ≤ length bytes → length (take n bytes) ≡ n
cut n bytes h = omega (arith, length-take n bytes)

-- A page in use is written in place.
pub write_page-IsFile :
    (db after : Db) (free : List ℕ) (p : ℕ) (rpage : Bytes)
    → IsFile db free
    → p < db.header.nb_pages
    → NotIn p free
    → write_page db p rpage ≡ ok after
    → IsFile after free × (after.header ≡ db.header)
unfolding write_page
write_page-IsFile db after free p rpage h inside out e =
    let size = page_bytes db.header.page_size p in
    let held : ltb p (length db.pages) ≡ true = ground (arith, h.complete) in
    elim (Bool-cases (leb size (length rpage))) [
      | inr short ↦ absurd (let k : fault ≡ ok after = rw (held, short) at e in cc)
      | inl long ↦
          let same : record db { pages = set db.pages p (take size rpage) } ≡ after =
            ok_injective (rw (held, long) at e) in
          let full : length (take size rpage) ≡ page_bytes yacdb_page_size (0 + p) =
            cut size rpage (leb→le size (length rpage) long)
            ∙ ap (λ s. page_bytes s p) h.sized_512
            ∙ ap (page_bytes yacdb_page_size) (omega arith) in
          subst (λ d. IsFile d free × (d.header ≡ db.header)) same
            (
              record {
                sized_512 = h.sized_512;
                complete = length-set db.pages p (take size rpage) ∙ h.complete;
                addressable = h.addressable;
                sized = set-Sized 0 db.pages p (take size rpage) full h.sized;
                chain =
                    set-Chain db.pages db.header.fst_free_page free p (take size rpage) out h.chain;
                counted = h.counted;
                distinct = h.distinct;
                inside = h.inside;
              },
              refl,
            )
    ]

pub write-IsShared :
    (db after : Db) (newer older free : List ℕ) (p : ℕ) (rpage : Bytes)
    → IsShared db (newer ++ p ∷ older) free
    → write_page db p rpage ≡ ok after
    → IsShared after (newer ++ p ∷ older) free
write-IsShared db after newer older free p rpage s e =
    let (pos, inside) = All-here _ newer p older s.used_inside in
    let (inv, same) =
      write_page-IsFile db after free p rpage s.file inside (All-here _ newer p older s.apart) e in
    let nb : after.header.nb_pages ≡ db.header.nb_pages = ap (λ (h : Header). h.nb_pages) same in
    record {
      file = inv;
      used_inside =
          map-All (λ q (lo, hi). (lo, omega (arith, nb))) (newer ++ p ∷ older) s.used_inside;
      apart = s.apart;
      used_distinct = s.used_distinct;
      none_lost = s.none_lost ∙ sym nb;
    }
