-- ===== src/Disk/Store/OnDisk.antt =====
-- diskio.c (server-side/diskio) as the store of nodes: the cache and the file together behave as a map
-- from the pages given out to their nodes.
use yacdb.Common.{
  ℕ, ◌<◌, ◌≡◌, ◌≢◌, inl, inr, refl, ap, ◌∙◌, subst, some, List, [], ◌∷◌, ◌++◌, ◌==◌, ==_iff,
  Bool-cases, true, false, arith, All, append-All, Bytes, length, leb, ltb, lt→ltb, le→leb,
  get_elem?, take_of_length-le,
}
use yacdb.Common.Memory.{Result, ok}
use yacdb.Common.State.{done}
use yacdb.Disk.{Node}
use yacdb.Disk.Pages.{Db, read_page, write_page, page_bytes}
use yacdb.Disk.Pages.Chain.{NotIn, get_elem?-set, get_elem?-set_other}
use yacdb.Disk.Pages.Shared.{IsShared, map-All, write_page-IsFile}
use yacdb.Disk.Cache.{NodeCache, get_from_cache}
use yacdb.Disk.Cache.Recall.{absurd_bool}
use yacdb.Disk.Cache.Laws.{IsCache}
use yacdb.Disk.Image.{read_node, read_image, get_overflow_data}
use yacdb.Disk.Store.{Nodes, update, IsIn, Store, read_store, write_node}
use yacdb.Disk.Store.Fits.{FitsNode, Parsed, with_page, FitsNode-IsStored}
use yacdb.Disk.Store.Copies.{
  AreCopies, AreFitting, some_injective, add_to_cache-AreCopies, get_from_cache-AreCopies,
}

-- The file and the cache stand for the nodes: each is in its page, every copy in the cache is one of
-- them, and the pages given out are the first page and those in use.
pub record IsStore (s : Store) (given : List ℕ) (nodes : Nodes) : Type 0 where
  pub used : List ℕ
  pub free : List ℕ
  pub given_used : given ≡ used ++ 0 ∷ []
  pub shared : IsShared s.db used free
  pub cached : IsCache s.db.header.default_cache_size s.cache
  pub copies : AreCopies nodes s.cache.cache
  pub fitting : AreFitting nodes
  pub on_pages : (q : ℕ) (n : Node) → nodes q ≡ some n → Parsed s.db q n
  pub nodes_given : (q : ℕ) (n : Node) → nodes q ≡ some n → IsIn q given

All-IsIn {κ} : (P : ℕ → Type κ) (xs : List ℕ) (p : ℕ) → All P xs → IsIn p xs → P p
All-IsIn P [] p h i = absurd (i tt)
All-IsIn P (x ∷ xs) p h i = elim (Bool-cases (x == p)) [
  | inl same ↦ subst P ((==_iff x p).0 same) h.0
  | inr far ↦ All-IsIn P xs p h.1 (λ out. i (λ e. absurd_bool far ((==_iff x p).1 e), out))
]

-- A page that was given out lies in the file and is not free.
pub given_inside :
    (s : Store) (given : List ℕ) (nodes : Nodes) (h : IsStore s given nodes) (p : ℕ)
    → IsIn p given
    → (p < s.db.header.nb_pages) × NotIn p h.free
given_inside s given nodes h p i =
    let P = λ (q : ℕ). (q < s.db.header.nb_pages) × NotIn q h.free in
    let zero_out : NotIn 0 h.free =
      map-All (λ q (lo, hi) e. absurd (omega (arith, lo, e))) h.free h.shared.file.inside in
    All-IsIn P (h.used ++ 0 ∷ []) p
      (append-All P h.used (0 ∷ []) (both h.used h.shared.used_inside h.shared.apart)
        ((omega (arith, h.shared.none_lost), zero_out), tt))
      (rw (← h.given_used) i)
  where
    both :
        (used : List ℕ)
        → All (λ q. (0 < q) × (q < s.db.header.nb_pages)) used
        → All (λ q. NotIn q h.free) used
        → All (λ q. (q < s.db.header.nb_pages) × NotIn q h.free) used
    both [] a b = tt
    both (q ∷ used) a b = ((a.0.1, b.0), both used a.1 b.1)

module _ (depth : ℕ) (buffer : Bytes) where
  -- On a file and a cache that stand for a map from the pages given out to nodes, read_node of a page that
  -- has a node returns it, from the cache or from the file, and they stand for the same map; the file and
  -- its header are unchanged.
  pub read_store-IsStore :
      (s : Store) (given : List ℕ) (nodes : Nodes) (p : ℕ) (n : Node)
      → IsStore s given nodes
      → nodes p ≡ some n
      → (after : Store) × (read_store depth p s ≡ done n after)
        × IsStore after given nodes
        × (after.db ≡ s.db)
  unfolding read_store read_node
  read_store-IsStore s given nodes p n h held =
      let limit = s.db.header.default_cache_size in
      let (found, moved, copies) =
        get_from_cache-AreCopies limit nodes p n s.cache h.cached h.copies h.fitting held in
      let keep : (c : NodeCache)
          → IsCache limit c
          → AreCopies nodes c.cache
          → IsStore (record s { cache = c }) given nodes =
        λ c inv cs. record {
          used = h.used;
          free = h.free;
          given_used = h.given_used;
          shared = h.shared;
          cached = inv;
          copies = cs;
          fitting = h.fitting;
          on_pages = h.on_pages;
          nodes_given = h.nodes_given;
        } in
      elim found [
        | inl hit ↦ (
          record s { cache = (get_from_cache p s.cache).1 },
          rw hit refl,
          keep _ moved copies,
          refl,
        )
        | inr miss ↦
            let (page, held_page, parsed) = h.on_pages p n held in
            let (added, e, inv, cs) =
              add_to_cache-AreCopies limit nodes p n (get_from_cache p s.cache).1 moved copies
                (h.fitting p n held) in
            let image : read_image (get_overflow_data depth s.db) s.db.header.page_size page
                ≡ ok n =
              ap (λ size. read_image (get_overflow_data depth s.db) size page)
                h.shared.file.sized_512
              ∙ parsed _ in
            (
              record s { cache = added },
              rw (miss, held_page, image, e) refl,
              keep added inv (λ q m l. same_nodes nodes p n held q m (cs q m l)),
              refl,
            )
      ]
    where
      same_nodes :
          (nodes : Nodes) (p : ℕ) (n : Node)
          → nodes p ≡ some n
          → (q : ℕ) (m : Node) → update nodes p n q ≡ some m
          → nodes q ≡ some m
      same_nodes nodes p n held q m e = elim (Bool-cases (p == q)) [
        | inl same ↦ subst (λ r. nodes r ≡ some m) ((==_iff p q).0 same) (held ∙ rw same at e)
        | inr far ↦ rw far at e
      ]

-- A page in place of another.
write_page-with_page :
    (db : Db) (p : ℕ) (page : Bytes)
    → length db.pages ≡ db.header.nb_pages
    → p < db.header.nb_pages
    → length page ≡ page_bytes db.header.page_size p
    → (write_page db p page ≡ ok (with_page db p page))
      × (read_page (with_page db p page) p ≡ ok page)
unfolding write_page read_page
write_page-with_page db p page full inside size =
    let fits : leb (page_bytes db.header.page_size p) (length page) ≡ true =
      le→leb _ _ (omega arith) in
    let held : ltb p (length db.pages) ≡ true = lt→ltb _ _ (omega arith) in
    let known : leb db.header.nb_pages p ≡ false = ground arith in
    (
      rw (fits, held, take_of_length-le (page_bytes db.header.page_size p) page (omega arith)) refl,
      rw (known, get_elem?-set db.pages p page (omega arith)) refl,
    )

read_page-with_page :
    (db : Db) (p q : ℕ) (page : Bytes) → p ≢ q → read_page (with_page db p page) q ≡ read_page db q
unfolding read_page
read_page-with_page db p q page far = rw (get_elem?-set_other db.pages p q page far) refl

pub read_page_same :
    (db after : Db) (q : ℕ)
    → q < db.header.nb_pages
    → q < after.header.nb_pages
    → get_elem? after.pages q ≡ get_elem? db.pages q
    → read_page after q ≡ read_page db q
unfolding read_page
read_page_same db after q inside later same =
    let known : leb db.header.nb_pages q ≡ false = ground arith in
    let known' : leb after.header.nb_pages q ≡ false = ground arith in rw (known, known', same) refl

module _ (depth : ℕ) (buffer : Bytes) where
  -- On a file and a cache that stand for a map from the pages given out to nodes, write_node to such a
  -- page of a node that fits succeeds, and they stand for the map with the node at that page and every
  -- other page as it was; the header is unchanged. A leaf fits when its values need no overflow pages and
  -- its cells no more than the first page has; another node when it has a child for each key and one more.
  pub write_node-IsStore :
      (s : Store) (given : List ℕ) (nodes : Nodes) (p : ℕ) (n : Node)
      → IsStore s given nodes
      → IsIn p given
      → FitsNode n
      → (after : Store) × (write_node depth buffer n p s ≡ done tt after)
        × IsStore after given (update nodes p n)
        × (after.db.header ≡ s.db.header)
  unfolding write_node
  write_node-IsStore s given nodes p n h i fits =
      let (inside, out) = given_inside s given nodes h p i in
      let file = h.shared.file in
      let stored = FitsNode-IsStored depth buffer s.db p n file.sized_512 fits in
      let (written, back) =
        write_page-with_page s.db p stored.page file.complete inside stored.sized in
      let (whole, _) =
        write_page-IsFile s.db (with_page s.db p stored.page) h.free p stored.page file inside out
          written in
      let (added, e, inv, copies) =
        add_to_cache-AreCopies s.db.header.default_cache_size nodes p n s.cache h.cached h.copies
          fits in
      (
        record { db = with_page s.db p stored.page; cache = added },
        rw (e, stored.stored, written) refl,
        record {
          used = h.used;
          free = h.free;
          given_used = h.given_used;
          shared = record {
            file = whole;
            used_inside = h.shared.used_inside;
            apart = h.shared.apart;
            used_distinct = h.shared.used_distinct;
            none_lost = h.shared.none_lost;
          };
          cached = inv;
          copies = copies;
          fitting = λ q m e. elim (Bool-cases (p == q)) [
            | inl same ↦ subst FitsNode (some_injective (rw same at e)) fits
            | inr far ↦ h.fitting q m (rw far at e)
          ];
          on_pages = λ q m e. elim (Bool-cases (p == q)) [
            | inl same ↦
                subst (λ r. Parsed (with_page s.db p stored.page) r m) ((==_iff p q).0 same)
                  (
                    stored.page,
                    back,
                    subst (λ k. (ov : ℕ → Result Bytes) → read_image ov 512 stored.page ≡ ok k)
                        (some_injective (rw same at e)) stored.parsed,
                  )
            | inr far ↦
                let (page, held, parsed) = h.on_pages q m (rw far at e) in
                (
                  page,
                  read_page-with_page s.db p q stored.page (λ k. absurd_bool far ((==_iff p q).1 k))
                      ∙ held,
                  parsed,
                )
          ];
          nodes_given = λ q m e. elim (Bool-cases (p == q)) [
            | inl same ↦ subst (λ r. IsIn r given) ((==_iff p q).0 same) i
            | inr far ↦ h.nodes_given q m (rw far at e)
          ];
        },
        refl,
      )
