-- ===== src/Disk/Store/Instance.antt =====
-- diskio.c (server-side/diskio): a new page is none of those given out, and with read_node and
-- write_node create_addr implements the store of nodes.
use yacdb.Common.{
  ℕ, suc, ◌+◌, ◌^◌, ◌<◌, ◌≤◌, ◌≡◌, ◌≢◌, refl, sym, ap, ◌∙◌, subst, List, [], ◌∷◌, ◌++◌, arith,
  append-All, Bytes, get_elem?,
}
use yacdb.Common.Memory.{ok, ok_injective}
use yacdb.Common.State.{done}
use yacdb.Disk.Pages.{Db, create_addr}
use yacdb.Disk.Pages.Chain.{NotIn, IsFile}
use yacdb.Disk.Pages.Alloc.{create_addr-header}
use yacdb.Disk.Pages.Reuse.{create_addr-fresh}
use yacdb.Disk.Pages.Shared.{map-All, create-IsShared}
use yacdb.Disk.Store.{Nodes, NodeStore, Store, read_store, write_node, create_store}
use yacdb.Disk.Store.Fits.{FitsNode}
use yacdb.Disk.Store.OnDisk.{
  IsStore, given_inside, read_page_same, read_store-IsStore, write_node-IsStore,
}

-- There are fewer pages than a page number of the header can count.
abbrev HasRoom : Store → ℕ → Type 0
HasRoom s k = s.db.header.nb_pages + k ≤ 2 ^ 31

-- A page that is not free keeps its bytes.
kept :
    (db after : Db) (free : List ℕ) (p q : ℕ)
    → IsFile db free
    → db.header.nb_pages < 2 ^ 31
    → q < db.header.nb_pages
    → NotIn q free
    → create_addr db ≡ ok (p, after)
    → get_elem? after.pages q ≡ get_elem? db.pages q
kept db after free p q file room inside out e =
    let (p', after', rest, e', _, _, _, _, _, same) =
      create_addr-fresh db free q file room inside out in
    let it : (p', after') ≡ (p, after) = ok_injective (sym e' ∙ e) in
    subst (λ (r : ℕ × Db). get_elem? r.1.pages q ≡ get_elem? db.pages q) it same

NotIn-append : (p : ℕ) (xs ys : List ℕ) → NotIn p xs → NotIn p ys → NotIn p (xs ++ ys)
NotIn-append p xs ys a b = append-All (λ q. q ≢ p) xs ys a b

-- On a file and a cache that stand for a map from the pages given out to nodes, with `k + 1` pages left
-- below 2 ^ 31, create_addr returns a page that is not one of those given out, and they stand for the
-- same map with that page given out too, with `k` pages left.
pub create_store-IsStore :
    (s : Store) (given : List ℕ) (nodes : Nodes) (k : ℕ)
    → IsStore s given nodes
    → HasRoom s (suc k)
    → (p : ℕ) × (after : Store) × (create_store s ≡ done p after)
      × IsStore after (p ∷ given) nodes
      × NotIn p given
      × HasRoom after k
      × (p < 2 ^ 64)
unfolding create_store
create_store-IsStore s given nodes k h room =
    let file = h.shared.file in
    let zero_out : NotIn 0 h.free =
      map-All (λ q (lo, hi) e. absurd (omega (arith, lo, e))) h.free file.inside in
    let (p, db, rest, made, _, _, _, _, _, _) =
      create_addr-fresh s.db h.free 0 file (omega arith) (omega (arith, h.shared.none_lost))
        zero_out in
    let (free, shared) = create-IsShared s.db db h.used h.free p h.shared (omega arith) made in
    let (after_le, grown, limit) = create_addr-header s.db db p made in
    let new : NotIn p given = rw h.given_used (
      NotIn-append p h.used (0 ∷ []) shared.used_distinct.0
        ((λ e. absurd (omega (arith, e, shared.used_inside.0.0))), tt)) in
    (
      p,
      record s { db = db },
      rw made refl,
      record {
        used = p ∷ h.used;
        free = free;
        given_used = ap (λ l. p ∷ l) h.given_used;
        shared = shared;
        cached = rw limit h.cached;
        copies = h.copies;
        fitting = h.fitting;
        on_pages = λ q n e.
            let (inside, out) = given_inside s given nodes h q (h.nodes_given q n e) in
            let (page, held, parsed) = h.on_pages q n e in
            (
              page,
              read_page_same s.db db q inside (omega (arith, inside, after_le))
                    (kept s.db db h.free p q file (omega arith) inside out made)
                  ∙ held,
              parsed,
            );
        nodes_given = λ q n e out. h.nodes_given q n e out.1;
      },
      new,
      omega arith,
      omega (arith, shared.used_inside.0.1, grown, room),
    )

-- The store of nodes of diskio.c, with the buffer that write_node has and the depth of its overflow.
abbrev pub disk_store : ℕ → Bytes → NodeStore Store
disk_store depth buffer = record {
  read = read_store depth;
  write = write_node depth buffer;
  create = create_store;
  Holds = IsStore;
  Fits = FitsNode;
  HasRoom = HasRoom;
  read_lem = λ s given nodes p n h held.
      let (after, e, inv, same) = read_store-IsStore depth buffer s given nodes p n h held in
      (after, e, inv, λ k room. rw same room);
  write_lem = λ s given nodes p n h i fits.
      let (after, e, inv, same) = write_node-IsStore depth buffer s given nodes p n h i fits in
      (after, e, inv, λ k room. rw same room);
  create_lem = create_store-IsStore;
  given_lem = λ s given nodes p n h e. h.nodes_given p n e;
}
