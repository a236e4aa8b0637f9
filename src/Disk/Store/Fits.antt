-- ===== src/Disk/Store/Fits.antt =====
-- Nodes that a page holds whole (server-side/diskio/diskio.c): what write_node and read_node need so
-- that a node is read back as it was written, from its page or from the cache.
use mathlib.Core.List.{append_assoc}
use yacdb.Common.{
  ℕ, zero, suc, ◌+◌, ◌-◌, ◌*◌, ◌^◌, ◌<◌, ◌≤◌, ◌≡◌, ◌≢◌, ◌⊎◌, inl, inr, refl, sym, ap, ◌∙◌, List, [],
  ◌∷◌, ◌++◌, map, length, Bytes, All, arith, take, replicate, take-append, length-append, set,
}
use yacdb.Common.Memory.{Result, ok, ◌>>=◌}
use yacdb.Disk.{
  Node, PageType, table_leaf, table_interior, index_leaf, index_interior, nb_keys, cpy_node,
}
use yacdb.Disk.Pages.{Db, page_bytes, write_page, read_page}
use yacdb.Disk.Image.{read_image, fields, btree_header, write_ti_node, ti_image}
use yacdb.Disk.Image.Write.{write_typed, write_tl_node}
use yacdb.Disk.Image.Leaf.{
  IsLeafNode, IsWhole, value_bytes, leaf_cells, write_tl_node-fields, read_image-leaf_cells,
}
use yacdb.Disk.Image.Interior.{
  FitsKey, FitsPage, key_only, keys_only, cells_of, ti_image-fields, read_image-ti_image,
}
use yacdb.Disk.Image.Stored.{page_bytes-le}

-- A table leaf: keys of 32 bits, values without overflow pages, at most 456 bytes in all (what the
-- first page has), and the next leaf alone in `child_addrs`.
pub record IsFittingLeaf (n : Node) : Type 0 where
  pub right : ℕ
  pub leaf : IsLeafNode n right
  pub keys : All FitsKey n.key_vals
  pub whole : All IsWhole n.key_vals
  pub few : nb_keys n ≤ 5
  pub right_fits : right < 2 ^ 64
  pub parent_fits : n.parent_addr < 2 ^ 64
  pub bytes_fit : 24 + 16 * nb_keys n + value_bytes n.key_vals ≤ 456

-- Another node: keys of 32 bits without values, and one child more than keys.
pub record IsFittingInner (n : Node) : Type 0 where
  pub children : List ℕ
  pub right : ℕ
  pub type : n.type ≢ table_leaf
  pub held : n.child_addrs ≡ children ++ right ∷ replicate (5 - nb_keys n) 0
  pub same : length children ≡ nb_keys n
  pub keys : All FitsKey n.key_vals
  pub no_values : map key_only n.key_vals ≡ n.key_vals
  pub few : nb_keys n ≤ 5
  pub children_fit : All FitsPage children
  pub right_fits : right < 2 ^ 64
  pub parent_fits : n.parent_addr < 2 ^ 64

abbrev pub FitsNode : Node → Type 0
FitsNode n = IsFittingLeaf n ⊎ IsFittingInner n

take-replicate : (k n a : ℕ) → k ≤ n → take k (replicate n a) ++ replicate (n - k) a ≡ replicate n a
take-replicate zero n a h = ap (λ m. replicate m a) (omega arith)
take-replicate (suc k) zero a h = absurd (omega arith)
take-replicate (suc k) (suc n) a h =
    let e : suc n - suc k ≡ n - k = omega arith in
    rw e (ap (◌∷◌ a) (take-replicate k n a (omega arith)))

-- The copy that the cache keeps is the node itself.
pub cpy_node-FitsNode : (n : Node) → FitsNode n → cpy_node n ≡ n
unfolding cpy_node
cpy_node-FitsNode n (inl f) =
    let one : nb_keys n + 1 ≡ suc (nb_keys n) = omega arith in
    let left : 6 - (nb_keys n + 1) ≡ 5 - nb_keys n = omega arith in
    ap (λ cs. record n { child_addrs = cs })
      (rw (f.leaf.1, left, one) (ap (◌∷◌ f.right) (take-replicate (nb_keys n) 5 0 f.few)))
cpy_node-FitsNode n (inr f) =
    let left : 6 - (nb_keys n + 1) ≡ 5 - nb_keys n = omega arith in
    let front = f.children ++ f.right ∷ [] in
    let regroup : n.child_addrs ≡ front ++ replicate (5 - nb_keys n) 0 =
      f.held ∙ sym (append_assoc f.children (f.right ∷ []) (replicate (5 - nb_keys n) 0)) in
    let cut : take (nb_keys n + 1) n.child_addrs ≡ front =
      ap (take (nb_keys n + 1)) regroup
      ∙ take-append (nb_keys n + 1) front (replicate (5 - nb_keys n) 0)
          (omega (arith, length-append f.children (f.right ∷ []), f.same)) in
    ap (λ cs. record n { child_addrs = cs }) (rw (cut, left) (sym regroup))

-- The page of the node, whatever its overflow pages would be.
abbrev pub Parsed : Db → ℕ → Node → Type 0
Parsed db p n =
    (page : Bytes) × (read_page db p ≡ ok page)
    × ((get_tl_overflow : ℕ → Result Bytes) → read_image get_tl_overflow 512 page ≡ ok n)

-- The file with one page replaced.
abbrev pub with_page : Db → ℕ → Bytes → Db
with_page db p page = record db { pages = set db.pages p page }

-- What write_typed does for a node that fits: one page is replaced, by the node's.
pub record IsStored (depth : ℕ) (buffer : Bytes) (db : Db) (p : ℕ) (n : Node) : Type 0 where
  pub page : Bytes
  pub stored : write_typed depth buffer db n p n.type ≡ write_page db p page
  pub sized : length page ≡ page_bytes db.header.page_size p
  pub parsed : (get_tl_overflow : ℕ → Result Bytes) → read_image get_tl_overflow 512 page ≡ ok n

-- The table leaf of a type that is known by an equation.
write_typed-leaf :
    (depth : ℕ) (buffer : Bytes) (db : Db) (n : Node) (p : ℕ) (t : PageType)
    → t ≡ table_leaf
    → write_typed depth buffer db n p t ≡ write_tl_node depth buffer db n p
write_typed-leaf depth buffer db n p t e = ap (write_typed depth buffer db n p) e

write_typed-inner :
    (depth : ℕ) (buffer : Bytes) (db : Db) (n : Node) (p : ℕ) (t : PageType)
    → t ≢ table_leaf
    → write_typed depth buffer db n p t ≡ write_ti_node db n p
write_typed-inner depth buffer db n p table_leaf h = absurd (h refl)
write_typed-inner depth buffer db n p table_interior h = refl
write_typed-inner depth buffer db n p index_leaf h = refl
write_typed-inner depth buffer db n p index_interior h = refl

pub FitsNode-IsStored :
    (depth : ℕ) (buffer : Bytes) (db : Db) (p : ℕ) (n : Node)
    → db.header.page_size ≡ 512
    → FitsNode n
    → IsStored depth buffer db p n
unfolding write_ti_node
FitsNode-IsStored depth buffer db p n size (inl f) =
    let room : 456 ≤ page_bytes db.header.page_size p = rw size (page_bytes-le p) in
    let (zeros, written, long) =
      write_tl_node-fields depth buffer db n p f.right size f.leaf f.whole f.few
        (omega (arith, f.bytes_fit)) in
    record {
      page =
          fields (btree_header n.parent_addr table_leaf (nb_keys n) f.right)
            (leaf_cells n.key_vals ++ zeros);
      stored = write_typed-leaf depth buffer db n p n.type f.leaf.0 ∙ written;
      sized = long;
      parsed = λ ov.
          read_image-leaf_cells ov n f.right zeros f.leaf f.keys f.whole f.few f.right_fits
            f.parent_fits (omega (arith, f.bytes_fit));
    }
FitsNode-IsStored depth buffer db p n size (inr f) =
    let room : 456 ≤ page_bytes db.header.page_size p = rw size (page_bytes-le p) in
    let (zeros, image, long) =
      ti_image-fields (page_bytes db.header.page_size p) n f.children f.right
        (replicate (5 - nb_keys n) 0) f.held f.same f.few room in
    let page =
      fields (btree_header n.parent_addr n.type (nb_keys n) f.right)
        (cells_of n.key_vals f.children ++ zeros) in
    let image' : ti_image db.header.page_size (page_bytes db.header.page_size p) n ≡ ok page =
      ap (λ s. ti_image s (page_bytes db.header.page_size p) n) size ∙ image in
    let same : keys_only n f.children f.right ≡ n =
      ap
        (λ ks. record n {
          key_vals = ks;
          child_addrs = f.children ++ f.right ∷ replicate (5 - nb_keys n) 0;
        })
        f.no_values
      ∙ ap (λ cs. record n { child_addrs = cs }) (sym f.held) in
    record {
      page = page;
      stored = write_typed-inner depth buffer db n p n.type f.type ∙ rw image' refl;
      sized = long;
      parsed = λ ov.
          ap (λ r. r >>= read_image ov 512) (sym image)
          ∙ read_image-ti_image ov (page_bytes db.header.page_size p) n f.children f.right
              (replicate (5 - nb_keys n) 0) f.type f.held f.same f.few f.keys f.children_fit
              f.right_fits f.parent_fits room
          ∙ ap ok same;
    }
