-- ===== src/Table/Shape.antt =====
-- The B+-tree of rows that the nodes of server-side/schema/cursor.c make up, as a tree: which nodes
-- hold it, the order of its keys, and its rows.
use yacdb.Common.{
  ℕ, suc, ◌≡◌, ◌<◌, ◌≤◌, Option, none, some, List, [], ◌∷◌, ◌++◌, map, Bytes, true, false, ltb,
  ◌==◌, if◌then◌else◌,
}
use yacdb.Disk.{Node, KeyValue, is_leaf}
use yacdb.Disk.Store.{Nodes}
use Prim.Native.Nat.{max}

-- A branch has its page, its node and the trees below; `more` is a tree, the key that separates it
-- from those behind, and these.
mutual
  pub data Shape : Type 0 where
    leaf : ℕ → Node → Shape
    branch : ℕ → Node → Shapes → Shape

  pub data Shapes : Type 0 where
    last : Shape → Shapes
    more : Shape → ℕ → Shapes → Shapes

abbrev pub root_page : Shape → ℕ
root_page (leaf p n) = p
root_page (branch p n ts) = p

abbrev pub root_node : Shape → Node
root_node (leaf p n) = n
root_node (branch p n ts) = n

abbrev pub separators : Shapes → List ℕ
separators (last t) = []
separators (more t k ts) = k ∷ separators ts

abbrev pub child_pages : Shapes → List ℕ
child_pages (last t) = root_page t ∷ []
child_pages (more t k ts) = root_page t ∷ child_pages ts

abbrev pub keys_of : List KeyValue → List ℕ
keys_of kvs = map (λ kv. kv.key) kvs

abbrev mutual
  -- The nodes that pages hold make up the tree.
  pub IsHeld : Nodes → Shape → Type 0
  IsHeld nodes (leaf p n) = (nodes p ≡ some n) × (is_leaf n ≡ true)
  IsHeld nodes (branch p n ts) =
      (nodes p ≡ some n)
      × (is_leaf n ≡ false)
      × (keys_of n.key_vals ≡ separators ts)
      × ((rest : List ℕ) × (n.child_addrs ≡ child_pages ts ++ rest))
      × AreHeld nodes ts

  pub AreHeld : Nodes → Shapes → Type 0
  AreHeld nodes (last t) = IsHeld nodes t
  AreHeld nodes (more t k ts) = IsHeld nodes t × AreHeld nodes ts

-- The keys ascend, from `lo` on and below `hi`.
abbrev pub IsAscending : ℕ → ℕ → List KeyValue → Type 0
IsAscending lo hi [] = lo ≤ hi
IsAscending lo hi (kv ∷ kvs) = (lo ≤ kv.key) × (kv.key < hi) × IsAscending kv.key hi kvs

abbrev mutual
  -- A separator is greater than the keys before it, and at most those behind.
  pub IsOrdered : ℕ → ℕ → Shape → Type 0
  IsOrdered lo hi (leaf p n) = IsAscending lo hi n.key_vals
  IsOrdered lo hi (branch p n ts) = AreOrdered lo hi ts

  pub AreOrdered : ℕ → ℕ → Shapes → Type 0
  AreOrdered lo hi (last t) = IsOrdered lo hi t
  AreOrdered lo hi (more t k ts) = IsOrdered lo k t × AreOrdered k hi ts

abbrev mutual
  -- The rows, from left to right.
  pub rows : Shape → List KeyValue
  rows (leaf p n) = n.key_vals
  rows (branch p n ts) = all_rows ts

  pub all_rows : Shapes → List KeyValue
  all_rows (last t) = rows t
  all_rows (more t k ts) = rows t ++ all_rows ts

abbrev mutual
  -- The branches on the longest way to a leaf.
  pub height : Shape → ℕ
  height (leaf p n) = 0
  height (branch p n ts) = suc (heights ts)

  pub heights : Shapes → ℕ
  heights (last t) = height t
  heights (more t k ts) = max (height t) (heights ts)

-- The table as an association list: the row of a key.
abbrev pub lookup_row : ℕ → List KeyValue → Option Bytes
lookup_row key [] = none
lookup_row key (kv ∷ kvs) = if kv.key == key then some kv.value else lookup_row key kvs

-- The tree below that the key belongs to.
abbrev pub pick : ℕ → Shapes → Shape
pick key (last t) = t
pick key (more t k ts) = if ltb key k then t else pick key ts

abbrev mutual
  -- The page and the node of the leaf that the key belongs to.
  pub leaf_of : ℕ → Shape → ℕ × Node
  leaf_of key (leaf p n) = (p, n)
  leaf_of key (branch p n ts) = leaf_of_picked key ts

  pub leaf_of_picked : ℕ → Shapes → ℕ × Node
  leaf_of_picked key (last t) = leaf_of key t
  leaf_of_picked key (more t k ts) =
      let here = leaf_of key t in
      let behind = leaf_of_picked key ts in if ltb key k then here else behind
