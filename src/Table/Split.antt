-- ===== src/Table/Split.antt =====
-- split_leaf_node and create_at_start (server-side/schema/cursor.c).
use yacdb.Common.{
  suc, ◌^◌, ℕ, ◌≡◌, ◌<◌, refl, sym, some, List, [], ◌∷◌, ◌++◌, get_elem?, drop, arith,
}
use yacdb.Common.State.{done}
use yacdb.Disk.{Node, KeyValue, table_leaf, nb_keys, no_page}
use yacdb.Disk.Pages.Chain.{NotIn}
use yacdb.Disk.Store.{Nodes, NodeStore, update}
use yacdb.Table.Shape.{IsAscending}
use yacdb.Table.Insert.{split_leaf_node}

-- The leaf that split_leaf_node makes.
abbrev pub right_leaf : List ℕ → Node → KeyValue → KeyValue → Node
right_leaf memory n c d = record {
  parent_addr = n.parent_addr;
  type = table_leaf;
  key_vals = c ∷ d ∷ [];
  child_addrs = no_page ∷ drop 1 memory;
}

-- What split_leaf_node leaves of the leaf.
abbrev pub left_leaf : Node → KeyValue → KeyValue → ℕ → List ℕ → Node
left_leaf n a b page rest = record n { key_vals = a ∷ b ∷ []; child_addrs = page ∷ rest }

module _ {S : Type 0} (store : NodeStore S) where
  -- The new page of split_leaf_node, with the new leaf.
  pub split_leaf_node-right_leaf :
      (memory given : List ℕ) (nodes : Nodes) (s : S) (n : Node) (a b c d : KeyValue) (old k : ℕ)
      (rest : List ℕ)
      → store.Holds s given nodes
      → store.HasRoom s (suc k)
      → n.key_vals ≡ a ∷ b ∷ c ∷ d ∷ []
      → n.child_addrs ≡ old ∷ rest
      → store.Fits (right_leaf memory n c d)
      → (page : ℕ) × (after : S) × (split_leaf_node store memory n s
          ≡ done (left_leaf n a b page rest, c.key, page) after)
        × store.Holds after (page ∷ given) (update nodes page (right_leaf memory n c d))
        × NotIn page given
        × store.HasRoom after k
        × (page < 2 ^ 64)
  unfolding split_leaf_node
  split_leaf_node-right_leaf memory given nodes s n a b c d old k rest holds room full next fits =
      let (p, s', created, holds', new, room', small) =
        store.create_lem s given nodes k holds room in
      let (after, written, holds'', keeps) =
        store.write_lem s' (p ∷ given) nodes p (right_leaf memory n c d) holds' (λ out. out.0 refl)
          fits in
      (p, after, rw (full, next, created, written) refl, holds'', new, keeps k room', small)

  -- split_leaf_node on a full leaf whose keys are in order, the second and the third of them distinct,
  -- when `create` gives a page and `write` writes the new leaf there: it leaves two rows in the leaf and
  -- puts two into the new one; together they are the rows it had. The key that it returns separates
  -- them. The new leaf comes next after the old one, and none comes after the new one, whichever did
  -- before. What `malloc` leaves behind the first child of the new leaf is any.
  pub split_leaf_node-rows :
      (memory : List ℕ) (s s1 s2 : S) (n : Node) (a b c d : KeyValue) (old lo hi page : ℕ)
      (rest : List ℕ)
      → store.create s ≡ done page s1
      → store.write (right_leaf memory n c d) page s1 ≡ done tt s2
      → n.key_vals ≡ a ∷ b ∷ c ∷ d ∷ []
      → n.child_addrs ≡ old ∷ rest
      → IsAscending lo hi n.key_vals
      → b.key < c.key
      → (left : Node) × (right : Node) × (key : ℕ) × (split_leaf_node store memory n s
          ≡ done (left, key, page) s2)
        × (store.write right page s1 ≡ done tt s2)
        × (left.key_vals ++ right.key_vals ≡ n.key_vals)
        × (nb_keys left ≡ 2)
        × (nb_keys right ≡ 2)
        × IsAscending lo key left.key_vals
        × IsAscending key hi right.key_vals
        × (left.child_addrs ≡ page ∷ rest)
        × (get_elem? right.child_addrs 0 ≡ some no_page)
  unfolding split_leaf_node
  split_leaf_node-rows memory s s1 s2 n a b c d old lo hi page rest created written full next order
        far =
      let order' : IsAscending lo hi (a ∷ b ∷ c ∷ d ∷ []) = rw full at order in
      let (a_lo, a_hi, (ab, b_hi, (bc, c_hi, (cd, d_hi, end)))) = order' in
      (
        left_leaf n a b page rest,
        right_leaf memory n c d,
        c.key,
        rw (full, next, created, written) refl,
        written,
        sym full,
        refl,
        refl,
        (a_lo, omega (arith, ab, far), (ab, far, omega (arith, far))),
        (omega arith, c_hi, (cd, d_hi, end)),
        refl,
        refl,
      )
