-- ===== src/Table/Find.antt =====
-- find_leaf (server-side/schema/cursor.c) on a whole B+-tree: it ends after as many steps as the tree
-- is high, on the leaf that the key belongs to.
use yacdb.Common.{
  ℕ, zero, suc, ◌≡◌, ◌<◌, ◌≤◌, refl, ap, ◌∙◌, some, List, [], ◌∷◌, ◌++◌, ltb, get_elem?, get_or,
  drop, arith, Bool-cases, inl, inr,
}
use yacdb.Common.State.{done}
use yacdb.Disk.{Node, KeyValue}
use yacdb.Disk.Store.{Nodes, NodeStore}
use yacdb.Table.{upper_cell, step_in, descend, find_leaf}
use yacdb.Table.Shape.{
  Shape, Shapes, leaf, branch, last, more, root_page, root_node, separators, child_pages, keys_of,
  IsHeld, AreHeld, height, heights, pick, leaf_of, leaf_of_picked,
}

-- The cell that find_leaf steps into holds the page of the picked tree.
child_addr-pick :
    (key : ℕ) (ts : Shapes) (kvs : List KeyValue) (rest : List ℕ)
    → keys_of kvs ≡ separators ts
    → get_elem? (child_pages ts ++ rest) (upper_cell key kvs) ≡ some (root_page (pick key ts))
unfolding upper_cell
child_addr-pick key (last t) [] rest e = refl
child_addr-pick key (last t) (kv ∷ kvs) rest e = absurd (cc)
child_addr-pick key (more t k ts) [] rest e = absurd (cc)
child_addr-pick key (more t k ts) (kv ∷ kvs) rest e =
    let first : kv.key ≡ k = ap (λ l. get_or l 0 0) e in
    let others : keys_of kvs ≡ separators ts = ap (drop 1) e in
    elim (Bool-cases (ltb key kv.key)) [
      | inl left ↦ rw (left, ← first, left) refl
      | inr right ↦ rw (right, ← first, right) (child_addr-pick key ts kvs rest others)
    ]

AreHeld-pick :
    (nodes : Nodes) (key : ℕ) (ts : Shapes) → AreHeld nodes ts → IsHeld nodes (pick key ts)
AreHeld-pick nodes key (last t) h = h
AreHeld-pick nodes key (more t k ts) h = elim (Bool-cases (ltb key k)) [
  | inl left ↦ rw left h.0
  | inr right ↦ rw right (AreHeld-pick nodes key ts h.1)
]

height-pick : (key : ℕ) (ts : Shapes) → height (pick key ts) ≤ heights ts
height-pick key (last t) = omega arith
height-pick key (more t k ts) = elim (Bool-cases (ltb key k)) [
  | inl left ↦ rw left (omega arith)
  | inr right ↦ rw right (omega (arith, height-pick key ts))
]

leaf_of-pick : (key : ℕ) (ts : Shapes) → leaf_of key (pick key ts) ≡ leaf_of_picked key ts
leaf_of-pick key (last t) = refl
leaf_of-pick key (more t k ts) = elim (Bool-cases (ltb key k)) [
  | inl left ↦ rw left refl
  | inr right ↦ rw right (leaf_of-pick key ts)
]

pub root_node-IsHeld :
    (nodes : Nodes) (t : Shape) → IsHeld nodes t → nodes (root_page t) ≡ some (root_node t)
root_node-IsHeld nodes (leaf p n) h = h.0
root_node-IsHeld nodes (branch p n ts) h = h.0

module _ {S : Type 0} (store : NodeStore S) (given : List ℕ) (nodes : Nodes) (key : ℕ) where
  descend-leaf_of :
      (fuel : ℕ) (t : Shape) (s : S)
      → height t < fuel
      → IsHeld nodes t
      → store.Holds s given nodes
      → (after : S) × (descend store fuel key
            (record { page = root_page t; node = root_node t; cell = 0 })
            s
          ≡ done (record { page = (leaf_of key t).0; node = (leaf_of key t).1; cell = 0 }) after)
        × store.Holds after given nodes
  unfolding descend step_in
  descend-leaf_of zero t s enough h holds = absurd (omega arith)
  descend-leaf_of (suc fuel) (leaf p n) s enough h holds = (s, rw h.1 refl, holds)
  descend-leaf_of (suc fuel) (branch p n ts) s enough (held, inner, same, (rest, e), below) holds =
      let t = pick key ts in
      let there =
        ap (λ l. get_elem? l (upper_cell key n.key_vals)) e
        ∙ child_addr-pick key ts n.key_vals rest same in
      let kept = AreHeld-pick nodes key ts below in
      let (s', read, holds', _) =
        store.read_lem s given nodes (root_page t) (root_node t) holds
          (root_node-IsHeld nodes t kept) in
      let (after, found, ends) =
        descend-leaf_of fuel t s' (omega (arith, enough, height-pick key ts)) kept holds' in
      (
        after,
        rw (inner, there, read)
            (found
              ∙ ap (λ (l : ℕ × Node). done (record { page = l.0; node = l.1; cell = 0 }) after)
                  (leaf_of-pick key ts)),
        ends,
      )

  -- On the nodes of a B+-tree, with as much fuel as it has levels, find_leaf ends on the leaf that the key
  -- belongs to, and leaves the nodes as they are.
  pub find_leaf-leaf_of :
      (fuel : ℕ) (t : Shape) (s : S)
      → height t < fuel
      → IsHeld nodes t
      → store.Holds s given nodes
      → (after : S) × (find_leaf store fuel (root_page t) key s
          ≡ done (record { page = (leaf_of key t).0; node = (leaf_of key t).1; cell = 0 }) after)
        × store.Holds after given nodes
  unfolding find_leaf
  find_leaf-leaf_of fuel t s enough h holds =
      let (s', read, holds', _) =
        store.read_lem s given nodes (root_page t) (root_node t) holds
          (root_node-IsHeld nodes t h) in
      let (after, found, ends) = descend-leaf_of fuel t s' enough h holds' in
      (after, rw read found, ends)
