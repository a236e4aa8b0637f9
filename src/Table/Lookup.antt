-- ===== src/Table/Lookup.antt =====
-- get_row (server-side/schema/db_ops.c) on a whole B+-tree whose keys are in order: it returns the row
-- that the table, as an association list, has for the key.
use yacdb.Common.{
  ℕ, ◌≡◌, ◌<◌, ◌≤◌, ◌⊎◌, refl, sym, ◌∙◌, none, some, List, [], ◌∷◌, ◌++◌, false, ltb, ◌==◌,
  get_elem?, arith, Bool-cases, inl, inr, ltb→lt,
}
use yacdb.Common.State.{done}
use yacdb.Disk.{Node, KeyValue}
use yacdb.Disk.Store.{Nodes, NodeStore}
use yacdb.Table.{Cursor, lower_cell, row_at, get_row}
use yacdb.Table.Shape.{
  Shape, Shapes, leaf, branch, last, more, root_page, IsHeld, IsAscending, IsOrdered, AreOrdered,
  rows, all_rows, height, leaf_of, leaf_of_picked, lookup_row,
}
use yacdb.Table.Find.{find_leaf-leaf_of}

-- The bounds of keys in order.
IsAscending-le : (lo hi : ℕ) (kvs : List KeyValue) → IsAscending lo hi kvs → lo ≤ hi
IsAscending-le lo hi [] h = h
IsAscending-le lo hi (kv ∷ kvs) h = omega (arith, h.0, h.1)

mutual
  IsOrdered-le : (lo hi : ℕ) (t : Shape) → IsOrdered lo hi t → lo ≤ hi
  IsOrdered-le lo hi (leaf p n) h = IsAscending-le lo hi n.key_vals h
  IsOrdered-le lo hi (branch p n ts) h = AreOrdered-le lo hi ts h

  AreOrdered-le : (lo hi : ℕ) (ts : Shapes) → AreOrdered lo hi ts → lo ≤ hi
  AreOrdered-le lo hi (last t) h = IsOrdered-le lo hi t h
  AreOrdered-le lo hi (more t k ts) h =
      omega (arith, IsOrdered-le lo k t h.0, AreOrdered-le k hi ts h.1)

lookup_row-append_left :
    (key : ℕ) (xs ys : List KeyValue)
    → lookup_row key ys ≡ none
    → lookup_row key (xs ++ ys) ≡ lookup_row key xs
lookup_row-append_left key [] ys h = h
lookup_row-append_left key (x ∷ xs) ys h = rw (lookup_row-append_left key xs ys h) refl

lookup_row-append_right :
    (key : ℕ) (xs ys : List KeyValue)
    → lookup_row key xs ≡ none
    → lookup_row key (xs ++ ys) ≡ lookup_row key ys
lookup_row-append_right key [] ys h = refl
lookup_row-append_right key (x ∷ xs) ys h = elim (Bool-cases (x.key == key)) [
  | inl same ↦ absurd (let k : some x.value ≡ none = rw same at h in cc)
  | inr far ↦ rw far (lookup_row-append_right key xs ys (rw far at h))
]

-- A key out of the bounds has no row.
IsAscending-lookup_row :
    (key lo hi : ℕ) (kvs : List KeyValue)
    → IsAscending lo hi kvs
    → (key < lo) ⊎ (hi ≤ key)
    → lookup_row key kvs ≡ none
IsAscending-lookup_row key lo hi [] h out = refl
IsAscending-lookup_row key lo hi (kv ∷ kvs) h out =
    let far : (kv.key == key) ≡ false = ground (arith, h.0, h.1, out) in
    let behind : (key < kv.key) ⊎ (hi ≤ key) = elim out [
      | inl low ↦ inl (omega (arith, low, h.0))
      | inr high ↦ inr high
    ] in
    rw far (IsAscending-lookup_row key kv.key hi kvs h.2 behind)

mutual
  IsOrdered-lookup_row :
      (key lo hi : ℕ) (t : Shape)
      → IsOrdered lo hi t
      → (key < lo) ⊎ (hi ≤ key)
      → lookup_row key (rows t) ≡ none
  IsOrdered-lookup_row key lo hi (leaf p n) h out =
      IsAscending-lookup_row key lo hi n.key_vals h out
  IsOrdered-lookup_row key lo hi (branch p n ts) h out = AreOrdered-lookup_row key lo hi ts h out

  AreOrdered-lookup_row :
      (key lo hi : ℕ) (ts : Shapes)
      → AreOrdered lo hi ts
      → (key < lo) ⊎ (hi ≤ key)
      → lookup_row key (all_rows ts) ≡ none
  AreOrdered-lookup_row key lo hi (last t) h out = IsOrdered-lookup_row key lo hi t h out
  AreOrdered-lookup_row key lo hi (more t k ts) h out =
      let a = IsOrdered-le lo k t h.0 in
      let b = AreOrdered-le k hi ts h.1 in
      let left : (key < lo) ⊎ (k ≤ key) = elim out [
        | inl low ↦ inl low
        | inr high ↦ inr (omega arith)
      ] in
      let right : (key < k) ⊎ (hi ≤ key) = elim out [
        | inl low ↦ inl (omega arith)
        | inr high ↦ inr high
      ] in
      lookup_row-append_right key (rows t) (all_rows ts) (IsOrdered-lookup_row key lo k t h.0 left)
      ∙ AreOrdered-lookup_row key k hi ts h.1 right

-- The rows of the leaf that the key belongs to decide.
mutual
  pub lookup_row-leaf_of :
      (key lo hi : ℕ) (t : Shape)
      → IsOrdered lo hi t
      → lookup_row key (rows t) ≡ lookup_row key (leaf_of key t).1.key_vals
  lookup_row-leaf_of key lo hi (leaf p n) h = refl
  lookup_row-leaf_of key lo hi (branch p n ts) h = lookup_row-leaf_of_picked key lo hi ts h

  lookup_row-leaf_of_picked :
      (key lo hi : ℕ) (ts : Shapes)
      → AreOrdered lo hi ts
      → lookup_row key (all_rows ts) ≡ lookup_row key (leaf_of_picked key ts).1.key_vals
  lookup_row-leaf_of_picked key lo hi (last t) h = lookup_row-leaf_of key lo hi t h
  lookup_row-leaf_of_picked key lo hi (more t k ts) h = elim (Bool-cases (ltb key k)) [
    | inl left ↦ rw left (
        lookup_row-append_left key (rows t) (all_rows ts)
          (AreOrdered-lookup_row key k hi ts h.1 (inl (ltb→lt key k left)))
        ∙ lookup_row-leaf_of key lo k t h.0)
    | inr right ↦ rw right (
        lookup_row-append_right key (rows t) (all_rows ts)
          (IsOrdered-lookup_row key lo k t h.0 (inr (ground (arith, right))))
        ∙ lookup_row-leaf_of_picked key k hi ts h.1)
  ]

mutual
  pub leaf_of-IsOrdered :
      (key lo hi : ℕ) (t : Shape)
      → IsOrdered lo hi t
      → (a : ℕ) × (b : ℕ) × IsAscending a b (leaf_of key t).1.key_vals
  leaf_of-IsOrdered key lo hi (leaf p n) h = (lo, hi, h)
  leaf_of-IsOrdered key lo hi (branch p n ts) h = leaf_of_picked-AreOrdered key lo hi ts h

  leaf_of_picked-AreOrdered :
      (key lo hi : ℕ) (ts : Shapes)
      → AreOrdered lo hi ts
      → (a : ℕ) × (b : ℕ) × IsAscending a b (leaf_of_picked key ts).1.key_vals
  leaf_of_picked-AreOrdered key lo hi (last t) h = leaf_of-IsOrdered key lo hi t h
  leaf_of_picked-AreOrdered key lo hi (more t k ts) h = elim (Bool-cases (ltb key k)) [
    | inl left ↦ rw left (leaf_of-IsOrdered key lo k t h.0)
    | inr right ↦ rw right (leaf_of_picked-AreOrdered key k hi ts h.1)
  ]

-- The loop of get_row finds the row of the key in a leaf.
pub row_at-lower_cell :
    (key lo hi : ℕ) (kvs : List KeyValue)
    → IsAscending lo hi kvs
    → row_at key (get_elem? kvs (lower_cell key kvs)) ≡ lookup_row key kvs
unfolding lower_cell
row_at-lower_cell key lo hi [] h = refl
row_at-lower_cell key lo hi (kv ∷ kvs) h = elim (Bool-cases (ltb kv.key key)) [
  | inl less ↦
      let far : (kv.key == key) ≡ false = ground (arith, less) in
      rw (less, far) (row_at-lower_cell key kv.key hi kvs h.2)
  | inr here ↦ rw here (elim (Bool-cases (kv.key == key)) [
    | inl same ↦ rw same refl
    | inr far ↦
        let low : key < kv.key = ground (arith, here, far) in
        rw far (sym (IsAscending-lookup_row key kv.key hi kvs h.2 (inl low)))
  ])
]

-- The cursor on the first row of the leaf whose key is not less.
abbrev pub at_row : ℕ → ℕ × Node → Cursor
at_row key (p, n) = record { page = p; node = n; cell = lower_cell key n.key_vals }

module _ {S : Type 0} (store : NodeStore S) where
  -- On the nodes of a B+-tree whose keys are in order, with more fuel than the height, get_row returns
  -- the row that the list of all rows has for the key, or none, and leaves the nodes as they are; its
  -- cursor is on the leaf that the key belongs to, at the first row whose key is not less.
  pub get_row-lookup_row :
      (given : List ℕ) (nodes : Nodes) (fuel key lo hi : ℕ) (t : Shape) (s : S)
      → store.Holds s given nodes
      → IsHeld nodes t
      → IsOrdered lo hi t
      → height t < fuel
      → (after : S) × (get_row store fuel (root_page t) key s
          ≡ done (at_row key (leaf_of key t), lookup_row key (rows t)) after)
        × store.Holds after given nodes
  unfolding get_row
  get_row-lookup_row given nodes fuel key lo hi t s holds held order enough =
      let (after, found, holds') =
        find_leaf-leaf_of store given nodes key fuel t s enough held holds in
      let (a, b, ascending) = leaf_of-IsOrdered key lo hi t order in
      let row =
        row_at-lower_cell key a b (leaf_of key t).1.key_vals ascending
        ∙ sym (lookup_row-leaf_of key lo hi t order) in
      (after, rw (found, row) refl, holds')
