-- ===== src/Table/Grow.antt =====
-- A row more in the leaf that its key belongs to (insert of server-side/schema/cursor.c): the tree
-- stays whole and in order, and its rows are the old ones and the new one.
use yacdb.Common.{
  ℕ, ◌≡◌, ◌≢◌, ◌<◌, ◌≤◌, refl, sym, ap, ◌∙◌, Option, none, some, List, [], ◌∷◌, ◌++◌, true, false,
  ltb, ◌==◌, ==_iff, arith, Bool-cases, inl, inr, Bytes, ltb→lt, take, drop,
}
use yacdb.Disk.{Node, KeyValue, is_leaf}
use yacdb.Disk.Pages.Chain.{NotIn}
use yacdb.Disk.Store.{Nodes, update}
use yacdb.Table.{lower_cell}
use yacdb.Table.Shape.{
  Shape, Shapes, leaf, branch, last, more, IsHeld, AreHeld, IsAscending, IsOrdered, AreOrdered,
  rows, all_rows, leaf_of, leaf_of_picked, lookup_row,
}
use yacdb.Table.Leaf.{
  pages_of, all_pages, IsApart, AreApart, with_leaf, with_leaf_picked, All-leaf_of,
  All-leaf_of_picked, update_other, update_same, update-IsHeld, update-AreHeld,
  child_pages-with_leaf, separators-with_leaf,
}

module _ (nodes : Nodes) (key : ℕ) (m : Node) (m_leaf : is_leaf m ≡ true) where
  mutual
    pub with_leaf-IsHeld :
        (t : Shape)
        → IsApart t
        → IsHeld nodes t
        → IsHeld (update nodes (leaf_of key t).0 m) (with_leaf key m t)
    with_leaf-IsHeld (leaf p n) apart h = (update_same nodes p m, m_leaf)
    with_leaf-IsHeld (branch p n ts) apart (h, inner, same, (rest, e), below) =
        let far = All-leaf_of_picked (λ q. q ≢ p) key ts apart.0 in
        (
          update_other nodes (leaf_of_picked key ts).0 p m (λ k. far (sym k)) ∙ h,
          inner,
          same ∙ sym (separators-with_leaf key m ts),
          (rest, e ∙ ap (λ ps. ps ++ rest) (sym (child_pages-with_leaf key m ts))),
          with_leaf-AreHeld ts apart.1 below,
        )

    with_leaf-AreHeld :
        (ts : Shapes)
        → AreApart ts
        → AreHeld nodes ts
        → AreHeld (update nodes (leaf_of_picked key ts).0 m) (with_leaf_picked key m ts)
    with_leaf-AreHeld (last t) apart h = with_leaf-IsHeld t apart h
    with_leaf-AreHeld (more t k ts) (one, others, right_of, left_of) h =
        elim (Bool-cases (ltb key k)) [
          | inl left ↦ rw left (
            with_leaf-IsHeld t one h.0,
            update-AreHeld nodes (leaf_of key t).0 m ts
                (All-leaf_of (λ q. NotIn q (all_pages ts)) key t right_of) h.1,
          )
          | inr right ↦ rw right (
            update-IsHeld nodes (leaf_of_picked key ts).0 m t
                (All-leaf_of_picked (λ q. NotIn q (pages_of t)) key ts left_of) h.0,
            with_leaf-AreHeld ts others h.1,
          )
        ]

-- The row in front of the first one whose key is not less.
abbrev pub with_row : KeyValue → List KeyValue → List KeyValue
with_row kv kvs = take (lower_cell kv.key kvs) kvs ++ kv ∷ drop (lower_cell kv.key kvs) kvs

module _ (kv : KeyValue) where
  pub with_row-IsAscending :
      (lo hi : ℕ) (kvs : List KeyValue)
      → lo ≤ kv.key
      → kv.key < hi
      → IsAscending lo hi kvs
      → IsAscending lo hi (with_row kv kvs)
  unfolding lower_cell
  with_row-IsAscending lo hi [] low high h = (low, high, omega arith)
  with_row-IsAscending lo hi (r ∷ kvs) low high h = elim (Bool-cases (ltb r.key kv.key)) [
    | inl less ↦
        rw less (h.0, h.1, with_row-IsAscending r.key hi kvs (ground (arith, less)) high h.2)
    | inr here ↦ rw here (low, high, (ground (arith, here), h.1, h.2))
  ]

  pub lookup_row-with_row :
      (lo hi : ℕ) (kvs : List KeyValue)
      → IsAscending lo hi kvs
      → lookup_row kv.key (with_row kv kvs) ≡ some kv.value
  unfolding lower_cell
  lookup_row-with_row lo hi [] h =
      let same : (kv.key == kv.key) ≡ true = (==_iff kv.key kv.key).1 refl in rw same refl
  lookup_row-with_row lo hi (r ∷ kvs) h = elim (Bool-cases (ltb r.key kv.key)) [
    | inl less ↦
        let far : (r.key == kv.key) ≡ false = ground (arith, less) in
        rw (less, far) (lookup_row-with_row r.key hi kvs h.2)
    | inr here ↦
        rw here
          (let same : (kv.key == kv.key) ≡ true = (==_iff kv.key kv.key).1 refl in rw same refl)
  ]

  pub lookup_row-with_row_other :
      (key : ℕ) (kvs : List KeyValue)
      → (kv.key == key) ≡ false
      → lookup_row key (with_row kv kvs) ≡ lookup_row key kvs
  unfolding lower_cell
  lookup_row-with_row_other key [] far = rw far refl
  lookup_row-with_row_other key (r ∷ kvs) far = elim (Bool-cases (ltb r.key kv.key)) [
    | inl less ↦ rw (less, lookup_row-with_row_other key kvs far) refl
    | inr here ↦ rw (here, far) refl
  ]

-- The first of two options.
lookup_row-append :
    (key : ℕ) (xs xs' ys ys' : List KeyValue)
    → lookup_row key xs ≡ lookup_row key xs'
    → lookup_row key ys ≡ lookup_row key ys'
    → lookup_row key (xs ++ ys) ≡ lookup_row key (xs' ++ ys')
lookup_row-append key xs xs' ys ys' a b =
    either xs ys
    ∙ (ap (λ o. or_else o (lookup_row key ys)) a ∙ ap (or_else (lookup_row key xs')) b)
    ∙ sym (either xs' ys')
  where
    or_else : Option Bytes → Option Bytes → Option Bytes
    or_else none b = b
    or_else (some a) b = some a

    either :
        (us vs : List KeyValue)
        → lookup_row key (us ++ vs) ≡ or_else (lookup_row key us) (lookup_row key vs)
    either [] vs = refl
    either (u ∷ us) vs = elim (Bool-cases (u.key == key)) [
      | inl same ↦ rw same refl
      | inr far ↦ rw far (either us vs)
    ]

module _ (key : ℕ) (m : Node) where
  mutual
    pub with_leaf-IsOrdered :
        (lo hi : ℕ) (t : Shape)
        → ((a b : ℕ)
            → a ≤ key
            → key < b
            → IsAscending a b (leaf_of key t).1.key_vals
            → IsAscending a b m.key_vals)
        → lo ≤ key
        → key < hi
        → IsOrdered lo hi t
        → IsOrdered lo hi (with_leaf key m t)
    with_leaf-IsOrdered lo hi (leaf p n) keep low high h = keep lo hi low high h
    with_leaf-IsOrdered lo hi (branch p n ts) keep low high h =
        with_leaf-AreOrdered lo hi ts keep low high h

    with_leaf-AreOrdered :
        (lo hi : ℕ) (ts : Shapes)
        → ((a b : ℕ)
            → a ≤ key
            → key < b
            → IsAscending a b (leaf_of_picked key ts).1.key_vals
            → IsAscending a b m.key_vals)
        → lo ≤ key
        → key < hi
        → AreOrdered lo hi ts
        → AreOrdered lo hi (with_leaf_picked key m ts)
    with_leaf-AreOrdered lo hi (last t) keep low high h =
        with_leaf-IsOrdered lo hi t keep low high h
    with_leaf-AreOrdered lo hi (more t k ts) keep low high h = elim (Bool-cases (ltb key k)) [
      | inl left ↦
          rw left (with_leaf-IsOrdered lo k t (rw left at keep) low (ltb→lt key k left) h.0, h.1)
      | inr right ↦
          rw right
            (h.0, with_leaf-AreOrdered k hi ts (rw right at keep) (ground (arith, right)) high h.1)
    ]

  -- A key that has the same row in both leaves has it in both trees.
  module _ (other : ℕ) where
    mutual
      pub lookup_row-with_leaf :
          (t : Shape)
          → lookup_row other m.key_vals ≡ lookup_row other (leaf_of key t).1.key_vals
          → lookup_row other (rows (with_leaf key m t)) ≡ lookup_row other (rows t)
      lookup_row-with_leaf (leaf p n) same = same
      lookup_row-with_leaf (branch p n ts) same = lookup_row-with_leaf_picked ts same

      lookup_row-with_leaf_picked :
          (ts : Shapes)
          → lookup_row other m.key_vals ≡ lookup_row other (leaf_of_picked key ts).1.key_vals
          → lookup_row other (all_rows (with_leaf_picked key m ts)) ≡ lookup_row other (all_rows ts)
      lookup_row-with_leaf_picked (last t) same = lookup_row-with_leaf t same
      lookup_row-with_leaf_picked (more t k ts) same = elim (Bool-cases (ltb key k)) [
        | inl left ↦ rw left (
            lookup_row-append other (rows (with_leaf key m t)) (rows t) (all_rows ts) (all_rows ts)
              (lookup_row-with_leaf t (rw left at same)) refl)
        | inr right ↦ rw right (
            lookup_row-append other (rows t) (rows t) (all_rows (with_leaf_picked key m ts))
              (all_rows ts) refl (lookup_row-with_leaf_picked ts (rw right at same)))
      ]
