-- ===== src/Tree/Place.antt =====
-- The loop of yabinsert in table_tree/nodes.c over the keys of a leaf in order.
use yacdb.Common.{
  ℕ, suc, ◌≤◌, ◌<◌, ◌≡◌, true, false, ◌||◌, List, [], ◌∷◌, ◌++◌, length, ltb, ◌==◌, arith, refl, ap,
  Bool-cases, inl, inr, ltb→lt, lt→ltb, ge→ltb,
}
use yacdb.Tree.{KeyVal, has_key, place, insert_leaf}
use yacdb.Tree.Order.{IsAscending, AreWithin}
use yacdb.Tree.Focus.{IsLocal}

module _ {D : Type 0} where
  -- A pair is put among those whose keys are around its own.
  insert_leaf-back :
      (kv : KeyVal D) (lo hi : ℕ) (xs ys : List (KeyVal D))
      → AreWithin lo hi xs
      → hi ≤ kv.key
      → (has_key kv.key (xs ++ ys) ≡ has_key kv.key ys) × (place kv (xs ++ ys) ≡ xs ++ place kv ys)
  insert_leaf-back kv lo hi [] ys h past = (refl, refl)
  insert_leaf-back kv lo hi (x ∷ xs) ys h past =
      let (has, put) = insert_leaf-back kv lo hi xs ys h.1 past in
      let other : (x.key == kv.key) ≡ false = ground (arith, h.0.1, past) in
      let before : ltb kv.key x.key ≡ false = ge→ltb _ _ (omega (arith, h.0.1, past)) in
      (rw other has, rw before (ap (◌∷◌ x) put))

  insert_leaf-front :
      (kv : KeyVal D) (lo hi : ℕ) (xs ys : List (KeyVal D))
      → AreWithin lo hi ys
      → kv.key < lo
      → (has_key kv.key (xs ++ ys) ≡ has_key kv.key xs) × (place kv (xs ++ ys) ≡ place kv xs ++ ys)
  insert_leaf-front kv lo hi [] [] h low = (refl, refl)
  insert_leaf-front kv lo hi [] (y ∷ ys) h low =
      let (has, put) = insert_leaf-front kv lo hi [] ys h.1 low in
      let other : (y.key == kv.key) ≡ false = ground (arith, h.0.0, low) in
      let behind : ltb kv.key y.key ≡ true = lt→ltb _ _ (omega (arith, h.0.0, low)) in
      (rw other has, rw behind refl)
  insert_leaf-front kv lo hi (x ∷ xs) ys h low =
      let (has, put) = insert_leaf-front kv lo hi xs ys h low in
      (
        ap (λ b. (x.key == kv.key) || b) has,
        elim (Bool-cases (ltb kv.key x.key)) [
          | inl behind ↦ rw behind refl
          | inr before ↦ rw before (ap (◌∷◌ x) put)
        ],
      )

  pub insert_leaf-IsLocal : (kv : KeyVal D) → IsLocal kv.key (insert_leaf kv)
  unfolding insert_leaf
  insert_leaf-IsLocal kv = record {
    back = λ lo hi xs ys h past.
        let (has, put) = insert_leaf-back kv lo hi xs ys h past in
        rw (has, put)
          (elim (Bool-cases (has_key kv.key ys)) [
            | inl there ↦ rw there refl
            | inr absent ↦ rw absent refl
          ]);
    front = λ lo hi xs ys h low.
        let (has, put) = insert_leaf-front kv lo hi xs ys h low in
        rw (has, put)
          (elim (Bool-cases (has_key kv.key xs)) [
            | inl there ↦ rw there refl
            | inr absent ↦ rw absent refl
          ]);
  }

  place-IsAscending :
      (kv : KeyVal D) (lo hi : ℕ) (kvs : List (KeyVal D))
      → IsAscending lo hi kvs
      → lo ≤ kv.key
      → kv.key < hi
      → has_key kv.key kvs ≡ false
      → IsAscending lo hi (place kv kvs) × (length (place kv kvs) ≡ suc (length kvs))
  place-IsAscending kv lo hi [] h a b absent = ((a, b, omega arith), refl)
  place-IsAscending kv lo hi (x ∷ kvs) h a b absent = elim (Bool-cases (x.key == kv.key)) [
    | inl same ↦ let bad : true ≡ false = rw same at absent in cc
    | inr other ↦ elim (Bool-cases (ltb kv.key x.key)) [
      | inl behind ↦ rw behind ((a, b, (omega (arith, ltb→lt _ _ behind), h.1, h.2)), refl)
      | inr before ↦
          let past : suc x.key ≤ kv.key = ground (arith, other, before) in
          let rest : has_key kv.key kvs ≡ false = rw other at absent in
          let (o, n) = place-IsAscending kv (suc x.key) hi kvs h.2 past b rest in
          rw before ((h.0, h.1, o), ap suc n)
    ]
  ]

  pub insert_leaf-IsAscending :
      (kv : KeyVal D) (lo hi : ℕ) (kvs : List (KeyVal D))
      → IsAscending lo hi kvs
      → lo ≤ kv.key
      → kv.key < hi
      → IsAscending lo hi (insert_leaf kv kvs) × (length (insert_leaf kv kvs) ≤ suc (length kvs))
  unfolding insert_leaf
  insert_leaf-IsAscending kv lo hi kvs h a b = elim (Bool-cases (has_key kv.key kvs)) [
    | inl there ↦ rw there (h, omega arith)
    | inr absent ↦
        let (o, n) = place-IsAscending kv lo hi kvs h a b absent in rw absent (o, omega (arith, n))
  ]
