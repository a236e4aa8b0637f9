-- ===== src/Tree/Delete.antt =====
-- yabdelete of table_tree/nodes.c on a tree in order.
use yacdb.Common.{
  ℕ, suc, ◌≤◌, ◌<◌, ◌≡◌, true, false, List, [], ◌∷◌, ◌++◌, length, ltb, ◌==◌, if◌then◌else◌, arith,
  refl, ap, sym, ◌∙◌, Bool-cases, inl, inr, ◌⊎◌, ltb→lt, ltb-false,
}
use yacdb.Common.Memory.{ok}
use yacdb.Tree.{KeyVal, Tree, node, Trees, no_trees, below, delete_keys, yabdelete, delete_child}
use yacdb.Tree.Order.{
  IsAscending, IsAscending-widen, IsAscending-AreWithin, IsOrdered, AreOrdered, AreWithin, entries,
  all_entries, lower_index, AreOrdered-IsAscending, AreOrdered-IsOrdered, IsOrdered-AreOrdered,
  entries-AreWithin, all_entries-AreWithin,
}
use yacdb.Tree.Index.{halve_delete-lower_index}

module _ {D : Type 0} where
  -- The pairs with other keys.
  abbrev pub remove : ℕ → List (KeyVal D) → List (KeyVal D)
  remove key [] = []
  remove key (x ∷ xs) = if x.key == key then remove key xs else x ∷ remove key xs

  remove-append :
      (key : ℕ) (xs ys : List (KeyVal D)) → remove key (xs ++ ys) ≡ remove key xs ++ remove key ys
  remove-append key [] ys = refl
  remove-append key (x ∷ xs) ys = elim (Bool-cases (x.key == key)) [
    | inl same ↦ rw same (remove-append key xs ys)
    | inr other ↦ rw other (ap (◌∷◌ x) (remove-append key xs ys))
  ]

  remove-outside :
      (lo hi key : ℕ) (xs : List (KeyVal D))
      → AreWithin lo hi xs
      → (key < lo) ⊎ (hi ≤ key)
      → remove key xs ≡ xs
  remove-outside lo hi key [] h out = refl
  remove-outside lo hi key (x ∷ xs) h out =
      let far : (x.key == key) ≡ false = ground (arith, h.0.0, h.0.1, out) in
      rw far (ap (◌∷◌ x) (remove-outside lo hi key xs h.1 out))

  remove-IsAscending :
      (key lo hi : ℕ) (kvs : List (KeyVal D))
      → IsAscending lo hi kvs
      → IsAscending lo hi (remove key kvs)
  remove-IsAscending key lo hi [] h = h
  remove-IsAscending key lo hi (x ∷ kvs) h =
      let rest = remove-IsAscending key (suc x.key) hi kvs h.2 in
      elim (Bool-cases (x.key == key)) [
        | inl same ↦
            rw same (IsAscending-widen (suc x.key) lo hi (remove key kvs) rest (omega (arith, h.0)))
        | inr other ↦ rw other (h.0, h.1, rest)
      ]

  length-remove : (key : ℕ) (kvs : List (KeyVal D)) → length (remove key kvs) ≤ length kvs
  length-remove key [] = omega arith
  length-remove key (x ∷ kvs) = elim (Bool-cases (x.key == key)) [
    | inl same ↦ rw same (omega (arith, length-remove key kvs))
    | inr other ↦ rw other (omega (arith, length-remove key kvs))
  ]

  -- In a leaf in order the key is there once.
  delete_keys-absent :
      (key : ℕ) (kvs : List (KeyVal D)) (lo hi : ℕ)
      → AreWithin lo hi kvs
      → key < lo
      → delete_keys key true kvs ≡ ok kvs
  unfolding delete_keys
  delete_keys-absent key [] lo hi h low = refl
  delete_keys-absent key (x ∷ kvs) lo hi h low =
      let far : (x.key == key) ≡ false = ground (arith, h.0.0, low) in
      rw (far, delete_keys-absent key kvs lo hi h.1 low) refl

  delete_keys-remove :
      (key lo hi : ℕ) (kvs : List (KeyVal D))
      → IsAscending lo hi kvs
      → delete_keys key false kvs ≡ ok (remove key kvs)
  unfolding delete_keys
  delete_keys-remove key lo hi [] h = refl
  delete_keys-remove key lo hi (x ∷ kvs) h = elim (Bool-cases (x.key == key)) [
    | inl same ↦
        let within = IsAscending-AreWithin (suc x.key) hi kvs h.2 in
        let past : key < suc x.key = ground (arith, same) in
        rw
          (
            same,
            delete_keys-absent key kvs (suc x.key) hi within past,
            remove-outside (suc x.key) hi key kvs within (inl past),
          )
          refl
    | inr other ↦ rw (other, delete_keys-remove key (suc x.key) hi kvs h.2) refl
  ]

  mutual
    unfolding yabdelete

    -- On a tree in order, yabdelete of a key that belongs to it ends and leaves a tree in order, whose leaves
    -- hold the pairs of before but those with the key.
    pub yabdelete-remove :
        (t : Tree D) (key lo hi : ℕ)
        → IsOrdered lo hi t
        → lo ≤ key
        → key < hi
        → (u : Tree D) × (yabdelete t key ≡ ok u)
          × IsOrdered lo hi u
          × (entries u ≡ remove key (entries t))
    yabdelete-remove (node true kvs ts) key lo hi h a b = (
      node true (remove key kvs) ts,
      rw (delete_keys-remove key lo hi kvs h.0) refl,
      (remove-IsAscending key lo hi kvs h.0, omega (arith, h.1, length-remove key kvs)),
      refl,
    )
    yabdelete-remove (node false kvs ts) key lo hi h a b =
        let (o, few) = IsOrdered-AreOrdered lo hi kvs ts h (omega (arith, a, b)) in
        let (us, e, o', same) = delete_child-remove kvs ts key lo hi o a b in
        let i = halve_delete-lower_index kvs key lo hi (AreOrdered-IsAscending lo hi kvs ts o) in
        (node false kvs us, rw (i, e) refl, AreOrdered-IsOrdered lo hi kvs us o' few, same)

    delete_child-remove :
        (kvs : List (KeyVal D)) (ts : Trees D) (key lo hi : ℕ)
        → AreOrdered lo hi kvs ts
        → lo ≤ key
        → key < hi
        → (us : Trees D) × (delete_child ts (lower_index key kvs) key ≡ ok us)
          × AreOrdered lo hi kvs us
          × (all_entries us ≡ remove key (all_entries ts))
    delete_child-remove [] (below t no_trees) key lo hi h a b =
        let (u, e, o, same) = yabdelete-remove t key lo hi h a b in
        (
          below u no_trees,
          rw e refl,
          o,
          ap (λ l. l ++ []) same ∙ sym (remove-append key (entries t) []),
        )
    delete_child-remove (kv ∷ kvs) (below t ts) key lo hi h a b =
        elim (Bool-cases (ltb kv.key key)) [
          | inl less ↦
              let past = ltb→lt kv.key key less in
              let (us, e, o, same) =
                delete_child-remove kvs ts key (suc kv.key) hi h.3 (omega arith) b in
              let kept =
                remove-outside lo (suc kv.key) key (entries t)
                  (entries-AreWithin lo (suc kv.key) t h.2) (inr (omega arith)) in
              (
                below t us,
                rw (less, e) refl,
                (h.0, h.1, h.2, o),
                rw (remove-append key (entries t) (all_entries ts), kept)
                    (ap (◌++◌ (entries t)) same),
              )
          | inr more ↦
              let upto = ltb-false kv.key key more in
              let (u, e, o, same) = yabdelete-remove t key lo (suc kv.key) h.2 a (omega arith) in
              let kept =
                remove-outside (suc kv.key) hi key (all_entries ts)
                  (all_entries-AreWithin (suc kv.key) hi kvs ts h.3) (inl (omega arith)) in
              (
                below u ts,
                rw (more, e) refl,
                (h.0, h.1, o, h.3),
                rw (remove-append key (entries t) (all_entries ts), kept)
                    (ap (λ l. l ++ all_entries ts) same),
              )
        ]
    delete_child-remove [] no_trees key lo hi h a b = absurd h
    delete_child-remove [] (below t (below u ts)) key lo hi h a b = absurd h
    delete_child-remove (kv ∷ kvs) no_trees key lo hi h a b = absurd h
