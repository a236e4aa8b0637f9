-- ===== src/Tree/Search.antt =====
-- yabsearch of table_tree/nodes.c on a tree in order.
use mathlib.Core.List.{append-nil}
use yacdb.Common.{
  ℕ, suc, ◌≤◌, ◌<◌, ◌≡◌, true, false, List, [], ◌∷◌, none, get_elem?, ltb, ◌==◌, if◌then◌else◌,
  arith, refl, ap, sym, ◌∙◌, Bool-cases, inl, inr, ltb→lt, ltb-false,
}
use yacdb.Common.Memory.{ok}
use yacdb.Tree.{KeyVal, Tree, node, Trees, no_trees, below, value_at, yabsearch, search_child}
use yacdb.Tree.Order.{
  IsAscending, IsOrdered, AreOrdered, entries, all_entries, lower_index, lookup,
  AreOrdered-IsAscending, IsAscending-AreWithin, entries-AreWithin, all_entries-AreWithin,
  lookup-outside, lookup-append, lookup-behind,
}
use yacdb.Tree.Index.{equal_there, halve_search-lower_index}

module _ {D : Type 0} where
  leaf_value :
      (key lo hi : ℕ) (kvs : List (KeyVal D))
      → IsAscending lo hi kvs
      → (if equal_there key kvs
          then ok (value_at (get_elem? kvs (lower_index key kvs)))
          else ok none)
        ≡ ok (lookup key kvs)
  leaf_value key lo hi [] h = refl
  leaf_value key lo hi (kv ∷ kvs) h = elim (Bool-cases (ltb kv.key key)) [
    | inl less ↦
        let other : (kv.key == key) ≡ false = ground (arith, less) in
        rw (less, other) (leaf_value key (suc kv.key) hi kvs h.2)
    | inr more ↦ elim (Bool-cases (kv.key == key)) [
      | inl same ↦ rw (more, same) refl
      | inr other ↦
          let past : key < suc kv.key = ground (arith, more, other) in
          rw (more, other)
            (ap ok (
              sym (
                lookup-outside (suc kv.key) hi key kvs
                  (IsAscending-AreWithin (suc kv.key) hi kvs h.2) (inl past))))
    ]
  ]

  mutual
    unfolding yabsearch

    search-lookup :
        (t : Tree D) (key lo hi : ℕ)
        → IsOrdered lo hi t
        → lo ≤ key
        → key < hi
        → yabsearch t key ≡ ok (lookup key (entries t))
    search-lookup (node true kvs ts) key lo hi h a b =
        rw (halve_search-lower_index kvs key lo hi h.0) (leaf_value key lo hi kvs h.0)
    search-lookup (node false [] no_trees) key lo hi h a b = absurd (omega (arith, h))
    search-lookup (node false [] (below t ts)) key lo hi h a b =
        rw
          (halve_search-lower_index [] key lo hi (AreOrdered-IsAscending lo hi [] (below t ts) h.0))
          (search_child-lookup [] (below t ts) key lo hi h.0 a b)
    search-lookup (node false (kv ∷ kvs) ts) key lo hi h a b =
        rw
          (halve_search-lower_index (kv ∷ kvs) key lo hi
            (AreOrdered-IsAscending lo hi (kv ∷ kvs) ts h.0))
          (search_child-lookup (kv ∷ kvs) ts key lo hi h.0 a b)

    search_child-lookup :
        (kvs : List (KeyVal D)) (ts : Trees D) (key lo hi : ℕ)
        → AreOrdered lo hi kvs ts
        → lo ≤ key
        → key < hi
        → search_child ts (lower_index key kvs) key ≡ ok (lookup key (all_entries ts))
    search_child-lookup [] (below t no_trees) key lo hi h a b =
        search-lookup t key lo hi h a b ∙ ap (λ l. ok (lookup key l)) (sym (append-nil (entries t)))
    search_child-lookup (kv ∷ kvs) (below t ts) key lo hi h a b =
        elim (Bool-cases (ltb kv.key key)) [
          | inl less ↦
              let past = ltb→lt kv.key key less in
              let none_before =
                lookup-outside lo (suc kv.key) key (entries t)
                  (entries-AreWithin lo (suc kv.key) t h.2) (inr (omega arith)) in
              rw less (
                search_child-lookup kvs ts key (suc kv.key) hi h.3 (omega arith) b
                ∙ ap ok (sym (lookup-behind key (entries t) (all_entries ts) none_before)))
          | inr more ↦
              let upto = ltb-false kv.key key more in
              let none_behind =
                lookup-outside (suc kv.key) hi key (all_entries ts)
                  (all_entries-AreWithin (suc kv.key) hi kvs ts h.3) (inl (omega arith)) in
              rw more (
                search-lookup t key lo (suc kv.key) h.2 a (omega arith)
                ∙ ap ok (sym (lookup-append key (entries t) (all_entries ts) none_behind)))
        ]
    search_child-lookup [] no_trees key lo hi h a b = absurd h
    search_child-lookup [] (below t (below u ts)) key lo hi h a b = absurd h
    search_child-lookup (kv ∷ kvs) no_trees key lo hi h a b = absurd h

  -- On a tree in order, yabsearch of a key that belongs to it ends, reads no child that was not set, and
  -- gives the value of the key in the list of all pairs of the leaves, or nothing.
  pub yabsearch-lookup :
      (t : Tree D) (key lo hi : ℕ)
      → IsOrdered lo hi t
      → lo ≤ key
      → key < hi
      → yabsearch t key ≡ ok (lookup key (entries t))
  yabsearch-lookup = search-lookup
