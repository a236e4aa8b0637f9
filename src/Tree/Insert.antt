-- ===== src/Tree/Insert.antt =====
-- yabinsert of table_tree/nodes.c on a tree in order.
use mathlib.Core.List.{append-nil}
use yacdb.Common.{
  ℕ, zero, suc, ◌≤◌, ◌<◌, ◌≡◌, true, false, List, [], ◌∷◌, ◌++◌, length, ltb, leb, if◌then◌else◌,
  arith, refl, ap, sym, ◌∙◌, subst, Bool-cases, inl, inr, ltb→lt, ltb-false, leb→le,
}
use yacdb.Common.Memory.{Result, ok, ok_injective, ◌>>=◌}
use yacdb.Tree.{
  KeyVal, Tree, node, Trees, no_trees, below, nb_keys, child, set_child, put_key, put_children,
  insert_leaf, insert_down, split_root, yabinsert,
}
use yacdb.Tree.Order.{
  IsOrdered, entries, all_entries, lower_index, AreOrdered-IsAscending, IsOrdered-AreOrdered,
  AreOrdered-IsOrdered,
}
use yacdb.Tree.Index.{NoKey, halve_insert-lower_index}
use yacdb.Tree.Focus.{Focus, focus}
use yacdb.Tree.Split.{IsOpen, AreOpen, own_keys, IsSplit, split_node-IsSplit}
use yacdb.Tree.Place.{insert_leaf-IsLocal, insert_leaf-IsAscending}

module _ {D : Type 0} where
  AreOpen-child :
      (n key i : ℕ) (ts : Trees D) (c : Tree D)
      → AreOpen n key ts
      → child ts i ≡ ok c
      → IsOpen n key c
  unfolding child
  AreOpen-child n key i no_trees c h e = cc
  AreOpen-child n key zero (below t ts) c h e = subst (IsOpen n key) (ok_injective e) h.0
  AreOpen-child n key (suc i) (below t ts) c h e = AreOpen-child n key i ts c h.1 e

  nb_keys-IsOrdered : (lo hi : ℕ) (t : Tree D) → IsOrdered lo hi t → nb_keys t ≤ 4
  nb_keys-IsOrdered lo hi (node true kvs ts) h = h.1
  nb_keys-IsOrdered lo hi (node false [] ts) h = omega arith
  nb_keys-IsOrdered lo hi (node false (kv ∷ kvs) ts) h = h.1

  child-put_children :
      (i : ℕ) (ts : Trees D) (c left right : Tree D)
      → child ts i ≡ ok c
      → (child (put_children i left right ts) i ≡ ok left)
        × (child (put_children i left right ts) (suc i) ≡ ok right)
  unfolding child
  child-put_children i no_trees c left right e = cc
  child-put_children zero (below t ts) c left right e = (refl, refl)
  child-put_children (suc i) (below t ts) c left right e = child-put_children i ts c left right e

  length-put_key :
      (i : ℕ) (kv : KeyVal D) (kvs : List (KeyVal D)) → length (put_key i kv kvs) ≡ suc (length kvs)
  length-put_key i kv [] = refl
  length-put_key zero kv (x ∷ kvs) = refl
  length-put_key (suc i) kv (x ∷ kvs) = ap suc (length-put_key i kv kvs)

  -- A call that returns a tree in order whose leaves have the pair too.
  abbrev Gives : KeyVal D → ℕ → ℕ → List (KeyVal D) → Result (Tree D) → Type 0
  Gives kv lo hi kvs r =
      (u : Tree D) × (r ≡ ok u) × IsOrdered lo hi u × (entries u ≡ insert_leaf kv kvs)

  abbrev enter : ℕ → KeyVal D → List (KeyVal D) → Trees D → ℕ → Tree D → Result (Tree D)
  enter fuel kv kvs ts i next = do
    changed ← insert_down fuel kv next
    ok (node false kvs (set_child ts i changed))

  enter-Gives :
      (fuel : ℕ) (kv : KeyVal D) (lo hi : ℕ) (kvs : List (KeyVal D)) (ts : Trees D)
      (f : Focus kv.key lo hi (insert_leaf kv) kvs ts)
      → length kvs ≤ 4
      → Gives kv f.low f.high (entries f.at) (insert_down fuel kv f.at)
      → Gives kv lo hi (all_entries ts) (enter fuel kv kvs ts (lower_index kv.key kvs) f.at)
  enter-Gives fuel kv lo hi kvs ts f few (u, e, o, same) =
      let (o', same') = f.changed u o same in
      let changed = set_child ts (lower_index kv.key kvs) u in
      (node false kvs changed, rw e refl, AreOrdered-IsOrdered lo hi kvs changed o' few, same')

  -- The halves of a full child: the key belongs to one of them, and yabinsert enters that one.
  abbrev enter_half :
      ℕ → KeyVal D → List (KeyVal D) → Trees D → ℕ → KeyVal D → Tree D → Tree D → Result (Tree D)
  enter_half fuel kv kvs ts i up left right =
      if ltb up.key kv.key then enter fuel kv kvs ts (suc i) right else enter fuel kv kvs ts i left

  enter_half-Gives :
      (fuel : ℕ) (kv : KeyVal D) (lo hi : ℕ) (kvs : List (KeyVal D)) (ts : Trees D)
      (f : Focus kv.key lo hi (insert_leaf kv) kvs ts) (up : KeyVal D) (left right : Tree D)
      → length kvs ≤ 3
      → lo ≤ kv.key
      → kv.key < hi
      → IsSplit fuel kv.key f.low f.high f.at up left right
      → ((t : Tree D) (lo hi : ℕ)
          → IsOrdered lo hi t
          → IsOpen fuel kv.key t
          → nb_keys t ≤ 3
          → lo ≤ kv.key
          → kv.key < hi
          → Gives kv lo hi (entries t) (insert_down fuel kv t))
      → Gives kv lo hi (all_entries ts) (
          enter_half fuel kv
            (put_key (lower_index kv.key kvs) up kvs)
            (put_children (lower_index kv.key kvs) left right ts)
            (lower_index kv.key kvs)
            up
            left
            right)
  enter_half-Gives fuel kv lo hi kvs ts f up left right few a b s go =
      let i = lower_index kv.key kvs in
      let kvs' = put_key i up kvs in
      let ts' = put_children i left right ts in
      let (o, same, place) =
        f.divided up left right s.up_low s.up_high s.left_ordered s.right_ordered s.together in
      let (is_left, is_right) = child-put_children i ts f.at left right f.is_child in
      let g = focus kv.key lo hi (insert_leaf kv) kvs' ts' (insert_leaf-IsLocal kv) o a b in
      let few' : length kvs' ≤ 4 = omega (arith, length-put_key i up kvs) in
      let result : (c : Tree D) (j : ℕ)
          → lower_index kv.key kvs' ≡ j
          → child ts' j ≡ ok c
          → IsOpen fuel kv.key c
          → nb_keys c ≤ 3
          → Gives kv lo hi (all_entries ts) (enter fuel kv kvs' ts' j c) =
        λ c j at is open_ short.
          let e : g.at ≡ c = ok_injective (sym g.is_child ∙ ap (child ts') at ∙ is) in
          subst (λ x. Gives kv lo hi (all_entries ts) (enter fuel kv kvs' ts' j x)) e
            (subst (λ x. Gives kv lo hi (all_entries ts) (enter fuel kv kvs' ts' x g.at)) at
              (subst (λ x. Gives kv lo hi x (enter fuel kv kvs' ts' (lower_index kv.key kvs') g.at))
                same
                (enter-Gives fuel kv lo hi kvs' ts' g few' (
                  go g.at g.low g.high g.ordered (subst (IsOpen fuel kv.key) (sym e) open_)
                    (subst (λ x. nb_keys x ≤ 3) (sym e) short) g.from g.upto)))) in
      elim (Bool-cases (ltb up.key kv.key)) [
        | inl less ↦ rw less (
            result right (suc i) (place ∙ ap (λ x. if x then suc i else i) less) is_right
              s.right_open (omega (arith, s.right_short)))
        | inr more ↦ rw more (
            result left i (place ∙ ap (λ x. if x then suc i else i) more) is_left s.left_open
              (omega (arith, s.left_short)))
      ]

  insert_down-Gives :
      (fuel : ℕ) (kv : KeyVal D) (t : Tree D) (lo hi : ℕ)
      → IsOrdered lo hi t
      → IsOpen fuel kv.key t
      → nb_keys t ≤ 3
      → lo ≤ kv.key
      → kv.key < hi
      → Gives kv lo hi (entries t) (insert_down fuel kv t)
  unfolding insert_down
  insert_down-Gives zero kv t lo hi h open_ short a b = absurd open_
  insert_down-Gives (suc fuel) kv (node true kvs ts) lo hi h open_ short a b =
      let (o, few) = insert_leaf-IsAscending kv lo hi kvs h.0 a b in
      (node true (insert_leaf kv kvs) ts, refl, (o, omega (arith, few, short)), refl)
  insert_down-Gives (suc fuel) kv (node false kvs ts) lo hi h (others, open_) short a b =
      let (o, few) = IsOrdered-AreOrdered lo hi kvs ts h (omega (arith, a, b)) in
      let i =
        halve_insert-lower_index kvs kv.key lo hi (AreOrdered-IsAscending lo hi kvs ts o) others in
      let f = focus kv.key lo hi (insert_leaf kv) kvs ts (insert_leaf-IsLocal kv) o a b in
      let inside = AreOpen-child fuel kv.key (lower_index kv.key kvs) ts f.at open_ f.is_child in
      let go : (t : Tree D) (lo hi : ℕ)
          → IsOrdered lo hi t
          → IsOpen fuel kv.key t
          → nb_keys t ≤ 3
          → lo ≤ kv.key
          → kv.key < hi
          → Gives kv lo hi (entries t) (insert_down fuel kv t) =
        λ t lo hi. insert_down-Gives fuel kv t lo hi in
      elim (Bool-cases (ltb (nb_keys f.at) 4)) [
        | inl room ↦
            rw (i, f.is_child, room)
              (enter-Gives fuel kv lo hi kvs ts f few (
                go f.at f.low f.high f.ordered inside (omega (arith, ltb→lt _ _ room)) f.from
                  f.upto))
        | inr full ↦
            let four : nb_keys f.at ≡ 4 =
              omega (arith, ltb-false _ _ full, nb_keys-IsOrdered f.low f.high f.at f.ordered) in
            let (up, left, right, e, s) =
              split_node-IsSplit fuel kv.key f.low f.high f.at f.ordered
                (omega (arith, f.from, f.upto)) four inside in
            rw (i, f.is_child, full, e)
              (enter_half-Gives fuel kv lo hi kvs ts f up left right short a b s go)
      ]

  mutual
    IsOpen-suc : (n key : ℕ) (t : Tree D) → IsOpen n key t → IsOpen (suc n) key t
    IsOpen-suc zero key t h = absurd h
    IsOpen-suc (suc n) key (node true kvs ts) h = tt
    IsOpen-suc (suc n) key (node false kvs ts) h = (h.0, AreOpen-suc n key ts h.1)

    AreOpen-suc : (n key : ℕ) (ts : Trees D) → AreOpen n key ts → AreOpen (suc n) key ts
    AreOpen-suc n key no_trees h = tt
    AreOpen-suc n key (below t ts) h = (IsOpen-suc n key t h.0, AreOpen-suc n key ts h.1)

  -- On a tree in order with at most `fuel` levels, yabinsert of a pair whose key belongs to the tree and is no key
  -- above the leaves, nor one of a full root, ends and leaves a tree in order, whose leaves hold the pairs of
  -- before with the new one in its place, or the same pairs when the key was there.
  pub yabinsert-insert_leaf :
      (fuel : ℕ) (t : Tree D) (kv : KeyVal D) (lo hi : ℕ)
      → IsOrdered lo hi t
      → IsOpen fuel kv.key t
      → (nb_keys t ≡ 4 → NoKey kv.key (own_keys t))
      → lo ≤ kv.key
      → kv.key < hi
      → (u : Tree D) × (yabinsert (suc fuel) t kv ≡ ok u)
        × IsOrdered lo hi u
        × (entries u ≡ insert_leaf kv (entries t))
  unfolding yabinsert split_root
  yabinsert-insert_leaf fuel t kv lo hi h open_ others a b = elim (Bool-cases (leb 4 (nb_keys t))) [
    | inr room ↦ rw room (
        insert_down-Gives (suc fuel) kv t lo hi h (IsOpen-suc fuel kv.key t open_)
          (ground (arith, room)) a b)
    | inl full ↦
        let four : nb_keys t ≡ 4 = omega (arith, leb→le _ _ full, nb_keys-IsOrdered lo hi t h) in
        let (up, left, right, e, s) =
          split_node-IsSplit fuel kv.key lo hi t h (omega (arith, a, b)) four open_ in
        let root = node false (up ∷ []) (below left (below right no_trees)) in
        let ordered : IsOrdered lo hi root =
          ((s.up_low, omega (arith, s.up_high), s.left_ordered, s.right_ordered), omega arith) in
        let there : IsOpen (suc fuel) kv.key root =
          ((s.up_other (others four), tt), (s.left_open, (s.right_open, tt))) in
        let (u, e', o', same) =
          insert_down-Gives (suc fuel) kv root lo hi ordered there (omega arith) a b in
        let all : entries root ≡ entries t =
          ap (λ x. entries left ++ x) (append-nil (entries right)) ∙ s.together in
        (u, rw (full, e) e', o', same ∙ ap (insert_leaf kv) all)
  ]
