-- ===== src/Tree/Split.antt =====
-- splitChild of table_tree/nodes.c on a full child of a node in order.
use mathlib.Core.List.{append_assoc, append-nil}
use yacdb.Common.{
  ℕ, zero, suc, ◌≤◌, ◌<◌, ◌≡◌, ◌≢◌, true, false, List, [], ◌∷◌, ◌++◌, length, arith, refl, ap, sym,
  ◌∙◌, subst,
}
use yacdb.Common.Memory.{ok}
use yacdb.Tree.{
  KeyVal, Tree, node, Trees, no_trees, below, nb_keys, is_leaf, child, left_children,
  right_children, split_node,
}
use yacdb.Tree.Order.{IsOrdered, AreOrdered, IsOrdered-AreOrdered, entries, all_entries}
use yacdb.Tree.Index.{NoKey}

module _ {D : Type 0} where
  -- At most so many levels, and no key above the leaves is the key.
  abbrev mutual
    pub IsOpen : ℕ → ℕ → Tree D → Type 0
    IsOpen zero key t = ⊥
    IsOpen (suc n) key (node true kvs ts) = Unit
    IsOpen (suc n) key (node false kvs ts) = NoKey key kvs × AreOpen n key ts

    pub AreOpen : ℕ → ℕ → Trees D → Type 0
    AreOpen n key no_trees = Unit
    AreOpen n key (below t ts) = IsOpen n key t × AreOpen n key ts

  abbrev pub own_keys : Tree D → List (KeyVal D)
  own_keys (node leaf kvs ts) = kvs

  -- What a split makes of a node between bounds: the pair that goes up is within them, the halves are
  -- in order on both sides of it and have two keys each, and hold the pairs of before.
  pub record IsSplit (n key lo hi : ℕ) (t : Tree D) (up : KeyVal D) (left right : Tree D)
      : Type 0 where
    pub up_low : lo ≤ up.key
    pub up_high : suc up.key < hi
    pub left_ordered : IsOrdered lo (suc up.key) left
    pub right_ordered : IsOrdered (suc up.key) hi right
    pub left_short : nb_keys left ≡ 2
    pub right_short : nb_keys right ≡ 2
    pub left_open : IsOpen n key left
    pub right_open : IsOpen n key right
    pub up_other : NoKey key (own_keys t) → up.key ≢ key
    pub together : entries left ++ entries right ≡ entries t

  -- The new last child of the left half.
  new_last : Tree D → Tree D
  new_last t = node (is_leaf t) [] no_trees

  new_last-IsOrdered : (t : Tree D) (lo : ℕ) → IsOrdered lo lo (new_last t)
  unfolding new_last
  new_last-IsOrdered (node true kvs ts) lo = (omega arith, omega arith)
  new_last-IsOrdered (node false kvs ts) lo = refl

  new_last-IsOpen : (n key : ℕ) (t : Tree D) → IsOpen n key t → IsOpen n key (new_last t)
  unfolding new_last
  new_last-IsOpen zero key t h = h
  new_last-IsOpen (suc n) key (node true kvs ts) h = tt
  new_last-IsOpen (suc n) key (node false kvs ts) h = (tt, tt)

  entries-new_last : (t : Tree D) → entries (new_last t) ≡ []
  unfolding new_last
  entries-new_last (node true kvs ts) = refl
  entries-new_last (node false kvs ts) = refl

  four_keys :
      (kvs : List (KeyVal D))
      → length kvs ≡ 4
      → (a : KeyVal D) × (b : KeyVal D) × (c : KeyVal D) × (d : KeyVal D) × (kvs
          ≡ a ∷ b ∷ c ∷ d ∷ [])
  four_keys (a ∷ b ∷ c ∷ d ∷ []) e = (a, b, c, d, refl)
  four_keys [] e = absurd (omega (arith, e))
  four_keys (a ∷ []) e = absurd (omega (arith, e))
  four_keys (a ∷ b ∷ []) e = absurd (omega (arith, e))
  four_keys (a ∷ b ∷ c ∷ []) e = absurd (omega (arith, e))
  four_keys (a ∷ b ∷ c ∷ d ∷ x ∷ kvs) e = absurd (omega (arith, e))

  first_child :
      (lo hi : ℕ) (kv : KeyVal D) (kvs : List (KeyVal D)) (ts : Trees D)
      → AreOrdered lo hi (kv ∷ kvs) ts
      → (t : Tree D) × (us : Trees D) × (ts ≡ below t us)
  first_child lo hi kv kvs no_trees h = absurd h
  first_child lo hi kv kvs (below t us) h = (t, us, refl)

  last_child :
      (lo hi : ℕ) (ts : Trees D) → AreOrdered lo hi [] ts → (t : Tree D) × (ts ≡ below t no_trees)
  last_child lo hi no_trees h = absurd h
  last_child lo hi (below t no_trees) h = (t, refl)
  last_child lo hi (below t (below u us)) h = absurd h

  -- What split_node gives, and that it is a split.
  abbrev pub Splits : ℕ → ℕ → ℕ → ℕ → Tree D → Type 0
  Splits n key lo hi t =
      (up : KeyVal D) × (left : Tree D) × (right : Tree D) × (split_node t ≡ ok (up, left, right))
      × IsSplit n key lo hi t up left right

  split_leaf :
      (n key lo hi : ℕ) (a b c d : KeyVal D) (ts : Trees D)
      → IsOrdered lo hi (node true (a ∷ b ∷ c ∷ d ∷ []) ts)
      → IsOpen n key (node true (a ∷ b ∷ c ∷ d ∷ []) ts)
      → Splits n key lo hi (node true (a ∷ b ∷ c ∷ d ∷ []) ts)
  unfolding split_node
  split_leaf zero key lo hi a b c d ts h open_ = absurd open_
  split_leaf (suc n) key lo hi a b c d ts h open_ = (
    b,
    node true (a ∷ b ∷ []) no_trees,
    node true (c ∷ d ∷ []) no_trees,
    refl,
    record {
      up_low = omega (arith, h);
      up_high = omega (arith, h);
      left_ordered = omega (arith, h);
      right_ordered = omega (arith, h);
      left_short = refl;
      right_short = refl;
      left_open = tt;
      right_open = tt;
      up_other = λ others. others.1.0;
      together = refl;
    },
  )

  join : (x y z : List (KeyVal D)) → (x ++ (y ++ [])) ++ z ≡ x ++ (y ++ z)
  join x y z = rw (append-nil y) (append_assoc x y z)

  split_inner :
      (n key lo hi : ℕ) (a b c d : KeyVal D) (t0 t1 t2 t3 t4 : Tree D)
      → let ts = below t0 (below t1 (below t2 (below t3 (below t4 no_trees)))) in
        AreOrdered lo hi (a ∷ b ∷ c ∷ d ∷ []) ts
        → IsOpen n key (node false (a ∷ b ∷ c ∷ d ∷ []) ts)
        → Splits n key lo hi (node false (a ∷ b ∷ c ∷ d ∷ []) ts)
  unfolding split_node child left_children right_children new_last
  split_inner zero key lo hi a b c d t0 t1 t2 t3 t4 h open_ = absurd open_
  split_inner (suc n) key lo hi a b c d t0 t1 t2 t3 t4 h
        ((na, (nb, (nc, (nd, _)))), (o0, (o1, (o2, (o3, (o4, _)))))) =
      let last = new_last t0 in
      let (a_low, a_high, h0, (b_low, b_high, h1, (c_low, c_high, h2, (d_low, d_high, h3, h4)))) =
        h in
      (
        b,
        node false (a ∷ b ∷ []) (below t0 (below t1 (below last no_trees))),
        node false (c ∷ d ∷ []) (below t2 (below t3 (below t4 no_trees))),
        refl,
        record {
          up_low = omega arith;
          up_high = omega arith;
          left_ordered = (
            (a_low, omega arith, h0, (b_low, omega arith, h1, new_last-IsOrdered t0 (suc b.key))),
            omega arith,
          );
          right_ordered = ((c_low, c_high, h2, (d_low, d_high, h3, h4)), omega arith);
          left_short = refl;
          right_short = refl;
          left_open = ((na, (nb, tt)), (o0, (o1, (new_last-IsOpen n key t0 o0, tt))));
          right_open = ((nc, (nd, tt)), (o2, (o3, (o4, tt))));
          up_other = λ others. others.1.0;
          together = rw (entries-new_last t0) (
              join (entries t0) (entries t1)
                (all_entries (below t2 (below t3 (below t4 no_trees)))));
        },
      )

  five_children :
      (lo hi : ℕ) (a b c d : KeyVal D) (ts : Trees D)
      → AreOrdered lo hi (a ∷ b ∷ c ∷ d ∷ []) ts
      → (t0 : Tree D) × (t1 : Tree D) × (t2 : Tree D) × (t3 : Tree D) × (t4 : Tree D) × (ts
          ≡ below t0 (below t1 (below t2 (below t3 (below t4 no_trees)))))
  five_children lo hi a b c d ts o =
      let (t0, us0, e0) = first_child lo hi a (b ∷ c ∷ d ∷ []) ts o in
      let o0 = subst (AreOrdered lo hi (a ∷ b ∷ c ∷ d ∷ [])) e0 o in
      let (t1, us1, e1) = first_child (suc a.key) hi b (c ∷ d ∷ []) us0 o0.3 in
      let o1 = subst (AreOrdered (suc a.key) hi (b ∷ c ∷ d ∷ [])) e1 o0.3 in
      let (t2, us2, e2) = first_child (suc b.key) hi c (d ∷ []) us1 o1.3 in
      let o2 = subst (AreOrdered (suc b.key) hi (c ∷ d ∷ [])) e2 o1.3 in
      let (t3, us3, e3) = first_child (suc c.key) hi d [] us2 o2.3 in
      let o3 = subst (AreOrdered (suc c.key) hi (d ∷ [])) e3 o2.3 in
      let (t4, e4) = last_child (suc d.key) hi us3 o3.3 in
      (
        t0,
        t1,
        t2,
        t3,
        t4,
        e0 ∙ ap (below t0) (e1 ∙ ap (below t1) (e2 ∙ ap (below t2) (e3 ∙ ap (below t3) e4))),
      )

  -- splitChild on a node with four keys.
  pub split_node-IsSplit :
      (n key lo hi : ℕ) (t : Tree D)
      → IsOrdered lo hi t
      → lo < hi
      → nb_keys t ≡ 4
      → IsOpen n key t
      → Splits n key lo hi t
  split_node-IsSplit n key lo hi (node true kvs ts) h some_key full open_ =
      let (a, b, c, d, e) = four_keys kvs full in
      subst
        (λ l.
          IsOrdered lo hi (node true l ts)
          → IsOpen n key (node true l ts)
          → Splits n key lo hi (node true l ts))
        (sym e) (split_leaf n key lo hi a b c d ts) h open_
  split_node-IsSplit n key lo hi (node false kvs ts) h some_key full open_ =
      let (a, b, c, d, e) = four_keys kvs full in
      let o =
        subst (λ l. AreOrdered lo hi l ts) e (IsOrdered-AreOrdered lo hi kvs ts h some_key).0 in
      let (t0, t1, t2, t3, t4, whole) = five_children lo hi a b c d ts o in
      let both = ap (λ l. node false l ts) e ∙ ap (node false (a ∷ b ∷ c ∷ d ∷ [])) whole in
      subst (Splits n key lo hi) (sym both) (
        split_inner n key lo hi a b c d t0 t1 t2 t3 t4
          (subst (AreOrdered lo hi (a ∷ b ∷ c ∷ d ∷ [])) whole o) (subst (IsOpen n key) both open_))
