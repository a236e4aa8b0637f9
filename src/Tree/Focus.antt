-- ===== src/Tree/Focus.antt =====
-- The child of a node in order that a key belongs to, in table_tree/nodes.c: what changes below it changes
-- the pairs of the leaves in the same way.
use mathlib.Core.List.{append_assoc, append-nil}
use yacdb.Common.{
  ℕ, suc, ◌≤◌, ◌<◌, ◌≡◌, Bool, true, false, List, [], ◌∷◌, ◌++◌, ltb, if◌then◌else◌, arith, refl,
  ap, sym, ◌∙◌, Bool-cases, inl, inr, ltb→lt, ltb-false,
}
use yacdb.Common.Memory.{ok}
use yacdb.Tree.{KeyVal, Tree, Trees, no_trees, below, child, set_child, put_key, put_children}
use yacdb.Tree.Order.{
  IsOrdered, AreOrdered, AreWithin, entries, all_entries, lower_index, entries-AreWithin,
  all_entries-AreWithin,
}

suc_if : (b : Bool) (i : ℕ) → suc (if b then suc i else i) ≡ (if b then suc (suc i) else suc i)
suc_if true i = refl
suc_if false i = refl

module _ {D : Type 0} where
  -- A change at the key leaves the pairs before it and behind it as they are.
  pub record IsLocal (key : ℕ) (op : List (KeyVal D) → List (KeyVal D)) : Type 0 where
    pub back :
        (lo hi : ℕ) (xs ys : List (KeyVal D))
        → AreWithin lo hi xs
        → hi ≤ key
        → op (xs ++ ys) ≡ xs ++ op ys
    pub front :
        (lo hi : ℕ) (xs ys : List (KeyVal D))
        → AreWithin lo hi ys
        → key < lo
        → op (xs ++ ys) ≡ op xs ++ ys

  -- The child that the key belongs to, its bounds, and what its change does.
  pub record Focus (key lo hi : ℕ) (op : List (KeyVal D) → List (KeyVal D)) (kvs : List (KeyVal D))
      (ts : Trees D) : Type 0 where
    pub at : Tree D
    pub low : ℕ
    pub high : ℕ
    pub is_child : child ts (lower_index key kvs) ≡ ok at
    pub ordered : IsOrdered low high at
    pub from : low ≤ key
    pub upto : key < high
    pub changed :
        (u : Tree D)
        → IsOrdered low high u
        → entries u ≡ op (entries at)
        → AreOrdered lo hi kvs (set_child ts (lower_index key kvs) u)
          × (all_entries (set_child ts (lower_index key kvs) u) ≡ op (all_entries ts))
    pub divided :
        (up : KeyVal D) (left right : Tree D)
        → low ≤ up.key
        → suc up.key < high
        → IsOrdered low (suc up.key) left
        → IsOrdered (suc up.key) high right
        → entries left ++ entries right ≡ entries at
        → AreOrdered lo hi
            (put_key (lower_index key kvs) up kvs)
            (put_children (lower_index key kvs) left right ts)
          × (all_entries (put_children (lower_index key kvs) left right ts) ≡ all_entries ts)
          × (lower_index key (put_key (lower_index key kvs) up kvs)
              ≡ (if ltb up.key key then suc (lower_index key kvs) else lower_index key kvs))

  pub focus :
      (key lo hi : ℕ) (op : List (KeyVal D) → List (KeyVal D)) (kvs : List (KeyVal D))
      (ts : Trees D)
      → IsLocal key op
      → AreOrdered lo hi kvs ts
      → lo ≤ key
      → key < hi
      → Focus key lo hi op kvs ts
  unfolding child
  focus key lo hi op [] (below t no_trees) l h a b = record {
    at = t;
    low = lo;
    high = hi;
    is_child = refl;
    ordered = h;
    from = a;
    upto = b;
    changed = λ u o e. (o, append-nil (entries u) ∙ e ∙ ap op (sym (append-nil (entries t))));
    divided = λ up left right a' b' l' r' e. (
      (a', omega (arith, b'), l', r'),
      sym (append_assoc (entries left) (entries right) []) ∙ ap (λ x. x ++ []) e,
      refl,
    );
  }
  focus key lo hi op (kv ∷ kvs) (below t ts) l h a b = elim (Bool-cases (ltb kv.key key)) [
    | inl less ↦
        let past = ltb→lt kv.key key less in
        let f = focus key (suc kv.key) hi op kvs ts l h.3 (omega arith) b in
        let before = entries-AreWithin lo (suc kv.key) t h.2 in
        record {
          at = f.at;
          low = f.low;
          high = f.high;
          is_child = rw less f.is_child;
          ordered = f.ordered;
          from = f.from;
          upto = f.upto;
          changed = λ u o e.
              let (o', e') = f.changed u o e in
              rw less (
                (h.0, h.1, h.2, o'),
                ap (◌++◌ (entries t)) e'
                    ∙ sym
                        (l.back lo (suc kv.key) (entries t) (all_entries ts) before (omega arith)),
              );
          divided = λ up left right a' b' l' r' e.
              let (o', e', i) = f.divided up left right a' b' l' r' e in
              rw less (
                (h.0, h.1, h.2, o'),
                ap (◌++◌ (entries t)) e',
                rw less (ap suc i ∙ suc_if (ltb up.key key) (lower_index key kvs)),
              );
        }
    | inr more ↦
        let upto = ltb-false kv.key key more in
        let behind = all_entries-AreWithin (suc kv.key) hi kvs ts h.3 in
        record {
          at = t;
          low = lo;
          high = suc kv.key;
          is_child = rw more refl;
          ordered = h.2;
          from = a;
          upto = omega arith;
          changed = λ u o e. rw more (
            (h.0, h.1, o, h.3),
            ap (λ x. x ++ all_entries ts) e
                ∙ sym (l.front (suc kv.key) hi (entries t) (all_entries ts) behind (omega arith)),
          );
          divided = λ up left right a' b' l' r' e. rw more (
            (a', omega (arith, b', h.1), l', (omega (arith, b'), h.1, r', h.3)),
            sym (append_assoc (entries left) (entries right) (all_entries ts))
                ∙ ap (λ x. x ++ all_entries ts) e,
            rw more refl,
          );
        }
  ]
  focus key lo hi op [] no_trees l h a b = absurd h
  focus key lo hi op [] (below t (below u ts)) l h a b = absurd h
  focus key lo hi op (kv ∷ kvs) no_trees l h a b = absurd h
