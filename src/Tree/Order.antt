-- ===== src/Tree/Order.antt =====
-- Trees of table_tree/nodes.c in order: a child holds keys up to the key before which it stands, and above
-- the one behind which it stands.
use yacdb.Common.{
  ℕ, suc, ◌≤◌, ◌<◌, ◌≡◌, true, false, List, [], ◌∷◌, ◌++◌, Option, none, some, length, ltb, ◌==◌,
  if◌then◌else◌, arith, refl, ap, Bool-cases, inl, inr, ◌⊎◌, All, append-All,
}
use yacdb.Tree.{KeyVal, Tree, node, Trees, no_trees, below, max_keys}

module _ {D : Type 0} where
  -- The keys ascend, from `lo` on and below `hi`.
  abbrev pub IsAscending : ℕ → ℕ → List (KeyVal D) → Type 0
  IsAscending lo hi [] = lo ≤ hi
  IsAscending lo hi (kv ∷ kvs) = (lo ≤ kv.key) × (kv.key < hi) × IsAscending (suc kv.key) hi kvs

  -- A node that is no leaf and has no child is allowed where no key belongs.
  abbrev mutual
    pub IsOrdered : ℕ → ℕ → Tree D → Type 0
    IsOrdered lo hi (node true kvs ts) = IsAscending lo hi kvs × (length kvs ≤ max_keys)
    IsOrdered lo hi (node false [] no_trees) = lo ≡ hi
    IsOrdered lo hi (node false kvs ts) = AreOrdered lo hi kvs ts × (length kvs ≤ max_keys)

    -- Children between keys.
    pub AreOrdered : ℕ → ℕ → List (KeyVal D) → Trees D → Type 0
    AreOrdered lo hi [] (below t no_trees) = IsOrdered lo hi t
    AreOrdered lo hi (kv ∷ kvs) (below t ts) =
        (lo ≤ kv.key)
        × (kv.key < hi)
        × IsOrdered lo (suc kv.key) t
        × AreOrdered (suc kv.key) hi kvs ts
    AreOrdered lo hi kvs ts = ⊥

  abbrev mutual
    -- The pairs of the leaves, from left to right.
    pub entries : Tree D → List (KeyVal D)
    entries (node true kvs ts) = kvs
    entries (node false kvs ts) = all_entries ts

    pub all_entries : Trees D → List (KeyVal D)
    all_entries no_trees = []
    all_entries (below t ts) = entries t ++ all_entries ts

  -- The first place whose key is not less, or the number of keys.
  abbrev pub lower_index : ℕ → List (KeyVal D) → ℕ
  lower_index key [] = 0
  lower_index key (kv ∷ kvs) = if ltb kv.key key then suc (lower_index key kvs) else 0

  abbrev pub lookup : ℕ → List (KeyVal D) → Option D
  lookup key [] = none
  lookup key (kv ∷ kvs) = if kv.key == key then some kv.value else lookup key kvs

  mutual
    pub IsOrdered-le : (lo hi : ℕ) (t : Tree D) → IsOrdered lo hi t → lo ≤ hi
    IsOrdered-le lo hi (node true [] ts) h = h.0
    IsOrdered-le lo hi (node true (kv ∷ kvs) ts) h = omega (arith, h.0.0, h.0.1)
    IsOrdered-le lo hi (node false [] no_trees) h = omega (arith, h)
    IsOrdered-le lo hi (node false [] (below t ts)) h = AreOrdered-le lo hi [] (below t ts) h.0
    IsOrdered-le lo hi (node false (kv ∷ kvs) ts) h = AreOrdered-le lo hi (kv ∷ kvs) ts h.0

    AreOrdered-le :
        (lo hi : ℕ) (kvs : List (KeyVal D)) (ts : Trees D) → AreOrdered lo hi kvs ts → lo ≤ hi
    AreOrdered-le lo hi [] (below t no_trees) h = IsOrdered-le lo hi t h
    AreOrdered-le lo hi (kv ∷ kvs) (below t ts) h = omega (arith, h.0, h.1)
    AreOrdered-le lo hi [] no_trees h = absurd h
    AreOrdered-le lo hi [] (below t (below u ts)) h = absurd h
    AreOrdered-le lo hi (kv ∷ kvs) no_trees h = absurd h

  pub AreOrdered-IsAscending :
      (lo hi : ℕ) (kvs : List (KeyVal D)) (ts : Trees D)
      → AreOrdered lo hi kvs ts
      → IsAscending lo hi kvs
  AreOrdered-IsAscending lo hi [] ts h = AreOrdered-le lo hi [] ts h
  AreOrdered-IsAscending lo hi (kv ∷ kvs) (below t ts) h =
      (h.0, h.1, AreOrdered-IsAscending (suc kv.key) hi kvs ts h.3)
  AreOrdered-IsAscending lo hi (kv ∷ kvs) no_trees h = absurd h

  -- The keys from `lo` on and below `hi`.
  abbrev pub AreWithin : ℕ → ℕ → List (KeyVal D) → Type 0
  AreWithin lo hi = All (λ kv. (lo ≤ kv.key) × (kv.key < hi))

  widen :
      (lo hi lo' hi' : ℕ) (kvs : List (KeyVal D))
      → AreWithin lo hi kvs
      → lo' ≤ lo
      → hi ≤ hi'
      → AreWithin lo' hi' kvs
  widen lo hi lo' hi' [] h a b = tt
  widen lo hi lo' hi' (kv ∷ kvs) h a b =
      ((omega (arith, h.0.0), omega (arith, h.0.1)), widen lo hi lo' hi' kvs h.1 a b)

  pub IsAscending-AreWithin :
      (lo hi : ℕ) (kvs : List (KeyVal D)) → IsAscending lo hi kvs → AreWithin lo hi kvs
  IsAscending-AreWithin lo hi [] h = tt
  IsAscending-AreWithin lo hi (kv ∷ kvs) h = (
    (h.0, h.1),
    widen (suc kv.key) hi lo hi kvs (IsAscending-AreWithin (suc kv.key) hi kvs h.2)
        (omega (arith, h.0)) (omega arith),
  )

  mutual
    pub entries-AreWithin :
        (lo hi : ℕ) (t : Tree D) → IsOrdered lo hi t → AreWithin lo hi (entries t)
    entries-AreWithin lo hi (node true kvs ts) h = IsAscending-AreWithin lo hi kvs h.0
    entries-AreWithin lo hi (node false [] no_trees) h = tt
    entries-AreWithin lo hi (node false [] (below t ts)) h =
        all_entries-AreWithin lo hi [] (below t ts) h.0
    entries-AreWithin lo hi (node false (kv ∷ kvs) ts) h =
        all_entries-AreWithin lo hi (kv ∷ kvs) ts h.0

    pub all_entries-AreWithin :
        (lo hi : ℕ) (kvs : List (KeyVal D)) (ts : Trees D)
        → AreOrdered lo hi kvs ts
        → AreWithin lo hi (all_entries ts)
    all_entries-AreWithin lo hi [] (below t no_trees) h =
        append-All _ (entries t) [] (entries-AreWithin lo hi t h) tt
    all_entries-AreWithin lo hi (kv ∷ kvs) (below t ts) h =
        append-All _ (entries t) (all_entries ts)
          (widen lo (suc kv.key) lo hi (entries t) (entries-AreWithin lo (suc kv.key) t h.2)
            (omega arith) (omega (arith, h.1)))
          (widen (suc kv.key) hi lo hi (all_entries ts)
            (all_entries-AreWithin (suc kv.key) hi kvs ts h.3) (omega (arith, h.0)) (omega arith))
    all_entries-AreWithin lo hi [] no_trees h = tt
    all_entries-AreWithin lo hi [] (below t (below u ts)) h = absurd h
    all_entries-AreWithin lo hi (kv ∷ kvs) no_trees h = absurd h

  -- No pair with a key that does not belong.
  pub lookup-outside :
      (lo hi key : ℕ) (kvs : List (KeyVal D))
      → AreWithin lo hi kvs
      → (key < lo) ⊎ (hi ≤ key)
      → lookup key kvs ≡ none
  lookup-outside lo hi key [] h out = refl
  lookup-outside lo hi key (kv ∷ kvs) h out =
      let far : (kv.key == key) ≡ false = ground (arith, h.0.0, h.0.1, out) in
      rw far (lookup-outside lo hi key kvs h.1 out)

  pub lookup-append :
      (key : ℕ) (xs ys : List (KeyVal D))
      → lookup key ys ≡ none
      → lookup key (xs ++ ys) ≡ lookup key xs
  lookup-append key [] ys h = h
  lookup-append key (x ∷ xs) ys h =
      ap (λ r. if x.key == key then some x.value else r) (lookup-append key xs ys h)

  pub lookup-behind :
      (key : ℕ) (xs ys : List (KeyVal D))
      → lookup key xs ≡ none
      → lookup key (xs ++ ys) ≡ lookup key ys
  lookup-behind key [] ys h = refl
  lookup-behind key (x ∷ xs) ys h = elim (Bool-cases (x.key == key)) [
    | inl same ↦ let bad : some x.value ≡ none = rw same at h in cc
    | inr other ↦ rw other (lookup-behind key xs ys (rw other at h))
  ]

  -- A node that some key belongs to has children between its keys.
  pub IsOrdered-AreOrdered :
      (lo hi : ℕ) (kvs : List (KeyVal D)) (ts : Trees D)
      → IsOrdered lo hi (node false kvs ts)
      → lo < hi
      → AreOrdered lo hi kvs ts × (length kvs ≤ max_keys)
  IsOrdered-AreOrdered lo hi [] no_trees h some_key = absurd (omega (arith, h))
  IsOrdered-AreOrdered lo hi [] (below t ts) h some_key = h
  IsOrdered-AreOrdered lo hi (kv ∷ kvs) ts h some_key = h

  pub AreOrdered-IsOrdered :
      (lo hi : ℕ) (kvs : List (KeyVal D)) (ts : Trees D)
      → AreOrdered lo hi kvs ts
      → length kvs ≤ max_keys
      → IsOrdered lo hi (node false kvs ts)
  AreOrdered-IsOrdered lo hi [] no_trees h few = absurd h
  AreOrdered-IsOrdered lo hi [] (below t ts) h few = (h, few)
  AreOrdered-IsOrdered lo hi (kv ∷ kvs) ts h few = (h, few)

  pub IsAscending-widen :
      (lo lo' hi : ℕ) (kvs : List (KeyVal D))
      → IsAscending lo hi kvs
      → lo' ≤ lo
      → IsAscending lo' hi kvs
  IsAscending-widen lo lo' hi [] h le = omega (arith, h)
  IsAscending-widen lo lo' hi (kv ∷ kvs) h le = (omega (arith, h.0), h.1, h.2)
