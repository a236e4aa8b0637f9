-- ===== src/Tree/Index.antt =====
-- The loops of table_tree/nodes.c that halve the keys of a node, and the scan that they stand for.
use yacdb.Common.{
  ℕ, zero, suc, ◌+◌, ◌-◌, ◌/◌, ◌≤◌, ◌<◌, ◌≡◌, ◌≢◌, Bool, true, false, List, [], ◌∷◌, length, All,
  ltb, leb, ◌==◌, if◌then◌else◌, arith, refl, ap, ◌∙◌, Bool-cases, inl, inr, ltb→lt, ltb-false,
  lt→ltb, ge→ltb, ==_iff,
}
use yacdb.Tree.{KeyVal, key_at, halve_search, halve_delete, halve_insert}
use yacdb.Tree.Order.{IsAscending, lower_index}

module _ {D : Type 0} where
  lower_index-le : (key : ℕ) (kvs : List (KeyVal D)) → lower_index key kvs ≤ length kvs
  lower_index-le key [] = omega arith
  lower_index-le key (kv ∷ kvs) = elim (Bool-cases (ltb kv.key key)) [
    | inl less ↦ rw less (omega (arith, lower_index-le key kvs))
    | inr here ↦ rw here (omega arith)
  ]

  key_at-ge :
      (kvs : List (KeyVal D)) (i lo hi : ℕ)
      → IsAscending lo hi kvs
      → i < length kvs
      → lo ≤ key_at kvs i
  key_at-ge [] i lo hi h inside = absurd (omega arith)
  key_at-ge (kv ∷ kvs) zero lo hi h inside = h.0
  key_at-ge (kv ∷ kvs) (suc i) lo hi h inside =
      omega (arith, h.0, key_at-ge kvs i (suc kv.key) hi h.2 (omega arith))

  -- The keys before the place are less, and from it on they are not.
  before_lower :
      (key i : ℕ) (kvs : List (KeyVal D)) (lo hi : ℕ)
      → IsAscending lo hi kvs
      → i < length kvs
      → key_at kvs i < key
      → i < lower_index key kvs
  before_lower key i [] lo hi h inside less = absurd (omega arith)
  before_lower key zero (kv ∷ kvs) lo hi h inside less = rw (lt→ltb kv.key key less) (omega arith)
  before_lower key (suc i) (kv ∷ kvs) lo hi h inside less = elim (Bool-cases (ltb kv.key key)) [
    | inl low ↦
        rw low (omega (arith, before_lower key i kvs (suc kv.key) hi h.2 (omega arith) less))
    | inr high ↦ absurd (
        omega (arith, ltb-false kv.key key high, key_at-ge kvs i (suc kv.key) hi h.2 (omega arith)))
  ]

  from_lower :
      (key i : ℕ) (kvs : List (KeyVal D))
      → i < length kvs
      → key ≤ key_at kvs i
      → lower_index key kvs ≤ i
  from_lower key i [] inside more = absurd (omega arith)
  from_lower key zero (kv ∷ kvs) inside more = rw (ge→ltb kv.key key more) (omega arith)
  from_lower key (suc i) (kv ∷ kvs) inside more = elim (Bool-cases (ltb kv.key key)) [
    | inl less ↦ rw less (omega (arith, from_lower key i kvs (omega arith) more))
    | inr here ↦ rw here (omega arith)
  ]

  halve_delete-between :
      (fuel : ℕ) (kvs : List (KeyVal D)) (key low max lo hi : ℕ)
      → IsAscending lo hi kvs
      → low ≤ lower_index key kvs
      → lower_index key kvs ≤ max
      → max ≤ length kvs
      → max - low ≤ fuel
      → halve_delete fuel kvs key low max ≡ lower_index key kvs
  unfolding halve_delete
  halve_delete-between zero kvs key low max lo hi h a b inside enough = omega arith
  halve_delete-between (suc fuel) kvs key low max lo hi h a b inside enough =
      elim (Bool-cases (ltb low max)) [
        | inr stop ↦ rw stop (omega (arith, ltb-false low max stop))
        | inl go ↦
            let cur = (max + low - 1) / 2 in
            let lt = ltb→lt low max go in
            let low_cur : low ≤ cur = omega arith in
            let cur_max : cur < max = omega arith in
            elim (Bool-cases (ltb (key_at kvs cur) key)) [
              | inl less ↦
                  let past = before_lower key cur kvs lo hi h (omega arith) (ltb→lt _ _ less) in
                  rw (go, less)
                    (halve_delete-between fuel kvs key (suc cur) max lo hi h past b inside
                      (omega arith))
              | inr more ↦
                  let here = from_lower key cur kvs (omega arith) (ltb-false _ _ more) in
                  rw (go, more)
                    (halve_delete-between fuel kvs key low cur lo hi h a here (omega arith)
                      (omega arith))
            ]
      ]

  -- The loop of yabdelete gives the first place whose key is not less.
  pub halve_delete-lower_index :
      (kvs : List (KeyVal D)) (key lo hi : ℕ)
      → IsAscending lo hi kvs
      → halve_delete (length kvs) kvs key 0 (length kvs) ≡ lower_index key kvs
  halve_delete-lower_index kvs key lo hi h =
      halve_delete-between (length kvs) kvs key 0 (length kvs) lo hi h (omega arith)
        (lower_index-le key kvs) (omega arith) (omega arith)

  -- Whether a key is equal.
  abbrev pub equal_there : ℕ → List (KeyVal D) → Bool
  equal_there key [] = false
  equal_there key (kv ∷ kvs) = if ltb kv.key key then equal_there key kvs else kv.key == key

  equal_lower :
      (key i : ℕ) (kvs : List (KeyVal D)) (lo hi : ℕ)
      → IsAscending lo hi kvs
      → i < length kvs
      → key_at kvs i ≡ key
      → (lower_index key kvs ≡ i) × (equal_there key kvs ≡ true)
  equal_lower key i [] lo hi h inside e = absurd (omega arith)
  equal_lower key zero (kv ∷ kvs) lo hi h inside e =
      rw (ge→ltb kv.key key (omega (arith, e))) (refl, ground (arith, e))
  equal_lower key (suc i) (kv ∷ kvs) lo hi h inside e =
      let (same, there) = equal_lower key i kvs (suc kv.key) hi h.2 (omega arith) e in
      let less : ltb kv.key key ≡ true =
        lt→ltb _ _ (omega (arith, e, key_at-ge kvs i (suc kv.key) hi h.2 (omega arith))) in
      rw less (ap suc same, there)

  no_equal :
      (key : ℕ) (kvs : List (KeyVal D))
      → (lower_index key kvs < length kvs → key < key_at kvs (lower_index key kvs))
      → equal_there key kvs ≡ false
  no_equal key [] h = refl
  no_equal key (kv ∷ kvs) h = elim (Bool-cases (ltb kv.key key)) [
    | inl less ↦ rw less (
        no_equal key kvs (λ inside.
          let h' : suc (lower_index key kvs) < suc (length kvs)
              → key < key_at kvs (lower_index key kvs) =
            rw less at h in
          h' (omega arith)))
    | inr more ↦
        let h' : 0 < suc (length kvs) → key < kv.key = rw more at h in
        let past : key < kv.key = h' (omega arith) in rw more (ground (arith, past))
  ]

  halve_search-between :
      (fuel : ℕ) (kvs : List (KeyVal D)) (key low max lo hi : ℕ)
      → IsAscending lo hi kvs
      → low ≤ lower_index key kvs
      → lower_index key kvs ≤ max
      → max ≤ length kvs
      → (max < length kvs → key < key_at kvs max)
      → max - low ≤ fuel
      → halve_search fuel kvs key low max ≡ (lower_index key kvs, equal_there key kvs)
  unfolding halve_search
  halve_search-between zero kvs key low max lo hi h a b inside past enough =
      let e : lower_index key kvs ≡ max = omega arith in rw (e, no_equal key kvs (rw e past)) refl
  halve_search-between (suc fuel) kvs key low max lo hi h a b inside past enough =
      elim (Bool-cases (ltb low max)) [
        | inr stop ↦
            let e : lower_index key kvs ≡ max = omega (arith, ltb-false low max stop) in
            rw (stop, e, no_equal key kvs (rw e past)) refl
        | inl go ↦
            let cur = (max + low - 1) / 2 in
            let lt = ltb→lt low max go in
            let low_cur : low ≤ cur = omega arith in
            let cur_max : cur < max = omega arith in
            elim (Bool-cases (key_at kvs cur == key)) [
              | inl same ↦
                  let e = (==_iff (key_at kvs cur) key).0 same in
                  let (i, there) = equal_lower key cur kvs lo hi h (omega arith) e in
                  rw (go, same, i, there) refl
              | inr other ↦ elim (Bool-cases (ltb (key_at kvs cur) key)) [
                | inl less ↦
                    let from = before_lower key cur kvs lo hi h (omega arith) (ltb→lt _ _ less) in
                    rw (go, other, less)
                      (halve_search-between fuel kvs key (suc cur) max lo hi h from b inside past
                        (omega arith))
                | inr more ↦
                    let here = from_lower key cur kvs (omega arith) (ltb-false _ _ more) in
                    let past' : key < key_at kvs cur = ground (arith, other, ltb-false _ _ more) in
                    rw (go, other, more)
                      (halve_search-between fuel kvs key low cur lo hi h a here (omega arith)
                        (λ i. past') (omega arith))
              ]
            ]
      ]

  -- The loop of yabsearch gives that place too, and whether the key there is equal.
  pub halve_search-lower_index :
      (kvs : List (KeyVal D)) (key lo hi : ℕ)
      → IsAscending lo hi kvs
      → halve_search (length kvs) kvs key 0 (length kvs)
        ≡ (lower_index key kvs, equal_there key kvs)
  halve_search-lower_index kvs key lo hi h =
      halve_search-between (length kvs) kvs key 0 (length kvs) lo hi h (omega arith)
        (lower_index-le key kvs) (omega arith) (λ i. absurd (omega arith)) (omega arith)

  abbrev pub NoKey : ℕ → List (KeyVal D) → Type 0
  NoKey key = All (λ kv. kv.key ≢ key)

  key_at-NoKey :
      (key i : ℕ) (kvs : List (KeyVal D)) → NoKey key kvs → i < length kvs → key_at kvs i ≢ key
  key_at-NoKey key i [] h inside = absurd (omega arith)
  key_at-NoKey key zero (kv ∷ kvs) h inside = h.0
  key_at-NoKey key (suc i) (kv ∷ kvs) h inside = key_at-NoKey key i kvs h.1 (omega arith)

  -- Where no key is equal, the loops of yabinsert and yabdelete do the same.
  halve_insert-halve_delete :
      (fuel : ℕ) (kvs : List (KeyVal D)) (key low max : ℕ)
      → NoKey key kvs
      → max ≤ length kvs
      → halve_insert fuel kvs key low max ≡ halve_delete fuel kvs key low max
  unfolding halve_insert halve_delete
  halve_insert-halve_delete zero kvs key low max h inside = refl
  halve_insert-halve_delete (suc fuel) kvs key low max h inside = elim (Bool-cases (ltb low max)) [
    | inr stop ↦ rw stop refl
    | inl go ↦
        let cur = (max + low - 1) / 2 in
        let lt = ltb→lt low max go in
        let cur_max : cur < max = omega arith in
        let other = key_at-NoKey key cur kvs h (omega arith) in
        elim (Bool-cases (ltb (key_at kvs cur) key)) [
          | inl less ↦
              let le : leb (key_at kvs cur) key ≡ true = ground (arith, less) in
              rw (go, less, le) (halve_insert-halve_delete fuel kvs key (suc cur) max h inside)
          | inr more ↦
              let gt : leb (key_at kvs cur) key ≡ false = ground (arith, more, other) in
              rw (go, more, gt) (halve_insert-halve_delete fuel kvs key low cur h (omega arith))
        ]
  ]

  pub halve_insert-lower_index :
      (kvs : List (KeyVal D)) (key lo hi : ℕ)
      → IsAscending lo hi kvs
      → NoKey key kvs
      → halve_insert (length kvs) kvs key 0 (length kvs) ≡ lower_index key kvs
  halve_insert-lower_index kvs key lo hi h other =
      halve_insert-halve_delete (length kvs) kvs key 0 (length kvs) other (omega arith)
      ∙ halve_delete-lower_index kvs key lo hi h
