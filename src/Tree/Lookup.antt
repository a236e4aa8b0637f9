-- ===== src/Tree/Lookup.antt =====
-- yabsearch after yabinsert and after yabdelete (table_tree/nodes.c).
use yacdb.Common.{
  ℕ, suc, ◌≤◌, ◌<◌, ◌≡◌, ◌≢◌, true, false, List, [], ◌∷◌, none, some, ltb, ◌==◌, if◌then◌else◌,
  arith, refl, ap, sym, ◌∙◌, Bool-cases, inl, inr,
}
use yacdb.Common.Memory.{ok}
use yacdb.Tree.{KeyVal, Tree, nb_keys, has_key, place, insert_leaf, yabsearch, yabinsert, yabdelete}
use yacdb.Tree.Order.{IsOrdered, entries, lookup}
use yacdb.Tree.Index.{NoKey}
use yacdb.Tree.Search.{yabsearch-lookup}
use yacdb.Tree.Delete.{remove, yabdelete-remove}
use yacdb.Tree.Split.{IsOpen, own_keys}
use yacdb.Tree.Insert.{yabinsert-insert_leaf}

module _ {D : Type 0} where
  lookup-place :
      (kv : KeyVal D) (kvs : List (KeyVal D))
      → has_key kv.key kvs ≡ false
      → lookup kv.key (place kv kvs) ≡ some kv.value
  lookup-place kv [] absent = ground arith
  lookup-place kv (x ∷ kvs) absent = elim (Bool-cases (x.key == kv.key)) [
    | inl same ↦ let bad : true ≡ false = rw same at absent in cc
    | inr other ↦
        let rest : has_key kv.key kvs ≡ false = rw other at absent in
        elim (Bool-cases (ltb kv.key x.key)) [
          | inl behind ↦ rw behind (ground arith)
          | inr before ↦ rw (before, other) (lookup-place kv kvs rest)
        ]
  ]

  lookup-place_other :
      (kv : KeyVal D) (key : ℕ) (kvs : List (KeyVal D))
      → kv.key ≢ key
      → lookup key (place kv kvs) ≡ lookup key kvs
  lookup-place_other kv key [] far =
      let e : (kv.key == key) ≡ false = ground (arith, far) in rw e refl
  lookup-place_other kv key (x ∷ kvs) far =
      let e : (kv.key == key) ≡ false = ground (arith, far) in
      elim (Bool-cases (ltb kv.key x.key)) [
        | inl behind ↦ rw (behind, e) refl
        | inr before ↦
            rw before (
              ap (λ r. if x.key == key then some x.value else r)
                (lookup-place_other kv key kvs far))
      ]

  lookup-remove :
      (key other : ℕ) (kvs : List (KeyVal D))
      → (lookup key (remove key kvs) ≡ none)
        × (key ≢ other → lookup other (remove key kvs) ≡ lookup other kvs)
  lookup-remove key other [] = (refl, λ far. refl)
  lookup-remove key other (x ∷ kvs) =
      let (gone, kept) = lookup-remove key other kvs in
      elim (Bool-cases (x.key == key)) [
        | inl same ↦ rw same (
          gone,
          λ far. let e : (x.key == other) ≡ false = ground (arith, same, far) in rw e (kept far),
        )
        | inr differs ↦ rw differs (
          rw differs gone,
          λ far. ap (λ r. if x.key == other then some x.value else r) (kept far),
        )
      ]

  -- yabinsert of a pair whose key is not in a tree in order, nor above its leaves, with at most `fuel`
  -- levels, gives a tree in which yabsearch finds the value of the pair, and for every other key what it
  -- found before.
  pub yabsearch-yabinsert :
      (fuel : ℕ) (t : Tree D) (kv : KeyVal D) (lo hi : ℕ)
      → IsOrdered lo hi t
      → IsOpen fuel kv.key t
      → has_key kv.key (entries t) ≡ false
      → (nb_keys t ≡ 4 → NoKey kv.key (own_keys t))
      → lo ≤ kv.key
      → kv.key < hi
      → (u : Tree D) × (yabinsert (suc fuel) t kv ≡ ok u)
        × (yabsearch u kv.key ≡ ok (some kv.value))
        × ((key : ℕ) → lo ≤ key → key < hi → kv.key ≢ key → yabsearch u key ≡ yabsearch t key)
  unfolding insert_leaf
  yabsearch-yabinsert fuel t kv lo hi h open_ absent others a b =
      let (u, e, o, same) = yabinsert-insert_leaf fuel t kv lo hi h open_ others a b in
      let placed : entries u ≡ place kv (entries t) = same ∙ rw absent refl in
      (
        u,
        e,
        yabsearch-lookup u kv.key lo hi o a b
            ∙ ap (λ l. ok (lookup kv.key l)) placed
            ∙ ap ok (lookup-place kv (entries t) absent),
        λ key a' b' far.
            yabsearch-lookup u key lo hi o a' b'
            ∙ ap (λ l. ok (lookup key l)) placed
            ∙ ap ok (lookup-place_other kv key (entries t) far)
            ∙ sym (yabsearch-lookup t key lo hi h a' b'),
      )

  -- yabdelete of a key that belongs to a tree in order gives a tree in which yabsearch does not find the
  -- key, and for every other key finds what it found before.
  pub yabsearch-yabdelete :
      (t : Tree D) (key lo hi : ℕ)
      → IsOrdered lo hi t
      → lo ≤ key
      → key < hi
      → (u : Tree D) × (yabdelete t key ≡ ok u)
        × (yabsearch u key ≡ ok none)
        × ((other : ℕ)
            → lo ≤ other
            → other < hi
            → key ≢ other
            → yabsearch u other ≡ yabsearch t other)
  yabsearch-yabdelete t key lo hi h a b =
      let (u, e, o, same) = yabdelete-remove t key lo hi h a b in
      (
        u,
        e,
        yabsearch-lookup u key lo hi o a b
            ∙ ap (λ l. ok (lookup key l)) same
            ∙ ap ok (lookup-remove key key (entries t)).0,
        λ other a' b' far.
            yabsearch-lookup u other lo hi o a' b'
            ∙ ap (λ l. ok (lookup other l)) same
            ∙ ap ok ((lookup-remove key other (entries t)).1 far)
            ∙ sym (yabsearch-lookup t other lo hi h a' b'),
      )
