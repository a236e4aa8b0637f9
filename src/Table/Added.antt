-- ===== src/Table/Added.antt =====
-- insert (server-side/schema/cursor.c) into a leaf with room, and get_row after it.
use yacdb.Common.{
  ℕ, ◌+◌, ◌≡◌, ◌≢◌, ◌<◌, ◌≤◌, sym, ap, ◌∙◌, some, List, ◌∷◌, true, false, ltb, leb, ◌==◌, arith,
  Bool-cases, inl, inr, take, drop, length, length-append, take-append-drop,
}
use yacdb.Common.State.{done}
use yacdb.Disk.{Node, KeyValue, is_leaf, nb_keys, order}
use yacdb.Disk.Store.{Nodes, NodeStore, update}
use yacdb.Table.{Cursor, lower_cell, get_row}
use yacdb.Table.Shape.{
  Shape, root_page, IsHeld, IsOrdered, rows, height, leaf_of, leaf_of_picked, lookup_row, leaf,
  branch, last, more, Shapes, AreHeld,
}
use yacdb.Table.Find.{find_leaf-leaf_of}
use yacdb.Table.Lookup.{at_row, get_row-lookup_row, lookup_row-leaf_of, leaf_of-IsOrdered}
use yacdb.Table.Insert.{create_kv, insert_in_arr_kv, insert}
use yacdb.Table.Leaf.{
  IsApart, with_leaf, root_page-with_leaf, leaf_of-with_leaf, height-with_leaf, with_leaf-IsApart,
}
use yacdb.Table.Grow.{
  with_row, with_row-IsAscending, lookup_row-with_row, lookup_row-with_row_other, with_leaf-IsHeld,
  with_leaf-IsOrdered, lookup_row-with_leaf,
}

-- The leaf with the row.
abbrev pub grown_leaf : KeyValue → Node → Node
grown_leaf kv n = record n { key_vals = with_row (create_kv kv.key kv.value) n.key_vals }

pub length-with_row :
    (kv : KeyValue) (kvs : List KeyValue) → length (with_row kv kvs) ≡ length kvs + 1
length-with_row kv kvs =
    let o = lower_cell kv.key kvs in
    omega (
      arith,
      length-append (take o kvs) (kv ∷ drop o kvs),
      ap length (take-append-drop o kvs),
      length-append (take o kvs) (drop o kvs),
    )

mutual
  pub leaf_of-IsHeld :
      (nodes : Nodes) (key : ℕ) (t : Shape)
      → IsHeld nodes t
      → (nodes (leaf_of key t).0 ≡ some (leaf_of key t).1) × (is_leaf (leaf_of key t).1 ≡ true)
  leaf_of-IsHeld nodes key (leaf p n) h = h
  leaf_of-IsHeld nodes key (branch p n ts) (h, inner, same, at, below) =
      leaf_of_picked-AreHeld nodes key ts below

  leaf_of_picked-AreHeld :
      (nodes : Nodes) (key : ℕ) (ts : Shapes)
      → AreHeld nodes ts
      → (nodes (leaf_of_picked key ts).0 ≡ some (leaf_of_picked key ts).1)
        × (is_leaf (leaf_of_picked key ts).1 ≡ true)
  leaf_of_picked-AreHeld nodes key (last t) h = leaf_of-IsHeld nodes key t h
  leaf_of_picked-AreHeld nodes key (more t k ts) h = elim (Bool-cases (ltb key k)) [
    | inl left ↦ rw left (leaf_of-IsHeld nodes key t h.0)
    | inr right ↦ rw right (leaf_of_picked-AreHeld nodes key ts h.1)
  ]

-- A tree in the store, in order and with each page once, that `fuel` is enough for.
pub record IsTable {S : Type 0} (store : NodeStore S) (given : List ℕ) (nodes : Nodes)
    (lo hi fuel : ℕ) (t : Shape) (s : S) : Type 0 where
  pub holds : store.Holds s given nodes
  pub held : IsHeld nodes t
  pub order : IsOrdered lo hi t
  pub apart : IsApart t
  pub enough : height t < fuel

module _ {S : Type 0} (store : NodeStore S) (memory given : List ℕ) (nodes : Nodes) (fuel lo hi : ℕ)
    (t : Shape) (s : S) (kv : KeyValue) where
  -- With room in the leaf, insert writes the leaf with the row, and nothing else.
  insert-grown_leaf :
      IsTable store given nodes lo hi fuel t s
      → nb_keys (leaf_of kv.key t).1 + 1 < order
      → store.Fits (grown_leaf kv (leaf_of kv.key t).1)
      → (after : S) × (insert store memory fuel (root_page t) kv s ≡ done tt after)
        × store.Holds after given
            (update nodes (leaf_of kv.key t).0 (grown_leaf kv (leaf_of kv.key t).1))
  unfolding insert insert_in_arr_kv create_kv
  insert-grown_leaf table few fits =
      let (p, n) = leaf_of kv.key t in
      let (s', found, holds) =
        find_leaf-leaf_of store given nodes kv.key fuel t s table.enough table.held table.holds in
      let there =
        store.given_lem s' given nodes (leaf_of kv.key t).0 (leaf_of kv.key t).1 holds
          (leaf_of-IsHeld nodes kv.key t table.held).0 in
      let (after, written, holds', _) =
        store.write_lem s' given nodes (leaf_of kv.key t).0 (grown_leaf kv (leaf_of kv.key t).1)
          holds there fits in
      let room : leb (nb_keys (leaf_of kv.key t).1) 4 ≡ true = ground (arith, few) in
      let small : (length (with_row (create_kv kv.key kv.value) (leaf_of kv.key t).1.key_vals) == 4)
          ≡ false =
        ground
          (arith, few, length-with_row (create_kv kv.key kv.value) (leaf_of kv.key t).1.key_vals) in
      (after, rw (found, room, small) written, holds')

-- The tree with the row.
abbrev pub grown_tree : KeyValue → Shape → Shape
grown_tree kv t = with_leaf kv.key (grown_leaf kv (leaf_of kv.key t).1) t

module _ {S : Type 0} (store : NodeStore S) (memory given : List ℕ) (nodes : Nodes) (fuel lo hi : ℕ)
    (t : Shape) (s : S) (kv : KeyValue) where
  -- On the nodes of a B+-tree in order, with more fuel than its height, insert of a row whose key lies in
  -- the bounds of the tree into a leaf that has room for it, and that the store can hold, succeeds. The
  -- nodes are again a B+-tree with its root on the same page, in order and within the same height.
  pub insert-IsTable :
      IsTable store given nodes lo hi fuel t s
      → lo ≤ kv.key
      → kv.key < hi
      → nb_keys (leaf_of kv.key t).1 + 1 < order
      → store.Fits (grown_leaf kv (leaf_of kv.key t).1)
      → (after : S) × (later : Nodes) × (insert store memory fuel (root_page t) kv s
          ≡ done tt after)
        × IsTable store given later lo hi fuel (grown_tree kv t) after
        × (root_page (grown_tree kv t) ≡ root_page t)
  unfolding create_kv is_leaf
  insert-IsTable table low high few fits =
      let (after, done_, holds) =
        insert-grown_leaf store memory given nodes fuel lo hi t s kv table few fits in
      let m = grown_leaf kv (leaf_of kv.key t).1 in
      (
        after,
        update nodes (leaf_of kv.key t).0 m,
        done_,
        record {
          holds = holds;
          held =
              with_leaf-IsHeld nodes kv.key m (leaf_of-IsHeld nodes kv.key t table.held).1 t
                table.apart table.held;
          order =
              with_leaf-IsOrdered kv.key m lo hi t
                (λ a b.
                  with_row-IsAscending (create_kv kv.key kv.value) a b
                    (leaf_of kv.key t).1.key_vals)
                low high table.order;
          apart = with_leaf-IsApart kv.key m t table.apart;
          enough = rw (height-with_leaf kv.key m t) table.enough;
        },
        root_page-with_leaf kv.key m t,
      )

  -- On the nodes of a B+-tree in order, with more fuel than its height, insert puts a row whose key lies
  -- in the bounds of the tree into a leaf that has room for it and that the store can hold. After it,
  -- get_row returns the row for its key, and for another key what the rows of the tree had before.
  pub get_row-insert :
      (other : ℕ)
      → IsTable store given nodes lo hi fuel t s
      → lo ≤ kv.key
      → kv.key < hi
      → nb_keys (leaf_of kv.key t).1 + 1 < order
      → store.Fits (grown_leaf kv (leaf_of kv.key t).1)
      → kv.key ≢ other
      → (after : S) × (after_row : S) × (after_other : S) × (c : Cursor) × (d : Cursor) × (insert
            store memory fuel
            (root_page t)
            kv
            s
          ≡ done tt after)
        × (get_row store fuel (root_page t) kv.key after ≡ done (c, some kv.value) after_row)
        × (get_row store fuel (root_page t) other after
            ≡ done (d, lookup_row other (rows t)) after_other)
  unfolding create_kv
  get_row-insert other table low high few fits far =
      let (after, later, inserted, grown, root) = insert-IsTable table low high few fits in
      let t' = grown_tree kv t in
      let m = grown_leaf kv (leaf_of kv.key t).1 in
      let (after_row, found, _) =
        get_row-lookup_row store given later fuel kv.key lo hi t' after grown.holds grown.held
          grown.order grown.enough in
      let (after_other, kept, _) =
        get_row-lookup_row store given later fuel other lo hi t' after grown.holds grown.held
          grown.order grown.enough in
      let (a, b, ascending) = leaf_of-IsOrdered kv.key lo hi t table.order in
      let row : lookup_row kv.key (rows t') ≡ some kv.value =
        lookup_row-leaf_of kv.key lo hi t' grown.order
        ∙ ap (λ (l : ℕ × Node). lookup_row kv.key l.1.key_vals) (leaf_of-with_leaf kv.key m t)
        ∙ lookup_row-with_row (create_kv kv.key kv.value) a b (leaf_of kv.key t).1.key_vals
            ascending in
      let distinct : (kv.key == other) ≡ false = ground (arith, far) in
      let others : lookup_row other (rows t') ≡ lookup_row other (rows t) =
        lookup_row-with_leaf kv.key m other t (
          lookup_row-with_row_other (create_kv kv.key kv.value) other (leaf_of kv.key t).1.key_vals
            distinct) in
      (
        after,
        after_row,
        after_other,
        at_row kv.key (leaf_of kv.key t'),
        at_row other (leaf_of other t'),
        inserted,
        ap (λ p. get_row store fuel p kv.key after) (sym root)
            ∙ found
            ∙ ap (λ r. done (at_row kv.key (leaf_of kv.key t'), r) after_row) row,
        ap (λ p. get_row store fuel p other after) (sym root)
            ∙ kept
            ∙ ap (λ r. done (at_row other (leaf_of other t'), r) after_other) others,
      )
