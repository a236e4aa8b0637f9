-- ===== src/Table/Replace.antt =====
-- set_n_record (server-side/schema/db_ops.c) on a whole B+-tree whose keys are in order.
use yacdb.Common.{
  ℕ, zero, suc, ◌≡◌, ◌≢◌, ◌<◌, ◌≤◌, refl, sym, ap, ◌∙◌, subst, some, List, [], ◌∷◌, true, false,
  ltb, ◌==◌, ==_iff, arith, Bool-cases, inl, inr, Bytes, get_elem?, set,
}
use yacdb.Common.Memory.{ok}
use yacdb.Common.State.{done}
use yacdb.Disk.{Node, KeyValue, is_leaf}
use yacdb.Disk.Store.{Nodes, NodeStore, update}
use yacdb.Disk.Store.Copies.{some_injective}
use yacdb.Record.{Record}
use yacdb.Record.Compress.{replace_record}
use yacdb.Table.{lower_cell, row_at}
use yacdb.Table.Shape.{Shape, root_page, IsAscending, IsOrdered, rows, leaf_of, lookup_row}
use yacdb.Table.Lookup.{
  get_row-lookup_row, lookup_row-leaf_of, leaf_of-IsOrdered, row_at-lower_cell,
}
use yacdb.Table.Rows.{replace_in, set_n_record}
use yacdb.Table.Leaf.{
  with_leaf, root_page-with_leaf, leaf_of-with_leaf, height-with_leaf, with_leaf-IsApart,
}
use yacdb.Table.Grow.{with_leaf-IsHeld, with_leaf-IsOrdered, lookup_row-with_leaf}
use yacdb.Table.Added.{IsTable, leaf_of-IsHeld}

-- The row of a cell replaced.
abbrev pub with_value : List KeyValue → ℕ → KeyValue → Bytes → List KeyValue
with_value kvs cell kv value = set kvs cell (record kv { value = value })

-- The leaf with the first row whose key is not less replaced.
abbrev pub replaced_leaf : ℕ → KeyValue → Bytes → Node → Node
replaced_leaf key kv value n = record n {
  key_vals = with_value n.key_vals (lower_cell key n.key_vals) kv value;
}

abbrev pub replaced_tree : ℕ → KeyValue → Bytes → Shape → Shape
replaced_tree key kv value t = with_leaf key (replaced_leaf key kv value (leaf_of key t).1) t

with_value-IsAscending :
    (lo hi : ℕ) (kvs : List KeyValue) (i : ℕ) (kv : KeyValue) (value : Bytes)
    → get_elem? kvs i ≡ some kv
    → IsAscending lo hi kvs
    → IsAscending lo hi (with_value kvs i kv value)
with_value-IsAscending lo hi [] i kv value e h = h
with_value-IsAscending lo hi (r ∷ kvs) zero kv value e h =
    let same : r ≡ kv = some_injective e in
    subst (λ (k : KeyValue). (lo ≤ k.key) × (k.key < hi) × IsAscending k.key hi kvs) same h
with_value-IsAscending lo hi (r ∷ kvs) (suc i) kv value e h =
    (h.0, h.1, with_value-IsAscending r.key hi kvs i kv value e h.2)

lookup_row-with_value :
    (key : ℕ) (kvs : List KeyValue) (kv : KeyValue) (value : Bytes)
    → get_elem? kvs (lower_cell key kvs) ≡ some kv
    → kv.key ≡ key
    → lookup_row key (with_value kvs (lower_cell key kvs) kv value) ≡ some value
unfolding lower_cell
lookup_row-with_value key [] kv value e same = absurd (cc)
lookup_row-with_value key (r ∷ kvs) kv value e same = elim (Bool-cases (ltb r.key key)) [
  | inl less ↦
      let far : (r.key == key) ≡ false = ground (arith, less) in
      rw (less, far) (lookup_row-with_value key kvs kv value (rw less at e) same)
  | inr here ↦ rw here (let it : (kv.key == key) ≡ true = (==_iff kv.key key).1 same in rw it refl)
]

lookup_row-with_value_other :
    (other : ℕ) (kvs : List KeyValue) (i : ℕ) (kv : KeyValue) (value : Bytes)
    → get_elem? kvs i ≡ some kv
    → (kv.key == other) ≡ false
    → lookup_row other (with_value kvs i kv value) ≡ lookup_row other kvs
lookup_row-with_value_other other [] i kv value e far = refl
lookup_row-with_value_other other (r ∷ kvs) zero kv value e far =
    let same : r ≡ kv = some_injective e in rw (same, far) refl
lookup_row-with_value_other other (r ∷ kvs) (suc i) kv value e far =
    rw (lookup_row-with_value_other other kvs i kv value e far) refl

-- The row of the tree that stands in an entry of its leaf.
pub lookup_row-entry :
    (key lo hi : ℕ) (t : Shape) (kv : KeyValue)
    → IsOrdered lo hi t
    → get_elem? (leaf_of key t).1.key_vals (lower_cell key (leaf_of key t).1.key_vals) ≡ some kv
    → kv.key ≡ key
    → lookup_row key (rows t) ≡ some kv.value
lookup_row-entry key lo hi t kv order entry same =
    let it : (kv.key == key) ≡ true = (==_iff kv.key key).1 same in
    let (a, b, ascending) = leaf_of-IsOrdered key lo hi t order in
    lookup_row-leaf_of key lo hi t order
    ∙ sym (row_at-lower_cell key a b (leaf_of key t).1.key_vals ascending)
    ∙ ap (row_at key) entry
    ∙ rw it refl

module _ {S : Type 0} (store : NodeStore S) (given : List ℕ) (nodes : Nodes) (fuel lo hi : ℕ)
    (t : Shape) (s : S) where
  -- On the nodes of a B+-tree in order, with more fuel than its height, where a key in its bounds has a row
  -- that stands in the entry `kv`, and replace_record makes of it a row with which the store can hold the
  -- leaf, set_n_record succeeds. The nodes are again such a tree, with its root on the same page, in which
  -- the key has the new row and another key has what it had.
  pub set_n_record-lookup_row :
      (memory : List ℕ) (key n other : ℕ) (new : Record) (kv : KeyValue) (value : Bytes)
      → IsTable store given nodes lo hi fuel t s
      → lo ≤ key
      → key < hi
      → get_elem? (leaf_of key t).1.key_vals (lower_cell key (leaf_of key t).1.key_vals) ≡ some kv
      → kv.key ≡ key
      → replace_record kv.value n new ≡ ok value
      → store.Fits (replaced_leaf key kv value (leaf_of key t).1)
      → key ≢ other
      → (after : S) × (later : Nodes) × (set_n_record store memory fuel (root_page t) key n new s
          ≡ done tt after)
        × IsTable store given later lo hi fuel (replaced_tree key kv value t) after
        × (root_page (replaced_tree key kv value t) ≡ root_page t)
        × (lookup_row key (rows (replaced_tree key kv value t)) ≡ some value)
        × (lookup_row other (rows (replaced_tree key kv value t)) ≡ lookup_row other (rows t))
  unfolding set_n_record replace_in is_leaf
  set_n_record-lookup_row memory key n other new kv value table low high entry same replaced fits
        far =
      let old = (leaf_of key t).1 in
      let m = replaced_leaf key kv value old in
      let (s', found, holds) =
        get_row-lookup_row store given nodes fuel key lo hi t s table.holds table.held table.order
          table.enough in
      let (held, leafy) = leaf_of-IsHeld nodes key t table.held in
      let row = lookup_row-entry key lo hi t kv table.order entry same in
      let there = store.given_lem s' given nodes (leaf_of key t).0 old holds held in
      let (after, written, holds', _) =
        store.write_lem s' given nodes (leaf_of key t).0 m holds there fits in
      let order =
        with_leaf-IsOrdered key m lo hi t
          (λ a b c d asc.
            with_value-IsAscending a b old.key_vals (lower_cell key old.key_vals) kv value entry
              asc)
          low high table.order in
      let distinct : (kv.key == other) ≡ false = ground (arith, same, far) in
      (
        after,
        update nodes (leaf_of key t).0 m,
        rw (found, row, entry, replaced) written,
        record {
          holds = holds';
          held = with_leaf-IsHeld nodes key m leafy t table.apart table.held;
          order = order;
          apart = with_leaf-IsApart key m t table.apart;
          enough = rw (height-with_leaf key m t) table.enough;
        },
        root_page-with_leaf key m t,
        lookup_row-leaf_of key lo hi (with_leaf key m t) order
            ∙ ap (λ (l : ℕ × Node). lookup_row key l.1.key_vals) (leaf_of-with_leaf key m t)
            ∙ lookup_row-with_value key old.key_vals kv value entry same,
        lookup_row-with_leaf key m other t (
            lookup_row-with_value_other other old.key_vals (lower_cell key old.key_vals) kv value
              entry distinct),
      )
