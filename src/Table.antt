-- ===== src/Table.antt =====
-- server-side/schema/cursor.c: the cursor on a B+-tree of rows, over the store of nodes, and get_row of
-- server-side/schema/db_ops.c. A cell counts the few keys of a node, so its `unsigned short` is exact.

pub mod Shape
pub mod Insert
pub mod Leaf
pub mod Grow
pub mod Added
pub mod Split
pub mod Rows
pub mod Replace
pub mod Count
pub mod Root
pub mod FirstSplit
pub mod Find
pub mod Lookup
use yacdb.Common.{
  ℕ, zero, suc, ◌≡◌, ◌+◌, Bool, true, false, not, ◌||◌, Option, none, some, List, [], ◌∷◌, Bytes,
  ltb, ◌==◌, if◌then◌else◌, get_elem?,
}
use yacdb.Common.Memory.{Result, ok, fault}
use yacdb.Common.State.{Outcome, Routine, done, error, crash, pure, abort, returned, ◌>>=◌}
use yacdb.Disk.{Node, KeyValue, nb_keys, is_leaf, no_page}
use yacdb.Disk.Store.{NodeStore}

pub record Cursor : Type 0 where
  pub page : ℕ
  pub node : Node
  pub cell : ℕ

-- `array[i]`.
abbrev pub found {ℓ} : {A : Type ℓ} → Option A → Result A
found none = fault
found (some a) = ok a

abbrev pub child_addr : Node → ℕ → Result ℕ
child_addr n i = found (get_elem? n.child_addrs i)

-- The first cell whose key is greater than `key`, or the number of keys.
unfoldable pub upper_cell : ℕ → List KeyValue → ℕ
upper_cell key [] = 0
upper_cell key (kv ∷ kvs) = if ltb key kv.key then 0 else suc (upper_cell key kvs)

-- The first cell whose key is not less than `key`, or the number of keys.
unfoldable pub lower_cell : ℕ → List KeyValue → ℕ
lower_cell key [] = 0
lower_cell key (kv ∷ kvs) = if ltb kv.key key then suc (lower_cell key kvs) else 0

-- A pointer that the caller does not test: its null value crashes the next access.
abbrev untested {ℓ} : {S : Type 0} {A : Type ℓ} → Outcome S A → Outcome S A
untested (done a s) = done a s
untested (error s) = crash
untested crash = crash

abbrev pub dereferenced {ℓ} : {S : Type 0} {A : Type ℓ} → Routine S A → Routine S A
dereferenced m s = untested (m s)

-- The row in the cell of a leaf, if it has the key.
abbrev row_at : ℕ → Option KeyValue → Option Bytes
row_at key none = none
row_at key (some kv) = if kv.key == key then some kv.value else none

module _ {S : Type 0} (store : NodeStore S) where
  unfoldable pub step_in : Cursor → Routine S Cursor
  step_in c = do
    page ← returned (child_addr c.node c.cell)
    node ← dereferenced (store.read page)
    pure (record { page = page; node = node; cell = 0 })

  -- The loop of create_at_start; the fuel bounds the levels of the tree.
  unfoldable pub leftmost : ℕ → Cursor → Routine S Cursor
  leftmost zero c = abort
  leftmost (suc fuel) c =
      let deeper : Routine S Cursor = (do
        page ← returned (child_addr c.node 0)
        node ← dereferenced (store.read page)
        leftmost fuel (record { page = page; node = node; cell = 0 })) in
      if is_leaf c.node then pure c else deeper

  unfoldable pub create_at_start : ℕ → ℕ → Routine S Cursor
  create_at_start fuel root = do
    node ← store.read root
    leftmost fuel (record { page = root; node = node; cell = 0 })

  -- The loop of find_leaf; the cursor enters each node at its first cell.
  unfoldable pub descend : ℕ → ℕ → Cursor → Routine S Cursor
  descend zero key c = abort
  descend (suc fuel) key c =
      let deeper : Routine S Cursor = (do
        below ← step_in (record c { cell = upper_cell key c.node.key_vals })
        descend fuel key below) in
      if is_leaf c.node then pure c else deeper

  unfoldable pub find_leaf : ℕ → ℕ → ℕ → Routine S Cursor
  find_leaf fuel root key = do
    node ← store.read root
    descend fuel key (record { page = root; node = node; cell = 0 })

  -- The cursor, and whether it is on another entry. A next leaf that cannot be read leaves the cursor
  -- without a node, which every caller reads.
  unfoldable pub cursor_next : Cursor → Routine S (Cursor × Bool)
  cursor_next c =
      let next = record c { cell = suc c.cell } in
      let on : ℕ → Routine S (Cursor × Bool) = λ page. (do
        node ← dereferenced (store.read page)
        pure (record { page = page; node = node; cell = 0 }, true)) in
      let leave : ℕ → Routine S (Cursor × Bool) =
        λ page. if page == no_page then pure (next, false) else on page in
      let last : Routine S (Cursor × Bool) = (do
        page ← returned (child_addr c.node 0)
        leave page) in
      if ltb next.cell (nb_keys c.node) then pure (next, true) else last

  -- The cursor on the row, and a copy of the row.
  unfoldable pub get_row : ℕ → ℕ → ℕ → Routine S (Cursor × Option Bytes)
  get_row fuel root key = do
    c ← find_leaf fuel root key
    let cell = lower_cell key c.node.key_vals
    pure (record c { cell = cell }, row_at key (get_elem? c.node.key_vals cell))
