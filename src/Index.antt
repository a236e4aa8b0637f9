-- ===== src/Index.antt =====
-- server-side/schema/cursor_bt.c: the search in an index, a B-tree of the keys of a table's rows in the
-- order of one record of the rows. `levels` bounds the levels of the table, `fuel` those of the index;
-- `rows_fuel` bounds the entries that find_all walks over.
pub mod Insert
pub mod Columns
pub mod Init
pub mod Offsets
pub mod Names
pub mod Missing
use yacdb.Common.{
  ℕ, zero, suc, ◌+◌, Bool, true, false, Option, none, some, List, [], ◌∷◌, ltb, take, ◌==◌,
  if◌then◌else◌, get_elem?,
}
use yacdb.Common.Int.{ℤ, pos, negsuc}
use yacdb.Common.State.{Outcome, Routine, pure, fail, abort, returned, attempt, ◌>>=◌}
use yacdb.Disk.{Node, KeyValue, is_leaf, nb_keys, no_page}
use yacdb.Disk.Store.{NodeStore}
use yacdb.Record.{Record}
use yacdb.Record.Compare.{compare_r}
use yacdb.Table.{Cursor, found, child_addr, dereferenced, step_in}
use yacdb.Table.Rows.{get_n_record}

-- The sign of what compare_r returns.
pub data Sign : Type 0 where
  less equal greater : Sign

abbrev pub sign_of : ℤ → Sign
sign_of (pos zero) = Sign.equal
sign_of (pos (suc n)) = Sign.greater
sign_of (negsuc n) = Sign.less

-- The first cell that holds an address, or 0.
unfoldable pub cell_of : ℕ → ℕ → List ℕ → ℕ
cell_of page i [] = 0
cell_of page i (addr ∷ addrs) = if addr == page then i else cell_of page (suc i) addrs

module _ {S : Type 0} (store : NodeStore S) (memory : List ℕ) (levels n table : ℕ) where
  -- The comparison with the record of an entry; a row that is not there is read through NULL.
  unfoldable pub compare_entry : Record → KeyValue → Routine S Sign
  compare_entry key_r kv = do
    node_key ← dereferenced (get_n_record store memory levels table kv.key n)
    cmp ← returned (compare_r key_r node_key)
    pure (sign_of cmp)

  -- The inner loop of find_bt: the cell where it stops, and whether the record there is equal.
  unfoldable pub scan_cells : Record → ℕ → List KeyValue → Routine S (ℕ × Bool)
  scan_cells key_r cell [] = pure (cell, false)
  scan_cells key_r cell (kv ∷ kvs) = do
    sign ← compare_entry key_r kv
    elim sign [
      | equal ↦ pure (cell, true)
      | less ↦ pure (cell, false)
      | greater ↦ scan_cells key_r (suc cell) kvs
    ]

  abbrev or_here : Cursor → Option Cursor → Option Cursor
  or_here c none = some c
  or_here c (some child) = some child

  -- A node that find_bt cannot read is a key that it does not find.
  abbrev entered :
      (Cursor → Routine S (Option Cursor)) → ℕ → Option Node → Routine S (Option Cursor)
  entered search page none = pure none
  entered search page (some node) = search (record { page = page; node = node; cell = 0 })

  -- Behind the cell where the inner loop stops: a node below, or the end. `search` is find_bt itself in
  -- the child before an equal entry, and the rest of its loop after step_in.
  abbrev onward :
      (Cursor → Routine S (Option Cursor)) → Cursor → Bool → Bool → Routine S (Option Cursor)
  onward search here true true = pure (some here)
  onward search here true false = do
    page ← returned (child_addr here.node here.cell)
    node ← attempt (store.read page)
    child ← entered search page node
    pure (or_here here child)
  onward search here false true = pure none
  onward search here false false = do below ← step_in store here; search below

  -- The outer loop of find_bt, and its call of itself.
  unfoldable pub search_bt : ℕ → Record → Cursor → Routine S (Option Cursor)
  search_bt zero key_r c = abort
  search_bt (suc fuel) key_r c = do
    (cell, equal_) ← scan_cells key_r 0 c.node.key_vals
    onward (search_bt fuel key_r) (record c { cell = cell }) equal_ (is_leaf c.node)

  unfoldable pub find_bt : ℕ → ℕ → Record → Routine S (Option Cursor)
  find_bt fuel root key_r = do
    node ← attempt (store.read root)
    entered (search_bt fuel key_r) root node

  -- The loop of find_bt_leaf over the cells of a node.
  unfoldable pub upper_entry : Record → ℕ → List KeyValue → Routine S ℕ
  upper_entry key_r cell [] = pure cell
  upper_entry key_r cell (kv ∷ kvs) = do
    sign ← compare_entry key_r kv
    elim sign [
      | less ↦ pure cell
      | equal ↦ upper_entry key_r (suc cell) kvs
      | greater ↦ upper_entry key_r (suc cell) kvs
    ]

  unfoldable pub descend_bt : ℕ → Record → Cursor → Routine S Cursor
  descend_bt zero key_r c = abort
  descend_bt (suc fuel) key_r c =
      let deeper : Routine S Cursor = (do
        cell ← upper_entry key_r 0 c.node.key_vals
        below ← step_in store (record c { cell = cell })
        descend_bt fuel key_r below) in
      if is_leaf c.node then pure c else deeper

  unfoldable pub find_bt_leaf : ℕ → ℕ → ℕ → Routine S Cursor
  find_bt_leaf fuel root key = do
    key_r ← get_n_record store memory levels table key n
    node ← store.read root
    descend_bt fuel key_r (record { page = root; node = node; cell = 0 })

  -- The first cell whose record is not less, or the number of cells.
  unfoldable pub lower_entry : Record → ℕ → List KeyValue → Routine S ℕ
  lower_entry key_r offset [] = pure offset
  lower_entry key_r offset (kv ∷ kvs) = do
    node_r ← get_n_record store memory levels table kv.key n
    cmp ← returned (compare_r key_r node_r)
    elim (sign_of cmp) [
      | less ↦ pure offset
      | equal ↦ pure offset
      | greater ↦ lower_entry key_r (suc offset) kvs
    ]

  abbrev or_minus_one : Option ℕ → ℕ
  or_minus_one none = no_page
  or_minus_one (some offset) = offset

  -- `(size_t) -1` where a record is missing.
  unfoldable pub find_offset : Node → ℕ → Routine S ℕ
  find_offset node key = do
    offset ←
        attempt {A = ℕ} (do
          key_r ← get_n_record store memory levels table key n
          lower_entry key_r 0 node.key_vals)
    pure (or_minus_one offset)

module _ {S : Type 0} (store : NodeStore S) where
  -- The steps down to a leaf in cursor_next_bt.
  unfoldable pub step_down : ℕ → Cursor → Routine S Cursor
  step_down zero c = abort
  step_down (suc fuel) c =
      let deeper : Routine S Cursor = (do below ← step_in store c; step_down fuel below) in
      if is_leaf c.node then pure c else deeper

  -- The steps up to an entry, and whether there is one.
  unfoldable pub climb : ℕ → Cursor → Routine S (Cursor × Bool)
  climb zero c = abort
  climb (suc fuel) c =
      let higher : Routine S (Cursor × Bool) = (do
        node ← dereferenced (store.read c.node.parent_addr)
        climb fuel (record {
          page = c.node.parent_addr;
          node = node;
          cell = cell_of c.page 0 (take (nb_keys node + 1) node.child_addrs);
        })) in
      let leave : Routine S (Cursor × Bool) =
        if c.node.parent_addr == no_page
        then pure (record c { page = no_page }, false)
        else higher in
      if ltb c.cell (nb_keys c.node) then pure (c, true) else leave

  unfoldable pub cursor_next_bt : ℕ → Cursor → Routine S (Cursor × Bool)
  cursor_next_bt fuel c =
      let next = record c { cell = suc c.cell } in
      let down : Routine S (Cursor × Bool) = (do below ← step_down fuel next; pure (below, true)) in
      if is_leaf c.node then climb fuel next else down

module _ {S : Type 0} (store : NodeStore S) (memory : List ℕ) (levels n table fuel : ℕ) where
  -- The loop of find_all: the keys of the entries behind the cursor, as long as their records are equal.
  unfoldable pub collect : ℕ → Record → Cursor → Routine S (List ℕ)
  collect zero key_r c = abort
  collect (suc rows_fuel) key_r c = do
    (next, more_) ← cursor_next_bt store fuel c
    elim more_ [
      | false ↦ pure []
      | true ↦ do
        kv ← returned (found (get_elem? next.node.key_vals next.cell))
        sign ← compare_entry store memory levels n table key_r kv
        elim sign [
          | less ↦ pure []
          | equal ↦ do keys ← collect rows_fuel key_r next; pure (kv.key ∷ keys)
          | greater ↦ pure []
        ]
    ]

  -- Without a cursor, its node is freed, which reads through NULL.
  unfoldable pub all_from : ℕ → Record → Option Cursor → Routine S (List ℕ)
  all_from rows_fuel key_r none = abort
  all_from rows_fuel key_r (some c) = do
    kv ← returned (found (get_elem? c.node.key_vals c.cell))
    keys ← collect rows_fuel key_r c
    pure (kv.key ∷ keys)

  unfoldable pub find_all : ℕ → ℕ → Record → Routine S (List ℕ)
  find_all rows_fuel root key_r = do
    c ← find_bt store memory levels n table fuel root key_r
    all_from rows_fuel key_r c
