-- ===== src/Table/Insert.antt =====
-- server-side/schema/cursor.c: insertion into a B+-tree of rows.
use yacdb.Common.{
  ℕ, zero, suc, ◌+◌, ◌-◌, Bool, true, false, Option, none, some, List, [], ◌∷◌, ◌++◌, ltb, leb,
  ◌==◌, if◌then◌else◌, get_elem?, get_or, set, take, drop, length, Bytes,
}
use yacdb.Common.Memory.{Result, ok, fault}
use yacdb.Common.State.{Routine, pure, abort, returned, attempt, ◌>>=◌}
use yacdb.Disk.{Node, KeyValue, table_leaf, table_interior, nb_keys, is_leaf, no_page, order}
use yacdb.Disk.Store.{NodeStore}
use yacdb.Table.{Cursor, found, lower_cell, find_leaf, dereferenced}

-- The copy has its own bytes, and no overflow pages.
unfoldable pub create_kv : ℕ → Bytes → KeyValue
create_kv key value = record { key = key; value = value; overflow = [] }

-- The array has a slot more than `order`; it grows by one in the call and in the caller's `nb_keys++`.
unfoldable pub insert_in_arr_kv : List KeyValue → KeyValue → ℕ → Result (List KeyValue)
insert_in_arr_kv kvs val offset =
    if leb (length kvs) order
    then ok (take offset kvs ++ create_kv val.key val.value ∷ drop offset kvs)
    else fault

-- `for (i = size; i > offset; i--) pages[i] = pages[i - 1]`, from `i = offset + n` on.
unfoldable pub shift_pages : List ℕ → ℕ → ℕ → List ℕ
shift_pages pages offset zero = pages
shift_pages pages offset (suc n) =
    shift_pages (set pages (offset + suc n) (get_or pages (offset + n) 0)) offset n

unfoldable pub insert_in_arr_page : List ℕ → ℕ → ℕ → ℕ → Result (List ℕ)
insert_in_arr_page pages size val offset =
    if ltb size (length pages)
    then ok (set (shift_pages pages offset (size - offset)) offset val)
    else fault

-- The first entries of an array that was just allocated: then its bytes, which nobody set.
abbrev pub over {ℓ} : {A : Type ℓ} → List A → List A → List A
over xs memory = xs ++ drop (length xs) memory

-- Where create_root leaves the cursor: on its node with this parent, on this page, and how it ended.
pub record Root : Type 0 where
  pub cursor : Cursor
  pub succeeded : Bool

module _ {S : Type 0} (store : NodeStore S) (memory : List ℕ) where
  -- What is left in the node, the key for the parent, and the new page.
  unfoldable pub split_internal_node : Node → Routine S (Node × ℕ × ℕ)
  split_internal_node n = do
    middle ← returned (found (get_elem? n.key_vals 2))
    let new_node : Node = record {
      parent_addr = n.parent_addr;
      type = table_interior;
      key_vals = take (order - 2 - 1) (drop 3 n.key_vals);
      child_addrs = over (take (order + 1 - 3) (drop 3 n.child_addrs)) memory;
    }
    let left : Node = record n {
      key_vals = take 2 n.key_vals;
      child_addrs = set (set n.child_addrs 3 0) 4 0;
    }
    page ← store.create
    written ← store.write new_node page
    pure (left, middle.key, page)

  unfoldable pub split_leaf_node : Node → Routine S (Node × ℕ × ℕ)
  split_leaf_node n = do
    middle ← returned (found (get_elem? n.key_vals 2))
    let new_node : Node = record {
      parent_addr = n.parent_addr;
      type = table_leaf;
      key_vals = take (order - 2) (drop 2 n.key_vals);
      child_addrs = over (no_page ∷ []) memory;
    }
    page ← store.create
    let left : Node = record n {
      key_vals = take 2 n.key_vals;
      child_addrs = set n.child_addrs 0 page;
    }
    written ← store.write new_node page
    pure (left, middle.key, page)

  -- Each child is read and written again with its new parent; whether it was written is not asked.
  unfoldable pub move_children : ℕ → List ℕ → Routine S (Unit {0})
  move_children parent [] = pure tt
  move_children parent (addr ∷ addrs) = do
    child ← dereferenced (store.read addr)
    written ← attempt (store.write (record child { parent_addr = parent }) addr)
    move_children parent addrs

  -- After the new root was written and the node moved.
  unfoldable pub adopt : Cursor → ℕ → ℕ → Routine S Cursor
  adopt c new_page sibling_page = do
    sibling ← store.read sibling_page
    written ← store.write (record sibling { parent_addr = c.page }) sibling_page
    moved ←
        if is_leaf c.node
        then pure tt
        else move_children new_page (take (nb_keys c.node + 1) c.node.child_addrs)
    pure (record c { page = new_page })

  abbrev pub ended : Cursor → Option Cursor → Root
  ended c none = record { cursor = c; succeeded = false }
  ended c (some moved) = record { cursor = moved; succeeded = true }

  -- The node's new parent is set also when it could not be written.
  unfoldable pub move_root : Cursor → ℕ → ℕ → Routine S Root
  move_root c new_page sibling_page =
      let child = record c { node = record c.node { parent_addr = c.page } } in
      (do
        result ←
            attempt {A = Cursor}
              (do written ← store.write child.node new_page; adopt child new_page sibling_page)
        pure (ended child result))

  unfoldable pub write_root : Cursor → ℕ → Routine S ℕ
  write_root c new_page = do
    written ←
        store.write
          (record {
            parent_addr = no_page;
            type = table_interior;
            key_vals = [];
            child_addrs = over (new_page ∷ []) memory;
          })
          c.page
    pure new_page

  abbrev rooted : Cursor → ℕ → Option ℕ → Routine S Root
  rooted c sibling_page none = pure (ended c none)
  rooted c sibling_page (some new_page) = move_root c new_page sibling_page

  unfoldable pub create_root : Cursor → ℕ → Routine S Root
  create_root c sibling_page =
      let moved : Routine S Root = (do
        page ← attempt {A = ℕ} (do page ← store.create; write_root c page)
        rooted c sibling_page page) in
      if c.node.parent_addr == no_page then moved else pure (ended c (some c))

  -- The callers do not ask whether create_root succeeded.
  abbrev root_of : Cursor → ℕ → Routine S Cursor
  root_of c page = do root ← create_root c page; pure root.cursor

  -- The fuel bounds the levels of the tree.
  unfoldable pub insert_internal : ℕ → ℕ → ℕ → ℕ → Routine S (Unit {0})
  insert_internal zero addr key value = abort
  insert_internal (suc fuel) addr key value =
      let saturated : Node → Routine S (Unit {0}) = λ n. (do
        (left, new_key, new_page) ← split_internal_node n
        c ← root_of (record { page = addr; node = left; cell = 0 }) new_page
        inserted ← insert_internal fuel c.node.parent_addr new_key new_page
        store.write c.node c.page) in
      (do
        node ← store.read addr
        let offset = lower_cell key node.key_vals
        kvs ← returned (insert_in_arr_kv node.key_vals (create_kv key []) offset)
        addrs ← returned (insert_in_arr_page node.child_addrs (nb_keys node + 1) value (offset + 1))
        let grown : Node = record node { key_vals = kvs; child_addrs = addrs }
        if leb order (length kvs) then saturated grown else store.write grown addr)

  unfoldable pub insert : ℕ → ℕ → KeyValue → Routine S (Unit {0})
  insert fuel root kv =
      let saturated : ℕ → Node → Routine S (Unit {0}) = λ addr n. (do
        (left, new_key, new_page) ← split_leaf_node n
        c ← root_of (record { page = addr; node = left; cell = 0 }) new_page
        inserted ← insert_internal fuel c.node.parent_addr new_key new_page
        store.write c.node c.page) in
      (do
        c ← find_leaf store fuel root kv.key
        let offset = lower_cell kv.key c.node.key_vals
        kvs ← returned (insert_in_arr_kv c.node.key_vals kv offset)
        let grown : Node = record c.node { key_vals = kvs }
        if length kvs == order then saturated c.page grown else store.write grown c.page)
