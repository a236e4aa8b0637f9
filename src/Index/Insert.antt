-- ===== src/Index/Insert.antt =====
-- Insertion into an index (server-side/schema/cursor_bt.c).
use yacdb.Common.{
  ℕ, zero, suc, ◌+◌, ◌-◌, Option, none, some, List, [], ◌∷◌, length, set, take, drop, get_elem?,
  ◌==◌, if◌then◌else◌,
}
use yacdb.Common.State.{Routine, pure, abort, returned, attempt, ◌>>=◌}
use yacdb.Disk.{Node, index_interior, nb_keys, no_page, order}
use yacdb.Disk.Store.{NodeStore}
use yacdb.Table.{Cursor, found}
use yacdb.Table.Insert.{
  Root, over, ended, create_kv, insert_in_arr_kv, insert_in_arr_page, move_root,
}
use yacdb.Index.{find_offset, find_bt_leaf}

module _ {S : Type 0} (store : NodeStore S) (memory : List ℕ) where
  -- What is left in the node, the key that goes to the parent, also from a leaf, and the new page.
  unfoldable pub split_bt_node : Node → Routine S (Node × ℕ × ℕ)
  split_bt_node n = do
    middle ← returned (found (get_elem? n.key_vals 2))
    let new_node : Node = record {
      parent_addr = n.parent_addr;
      type = n.type;
      key_vals = take (order - 2 - 1) (drop 3 n.key_vals);
      child_addrs = over (take (order + 1 - 3) (drop 3 n.child_addrs)) memory;
    }
    let left : Node = record n {
      key_vals = take 2 n.key_vals;
      child_addrs = set (set n.child_addrs 3 0) 4 0;
    }
    page ← store.create
    written ← store.write new_node page
    pure (left, middle.key, page)

  unfoldable pub write_root_bt : Cursor → ℕ → Routine S ℕ
  write_root_bt c new_page = do
    written ←
        store.write
          (record {
            parent_addr = no_page;
            type = index_interior;
            key_vals = [];
            child_addrs = over (new_page ∷ []) memory;
          })
          c.page
    pure new_page

  -- What follows the new root is the code of create_root.
  abbrev rooted_bt : Cursor → ℕ → Option ℕ → Routine S Root
  rooted_bt c sibling_page none = pure (ended store memory c none)
  rooted_bt c sibling_page (some new_page) = move_root store memory c new_page sibling_page

  unfoldable pub create_root_bt : Cursor → ℕ → Routine S Root
  create_root_bt c sibling_page =
      let moved : Routine S Root = (do
        page ← attempt {A = ℕ} (do page ← store.create; write_root_bt c page)
        rooted_bt c sibling_page page) in
      if c.node.parent_addr == no_page then moved else pure (ended store memory c (some c))

  -- The callers do not ask whether create_root_bt succeeded.
  abbrev root_of_bt : Cursor → ℕ → Routine S Cursor
  root_of_bt c page = do root ← create_root_bt c page; pure root.cursor

  -- The cell for a key. Where find_offset returned `(size_t) -1` the key is written before the array.
  abbrev placed : ℕ → Routine S ℕ
  placed offset = if offset == no_page then abort else pure offset

  module _ (levels n table : ℕ) where
    -- The fuel bounds the levels of the index.
    unfoldable pub insert_internal_bt : ℕ → ℕ → ℕ → ℕ → Routine S (Unit {0})
    insert_internal_bt zero addr key value = abort
    insert_internal_bt (suc fuel) addr key value =
        let saturated : Node → Routine S (Unit {0}) = λ node. (do
          (left, new_key, new_page) ← split_bt_node node
          c ← root_of_bt (record { page = addr; node = left; cell = 0 }) new_page
          inserted ← insert_internal_bt fuel c.node.parent_addr new_key new_page
          store.write c.node c.page) in
        (do
          node ← store.read addr
          place ← find_offset store memory levels n table node key
          offset ← placed place
          kvs ← returned (insert_in_arr_kv node.key_vals (create_kv key []) offset)
          addrs ←
              returned (insert_in_arr_page node.child_addrs (nb_keys node + 1) value (offset + 1))
          let grown : Node = record node { key_vals = kvs; child_addrs = addrs }
          if length kvs == order then saturated grown else store.write grown addr)

    unfoldable pub insert_bt : ℕ → ℕ → ℕ → Routine S (Unit {0})
    insert_bt fuel root key =
        let saturated : ℕ → Node → Routine S (Unit {0}) = λ addr node. (do
          (left, new_key, new_page) ← split_bt_node node
          c ← root_of_bt (record { page = addr; node = left; cell = 0 }) new_page
          inserted ← insert_internal_bt fuel c.node.parent_addr new_key new_page
          store.write c.node c.page) in
        (do
          c ← find_bt_leaf store memory levels n table fuel root key
          place ← find_offset store memory levels n table c.node key
          offset ← placed place
          kvs ← returned (insert_in_arr_kv c.node.key_vals (create_kv key []) offset)
          let grown : Node = record c.node { key_vals = kvs }
          if length kvs == order then saturated c.page grown else store.write grown c.page)
