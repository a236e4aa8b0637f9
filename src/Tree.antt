-- ===== src/Tree.antt =====
-- table_tree/nodes.c: a B+-tree in memory. An `int` key stands as its distance from the least int, which
-- keeps the order, and only comparisons use it. The arrays of a node are lists: `nb_keys` is the number
-- of keys, and a child that was never set is not there.
pub mod Index
pub mod Order
pub mod Search
pub mod Focus
pub mod Delete
pub mod Split
pub mod Place
pub mod Lookup
pub mod Insert
use yacdb.Common.{
  ℕ, zero, suc, ◌+◌, ◌-◌, ◌/◌, Bool, true, false, not, ◌||◌, Option, none, some, List, [], ◌∷◌,
  ◌++◌, length, take, drop, get_elem?, ltb, leb, ◌==◌, if◌then◌else◌,
}
use yacdb.Common.Memory.{Result, ok, fault, ◌>>=◌}

-- ORDER - 1.
abbrev pub max_keys : ℕ
max_keys = 4

pub record KeyVal (D : Type 0) : Type 0 where
  pub key : ℕ
  pub value : D

-- `is_leaf`, the pairs and the children of a node.
mutual
  pub data Tree (D : Type 0) : Type 0 where
    node : Bool → List (KeyVal D) → Trees D → Tree D

  pub data Trees (D : Type 0) : Type 0 where
    no_trees : Trees D
    below : Tree D → Trees D → Trees D

module _ {D : Type 0} where
  abbrev pub is_leaf : Tree D → Bool
  is_leaf (node leaf kvs ts) = leaf

  abbrev pub nb_keys : Tree D → ℕ
  nb_keys (node leaf kvs ts) = length kvs

  unfoldable pub yabcreate : Tree D
  yabcreate = node true [] no_trees

  unfoldable pub bcreate_start : KeyVal D → Tree D
  unfolding yabcreate
  bcreate_start key_v = node false (key_v ∷ []) (below yabcreate (below yabcreate no_trees))

  -- `children[i]`.
  unfoldable pub child : Trees D → ℕ → Result (Tree D)
  child no_trees i = fault
  child (below t ts) zero = ok t
  child (below t ts) (suc i) = child ts i

  abbrev values : List (KeyVal D) → List D
  values [] = []
  values (kv ∷ kvs) = kv.value ∷ values kvs

  unfoldable mutual
    pub yabgetall : Tree D → Result (List D)
    yabgetall (node true kvs ts) = ok (values kvs)
    yabgetall (node false kvs ts) = get_children (suc (length kvs)) ts

    -- The first so many children.
    pub get_children : ℕ → Trees D → Result (List D)
    get_children zero ts = ok []
    get_children (suc n) no_trees = fault
    get_children (suc n) (below t ts) = do
      found ← yabgetall t
      others ← get_children n ts
      ok (found ++ others)

  -- The key in a place, which is below `nb_keys` wherever the loops look.
  abbrev pub key_at : List (KeyVal D) → ℕ → ℕ
  key_at [] i = 0
  key_at (kv ∷ kvs) zero = kv.key
  key_at (kv ∷ kvs) (suc i) = key_at kvs i

  -- The loops `while (max - min > 1)`, where `low` is `min + 1`. That of yabsearch stops at an equal key, and
  -- gives its place; that of yabdelete goes left of it, and that of yabinsert goes right of it. The
  -- fuel counts the turns.
  unfoldable pub halve_search : ℕ → List (KeyVal D) → ℕ → ℕ → ℕ → ℕ × Bool
  halve_search zero kvs key low max = (max, false)
  halve_search (suc fuel) kvs key low max =
      let cur = (max + low - 1) / 2 in
      let right = halve_search fuel kvs key (suc cur) max in
      let left = halve_search fuel kvs key low cur in
      if ltb low max
      then (if key_at kvs cur == key
          then (cur, true)
          else if ltb (key_at kvs cur) key
          then right
          else left)
      else (max, false)

  unfoldable pub halve_delete : ℕ → List (KeyVal D) → ℕ → ℕ → ℕ → ℕ
  halve_delete zero kvs key low max = max
  halve_delete (suc fuel) kvs key low max =
      let cur = (max + low - 1) / 2 in
      let right = halve_delete fuel kvs key (suc cur) max in
      let left = halve_delete fuel kvs key low cur in
      if ltb low max then (if ltb (key_at kvs cur) key then right else left) else max

  unfoldable pub halve_insert : ℕ → List (KeyVal D) → ℕ → ℕ → ℕ → ℕ
  halve_insert zero kvs key low max = max
  halve_insert (suc fuel) kvs key low max =
      let cur = (max + low - 1) / 2 in
      let right = halve_insert fuel kvs key (suc cur) max in
      let left = halve_insert fuel kvs key low cur in
      if ltb low max then (if leb (key_at kvs cur) key then right else left) else max

  abbrev value_at : Option (KeyVal D) → Option D
  value_at none = none
  value_at (some kv) = some kv.value

  unfoldable mutual
    pub yabsearch : Tree D → ℕ → Result (Option D)
    yabsearch (node leaf kvs ts) key =
        let (i, equal_) = halve_search (length kvs) kvs key 0 (length kvs) in
        let deeper = search_child ts i key in
        if leaf then (if equal_ then ok (value_at (get_elem? kvs i)) else ok none) else deeper

    pub search_child : Trees D → ℕ → ℕ → Result (Option D)
    search_child no_trees i key = fault
    search_child (below t ts) zero key = yabsearch t key
    search_child (below t ts) (suc i) key = search_child ts i key

  abbrev pub set_child : Trees D → ℕ → Tree D → Trees D
  set_child no_trees i u = no_trees
  set_child (below t ts) zero u = below u ts
  set_child (below t ts) (suc i) u = below t (set_child ts i u)

  abbrev pub put_key : ℕ → KeyVal D → List (KeyVal D) → List (KeyVal D)
  put_key i kv [] = kv ∷ []
  put_key zero kv (x ∷ kvs) = kv ∷ x ∷ kvs
  put_key (suc i) kv (x ∷ kvs) = x ∷ put_key i kv kvs

  -- Two children in the place of one.
  abbrev pub put_children : ℕ → Tree D → Tree D → Trees D → Trees D
  put_children i left right no_trees = no_trees
  put_children zero left right (below t ts) = below left (below right ts)
  put_children (suc i) left right (below t ts) = below t (put_children i left right ts)

  -- The children before the given number, and then one more.
  unfoldable pub left_children : ℕ → Tree D → Trees D → Result (Trees D)
  left_children zero last ts = ok (below last no_trees)
  left_children (suc n) last no_trees = fault
  left_children (suc n) last (below t ts) = do others ← left_children n last ts; ok (below t others)

  -- The children from the given number on.
  unfoldable pub right_children : ℕ → Trees D → Result (Trees D)
  right_children zero ts = ok ts
  right_children (suc n) no_trees = fault
  right_children (suc n) (below t ts) = right_children n ts

  abbrev pair_at : List (KeyVal D) → ℕ → Result (KeyVal D)
  pair_at [] i = fault
  pair_at (kv ∷ kvs) zero = ok kv
  pair_at (kv ∷ kvs) (suc i) = pair_at kvs i

  -- The pair that splitChild sends up, and the two nodes that it makes of a child, which has at least two
  -- keys. The left one ends on a new node without keys and children.
  unfoldable pub split_node : Tree D → Result (KeyVal D × Tree D × Tree D)
  unfolding child left_children right_children
  split_node (node true kvs ts) =
      let mid = length kvs / 2 in
      do
        up ← pair_at kvs (mid - 1)
        ok (up, node true (take mid kvs) no_trees, node true (drop mid kvs) no_trees)
  split_node (node false kvs ts) =
      let mid = length kvs / 2 in
      do
        up ← pair_at kvs (mid - 1)
        first ← child ts 0
        lefts ← left_children mid (node (is_leaf first) [] no_trees) ts
        rights ← right_children mid ts
        ok (up, node false (take mid kvs) lefts, node false (drop mid kvs) rights)

  -- The loop of yabinsert over the keys of a leaf, and where the pair goes.
  abbrev pub has_key : ℕ → List (KeyVal D) → Bool
  has_key key [] = false
  has_key key (x ∷ kvs) = (x.key == key) || has_key key kvs

  abbrev pub place : KeyVal D → List (KeyVal D) → List (KeyVal D)
  place kv [] = kv ∷ []
  place kv (x ∷ kvs) = if ltb kv.key x.key then kv ∷ x ∷ kvs else x ∷ place kv kvs

  unfoldable pub insert_leaf : KeyVal D → List (KeyVal D) → List (KeyVal D)
  insert_leaf kv kvs = if has_key kv.key kvs then kvs else place kv kvs

  -- The way down of yabinsert, which splits a full child before it enters one of its halves.
  -- The fuel bounds the levels.
  unfoldable pub insert_down : ℕ → KeyVal D → Tree D → Result (Tree D)
  unfolding insert_leaf
  insert_down zero kv t = fault
  insert_down (suc fuel) kv (node true kvs ts) = ok (node true (insert_leaf kv kvs) ts)
  insert_down (suc fuel) kv (node false kvs ts) =
      let i = halve_insert (length kvs) kvs kv.key 0 (length kvs) in
      let enter : List (KeyVal D) → Trees D → ℕ → Tree D → Result (Tree D) = λ keys trees j next.
        (do changed ← insert_down fuel kv next; ok (node false keys (set_child trees j changed))) in
      let split : Tree D → Result (Tree D) = λ next. (do
        (up, left, right) ← split_node next
        let keys = put_key i up kvs
        let trees = put_children i left right ts
        if ltb up.key kv.key then enter keys trees (suc i) right else enter keys trees i left) in
      (do
        next ← child ts i
        if ltb (nb_keys next) max_keys then enter kvs ts i next else split next)

  -- A full root becomes the two children of a new one.
  unfoldable pub split_root : Tree D → Result (Tree D)
  unfolding split_node
  split_root t = do
    (up, left, right) ← split_node t
    ok (node false (up ∷ []) (below left (below right no_trees)))

  unfoldable pub yabinsert : ℕ → Tree D → KeyVal D → Result (Tree D)
  unfolding split_root insert_down
  yabinsert fuel t kv = do
    root ← if leb max_keys (nb_keys t) then split_root t else ok t
    insert_down fuel kv root

  -- The loop of yabdelete over a leaf: a pair behind a removed one moves up one place, so that after a
  -- second one with the key a place stays unset, which is a fault here.
  unfoldable pub delete_keys : ℕ → Bool → List (KeyVal D) → Result (List (KeyVal D))
  delete_keys key found [] = ok []
  delete_keys key found (x ∷ kvs) =
      let first = delete_keys key true kvs in
      let kept : Result (List (KeyVal D)) = (do rest ← delete_keys key found kvs; ok (x ∷ rest)) in
      if x.key == key then (if found then fault else first) else kept

  unfoldable mutual
    unfolding delete_keys

    pub yabdelete : Tree D → ℕ → Result (Tree D)
    yabdelete (node true kvs ts) key = do kept ← delete_keys key false kvs; ok (node true kept ts)
    yabdelete (node false kvs ts) key = do
      changed ← delete_child ts (halve_delete (length kvs) kvs key 0 (length kvs)) key
      ok (node false kvs changed)

    pub delete_child : Trees D → ℕ → ℕ → Result (Trees D)
    delete_child no_trees i key = fault
    delete_child (below t ts) zero key = do changed ← yabdelete t key; ok (below changed ts)
    delete_child (below t ts) (suc i) key = do changed ← delete_child ts i key; ok (below t changed)
