-- ===== src/Table/FirstSplit.antt =====
-- insert (server-side/schema/cursor.c) when a tree outgrows its first leaf.
use yacdb.Common.{
  ℕ, suc, ◌^◌, ◌≡◌, ◌≢◌, ◌<◌, ◌≤◌, refl, sym, ap, ◌∙◌, subst, some, List, [], ◌∷◌, length, arith,
  true, leb,
}
use yacdb.Common.State.{done}
use yacdb.Disk.{Node, KeyValue, is_leaf, no_page}
use yacdb.Disk.Pages.Chain.{NotIn}
use yacdb.Disk.Store.{Nodes, NodeStore, update, IsIn}
use yacdb.Table.{descend, find_leaf}
use yacdb.Table.Insert.{create_kv, insert_in_arr_kv, insert}
use yacdb.Table.Shape.{Shape, leaf, branch, last, more, rows, IsAscending}
use yacdb.Table.Leaf.{update_other, update_same}
use yacdb.Table.Grow.{with_row, with_row-IsAscending}
use yacdb.Table.Added.{IsTable, length-with_row}
use yacdb.Table.Split.{right_leaf, left_leaf, split_leaf_node-right_leaf}
use yacdb.Table.Root.{new_root, keyed_root, below, create_root-new_root, insert_internal-new_root}

-- The full leaf.
abbrev pub full_leaf : Node → KeyValue → KeyValue → KeyValue → KeyValue → Node
full_leaf n a b c d = record n { key_vals = a ∷ b ∷ c ∷ d ∷ [] }

-- The nodes of the new tree, and those on the way to it, are nodes that the store can hold. The store
-- of Disk holds a leaf only with zeros behind its first child, where `malloc` leaves any bytes.
pub record FitsSplit {S : Type 0} (store : NodeStore S) (m0 m1 : ℕ) (rest tail : List ℕ) (p : ℕ)
    (n : Node) (a b c d : KeyValue) : Type 0 where
  pub right : store.Fits (right_leaf (m0 ∷ m1 ∷ rest) (full_leaf n a b c d) c d)
  pub right_below : store.Fits (below p (right_leaf (m0 ∷ m1 ∷ rest) (full_leaf n a b c d) c d))
  pub left_below :
      (page : ℕ)
      → page < 2 ^ 64
      → store.Fits (below p (left_leaf (full_leaf n a b c d) a b page tail))
  pub root : (page : ℕ) → page < 2 ^ 64 → store.Fits (new_root (m0 ∷ m1 ∷ rest) page)
  pub keyed :
      (left right : ℕ)
      → left < 2 ^ 64
      → right < 2 ^ 64
      → store.Fits (keyed_root rest left c.key right)

-- The tree of a root and two leaves.
abbrev pub split_tree :
    List ℕ → List ℕ → List ℕ → ℕ → ℕ → ℕ → Node → KeyValue → KeyValue → KeyValue → KeyValue → Shape
split_tree memory rest tail p left right n a b c d = branch p (keyed_root rest left c.key right) (
    more (leaf left (below p (left_leaf (full_leaf n a b c d) a b right tail))) c.key
      (last (leaf right (below p (right_leaf memory (full_leaf n a b c d) c d)))))

other_page : (p q : ℕ) (given : List ℕ) → IsIn p given → NotIn q given → p ≢ q
other_page p q given inside out e = inside (subst (λ r. NotIn r given) (sym e) out)

-- The nodes that insert leaves make up the new tree, in order.
split_tree-IsTable :
    {S : Type 0} (store : NodeStore S) (given : List ℕ) (nodes : Nodes)
    (fuel lo hi p left right : ℕ) (memory rest tail : List ℕ) (n : Node) (s : S)
    (a b c d : KeyValue)
    → is_leaf n ≡ true
    → p ≢ left
    → p ≢ right
    → left ≢ right
    → IsAscending lo hi (a ∷ b ∷ c ∷ d ∷ [])
    → b.key < c.key
    → (let left1 = below p (left_leaf (full_leaf n a b c d) a b right tail) in
        store.Holds s given (update (update nodes p (keyed_root rest left c.key right)) left left1))
    → nodes right ≡ some (below p (right_leaf memory (full_leaf n a b c d) c d))
    → IsTable store given
        (update
          (update nodes p (keyed_root rest left c.key right))
          left
          (below p (left_leaf (full_leaf n a b c d) a b right tail)))
        lo
        hi
        (suc (suc fuel))
        (split_tree memory rest tail p left right n a b c d)
        s
unfolding create_kv is_leaf
split_tree-IsTable store given nodes fuel lo hi p left right memory rest tail n s a b c d leafy
      p_left p_right left_right order far holds held =
    let (a_lo, a_hi, (ab, b_hi, (bc, c_hi, (cd, d_hi, end)))) = order in
    let root = keyed_root rest left c.key right in
    let left1 = below p (left_leaf (full_leaf n a b c d) a b right tail) in
    let nodes4 = update nodes p root in
    record {
      holds = holds;
      held = (
        update_other nodes4 left p left1 p_left ∙ update_same nodes p root,
        refl,
        refl,
        (rest, refl),
        (
          (update_same nodes4 left left1, leafy),
          (
            update_other nodes4 left right left1 (λ e. left_right (sym e))
                ∙ update_other nodes p right root (λ e. p_right (sym e))
                ∙ held,
            refl,
          ),
        ),
      );
      order = (
        (a_lo, omega (arith, ab, far), (ab, far, omega (arith, far))),
        (omega arith, c_hi, (cd, d_hi, end)),
      );
      apart = (
        (((λ e. p_left (sym e)), ((λ e. p_right (sym e)), tt))),
        (tt, tt, (((λ e. left_right (sym e)), tt), tt), ((left_right, tt), tt)),
      );
      enough = omega arith;
    }

module _ {S : Type 0} (store : NodeStore S) (given : List ℕ) (nodes : Nodes)
    (fuel lo hi p old m0 m1 : ℕ) (rest tail : List ℕ) (n : Node) (s : S)
    (kv a b c d : KeyValue) where
  -- When insert puts a row, with a key in the bounds, into the only leaf of a tree in order, which has no
  -- parent and then four rows, and two pages can be had, it succeeds. The nodes are then a B+-tree in
  -- order with its root on the same page, one key in the root, and the leaf and a new one below, and its
  -- rows are those of the leaf and the new row. The second and the third of the four keys are distinct,
  -- and the nodes that are made are nodes that the store can hold.
  pub insert-split_tree :
      IsTable store given nodes lo hi (suc (suc fuel)) (leaf p n) s
      → store.HasRoom s 2
      → n.parent_addr ≡ no_page
      → n.child_addrs ≡ old ∷ tail
      → lo ≤ kv.key
      → kv.key < hi
      → with_row (create_kv kv.key kv.value) n.key_vals ≡ a ∷ b ∷ c ∷ d ∷ []
      → b.key < c.key
      → FitsSplit store m0 m1 rest tail p n a b c d
      → (left : ℕ) × (right : ℕ) × (after : S) × (later : Nodes) × (insert store
            (m0 ∷ m1 ∷ rest)
            (suc (suc fuel))
            p
            kv
            s
          ≡ done tt after)
        × IsTable store
            (left ∷ right ∷ given)
            later
            lo
            hi
            (suc (suc fuel))
            (split_tree (m0 ∷ m1 ∷ rest) rest tail p left right n a b c d)
            after
        × (rows (split_tree (m0 ∷ m1 ∷ rest) rest tail p left right n a b c d)
            ≡ with_row (create_kv kv.key kv.value) n.key_vals)
  unfolding insert find_leaf descend insert_in_arr_kv create_kv is_leaf
  insert-split_tree table room top next low high full far fits =
      let memory = m0 ∷ m1 ∷ rest in
      let grown = full_leaf n a b c d in
      let inside : IsIn p given = store.given_lem s given nodes p n table.holds table.held.0 in
      let (s1, read, holds1, keeps1) = store.read_lem s given nodes p n table.holds table.held.0 in
      let (right, s2, split, holds2, new2, room2, small2) =
        split_leaf_node-right_leaf store memory given nodes s1 grown a b c d old 1 tail holds1
          (keeps1 2 room) refl next fits.right in
      let right0 = right_leaf memory grown c d in
      let right1 = below p right0 in
      let left0 = left_leaf grown a b right tail in
      let left1 = below p left0 in
      let nodes2 = update nodes right right0 in
      let p_right : p ≢ right = other_page p right given inside new2 in
      let (left, s3, rooted, holds3, new3, _, small3) =
        create_root-new_root store memory (right ∷ given) nodes2 s2 p right 0 left0 right0 holds2
          room2 top table.held.1 (λ out. inside out.1) (update_same nodes right right0)
          (λ e. p_right (sym e)) fits.root (fits.left_below right small2) fits.right_below in
      let p_left : p ≢ left = other_page p left given inside new3.1 in
      let root = new_root memory left in
      let keyed = keyed_root rest left c.key right in
      let nodes3 = update (update (update nodes2 p root) left left1) right right1 in
      let at_root : nodes3 p ≡ some root =
        update_other (update (update nodes2 p root) left left1) right p right1 p_right
        ∙ update_other (update nodes2 p root) left p left1 p_left
        ∙ update_same nodes2 p root in
      let (s4, inserted, holds4) =
        insert_internal-new_root store (left ∷ right ∷ given) rest nodes3 s3 (suc fuel) p left c.key
          right m0 m1 holds3 at_root (fits.keyed left right small3 small2) in
      let nodes4 = update nodes3 p keyed in
      let (s5, written, holds5, _) =
        store.write_lem s4 (left ∷ right ∷ given) nodes4 left left1 holds4 (λ out. out.0 refl)
          (fits.left_below right small2) in
      let few : leb (length n.key_vals) 4 ≡ true =
        ground (arith, length-with_row (create_kv kv.key kv.value) n.key_vals, ap length full) in
      (
        left,
        right,
        s5,
        update nodes4 left left1,
        rw (read, table.held.1, few, full, split, rooted, inserted, written) refl,
        split_tree-IsTable store (left ∷ right ∷ given) nodes3 fuel lo hi p left right memory rest
            tail n s5 a b c d table.held.1 p_left p_right (λ e. new3.0 (sym e))
            (rw full at (
              with_row-IsAscending (create_kv kv.key kv.value) lo hi n.key_vals low high
                table.order))
            far holds5 (update_same (update (update nodes2 p root) left left1) right right1),
        sym full,
      )
