-- ===== src/Tests/Trees.antt =====
-- Runs on trees in memory (table_tree/nodes.c).
use yacdb.Common.{
  ℕ, zero, suc, ◌≤◌, ◌<◌, ◌≡◌, ◌≢◌, refl, none, some, List, [], ◌∷◌, true, false, arith,
}
use yacdb.Common.Memory.{Result, ok, fault, ◌>>=◌}
use yacdb.Tree.{
  KeyVal, Tree, node, no_trees, below, yabcreate, bcreate_start, child, yabgetall, halve_search,
  halve_delete, halve_insert, yabsearch, left_children, right_children, split_node, insert_leaf,
  insert_down, split_root, yabinsert, delete_keys, yabdelete,
}
use yacdb.Tree.Order.{IsOrdered, entries}
use yacdb.Tree.Search.{yabsearch-lookup}
use yacdb.Tree.Insert.{yabinsert-insert_leaf}
use yacdb.Tree.Lookup.{yabsearch-yabinsert, yabsearch-yabdelete}

-- What a run computes through.
program : Unit {0}
unfolding yabcreate bcreate_start child yabgetall halve_search halve_delete halve_insert yabsearch
    left_children right_children split_node insert_leaf insert_down split_root yabinsert delete_keys
    yabdelete
program = tt

abbrev pair : ℕ → KeyVal ℕ
pair n = record { key = n; value = n }

abbrev insert_all : Tree ℕ → List ℕ → Result (Tree ℕ)
insert_all t [] = ok t
insert_all t (n ∷ ns) = do u ← yabinsert 9 t (pair n); insert_all u ns

-- Nine keys in a row, in order.
nine_keys :
    (do t ← insert_all yabcreate (1 ∷ 2 ∷ 3 ∷ 4 ∷ 5 ∷ 6 ∷ 7 ∷ 8 ∷ 9 ∷ []); yabgetall t)
    ≡ ok (1 ∷ 2 ∷ 3 ∷ 4 ∷ 5 ∷ 6 ∷ 7 ∷ 8 ∷ 9 ∷ [])
unfolding program
nine_keys = refl

-- The second 2 goes right of the first, which the root took up.
twice :
    (do t ← insert_all yabcreate (1 ∷ 2 ∷ 3 ∷ 4 ∷ 2 ∷ []); yabgetall t)
    ≡ ok (1 ∷ 2 ∷ 2 ∷ 3 ∷ 4 ∷ [])
unfolding program
twice = refl

abbrev small : Tree ℕ
small = node false (pair 2 ∷ []) (
    below (node true (pair 1 ∷ pair 2 ∷ []) no_trees)
      (below (node true (pair 3 ∷ pair 4 ∷ pair 5 ∷ pair 6 ∷ []) no_trees) no_trees))

yabsearch-lookup_example : yabsearch small 4 ≡ ok (some 4)
unfolding program
yabsearch-lookup_example = yabsearch-lookup small 4 0 100 (omega arith) (omega arith) (omega arith)

yabinsert-insert_leaf_example :
    (u : Tree ℕ) × (yabinsert 3 small (pair 7) ≡ ok u)
    × IsOrdered 0 100 u
    × (entries u ≡ pair 1 ∷ pair 2 ∷ pair 3 ∷ pair 4 ∷ pair 5 ∷ pair 6 ∷ pair 7 ∷ [])
unfolding program
yabinsert-insert_leaf_example =
    yabinsert-insert_leaf 2 small (pair 7) 0 100 (omega arith)
      (((λ e. absurd (omega (arith, e))), tt), (tt, (tt, tt))) (λ e. absurd (omega (arith, e)))
      (omega arith) (omega arith)

yabsearch-yabinsert_example :
    (u : Tree ℕ) × (yabinsert 3 small (pair 7) ≡ ok u)
    × (yabsearch u 7 ≡ ok (some 7))
    × ((key : ℕ) → 0 ≤ key → key < 100 → 7 ≢ key → yabsearch u key ≡ yabsearch small key)
unfolding program
yabsearch-yabinsert_example =
    yabsearch-yabinsert 2 small (pair 7) 0 100 (omega arith)
      (((λ e. absurd (omega (arith, e))), tt), (tt, (tt, tt))) refl (λ e. absurd (omega (arith, e)))
      (omega arith) (omega arith)

yabsearch-yabdelete_example :
    (u : Tree ℕ) × (yabdelete small 4 ≡ ok u)
    × (yabsearch u 4 ≡ ok none)
    × ((other : ℕ)
        → 0 ≤ other
        → other < 100
        → 4 ≢ other
        → yabsearch u other ≡ yabsearch small other)
unfolding program
yabsearch-yabdelete_example =
    yabsearch-yabdelete small 4 0 100 (omega arith) (omega arith) (omega arith)

abbrev up_to : ℕ → List ℕ → List ℕ
up_to zero ns = ns
up_to (suc n) ns = up_to n (suc n ∷ ns)

-- The new last child of a split root without keys is no leaf, and the walk over all pairs reads a child
-- of it that was never set.
deep : (do t ← insert_all yabcreate (up_to 26 []); yabgetall t) ≡ fault
unfolding program
deep = refl
