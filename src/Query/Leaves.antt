-- ===== src/Query/Leaves.antt =====
-- The leaves of a B+-tree from left to right, linked as cursor_next of server-side/schema/cursor.c follows
-- them, and the first of them, which create_at_start finds.
use mathlib.Core.List.{append_assoc, append-nil}
use yacdb.Common.{
  ℕ, zero, suc, ◌<◌, ◌≡◌, refl, ap, sym, ◌∙◌, some, List, [], ◌∷◌, ◌++◌, get_elem?, arith,
}
use yacdb.Common.State.{done}
use yacdb.Disk.{Node, KeyValue, nb_keys, no_page}
use yacdb.Disk.Store.{Nodes, NodeStore}
use yacdb.Table.{leftmost}
use yacdb.Table.Find.{root_node-IsHeld}
use yacdb.Table.Shape.{
  Shape, Shapes, leaf, branch, last, more, root_page, root_node, IsHeld, height, rows, all_rows,
}

-- The page of the first leaf, or none.
abbrev pub next_page : List (ℕ × Node) → ℕ
next_page [] = no_page
next_page ((p, n) ∷ leaves) = p

-- Leaves with rows, each held in its page and linked to the one behind it.
abbrev pub IsChain : Nodes → List (ℕ × Node) → Type 0
IsChain nodes [] = Unit
IsChain nodes ((p, n) ∷ leaves) =
    (nodes p ≡ some n)
    × (p < no_page)
    × (0 < nb_keys n)
    × (get_elem? n.child_addrs 0 ≡ some (next_page leaves))
    × IsChain nodes leaves

abbrev pub leaf_rows : List (ℕ × Node) → List KeyValue
leaf_rows [] = []
leaf_rows ((p, n) ∷ leaves) = n.key_vals ++ leaf_rows leaves

abbrev mutual
  -- The leaves from left to right.
  pub leaves : Shape → List (ℕ × Node)
  leaves (leaf p n) = (p, n) ∷ []
  leaves (branch p n ts) = all_leaves ts

  pub all_leaves : Shapes → List (ℕ × Node)
  all_leaves (last t) = leaves t
  all_leaves (more t k ts) = leaves t ++ all_leaves ts

leaf_rows-append : (l m : List (ℕ × Node)) → leaf_rows (l ++ m) ≡ leaf_rows l ++ leaf_rows m
leaf_rows-append [] m = refl
leaf_rows-append ((p, n) ∷ l) m =
    ap (◌++◌ n.key_vals) (leaf_rows-append l m)
    ∙ sym (append_assoc n.key_vals (leaf_rows l) (leaf_rows m))

mutual
  pub leaf_rows-leaves : (t : Shape) → leaf_rows (leaves t) ≡ rows t
  leaf_rows-leaves (leaf p n) = append-nil n.key_vals
  leaf_rows-leaves (branch p n ts) = leaf_rows-all ts

  leaf_rows-all : (ts : Shapes) → leaf_rows (all_leaves ts) ≡ all_rows ts
  leaf_rows-all (last t) = leaf_rows-leaves t
  leaf_rows-all (more t k ts) =
      leaf_rows-append (leaves t) (all_leaves ts)
      ∙ ap (λ l. l ++ leaf_rows (all_leaves ts)) (leaf_rows-leaves t)
      ∙ ap (◌++◌ (rows t)) (leaf_rows-all ts)

module _ {S : Type 0} (store : NodeStore S) (given : List ℕ) (nodes : Nodes) where
  -- create_at_start stands on the first row of the first leaf.
  pub leftmost-leaves :
      (depth : ℕ) (t : Shape) (s : S)
      → height t < depth
      → IsHeld nodes t
      → store.Holds s given nodes
      → (p : ℕ) × (n : Node) × (rest : List (ℕ × Node)) × (after : S) × (leaves t ≡ (p, n) ∷ rest)
        × (leftmost store depth (record { page = root_page t; node = root_node t; cell = 0 }) s
            ≡ done (record { page = p; node = n; cell = 0 }) after)
        × store.Holds after given nodes
  unfolding leftmost
  leftmost-leaves zero t s enough h holds = absurd (omega arith)
  leftmost-leaves (suc depth) (leaf p n) s enough h holds = (p, n, [], s, refl, rw h.1 refl, holds)
  leftmost-leaves (suc depth) (branch p n (last t)) s enough (held, inner, same, (pages, e), below)
        holds =
      let there : get_elem? n.child_addrs 0 ≡ some (root_page t) = ap (λ l. get_elem? l 0) e in
      let (s', read, holds', _) =
        store.read_lem s given nodes (root_page t) (root_node t) holds
          (root_node-IsHeld nodes t below) in
      let (q, m, rest, after, starts, ends, kept) =
        leftmost-leaves depth t s' (omega (arith, enough)) below holds' in
      (q, m, rest, after, starts, rw (inner, there, read) ends, kept)
  leftmost-leaves (suc depth) (branch p n (more t k ts)) s enough
        (held, inner, same, (pages, e), below) holds =
      let there : get_elem? n.child_addrs 0 ≡ some (root_page t) = ap (λ l. get_elem? l 0) e in
      let (s', read, holds', _) =
        store.read_lem s given nodes (root_page t) (root_node t) holds
          (root_node-IsHeld nodes t below.0) in
      let (q, m, rest, after, starts, ends, kept) =
        leftmost-leaves depth t s' (omega (arith, enough)) below.0 holds' in
      (
        q,
        m,
        rest ++ all_leaves ts,
        after,
        ap (λ l. l ++ all_leaves ts) starts,
        rw (inner, there, read) ends,
        kept,
      )
