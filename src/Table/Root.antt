-- ===== src/Table/Root.antt =====
-- create_root and insert_internal (server-side/schema/cursor.c) when the first leaf of a tree was split.
use yacdb.Common.{
  ℕ, suc, ◌^◌, ◌≡◌, ◌≢◌, ◌<◌, refl, ◌∙◌, some, List, [], ◌∷◌, length, drop, arith, true, ltb,
}
use yacdb.Common.State.{done}
use yacdb.Disk.{Node, table_interior, is_leaf, no_page}
use yacdb.Disk.Pages.Chain.{NotIn}
use yacdb.Disk.Store.{Nodes, NodeStore, update, IsIn}
use yacdb.Table.{lower_cell}
use yacdb.Table.Leaf.{update_other}
use yacdb.Table.Insert.{
  create_kv, insert_in_arr_kv, shift_pages, insert_in_arr_page, adopt, move_root, write_root,
  create_root, insert_internal,
}

-- The root that create_root makes, and with its first key.
abbrev pub new_root : List ℕ → ℕ → Node
new_root memory child = record {
  parent_addr = no_page;
  type = table_interior;
  key_vals = [];
  child_addrs = child ∷ drop 1 memory;
}

abbrev pub keyed_root : List ℕ → ℕ → ℕ → ℕ → Node
keyed_root rest left key right = record {
  parent_addr = no_page;
  type = table_interior;
  key_vals = create_kv key [] ∷ [];
  child_addrs = left ∷ right ∷ rest;
}

abbrev pub below : ℕ → Node → Node
below parent n = record n { parent_addr = parent }

module _ {S : Type 0} (store : NodeStore S) where
  -- The root moves to a new page, under a new root in its place; the leaf behind it gets that parent.
  pub create_root-new_root :
      (memory given : List ℕ) (nodes : Nodes) (s : S) (p sibling k : ℕ) (n m : Node)
      → store.Holds s given nodes
      → store.HasRoom s (suc k)
      → n.parent_addr ≡ no_page
      → is_leaf n ≡ true
      → IsIn p given
      → nodes sibling ≡ some m
      → sibling ≢ p
      → ((page : ℕ) → page < 2 ^ 64 → store.Fits (new_root memory page))
      → store.Fits (below p n)
      → store.Fits (below p m)
      → (page : ℕ) × (after : S) × (create_root store memory
            (record { page = p; node = n; cell = 0 })
            sibling
            s
          ≡ done
              (record {
                cursor = record { page = page; node = below p n; cell = 0 };
                succeeded = true;
              })
              after)
        × store.Holds after (page ∷ given) (
            update
              (update (update nodes p (new_root memory page)) page (below p n))
              sibling
              (below p m))
        × NotIn page given
        × store.HasRoom after k
        × (page < 2 ^ 64)
  unfolding create_root move_root write_root adopt is_leaf
  create_root-new_root memory given nodes s p sibling k n m holds room top leafy inside held apart
        root_fits n_fits m_fits =
      let (page, s1, created, holds1, new, room1, small) =
        store.create_lem s given nodes k holds room in
      let (s2, rooted, holds2, keeps2) =
        store.write_lem s1 (page ∷ given) nodes p (new_root memory page) holds1
          (λ out. inside out.1) (root_fits page small) in
      let nodes2 = update nodes p (new_root memory page) in
      let (s3, moved, holds3, keeps3) =
        store.write_lem s2 (page ∷ given) nodes2 page (below p n) holds2 (λ out. out.0 refl)
          n_fits in
      let nodes3 = update nodes2 page (below p n) in
      let known : IsIn sibling given = store.given_lem s given nodes sibling m holds held in
      let there : nodes3 sibling ≡ some m =
        update_other nodes2 page sibling (below p n) (λ e. known (rw (← e) at new))
        ∙ update_other nodes p sibling (new_root memory page) apart
        ∙ held in
      let (s4, read, holds4, keeps4) =
        store.read_lem s3 (page ∷ given) nodes3 sibling m holds3 there in
      let (s5, adopted, holds5, keeps5) =
        store.write_lem s4 (page ∷ given) nodes3 sibling (below p m) holds4 (λ out. known out.1)
          m_fits in
      (
        page,
        s5,
        rw (top, created, rooted, moved, read, adopted, leafy) refl,
        holds5,
        new,
        keeps5 k (keeps4 k (keeps3 k (keeps2 k room1))),
        small,
      )

  -- The first key and the second child of a root.
  pub insert_internal-new_root :
      (given rest : List ℕ) (nodes : Nodes) (s : S) (fuel p left key right m0 m1 : ℕ)
      → store.Holds s given nodes
      → nodes p ≡ some (new_root (m0 ∷ m1 ∷ rest) left)
      → store.Fits (keyed_root rest left key right)
      → (after : S) × (insert_internal store (m0 ∷ m1 ∷ rest) (suc fuel) p key right s
          ≡ done tt after)
        × store.Holds after given (update nodes p (keyed_root rest left key right))
  unfolding insert_internal insert_in_arr_kv insert_in_arr_page shift_pages lower_cell create_kv
  insert_internal-new_root given rest nodes s fuel p left key right m0 m1 holds held fits =
      let (s1, read, holds1, _) =
        store.read_lem s given nodes p (new_root (m0 ∷ m1 ∷ rest) left) holds held in
      let (s2, written, holds2, _) =
        store.write_lem s1 given nodes p (keyed_root rest left key right) holds1
          (store.given_lem s given nodes p (new_root (m0 ∷ m1 ∷ rest) left) holds held) fits in
      let room : ltb 1 (suc (suc (length rest))) ≡ true = ground arith in
      (s2, rw (read, room) written, holds2)
