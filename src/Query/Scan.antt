-- ===== src/Query/Scan.antt =====
-- The walk of select_all over a table (server-side/schema/db_ops.c), from create_at_start with cursor_next
-- (server-side/schema/cursor.c): it prints the rows of the tree one after the other.
use mathlib.Core.List.{append_assoc}
use yacdb.Common.{
  ℕ, zero, suc, ◌<◌, ◌≤◌, ◌≡◌, refl, ap, sym, ◌∙◌, true, false, Option, some, List, [], ◌∷◌, ◌++◌,
  Bytes, length, length-append, subst, get_elem?, get_elem?-append, ltb, lt→ltb, ge→ltb, ◌==◌,
  arith,
}
use yacdb.Common.Memory.{Result, ok, failed, fault, ◌>>=◌}
use yacdb.Common.State.{Outcome, done, Routine, returned, continue}
use yacdb.Disk.{Node, KeyValue, nb_keys, no_page}
use yacdb.Disk.Store.{Nodes, NodeStore}
use yacdb.Table.{Cursor, create_at_start, cursor_next}
use yacdb.Table.Find.{root_node-IsHeld}
use yacdb.Table.Shape.{Shape, root_page, root_node, IsHeld, height, rows}
use yacdb.Query.Leaves.{next_page, IsChain, leaf_rows, leaves, leaf_rows-leaves, leftmost-leaves}
use yacdb.Query.Print.{print_footer, print_keyed}
use yacdb.Query.{while_next, print_rows}

module _ {S : Type 0} (store : NodeStore S) (memory given : List ℕ) (nodes : Nodes)
    (levels fuel rows_fuel : ℕ) (print_float : ℕ → Bytes)
    (overlapped : ℕ → Bytes → Bytes → Option Bytes) (capacity : ℕ) (offsets : List ℕ) where
  -- The rows, printed one after the other.
  abbrev pub print_kvs : List KeyValue → Bytes → Result Bytes
  print_kvs [] buffer = ok buffer
  print_kvs (kv ∷ kvs) buffer = do
    longer ← print_keyed overlapped print_float capacity buffer kv.key kv.value offsets
    print_kvs kvs longer

  -- What the walk prints and returns, with some state that still holds the nodes if it returns.
  abbrev pub Prints : Outcome S Bytes → Result Bytes → Type 0
  Prints out r = (after : S) × (out ≡ returned r after) × store.Holds after given nodes

  pub continue_text :
      (r : Result Bytes) (k : Bytes → Routine S Bytes) (rest : Bytes → Result Bytes) (s : S)
      → store.Holds s given nodes
      → ((b : Bytes) → Prints (k b s) (rest b))
      → Prints (continue (returned r s) k) (r >>= rest)
  continue_text (ok b) k rest s holds h = h b
  continue_text failed k rest s holds h = (s, refl, holds)
  continue_text fault k rest s holds h = (s, refl, holds)

  first_row :
      (l : List KeyValue)
      → 0 < length l
      → (kv : KeyValue) × (post : List KeyValue) × (l ≡ kv ∷ post)
  first_row [] h = absurd (omega (arith, h))
  first_row (kv ∷ post) h = (kv, post, refl)

  -- The loop behind a row.
  abbrev loop_on : ℕ → Cursor → Bytes → Routine S Bytes
  loop_on k c buffer =
      while_next store memory levels fuel rows_fuel print_float overlapped
        (print_rows store memory levels fuel rows_fuel print_float overlapped k capacity offsets) c
        buffer

  abbrev keyed : KeyValue → Bytes → Result Bytes
  keyed kv buffer = print_keyed overlapped print_float capacity buffer kv.key kv.value offsets

  abbrev print_rest : List KeyValue → Bytes → Result Bytes
  print_rest kvs b = print_kvs kvs b

  -- The cursor stands on a row of a leaf, behind the rows `pre`.
  walk_rows :
      (more_rows : ℕ) (leaves : List (ℕ × Node)) (p : ℕ) (n : Node) (pre : List KeyValue)
      (kv : KeyValue) (post : List KeyValue) (buffer : Bytes) (s : S)
      → store.Holds s given nodes
      → n.key_vals ≡ pre ++ kv ∷ post
      → get_elem? n.child_addrs 0 ≡ some (next_page leaves)
      → IsChain nodes leaves
      → length (kv ∷ post ++ leaf_rows leaves) ≤ more_rows
      → Prints
          (print_rows store memory levels fuel rows_fuel print_float overlapped more_rows capacity
            offsets
            (record { page = p; node = n; cell = length pre })
            buffer
            s)
          (print_kvs (kv ∷ post ++ leaf_rows leaves) buffer)
  unfolding print_rows cursor_next
  walk_rows zero leaves p n pre kv post buffer s holds e linked chain enough =
      absurd (omega (arith, enough))
  walk_rows (suc k) leaves p n pre kv (kv2 ∷ post) buffer s holds e linked chain enough =
      let there : get_elem? n.key_vals (length pre) ≡ some kv =
        ap (λ l. get_elem? l (length pre)) e ∙ get_elem?-append pre kv (kv2 ∷ post) in
      let inside : ltb (suc (length pre)) (nb_keys n) ≡ true =
        lt→ltb _ _ (omega (arith, ap length e, length-append pre (kv ∷ kv2 ∷ post))) in
      let at : length (pre ++ kv ∷ []) ≡ suc (length pre) =
        omega (arith, length-append pre (kv ∷ [])) in
      let split = e ∙ sym (append_assoc pre (kv ∷ []) (kv2 ∷ post)) in
      rw there (
        continue_text (keyed kv buffer)
          (loop_on k (record { page = p; node = n; cell = length pre }))
          (print_rest (kv2 ∷ post ++ leaf_rows leaves)) s holds
          (λ b.
            rw (inside, ← at)
              (walk_rows k leaves p n (pre ++ kv ∷ []) kv2 post b s holds split linked chain
                (omega (arith, enough)))))
  walk_rows (suc k) [] p n pre kv [] buffer s holds e linked chain enough =
      let there : get_elem? n.key_vals (length pre) ≡ some kv =
        ap (λ l. get_elem? l (length pre)) e ∙ get_elem?-append pre kv [] in
      let outside : ltb (suc (length pre)) (nb_keys n) ≡ false =
        ge→ltb _ _ (omega (arith, ap length e, length-append pre (kv ∷ []))) in
      rw there (
        continue_text (keyed kv buffer)
          (loop_on k (record { page = p; node = n; cell = length pre })) (print_rest []) s holds
          (λ b. rw (outside, linked) (s, refl, holds)))
  walk_rows (suc k) ((q, m) ∷ leaves) p n pre kv [] buffer s holds e linked chain enough =
      let (held, low, filled, link, chain') = chain in
      let there : get_elem? n.key_vals (length pre) ≡ some kv =
        ap (λ l. get_elem? l (length pre)) e ∙ get_elem?-append pre kv [] in
      let outside : ltb (suc (length pre)) (nb_keys n) ≡ false =
        ge→ltb _ _ (omega (arith, ap length e, length-append pre (kv ∷ []))) in
      let far : (q == no_page) ≡ false = ground (arith, low) in
      let (s', read, holds', _) = store.read_lem s given nodes q m holds held in
      let (kv2, post, e2) = first_row m.key_vals filled in
      let all : m.key_vals ++ leaf_rows leaves ≡ kv2 ∷ post ++ leaf_rows leaves =
        ap (λ l. l ++ leaf_rows leaves) e2 in
      rw there (
        continue_text (keyed kv buffer)
          (loop_on k (record { page = p; node = n; cell = length pre }))
          (print_rest (m.key_vals ++ leaf_rows leaves)) s holds
          (λ b.
            rw (outside, linked, far, read, all)
              (walk_rows k leaves q m [] kv2 post b s' holds' e2 link chain'
                (omega (arith, enough, ap length all)))))

  text_after :
      (out : Outcome S Bytes) (r : Result Bytes) (f : Bytes → Result Bytes)
      → Prints out r
      → Prints (continue out (λ b. returned (f b))) (r >>= f)
  text_after out (ok b) f (after, e, holds) = (after, rw e refl, holds)
  text_after out failed f (after, e, holds) = (after, rw e refl, holds)
  text_after out fault f (after, e, holds) = (after, rw e refl, holds)

  walk_table :
      (more_rows : ℕ) (l : List (ℕ × Node)) (p : ℕ) (n : Node) (rest : List (ℕ × Node))
      (buffer : Bytes) (s : S)
      → l ≡ (p, n) ∷ rest
      → IsChain nodes l
      → length (leaf_rows l) ≤ more_rows
      → store.Holds s given nodes
      → Prints
          (print_rows store memory levels fuel rows_fuel print_float overlapped more_rows capacity
            offsets
            (record { page = p; node = n; cell = 0 })
            buffer
            s)
          (print_kvs (leaf_rows l) buffer)
  walk_table more_rows l p n rest buffer s starts chain enough holds =
      let (held, low, filled, link, chain') = subst (IsChain nodes) starts chain in
      let (kv, post, e) = first_row n.key_vals filled in
      let all : leaf_rows l ≡ kv ∷ post ++ leaf_rows rest =
        ap leaf_rows starts ∙ ap (λ kvs. kvs ++ leaf_rows rest) e in
      rw all (
        walk_rows more_rows rest p n [] kv post buffer s holds e link chain'
          (omega (arith, enough, ap length all)))

  abbrev pub print_body : List Bytes → List KeyValue → Bytes → Result Bytes
  print_body names kvs header = do
    body ← print_rest kvs header
    print_footer overlapped capacity body names

  -- The cursor at the start, and then the rows and the footer.
  pub walk_body :
      (names : List Bytes) (t : Shape) (more_rows : ℕ) (s : S)
      → height t < levels
      → IsHeld nodes t
      → IsChain nodes (leaves t)
      → length (rows t) ≤ more_rows
      → store.Holds s given nodes
      → (p : ℕ) × (n : Node) × (after : S) × (create_at_start store levels (root_page t) s
          ≡ done (record { page = p; node = n; cell = 0 }) after)
        × store.Holds after given nodes
        × ((header : Bytes) (now : S)
            → store.Holds now given nodes
            → Prints
                (continue
                  (print_rows store memory levels fuel rows_fuel print_float overlapped more_rows
                    capacity offsets
                    (record { page = p; node = n; cell = 0 })
                    header
                    now)
                  (λ body. returned (print_footer overlapped capacity body names)))
                (print_body names (rows t) header))
  unfolding create_at_start
  walk_body names t more_rows s enough h chain steps holds =
      let (s1, read, holds1, _) =
        store.read_lem s given nodes (root_page t) (root_node t) holds
          (root_node-IsHeld nodes t h) in
      let (q, m, rest, s2, starts, ends, holds2) =
        leftmost-leaves store given nodes levels t s1 enough h holds1 in
      let same = leaf_rows-leaves t in
      (
        q,
        m,
        s2,
        rw read ends,
        holds2,
        λ header now now_holds.
            text_after _ (print_rest (rows t) header)
              (λ body. print_footer overlapped capacity body names)
              (subst
                (λ kvs.
                  Prints
                    (print_rows store memory levels fuel rows_fuel print_float overlapped more_rows
                      capacity offsets (record { page = q; node = m; cell = 0 }) header now)
                    (print_rest kvs header))
                same
                (walk_table more_rows (leaves t) q m rest header now starts chain
                  (omega (arith, steps, ap length same)) now_holds)),
      )
