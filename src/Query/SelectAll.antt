-- ===== src/Query/SelectAll.antt =====
-- select_all of server-side/schema/db_ops.c on a table with rows, and on a new one.
use yacdb.Common.{
  ℕ, ◌<◌, ◌≤◌, ◌≡◌, Bool, true, false, Option, none, some, zero, suc, ◌+◌, leb, refl, if◌then◌else◌,
  List, [], ◌∷◌, Bytes, length, ◌==◌, arith,
}
use yacdb.Common.Memory.{Result, ok, failed, fault, ◌>>=◌}
use yacdb.Common.State.{done, crash, Routine, returned, continue}
use yacdb.Disk.{Node, is_leaf, no_page}
use yacdb.Disk.Store.{Nodes, NodeStore}
use yacdb.Table.{Cursor, leftmost, create_at_start}
use yacdb.Table.Shape.{Shape, root_page, IsHeld, height, rows}
use yacdb.Query.Leaves.{IsChain, leaves}
use yacdb.Query.Print.{
  sprintf, corner, append_text, print_rule, print_names, print_header, print_footer,
}
use yacdb.Table.Rows.{get_table_addr}
use yacdb.Index.Names.{get_table_id}
use yacdb.Index.Offsets.{get_column_offsets}
use yacdb.Query.{print_rows, select_all}
use yacdb.Query.Scan.{continue_text, print_body, walk_body}

module _ {S : Type 0} (store : NodeStore S) (memory given : List ℕ) (nodes : Nodes)
    (levels fuel rows_fuel : ℕ) (print_float : ℕ → Bytes)
    (overlapped : ℕ → Bytes → Bytes → Option Bytes) where
  -- select_all on named columns of a table, whose number and page the lookups find and whose
  -- columns they find places for. The table is a B+-tree whose leaves all have rows and are linked from
  -- left to right, with fewer levels than `levels` and at most `rows_fuel` rows. Then select_all ends,
  -- leaves the nodes as they are, and does what print_header, then the loop body for each row of the
  -- tree from left to right, each row once, and then print_footer do, or stops where one of them does.
  pub select_all-rows :
      (table name : Bytes) (names : List Bytes) (id : ℕ) (t : Shape) (offsets : List ℕ)
      (s s1 s2 : S)
      → get_table_id store memory levels fuel rows_fuel table s ≡ done id s1
      → id < no_page
      → get_table_addr store memory levels id s1 ≡ done (root_page t) s2
      → store.Holds s2 given nodes
      → ((now : S)
          → store.Holds now given nodes
          → (after : S) × (get_column_offsets store memory levels fuel rows_fuel print_float id
                (name ∷ names)
                now
              ≡ done offsets after)
            × store.Holds after given nodes)
      → IsHeld nodes t
      → height t < levels
      → IsChain nodes (leaves t)
      → length (rows t) ≤ rows_fuel
      → (after : S) × (select_all store memory levels fuel rows_fuel print_float overlapped table
            (name ∷ names)
            s
          ≡ returned
              (do
                header ← print_header overlapped 8192 (name ∷ names)
                print_body store memory given nodes levels fuel rows_fuel print_float overlapped
                    8192 offsets
                    (name ∷ names)
                    (rows t)
                    header)
              after)
        × store.Holds after given nodes
  unfolding select_all
  select_all-rows table name names id t offsets s s1 s2 found real placed holds columns h enough
        chain steps =
      let (q, m, s3, ends, holds3, walked) =
        walk_body store memory given nodes levels fuel rows_fuel print_float overlapped 8192 offsets
          (name ∷ names) t rows_fuel s2 enough h chain steps holds in
      let far : (id == no_page) ≡ false = ground (arith, real) in
      let cursor : Cursor = record { page = q; node = m; cell = 0 } in
      let next : Bytes → Routine S Bytes = λ header now.
        continue
          (get_column_offsets store memory levels fuel rows_fuel print_float id (name ∷ names) now)
          (λ places s'.
            continue
              (print_rows store memory levels fuel rows_fuel print_float overlapped rows_fuel 8192
                places cursor header s')
              (λ body. returned (print_footer overlapped 8192 body (name ∷ names)))) in
      let (after, out, kept) =
        continue_text store memory given nodes levels fuel rows_fuel print_float overlapped 8192
          offsets (print_header overlapped 8192 (name ∷ names)) next
          (print_body store memory given nodes levels fuel rows_fuel print_float overlapped 8192
            offsets (name ∷ names) (rows t))
          s3 holds3
          (λ header.
            let (s4, known, holds4) = columns s3 holds3 in rw known (walked header s4 holds4)) in
      (after, rw (found, far, placed, ends) out, kept)

  -- The loop of select_all reads a row of a leaf that has none.
  print_rows-empty :
      (levels more_rows : ℕ) (offsets : List ℕ) (p : ℕ) (n : Node) (buffer : Bytes) (s : S)
      → n.key_vals ≡ []
      → print_rows store memory levels fuel rows_fuel print_float overlapped more_rows 8192 offsets
          (record { page = p; node = n; cell = 0 })
          buffer
          s
        ≡ crash
  unfolding print_rows
  print_rows-empty levels zero offsets p n buffer s none_there = refl
  print_rows-empty levels (suc more_rows) offsets p n buffer s none_there = rw none_there refl

  -- Printing has no error of its own.
  abbrev CannotFail : Result Bytes → Type 0
  CannotFail failed = ⊥
  CannotFail _ = Unit

  then_CannotFail :
      (r : Result Bytes) (f : Bytes → Result Bytes)
      → CannotFail r
      → ((b : Bytes) → CannotFail (f b))
      → CannotFail (r >>= f)
  then_CannotFail (ok b) f h k = k b
  then_CannotFail failed f h k = h
  then_CannotFail fault f h k = tt

  append_text-CannotFail :
      (capacity : ℕ) (buffer more : Bytes)
      → CannotFail (append_text overlapped capacity buffer more)
  unfolding append_text
  append_text-CannotFail capacity buffer more = go (overlapped capacity buffer more)
    where
      go : (o : Option Bytes) → CannotFail (elim o [ none ↦ fault | some text ↦ ok text ])
      go none = tt
      go (some text) = tt

  print_rule-CannotFail :
      (capacity : ℕ) (buffer : Bytes) (names : List Bytes)
      → CannotFail (print_rule overlapped capacity buffer names)
  unfolding print_rule
  print_rule-CannotFail capacity buffer [] = tt
  print_rule-CannotFail capacity buffer (name ∷ names) =
      then_CannotFail _ _ (append_text-CannotFail capacity buffer _)
        (λ b. print_rule-CannotFail capacity b names)

  print_names-CannotFail :
      (capacity : ℕ) (buffer : Bytes) (names : List Bytes)
      → CannotFail (print_names overlapped capacity buffer names)
  unfolding print_names
  print_names-CannotFail capacity buffer [] = tt
  print_names-CannotFail capacity buffer (name ∷ names) =
      then_CannotFail _ _ (append_text-CannotFail capacity buffer _)
        (λ b. print_names-CannotFail capacity b names)

  print_header-CannotFail :
      (capacity : ℕ) (names : List Bytes) → CannotFail (print_header overlapped capacity names)
  unfolding print_header sprintf
  print_header-CannotFail capacity names =
      then_CannotFail _ _ (start (leb (length corner + 1) capacity)) (λ b.
        then_CannotFail _ _ (print_rule-CannotFail capacity b names) (λ c.
          then_CannotFail _ _ (append_text-CannotFail capacity c _) (λ d.
            then_CannotFail _ _ (print_names-CannotFail capacity d names) (λ e.
              then_CannotFail _ _ (append_text-CannotFail capacity e _)
                (λ f. print_rule-CannotFail capacity f names)))))
    where
      start : (fits : Bool) → CannotFail (if fits then ok corner else fault)
      start true = tt
      start false = tt

  after_header :
      (r : Result Bytes) (k : Bytes → Routine S Bytes) (s : S)
      → CannotFail r
      → ((header : Bytes) → k header s ≡ crash)
      → continue (returned r s) k ≡ crash
  after_header (ok b) k s h q = q b
  after_header failed k s h q = absurd h
  after_header fault k s h q = refl

  -- select_all on named columns of a table without rows, whose number and page the lookups find and whose
  -- columns they find places for, crashes the server: its root is a leaf with no row, and the loop
  -- reads the first row before it asks whether there is one. This holds whatever the C library makes of
  -- a sprintf into its own source.
  pub select_all-empty :
      (table name : Bytes) (names : List Bytes) (id root : ℕ) (n : Node) (offsets : List ℕ)
      (s s1 s2 : S)
      → get_table_id store memory (suc levels) fuel rows_fuel table s ≡ done id s1
      → id < no_page
      → get_table_addr store memory (suc levels) id s1 ≡ done root s2
      → store.Holds s2 given nodes
      → ((now : S)
          → store.Holds now given nodes
          → (after : S) × (get_column_offsets store memory
                (suc levels)
                fuel
                rows_fuel
                print_float
                id
                (name ∷ names)
                now
              ≡ done offsets after)
            × store.Holds after given nodes)
      → nodes root ≡ some n
      → is_leaf n ≡ true
      → n.key_vals ≡ []
      → select_all store memory
          (suc levels)
          fuel
          rows_fuel
          print_float
          overlapped
          table
          (name ∷ names)
          s
        ≡ crash
  unfolding select_all create_at_start leftmost
  select_all-empty table name names id root n offsets s s1 s2 found real placed holds columns held
        leafy none_there =
      let far : (id == no_page) ≡ false = ground (arith, real) in
      let (s3, read, holds3, _) = store.read_lem s2 given nodes root n holds held in
      let (s4, known, holds4) = columns s3 holds3 in
      let then_rows : Bytes → Routine S Bytes = λ header now.
        continue
          (get_column_offsets store memory (suc levels) fuel rows_fuel print_float id (name ∷ names)
            now)
          (λ places s'.
            continue
              (print_rows store memory (suc levels) fuel rows_fuel print_float overlapped rows_fuel
                8192 places (record { page = root; node = n; cell = 0 }) header s')
              (λ body. returned (print_footer overlapped 8192 body (name ∷ names)))) in
      rw (found, far, placed, read, leafy)
        (after_header _ then_rows s3 (print_header-CannotFail 8192 (name ∷ names)) (λ header.
          rw known (
            rw (print_rows-empty (suc levels) rows_fuel offsets root n header s4 none_there) refl)))
