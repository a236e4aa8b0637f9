-- ===== src/Index/Missing.antt =====
-- find_all (server-side/schema/cursor_bt.c) on an index that does not have the record.
use yacdb.Common.{
  ℕ, suc, ◌≡◌, ◌≢◌, refl, sym, ap, ◌∙◌, some, List, [], ◌∷◌, All, Bytes, true, false,
}
use yacdb.Common.Int.{ℤ}
use yacdb.Common.Memory.{ok}
use yacdb.Common.State.{done, crash}
use yacdb.Disk.{Node, KeyValue, is_leaf}
use yacdb.Disk.Store.{Nodes, NodeStore}
use yacdb.Record.{Record}
use yacdb.Record.Build.{record_from_string}
use yacdb.Record.Compare.{compare_r}
use yacdb.Record.Compress.Layout.{layout, IsRow}
use yacdb.Table.Shape.{Shape, root_page, rows, lookup_row}
use yacdb.Table.Added.{IsTable}
use yacdb.Table.Count.{get_n_record-layout}
use yacdb.Index.{
  Sign, less, equal, greater, sign_of, compare_entry, scan_cells, search_bt, find_bt, all_from,
  find_all,
}
use yacdb.Index.Names.{get_table_id}

-- The row of an entry has another first record than the one that is looked for.
pub record HasOther (t : Shape) (key_r : Record) (kv : KeyValue) : Type 0 where
  pub first : Record
  pub others : List Record
  pub held : lookup_row kv.key (rows t) ≡ some (layout (first ∷ others))
  pub row : IsRow (first ∷ others)
  pub cmp : ℤ
  pub compared : compare_r key_r first ≡ ok cmp
  pub other : sign_of cmp ≢ equal

module _ {S : Type 0} (store : NodeStore S) (memory given : List ℕ) (nodes : Nodes)
    (levels lo hi : ℕ) (t : Shape) (key_r : Record) where
  compare_entry-HasOther :
      (s : S) (kv : KeyValue)
      → IsTable store given nodes lo hi levels t s
      → HasOther t key_r kv
      → (sign : Sign) × (after : S) × (compare_entry store memory levels 0 (root_page t) key_r kv s
          ≡ done sign after)
        × IsTable store given nodes lo hi levels t after
        × (sign ≢ equal)
  unfolding compare_entry
  compare_entry-HasOther s kv table h =
      let (after, read, holds) =
        get_n_record-layout store memory given nodes levels lo hi t s kv.key [] h.first h.others
          table h.held h.row in
      (
        sign_of h.cmp,
        after,
        rw (read, h.compared) refl,
        record {
          holds = holds;
          held = table.held;
          order = table.order;
          apart = table.apart;
          enough = table.enough;
        },
        h.other,
      )

  scan_cells-HasOther :
      (s : S) (cell : ℕ) (kvs : List KeyValue)
      → IsTable store given nodes lo hi levels t s
      → All (HasOther t key_r) kvs
      → (stop : ℕ) × (after : S) × (scan_cells store memory levels 0 (root_page t) key_r cell kvs s
          ≡ done (stop, false) after)
  unfolding scan_cells
  scan_cells-HasOther s cell [] table h = (cell, s, refl)
  scan_cells-HasOther s cell (kv ∷ kvs) table h =
      let (sign, after, compared, table', far) = compare_entry-HasOther s kv table h.0 in
      let (stop, last, e) = scan_cells-HasOther after (suc cell) kvs table' h.1 in
      by_sign sign after compared far stop last e
    where
      by_sign :
          (sign : Sign) (after : S)
          → compare_entry store memory levels 0 (root_page t) key_r kv s ≡ done sign after
          → sign ≢ equal
          → (stop : ℕ) (last : S)
          → scan_cells store memory levels 0 (root_page t) key_r (suc cell) kvs after
            ≡ done (stop, false) last
          → (stop : ℕ) × (last : S) × (scan_cells store memory levels 0
                (root_page t)
                key_r
                cell
                (kv ∷ kvs)
                s
              ≡ done (stop, false) last)
      by_sign less after compared far stop last e = (cell, after, rw compared refl)
      by_sign equal after compared far stop last e = absurd (far refl)
      by_sign greater after compared far stop last e = (stop, last, rw compared e)

  -- When an index is one leaf and the row of none of its entries starts with a record that compares as
  -- equal, find_all crashes.
  find_all-HasOther :
      (s : S) (root fuel rows_fuel : ℕ) (m : Node)
      → IsTable store given nodes lo hi levels t s
      → nodes root ≡ some m
      → is_leaf m ≡ true
      → All (HasOther t key_r) m.key_vals
      → find_all store memory levels 0 (root_page t) (suc fuel) rows_fuel root key_r s ≡ crash
  unfolding find_all find_bt search_bt all_from
  find_all-HasOther s root fuel rows_fuel m table held leafy others =
      let (s1, read, holds, _) = store.read_lem s given nodes root m table.holds held in
      let table' : IsTable store given nodes lo hi levels t s1 = record {
        holds = holds;
        held = table.held;
        order = table.order;
        apart = table.apart;
        enough = table.enough;
      } in
      let (stop, last, scanned) = scan_cells-HasOther s1 0 m.key_vals table' others in
      rw (read, scanned, leafy) refl

-- get_table_id of a name that no table of the database has crashes the server: the table of the tables
-- is in order on the first page, the index of the names is one leaf on page 2, and the first record of the
-- row of each of its entries compares as another one than the name.
pub get_table_id-missing :
    {S : Type 0} (store : NodeStore S) (memory given : List ℕ) (nodes : Nodes)
    (levels fuel rows_fuel lo hi : ℕ) (t : Shape) (s : S) (name : Bytes) (m : Node)
    → IsTable store given nodes lo hi levels t s
    → root_page t ≡ 0
    → nodes 2 ≡ some m
    → is_leaf m ≡ true
    → All (HasOther t (record_from_string (some name))) m.key_vals
    → get_table_id store memory levels (suc fuel) rows_fuel name s ≡ crash
unfolding get_table_id
get_table_id-missing store memory given nodes levels fuel rows_fuel lo hi t s name m table root held
      leafy others =
    let key_r = record_from_string (some name) in
    let e : find_all store memory levels 0 0 (suc fuel) rows_fuel 2 key_r s ≡ crash =
      ap (λ p. find_all store memory levels 0 p (suc fuel) rows_fuel 2 key_r s) (sym root)
      ∙ find_all-HasOther store memory given nodes levels lo hi t key_r s 2 fuel rows_fuel m table
          held leafy others in
    rw e refl
