-- ===== src/Table/Count.antt =====
-- get_n_record, get_table_addr and get_next_id (server-side/schema/db_ops.c) on the table of the tables.
use yacdb.Common.{
  ℕ, ◌+◌, ◌%◌, ◌^◌, ◌≡◌, ◌≢◌, ◌<◌, ◌≤◌, refl, sym, ap, ◌∙◌, some, List, [], ◌∷◌, ◌++◌, arith, Bytes,
  get_elem?, length, length-le_bytes,
}
use yacdb.Common.Memory.{ok}
use yacdb.Common.State.{done}
use yacdb.Disk.{KeyValue}
use yacdb.Disk.Store.{Nodes, NodeStore}
use yacdb.Record.{Record, IsRecord, record_size, record_type_size}
use yacdb.Record.Build.{record_from_long}
use yacdb.Record.Get.Laws.{record_get_long-record_from_long}
use yacdb.Record.Compress.{extract_record, replace_record}
use yacdb.Record.Compress.Layout.{
  layout, IsRow, compress_records-layout, extract_record-compress_records,
}
use yacdb.Record.Compress.Replace.{replace_same_size}
use yacdb.Table.{lower_cell}
use yacdb.Table.Shape.{Shape, root_page, rows, leaf_of, lookup_row}
use yacdb.Table.Lookup.{get_row-lookup_row}
use yacdb.Table.Rows.{get_n_record, set_n_record, get_next_id, count_on, get_table_addr}
use yacdb.Table.Added.{IsTable}
use yacdb.Table.Replace.{replaced_leaf, replaced_tree, lookup_row-entry, set_n_record-lookup_row}

-- The row of a table: its name, its page, and the number of its next row.
abbrev pub table_row : Record → ℕ → ℕ → Bytes
table_row name page next =
    layout (name ∷ record_from_long (some page) ∷ record_from_long (some next) ∷ [])

IsRecord-record_from_long : (v : ℕ) → IsRecord (record_from_long (some v))
unfolding record_from_long record_size record_type_size
IsRecord-record_from_long v = record { positive = omega arith; sized = length-le_bytes 8 v }

same_size :
    (v w : ℕ) → record_size (record_from_long (some v)) ≡ record_size (record_from_long (some w))
unfolding record_from_long record_size
same_size v w = refl

-- extract_record at the place of a record of a row.
extract_record-layout :
    (pre : List Record) (r : Record) (post : List Record)
    → IsRow (pre ++ r ∷ post)
    → extract_record (layout (pre ++ r ∷ post)) (length pre) ≡ ok r
extract_record-layout pre r post h =
    rw (compress_records-layout (pre ++ r ∷ post) h.records) at
      (extract_record-compress_records pre r post h)

module _ {S : Type 0} (store : NodeStore S) (memory given : List ℕ) (nodes : Nodes) (fuel lo hi : ℕ)
    (t : Shape) (s : S) where
  -- The record at a place of a row of the table.
  pub get_n_record-layout :
      (key : ℕ) (pre : List Record) (r : Record) (post : List Record)
      → IsTable store given nodes lo hi fuel t s
      → lookup_row key (rows t) ≡ some (layout (pre ++ r ∷ post))
      → IsRow (pre ++ r ∷ post)
      → (after : S) × (get_n_record store memory fuel (root_page t) key (length pre) s
          ≡ done r after)
        × store.Holds after given nodes
  unfolding get_n_record
  get_n_record-layout key pre r post table row h =
      let (after, found, holds) =
        get_row-lookup_row store given nodes fuel key lo hi t s table.holds table.held table.order
          table.enough in
      (after, rw (found, row, extract_record-layout pre r post h) refl, holds)

  -- On the table of the tables, in order, get_table_addr returns the page in the row of the table.
  pub get_table_addr-table_row :
      (id : ℕ) (name : Record) (page next : ℕ)
      → IsTable store given nodes lo hi fuel t s
      → root_page t ≡ 0
      → lookup_row id (rows t) ≡ some (table_row name page next)
      → IsRow (name ∷ record_from_long (some page) ∷ record_from_long (some next) ∷ [])
      → page < 2 ^ 64
      → (after : S) × (get_table_addr store memory fuel id s ≡ done page after)
        × store.Holds after given nodes
  unfolding get_table_addr
  get_table_addr-table_row id name page next table root row h small =
      let (after, read, holds) =
        get_n_record-layout id (name ∷ []) (record_from_long (some page))
          (record_from_long (some next) ∷ []) table row h in
      let read' : get_n_record store memory fuel 0 id 1 s
          ≡ done (record_from_long (some page)) after =
        ap (λ p. get_n_record store memory fuel p id 1 s) (sym root) ∙ read in
      (after, rw (read', record_get_long-record_from_long (some page) small) refl, holds)

  -- On the table of the tables, in order, where the row of a table counts up to `next`, get_next_id
  -- returns `next` and leaves the table in order, with the number after it in the row, the same name
  -- and page, and any other row as it was. The number after it is below 2 ^ 64, and the leaf with the
  -- new row is one that the store can hold.
  pub get_next_id-table_row :
      (id other : ℕ) (name : Record) (page next : ℕ) (kv : KeyValue)
      → IsTable store given nodes lo hi fuel t s
      → root_page t ≡ 0
      → lo ≤ id
      → id < hi
      → get_elem? (leaf_of id t).1.key_vals (lower_cell id (leaf_of id t).1.key_vals) ≡ some kv
      → kv.key ≡ id
      → kv.value ≡ table_row name page next
      → IsRow (name ∷ record_from_long (some page) ∷ record_from_long (some next) ∷ [])
      → next + 1 < 2 ^ 64
      → store.Fits (replaced_leaf id kv (table_row name page (next + 1)) (leaf_of id t).1)
      → id ≢ other
      → (after : S) × (later : Nodes) × (grown : Shape) × (get_next_id store memory fuel id s
          ≡ done next after)
        × IsTable store given later lo hi fuel grown after
        × (root_page grown ≡ 0)
        × (lookup_row id (rows grown) ≡ some (table_row name page (next + 1)))
        × (lookup_row other (rows grown) ≡ lookup_row other (rows t))
  unfolding get_next_id count_on
  get_next_id-table_row id other name page next kv table root low high entry same row h small fits
        far =
      let held = lookup_row-entry id lo hi t kv table.order entry same ∙ ap (λ r. some r) row in
      let (s', read, holds) =
        get_n_record-layout id (name ∷ record_from_long (some page) ∷ [])
          (record_from_long (some next)) [] table held h in
      let read' : get_n_record store memory fuel 0 id 2 s ≡ done (record_from_long (some next)) s' =
        ap (λ p. get_n_record store memory fuel p id 2 s) (sym root) ∙ read in
      let table' : IsTable store given nodes lo hi fuel t s' = record {
        holds = holds;
        held = table.held;
        order = table.order;
        apart = table.apart;
        enough = table.enough;
      } in
      let new = record_from_long (some (next + 1)) in
      let replaced : replace_record kv.value 2 new ≡ ok (table_row name page (next + 1)) =
        ap (λ r. replace_record r 2 new) row
        ∙ replace_same_size (name ∷ record_from_long (some page) ∷ [])
            (record_from_long (some next)) [] new h (IsRecord-record_from_long (next + 1))
            (same_size (next + 1) next) in
      let (after, later, wrote, grown, root', new_row, others) =
        set_n_record-lookup_row store given nodes fuel lo hi t s' memory id 2 other new kv
          (table_row name page (next + 1)) table' low high entry same replaced fits far in
      let wrote' : set_n_record store memory fuel 0 id 2 new s' ≡ done tt after =
        ap (λ p. set_n_record store memory fuel p id 2 new s') (sym root) ∙ wrote in
      let number : (next + 1) % 2 ^ 64 ≡ next + 1 = omega arith in
      (
        after,
        later,
        replaced_tree id kv (table_row name page (next + 1)) t,
        rw (read', record_get_long-record_from_long (some next) (omega arith), number, wrote') refl,
        grown,
        root' ∙ root,
        new_row,
        others,
      )
