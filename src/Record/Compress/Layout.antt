-- ===== src/Record/Compress/Layout.antt =====
-- A row in memory, and extract_record after compress_records (server-side/schema/record.c).
use mathlib.Core.List.{append_assoc, append-nil}
use yacdb.Common.{
  ℕ, ◌+◌, ◌%◌, ◌^◌, ◌<◌, ◌≡◌, refl, sym, ap, ◌∙◌, List, [], ◌∷◌, ◌++◌, length, All, All-append,
  Bytes, arith, length-append, take_of_length-le,
}
use yacdb.Common.Memory.{ok, ◌>>=◌, load, load-append, load_byte-append}
use yacdb.Record.{Record, record_size, record_type_size, IsRecord}
use yacdb.Record.Compress.{
  compress_loop, compress_records, offset_loop, extract_record, read_payload,
}

-- Each record is its type, then its payload.
abbrev pub layout : List Record → Bytes
layout [] = []
layout (r ∷ rs) = r.type ∷ (r.payload ++ layout rs)

pub layout-append : (rs ss : List Record) → layout (rs ++ ss) ≡ layout rs ++ layout ss
layout-append [] ss = refl
layout-append (r ∷ rs) ss = rw (layout-append rs ss, append_assoc)

-- A row that `compress_records` can handle: well-formed records that fit the address space.
pub record IsRow (rs : List Record) : Type 0 where
  pub records : All IsRecord rs
  pub fits : length (layout rs) < 2 ^ 64

-- The payload of a record is shorter than `size_max`.
pub record_size-lt : {r : Record} → IsRecord r → record_size r < 128
unfolding record_size record_type_size
record_size-lt h = ground arith

pub load_payload : {r : Record} → IsRecord r → load r.payload 0 (record_size r) ≡ ok r.payload
unfolding load
load_payload {r} h = rw (← h.sized) (ground (arith, take_of_length-le (length r.payload) r.payload))

compress_loop-layout :
    (rs : List Record) (size : ℕ) (buffer : Bytes)
    → All IsRecord rs
    → compress_loop rs size buffer ≡ ok (size + length (layout rs), buffer ++ layout rs)
unfolding compress_loop
compress_loop-layout [] size buffer h = ground (arith, append-nil buffer)
compress_loop-layout (r ∷ rs) size buffer h = rw (load_payload h.0) (
    compress_loop-layout rs _ _ h.1
    ∙ ground (
      arith,
      h.0.sized,
      append_assoc buffer (r.type ∷ r.payload) (layout rs),
      length-append r.payload (layout rs),
    ))

-- Every row of well-formed records is written, and the size is the length of the buffer.
pub compress_records-layout :
    (rs : List Record) → All IsRecord rs → compress_records rs ≡ ok (length (layout rs), layout rs)
unfolding compress_records
compress_records-layout rs h = compress_loop-layout rs 0 [] h ∙ ground arith

pub record_type_size-type : {r : Record} → IsRecord r → record_type_size r.type ≡ length r.payload
unfolding record_size
record_type_size-type h = sym h.sized

-- The loop passes over the records that stand at its offset.
pub offset_loop-layout :
    (rs : List Record) (pre post : Bytes)
    → All IsRecord rs
    → length pre + length (layout rs) < 2 ^ 64
    → offset_loop (length rs) (pre ++ (layout rs ++ post)) (length pre)
      ≡ ok (length pre + length (layout rs))
unfolding offset_loop
offset_loop-layout [] pre post h fits = ground arith
offset_loop-layout (r ∷ rs) pre post h fits =
    rw (load_byte-append pre r.type ((r.payload ++ layout rs) ++ post)) (
      rw (record_type_size-type h.0, size, passed)
        (ap (λ b. offset_loop (length rs) b (length q)) regroup
          ∙ offset_loop-layout rs q post h.1 (omega (arith, passed, total))
          ∙ ground (arith, passed, total)))
  where
    q : Bytes
    q = pre ++ r.type ∷ r.payload

    total : length (r.payload ++ layout rs) ≡ length r.payload + length (layout rs)
    total = length-append r.payload (layout rs)

    passed : length pre + length r.payload + 1 ≡ length q
    passed = omega (arith, length-append pre (r.type ∷ r.payload))

    size : (length pre + length r.payload + 1) % 2 ^ 64 ≡ length pre + length r.payload + 1
    size = omega (arith, total, fits)

    regroup : pre ++ (r.type ∷ ((r.payload ++ layout rs) ++ post)) ≡ q ++ (layout rs ++ post)
    regroup = ground (
      arith,
      append_assoc r.payload (layout rs) post,
      append_assoc pre (r.type ∷ r.payload) (layout rs ++ post),
    )

pub load_layout :
    (pre : Bytes) (r : Record) (post : Bytes)
    → load (pre ++ (r.type ∷ (r.payload ++ post))) (length pre + 1) (length r.payload)
      ≡ ok r.payload
load_layout pre r post =
    ap (λ b. load b (length pre + 1) (length r.payload)) regroup
    ∙ ap (λ n. load (head ++ (r.payload ++ post)) n (length r.payload)) passed
    ∙ load-append head r.payload post
  where
    head : Bytes
    head = pre ++ r.type ∷ []

    passed : length pre + 1 ≡ length head
    passed = omega (arith, length-append pre (r.type ∷ []))

    regroup : pre ++ (r.type ∷ (r.payload ++ post)) ≡ head ++ (r.payload ++ post)
    regroup = sym (append_assoc pre (r.type ∷ []) (r.payload ++ post))

-- The offset of the record behind `rs`, counted from the start of the buffer.
pub offset_loop-start :
    (rs : List Record) (post : Bytes)
    → All IsRecord rs
    → length (layout rs) < 2 ^ 64
    → offset_loop (length rs) (layout rs ++ post) 0 ≡ ok (length (layout rs))
offset_loop-start rs post h fits =
    offset_loop-layout rs [] post h (omega (arith, fits)) ∙ ap ok (omega arith)

-- The parts of a row on both sides of a record.
pub row_split :
    (pre : List Record) (r : Record) (post : List Record)
    → IsRow (pre ++ r ∷ post)
    → All IsRecord pre × IsRecord r × All IsRecord post × (length (layout pre) < 2 ^ 64)
row_split pre r post h =
    let (a, b) = All-append IsRecord pre (r ∷ post) h.records in
    (
      a,
      b.0,
      b.1,
      omega (
        arith,
        h.fits,
        ap length (layout-append pre (r ∷ post)),
        length-append (layout pre) (layout (r ∷ post)),
      ),
    )

-- `read_payload` on a well-formed record, behind `pre`.
read_payload-layout :
    (pre : Bytes) (r : Record) (post : Bytes)
    → IsRecord r
    → read_payload r.type (length r.payload) (length pre) (pre ++ (r.type ∷ (r.payload ++ post)))
      ≡ ok r
unfolding read_payload
read_payload-layout pre r post h =
    rw (load_layout pre r post) (ground (arith, h.sized, record_size-lt h))

-- After `compress_records`, `extract_record` at any place gives the record that stands there. The
-- records have types below 128 and payloads of the size that their type says, and the row is
-- shorter than 2 ^ 64.
pub extract_record-compress_records :
    (pre : List Record) (r : Record) (post : List Record)
    → IsRow (pre ++ r ∷ post)
    → (do (_, buffer) ← compress_records (pre ++ r ∷ post); extract_record buffer (length pre))
      ≡ ok r
unfolding extract_record
extract_record-compress_records pre r post h =
    let (hs, hr, _, fits) = row_split pre r post h in
    rw (compress_records-layout (pre ++ r ∷ post) h.records, layout-append pre (r ∷ post))
      (rw (offset_loop-start pre (layout (r ∷ post)) hs fits) (
        rw (load_byte-append (layout pre) r.type (r.payload ++ layout post))
          (rw (record_type_size-type hr) (read_payload-layout (layout pre) r (layout post) hr))))
