-- ===== src/Record/Compress/Replace.antt =====
-- replace_record (server-side/schema/record.c) on a row that compress_records wrote: exact where the
-- sizes agree, and an access outside the buffer where they differ and the old payload is not empty.
use mathlib.Core.List.{append_assoc, append-nil}
use yacdb.Common.{
  ℕ, ◌+◌, ◌-◌, ◌%◌, ◌^◌, ◌<◌, ◌≤◌, ◌≡◌, ◌≢◌, refl, sym, ap, ◌∙◌, ◌==◌, ==_iff, if◌then◌else◌, List,
  [], ◌∷◌, ◌++◌, length, take, drop, Bytes, arith, length-append, length-take, length-drop,
  length-replicate, ltb, false, take_of_length-le, inl, inr, Bool-cases,
}
use yacdb.Common.Memory.{ok, fault, ◌>>=◌, load, store, load_byte-append, store-append}
use yacdb.Record.{Record, record_size, IsRecord}
use yacdb.Record.Compress.{compress_records, resize, move_tail, replace_record}
use yacdb.Record.Compress.Layout.{
  layout, layout-append, IsRow, row_split, record_size-lt, load_payload, compress_records-layout,
  offset_loop-start, record_type_size-type,
}

resize-length : (buffer : Bytes) → resize (length buffer) buffer ≡ buffer
unfolding resize
resize-length buffer =
    rw (take_of_length-le (length buffer) buffer (omega arith))
      (let e : length buffer - length buffer ≡ 0 = omega arith in rw e (append-nil buffer))

length-resize : (n : ℕ) (buffer : Bytes) → length (resize n buffer) ≡ n
unfolding resize
length-resize n buffer =
    rw (length-append, length-take) (omega (arith, length-replicate {A = ℕ} (n - length buffer) 0))

-- The writes of the type and of a payload as long as the old one.
store_record :
    (pre : Bytes) (old new : Record) (post : Bytes)
    → length new.payload ≡ length old.payload
    → (do
      typed ← store (pre ++ (old.type ∷ (old.payload ++ post))) (length pre) (new.type ∷ [])
      store typed (length pre + 1) new.payload)
      ≡ ok (pre ++ (new.type ∷ (new.payload ++ post)))
store_record pre old new post same =
    rw (store-append pre (old.type ∷ []) (new.type ∷ []) (old.payload ++ post) refl) (
      ap (λ b. store b (length pre + 1) new.payload) (regroup old.payload)
      ∙ ap (λ n. store (head ++ (old.payload ++ post)) n new.payload) passed
      ∙ store-append head old.payload new.payload post (sym same)
      ∙ ap ok (sym (regroup new.payload)))
  where
    head : Bytes
    head = pre ++ new.type ∷ []

    passed : length pre + 1 ≡ length head
    passed = omega (arith, length-append pre (new.type ∷ []))

    regroup : (p : Bytes) → pre ++ (new.type ∷ (p ++ post)) ≡ head ++ (p ++ post)
    regroup p = sym (append_assoc pre (new.type ∷ []) (p ++ post))

granted : (n m r : ℕ) → m ≤ n + r → ltb (n + r) m ≡ false
granted n m r h = ground arith

-- The new size of a buffer in which the payload keeps its length.
same_size : (n m : ℕ) → n < 2 ^ 64 → m < 128 → (n + (2 ^ 64 - m) + m) % 2 ^ 64 ≡ n
same_size n m h k = omega arith

move_tail_same : (n offs m : ℕ) (b : Bytes) → move_tail n offs m m b ≡ ok b
unfolding move_tail
move_tail_same n offs m b = ground arith

length_loaded : (offs n : ℕ) (b : Bytes) → offs + n ≤ length b → length (take n (drop offs b)) ≡ n
length_loaded offs n b h = omega (arith, length-take n (drop offs b), length-drop offs b)

-- Where the sizes differ, and the old payload is not empty, the move leaves the new buffer.
move_tail_fault :
    (n offs m r : ℕ) (b : Bytes)
    → length b + m ≤ n + r
    → offs ≤ n
    → 0 < m
    → r ≢ m
    → move_tail n offs m r b ≡ fault
unfolding move_tail load store
move_tail_fault n offs m r b hb ho hm hr = elim (Bool-cases (r == m)) [
  | inl same ↦ absurd (hr ((==_iff r m).0 same))
  | inr differ ↦ rw differ (ground (arith, length_loaded (offs + m) (n - offs) b))
]

-- The move of `replace_record`, on a buffer with the old record behind `pre`.
outside :
    (pre post : Bytes) (old new : Record)
    → record_size old < 128
    → 0 < record_size old
    → record_size new ≢ record_size old
    → length old.payload ≡ record_size old
    → let b = pre ++ (old.type ∷ (old.payload ++ post)) in
      move_tail
        (length b)
        (length pre)
        (record_size old)
        (record_size new)
        (resize ((length b + (2 ^ 64 - record_size old) + record_size new) % 2 ^ 64) b)
      ≡ fault
outside pre post old new small some_data differ sized =
    move_tail_fault (length b) (length pre) (record_size old) (record_size new) (resize n b)
      (omega (arith, length-resize n b, size)) (omega (arith, size)) some_data differ
  where
    b : Bytes
    b = pre ++ (old.type ∷ (old.payload ++ post))

    n : ℕ
    n = (length b + (2 ^ 64 - record_size old) + record_size new) % 2 ^ 64

    size : length b ≡ length pre + 1 + record_size old + length post
    size = omega (
      arith,
      length-append pre (old.type ∷ (old.payload ++ post)),
      length-append old.payload post,
      sized,
    )

long_enough :
    (pre post : Bytes) (old : Record)
    → length old.payload ≡ record_size old
    → record_size old ≤ length (pre ++ (old.type ∷ (old.payload ++ post)))
long_enough pre post old sized = omega (
  arith,
  length-append pre (old.type ∷ (old.payload ++ post)),
  length-append old.payload post,
  sized,
)

module _ (pre : List Record) (old : Record) (post : List Record) (new : Record) where
  pub replace_same_size :
      IsRow (pre ++ old ∷ post)
      → IsRecord new
      → record_size new ≡ record_size old
      → replace_record (layout (pre ++ old ∷ post)) (length pre) new
        ≡ ok (layout (pre ++ new ∷ post))
  unfolding replace_record
  replace_same_size row good same =
      let (hs, ho, _, fits) = row_split pre old post row in
      let total : length (layout pre ++ layout (old ∷ post)) < 2 ^ 64 =
        rw (← layout-append pre (old ∷ post)) row.fits in
      let small : length old.payload < 128 = omega (arith, ho.sized, record_size-lt ho) in
      let m = length old.payload in
      let free : ltb (length (layout pre ++ layout (old ∷ post)) + m) m ≡ false =
        granted (length (layout pre ++ layout (old ∷ post))) m m (omega arith) in
      let payload : load new.payload 0 (length old.payload) ≡ ok new.payload =
        rw (ho.sized, ← same) (load_payload good) in
      rw (layout-append pre (old ∷ post), layout-append pre (new ∷ post))
        (rw (offset_loop-start pre (layout (old ∷ post)) hs fits) (
          rw (load_byte-append (layout pre) old.type (old.payload ++ layout post)) (
            rw (record_type_size-type ho, same, ← ho.sized)
              (rw (free, same_size _ _ total small, resize-length, move_tail_same, payload)
                (store_record (layout pre) old new (layout post)
                  (good.sized ∙ same ∙ sym ho.sized))))))

  -- The outcome where the sizes differ and there is an old payload.
  replace_other_size :
      IsRow (pre ++ old ∷ post)
      → IsRecord new
      → record_size new ≢ record_size old
      → 0 < record_size old
      → replace_record (layout (pre ++ old ∷ post)) (length pre) new ≡ fault
  unfolding replace_record
  replace_other_size row good differ some_data =
      let (hs, ho, _, fits) = row_split pre old post row in
      let small = record_size-lt ho in
      let free : ltb (length (layout pre ++ layout (old ∷ post)) + record_size new)
            (record_size old)
          ≡ false =
        granted (length (layout pre ++ layout (old ∷ post))) (record_size old) (record_size new)
          (omega (arith, long_enough (layout pre) (layout post) old ho.sized)) in
      rw (layout-append pre (old ∷ post)) (
        rw (offset_loop-start pre (layout (old ∷ post)) hs fits) (
          rw (load_byte-append (layout pre) old.type (old.payload ++ layout post)) (
            rw (record_type_size-type ho, ho.sized)
              (rw (
                free,
                outside (layout pre) (layout post) old new small some_data differ ho.sized,
              )))))

  -- On a written row of records whose payloads have the size of their type, as the new one has, and
  -- where the record to replace has a payload: if the new payload has the same
  -- length, the result is the row with that one record replaced, byte for byte; otherwise
  -- `replace_record` accesses memory outside the buffer.
  pub replace_record-compress_records :
      IsRow (pre ++ old ∷ post)
      → IsRecord new
      → 0 < record_size old
      → (do
        (_, buffer) ← compress_records (pre ++ old ∷ post)
        replace_record buffer (length pre) new)
        ≡ (if record_size new == record_size old then ok (layout (pre ++ new ∷ post)) else fault)
  replace_record-compress_records row good some_data =
      rw (compress_records-layout (pre ++ old ∷ post) row.records)
        (elim (Bool-cases (record_size new == record_size old)) [
          | inl same ↦ rw same (replace_same_size row good ((==_iff _ _).0 same))
          | inr differ ↦
              rw differ (replace_other_size row good (λ e. cc ((==_iff _ _).1 e)) some_data)
        ])
