-- ===== src/Record/Compress/Strings.antt =====
-- How long a string record_from_string can hold (server-side/schema/record.c): its type is one
-- char, and from 119 bytes on that char is negative.
use mathlib.Core.List.{append-nil}
use yacdb.Common.{
  ◌+◌, ◌%◌, ◌≤◌, ◌≡◌, ◌∙◌, inl, inr, some, [], ◌∷◌, ◌++◌, leb, leb→le, if◌then◌else◌, Bool-cases,
  length, length-append, Bytes, arith,
}
use yacdb.Common.Memory.{ok, fault, load, load_outside}
use yacdb.Record.{record_size, size_max, IsRecord}
use yacdb.Record.Build.{record_from_string}
use yacdb.Record.Compress.{compress_loop, compress_records}
use yacdb.Record.Compress.Layout.{compress_records-layout}

-- A string of at most 118 bytes is a well-formed record.
pub record_from_string-IsRecord :
    (s : Bytes) → length s ≤ 118 → IsRecord (record_from_string (some s))
unfolding record_from_string record_size
record_from_string-IsRecord s h = record {
  positive = omega arith;
  sized = ground (arith, length-append s (0 ∷ []));
}

record_size-long :
    (s : Bytes)
    → 119 ≤ length s
    → length s ≤ 246
    → record_size (record_from_string (some s)) ≡ size_max
unfolding record_from_string record_size
record_size-long s lo hi =
    let e : (7 + length s + 2) % 256 ≡ length s + 9 = omega arith in rw e (ground arith)

load_long :
    (s : Bytes) → length s ≤ 246 → load (record_from_string (some s)).payload 0 size_max ≡ fault
unfolding record_from_string
load_long s h = load_outside (s ++ 0 ∷ []) 0 size_max (omega (arith, length-append s (0 ∷ [])))

written :
    (s : Bytes)
    → length s ≤ 118
    → compress_records (record_from_string (some s) ∷ [])
      ≡ ok (length s + 2, (length s + 9) ∷ (s ++ 0 ∷ []))
written s h =
    compress_records-layout _ (record_from_string-IsRecord s h, tt)
    ∙ unfold record_from_string in
      ground (arith, append-nil (s ++ 0 ∷ []), length-append s (0 ∷ []), e)
  where
    e : (7 + length s + 2) % 256 ≡ length s + 9
    e = omega arith

refused :
    (s : Bytes)
    → 119 ≤ length s
    → length s ≤ 246
    → compress_records (record_from_string (some s) ∷ []) ≡ fault
unfolding compress_records compress_loop
refused s lo hi = rw (record_size-long s lo hi, load_long s hi)

-- A string of at most 118 bytes is written as its type, its bytes and the terminator; from 119 to
-- 246 bytes its size reads as the largest `size_t`, and `compress_records` copies outside the
-- record.
pub compress_records-record_from_string :
    (s : Bytes)
    → length s ≤ 246
    → compress_records (record_from_string (some s) ∷ [])
      ≡ (if leb (length s) 118 then ok (length s + 2, (length s + 9) ∷ (s ++ 0 ∷ [])) else fault)
compress_records-record_from_string s h = elim (Bool-cases (leb (length s) 118)) [
  | inl short ↦ rw short (written s (leb→le _ _ short))
  | inr long ↦ rw long (refused s (ground arith) h)
]
