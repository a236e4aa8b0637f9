-- ===== src/Record/Get.antt =====
-- server-side/schema/record.c: record_get_char, record_get_short, record_get_long and
-- record_get_string. `failed` is the return of -1.
pub mod Laws
pub mod Typed
use yacdb.Common.{ℕ, ◌-◌, ◌^◌, ◌==◌, if◌then◌else◌, Option, none, some, Bytes, from_le, [], ◌∷◌}
use yacdb.Common.Int.{signed}
use yacdb.Common.Memory.{Result, ok, failed, ◌>>=◌, load}
use yacdb.Common.Text.{c_str, load_str, decimal}
use yacdb.Record.{
  Record, last_record_type, record_type_null, record_type_char, record_type_short, record_type_int,
  record_type_long, record_type_float, record_type_0, record_type_1,
}

-- `*(T *)record->data` for a type of `w` bytes, as a bit pattern.
unfoldable pub read_number : ℕ → Record → Result ℕ
read_number w r = do bytes ← load r.payload 0 w; ok (from_le bytes)

-- `some v` is a fresh char that holds `v`, `none` is NULL.
unfoldable pub record_get_char : Record → Result (Option ℕ)
unfolding read_number
record_get_char r =
    if r.type == record_type_null
    then ok none
    else if r.type == record_type_char
    then (do v ← read_number 1 r; ok (some v))
    else if r.type == record_type_0
    then ok (some 0)
    else if r.type == record_type_1
    then ok (some 1)
    else failed

unfoldable pub record_get_short : Record → Result ℕ
unfolding read_number
record_get_short r =
    if r.type == record_type_null
    then ok 0
    else if r.type == record_type_short
    then read_number 2 r
    else if r.type == record_type_0
    then ok 0
    else if r.type == record_type_1
    then ok 1
    else failed

unfoldable pub record_get_long : Record → Result ℕ
unfolding read_number
record_get_long r =
    if r.type == record_type_null
    then ok 0
    else if r.type == record_type_long
    then read_number 8 r
    else if r.type == record_type_0
    then ok 0
    else if r.type == record_type_1
    then ok 1
    else failed

-- The string that a call hands out: its text, and the bytes that were allocated for it. A literal
-- has no capacity, and must not be freed.
pub record StringBuffer : Type 0 where
  pub capacity : Option ℕ
  pub text : Bytes

abbrev literal : Bytes → Result StringBuffer
literal s = ok (record { capacity = none; text = s })

abbrev printed : ℕ → Bytes → Result StringBuffer
printed n s = ok (record { capacity = some n; text = s })

-- `print_float` is the output of `sprintf("%f")` on the bit pattern of a float.
unfoldable pub record_get_string : (ℕ → Bytes) → Record → Result StringBuffer
unfolding read_number c_str load_str decimal
record_get_string print_float r =
    if r.type == record_type_null
    then literal (b'N' ∷ b'U' ∷ b'L' ∷ b'L' ∷ [])
    else if r.type == record_type_char
    then (do v ← read_number 1 r; printed 2 (c_str (v ∷ [])))
    else if r.type == record_type_0
    then literal (b'0' ∷ [])
    else if r.type == record_type_1
    then literal (b'1' ∷ [])
    else if r.type == record_type_short
    then (do v ← read_number 2 r; printed 6 (decimal (signed (2 ^ 15) v)))
    else if r.type == record_type_int
    then (do v ← read_number 4 r; printed 11 (decimal (signed (2 ^ 31) v)))
    else if r.type == record_type_long
    then (do v ← read_number 8 r; printed 21 (decimal (signed (2 ^ 63) v)))
    else if r.type == record_type_float
    then (do v ← read_number 4 r; printed 21 (print_float v))
    else (do s ← load_str r.payload; printed (r.type - last_record_type - 1) s)
