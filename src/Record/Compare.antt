-- ===== src/Record/Compare.antt =====
-- server-side/schema/record.c: compare_r, on the types of record.h. The machine's float is an IEEE
-- single, given by its bit pattern.
pub mod Order
use yacdb.Common.{
  ℕ, ◌*◌, ◌%◌, ◌^◌, ◌<◌, ◌≡◌, ◌⊎◌, Bool, not, ◌&&◌, ◌||◌, ltb, leb, ◌==◌, if◌then◌else◌, Bytes,
}
use yacdb.Common.Int.{ℤ, pos, negsuc, pos_part, neg_part, signed, difference, compare_ℤ, ltb_ℤ, neg}
use yacdb.Common.Memory.{Result, ok, fault, ◌>>=◌}
use yacdb.Common.Text.{strcmp}
use yacdb.Record.{
  Record, last_record_type, record_type_char, record_type_short, record_type_int, record_type_long,
  record_type_float,
}
use yacdb.Record.Get.{read_number}

-- A float that is not a number: all bits of the exponent, and some of the fraction.
abbrev is_nan : ℕ → Bool
is_nan v = ltb (255 * 2 ^ 23) (v % 2 ^ 31)

-- Its place among the floats; both zeros have one place.
abbrev float_rank : ℕ → ℤ
float_rank v = if ltb v (2 ^ 31) then pos v else neg (pos (v % 2 ^ 31))

abbrev float_lt : ℕ → ℕ → Bool
float_lt a b = not (is_nan a || is_nan b) && ltb_ℤ (float_rank a) (float_rank b)

abbrev pub compare_float : ℕ → ℕ → ℤ
compare_float a b = difference (float_lt b a) (float_lt a b)

-- Both values read as `w`-byte numbers, by the order of the type.
unfoldable pub compare_by : ℕ → (ℕ → ℕ → ℤ) → Record → Record → Result ℤ
unfolding read_number
compare_by w cmp r1 r2 = do a ← read_number w r1; b ← read_number w r2; ok (cmp a b)

abbrev pub compare_signed : ℕ → ℕ → ℕ → ℤ
compare_signed half a b = compare_ℤ (signed half a) (signed half b)

-- The switch on the type, with the `strcmp` of the C library. The types from 8 on are strings; the
-- other types of the `default` case have no data, and `strcmp` is called outside a buffer.
unfoldable pub compare_typed : (Bytes → Bytes → Result ℤ) → ℕ → Record → Record → Result ℤ
compare_typed strcmp_value type r1 r2 =
    if type == record_type_char
    then compare_by 1 (compare_signed (2 ^ 7)) r1 r2
    else if type == record_type_long
    then compare_by 8 (compare_signed (2 ^ 63)) r1 r2
    else if type == record_type_short
    then compare_by 2 (compare_signed (2 ^ 15)) r1 r2
    else if type == record_type_int
    then compare_by 4 (compare_signed (2 ^ 31)) r1 r2
    else if type == record_type_float
    then compare_by 4 compare_float r1 r2
    else if leb type last_record_type
    then fault
    else strcmp_value r1.payload r2.payload

unfoldable pub compare_with : (Bytes → Bytes → Result ℤ) → Record → Record → Result ℤ
unfolding compare_typed
compare_with strcmp_value r1 r2 =
    if not (r1.type == r2.type)
      && not (ltb last_record_type r1.type && ltb last_record_type r2.type)
    then ok (pos 2)
    else compare_typed strcmp_value r1.type r1 r2

-- As its callers read it, which ask for the sign only: with the sign of `strcmp` for its value.
unfoldable pub compare_r : Record → Record → Result ℤ
unfolding compare_with strcmp
compare_r = compare_with strcmp

abbrev pub sign : ℤ → ℤ
sign z = if ltb 0 (pos_part z) then pos 1 else if ltb 0 (neg_part z) then negsuc 0 else pos 0

-- Both of one type, or both strings.
abbrev pub AreComparable : Record → Record → Type 0
AreComparable r1 r2 =
    (r1.type ≡ r2.type) ⊎ ((last_record_type < r1.type) × (last_record_type < r2.type))

-- What C says of `strcmp`: the sign of its value.
abbrev pub IsStrcmp : (Bytes → Bytes → Result ℤ) → Type 0
IsStrcmp strcmp_value = (a b : Bytes) → (do z ← strcmp_value a b; ok (sign z)) ≡ strcmp a b
