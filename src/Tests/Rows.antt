-- ===== src/Tests/Rows.antt =====
-- Rows and cells with concrete values (server-side/schema/record.c).
use yacdb.Common.{
  ℕ, ◌++◌, ◌+◌, ◌<◌, ◌≡◌, ◌≢◌, refl, some, [], ◌∷◌, Bytes, le_bytes, arith, length, if◌then◌else◌,
  ◌==◌, ltb, inr, ◌-◌,
}
use yacdb.Common.Int.{ℤ, pos, negsuc}
use yacdb.Common.Text.{codes, IsText}
use yacdb.Common.Memory.{Result, ok, fault, ◌>>=◌, load, load_byte}
use yacdb.Record.{Record, record_size, record_type_size, IsRecord}
use yacdb.Record.Build.{record_from_short, record_from_string}
use yacdb.Record.Get.{
  StringBuffer, record_get_long, record_get_short, record_get_char, record_get_string,
}
use yacdb.Record.Get.Laws.{record_get_string-short_overflow}
use yacdb.Record.Compress.{
  compress_records, offset_loop, read_payload, extract_record, replace_record,
}
use yacdb.Record.Get.Typed.{extract_record-IsRecord}
use yacdb.Record.Compress.Layout.{IsRow, layout, extract_record-compress_records}
use yacdb.Record.Compress.Replace.{replace_record-compress_records}
use yacdb.Record.Compress.Strings.{compress_records-record_from_string}
use yacdb.Common.Text.{strcmp}
use yacdb.Record.Compare.{compare_with, compare_typed, sign, IsStrcmp}
use yacdb.Record.Compare.Order.{compare_with-swap}

abbrev age : Record
age = record { type = 4; payload = le_bytes 8 42 }

abbrev name : Record
name = record { type = 12; payload = codes "Joe" ++ 0 ∷ [] }

abbrev new_name : Record
new_name = record { type = 13; payload = codes "Jack" ++ 0 ∷ [] }

abbrev nothing : Record
nothing = record { type = 0; payload = [] }

cells-IsRow : IsRow (age ∷ name ∷ nothing ∷ [])
unfolding record_size
cells-IsRow = record {
  records = (
    record { positive = omega arith; sized = refl },
    (
      record { positive = omega arith; sized = refl },
      (record { positive = omega arith; sized = refl }, tt),
    ),
  );
  fits = omega arith;
}

new_name-IsRecord : IsRecord new_name
unfolding record_size
new_name-IsRecord = record { positive = omega arith; sized = refl }

name_some : 0 < record_size name
unfolding record_size
name_some = omega arith

extract_record-compress_records_example :
    (do (_, buffer) ← compress_records (age ∷ name ∷ nothing ∷ []); extract_record buffer 1)
    ≡ ok name
extract_record-compress_records_example =
    extract_record-compress_records (age ∷ []) name (nothing ∷ []) cells-IsRow

replace_record-compress_records_example :
    (do
      (_, buffer) ← compress_records (age ∷ name ∷ nothing ∷ [])
      replace_record buffer 1 new_name)
    ≡ (if record_size new_name == record_size name
        then ok (layout (age ∷ new_name ∷ nothing ∷ []))
        else fault)
replace_record-compress_records_example =
    replace_record-compress_records (age ∷ []) name (nothing ∷ []) new_name cells-IsRow
      new_name-IsRecord name_some

compress_records-record_from_string_example :
    compress_records (record_from_string (some (codes "Joe")) ∷ [])
    ≡ ok (5, 12 ∷ (codes "Joe" ++ 0 ∷ []))
compress_records-record_from_string_example =
    compress_records-record_from_string (codes "Joe") (omega arith)

abbrev no_float : ℕ → Bytes
no_float v = []

joe-IsText : IsText (codes "Joe")
joe-IsText = omega arith

jack-IsText : IsText (codes "Jack")
jack-IsText = omega arith

-- -20000 as a short.
record_get_string-short_overflow_example :
    (b : StringBuffer) × (record_get_string no_float (record_from_short (some 45536)) ≡ ok b)
    × (b.capacity ≡ some 6)
    × (6 < length b.text + 1)
record_get_string-short_overflow_example =
    record_get_string-short_overflow no_float 45536 (omega arith) (omega arith)

-- A `strcmp` whose value is the difference of the first bytes that differ.
abbrev byte_difference : Bytes → Bytes → Result ℤ
byte_difference [] ys = fault
byte_difference (x ∷ xs) [] = fault
byte_difference (x ∷ xs) (y ∷ ys) =
    let rest = byte_difference xs ys in
    if x == y
    then (if x == 0 then ok (pos 0) else rest)
    else if ltb x y
    then ok (negsuc (y - x - 1))
    else ok (pos (x - y))

byte_difference-IsStrcmp : IsStrcmp byte_difference
unfolding strcmp
byte_difference-IsStrcmp [] ys = refl
byte_difference-IsStrcmp (x ∷ xs) [] = refl
byte_difference-IsStrcmp (x ∷ xs) (y ∷ ys) = ground (arith, byte_difference-IsStrcmp xs ys)

joe_behind : compare_with byte_difference name new_name ≡ ok (pos 14)
unfolding compare_with compare_typed
joe_behind = refl

compare_with-swap_example :
    (w : ℤ) × (compare_with byte_difference new_name name ≡ ok w) × (sign w ≡ negsuc 0)
compare_with-swap_example =
    compare_with-swap byte_difference name new_name (pos 14) byte_difference-IsStrcmp
      (inr (omega arith, omega arith)) joe_behind

abbrev some_long : Record
some_long = record { type = 4; payload = 1 ∷ 2 ∷ 3 ∷ 4 ∷ 5 ∷ 6 ∷ 7 ∷ 8 ∷ [] }

-- A long of the row; the bytes behind it are any.
extract_record-IsRecord_example :
    IsRecord some_long
    × (record_get_long some_long ≢ fault)
    × (record_get_short some_long ≢ fault)
    × (record_get_char some_long ≢ fault)
unfolding extract_record offset_loop read_payload record_type_size load load_byte
extract_record-IsRecord_example =
    extract_record-IsRecord (2 ∷ 0 ∷ 0 ∷ 4 ∷ 1 ∷ 2 ∷ 3 ∷ 4 ∷ 5 ∷ 6 ∷ 7 ∷ 8 ∷ 255 ∷ []) 1 some_long
      refl
