-- ===== src/Record/Build.antt =====
-- server-side/schema/record.c: record_from_char to record_from_string. A pointer argument is an
-- option, `none` for NULL; a number is given by its bit pattern.
use yacdb.Common.{ℕ, ◌+◌, ◌%◌, ◌++◌, ◌∷◌, [], Option, none, some, length, Bytes, le_bytes}
use yacdb.Record.{
  Record, last_record_type, record_type_null, record_type_char, record_type_short, record_type_int,
  record_type_long, record_type_float,
}

-- The record of a NULL pointer.
abbrev null_record : Record
null_record = record { type = record_type_null; payload = [] }

unfoldable pub record_from_char : Option ℕ → Record
record_from_char none = null_record
record_from_char (some v) = record { type = record_type_char; payload = le_bytes 1 v }

unfoldable pub record_from_short : Option ℕ → Record
record_from_short none = null_record
record_from_short (some v) = record { type = record_type_short; payload = le_bytes 2 v }

unfoldable pub record_from_int : Option ℕ → Record
record_from_int none = null_record
record_from_int (some v) = record { type = record_type_int; payload = le_bytes 4 v }

unfoldable pub record_from_long : Option ℕ → Record
record_from_long none = null_record
record_from_long (some v) = record { type = record_type_long; payload = le_bytes 8 v }

unfoldable pub record_from_float : Option ℕ → Record
record_from_float none = null_record
record_from_float (some v) = record { type = record_type_float; payload = le_bytes 4 v }

-- The type is cut to an unsigned char; the payload holds the terminator too.
unfoldable pub record_from_string : Option Bytes → Record
record_from_string none = null_record
record_from_string (some s) = record {
  type = (last_record_type + length s + 2) % 256;
  payload = s ++ 0 ∷ [];
}
