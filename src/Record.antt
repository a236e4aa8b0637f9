-- ===== src/Record.antt =====
-- server-side/schema/include/record.h: the tagged values that rows are made of, and their sizes.
-- `type` is the value of the unsigned char; `payload` is the memory that `data` points to, and is
-- empty where `data` is NULL. Memory is always granted: the branches on a failed `malloc` of a
-- size that a machine can grant are not modelled.
pub mod Build
pub mod Get
pub mod Compress
pub mod Compare
use yacdb.Common.{ℕ, ◌-◌, ◌<◌, ◌^◌, ◌≡◌, ◌==◌, leb, if◌then◌else◌, length, Bytes}

pub record Record : Type 0 where
  pub type : ℕ
  pub payload : Bytes

abbrev pub last_record_type : ℕ
last_record_type = 7

abbrev pub record_type_null : ℕ
record_type_null = 0

abbrev pub record_type_char : ℕ
record_type_char = 1

abbrev pub record_type_short : ℕ
record_type_short = 2

abbrev pub record_type_int : ℕ
record_type_int = 3

abbrev pub record_type_long : ℕ
record_type_long = 4

abbrev pub record_type_float : ℕ
record_type_float = 5

abbrev pub record_type_0 : ℕ
record_type_0 = 6

abbrev pub record_type_1 : ℕ
record_type_1 = 7

-- `(size_t) -1`.
abbrev pub size_max : ℕ
size_max = 2 ^ 64 - 1

-- The argument is a signed char, given by its byte: those from 128 on are negative.
unfoldable pub record_type_size : ℕ → ℕ
record_type_size type =
    if type == record_type_null
    then 0
    else if type == record_type_char
    then 1
    else if type == record_type_short
    then 2
    else if type == record_type_int
    then 4
    else if type == record_type_long
    then 8
    else if type == record_type_float
    then 4
    else if type == record_type_0
    then 0
    else if type == record_type_1
    then 0
    else if leb 128 type
    then size_max
    else type - last_record_type - 1

unfoldable pub record_size : Record → ℕ
unfolding record_type_size
record_size r = record_type_size r.type

-- The type is not negative as a char, and the payload has the size that the type says.
pub record IsRecord (r : Record) : Type 0 where
  pub positive : r.type < 128
  pub sized : length r.payload ≡ record_size r
