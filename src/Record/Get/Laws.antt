-- ===== src/Record/Get/Laws.antt =====
-- record_from_* and record_get_* of server-side/schema/record.c, one after the other.
use yacdb.Common.{
  ℕ, ◌+◌, ◌-◌, ◌*◌, ◌%◌, ◌^◌, ◌≤◌, ◌<◌, ◌≡◌, refl, Option, none, some, [], arith, Bool-cases, inl,
  inr, ltb, ltb→lt, ltb-false, ge→ltb, length, Bytes, le_bytes, from_le-le_bytes, length-le_bytes,
  take_of_length-le,
}
use yacdb.Common.Int.{signed}
use yacdb.Common.Memory.{ok, load}
use yacdb.Common.Text.{
  load_str-append, IsText, decimal, decimal_value, decimal_value-decimal, length-digits-le,
  lt-length-digits,
}
use yacdb.Record.Build.{record_from_char, record_from_short, record_from_long, record_from_string}
use yacdb.Record.Get.{
  read_number, record_get_char, record_get_short, record_get_long, StringBuffer, record_get_string,
}

-- A number that fits comes back as it was stored, and a NULL pointer comes back as zero, as NULL
-- for a char.
abbrev default_zero : Option ℕ → ℕ
default_zero none = 0
default_zero (some v) = v

abbrev FitsWidth : ℕ → Option ℕ → Type 0
FitsWidth w none = Unit
FitsWidth w (some v) = v < 256 ^ w

pub read_number-le_bytes :
    (w v type : ℕ)
    → v < 256 ^ w
    → read_number w (record { type = type; payload = le_bytes w v }) ≡ ok v
unfolding read_number load
read_number-le_bytes w v type h =
    ground (arith, length-le_bytes w v, from_le-le_bytes w v h, take_of_length-le w (le_bytes w v))

pub record_get_long-record_from_long :
    (p : Option ℕ) → FitsWidth 8 p → record_get_long (record_from_long p) ≡ ok (default_zero p)
unfolding record_get_long record_from_long
record_get_long-record_from_long none h = refl
record_get_long-record_from_long (some v) h = read_number-le_bytes 8 v 4 h

record_get_short-record_from_short :
    (p : Option ℕ) → FitsWidth 2 p → record_get_short (record_from_short p) ≡ ok (default_zero p)
unfolding record_get_short record_from_short
record_get_short-record_from_short none h = refl
record_get_short-record_from_short (some v) h = read_number-le_bytes 2 v 2 h

record_get_char-record_from_char :
    (p : Option ℕ) → FitsWidth 1 p → record_get_char (record_from_char p) ≡ ok p
unfolding record_get_char record_from_char
record_get_char-record_from_char none h = refl
record_get_char-record_from_char (some v) h = rw (read_number-le_bytes 1 v 1 h)

-- Each getter gives back what its constructor stored, where that fits its type; a NULL pointer
-- comes back as NULL for a char, and as 0 for a short or a long.
pub record_get-record_from :
    (l s c : Option ℕ)
    → FitsWidth 8 l
    → FitsWidth 2 s
    → FitsWidth 1 c
    → (record_get_long (record_from_long l) ≡ ok (default_zero l))
      × (record_get_short (record_from_short s) ≡ ok (default_zero s))
      × (record_get_char (record_from_char c) ≡ ok c)
record_get-record_from l s c hl hs hc = (
  record_get_long-record_from_long l hl,
  record_get_short-record_from_short s hs,
  record_get_char-record_from_char c hc,
)

-- A string of at most 118 bytes, none of them zero, comes back as it was stored, in a buffer of its length and the
-- terminator.
pub record_get_string-record_from_string :
    (print_float : ℕ → Bytes) (s : Bytes)
    → IsText s
    → length s ≤ 118
    → record_get_string print_float (record_from_string (some s))
      ≡ ok (record { capacity = some (length s + 1); text = s })
unfolding record_get_string record_from_string
record_get_string-record_from_string print_float s h k =
    let e : (7 + length s + 2) % 256 ≡ length s + 9 = omega arith in
    rw (load_str-append s h [], e) (ground arith)

get_string-long :
    (print_float : ℕ → Bytes) (v : ℕ)
    → v < 256 ^ 8
    → record_get_string print_float (record_from_long (some v))
      ≡ ok (record { capacity = some 21; text = decimal (signed (2 ^ 63) v) })
unfolding record_from_long record_get_string
get_string-long print_float v h = rw (read_number-le_bytes 8 v 4 h)

get_string-short :
    (print_float : ℕ → Bytes) (v : ℕ)
    → v < 256 ^ 2
    → record_get_string print_float (record_from_short (some v))
      ≡ ok (record { capacity = some 6; text = decimal (signed (2 ^ 15) v) })
unfolding record_from_short record_get_string
get_string-short print_float v h = rw (read_number-le_bytes 2 v 2 h)

length-decimal_long : (v : ℕ) → v < 256 ^ 8 → length (decimal (signed (2 ^ 63) v)) + 1 ≤ 21
unfolding decimal
length-decimal_long v h = elim (Bool-cases (ltb v (2 ^ 63))) [
  | inl low ↦
      rw low (omega (arith, length-digits-le 19 20 v (omega arith) (omega (arith, ltb→lt _ _ low))))
  | inr high ↦ rw high (
      omega (
        arith,
        length-digits-le 19 20 (2 * 2 ^ 63 - v - 1 + 1) (omega arith)
            (omega (arith, ltb-false v (2 ^ 63) high)),
      ))
]

length-decimal_short :
    (v : ℕ) → 2 ^ 15 ≤ v → v ≤ 2 ^ 16 - 10000 → 6 < length (decimal (signed (2 ^ 15) v)) + 1
unfolding decimal
length-decimal_short v lo hi =
    rw (ge→ltb v (2 ^ 15) lo)
      (omega (arith, lt-length-digits 4 20 (2 * 2 ^ 15 - v - 1 + 1) (omega arith) (omega arith)))

-- The text of a long, with its sign, is the number that was stored, and with its terminator it
-- fits the buffer of 21 bytes.
pub record_get_string-record_from_long :
    (print_float : ℕ → Bytes) (v : ℕ)
    → v < 256 ^ 8
    → (b : StringBuffer) × (record_get_string print_float (record_from_long (some v)) ≡ ok b)
      × (b.capacity ≡ some 21)
      × (decimal_value b.text ≡ signed (2 ^ 63) v)
      × (length b.text + 1 ≤ 21)
record_get_string-record_from_long print_float v h = (
  record { capacity = some 21; text = decimal (signed (2 ^ 63) v) },
  get_string-long print_float v h,
  refl,
  decimal_value-decimal (signed (2 ^ 63) v) (ground arith) (ground arith),
  length-decimal_long v h,
)

-- From -32768 to -10000 a short takes six characters and the terminator: `sprintf` writes past the
-- buffer of 6 bytes that `record_get_string` allocates for it.
pub record_get_string-short_overflow :
    (print_float : ℕ → Bytes) (v : ℕ)
    → 2 ^ 15 ≤ v
    → v ≤ 2 ^ 16 - 10000
    → (b : StringBuffer) × (record_get_string print_float (record_from_short (some v)) ≡ ok b)
      × (b.capacity ≡ some 6)
      × (6 < length b.text + 1)
record_get_string-short_overflow print_float v lo hi = (
  record { capacity = some 6; text = decimal (signed (2 ^ 15) v) },
  get_string-short print_float v (omega arith),
  refl,
  length-decimal_short v lo hi,
)
