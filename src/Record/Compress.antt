-- ===== src/Record/Compress.antt =====
-- server-side/schema/record.c: compress_records, extract_record and replace_record. A buffer is the
-- list of its bytes, so `*size` is its length.
pub mod Layout
pub mod Replace
pub mod Strings
use yacdb.Common.{
  ℕ, zero, suc, ◌+◌, ◌-◌, ◌%◌, ◌^◌, not, ◌==◌, ltb, if◌then◌else◌, List, [], ◌∷◌, ◌++◌, length,
  take, replicate, Bytes,
}
use yacdb.Common.Memory.{Result, ok, failed, fault, ◌>>=◌, load, load_byte, store}
use yacdb.Record.{Record, record_size, record_type_size, size_max}

-- The loop of `compress_records`: `realloc`, the type, then the payload.
unfoldable pub compress_loop : List Record → ℕ → Bytes → Result (ℕ × Bytes)
compress_loop [] size buffer = ok (size, buffer)
compress_loop (r ∷ rs) size buffer = do
  bytes ← load r.payload 0 (record_size r)
  compress_loop rs (size + record_size r + 1) (buffer ++ r.type ∷ bytes)

unfoldable pub compress_records : List Record → Result (ℕ × Bytes)
compress_records rs = compress_loop rs 0 []

-- The loop that finds the offset of the `n`th record from `offs` on.
unfoldable pub offset_loop : ℕ → Bytes → ℕ → Result ℕ
offset_loop zero buffer offs = ok offs
offset_loop (suc n) buffer offs = do
  type ← load_byte buffer offs
  offset_loop n buffer ((offs + record_type_size type + 1) % 2 ^ 64)

-- `malloc` refuses the size of a negative type.
unfoldable pub read_payload : ℕ → ℕ → ℕ → Bytes → Result Record
read_payload type size offs buffer =
    if size == size_max
    then failed
    else (do bytes ← load buffer (offs + 1) size; ok (record { type = type; payload = bytes }))

unfoldable pub extract_record : Bytes → ℕ → Result Record
extract_record buffer n = do
  offs ← offset_loop n buffer 0
  type ← load_byte buffer offs
  let size = record_type_size type
  read_payload type size offs buffer

-- `realloc`: bytes that it adds are indeterminate, and stand here as 0.
unfoldable pub resize : ℕ → Bytes → Bytes
resize size buffer = take size buffer ++ replicate (size - length buffer) 0

-- What follows the record moves from behind the old payload to behind the new one, counted from
-- the byte before it.
unfoldable pub move_tail : ℕ → ℕ → ℕ → ℕ → Bytes → Result Bytes
move_tail size offs old_r_size r_size buffer =
    if not (r_size == old_r_size)
    then (do
      tail ← load buffer (offs + old_r_size) (size - offs)
      store buffer (offs + r_size) tail)
    else ok buffer

-- `realloc` to the new size, which fails when the subtraction wraps around.
abbrev reallocated : ℕ → ℕ → Bytes → Result Bytes
reallocated old_r_size r_size buffer =
    let new_size = (length buffer + (2 ^ 64 - old_r_size) + r_size) % 2 ^ 64 in
    if ltb (length buffer + r_size) old_r_size then failed else ok (resize new_size buffer)

unfoldable pub replace_record : Bytes → ℕ → Record → Result Bytes
replace_record buffer n r = do
  offs ← offset_loop n buffer 0
  old_type ← load_byte buffer offs
  let old_r_size = record_type_size old_type
  new_buffer ← reallocated old_r_size (record_size r) buffer
  moved ← move_tail (length buffer) offs old_r_size (record_size r) new_buffer
  typed ← store moved offs (r.type ∷ [])
  bytes ← load r.payload 0 (record_size r)
  store typed (offs + 1) bytes
