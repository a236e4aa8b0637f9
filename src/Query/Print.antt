-- ===== src/Query/Print.antt =====
-- The text of selections (server-side/schema/db_ops.c): print_header, print_row and print_footer, which
-- print into a buffer of so many bytes. `sprintf(buffer, "%s...", buffer)` reads what it overwrites,
-- which C leaves undefined: what the C library makes of it is a parameter.
use yacdb.Common.{
  ℕ, ◌+◌, ◌-◌, ◌^◌, Option, none, some, List, [], ◌∷◌, ◌++◌, Bytes, leb, ltb, length, replicate,
  if◌then◌else◌,
}
use yacdb.Common.Memory.{Result, ok, fault, ◌>>=◌}
use yacdb.Common.Text.{codes, digits}
use yacdb.Record.Compress.{extract_record}
use yacdb.Record.Get.{StringBuffer, record_get_string}
use yacdb.Index.Offsets.{text_of}

-- The text with its terminator fits the buffer, or is written past its end.
unfoldable pub sprintf : ℕ → Bytes → Result Bytes
sprintf capacity text = if leb (length text + 1) capacity then ok text else fault

-- `%10s` and `%3lu`.
abbrev pub padded : ℕ → Bytes → Bytes
padded width text = replicate (width - length text) b' ' ++ text

abbrev pub line_break : ℕ
line_break = b'\n'

-- What is printed for a column, for a name or a value in it, and before a row.
abbrev pub dashes : Bytes
dashes = codes "------------+"

abbrev pub cell : Bytes → Bytes
cell text = b' ' ∷ (padded 10 text ++ codes " |")

abbrev pub key_cell : ℕ → Bytes
key_cell key = line_break ∷ (codes "| " ++ (padded 3 (digits 20 key) ++ codes " |"))

abbrev pub corner : Bytes
corner = codes "+-----+"

abbrev pub index_title : Bytes
index_title = line_break ∷ codes "| idx |"

-- A literal, which has no capacity, must not be freed.
unfoldable pub free_string : Option ℕ → Result (Unit {0})
free_string none = fault
free_string (some capacity) = ok tt

-- `overlapped capacity buffer more` is the buffer after `sprintf(buffer, "%s...", buffer)`, where `more`
-- is what the dots print; none if that crashes.
module _ (overlapped : ℕ → Bytes → Bytes → Option Bytes) where
  unfoldable pub append_text : ℕ → Bytes → Bytes → Result Bytes
  append_text capacity buffer more = elim (overlapped capacity buffer more) [
    | none ↦ fault
    | some text ↦ ok text
  ]

  -- The rule above and below the names, and at the end.
  unfoldable pub print_rule : ℕ → Bytes → List Bytes → Result Bytes
  print_rule capacity buffer [] = ok buffer
  print_rule capacity buffer (name ∷ names) = do
    longer ← append_text capacity buffer dashes
    print_rule capacity longer names

  unfoldable pub print_names : ℕ → Bytes → List Bytes → Result Bytes
  print_names capacity buffer [] = ok buffer
  print_names capacity buffer (name ∷ names) = do
    longer ← append_text capacity buffer (cell name)
    print_names capacity longer names

  unfoldable pub print_header : ℕ → List Bytes → Result Bytes
  print_header capacity names = do
    start ← sprintf capacity corner
    ruled ← print_rule capacity start names
    titled ← append_text capacity ruled index_title
    named ← print_names capacity titled names
    under ← append_text capacity named (line_break ∷ corner)
    print_rule capacity under names

  unfoldable pub print_footer : ℕ → Bytes → List Bytes → Result Bytes
  print_footer capacity buffer names = do
    under ← append_text capacity buffer (line_break ∷ corner)
    print_rule capacity under names

-- The conversion of a `short` to the `size_t` that extract_record takes.
abbrev pub wide : ℕ → ℕ
wide offset = if ltb offset (2 ^ 15) then offset else 2 ^ 64 - 2 ^ 16 + offset

-- `print_float` is the text that the C library prints for a float.
module _ (overlapped : ℕ → Bytes → Bytes → Option Bytes) (print_float : ℕ → Bytes) where
  -- The string of one record of the row.
  unfoldable pub shown : Bytes → ℕ → Result StringBuffer
  shown row offset = do r ← extract_record row (wide offset); record_get_string print_float r

  unfoldable pub print_row : ℕ → Bytes → Bytes → List ℕ → Result Bytes
  print_row capacity buffer row [] = ok buffer
  print_row capacity buffer row (offset ∷ offsets) = do
    s ← shown row offset
    text ← text_of s
    longer ← append_text overlapped capacity buffer (cell text)
    _ ← free_string s.capacity
    print_row capacity longer row offsets

  -- A row behind its key.
  unfoldable pub print_keyed : ℕ → Bytes → ℕ → Bytes → List ℕ → Result Bytes
  print_keyed capacity buffer key row offsets = do
    longer ← append_text overlapped capacity buffer (key_cell key)
    print_row capacity longer row offsets
