-- ===== src/Parser/Lex.antt =====
-- server-side/parser/parser.c: the functions that read one token.
use yacdb.Common.{
  ℕ, ◌+◌, Bool, not, ◌&&◌, ◌||◌, Option, none, some, List, [], ◌∷◌, leb, ltb, ◌==◌, if◌then◌else◌,
  length, Bytes,
}
use yacdb.Common.Text.{codes}
use yacdb.Parser.{
  InstrType, DataType, Keyword, kw_where, kw_from, kw_in, kw_set, kw_with, Condition, Parsed,
}

abbrev pub ident_max_lenght : ℕ
ident_max_lenght = 20

unfoldable pub is_alphanum : ℕ → Bool
is_alphanum c = (leb 97 c && leb c 122) || (leb 65 c && leb c 90) || (leb 48 c && leb c 57)

unfoldable pub is_int : ℕ → Bool
is_int c = leb 48 c && leb c 57

abbrev pub is_blank : ℕ → Bool
is_blank c = c == b' ' || c == b'\t' || c == b'\n'

unfoldable pub remove_spaces : Bytes → Bytes
remove_spaces [] = []
remove_spaces (c ∷ cs) = if is_blank c then remove_spaces cs else c ∷ cs

-- `while (test(**data)) (*data)++`: the bytes that were passed, and the rest.
unfoldable pub scan : (ℕ → Bool) → Bytes → Bytes × Bytes
scan test [] = ([], [])
scan test (c ∷ cs) =
    let (passed, rest) = scan test cs in if test c then (c ∷ passed, rest) else ([], c ∷ cs)

-- An identifier that is too long is passed, and refused.
abbrev pub take_ident : Bytes → Bytes × Bytes → Parsed Bytes
take_ident start ([], rest) = (none, start)
take_ident start (c ∷ cs, rest) =
    if ltb ident_max_lenght (length (c ∷ cs))
    then (none, remove_spaces rest)
    else (some (c ∷ cs), remove_spaces rest)

unfoldable pub parse_ident : Bytes → Parsed Bytes
parse_ident data' = take_ident data' (scan is_alphanum data')

-- Behind the opening quote: up to the closing one, or back to the start.
abbrev take_quoted : Bytes → Bytes × Bytes → Parsed Bytes
take_quoted start (text, []) = (none, start)
take_quoted start (text, quote ∷ rest) = (some text, remove_spaces rest)

abbrev take_int : Bytes → Bytes × Bytes → Parsed Bytes
take_int start ([], rest) = (none, start)
take_int start (c ∷ cs, rest) = (some (c ∷ cs), remove_spaces rest)

abbrev pub is_quote : ℕ → Bool
is_quote c = c == b'"'

unfoldable pub parse_value : Bytes → Parsed Bytes
parse_value [] = (none, [])
parse_value (c ∷ cs) =
    if is_quote c
    then take_quoted (c ∷ cs) (scan (λ b. not (is_quote b)) cs)
    else take_int (c ∷ cs) (scan is_int (c ∷ cs))

-- The one byte of `parse_comma` and `parse_equalsign`.
abbrev take_byte : ℕ → Bytes → Parsed (Unit {0})
take_byte mark [] = (none, [])
take_byte mark (c ∷ cs) = if c == mark then (some tt, remove_spaces cs) else (none, c ∷ cs)

unfoldable pub parse_comma : Bytes → Parsed (Unit {0})
parse_comma = take_byte b','

unfoldable pub parse_equalsign : Bytes → Parsed (Unit {0})
parse_equalsign = take_byte b'='

-- `!strncmp(*data, word, length)`: the text behind the word, if it stands there.
unfoldable pub strip_prefix : Bytes → Bytes → Option Bytes
strip_prefix [] cs = some cs
strip_prefix (w ∷ ws) [] = none
strip_prefix (w ∷ ws) (c ∷ cs) = if w == c then strip_prefix ws cs else none

unfoldable pub parse_datatype : Bytes → DataType × Bytes
parse_datatype data' = elim (strip_prefix (codes "int") data') [
  | some rest ↦ (DataType.integer, remove_spaces rest)
  | none ↦ elim (strip_prefix (codes "string") data') [
    | some rest ↦ (DataType.string, remove_spaces rest)
    | none ↦ (DataType.unknown_data_type, data')
  ]
]

-- `(instrType) i`, in the order of the enumeration.
abbrev instrtype_of : ℕ → InstrType
instrtype_of i =
    if i == 0
    then InstrType.sel
    else if i == 1
    then InstrType.upd
    else if i == 2
    then InstrType.del
    else if i == 3
    then InstrType.add
    else if i == 4
    then InstrType.crt
    else InstrType.drop

-- The words in the order of the table, which is not that of the enumeration.
abbrev pub instr_words : List Bytes
instr_words =
    codes "sel" ∷ codes "del" ∷ codes "upd" ∷ codes "add" ∷ codes "crt" ∷ codes "drop" ∷ []

-- A word with no space behind it ends the search.
abbrev spaced : InstrType → Bytes → Bytes → InstrType × Bytes
spaced type start [] = (InstrType.unknown_instr_type, start)
spaced type start (c ∷ cs) =
    if c == b' ' then (type, remove_spaces (c ∷ cs)) else (InstrType.unknown_instr_type, start)

unfoldable pub instrtype_loop : ℕ → List Bytes → Bytes → InstrType × Bytes
instrtype_loop i [] data' = (InstrType.unknown_instr_type, data')
instrtype_loop i (word ∷ words) data' = elim (strip_prefix word data') [
  | some rest ↦ spaced (instrtype_of i) data' rest
  | none ↦ instrtype_loop (i + 1) words data'
]

unfoldable pub parse_instrtype : Bytes → InstrType × Bytes
parse_instrtype data' = instrtype_loop 0 instr_words data'

abbrev pub keyword_word : Keyword → Bytes
keyword_word kw_where = codes "where"
keyword_word kw_from = codes "from"
keyword_word kw_in = codes "in"
keyword_word kw_set = codes "set"
keyword_word kw_with = codes "with"

unfoldable pub parse_expected_keyword : Bytes → Keyword → Parsed (Unit {0})
parse_expected_keyword data' expected = elim (strip_prefix (keyword_word expected) data') [
  | some rest ↦ (some tt, remove_spaces rest)
  | none ↦ (none, data')
]

-- SAFE_CALL goes on after a failure: each call starts where the last one stopped.
abbrev condition_of : Option Bytes → Option (Unit {0}) → Option Bytes → Option Condition
condition_of (some col) (some _) (some val) = some (record { col = col; val = val })
condition_of _ _ _ = none

unfoldable pub parse_condition : Bytes → Parsed Condition
parse_condition data' =
    let (col, after_col) = parse_ident data' in
    let (sign, after_sign) = parse_equalsign after_col in
    let (val, after_val) = parse_value after_sign in (condition_of col sign val, after_val)
