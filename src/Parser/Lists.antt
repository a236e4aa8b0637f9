-- ===== src/Parser/Lists.antt =====
-- server-side/parser/parser.c: count_comma_list, and the comma separated lists that are read by its
-- count. `fault` is the write through the NULL of a refused `malloc`.
use yacdb.Common.{
  ℕ, zero, suc, ◌+◌, ◌%◌, Bool, true, false, not, ◌&&◌, none, some, List, [], ◌∷◌, ◌==◌,
  if◌then◌else◌, Bytes,
}
use yacdb.Common.Int.{ℤ, pos, negsuc, signed}
use yacdb.Common.Memory.{Result, ok, fault}
use yacdb.Parser.{Parsed, and_then}
use yacdb.Parser.Lex.{is_alphanum, is_quote, parse_ident, parse_value, parse_comma, parse_equalsign}

-- The variables of the loop. `count` is a char, kept as its byte.
pub record Counter : Type 0 where
  pub count : ℕ
  pub last : ℕ
  pub equal : Bool
  pub in_quote : Bool

pub data CountStep : Type 0 where
  next : Counter → CountStep
  stop : ℤ → CountStep

abbrev pub count_value : Counter → ℤ
count_value s = signed 128 s.count

unfoldable pub count_step : Counter → ℕ → CountStep
count_step s c =
    if s.in_quote
    then (if is_quote c then next (record s { in_quote = false; last = b'a' }) else next s)
    else if is_quote c
    then next (record s { in_quote = true })
    else if is_alphanum c
    then (if s.last == b' ' && not s.equal
        then stop (count_value s)
        else next (record s { last = b'a' }))
    else if c == b'='
    then (if s.equal then stop (negsuc 0) else next (record s { equal = true }))
    else if c == b' '
    then (if s.last == b'a' then next (record s { last = b' ' }) else next s)
    else if c == b','
    then next (record s { count = (s.count + 1) % 256; equal = false; last = b',' })
    else stop (negsuc 0)

unfoldable pub count_loop : Counter → Bytes → ℤ
count_loop s [] = count_value s
count_loop s (c ∷ cs) = elim (count_step s c) [ next s' ↦ count_loop s' cs | stop n ↦ n ]

abbrev pub counter_start : Counter
counter_start = record { count = 1; last = 0; equal = false; in_quote = false }

unfoldable pub count_comma_list : Bytes → ℤ
count_comma_list data' = count_loop counter_start data'

-- The rest of `parse_comma_list`, `n` times a comma and an identifier.
unfoldable pub ident_loop : ℕ → Bytes → Parsed (List Bytes)
ident_loop zero data' = (some [], data')
ident_loop (suc n) data' = and_then (parse_comma data') λ _ after_comma.
    and_then (parse_ident after_comma) λ ident after_ident.
      and_then (ident_loop n after_ident) λ idents rest. (some (ident ∷ idents), rest)

-- A negative size makes `malloc` fail, and the first write goes through NULL.
abbrev pub of_size {ℓ} : {A : Type ℓ} → ℤ → Bytes → (ℕ → Parsed A) → Result (Parsed A)
of_size (pos zero) data' read = ok (none, data')
of_size (pos (suc n)) data' read = ok (read n)
of_size (negsuc n) data' read = fault

unfoldable pub parse_comma_list : Bytes → Result (Parsed (List Bytes))
parse_comma_list data' = of_size (count_comma_list data') data' λ n.
    and_then (parse_ident data') λ ident after_ident.
      and_then (ident_loop n after_ident) λ idents rest. (some (ident ∷ idents), rest)

-- `name=value`, the value read by `read`.
unfoldable pub parse_pair : (Bytes → Parsed Bytes) → Bytes → Parsed (Bytes × Bytes)
parse_pair read data' = and_then (parse_ident data') λ name after_name.
    and_then (parse_equalsign after_name)
      λ _ after_sign. and_then (read after_sign) λ value rest. (some (name, value), rest)

-- The loop of both lists of pairs. It does not look at the result of `parse_comma`.
unfoldable pub pair_loop : (Bytes → Parsed Bytes) → ℕ → Bytes → Parsed (List (Bytes × Bytes))
pair_loop read zero data' = (some [], data')
pair_loop read (suc n) data' = and_then (parse_pair read (parse_comma data').1) λ pair after_pair.
    and_then (pair_loop read n after_pair) λ pairs rest. (some (pair ∷ pairs), rest)

unfoldable pub parse_pair_list :
    (Bytes → Parsed Bytes) → Bytes → Result (Parsed (List (Bytes × Bytes)))
parse_pair_list read data' = of_size (count_comma_list data') data' λ n.
    and_then (parse_pair read data') λ pair after_pair.
      and_then (pair_loop read n after_pair) λ pairs rest. (some (pair ∷ pairs), rest)

unfoldable pub parse_columndef_list : Bytes → Result (Parsed (List (Bytes × Bytes)))
parse_columndef_list = parse_pair_list parse_ident

unfoldable pub parse_addvalue_list : Bytes → Result (Parsed (List (Bytes × Bytes)))
parse_addvalue_list = parse_pair_list parse_value
