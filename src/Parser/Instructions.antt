-- ===== src/Parser/Instructions.antt =====
-- server-side/parser/parser.c: whole instructions, and the user's input.
use yacdb.Common.{
  ℕ, zero, suc, not, Option, none, some, List, [], ◌∷◌, map, ◌==◌, if◌then◌else◌, drop, Bytes,
}
use yacdb.Common.Int.{ℤ, pos}
use yacdb.Common.Memory.{Result, ok, fault, ◌>>=◌}
use yacdb.Parser.{
  InstrType, kw_where, kw_from, kw_in, kw_with, Condition, Instr, sel_instr, crt_instr, add_instr,
  unknown_instr, Parsed,
}
use yacdb.Parser.Lex.{
  remove_spaces, scan, parse_ident, parse_instrtype, parse_expected_keyword, parse_condition,
  parse_comma,
}
use yacdb.Parser.Lists.{
  count_comma_list, parse_comma_list, parse_columndef_list, parse_addvalue_list,
}

-- Either `*`, which is an empty list, or a list of columns.
unfoldable pub parse_columns : Bytes → Result (Parsed (List Bytes))
parse_columns [] = parse_comma_list []
parse_columns (c ∷ cs) =
    if c == b'*' then ok (some [], remove_spaces cs) else parse_comma_list (c ∷ cs)

-- The `where` part, if the text does not end here; `some none` is no condition.
abbrev condition_after : Option (Unit {0}) → Option Condition → Option (Option Condition)
condition_after (some _) (some cond) = some (some cond)
condition_after _ _ = none

unfoldable pub parse_where : Bytes → Option (Option Condition)
parse_where [] = some none
parse_where (c ∷ cs) =
    let (keyword, after_keyword) = parse_expected_keyword (c ∷ cs) kw_where in
    condition_after keyword (parse_condition after_keyword).0

-- `nok` is 0 only if every call gave a value.
abbrev sel_of :
    Option (List Bytes)
    → Option (Unit {0})
    → Option Bytes
    → Option (Option Condition)
    → Option Instr
sel_of (some columns) (some _) (some table) (some cond) =
    some (sel_instr (record { table = table; columns = columns; cond = cond }))
sel_of _ _ _ _ = none

-- How many of the `n` further entries parse_comma_list sets; the one that fails is set to NULL.
unfoldable pub idents_set : ℕ → Bytes → ℕ
idents_set zero data' = 0
idents_set (suc n) data' =
    let (comma, after_comma) = parse_comma data' in
    let (ident, after_ident) = parse_ident after_comma in
    let others = idents_set n after_ident in
    elim comma [ none ↦ 0 | some _ ↦ elim ident [ none ↦ 1 | some _ ↦ suc others ] ]

-- free_charray on the list that a failed parse_comma_list leaves: entries that were not set are
-- indeterminate, and free_failed.
abbrev free_entries : ℤ → Bytes → Result (Unit {0})
free_entries (pos (suc n)) data' =
    let (ident, after_ident) = parse_ident data' in
    let others = idents_set n after_ident in
    elim ident [
      | none ↦ if n == 0 then ok tt else fault
      | some _ ↦ if others == n then ok tt else fault
    ]
free_entries _ data' = ok tt

abbrev free_failed : Option (List Bytes) → Bytes → Option Instr → Result (Option Instr)
free_failed none data' i = do _ ← free_entries (count_comma_list data') data'; ok i
free_failed (some columns) data' i = ok i

unfoldable pub parse_selinstr : Bytes → Result (Option Instr)
parse_selinstr data' = do
  (columns, after_columns) ← parse_columns data'
  let (keyword, after_keyword) = parse_expected_keyword after_columns kw_from
  let (table, after_table) = parse_ident after_keyword
  free_failed columns data' (sel_of columns keyword table (parse_where after_table))

abbrev names : List (Bytes × Bytes) → List Bytes
names = map (λ p. p.0)

abbrev contents : List (Bytes × Bytes) → List Bytes
contents = map (λ p. p.1)

abbrev crt_of : Option Bytes → Option (Unit {0}) → Option (List (Bytes × Bytes)) → Option Instr
crt_of (some table) (some _) (some defs) =
    some (crt_instr (record { table = table; columns = names defs; types = contents defs }))
crt_of _ _ _ = none

unfoldable pub parse_crtinstr : Bytes → Result (Option Instr)
parse_crtinstr data' =
    let (table, after_table) = parse_ident data' in
    let (keyword, after_keyword) = parse_expected_keyword after_table kw_with in
    (do (defs, _) ← parse_columndef_list after_keyword; ok (crt_of table keyword defs))

abbrev add_of : Option (List (Bytes × Bytes)) → Option (Unit {0}) → Option Bytes → Option Instr
add_of (some vals) (some _) (some table) =
    some (add_instr (record { table = table; columns = names vals; values = contents vals }))
add_of _ _ _ = none

unfoldable pub parse_addinstr : Bytes → Result (Option Instr)
parse_addinstr data' = do
  (vals, after_vals) ← parse_addvalue_list data'
  let (keyword, after_keyword) = parse_expected_keyword after_vals kw_in
  ok (add_of vals keyword (parse_ident after_keyword).0)

abbrev or_unknown : Option Instr → Instr
or_unknown none = unknown_instr
or_unknown (some i) = i

-- The switch of `parse_instr`.
abbrev pub parse_typed : InstrType → Bytes → Result Instr
parse_typed InstrType.sel data' = do i ← parse_selinstr data'; ok (or_unknown i)
parse_typed InstrType.crt data' = do i ← parse_crtinstr data'; ok (or_unknown i)
parse_typed InstrType.add data' = do i ← parse_addinstr data'; ok (or_unknown i)
parse_typed _ data' = ok unknown_instr

unfoldable pub parse_instr : Bytes → Result Instr
parse_instr start =
    let (type, data') = parse_instrtype (remove_spaces start) in parse_typed type data'

abbrev pub semicolons : Bytes → ℕ
semicolons [] = 0
semicolons (c ∷ cs) = if c == b';' then suc (semicolons cs) else semicolons cs

-- Each round reads up to the next semicolon.
unfoldable pub instr_loop : ℕ → Bytes → Result (List Instr)
instr_loop zero data' = ok []
instr_loop (suc n) data' =
    let (token, rest) = scan (λ c. not (c == b';')) data' in
    (do i ← parse_instr token; is ← instr_loop n (drop 1 rest); ok (i ∷ is))

unfoldable pub parse_user_input : Bytes → Result (List Instr)
parse_user_input data' = instr_loop (semicolons data') data'
