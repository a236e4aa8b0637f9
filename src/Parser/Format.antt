-- ===== src/Parser/Format.antt =====
-- How a user writes an instruction, after client-side/query_format.md: what the round trips of the
-- parser (server-side/parser/parser.c) start from.
use yacdb.Common.{
  ◌<◌, ◌≤◌, ◌≡◌, true, false, Option, none, some, List, [], ◌∷◌, ◌++◌, length, All, Bytes,
}
use yacdb.Common.Text.{codes}
use yacdb.Parser.{Condition}
use yacdb.Parser.Lex.{is_alphanum, is_quote}

-- A table or column name that the parser takes.
pub record IsIdent (s : Bytes) : Type 0 where
  pub letters : All (λ b. is_alphanum b ≡ true) s
  pub some_letter : 0 < length s
  pub short : length s ≤ 20

-- What may stand between quotes.
abbrev pub IsQuotable : Bytes → Type 0
IsQuotable = All (λ b. is_quote b ≡ false)

-- The items behind the first one, each with its comma and a space.
abbrev pub comma_tail : List Bytes → Bytes → Bytes
comma_tail [] post = post
comma_tail (x ∷ xs) post = b',' ∷ b' ' ∷ (x ++ comma_tail xs post)

abbrev pub quoted : Bytes → Bytes → Bytes
quoted v post = b'"' ∷ (v ++ (b'"' ∷ post))

abbrev pub show_cond : Option Condition → Bytes
show_cond none = []
show_cond (some c) = codes " where " ++ (c.col ++ (b'=' ∷ quoted c.val []))

-- An instruction on a first column and any others.
abbrev pub show_sel : Bytes → List Bytes → Bytes → Option Condition → Bytes
show_sel x xs table cond =
    codes "sel " ++ (x ++ comma_tail xs (codes " from " ++ (table ++ show_cond cond)))

abbrev pub show_sel_star : Bytes → Option Condition → Bytes
show_sel_star table cond = codes "sel * from " ++ (table ++ show_cond cond)

-- `name=type`, with what follows.
abbrev pub show_def : Bytes × Bytes → Bytes → Bytes
show_def (name, type) post = name ++ (b'=' ∷ (type ++ post))

abbrev pub show_val : Bytes × Bytes → Bytes → Bytes
show_val (name, value) post = name ++ (b'=' ∷ quoted value post)

-- The pairs behind the first one.
abbrev pub pair_tail : (Bytes × Bytes → Bytes → Bytes) → List (Bytes × Bytes) → Bytes → Bytes
pair_tail show [] post = post
pair_tail show (p ∷ ps) post = b',' ∷ b' ' ∷ show p (pair_tail show ps post)

abbrev pub show_crt : Bytes → Bytes × Bytes → List (Bytes × Bytes) → Bytes
show_crt table p ps =
    codes "crt " ++ (table ++ (codes " with " ++ show_def p (pair_tail show_def ps [])))

abbrev pub show_add : Bytes → Bytes × Bytes → List (Bytes × Bytes) → Bytes
show_add table p ps = codes "add " ++ show_val p (pair_tail show_val ps (codes " in " ++ table))

abbrev pub IsDef : Bytes × Bytes → Type 0
IsDef (name, type) = IsIdent name × IsIdent type

abbrev pub IsVal : Bytes × Bytes → Type 0
IsVal (name, value) = IsIdent name × IsQuotable value

abbrev pub IsCond : Option Condition → Type 0
IsCond none = Unit
IsCond (some c) = IsIdent c.col × IsQuotable c.val
