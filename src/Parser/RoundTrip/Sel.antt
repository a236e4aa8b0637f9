-- ===== src/Parser/RoundTrip/Sel.antt =====
-- `sel` instructions, read back by parse_selinstr (server-side/parser/parser.c).
use yacdb.Common.{
  ℕ, ◌<◌, ◌≡◌, refl, ap, ◌∙◌, true, false, Option, none, some, List, [], ◌∷◌, ◌++◌, length, All,
  Bytes, arith, ◌==◌,
}
use yacdb.Common.Memory.{ok}
use yacdb.Common.Text.{codes}
use yacdb.Parser.{InstrType, kw_where, kw_from, Condition, sel_instr}
use yacdb.Parser.Lex.{is_alphanum, remove_spaces}
use yacdb.Parser.Lists.{parse_comma_list}
use yacdb.Parser.Instructions.{parse_columns, parse_where, parse_typed, parse_selinstr, parse_instr}
use yacdb.Parser.Format.{IsIdent, IsCond, comma_tail, quoted, show_cond, show_sel, show_sel_star}
use yacdb.Parser.Reading.{Stops, remove_spaces-ident, parse_ident-ident, parse_condition-cond}
use yacdb.Parser.RoundTrip.Idents.{keyword_ident, parse_comma_list-comma_tail, parse_instr_word}

letter-ne_star : (c : ℕ) → is_alphanum c ≡ true → (c == b'*') ≡ false
unfolding is_alphanum
letter-ne_star c h = ground arith

pub parse_columns-ident :
    (x post : Bytes) → IsIdent x → parse_columns (x ++ post) ≡ parse_comma_list (x ++ post)
unfolding parse_columns
parse_columns-ident [] post h = absurd (omega (arith, h.some_letter))
parse_columns-ident (c ∷ x) post h = rw (letter-ne_star c h.letters.0)

Stops-show_cond : (cond : Option Condition) → Stops is_alphanum (show_cond cond)
unfolding is_alphanum
Stops-show_cond none = tt
Stops-show_cond (some c) = refl

parse_where-show_cond :
    (cond : Option Condition)
    → IsCond cond
    → parse_where (remove_spaces (show_cond cond)) ≡ some cond
unfolding parse_where remove_spaces
parse_where-show_cond none h = refl
parse_where-show_cond (some c) h =
    rw (keyword_ident kw_where c.col (b'=' ∷ quoted c.val []) h.0)
      (rw (parse_condition-cond c.col c.val h.0 h.1) refl)

letter_f : is_alphanum b'f' ≡ true
unfolding is_alphanum
letter_f = refl

remove_from : (post : Bytes) → remove_spaces (codes " from " ++ post) ≡ codes "from " ++ post
unfolding remove_spaces
remove_from post = refl

parse_selinstr-show :
    (x : Bytes) (xs : List Bytes) (table : Bytes) (cond : Option Condition)
    → IsIdent x
    → All IsIdent xs
    → IsIdent table
    → IsCond cond
    → length xs < 127
    → parse_selinstr (x ++ comma_tail xs (codes " from " ++ (table ++ show_cond cond)))
      ≡ ok (some (sel_instr (record { table = table; columns = x ∷ xs; cond = cond })))
unfolding parse_selinstr
parse_selinstr-show x xs table cond hx hs ht hc n = rw (parse_columns-ident x _ hx) (
    rw
      (parse_comma_list-comma_tail x xs b'f' (codes "rom " ++ (table ++ show_cond cond)) hx hs
        letter_f n)
      (rw (remove_from, keyword_ident kw_from table (show_cond cond) ht)
        (rw (parse_ident-ident table (show_cond cond) ht (Stops-show_cond cond))
          (rw (parse_where-show_cond cond hc) refl))))

-- A `sel` instruction on one to 127 columns, with or without a condition, is read back as it was
-- written. The table and column names are 1 to 20 letters or digits; the value of the condition
-- holds no quote.
pub parse_instr-show_sel :
    (x : Bytes) (xs : List Bytes) (table : Bytes) (cond : Option Condition)
    → IsIdent x
    → All IsIdent xs
    → IsIdent table
    → IsCond cond
    → length xs < 127
    → parse_instr (show_sel x xs table cond)
      ≡ ok (sel_instr (record { table = table; columns = x ∷ xs; cond = cond }))
parse_instr-show_sel x xs table cond hx hs ht hc n =
    (parse_instr_word _).0
    ∙ ap (parse_typed InstrType.sel) (remove_spaces-ident x _ hx)
    ∙ rw (parse_selinstr-show x xs table cond hx hs ht hc n)

star_columns :
    (post : Bytes) → parse_columns (codes "* from " ++ post) ≡ ok (some [], codes "from " ++ post)
unfolding parse_columns remove_spaces
star_columns post = refl

remove_star : (post : Bytes) → remove_spaces (b'*' ∷ post) ≡ b'*' ∷ post
unfolding remove_spaces
remove_star post = refl

parse_selinstr-star :
    (table : Bytes) (cond : Option Condition)
    → IsIdent table
    → IsCond cond
    → parse_selinstr (codes "* from " ++ (table ++ show_cond cond))
      ≡ ok (some (sel_instr (record { table = table; columns = []; cond = cond })))
unfolding parse_selinstr
parse_selinstr-star table cond ht hc =
    rw (star_columns (table ++ show_cond cond), keyword_ident kw_from table (show_cond cond) ht)
      (rw (parse_ident-ident table (show_cond cond) ht (Stops-show_cond cond))
        (rw (parse_where-show_cond cond hc) refl))

-- `sel *` is read back as the empty list of columns, with its table and its condition, if any. The
-- names are 1 to 20 letters or digits; the value of the condition holds no quote.
pub parse_instr-show_sel_star :
    (table : Bytes) (cond : Option Condition)
    → IsIdent table
    → IsCond cond
    → parse_instr (show_sel_star table cond)
      ≡ ok (sel_instr (record { table = table; columns = []; cond = cond }))
parse_instr-show_sel_star table cond ht hc =
    (parse_instr_word _).0
    ∙ ap (parse_typed InstrType.sel) (remove_star _)
    ∙ rw (parse_selinstr-star table cond ht hc)
