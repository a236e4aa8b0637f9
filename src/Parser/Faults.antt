-- ===== src/Parser/Faults.antt =====
-- The lists of server-side/parser/parser.c on a byte that count_comma_list does not know: it
-- returns -1, and the callers allocate that many entries and write to the first.
use yacdb.Common.{
  ℕ, ◌≡◌, refl, ap, ◌∙◌, Bool, true, false, ◌||◌, ◌∷◌, ◌++◌, ◌==◌, if◌then◌else◌, Bytes, arith,
}
use yacdb.Common.Int.{negsuc}
use yacdb.Common.Memory.{fault}
use yacdb.Common.Text.{codes}
use yacdb.Parser.{InstrType, kw_with}
use yacdb.Parser.Lex.{is_alphanum, is_quote}
use yacdb.Parser.Lists.{
  count_step, count_loop, count_comma_list, parse_comma_list, parse_pair_list, parse_columndef_list,
  parse_addvalue_list,
}
use yacdb.Parser.Instructions.{
  parse_selinstr, parse_crtinstr, parse_addinstr, parse_instr, parse_typed,
}
use yacdb.Parser.Format.{IsIdent}
use yacdb.Parser.Reading.{remove_spaces-ident, parse_ident-ident}
use yacdb.Parser.Counting.{outside, count_ident}
use yacdb.Parser.RoundTrip.Idents.{keyword_ident, Stops-space, parse_instr_word}
use yacdb.Parser.RoundTrip.CrtAdd.{remove_with}
use yacdb.Parser.RoundTrip.Sel.{parse_columns-ident}

-- A byte that may not stand in a list, such as an underscore, a tab or a parenthesis.
abbrev pub is_forbidden : ℕ → Bool
is_forbidden c =
    if is_alphanum c || is_quote c || c == b'=' || c == b' ' || c == b',' then false else true

count_forbidden :
    (c : ℕ) (post : Bytes) (k : ℕ)
    → is_forbidden c ≡ true
    → count_loop (outside k b'a' false) (c ∷ post) ≡ negsuc 0
unfolding count_loop count_step
count_forbidden c post k h = ground arith

count_refused :
    (w : Bytes) (c : ℕ) (post : Bytes)
    → IsIdent w
    → is_forbidden c ≡ true
    → count_comma_list (w ++ c ∷ post) ≡ negsuc 0
unfolding count_comma_list
count_refused w c post hw hc =
    count_ident w (c ∷ post) 1 0 false refl hw ∙ count_forbidden c post 1 hc

lists_fault :
    (w : Bytes) (c : ℕ) (post : Bytes)
    → IsIdent w
    → is_forbidden c ≡ true
    → (parse_comma_list (w ++ c ∷ post) ≡ fault)
      × (parse_columndef_list (w ++ c ∷ post) ≡ fault)
      × (parse_addvalue_list (w ++ c ∷ post) ≡ fault)
unfolding parse_comma_list parse_columndef_list parse_addvalue_list parse_pair_list
lists_fault w c post hw hc = (
  rw (count_refused w c post hw hc) refl,
  rw (count_refused w c post hw hc) refl,
  rw (count_refused w c post hw hc) refl,
)

sel_fault :
    (w : Bytes) (c : ℕ) (post : Bytes)
    → IsIdent w
    → is_forbidden c ≡ true
    → parse_selinstr (w ++ c ∷ post) ≡ fault
unfolding parse_selinstr
sel_fault w c post hw hc =
    rw (parse_columns-ident w (c ∷ post) hw, (lists_fault w c post hw hc).0) refl

add_fault :
    (w : Bytes) (c : ℕ) (post : Bytes)
    → IsIdent w
    → is_forbidden c ≡ true
    → parse_addinstr (w ++ c ∷ post) ≡ fault
unfolding parse_addinstr
add_fault w c post hw hc = rw ((lists_fault w c post hw hc).2) refl

crt_fault :
    (table w : Bytes) (c : ℕ) (post : Bytes)
    → IsIdent table
    → IsIdent w
    → is_forbidden c ≡ true
    → parse_crtinstr (table ++ (codes " with " ++ (w ++ c ∷ post))) ≡ fault
unfolding parse_crtinstr
crt_fault table w c post ht hw hc =
    rw
      (parse_ident-ident table (codes " with " ++ (w ++ c ∷ post)) ht
        (Stops-space (codes "with " ++ (w ++ c ∷ post))))
      (rw (remove_with (w ++ c ∷ post), keyword_ident kw_with w (c ∷ post) hw)
        (rw ((lists_fault w c post hw hc).1) refl))

-- A list whose first name, 1 to 20 letters or digits, is followed by a byte other than a letter, a
-- digit, a quote, an equal sign, a space or a comma makes the parser write through a null
-- pointer, in a `sel`, an `add` and a `crt` instruction alike.
pub parse_instr_fault :
    (table w : Bytes) (c : ℕ) (post : Bytes)
    → IsIdent table
    → IsIdent w
    → is_forbidden c ≡ true
    → (parse_instr (codes "sel " ++ (w ++ c ∷ post)) ≡ fault)
      × (parse_instr (codes "add " ++ (w ++ c ∷ post)) ≡ fault)
      × (parse_instr (codes "crt " ++ (table ++ (codes " with " ++ (w ++ c ∷ post)))) ≡ fault)
parse_instr_fault table w c post ht hw hc = (
  (parse_instr_word _).0
      ∙ ap (parse_typed InstrType.sel) (remove_spaces-ident w (c ∷ post) hw)
      ∙ rw (sel_fault w c post hw hc) refl,
  (parse_instr_word _).2
      ∙ ap (parse_typed InstrType.add) (remove_spaces-ident w (c ∷ post) hw)
      ∙ rw (add_fault w c post hw hc) refl,
  (parse_instr_word _).1
      ∙ ap (parse_typed InstrType.crt) (remove_spaces-ident table _ ht)
      ∙ rw (crt_fault table w c post ht hw hc) refl,
)
