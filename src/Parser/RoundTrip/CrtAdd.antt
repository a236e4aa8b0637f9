-- ===== src/Parser/RoundTrip/CrtAdd.antt =====
-- `crt` and `add` instructions, read back (server-side/parser/parser.c).
use mathlib.Core.List.{append-nil}
use yacdb.Common.{◌<◌, ◌≡◌, refl, ap, ◌∙◌, some, List, [], ◌∷◌, ◌++◌, map, length, All, Bytes}
use yacdb.Common.Memory.{ok}
use yacdb.Common.Text.{codes}
use yacdb.Parser.{InstrType, kw_in, kw_with, crt_instr, add_instr}
use yacdb.Parser.Lex.{remove_spaces, parse_ident, parse_expected_keyword}
use yacdb.Parser.Instructions.{parse_typed, parse_crtinstr, parse_addinstr, parse_instr}
use yacdb.Parser.Format.{IsIdent, IsDef, IsVal, show_def, show_val, pair_tail, show_crt, show_add}
use yacdb.Parser.Reading.{remove_spaces-ident, parse_ident-ident}
use yacdb.Parser.RoundTrip.Idents.{keyword_ident, Stops-space, parse_instr_word}
use yacdb.Parser.RoundTrip.Pairs.{parse_columndef_list-show, parse_addvalue_list-show}

pub remove_with : (post : Bytes) → remove_spaces (codes " with " ++ post) ≡ codes "with " ++ post
unfolding remove_spaces
remove_with post = refl

parse_crtinstr-show :
    (table : Bytes) (p : Bytes × Bytes) (ps : List (Bytes × Bytes))
    → IsIdent table
    → IsDef p
    → All IsDef ps
    → length ps < 127
    → parse_crtinstr (table ++ (codes " with " ++ show_def p (pair_tail show_def ps [])))
      ≡ ok (
          some (
            crt_instr (record {
              table = table;
              columns = map (λ q. q.0) (p ∷ ps);
              types = map (λ q. q.1) (p ∷ ps);
            })))
unfolding parse_crtinstr
parse_crtinstr-show table (name, type) ps ht hp hs n =
    let list = show_def (name, type) (pair_tail show_def ps []) in
    rw (parse_ident-ident table (codes " with " ++ list) ht (Stops-space (codes "with " ++ list))) (
      rw
        (
          remove_with list,
          keyword_ident kw_with name (b'=' ∷ (type ++ pair_tail show_def ps [])) hp.0,
        )
        (rw (parse_columndef_list-show (name, type) ps hp hs n) refl))

parse_addinstr-show :
    (table : Bytes) (p : Bytes × Bytes) (ps : List (Bytes × Bytes))
    → IsIdent table
    → IsVal p
    → All IsVal ps
    → length ps < 127
    → parse_addinstr (show_val p (pair_tail show_val ps (codes " in " ++ table)))
      ≡ ok (
          some (
            add_instr (record {
              table = table;
              columns = map (λ q. q.0) (p ∷ ps);
              values = map (λ q. q.1) (p ∷ ps);
            })))
unfolding parse_addinstr
parse_addinstr-show table p ps ht hp hs n =
    rw (parse_addvalue_list-show p ps table hp hs ht n, in_table table ht, read_table table ht) refl
  where
    in_table :
        (t : Bytes) → IsIdent t → parse_expected_keyword (codes "in " ++ t) kw_in ≡ (some tt, t)
    in_table t h = rw append-nil at (keyword_ident kw_in t [] h)

    read_table : (t : Bytes) → IsIdent t → parse_ident t ≡ (some t, remove_spaces [])
    read_table t h = rw append-nil at (parse_ident-ident t [] h tt)

-- A `crt` instruction on one to 127 columns is read back as it was written: the table, the columns
-- in their order, and the type word of each. Names and type words are 1 to 20 letters or digits.
pub parse_instr-show_crt :
    (table : Bytes) (p : Bytes × Bytes) (ps : List (Bytes × Bytes))
    → IsIdent table
    → IsDef p
    → All IsDef ps
    → length ps < 127
    → parse_instr (show_crt table p ps)
      ≡ ok (
          crt_instr (record {
            table = table;
            columns = map (λ q. q.0) (p ∷ ps);
            types = map (λ q. q.1) (p ∷ ps);
          }))
parse_instr-show_crt table p ps ht hp hs n =
    (parse_instr_word _).1
    ∙ ap (parse_typed InstrType.crt) (remove_spaces-ident table _ ht)
    ∙ rw (parse_crtinstr-show table p ps ht hp hs n)

-- An `add` instruction with one to 127 values in quotes is read back as it was written, whatever
-- bytes other than a quote the values hold. The names are 1 to 20 letters or digits.
pub parse_instr-show_add :
    (table : Bytes) (p : Bytes × Bytes) (ps : List (Bytes × Bytes))
    → IsIdent table
    → IsVal p
    → All IsVal ps
    → length ps < 127
    → parse_instr (show_add table p ps)
      ≡ ok (
          add_instr (record {
            table = table;
            columns = map (λ q. q.0) (p ∷ ps);
            values = map (λ q. q.1) (p ∷ ps);
          }))
parse_instr-show_add table (name, value) ps ht hp hs n =
    (parse_instr_word _).2
    ∙ ap (parse_typed InstrType.add) (remove_spaces-ident name _ hp.0)
    ∙ rw (parse_addinstr-show table (name, value) ps ht hp hs n)
