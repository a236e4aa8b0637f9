-- ===== src/Parser/RoundTrip/Pairs.antt =====
-- Lists of column definitions and of values, read back (server-side/parser/parser.c).
use yacdb.Common.{
  suc, ◌<◌, ◌≡◌, refl, ap, ◌∙◌, some, List, [], ◌∷◌, ◌++◌, length, All, Bytes, arith,
}
use yacdb.Common.Int.{pos}
use yacdb.Common.Memory.{ok}
use yacdb.Common.Text.{codes}
use yacdb.Parser.{Parsed}
use yacdb.Parser.Lex.{is_alphanum, remove_spaces, parse_ident, parse_value, parse_comma}
use yacdb.Parser.Lists.{
  count_comma_list, parse_pair, pair_loop, parse_pair_list, parse_columndef_list,
  parse_addvalue_list,
}
use yacdb.Parser.Format.{IsIdent, IsDef, IsVal, quoted, show_def, show_val, pair_tail}
use yacdb.Parser.Reading.{
  Stops, parse_ident-ident, parse_value-quoted, parse_equalsign-sign, parse_equalsign-quoted,
  parse_comma-comma,
}
use yacdb.Parser.Counting.{count_def, count_val, count_pairs, count_in, count_pairs_end}
use yacdb.Parser.RoundTrip.Idents.{
  Stops-space, Stops-equal, remove_comma, remove_equal, signed-small,
}

Stops-pair_tail :
    (show : Bytes × Bytes → Bytes → Bytes) (ps : List (Bytes × Bytes)) (post : Bytes)
    → Stops is_alphanum post
    → Stops is_alphanum (pair_tail show ps post)
unfolding is_alphanum
Stops-pair_tail show [] post h = h
Stops-pair_tail show (p ∷ ps) post h = refl

parse_pair-def :
    (p : Bytes × Bytes) (post : Bytes)
    → IsDef p
    → Stops is_alphanum post
    → parse_pair parse_ident (show_def p post) ≡ (some p, remove_spaces post)
unfolding parse_pair
parse_pair-def (name, type) post h k =
    rw (parse_ident-ident name (b'=' ∷ (type ++ post)) h.0 (Stops-equal (type ++ post))) (
      rw (remove_equal, parse_equalsign-sign type post h.1, parse_ident-ident type post h.1 k) refl)

parse_pair-val :
    (p : Bytes × Bytes) (post : Bytes)
    → IsVal p
    → parse_pair parse_value (show_val p post) ≡ (some p, remove_spaces post)
unfolding parse_pair
parse_pair-val (name, value) post h =
    rw (parse_ident-ident name (b'=' ∷ quoted value post) h.0 (Stops-equal (quoted value post)))
      (rw (remove_equal, parse_equalsign-quoted value post, parse_value-quoted value post h.1) refl)

-- The loop of the pairs behind the first one, over one way to write a pair that reads back.
module _ (show : Bytes × Bytes → Bytes → Bytes) (read : Bytes → Parsed Bytes)
    (P : Bytes × Bytes → Type 0)
    (starts : (p : Bytes × Bytes) (post : Bytes)
      → P p
      → parse_comma (b',' ∷ b' ' ∷ show p post) ≡ (some tt, show p post))
    (one : (p : Bytes × Bytes) (post : Bytes)
      → P p
      → Stops is_alphanum post
      → parse_pair read (show p post) ≡ (some p, remove_spaces post)) where
  pub pair_loop-pair_tail :
      (ps : List (Bytes × Bytes)) (post : Bytes)
      → All P ps
      → Stops is_alphanum post
      → pair_loop read (length ps) (remove_spaces (pair_tail show ps post))
        ≡ (some ps, remove_spaces post)
  unfolding pair_loop
  pair_loop-pair_tail [] post h k = refl
  pair_loop-pair_tail (p ∷ ps) post h k =
      rw (remove_comma, starts p (pair_tail show ps post) h.0)
        (rw (one p (pair_tail show ps post) h.0 (Stops-pair_tail show ps post k))
          (rw (pair_loop-pair_tail ps post h.1 k) refl))

  -- The list of pairs, where the count of its pairs is known.
  pub parse_pair_list-pair_tail :
      (p : Bytes × Bytes) (ps : List (Bytes × Bytes)) (post : Bytes)
      → P p
      → All P ps
      → Stops is_alphanum post
      → count_comma_list (show p (pair_tail show ps post)) ≡ pos (suc (length ps))
      → parse_pair_list read (show p (pair_tail show ps post))
        ≡ ok (some (p ∷ ps), remove_spaces post)
  unfolding parse_pair_list
  parse_pair_list-pair_tail p ps post hp hs k count =
      rw (count, one p (pair_tail show ps post) hp (Stops-pair_tail show ps post k))
        (rw (pair_loop-pair_tail ps post hs k) refl)

starts_def :
    (p : Bytes × Bytes) (post : Bytes)
    → IsDef p
    → parse_comma (b',' ∷ b' ' ∷ show_def p post) ≡ (some tt, show_def p post)
starts_def (name, type) post h = parse_comma-comma name (b'=' ∷ (type ++ post)) h.0

starts_val :
    (p : Bytes × Bytes) (post : Bytes)
    → IsVal p
    → parse_comma (b',' ∷ b' ' ∷ show_val p post) ≡ (some tt, show_val p post)
starts_val (name, value) post h = parse_comma-comma name (b'=' ∷ quoted value post) h.0

count_defs :
    (p : Bytes × Bytes) (ps : List (Bytes × Bytes))
    → IsDef p
    → All IsDef ps
    → length ps < 127
    → count_comma_list (show_def p (pair_tail show_def ps [])) ≡ pos (suc (length ps))
unfolding count_comma_list
count_defs p ps hp hs n =
    count_def p (pair_tail show_def ps []) 1 0 refl hp
    ∙ count_pairs show_def IsDef count_def ps [] 1 (suc (length ps)) hs (omega arith) (omega arith)
    ∙ count_pairs_end (suc (length ps))
    ∙ signed-small (suc (length ps)) (omega arith)

count_vals :
    (p : Bytes × Bytes) (ps : List (Bytes × Bytes)) (table : Bytes)
    → IsVal p
    → All IsVal ps
    → IsIdent table
    → length ps < 127
    → count_comma_list (show_val p (pair_tail show_val ps (codes " in " ++ table)))
      ≡ pos (suc (length ps))
unfolding count_comma_list
count_vals p ps table hp hs ht n =
    count_val p (pair_tail show_val ps (codes " in " ++ table)) 1 0 refl hp
    ∙ count_pairs show_val IsVal count_val ps (codes " in " ++ table) 1 (suc (length ps)) hs
        (omega arith) (omega arith)
    ∙ count_in table (suc (length ps)) ht
    ∙ signed-small (suc (length ps)) (omega arith)

pub parse_columndef_list-show :
    (p : Bytes × Bytes) (ps : List (Bytes × Bytes))
    → IsDef p
    → All IsDef ps
    → length ps < 127
    → parse_columndef_list (show_def p (pair_tail show_def ps []))
      ≡ ok (some (p ∷ ps), remove_spaces [])
unfolding parse_columndef_list
parse_columndef_list-show p ps hp hs n =
    parse_pair_list-pair_tail show_def parse_ident IsDef starts_def parse_pair-def p ps [] hp hs tt
      (count_defs p ps hp hs n)

remove_in : (table : Bytes) → remove_spaces (codes " in " ++ table) ≡ codes "in " ++ table
unfolding remove_spaces
remove_in table = refl

pub parse_addvalue_list-show :
    (p : Bytes × Bytes) (ps : List (Bytes × Bytes)) (table : Bytes)
    → IsVal p
    → All IsVal ps
    → IsIdent table
    → length ps < 127
    → parse_addvalue_list (show_val p (pair_tail show_val ps (codes " in " ++ table)))
      ≡ ok (some (p ∷ ps), codes "in " ++ table)
unfolding parse_addvalue_list
parse_addvalue_list-show p ps table hp hs ht n =
    parse_pair_list-pair_tail show_val parse_value IsVal starts_val
      (λ q post h _. parse_pair-val q post h) p ps (codes " in " ++ table) hp hs
      (Stops-space (codes "in " ++ table)) (count_vals p ps table hp hs ht n)
    ∙ ap (λ t. ok (some (p ∷ ps), t)) (remove_in table)
