-- ===== src/Parser/RoundTrip/Idents.antt =====
-- The keywords and lists of names of server-side/parser/parser.c, read back.
use yacdb.Common.{
  ℕ, suc, ◌+◌, ◌<◌, ◌≡◌, refl, ap, true, false, some, List, [], ◌∷◌, ◌++◌, length, All, Bytes,
  arith, lt→ltb,
}
use yacdb.Common.Int.{pos, signed}
use yacdb.Common.Memory.{ok}
use yacdb.Common.Text.{codes}
use yacdb.Parser.{InstrType, Keyword, kw_where, kw_from}
use yacdb.Parser.Lex.{
  is_alphanum, remove_spaces, parse_expected_keyword, keyword_word, parse_instrtype, instrtype_loop,
  strip_prefix,
}
use yacdb.Parser.Lists.{count_comma_list, ident_loop, parse_comma_list}
use yacdb.Parser.Instructions.{parse_typed, parse_instr}
use yacdb.Parser.Format.{IsIdent, comma_tail}
use yacdb.Parser.Reading.{Stops, remove_spaces-ident, parse_ident-ident, parse_comma-comma}
use yacdb.Parser.Counting.{count_ident, count_idents}

-- A keyword, a space and a name.
pub keyword_ident :
    (k : Keyword) (s post : Bytes)
    → IsIdent s
    → parse_expected_keyword (keyword_word k ++ (b' ' ∷ (s ++ post))) k ≡ (some tt, s ++ post)
unfolding parse_expected_keyword strip_prefix remove_spaces
keyword_ident kw_where s post h = ap (λ t. (some tt, t)) (remove_spaces-ident s post h)
keyword_ident kw_from s post h = ap (λ t. (some tt, t)) (remove_spaces-ident s post h)
keyword_ident _ s post h = ap (λ t. (some tt, t)) (remove_spaces-ident s post h)

pub Stops-comma_tail :
    (xs : List Bytes) (post : Bytes)
    → Stops is_alphanum post
    → Stops is_alphanum (comma_tail xs post)
unfolding is_alphanum
Stops-comma_tail [] post h = h
Stops-comma_tail (x ∷ xs) post h = refl

pub Stops-space : (post : Bytes) → Stops is_alphanum (b' ' ∷ post)
unfolding is_alphanum
Stops-space post = refl

pub remove_comma : (post : Bytes) → remove_spaces (b',' ∷ post) ≡ b',' ∷ post
unfolding remove_spaces
remove_comma post = refl

pub Stops-equal : (post : Bytes) → Stops is_alphanum (b'=' ∷ post)
unfolding is_alphanum
Stops-equal post = refl

pub remove_equal : (post : Bytes) → remove_spaces (b'=' ∷ post) ≡ b'=' ∷ post
unfolding remove_spaces
remove_equal post = refl

-- The loop reads the items behind the first one, and the spaces behind the last.
pub ident_loop-comma_tail :
    (xs : List Bytes) (post : Bytes)
    → All IsIdent xs
    → Stops is_alphanum post
    → ident_loop (length xs) (remove_spaces (comma_tail xs post)) ≡ (some xs, remove_spaces post)
unfolding ident_loop
ident_loop-comma_tail [] post h k = refl
ident_loop-comma_tail (x ∷ xs) post h k =
    rw (remove_comma, parse_comma-comma x (comma_tail xs post) h.0)
      (rw (parse_ident-ident x (comma_tail xs post) h.0 (Stops-comma_tail xs post k))
        (rw (ident_loop-comma_tail xs post h.1 k) refl))

pub signed-small : (n : ℕ) → n < 128 → signed 128 n ≡ pos n
signed-small n h = rw (lt→ltb n 128 h)

-- A list of names with a space and a letter behind it.
pub parse_comma_list-comma_tail :
    (x : Bytes) (xs : List Bytes) (c : ℕ) (post : Bytes)
    → IsIdent x
    → All IsIdent xs
    → is_alphanum c ≡ true
    → length xs < 127
    → parse_comma_list (x ++ comma_tail xs (b' ' ∷ c ∷ post))
      ≡ ok (some (x ∷ xs), remove_spaces (b' ' ∷ c ∷ post))
unfolding parse_comma_list count_comma_list
parse_comma_list-comma_tail x xs c post hx hs hc n =
    rw (count_ident x (comma_tail xs (b' ' ∷ c ∷ post)) 1 0 false refl hx) (
      rw (count_idents xs c post 1 hs hc (omega arith)) (
        rw (e, signed-small (suc (length xs)) (omega arith))
          (rw
            (parse_ident-ident x (comma_tail xs (b' ' ∷ c ∷ post)) hx
              (Stops-comma_tail xs (b' ' ∷ c ∷ post) (Stops-space (c ∷ post))))
            (rw (ident_loop-comma_tail xs (b' ' ∷ c ∷ post) hs (Stops-space (c ∷ post))) refl))))
  where
    e : 1 + length xs ≡ suc (length xs)
    e = omega arith

-- The word of an instruction, with a space behind it, selects its parser.
pub parse_instr_word :
    (post : Bytes)
    → (parse_instr (codes "sel " ++ post) ≡ parse_typed InstrType.sel (remove_spaces post))
      × (parse_instr (codes "crt " ++ post) ≡ parse_typed InstrType.crt (remove_spaces post))
      × (parse_instr (codes "add " ++ post) ≡ parse_typed InstrType.add (remove_spaces post))
unfolding parse_instr parse_instrtype instrtype_loop strip_prefix remove_spaces
parse_instr_word post = (refl, refl, refl)
