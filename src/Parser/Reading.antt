-- ===== src/Parser/Reading.antt =====
-- The token functions of server-side/parser/parser.c on text that holds the token.
use yacdb.Common.{ℕ, ◌≡◌, refl, ap, Bool, true, false, not, some, [], ◌∷◌, ◌++◌, All, Bytes, arith}
use yacdb.Parser.Lex.{
  is_alphanum, is_quote, is_blank, remove_spaces, scan, parse_ident, parse_value, parse_comma,
  parse_equalsign, parse_condition,
}
use yacdb.Parser.Format.{IsIdent, IsQuotable, quoted}

-- The text ends here, or its next byte fails the test.
abbrev pub Stops : (ℕ → Bool) → Bytes → Type 0
Stops test [] = Unit
Stops test (c ∷ cs) = test c ≡ false

pub scan-append :
    (test : ℕ → Bool) (s post : Bytes)
    → All (λ b. test b ≡ true) s
    → Stops test post
    → scan test (s ++ post) ≡ (s, post)
unfolding scan
scan-append test [] [] h k = refl
scan-append test [] (c ∷ cs) h k = rw k
scan-append test (b ∷ s) post h k = rw (h.0, scan-append test s post h.1 k)

-- A letter is no space.
letter-is_blank : (c : ℕ) → is_alphanum c ≡ true → is_blank c ≡ false
unfolding is_alphanum
letter-is_blank c h = ground arith

pub remove_spaces-ident : (s post : Bytes) → IsIdent s → remove_spaces (s ++ post) ≡ s ++ post
unfolding remove_spaces
remove_spaces-ident [] post h = absurd (omega (arith, h.some_letter))
remove_spaces-ident (c ∷ s) post h = rw (letter-is_blank c h.letters.0)

pub parse_ident-ident :
    (s post : Bytes)
    → IsIdent s
    → Stops is_alphanum post
    → parse_ident (s ++ post) ≡ (some s, remove_spaces post)
unfolding parse_ident
parse_ident-ident [] post h k = absurd (omega (arith, h.some_letter))
parse_ident-ident (c ∷ s) post h k =
    rw (scan-append is_alphanum (c ∷ s) post h.letters k) (ground (arith, h.short))

pub parse_value-quoted :
    (v post : Bytes) → IsQuotable v → parse_value (quoted v post) ≡ (some v, remove_spaces post)
unfolding parse_value
parse_value-quoted v post h =
    rw (scan-append (λ b. not (is_quote b)) v (b'"' ∷ post) (negate v h) refl) refl
  where
    negate : (s : Bytes) → IsQuotable s → All (λ b. not (is_quote b) ≡ true) s
    negate [] k = tt
    negate (b ∷ s) k = (rw k.0 refl, negate s k.1)

pub parse_equalsign-sign :
    (s post : Bytes) → IsIdent s → parse_equalsign (b'=' ∷ (s ++ post)) ≡ (some tt, s ++ post)
unfolding parse_equalsign
parse_equalsign-sign s post h = rw (remove_spaces-ident s post h)

pub parse_equalsign-quoted :
    (v post : Bytes) → parse_equalsign (b'=' ∷ quoted v post) ≡ (some tt, quoted v post)
unfolding parse_equalsign remove_spaces
parse_equalsign-quoted v post = refl

pub parse_comma-comma :
    (s post : Bytes) → IsIdent s → parse_comma (b',' ∷ b' ' ∷ (s ++ post)) ≡ (some tt, s ++ post)
unfolding parse_comma remove_spaces
parse_comma-comma s post h = ap (λ t. (some tt, t)) (remove_spaces-ident s post h)

pub parse_condition-cond :
    (col val : Bytes)
    → IsIdent col
    → IsQuotable val
    → parse_condition (col ++ (b'=' ∷ quoted val [])) ≡ (some (record { col = col; val = val }), [])
unfolding parse_condition remove_spaces is_alphanum
parse_condition-cond col val h k =
    rw (parse_ident-ident col (b'=' ∷ quoted val []) h refl)
      (rw (parse_equalsign-quoted val []) (rw (parse_value-quoted val [] k) refl))
