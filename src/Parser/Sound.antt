-- ===== src/Parser/Sound.antt =====
-- What the lists of server-side/parser/parser.c hold when they are read, and where reading stops.
use mathlib.Core.List.{append_assoc}
use mathlib.Core.Path.{subst}
use yacdb.Common.{
  ℕ, zero, suc, ◌≡◌, refl, sym, ap, ◌∙◌, Bool, true, none, some, List, [], ◌∷◌, ◌++◌, ltb, inl, inr,
  Bool-cases, ltb-false, length, All, Bytes, arith, ◌==◌,
}
use yacdb.Common.Int.{ℤ, pos, negsuc}
use yacdb.Common.Memory.{ok}
use yacdb.Parser.{Parsed, and_then}
use yacdb.Parser.Lex.{
  is_alphanum, is_blank, remove_spaces, scan, take_ident, parse_ident, parse_comma,
}
use yacdb.Parser.Lists.{count_comma_list, ident_loop, of_size, parse_comma_list}
use yacdb.Parser.Format.{IsIdent}

-- `rest` is the end of `text`.
abbrev pub IsEnd : Bytes → Bytes → Type 0
IsEnd rest text = (passed : Bytes) × (text ≡ passed ++ rest)

IsEnd-refl : (text : Bytes) → IsEnd text text
IsEnd-refl text = ([], refl)

IsEnd-trans : (a b c : Bytes) → IsEnd a b → IsEnd b c → IsEnd a c
IsEnd-trans a b c (p, e) (q, f) = (q ++ p, f ∙ ap (λ t. q ++ t) e ∙ sym (append_assoc q p a))

IsEnd-cons : (x : ℕ) (a b : Bytes) → IsEnd a b → IsEnd a (x ∷ b)
IsEnd-cons x a b (p, e) = (x ∷ p, ap (◌∷◌ x) e)

remove_spaces-IsEnd : (text : Bytes) → IsEnd (remove_spaces text) text
unfolding remove_spaces
remove_spaces-IsEnd [] = IsEnd-refl []
remove_spaces-IsEnd (c ∷ cs) = elim (Bool-cases (is_blank c)) [
  | inl blank ↦ rw blank (IsEnd-cons c (remove_spaces cs) cs (remove_spaces-IsEnd cs))
  | inr other ↦ rw other (IsEnd-refl (c ∷ cs))
]

-- What `scan` passes satisfies the test, and what is left is the end of the text.
scan_parts :
    (test : ℕ → Bool) (text : Bytes)
    → All (λ b. test b ≡ true) (scan test text).0 × IsEnd (scan test text).1 text
unfolding scan
scan_parts test [] = (tt, IsEnd-refl [])
scan_parts test (c ∷ cs) = elim (Bool-cases (test c)) [
  | inl passes ↦
      let (letters, e) = scan_parts test cs in
      rw passes ((passes, letters), IsEnd-cons c (scan test cs).1 cs e)
  | inr stops ↦ rw stops (tt, IsEnd-refl (c ∷ cs))
]

-- The value is one that the parser may give, and the rest is the end of the text.
abbrev pub IsGood {ℓ} : {A : Type ℓ} → (A → Type 0) → Bytes → Parsed A → Type 0
IsGood P text (none, rest) = IsEnd rest text
IsGood P text (some a, rest) = P a × IsEnd rest text

and_then-IsGood {ℓ κ} :
    {A : Type ℓ} {B : Type κ} (P : A → Type 0) (Q : B → Type 0) (text : Bytes) (m : Parsed A)
    (f : A → Bytes → Parsed B)
    → IsGood P text m
    → ((a : A) (rest : Bytes) → P a → IsEnd rest text → IsGood Q text (f a rest))
    → IsGood Q text (and_then m f)
and_then-IsGood P Q text (none, rest) f h k = h
and_then-IsGood P Q text (some a, rest) f h k = k a rest h.0 h.1

-- A result on the end of a text is one on the whole text.
IsGood-widen {ℓ} :
    {A : Type ℓ} (P : A → Type 0) (inner text : Bytes) (m : Parsed A)
    → IsEnd inner text
    → IsGood P inner m
    → IsGood P text m
IsGood-widen P inner text (none, rest) e h = IsEnd-trans rest inner text h e
IsGood-widen P inner text (some a, rest) e h = (h.0, IsEnd-trans rest inner text h.1 e)

pub parse_ident-IsGood : (text : Bytes) → IsGood IsIdent text (parse_ident text)
unfolding parse_ident
parse_ident-IsGood text = read (scan is_alphanum text) (scan_parts is_alphanum text)
  where
    read :
        (parts : Bytes × Bytes)
        → All (λ b. is_alphanum b ≡ true) parts.0 × IsEnd parts.1 text
        → IsGood IsIdent text (take_ident text parts)
    read ([], rest) h = IsEnd-refl text
    read (c ∷ cs, rest) (letters, e) =
        let after = IsEnd-trans (remove_spaces rest) rest text (remove_spaces-IsEnd rest) e in
        elim (Bool-cases (ltb 20 (length (c ∷ cs)))) [
          | inl long ↦ rw long after
          | inr short ↦ rw short (
            record {
              letters = letters;
              some_letter = omega arith;
              short = ltb-false 20 (length (c ∷ cs)) short;
            },
            after,
          )
        ]

pub parse_comma-IsGood : (text : Bytes) → IsGood (λ _. Unit {0}) text (parse_comma text)
unfolding parse_comma
parse_comma-IsGood [] = IsEnd-refl []
parse_comma-IsGood (c ∷ cs) = elim (Bool-cases (c == b',')) [
  | inl comma ↦ rw comma (tt, IsEnd-cons c (remove_spaces cs) cs (remove_spaces-IsEnd cs))
  | inr other ↦ rw other (IsEnd-refl (c ∷ cs))
]

-- As many names as were counted.
abbrev AreIdents : ℕ → List Bytes → Type 0
AreIdents n xs = All IsIdent xs × (length xs ≡ n)

ident_loop-IsGood : (n : ℕ) (text : Bytes) → IsGood (AreIdents n) text (ident_loop n text)
unfolding ident_loop
ident_loop-IsGood zero text = ((tt, refl), IsEnd-refl text)
ident_loop-IsGood (suc n) text =
    and_then-IsGood (λ _. Unit {0}) (AreIdents (suc n)) text (parse_comma text) _
      (parse_comma-IsGood text)
      λ _ after_comma _ e.
        and_then-IsGood IsIdent (AreIdents (suc n)) text (parse_ident after_comma) _
          (IsGood-widen IsIdent after_comma text _ e (parse_ident-IsGood after_comma))
          λ x after_x hx e'.
            and_then-IsGood (AreIdents n) (AreIdents (suc n)) text (ident_loop n after_x) _
              (IsGood-widen (AreIdents n) after_x text _ e' (ident_loop-IsGood n after_x))
              λ xs rest hxs e''. (((hx, hxs.0), ap suc hxs.1), e'')

-- The list behind a count.
abbrev Counted : ℤ → List Bytes → Type 0
Counted z xs = All IsIdent xs × (z ≡ pos (length xs))

idents : ℕ → Bytes → Parsed (List Bytes)
idents n text =
    and_then (parse_ident text)
      λ ident after_ident. and_then (ident_loop n after_ident) λ xs rest. (some (ident ∷ xs), rest)

idents-IsGood : (n : ℕ) (text : Bytes) → IsGood (Counted (pos (suc n))) text (idents n text)
unfolding idents
idents-IsGood n text =
    and_then-IsGood IsIdent (Counted (pos (suc n))) text (parse_ident text) _
      (parse_ident-IsGood text)
      λ x after_x hx e.
        and_then-IsGood (AreIdents n) (Counted (pos (suc n))) text (ident_loop n after_x) _
          (IsGood-widen (AreIdents n) after_x text _ e (ident_loop-IsGood n after_x))
          λ xs rest hxs e'. (((hx, hxs.0), ap (λ k. pos (suc k)) (sym hxs.1)), e')

of_size-IsGood :
    (z : ℤ) (text : Bytes) (m : Parsed (List Bytes))
    → of_size z text (λ n. idents n text) ≡ ok m
    → IsGood (Counted z) text m
of_size-IsGood (pos zero) text m h =
    let e : (none, text) ≡ m = cc in subst (IsGood (Counted (pos zero)) text) e (IsEnd-refl text)
of_size-IsGood (pos (suc n)) text m h =
    let e : idents n text ≡ m = cc in
    subst (IsGood (Counted (pos (suc n))) text) e (idents-IsGood n text)
of_size-IsGood (negsuc n) text m h = cc

-- A list of columns that `parse_comma_list` gives has as many entries as `count_comma_list`
-- counted, each an identifier of 1 to 20 letters or digits; and whatever it gives, it stops inside
-- the text that it was given.
pub parse_comma_list-IsGood :
    (text : Bytes) (m : Parsed (List Bytes))
    → parse_comma_list text ≡ ok m
    → IsGood (λ xs. All IsIdent xs × (count_comma_list text ≡ pos (length xs))) text m
unfolding parse_comma_list idents
parse_comma_list-IsGood text m h = of_size-IsGood (count_comma_list text) text m h
