-- ===== src/Parser/Counting.antt =====
-- count_comma_list (server-side/parser/parser.c) on the lists of an instruction.
use mathlib.Core.List.{append-nil}
use yacdb.Common.{
  ℕ, ◌+◌, ◌%◌, ◌<◌, ◌≡◌, refl, sym, ap, ◌∙◌, Bool, true, false, not, ◌&&◌, List, [], ◌∷◌, ◌++◌,
  ◌==◌, length, All, Bytes, arith,
}
use yacdb.Common.Int.{signed}
use yacdb.Common.Text.{codes}
use yacdb.Parser.Lex.{is_alphanum}
use yacdb.Parser.Lists.{Counter, count_step, count_loop, next}
use yacdb.Parser.Format.{
  IsIdent, IsQuotable, IsDef, IsVal, comma_tail, quoted, pair_tail, show_def, show_val,
}

-- A state outside quotes.
abbrev pub outside : ℕ → ℕ → Bool → Counter
outside k last equal = record { count = k; last = last; equal = equal; in_quote = false }

-- Where a letter does not end the list.
abbrev Goes : ℕ → Bool → Type 0
Goes last equal = (last == b' ' && not equal) ≡ false

step_letter :
    (k last : ℕ) (equal : Bool) (c : ℕ)
    → Goes last equal
    → is_alphanum c ≡ true
    → count_step (outside k last equal) c ≡ next (outside k b'a' equal)
unfolding count_step is_alphanum
step_letter k last equal c g h = ground arith

pub count_letters :
    (s post : Bytes) (k last : ℕ) (equal : Bool)
    → Goes last equal
    → All (λ b. is_alphanum b ≡ true) s
    → 0 < length s
    → count_loop (outside k last equal) (s ++ post) ≡ count_loop (outside k b'a' equal) post
unfolding count_loop
count_letters [] post k last equal g h n = absurd (omega arith)
count_letters (c ∷ []) post k last equal g h n =
    rw (step_letter k last equal c g h.0, count_loop) refl
count_letters (c ∷ d ∷ s) post k last equal g h n =
    rw (step_letter k last equal c g h.0, count_loop)
      (count_letters (d ∷ s) post k b'a' equal refl h.1 (omega arith))

pub count_ident :
    (s post : Bytes) (k last : ℕ) (equal : Bool)
    → Goes last equal
    → IsIdent s
    → count_loop (outside k last equal) (s ++ post) ≡ count_loop (outside k b'a' equal) post
count_ident s post k last equal g h = count_letters s post k last equal g h.letters h.some_letter

-- Inside quotes everything is passed.
count_quoted :
    (v post : Bytes) (k last : ℕ) (equal : Bool)
    → IsQuotable v
    → count_loop
        (record { count = k; last = last; equal = equal; in_quote = true })
        (v ++ (b'"' ∷ post))
      ≡ count_loop (outside k b'a' equal) post
unfolding count_loop count_step
count_quoted [] post k last equal h = refl
count_quoted (c ∷ v) post k last equal h =
    rw (h.0, count_loop) (count_quoted v post k last equal h.1)

-- The comma and the space between two items.
count_comma :
    (post : Bytes) (k last : ℕ) (equal : Bool)
    → k + 1 < 256
    → count_loop (outside k last equal) (b',' ∷ b' ' ∷ post)
      ≡ count_loop (outside (k + 1) b',' false) post
unfolding count_loop count_step is_alphanum
count_comma post k last equal h = let e : (k + 1) % 256 ≡ k + 1 = omega arith in rw e refl

count_equal :
    (post : Bytes) (k : ℕ)
    → count_loop (outside k b'a' false) (b'=' ∷ post) ≡ count_loop (outside k b'a' true) post
unfolding count_loop count_step is_alphanum
count_equal post k = refl

-- A space and a letter end a list of names.
count_end :
    (c : ℕ) (post : Bytes) (k : ℕ)
    → is_alphanum c ≡ true
    → count_loop (outside k b'a' false) (b' ' ∷ c ∷ post) ≡ signed 128 k
unfolding count_loop count_step is_alphanum
count_end c post k h = ground arith

pub count_idents :
    (xs : List Bytes) (c : ℕ) (post : Bytes) (k : ℕ)
    → All IsIdent xs
    → is_alphanum c ≡ true
    → k + length xs < 256
    → count_loop (outside k b'a' false) (comma_tail xs (b' ' ∷ c ∷ post))
      ≡ signed 128 (k + length xs)
count_idents [] c post k hs hc n = count_end c post k hc ∙ ap (signed 128) (omega arith)
count_idents (x ∷ xs) c post k hs hc n =
    count_comma (x ++ comma_tail xs (b' ' ∷ c ∷ post)) k b'a' false (omega arith)
    ∙ count_ident x (comma_tail xs (b' ' ∷ c ∷ post)) (k + 1) b',' false refl hs.0
    ∙ count_idents xs c post (k + 1) hs.1 hc (omega arith)
    ∙ ap (signed 128) (omega arith)

pub count_def :
    (p : Bytes × Bytes) (post : Bytes) (k last : ℕ)
    → Goes last false
    → IsDef p
    → count_loop (outside k last false) (show_def p post) ≡ count_loop (outside k b'a' true) post
count_def (name, type) post k last g h =
    count_ident name (b'=' ∷ (type ++ post)) k last false g h.0
    ∙ count_equal (type ++ post) k
    ∙ count_ident type post k b'a' true refl h.1

count_quote :
    (post : Bytes) (k : ℕ)
    → count_loop (outside k b'a' true) (b'"' ∷ post)
      ≡ count_loop (record { count = k; last = b'a'; equal = true; in_quote = true }) post
unfolding count_loop count_step
count_quote post k = refl

pub count_val :
    (p : Bytes × Bytes) (post : Bytes) (k last : ℕ)
    → Goes last false
    → IsVal p
    → count_loop (outside k last false) (show_val p post) ≡ count_loop (outside k b'a' true) post
count_val (name, value) post k last g h =
    count_ident name (b'=' ∷ quoted value post) k last false g h.0
    ∙ count_equal (quoted value post) k
    ∙ count_quote (value ++ (b'"' ∷ post)) k
    ∙ count_quoted value post k b'a' true h.1

-- Both lists of pairs, by the count of one pair.
module _ (show : Bytes × Bytes → Bytes → Bytes) (P : Bytes × Bytes → Type 0)
    (one : (p : Bytes × Bytes) (post : Bytes) (k last : ℕ)
      → Goes last false
      → P p
      → count_loop (outside k last false) (show p post)
        ≡ count_loop (outside k b'a' true) post) where
  pub count_pairs :
      (ps : List (Bytes × Bytes)) (post : Bytes) (k n : ℕ)
      → All P ps
      → k + length ps < 256
      → k + length ps ≡ n
      → count_loop (outside k b'a' true) (pair_tail show ps post)
        ≡ count_loop (outside n b'a' true) post
  count_pairs [] post k n hs h e = let e' : k ≡ n = omega arith in rw e' refl
  count_pairs (p ∷ ps) post k n hs h e =
      count_comma (show p (pair_tail show ps post)) k b'a' true (omega arith)
      ∙ one p (pair_tail show ps post) (k + 1) b',' refl hs.0
      ∙ count_pairs ps post (k + 1) n hs.1 (omega arith) (omega arith)

count_nil : (k last : ℕ) (equal : Bool) → count_loop (outside k last equal) [] ≡ signed 128 k
unfolding count_loop
count_nil k last equal = refl

-- What follows the values of an `add` instruction does not end the list.
pub count_in :
    (table : Bytes) (k : ℕ)
    → IsIdent table
    → count_loop (outside k b'a' true) (codes " in " ++ table) ≡ signed 128 k
unfolding count_loop count_step is_alphanum
count_in table k h =
    ap (count_loop (outside k b' ' true)) (sym (append-nil table))
    ∙ count_ident table [] k b' ' true refl h
    ∙ count_nil k b'a' true

pub count_pairs_end : (k : ℕ) → count_loop (outside k b'a' true) [] ≡ signed 128 k
count_pairs_end k = count_nil k b'a' true
