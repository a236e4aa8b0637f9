-- ===== src/Common/Text.antt =====
-- C strings: `strcmp`, reading up to the terminator, and the decimal output of `sprintf`.
use native.Mathlib.Nat.{pow-suc}
use Prim.Native.Char.{code}
use Prim.Native.String.{String}
use Prim.Native.Nat.{ℕ, zero, suc, ◌+◌, ◌-◌, ◌*◌, ◌/◌, ◌%◌, ◌^◌, ◌≤◌, ◌<◌}
use mathlib.Core.Path.{◌≡◌, refl, ap, ◌∙◌}
use mathlib.Core.Logic.{inl, inr}
use mathlib.Core.List.{[], ◌∷◌, ◌++◌}
use native.Mathlib.Omega.{arith}
use yacdb.Common.Tests.{ltb, ◌==◌, if◌then◌else◌, Bool-cases, ltb→lt, lt→ltb}
use yacdb.Common.Lists.{length, All, length-append}
use yacdb.Common.Endian.{Bytes}
use yacdb.Common.Int.{ℤ, pos, negsuc, pos_part, neg_part}
use yacdb.Common.Memory.{Result, ok, fault, ◌>>=◌}

-- The bytes before the terminator.
unfoldable pub c_str : Bytes → Bytes
c_str [] = []
c_str (b ∷ bs) = if b == 0 then [] else b ∷ c_str bs

-- A byte that a C string can hold.
abbrev pub IsTextByte : ℕ → Type 0
IsTextByte b = (0 < b) × (b < 256)

abbrev pub IsText : Bytes → Type 0
IsText = All IsTextByte

-- The sign of `strcmp`, which is all that C says of its value. A buffer that ends before a difference
-- or a terminator is read past its end.
unfoldable pub strcmp : Bytes → Bytes → Result ℤ
strcmp [] ys = fault
strcmp (x ∷ xs) [] = fault
strcmp (x ∷ xs) (y ∷ ys) =
    let rest = strcmp xs ys in
    if x == y
    then (if x == 0 then ok (pos 0) else rest)
    else if ltb x y
    then ok (negsuc 0)
    else ok (pos 1)

-- The decimal digits of a number, at most `fuel` of them.
unfoldable pub digits : ℕ → ℕ → Bytes
digits zero n = []
digits (suc fuel) n =
    let rest = digits fuel (n / 10) in
    if ltb n 10 then (48 + n) ∷ [] else rest ++ (48 + n % 10) ∷ []

-- `%d` on a signed number; no C integer has more than 20 digits.
unfoldable pub decimal : ℤ → Bytes
decimal (pos n) = digits 20 n
decimal (negsuc n) = b'-' ∷ digits 20 (n + 1)

-- The number that digits stand for.
abbrev pub digits_value : ℕ → Bytes → ℕ
digits_value acc [] = acc
digits_value acc (d ∷ ds) = digits_value (acc * 10 + (d - 48)) ds

digits_value-append :
    (acc : ℕ) (xs ys : Bytes) → digits_value acc (xs ++ ys) ≡ digits_value (digits_value acc xs) ys
digits_value-append acc [] ys = refl
digits_value-append acc (x ∷ xs) ys = digits_value-append (acc * 10 + (x - 48)) xs ys

pub digits_value-digits : (fuel n : ℕ) → n < 10 ^ fuel → digits_value 0 (digits fuel n) ≡ n
unfolding digits
digits_value-digits zero n h = omega arith
digits_value-digits (suc fuel) n h = elim (Bool-cases (ltb n 10)) [
  | inl small ↦ rw small (omega arith)
  | inr big ↦
      rw (big, digits_value-append 0 (digits fuel (n / 10)) _)
        (rw (digits_value-digits fuel (n / 10) (omega (arith, pow-suc 10 fuel))) (omega arith))
]

-- A number below 10 ^ k has at most k digits.
pub length-digits-le : (k fuel n : ℕ) → 0 < k → n < 10 ^ k → length (digits fuel n) ≤ k
unfolding digits
length-digits-le k zero n p h = omega arith
length-digits-le zero (suc fuel) n p h = elim p [ ]
length-digits-le (suc zero) (suc fuel) n p h = rw (lt→ltb n 10 h) (omega arith)
length-digits-le (suc (suc k)) (suc fuel) n p h = elim (Bool-cases (ltb n 10)) [
  | inl small ↦ rw small (omega arith)
  | inr big ↦
      rw (big, length-append)
        (omega (
          arith,
          length-digits-le (suc k) fuel (n / 10) (omega arith) (omega (arith, pow-suc 10 (suc k))),
        ))
]

-- A number from 10 ^ k on has more than k digits.
pub lt-length-digits : (k fuel n : ℕ) → k < fuel → 10 ^ k ≤ n → k < length (digits fuel n)
unfolding digits
lt-length-digits zero (suc fuel) n p h = elim (Bool-cases (ltb n 10)) [
  | inl small ↦ rw small (omega arith)
  | inr big ↦ rw (big, length-append) (omega arith)
]
lt-length-digits k zero n p h = absurd (omega arith)
lt-length-digits (suc k) (suc fuel) n p h = elim (Bool-cases (ltb n 10)) [
  | inl small ↦ absurd (omega (arith, ltb→lt n 10 small, pow-suc 10 k, one_le k))
  | inr big ↦
      rw (big, length-append)
        (omega
          (arith, lt-length-digits k fuel (n / 10) (omega arith) (omega (arith, pow-suc 10 k))))
]
  where
    one_le : (j : ℕ) → 1 ≤ 10 ^ j
    one_le zero = omega arith
    one_le (suc j) = omega (arith, one_le j, pow-suc 10 j)

pub c_str-append : (s : Bytes) → IsText s → (rest : Bytes) → c_str (s ++ 0 ∷ rest) ≡ s
unfolding c_str
c_str-append [] h rest = refl
c_str-append (b ∷ s) h rest = ground (arith, c_str-append s h.1 rest)

-- `strcpy` out of a buffer: the bytes before the terminator, which the buffer must hold.
unfoldable pub load_str : Bytes → Result Bytes
load_str [] = fault
load_str (b ∷ bs) = let rest = load_str bs in if b == 0 then ok [] else (do s ← rest; ok (b ∷ s))

pub load_str-append : (s : Bytes) → IsText s → (post : Bytes) → load_str (s ++ 0 ∷ post) ≡ ok s
unfolding load_str
load_str-append [] h post = refl
load_str-append (b ∷ s) h post = ground (arith, load_str-append s h.1 post)

-- The number that the output of `%d` stands for.
unfoldable pub decimal_value : Bytes → ℤ
decimal_value [] = pos 0
decimal_value (c ∷ cs) =
    if c == b'-' then negsuc (digits_value 0 cs - 1) else pos (digits_value 0 (c ∷ cs))

IsDigit-append :
    (xs ys : Bytes) → All (λ d. 48 ≤ d) xs → All (λ d. 48 ≤ d) ys → All (λ d. 48 ≤ d) (xs ++ ys)
IsDigit-append [] ys h k = k
IsDigit-append (x ∷ xs) ys h k = (h.0, IsDigit-append xs ys h.1 k)

digits-IsDigit : (fuel n : ℕ) → All (λ d. 48 ≤ d) (digits fuel n)
unfolding digits
digits-IsDigit zero n = tt
digits-IsDigit (suc fuel) n = elim (Bool-cases (ltb n 10)) [
  | inl small ↦ rw small (omega arith, tt)
  | inr big ↦ rw big (IsDigit-append _ _ (digits-IsDigit fuel (n / 10)) (omega arith, tt))
]

decimal_value-IsDigit :
    (ds : Bytes) → All (λ d. 48 ≤ d) ds → decimal_value ds ≡ pos (digits_value 0 ds)
unfolding decimal_value
decimal_value-IsDigit [] h = refl
decimal_value-IsDigit (d ∷ ds) h = ground arith

-- The digits of `%d` denote the number that is printed.
pub decimal_value-decimal :
    (z : ℤ) → pos_part z < 10 ^ 20 → neg_part z < 10 ^ 20 → decimal_value (decimal z) ≡ z
unfolding decimal
decimal_value-decimal (pos n) h k =
    decimal_value-IsDigit (digits 20 n) (digits-IsDigit 20 n) ∙ ap pos (digits_value-digits 20 n h)
decimal_value-decimal (negsuc n) h k =
    unfold decimal_value in
    (ap (λ m. negsuc (m - 1)) (digits_value-digits 20 (n + 1) (omega arith))
      ∙ ap negsuc (omega arith))

-- The bytes of a literal, which is ASCII.
abbrev pub codes : String → Bytes
codes String.[] = []
codes (String.◌∷◌ c s) = code c ∷ codes s
