-- ===== src/Record/Compare/Order.antt =====
-- compare_r (server-side/schema/record.c) is an order on the values of one type: the integers by
-- value, the strings by their bytes.
use yacdb.Common.{
  ℕ, ◌+◌, ◌*◌, ◌%◌, ◌^◌, ◌<◌, ◌≤◌, ◌≡◌, ◌↔◌, refl, ap, sym, ◌∙◌, inl, inr, leb, ◌==◌, if◌then◌else◌,
  Bool, true, false, some, [], ◌∷◌, ◌++◌, length, Bytes, arith,
}
use yacdb.Common.Int.{ℤ, pos, negsuc, signed, difference, compare_ℤ, ltb_ℤ, neg}
use yacdb.Common.Memory.{Result, ok, failed, fault, ◌>>=◌}
use yacdb.Common.Text.{strcmp, IsText}
use yacdb.Record.{Record}
use yacdb.Record.Build.{record_from_long, record_from_string}
use yacdb.Record.Get.{read_number}
use yacdb.Record.Get.Laws.{read_number-le_bytes}
use yacdb.Record.Compare.{
  compare_by, compare_signed, compare_r, compare_with, float_lt, compare_float, compare_typed, sign,
  AreComparable, IsStrcmp,
}

-- The second outcome is the first with the other sign.
abbrev Swaps : Result ℤ → Result ℤ → Type 0
Swaps x y = (z : ℤ) → x ≡ ok z → (w : ℤ) × (y ≡ ok w) × (sign w ≡ neg (sign z))

if_Swaps :
    (b : Bool) (x x' y y' : Result ℤ)
    → Swaps x y
    → Swaps x' y'
    → Swaps (if b then x else x') (if b then y else y')
if_Swaps true x x' y y' h k = h
if_Swaps false x x' y y' h k = k

neg-Swaps : (x y : Result ℤ) → ((z : ℤ) → x ≡ ok z → y ≡ ok (neg z)) → Swaps x y
neg-Swaps x y h z e = (neg z, h z e, ground arith)

strcmp-swap : (a b : Bytes) (z : ℤ) → strcmp a b ≡ ok z → strcmp b a ≡ ok (neg z)
unfolding strcmp
strcmp-swap [] b z h = cc
strcmp-swap (x ∷ a) [] z h = cc
strcmp-swap (x ∷ a) (y ∷ b) z h = ground (arith, strcmp-swap a b z)

strcmp-Swaps :
    (strcmp_value : Bytes → Bytes → Result ℤ) (a b : Bytes)
    → IsStrcmp strcmp_value
    → Swaps (strcmp_value a b) (strcmp_value b a)
strcmp-Swaps strcmp_value a b law z h =
    go (strcmp_value b a)
      (law b a ∙ strcmp-swap a b (sign z) (sym (law a b) ∙ ap (λ r. do v ← r; ok (sign v)) h))
  where
    go :
        (r : Result ℤ)
        → (do v ← r; ok (sign v)) ≡ ok (neg (sign z))
        → (w : ℤ) × (r ≡ ok w) × (sign w ≡ neg (sign z))
    go (ok w) e = (w, refl, (cc))
    go failed e = cc
    go fault e = cc

strcmp-IsText :
    (a b : Bytes)
    → IsText a
    → IsText b
    → (strcmp (a ++ 0 ∷ []) (b ++ 0 ∷ []) ≡ ok (pos 0)) ↔ (a ≡ b)
unfolding strcmp
strcmp-IsText [] [] h k = ground arith
strcmp-IsText [] (y ∷ b) h k = ground arith
strcmp-IsText (x ∷ a) [] h k = ground arith
strcmp-IsText (x ∷ a) (y ∷ b) h k = ground (arith, strcmp-IsText a b h.1 k.1)

difference-swap : (a b : Bool) → difference b a ≡ neg (difference a b)
difference-swap true true = refl
difference-swap true false = refl
difference-swap false true = refl
difference-swap false false = refl

compare_by-swap :
    (w : ℕ) (cmp : ℕ → ℕ → ℤ) (r1 r2 : Record) (z : ℤ)
    → ((a b : ℕ) → cmp b a ≡ neg (cmp a b))
    → compare_by w cmp r1 r2 ≡ ok z
    → compare_by w cmp r2 r1 ≡ ok (neg z)
unfolding compare_by
compare_by-swap w cmp r1 r2 z swap h = go (read_number w r1) (read_number w r2) h
  where
    go :
        (m n : Result ℕ)
        → (do a ← m; b ← n; ok (cmp a b)) ≡ ok z
        → (do b ← n; a ← m; ok (cmp b a)) ≡ ok (neg z)
    go (ok a) (ok b) e = ground (arith, swap a b)
    go (ok a) failed e = cc
    go (ok a) fault e = cc
    go failed n e = cc
    go fault n e = cc

signed_swap :
    (half w : ℕ) (r1 r2 : Record) (z : ℤ)
    → compare_by w (compare_signed half) r1 r2 ≡ ok z
    → compare_by w (compare_signed half) r2 r1 ≡ ok (neg z)
signed_swap half w r1 r2 z =
    compare_by-swap w (compare_signed half) r1 r2 z (λ a b. difference-swap (lt b a) (lt a b))
  where
    lt : ℕ → ℕ → Bool
    lt a b = ltb_ℤ (signed half a) (signed half b)

float_swap :
    (r1 r2 : Record) (z : ℤ)
    → compare_by 4 compare_float r1 r2 ≡ ok z
    → compare_by 4 compare_float r2 r1 ≡ ok (neg z)
float_swap r1 r2 z =
    compare_by-swap 4 compare_float r1 r2 z (λ a b. difference-swap (float_lt b a) (float_lt a b))

compare_typed-Swaps :
    (strcmp_value : Bytes → Bytes → Result ℤ) (type : ℕ) (r1 r2 : Record)
    → IsStrcmp strcmp_value
    → Swaps (compare_typed strcmp_value type r1 r2) (compare_typed strcmp_value type r2 r1)
unfolding compare_typed
compare_typed-Swaps strcmp_value type r1 r2 law =
    if_Swaps (type == 1) _ _ _ _ (neg-Swaps _ _ (signed_swap (2 ^ 7) 1 r1 r2)) (
      if_Swaps (type == 4) _ _ _ _ (neg-Swaps _ _ (signed_swap (2 ^ 63) 8 r1 r2)) (
        if_Swaps (type == 2) _ _ _ _ (neg-Swaps _ _ (signed_swap (2 ^ 15) 2 r1 r2)) (
          if_Swaps (type == 3) _ _ _ _ (neg-Swaps _ _ (signed_swap (2 ^ 31) 4 r1 r2)) (
            if_Swaps (type == 5) _ _ _ _ (neg-Swaps _ _ (float_swap r1 r2)) (
              if_Swaps (leb type 7) _ _ _ _ (λ z e. absurd (cc))
                (strcmp-Swaps strcmp_value r1.payload r2.payload law))))))

compare_typed-string :
    (strcmp_value : Bytes → Bytes → Result ℤ) (type : ℕ) (r1 r2 : Record)
    → 7 < type
    → compare_typed strcmp_value type r1 r2 ≡ strcmp_value r1.payload r2.payload
unfolding compare_typed
compare_typed-string strcmp_value type r1 r2 h = ground arith

compare_with-comparable :
    (strcmp_value : Bytes → Bytes → Result ℤ) (r1 r2 : Record)
    → AreComparable r1 r2
    → compare_with strcmp_value r1 r2 ≡ compare_typed strcmp_value r1.type r1 r2
unfolding compare_with
compare_with-comparable strcmp_value r1 r2 h = ground arith

-- Exchanging the arguments of a comparison changes the sign of its result, for every type: two records
-- of one type, or two strings, with any `strcmp` whose value has the sign that C says.
pub compare_with-swap :
    (strcmp_value : Bytes → Bytes → Result ℤ) (r1 r2 : Record) (z : ℤ)
    → IsStrcmp strcmp_value
    → AreComparable r1 r2
    → compare_with strcmp_value r1 r2 ≡ ok z
    → (w : ℤ) × (compare_with strcmp_value r2 r1 ≡ ok w) × (sign w ≡ neg (sign z))
compare_with-swap strcmp_value r1 r2 z law (inl same) h =
    let at = sym (compare_with-comparable strcmp_value r1 r2 (inl same)) ∙ h in
    let (w, e, k) = compare_typed-Swaps strcmp_value r1.type r1 r2 law z at in
    let back = compare_with-comparable strcmp_value r2 r1 (inl (sym same)) in
    (w, back ∙ ap (λ t. compare_typed strcmp_value t r2 r1) (sym same) ∙ e, k)
compare_with-swap strcmp_value r1 r2 z law (inr (long1, long2)) h =
    let at =
      sym (
        compare_with-comparable strcmp_value r1 r2 (inr (long1, long2))
        ∙ compare_typed-string strcmp_value r1.type r1 r2 long1)
      ∙ h in
    let (w, e, k) = strcmp-Swaps strcmp_value r1.payload r2.payload law z at in
    let back =
      compare_with-comparable strcmp_value r2 r1 (inr (long2, long1))
      ∙ compare_typed-string strcmp_value r2.type r2 r1 long2 in
    (w, back ∙ e, k)

-- Two strings without a zero byte compare as equal exactly when they are the same text. Their
-- lengths are below 247, so that no type wraps around.
pub compare_r-record_from_string :
    (s t : Bytes)
    → IsText s
    → IsText t
    → length s ≤ 246
    → length t ≤ 246
    → (compare_r (record_from_string (some s)) (record_from_string (some t)) ≡ ok (pos 0)) ↔ (s ≡ t)
unfolding compare_r compare_with record_from_string
compare_r-record_from_string s t hs ht ls lt =
    let es : (7 + length s + 2) % 256 ≡ length s + 9 = omega arith in
    let et : (7 + length t + 2) % 256 ≡ length t + 9 = omega arith in
    rw (es, et, compare_typed-string strcmp (length s + 9) _ _ (omega arith))
      (ground (arith, strcmp-IsText s t hs ht))

eq_of_signed : (half a b : ℕ) → a < 2 * half → b < 2 * half → signed half a ≡ signed half b → a ≡ b
eq_of_signed half a b ha hb h = ground arith

compare_ℤ-eq-zero : (a b : ℤ) → (compare_ℤ a b ≡ pos 0) ↔ (a ≡ b)
compare_ℤ-eq-zero a b = ground arith

compare_r-long :
    (a b : ℕ)
    → a < 256 ^ 8
    → b < 256 ^ 8
    → compare_r (record_from_long (some a)) (record_from_long (some b))
      ≡ ok (compare_signed (2 ^ 63) a b)
unfolding compare_r compare_with compare_typed compare_by record_from_long
compare_r-long a b ha hb = rw (read_number-le_bytes 8 a 4 ha, read_number-le_bytes 8 b 4 hb)

compare_ℤ-less : (a b : ℤ) → (compare_ℤ a b ≡ negsuc 0) ↔ (ltb_ℤ a b ≡ true)
compare_ℤ-less a b = ground arith

ok_iff : (a b : ℤ) {P : Type 0} → (a ≡ b) ↔ P → (ok a ≡ ok b) ↔ P
ok_iff a b h = (λ e. h.0 (cc), λ p. ap ok (h.1 p))

equal : (a b : ℕ) → a < 256 ^ 8 → b < 256 ^ 8 → (compare_signed (2 ^ 63) a b ≡ pos 0) ↔ (a ≡ b)
equal a b ha hb = (
  λ e. eq_of_signed (2 ^ 63) a b (omega arith) (omega arith) ((compare_ℤ-eq-zero _ _).0 e),
  λ e. (compare_ℤ-eq-zero _ _).1 (ap (signed (2 ^ 63)) e),
)

-- Two longs compare as equal exactly when they are equal, and as less exactly when the first is
-- less as a signed number.
pub compare_r-record_from_long :
    (a b : ℕ)
    → a < 256 ^ 8
    → b < 256 ^ 8
    → ((compare_r (record_from_long (some a)) (record_from_long (some b)) ≡ ok (pos 0)) ↔ (a ≡ b))
      × ((compare_r (record_from_long (some a)) (record_from_long (some b)) ≡ ok (negsuc 0))
          ↔ (ltb_ℤ (signed (2 ^ 63) a) (signed (2 ^ 63) b) ≡ true))
compare_r-record_from_long a b ha hb = rw (compare_r-long a b ha hb) (
  ok_iff _ _ (equal a b ha hb),
  ok_iff _ _ (compare_ℤ-less (signed (2 ^ 63) a) (signed (2 ^ 63) b)),
)
