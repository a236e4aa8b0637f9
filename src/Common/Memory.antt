-- ===== src/Common/Memory.antt =====
-- What a C routine returns, and bounds-checked reads and writes of a heap buffer.
use Prim.Native.Nat.{ℕ, ◌+◌, ◌<◌}
use mathlib.Core.Path.{◌≡◌}
use mathlib.Core.List.{◌∷◌, ◌++◌}
use mathlib.Core.Option.{Option, none, some}
use native.Mathlib.Omega.{arith}
use yacdb.Common.Tests.{leb, if◌then◌else◌}
use yacdb.Common.Lists.{
  length, take, drop, get_elem?, length-append, take-length-append, drop-length-append, drop-append,
  drop-drop, get_elem?-append,
}
use yacdb.Common.Endian.{Bytes}

-- `failed` is the routine's own error value (`NULL` or -1). `fault` is undefined behaviour: an
-- access outside a buffer, or through a null pointer.
pub data Result {ℓ} (A : Type ℓ) : Type ℓ where
  ok : A → Result A
  failed : Result A
  fault : Result A

-- The next call runs on the value of the one before, if that returned.
infixl 5 ◌>>=◌
abbrev pub ◌>>=◌ {ι ℓ} : {T : Type ι} {U : Type ℓ} → Result T → (T → Result U) → Result U
ok value >>= next = next value
fault >>= next = fault
failed >>= next = failed

-- `memcpy(out, buffer + offs, n)`.
unfoldable pub load : Bytes → ℕ → ℕ → Result Bytes
load buffer offs n =
    if leb (offs + n) (length buffer) then ok (take n (drop offs buffer)) else fault

of_option {ℓ} : {A : Type ℓ} → Option A → Result A
of_option none = fault
of_option (some a) = ok a

-- `buffer[offs]`.
unfoldable pub load_byte : Bytes → ℕ → Result ℕ
unfolding of_option
load_byte buffer offs = of_option (get_elem? buffer offs)

-- `memcpy(buffer + offs, bytes, length bytes)`.
unfoldable pub store : Bytes → ℕ → Bytes → Result Bytes
store buffer offs bytes =
    if leb (offs + length bytes) (length buffer)
    then ok (take offs buffer ++ (bytes ++ drop (offs + length bytes) buffer))
    else fault

pub load-append :
    (pre xs post : Bytes) → load (pre ++ (xs ++ post)) (length pre) (length xs) ≡ ok xs
unfolding load
load-append pre xs post =
    rw (drop-length-append pre (xs ++ post), take-length-append xs post)
      (ground (arith, length-append pre (xs ++ post), length-append xs post))

pub load_byte-append :
    (pre : Bytes) (x : ℕ) (post : Bytes) → load_byte (pre ++ x ∷ post) (length pre) ≡ ok x
unfolding load_byte
load_byte-append pre x post = rw get_elem?-append

pub store-append :
    (pre xs ys post : Bytes)
    → length xs ≡ length ys
    → store (pre ++ (xs ++ post)) (length pre) ys ≡ ok (pre ++ (ys ++ post))
unfolding store
store-append pre xs ys post h =
    let tail : drop (length pre + length ys) (pre ++ (xs ++ post)) ≡ post =
      rw (← drop-drop (length ys) (length pre) (pre ++ (xs ++ post)))
        (rw (drop-length-append pre (xs ++ post)) (drop-append (length ys) xs post h)) in
    rw (tail, take-length-append pre (xs ++ post))
      (ground (arith, length-append pre (xs ++ post), length-append xs post))

-- A read that passes the end of the buffer.
pub load_outside : (b : Bytes) (offs n : ℕ) → length b < offs + n → load b offs n ≡ fault
unfolding load
load_outside b offs n h = ground arith

pub ok_injective {ℓ} : {A : Type ℓ} {a b : A} → ok a ≡ ok b → a ≡ b
ok_injective h = cc
